-- ===== src/Crfg/UntilImported/Countdown.antt =====
-- Many waits of one commit complete in any interleaving: the last one has the commit.
use yeeroot.Prelude.{
  ℕ, ◌+◌, ◌-◌, ◌%◌, ◌^◌, ◌≤◌, ◌<◌, ◌≡◌, ◌≢◌, refl, sym, subst, ◌⊎◌, ◌↔◌, inl, inr, Bool, true,
  false, none, some, List, [], ◌∷◌, ◌++◌, ◌==◌, if◌then◌else◌, arith, length,
}
use yeeroot.Crfg.UntilImported.{
  CompactCommit, Shared, Handle, arrived, holding, finished, refused, advance,
}

pub record System : Type 0 where
  pub shared : Shared
  pub handles : List Handle

-- Any one of the calls takes its next step.
pub data Step : System → System → Type 0 where
  pick :
      (before after : List Handle) (h : Handle) (s : Shared)
      → Step
          (record { shared = s; handles = before ++ (h ∷ after) })
          (record { shared = (advance h s).1; handles = before ++ ((advance h s).0 ∷ after) })

pub data Reach (start : System) : System → Type 0 where
  here : Reach start start
  later : {s t : System} → Reach start s → Step s t → Reach start t

-- A call that has not counted down, and one that gave the commit.
abbrev pub uncounted : Handle → ℕ
uncounted (arrived target canon) = 1
uncounted (holding n) = 1
uncounted (finished result) = 0
uncounted refused = 1

abbrev pub gave : Handle → ℕ
gave (finished (some b)) = 1
gave (finished none) = 0
gave (arrived target canon) = 0
gave (holding n) = 0
gave refused = 0

abbrev pub tally : (Handle → ℕ) → List Handle → ℕ
tally f [] = 0
tally f (h ∷ hs) = f h + tally f hs

tally-append : (f : Handle → ℕ) (xs ys : List Handle) → tally f (xs ++ ys) ≡ tally f xs + tally f ys
tally-append f [] ys = omega arith
tally-append f (x ∷ xs) ys = omega (arith, tally-append f xs ys)

-- What a call read of the counter is not below it.
abbrev Fresh : ℕ → Handle → Type 0
Fresh count (arrived target canon) = Unit
Fresh count (holding n) = count ≤ n
Fresh count (finished result) = Unit
Fresh count refused = Unit

abbrev AllFresh : ℕ → List Handle → Type 0
AllFresh count [] = Unit
AllFresh count (h ∷ hs) = Fresh count h × AllFresh count hs

Fresh-mono : (m n : ℕ) (h : Handle) → m ≤ n → Fresh n h → Fresh m h
Fresh-mono m n (arrived target canon) le f = tt
Fresh-mono m n (holding k) le f = omega arith
Fresh-mono m n (finished result) le f = tt
Fresh-mono m n refused le f = tt

AllFresh-mono : (m n : ℕ) (hs : List Handle) → m ≤ n → AllFresh n hs → AllFresh m hs
AllFresh-mono m n [] le f = tt
AllFresh-mono m n (h ∷ hs) le f = (Fresh-mono m n h le f.0, AllFresh-mono m n hs le f.1)

AllFresh-split :
    (n : ℕ) (xs : List Handle) (h : Handle) (ys : List Handle)
    → AllFresh n (xs ++ (h ∷ ys))
    → AllFresh n xs × Fresh n h × AllFresh n ys
AllFresh-split n [] h ys f = (tt, f.0, f.1)
AllFresh-split n (x ∷ xs) h ys f = let (a, b, c) = AllFresh-split n xs h ys f.1 in ((f.0, a), b, c)

AllFresh-join :
    (n : ℕ) (xs : List Handle) (h : Handle) (ys : List Handle)
    → AllFresh n xs
    → Fresh n h
    → AllFresh n ys
    → AllFresh n (xs ++ (h ∷ ys))
AllFresh-join n [] h ys a b c = (b, c)
AllFresh-join n (x ∷ xs) h ys a b c = (a.0, AllFresh-join n xs h ys a.1 b c)

-- The commit is there and the counter counts the calls that have not counted down, or all have and
-- one gave the commit.
abbrev Balanced : Shared → ℕ → ℕ → Type 0
Balanced s left given =
    ((b : ℕ × CompactCommit) × (s.slot ≡ some b)
      × (s.count ≡ left)
      × (given ≡ 0)
      × (0 < left)
      × (left < 2 ^ 64))
    ⊎ ((s.slot ≡ none) × (left ≡ 0) × (given ≡ 1))

unfoldable pub Inv : System → Type 0
Inv s =
    AllFresh s.shared.count s.handles
    × Balanced s.shared (tally uncounted s.handles) (tally gave s.handles)

-- What a step of one call keeps, among calls of which `left` others have not counted down and
-- `given` others gave the commit.
abbrev Kept : ℕ → ℕ → Shared → Handle × Shared → Type 0
Kept left given s r =
    Balanced r.1 (uncounted r.0 + left) (gave r.0 + given)
    × (r.1.count ≤ s.count)
    × Fresh r.1.count r.0

arrived-Kept :
    (s : Shared) (left given : ℕ) (same : Bool)
    → Balanced s (1 + left) (0 + given)
    → Kept left given s (if same then (holding s.count, s) else (refused, s))
arrived-Kept s left given true b = (b, omega arith, omega arith)
arrived-Kept s left given false b = (b, omega arith, tt)

taken :
    (s : Shared) (left given : ℕ)
    → s.count ≤ 1
    → Balanced s (1 + left) (0 + given)
    → Kept left given s (finished s.slot, record s { slot = none })
taken s left given le (inr (empty, none_left, one)) = absurd (omega arith)
taken s left given le (inl (b, full, counts, zero_given, pos, small)) =
    let last : left ≡ 0 = omega arith in
    rw full (inr (refl, omega arith, omega arith), omega arith, tt)

swapped :
    (s : Shared) (left given n : ℕ)
    → s.count ≡ n
    → n ≢ 1
    → Balanced s (1 + left) (0 + given)
    → Kept left given s (finished none, record s { count = (n + 2 ^ 64 - 1) % 2 ^ 64 })
swapped s left given n same more (inr (empty, none_left, one)) = absurd (omega arith)
swapped s left given n same more (inl (b, full, counts, zero_given, pos, small)) =
    let down : (n + 2 ^ 64 - 1) % 2 ^ 64 ≡ left = omega arith in
    (inl (b, full, omega arith, omega arith, omega arith, omega arith), omega arith, tt)

holding-Kept :
    (s : Shared) (left given n : ℕ) (last same : Bool)
    → (n == 1) ≡ last
    → (s.count == n) ≡ same
    → s.count ≤ n
    → Balanced s (1 + left) (0 + given)
    → Kept left given s (
        if last
        then (finished s.slot, record s { slot = none })
        else if same
        then (finished none, record s { count = (n + 2 ^ 64 - 1) % 2 ^ 64 })
        else (holding s.count, s))
holding-Kept s left given n true same e1 e2 le b =
    let one : n ≡ 1 = ground arith in taken s left given (omega arith) b
holding-Kept s left given n false true e1 e2 le b =
    let more : n ≢ 1 = ground arith in
    let equal : s.count ≡ n = ground arith in swapped s left given n equal more b
holding-Kept s left given n false false e1 e2 le b = (b, omega arith, omega arith)

advance-Kept :
    (h : Handle) (s : Shared) (left given : ℕ)
    → Fresh s.count h
    → Balanced s (uncounted h + left) (gave h + given)
    → Kept left given s (advance h s)
unfolding advance
advance-Kept (arrived target canon) s left given f b = arrived-Kept s left given (target == canon) b
advance-Kept (holding n) s left given f b =
    holding-Kept s left given n (n == 1) (s.count == n) refl refl f b
advance-Kept (finished result) s left given f b = (b, omega arith, tt)
advance-Kept refused s left given f b = (b, omega arith, tt)

Step-Inv : (s t : System) → Inv s → Step s t → Inv t
unfolding Inv
Step-Inv s t inv (pick before after h shared) =
    let (f1, f2, f3) = AllFresh-split shared.count before h after inv.0 in
    let apart : (f : Handle → ℕ) (x : Handle)
        → tally f (before ++ (x ∷ after)) ≡ f x + (tally f before + tally f after) =
      λ f x. omega (arith, tally-append f before (x ∷ after)) in
    let left = tally uncounted before + tally uncounted after in
    let given = tally gave before + tally gave after in
    let (balanced, lower, fresh) = advance-Kept h shared left given f2 (
      subst (λ m. Balanced shared m (gave h + given)) (apart uncounted h)
        (subst (Balanced shared (tally uncounted (before ++ (h ∷ after)))) (apart gave h) inv.1)) in
    let next = advance h shared in
    (
      AllFresh-join next.1.count before next.0 after
          (AllFresh-mono next.1.count shared.count before lower f1) fresh
          (AllFresh-mono next.1.count shared.count after lower f3),
      subst (λ m. Balanced next.1 m (tally gave (before ++ (next.0 ∷ after))))
          (sym (apart uncounted next.0))
          (subst (Balanced next.1 (uncounted next.0 + left)) (sym (apart gave next.0)) balanced),
    )

Reach-Inv : (s t : System) → Inv s → Reach s t → Inv t
Reach-Inv s t inv here = inv
Reach-Inv s t inv (later {s = m} before step) = Step-Inv m t (Reach-Inv s m inv before) step

-- `schedule_wait` made the calls for the unknown blocks, and none has begun.
abbrev pub all_arrived : List (ℕ × ℕ) → List Handle
all_arrived [] = []
all_arrived ((target, canon) ∷ numbers) = arrived target canon ∷ all_arrived numbers

abbrev pub begun : (ℕ × CompactCommit) → List (ℕ × ℕ) → System
begun b numbers = record {
  shared = record { count = length numbers; slot = some b };
  handles = all_arrived numbers;
}

arrived-AllFresh : (n : ℕ) (numbers : List (ℕ × ℕ)) → AllFresh n (all_arrived numbers)
arrived-AllFresh n [] = tt
arrived-AllFresh n ((target, canon) ∷ numbers) = (tt, arrived-AllFresh n numbers)

tally-arrived :
    (numbers : List (ℕ × ℕ))
    → (tally uncounted (all_arrived numbers) ≡ length numbers)
      × (tally gave (all_arrived numbers) ≡ 0)
tally-arrived [] = (refl, refl)
tally-arrived ((target, canon) ∷ numbers) =
    let (some_left, none_given) = tally-arrived numbers in
    (omega (arith, some_left), omega (arith, none_given))

begun-Inv :
    (b : ℕ × CompactCommit) (numbers : List (ℕ × ℕ))
    → 0 < length numbers
    → length numbers < 2 ^ 64
    → Inv (begun b numbers)
unfolding Inv
begun-Inv b numbers pos small =
    let (left, given) = tally-arrived numbers in
    (
      arrived-AllFresh (length numbers) numbers,
      inl (b, refl, sym left, given, omega (arith, left), omega (arith, left)),
    )

balanced_given :
    (s : System)
    → Inv s
    → (tally gave s.handles ≤ 1) × ((tally gave s.handles ≡ 1) ↔ (tally uncounted s.handles ≡ 0))
unfolding Inv
balanced_given s inv = elim inv.1 [
  | inl (b, full, counts, zero_given, pos, small) ↦ ground arith
  | inr (empty, none_left, one) ↦ ground arith
]

-- However the calls for the waits of one commit, at least one of them, interleave: never more than one of them has given a commit,
-- and one has exactly if every call has counted down, so that none was refused for a wrong number
-- and none is still on its way.
pub Reach-gave :
    (b : ℕ × CompactCommit) (numbers : List (ℕ × ℕ)) (s : System)
    → 0 < length numbers
    → length numbers < 2 ^ 64
    → Reach (begun b numbers) s
    → (tally gave s.handles ≤ 1) × ((tally gave s.handles ≡ 1) ↔ (tally uncounted s.handles ≡ 0))
Reach-gave b numbers s pos small reach =
    balanced_given s (Reach-Inv (begun b numbers) s (begun-Inv b numbers pos small) reach)
