-- ===== src/Pow/Compact/Climb.antt =====
-- What a compact Merkle proof shows, against the tree of hashes over the headers of all shards.
use native.Mathlib.Nat.{two-pow-succ}
use yeeroot.Prelude.{
  ℕ, zero, suc, ◌+◌, ◌-◌, ◌*◌, ◌/◌, ◌%◌, ◌^◌, ◌<◌, ◌≡◌, refl, ap, ◌∙◌, inl, inr, Bool, true, false,
  List, [], ◌∷◌, ◌==◌, if◌then◌else◌, length, arith, Bool-cases,
}
use yeeroot.Pow.Compact.{path_of}

below_half : (h i : ℕ) → i < 2 ^ suc h → i / 2 < 2 ^ h
below_half h i lt = omega (arith, two-pow-succ h)

module _ {H : Type 0} where
  -- From a leaf to the root: at `true` the node is the left child of the next one.
  unfoldable pub climb : (H → H → H) → H → List H → List Bool → H
  climb node x [] path = x
  climb node x (s ∷ ss) [] = x
  climb node x (s ∷ ss) (b ∷ bs) = climb node (if b then node x s else node s x) ss bs

  -- The nodes one level up.
  abbrev pub parents : (H → H → H) → (ℕ → H) → ℕ → H
  parents node f i = node (f (2 * i)) (f (2 * i + 1))

  -- The root over the `2 ^ h` leaves at `0, 1, ..`, and the siblings on the way up from one of them.
  unfoldable pub tree_root : (H → H → H) → ℕ → (ℕ → H) → H
  tree_root node zero f = f 0
  tree_root node (suc h) f = tree_root node h (parents node f)

  unfoldable pub siblings : (H → H → H) → ℕ → (ℕ → H) → ℕ → List H
  siblings node zero f i = []
  siblings node (suc h) f i =
      f (if i % 2 == 0 then i + 1 else i - 1) ∷ siblings node h (parents node f) (i / 2)

  joined :
      (node : H → H → H) (f : ℕ → H) (i : ℕ)
      → (if i % 2 == 0
          then node (f i) (f (if i % 2 == 0 then i + 1 else i - 1))
          else node (f (if i % 2 == 0 then i + 1 else i - 1)) (f i))
        ≡ parents node f (i / 2)
  joined node f i = elim (Bool-cases (i % 2 == 0)) [
    | inl even ↦ let e : i ≡ 2 * (i / 2) = ground arith in ground (arith, e)
    | inr odd ↦ let e : i ≡ 2 * (i / 2) + 1 = ground arith in ground (arith, e)
  ]

  -- The siblings of the leaf at `i`, below `2 ^ h`, lead from it to the root of the tree.
  pub climb-siblings :
      (node : H → H → H) (h i : ℕ) (f : ℕ → H)
      → i < 2 ^ h
      → climb node (f i) (siblings node h f i) (path_of h i) ≡ tree_root node h f
  unfolding climb siblings path_of tree_root
  climb-siblings node zero i f lt = ap f (omega arith)
  climb-siblings node (suc h) i f lt =
      ap (λ x. climb node x (siblings node h (parents node f) (i / 2)) (path_of h (i / 2)))
        (joined node f i)
      ∙ climb-siblings node h (i / 2) (parents node f) (below_half h i lt)

  module _ (node : H → H → H)
      (injective : (a b c e : H) → node a b ≡ node c e → (a ≡ c) × (b ≡ e)) where
    split_join :
        (f : ℕ → H) (i : ℕ) (x s : H)
        → (if i % 2 == 0 then node x s else node s x) ≡ parents node f (i / 2)
        → (x ≡ f i) × (s ≡ f (if i % 2 == 0 then i + 1 else i - 1))
    split_join f i x s h = elim (Bool-cases (i % 2 == 0)) [
      | inl even ↦
          let e : i ≡ 2 * (i / 2) = ground arith in
          let j = injective x s (f (2 * (i / 2))) (f (2 * (i / 2) + 1)) (ground arith) in
          ground (arith, e, j.0, j.1)
      | inr odd ↦
          let e : i ≡ 2 * (i / 2) + 1 = ground arith in
          let j = injective s x (f (2 * (i / 2))) (f (2 * (i / 2) + 1)) (ground arith) in
          ground (arith, e, j.0, j.1)
    ]

    -- If no two pairs of nodes have one hash, only the leaf at `i` itself leads to the root, and
    -- only by its siblings.
    pub climb-binds :
        (h i : ℕ) (f : ℕ → H) (x : H) (ss : List H)
        → i < 2 ^ h
        → length ss ≡ h
        → climb node x ss (path_of h i) ≡ tree_root node h f
        → (x ≡ f i) × (ss ≡ siblings node h f i)
    unfolding climb siblings path_of tree_root
    climb-binds zero i f x [] lt len up = (up ∙ ap f (omega arith), refl)
    climb-binds zero i f x (s ∷ ss) lt len up = absurd (omega arith)
    climb-binds (suc h) i f x [] lt len up = absurd (omega arith)
    climb-binds (suc h) i f x (s ∷ ss) lt len up =
        let above =
          climb-binds h (i / 2) (parents node f) (if i % 2 == 0 then node x s else node s x) ss
            (below_half h i lt) (omega arith) up in
        let below = split_join f i x s above.0 in (below.0, cc (below.1, above.1))

    -- From one root, on one way with as many siblings, there is one leaf.
    pub climb-injective :
        (x y : H) (ss ts : List H) (path : List Bool)
        → length ss ≡ length ts
        → climb node x ss path ≡ climb node y ts path
        → x ≡ y
    unfolding climb
    climb-injective x y [] [] path len up = up
    climb-injective x y [] (t ∷ ts) path len up = absurd (omega arith)
    climb-injective x y (s ∷ ss) [] path len up = absurd (omega arith)
    climb-injective x y (s ∷ ss) (t ∷ ts) [] len up = up
    climb-injective x y (s ∷ ss) (t ∷ ts) (true ∷ bs) len up =
        (injective x s y t (climb-injective (node x s) (node y t) ss ts bs (omega arith) up)).0
    climb-injective x y (s ∷ ss) (t ∷ ts) (false ∷ bs) len up =
        (injective s x t y (climb-injective (node s x) (node t y) ss ts bs (omega arith) up)).1
