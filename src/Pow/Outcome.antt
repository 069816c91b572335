-- ===== src/Pow/Outcome.antt =====
-- What a call of the node gives: a value, an error or a panic.
use yeeroot.Prelude.{◌≡◌, refl, Bool, true, false, Option, none, some, arith}

pub data Outcome (A : Type 0) : Type 0 where
  ok : A → Outcome A
  err panic : Outcome A

-- The chain of outcomes: an error or a panic ends it.
infixl 5 ◌>>=◌ ◌>>◌
abbrev pub ◌>>=◌ : {A B : Type 0} → Outcome A → (A → Outcome B) → Outcome B
◌>>=◌ (ok a) f = f a
◌>>=◌ err f = err
◌>>=◌ panic f = panic

abbrev pub ◌>>◌ : {A B : Type 0} → Outcome A → Outcome B → Outcome B
m >> k = m >>= λ _. k

-- `expect`, `ok_or` and an early return of an error.
abbrev pub expect : {A : Type 0} → Option A → Outcome A
expect none = panic
expect (some a) = ok a

abbrev pub ok_or : {A : Type 0} → Option A → Outcome A
ok_or none = err
ok_or (some a) = ok a

abbrev pub require : Bool → Outcome (Unit {0})
require true = ok tt
require false = err

-- A chain that gives a value has a value at each of its links.
pub bind-ok :
    {A B : Type 0} (o : Outcome A) (f : A → Outcome B) (b : B)
    → (o >>= f) ≡ ok b
    → (a : A) × (o ≡ ok a) × (f a ≡ ok b)
bind-ok (ok a) f b eq = (a, refl, eq)
bind-ok err f b eq = absurd (ground arith)
bind-ok panic f b eq = absurd (ground arith)

pub expect-ok : {A : Type 0} (o : Option A) (a : A) → expect o ≡ ok a → o ≡ some a
expect-ok none a eq = absurd (ground arith)
expect-ok (some b) a eq = ground arith

pub ok_or-ok : {A : Type 0} (o : Option A) (a : A) → ok_or o ≡ ok a → o ≡ some a
ok_or-ok none a eq = absurd (ground arith)
ok_or-ok (some b) a eq = ground arith

pub require-ok : (b : Bool) (u : Unit {0}) → require b ≡ ok u → b ≡ true
require-ok true u eq = refl
require-ok false u eq = absurd (ground arith)
