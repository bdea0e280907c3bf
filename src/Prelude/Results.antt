-- ===== src/Prelude/Results.antt =====
-- Go's `(value, error)` results as values, with `do` blocks. `panic` is a run-time panic, such as the
-- dereference of a nil pointer, which no `err != nil` test sees.
use Prim.Native.Nat.{ℕ}
use Prim.Native.String.{String}
use mathlib.Core.List.{List}
use mathlib.Core.Bool.{Bool, true, false}
use mathlib.Core.Option.{Option, none, some}
use mathlib.Core.Path.{◌≡◌, refl}
use mathlib.Core.Logic.{◌≢◌, ◌⊎◌, inl, inr}

-- An argument of a format string.
pub data Arg : Type 0 where
  str : String → Arg
  num : ℕ → Arg

-- An error value: `fmt.Errorf(format, args...)`, `fmt.Errorf("context: %w", err)`, or an error that
-- a library outside the repository made, known by its text.
pub data Error : Type 0 where
  errorf : String → List Arg → Error
  wrap : String → Error → Error
  library : String → Error

pub data Result {ℓ} (A : Type ℓ) : Type ℓ where
  panic : Result A
  err : Error → Result A
  ok : A → Result A

infixl 5 ◌>>=◌ ◌>>◌
abbrev pub ◌>>=◌ {ℓ κ} : {A : Type ℓ} {B : Type κ} → Result A → (A → Result B) → Result B
panic >>= next = panic
err e >>= next = err e
ok a >>= next = next a

abbrev pub ◌>>◌ {ℓ} : {A : Type ℓ} → Result (Unit {0}) → Result A → Result A
first >> second = first >>= λ _. second

-- `if err != nil { return fmt.Errorf("context: %w", err) }`
abbrev pub context {ℓ} : {A : Type ℓ} → String → Result A → Result A
context c (ok a) = ok a
context c (err e) = err (wrap c e)
context c panic = panic

abbrev pub or_fail {ℓ} : {A : Type ℓ} → Option A → Error → Result A
or_fail none e = err e
or_fail (some a) e = ok a

-- `if !test { return err }`
abbrev pub guard : Bool → Error → Result (Unit {0})
guard false failure = err failure
guard true failure = ok tt

pub err_ne_ok {ℓ} : {A : Type ℓ} {e : Error} {a : A} → err e ≢ ok a
err_ne_ok h = cc

-- What a successful chain passed through.
pub bind-ok {ℓ κ} :
    {A : Type ℓ} {B : Type κ} (first : Result A) (next : A → Result B) (b : B)
    → (first >>= next) ≡ ok b
    → (a : A) × (first ≡ ok a) × (next a ≡ ok b)
bind-ok panic next b passed = absurd cc
bind-ok (err e) next b passed = absurd cc
bind-ok (ok a) next b passed = (a, refl, passed)

pub then-ok {ℓ} :
    {B : Type ℓ} (r : Result (Unit {0})) (k : Result B) (b : B)
    → (r >> k) ≡ ok b
    → (r ≡ ok tt) × (k ≡ ok b)
then-ok (ok tt) k b h = (refl, h)
then-ok (err e) k b h = absurd cc
then-ok panic k b h = absurd cc

pub context-ok {ℓ} :
    {A : Type ℓ} (c : String) (r : Result A) (a : A) → context c r ≡ ok a → r ≡ ok a
context-ok c (ok a') a h = h
context-ok c (err e) a h = absurd cc
context-ok c panic a h = absurd cc

pub guard-ok : (b : Bool) (e : Error) (t : Unit {0}) → guard b e ≡ ok t → b ≡ true
guard-ok true e t h = refl
guard-ok false e t h = absurd cc

pub or_fail-ok {ℓ} :
    {A : Type ℓ} (o : Option A) (e : Error) (a : A) → or_fail o e ≡ ok a → o ≡ some a
or_fail-ok (some a') e a h = cc
or_fail-ok none e a h = absurd cc

pub Result-cases {ℓ} :
    {A : Type ℓ} (r : Result A) → ((a : A) × (r ≡ ok a)) ⊎ ((e : Error) × (r ≡ err e)) ⊎ (r ≡ panic)
Result-cases (ok a) = inl (a, refl)
Result-cases (err e) = inr (inl (e, refl))
Result-cases panic = inr (inr refl)
