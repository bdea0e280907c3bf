-- ===== src/Prelude/Exec.antt =====
-- Actions that read and change a state and may fail. The state that a failing action leaves behind
-- is kept, as Go keeps it.
use famfun.Prelude.{Result, ok, err, panic, Error, wrap, String, ◌≡◌, refl}

abbrev pub Exec : Type 0 → Type 0 → Type 0
Exec S A = S → Result A × S

abbrev pub pure : {S A : Type 0} → A → Exec S A
pure a s = (ok a, s)

abbrev pub raise : {S A : Type 0} → Error → Exec S A
raise e s = (err e, s)

abbrev pub lift : {S A : Type 0} → Result A → Exec S A
lift r s = (r, s)

abbrev pub next : {S A B : Type 0} → Result A × S → (A → Exec S B) → Result B × S
next (ok a, s) f = f a s
next (err e, s) f = (err e, s)
next (panic, s) f = (panic, s)

infixl 5 ◌>>=◌ ◌>>◌
abbrev pub ◌>>=◌ : {S A B : Type 0} → Exec S A → (A → Exec S B) → Exec S B
◌>>=◌ m f s = next (m s) f

abbrev pub ◌>>◌ : {S B : Type 0} → Exec S (Unit {0}) → Exec S B → Exec S B
m >> k = m >>= λ _. k

abbrev pub wrapped : {S A : Type 0} → String → Result A × S → Result A × S
wrapped c (ok a, s) = (ok a, s)
wrapped c (err e, s) = (err (wrap c e), s)
wrapped c (panic, s) = (panic, s)

-- `if err != nil { return fmt.Errorf("context: %w", err) }`
abbrev pub context : {S A : Type 0} → String → Exec S A → Exec S A
context c m s = wrapped c (m s)

-- What a successful action passed through.
pub next-ok :
    {S A B : Type 0} (p : Result A × S) (f : A → Exec S B) (b : B) (s' : S)
    → next p f ≡ (ok b, s')
    → (a : A) × (s : S) × (p ≡ (ok a, s)) × (f a s ≡ (ok b, s'))
next-ok (ok a, s) f b s' h = (a, s, refl, h)
next-ok (err e, s) f b s' h = absurd cc
next-ok (panic, s) f b s' h = absurd cc

pub wrapped-ok :
    {S A : Type 0} (c : String) (p : Result A × S) (a : A) (s : S)
    → wrapped c p ≡ (ok a, s)
    → p ≡ (ok a, s)
wrapped-ok c (ok a', s') a s h = h
wrapped-ok c (err e, s') a s h = absurd cc
wrapped-ok c (panic, s') a s h = absurd cc

pub pure-ok : {S A : Type 0} (a b : A) (s s' : S) → pure a s ≡ (ok b, s') → a ≡ b
pure-ok a b s s' h = cc
