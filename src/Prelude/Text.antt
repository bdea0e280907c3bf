-- ===== src/Prelude/Text.antt =====
-- Texts: concatenation under a name of its own, and texts without a slash.
use Prim.Native.Char.{code}
use Prim.Native.String.{◌++◌, ◌∷◌ as push}
use text.Mathlib.TextLemmas.{cons-eq-cons, nil-append, cons-append}
use famfun.Prelude.{String, ◌≡◌, ◌≢◌, ap, ap₂, refl, sym, ◌∙◌}

-- s + t
infixr 65 ◌⧺◌
abbrev pub ◌⧺◌ : String → String → String
s ⧺ t = s ++ t

abbrev pub SlashFree : String → Type 0
SlashFree String.[] = Unit
SlashFree (String.◌∷◌ c s) = (code c ≢ b'/') × SlashFree s

pub slash : (t : String) → "/" ⧺ t ≡ push "/" t
slash t = cons-append "/" "" t ∙ ap (push "/") (nil-append t)

-- What stands before the first slash and what stands behind it are determined.
pub split_unique :
    (s s' t t' : String)
    → SlashFree s
    → SlashFree s'
    → s ⧺ ("/" ⧺ t) ≡ s' ⧺ ("/" ⧺ t')
    → (s ≡ s') × (t ≡ t')
split_unique String.[] String.[] t t' f g e =
    let e' = sym (slash t) ∙ sym (nil-append _) ∙ e ∙ nil-append _ ∙ slash t' in
    (refl, (cons-eq-cons.0 e').1)
split_unique String.[] (String.◌∷◌ d s') t t' f g e =
    let e' = sym (slash t) ∙ sym (nil-append _) ∙ e ∙ cons-append d s' _ in
    absurd (g.0 (ap code (sym (cons-eq-cons.0 e').0)))
split_unique (String.◌∷◌ c s) String.[] t t' f g e =
    let e' = sym (slash t') ∙ sym (nil-append _) ∙ sym e ∙ cons-append c s _ in
    absurd (f.0 (ap code (sym (cons-eq-cons.0 e').0)))
split_unique (String.◌∷◌ c s) (String.◌∷◌ d s') t t' f g e =
    let e' = cons-eq-cons.0 (sym (cons-append c s _) ∙ e ∙ cons-append d s' _) in
    let (p, q) = split_unique s s' t t' f.1 g.1 e'.1 in (ap₂ push e'.0 p, q)
