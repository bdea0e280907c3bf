-- ===== src/Home/FilePath/Plain.antt =====
-- path/filepath: names without a slash, and what the program makes of them.
use Prim.Native.Char.{code}
use Prim.Native.String.{◌∷◌ as push}
use text.Mathlib.TextLemmas.{nil-append, cons-append, cons-ne-nil, cons-eq-cons}
use famfun.Prelude.{
  ◌≡◌, ◌≢◌, sym, ap, ◌∙◌, subst, String, Bool, true, false, Bool-cases, inl, inr, arith, ◌==◌,
  if◌then◌else◌, nat_eq,
}
use famfun.Prelude.Text.{◌⧺◌, SlashFree, slash}
use famfun.Home.FilePath.{ext, ext_from, is_slash, trim_suffix}
use famfun.Home.FilePath.Below.{IsStep}

pub SlashFree-append : (s t : String) → SlashFree s → SlashFree t → SlashFree (s ⧺ t)
SlashFree-append String.[] t p q = subst SlashFree (sym (nil-append t)) q
SlashFree-append (String.◌∷◌ c s) t p q =
    subst SlashFree (sym (cons-append c s t)) (p.0, SlashFree-append s t p.1 q)

pub trim_suffix-SlashFree : (s suffix : String) → SlashFree s → SlashFree (trim_suffix s suffix)
unfolding trim_suffix
trim_suffix-SlashFree String.[] suffix h = tt
trim_suffix-SlashFree (String.◌∷◌ c s) suffix h = elim (Bool-cases (push c s == suffix)) [
  | inl e ↦ rw e tt
  | inr e ↦ rw e (h.0, trim_suffix-SlashFree s suffix h.1)
]

ext_from-SlashFree :
    (found s : String) → SlashFree found → SlashFree s → SlashFree (ext_from found s)
unfolding ext_from
ext_from-SlashFree found String.[] f h = f
ext_from-SlashFree found (String.◌∷◌ c s) f h =
    ext_from-SlashFree (if nat_eq (code c) b'.' then push c s else if is_slash c then "" else found)
      s (chosen (nat_eq (code c) b'.') (is_slash c)) h.1
  where
    chosen : (dot slash : Bool) → SlashFree (if dot then push c s else if slash then "" else found)
    chosen true slash = h
    chosen false true = tt
    chosen false false = f

-- Text with a bracket in it is no dot, no two dots, and not empty.
bracket-ne-empty : (b t : String) → b ⧺ push "(" t ≢ ""
bracket-ne-empty String.[] t e = cons-ne-nil "(" t (sym (nil-append (push "(" t)) ∙ e)
bracket-ne-empty (String.◌∷◌ c b) t e =
    cons-ne-nil c (b ⧺ push "(" t) (sym (cons-append c b (push "(" t)) ∙ e)

bracket-ne-dots :
    (b t rest : String) → b ⧺ push "(" t ≡ push "." rest → (b' : String) × (b' ⧺ push "(" t ≡ rest)
bracket-ne-dots String.[] t rest e =
    let e' = sym (nil-append (push "(" t)) ∙ e in
    absurd (omega (arith, ap code (cons-eq-cons.0 e').0))
bracket-ne-dots (String.◌∷◌ c b) t rest e =
    (b, (cons-eq-cons.0 (sym (cons-append c b (push "(" t)) ∙ e)).1)

pub bracket-IsStep : (b t : String) → SlashFree b → SlashFree t → IsStep (b ⧺ push "(" t)
bracket-IsStep b t p q = record {
  slash_free = SlashFree-append b (push "(" t) p (λ e. absurd (omega (arith, e)), q);
  not_empty = bracket-ne-empty b t;
  not_dot = λ e. let (b', e') = bracket-ne-dots b t "" e in bracket-ne-empty b' t e';
  not_up = λ e.
      let (b', e') = bracket-ne-dots b t "." e in
      let (b'', e'') = bracket-ne-dots b' t "" e' in bracket-ne-empty b'' t e'';
}

pub ext-SlashFree : (s : String) → SlashFree s → SlashFree (ext s)
unfolding ext
ext-SlashFree s h = ext_from-SlashFree "" s tt h
