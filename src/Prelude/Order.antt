-- ===== src/Prelude/Order.antt =====
-- The order of texts: the library's `compare` is a linear order, as Go's `<` on strings is.
use Prim.Native.Nat.{compare as compare_ℕ, Ordering}
use Prim.Native.Char.{Char, code}
use Prim.Native.String.{compare, ◌∷◌ as push, then}
use Prim.Native.String.compare as Cmp
use famfun.Prelude.{String, ◌≡◌, refl, Bool, true, false, arith}

abbrev pub flip : Ordering → Ordering
flip Ordering.lt = Ordering.gt
flip Ordering.eq = Ordering.eq
flip Ordering.gt = Ordering.lt

nil_cons : (d : Char) (t : String) → compare "" (push d t) ≡ Ordering.lt
nil_cons d t = λ i. Cmp.nil-cons d t i

cons_nil : (c : Char) (s : String) → compare (push c s) "" ≡ Ordering.gt
cons_nil c s = λ i. Cmp.cons-nil c s i

cons_cons :
    (c d : Char) (s t : String)
    → compare (push c s) (push d t) ≡ then (compare_ℕ (code c) (code d)) (compare s t)
cons_cons c d s t = λ i. Cmp.cons-cons c d s t i

pub compare-flip : (s t : String) → compare t s ≡ flip (compare s t)
compare-flip String.[] String.[] = refl
compare-flip String.[] (String.◌∷◌ d t) = rw (nil_cons, cons_nil)
compare-flip (String.◌∷◌ c s) String.[] = rw (nil_cons, cons_nil)
compare-flip (String.◌∷◌ c s) (String.◌∷◌ d t) =
    rw (cons_cons c d s t, cons_cons d c t s) (ground (arith, compare-flip s t))

pub compare_trans :
    (s t u : String)
    → compare s t ≡ Ordering.lt
    → compare t u ≡ Ordering.lt
    → compare s u ≡ Ordering.lt
compare_trans String.[] String.[] u p q = q
compare_trans String.[] (String.◌∷◌ d t) String.[] p q = ground (arith, cons_nil d t)
compare_trans String.[] (String.◌∷◌ d t) (String.◌∷◌ e u) p q = nil_cons e u
compare_trans (String.◌∷◌ c s) String.[] u p q = ground (arith, cons_nil c s)
compare_trans (String.◌∷◌ c s) (String.◌∷◌ d t) String.[] p q = ground (arith, cons_nil d t)
compare_trans (String.◌∷◌ c s) (String.◌∷◌ d t) (String.◌∷◌ e u) p q =
    ground (arith, compare_trans s t u, cons_cons c d s t, cons_cons d e t u, cons_cons c e s u)

-- s < t
abbrev pub str_lt : String → String → Bool
str_lt s t = elim (compare s t) [ Ordering.lt ↦ true | _ ↦ false ]
