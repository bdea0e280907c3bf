-- ===== src/Prelude/Decimal/Injective.antt =====
-- Different numbers have different decimal texts, and these hold digits only.
use Prim.Native.Char.{Char, code}
use Prim.Native.String.{◌∷◌ as push}
use text.Mathlib.TextLemmas.{nil-append, cons-append}
use famfun.Prelude.{
  ℕ, zero, suc, ◌+◌, ◌-◌, ◌*◌, ◌/◌, ◌%◌, ◌<◌, ◌≡◌, refl, sym, ap, ◌∙◌, subst, String, true, false,
  nat_eq, Bool-cases, inl, inr, arith,
}
use famfun.Prelude.Text.{◌⧺◌, SlashFree}
use famfun.Prelude.Decimal.{digit, decimal_go, decimal}

-- The number that a text of digits stands for, behind one that was read before.
read : ℕ → String → ℕ
read n String.[] = n
read n (String.◌∷◌ c s) = read (n * 10 + (code c - b'0')) s

single : (c : Char) (t : String) → push c "" ⧺ t ≡ push c t
single c t = cons-append c "" t ∙ ap (push c) (nil-append t)

-- The text of a digit is one character, of that value.
digit_char :
    (d : ℕ) → d < 10 → (t : String) → (c : Char) × (digit d ⧺ t ≡ push c t) × (code c ≡ d + b'0')
unfolding digit
digit_char zero h t = ("0", single "0" t, refl)
digit_char (suc zero) h t = ("1", single "1" t, refl)
digit_char (suc (suc zero)) h t = ("2", single "2" t, refl)
digit_char (suc (suc (suc zero))) h t = ("3", single "3" t, refl)
digit_char (suc (suc (suc (suc zero)))) h t = ("4", single "4" t, refl)
digit_char (suc (suc (suc (suc (suc zero))))) h t = ("5", single "5" t, refl)
digit_char (suc (suc (suc (suc (suc (suc zero)))))) h t = ("6", single "6" t, refl)
digit_char (suc (suc (suc (suc (suc (suc (suc zero))))))) h t = ("7", single "7" t, refl)
digit_char (suc (suc (suc (suc (suc (suc (suc (suc zero)))))))) h t = ("8", single "8" t, refl)
digit_char (suc (suc (suc (suc (suc (suc (suc (suc (suc zero))))))))) h t =
    ("9", single "9" t, refl)
digit_char (suc (suc (suc (suc (suc (suc (suc (suc (suc (suc other)))))))))) h t =
    absurd (omega arith)

read-digit : (n d : ℕ) (t : String) → d < 10 → read n (digit d ⧺ t) ≡ read (n * 10 + d) t
unfolding read
read-digit n d t h =
    let (c, e, k) = digit_char d h t in
    ap (read n) e ∙ ap (λ m. read (n * 10 + m) t) (omega (arith, k))

decimal_go-last :
    (fuel n : ℕ) (t : String)
    → nat_eq (n / 10) 0 ≡ true
    → decimal_go (suc fuel) n t ≡ digit (n % 10) ⧺ t
unfolding decimal_go
decimal_go-last fuel n t e = rw (e, decimal_go) refl

decimal_go-more :
    (fuel n : ℕ) (t : String)
    → nat_eq (n / 10) 0 ≡ false
    → decimal_go (suc fuel) n t ≡ decimal_go fuel (n / 10) (digit (n % 10) ⧺ t)
unfolding decimal_go
decimal_go-more fuel n t e = rw (e, decimal_go) refl

read-decimal_go : (fuel n : ℕ) (t : String) → n < fuel → read 0 (decimal_go fuel n t) ≡ read n t
unfolding decimal_go
read-decimal_go zero n t h = absurd (omega (arith, h))
read-decimal_go (suc fuel) n t h = elim (Bool-cases (nat_eq (n / 10) 0)) [
  | inl e ↦
      ap (read 0) (decimal_go-last fuel n t e)
      ∙ read-digit 0 (n % 10) t (omega arith)
      ∙ ap (λ m. read m t) (ground (arith, e))
  | inr e ↦
      ap (read 0) (decimal_go-more fuel n t e)
      ∙ read-decimal_go fuel (n / 10) (digit (n % 10) ⧺ t) (ground (arith, e, h))
      ∙ read-digit (n / 10) (n % 10) t (omega arith)
      ∙ ap (λ m. read m t) (omega arith)
]

pub decimal-injective : (m n : ℕ) → decimal m ≡ decimal n → m ≡ n
unfolding decimal read
decimal-injective m n e =
    sym (read-decimal_go (suc m) m "" (omega arith))
    ∙ ap (read 0) e
    ∙ read-decimal_go (suc n) n "" (omega arith)

digit-SlashFree : (d : ℕ) (t : String) → d < 10 → SlashFree t → SlashFree (digit d ⧺ t)
digit-SlashFree d t h free =
    let (c, e, k) = digit_char d h t in
    subst SlashFree (sym e) (λ slash. absurd (omega (arith, k, slash)), free)

decimal_go-SlashFree : (fuel n : ℕ) (t : String) → SlashFree t → SlashFree (decimal_go fuel n t)
unfolding decimal_go
decimal_go-SlashFree zero n t free = free
decimal_go-SlashFree (suc fuel) n t free =
    let free' = digit-SlashFree (n % 10) t (omega arith) free in
    elim (Bool-cases (nat_eq (n / 10) 0)) [
      | inl e ↦ subst SlashFree (sym (decimal_go-last fuel n t e)) free'
      | inr e ↦
          subst SlashFree (sym (decimal_go-more fuel n t e))
            (decimal_go-SlashFree fuel (n / 10) (digit (n % 10) ⧺ t) free')
    ]

pub decimal-SlashFree : (n : ℕ) → SlashFree (decimal n)
unfolding decimal
decimal-SlashFree n = decimal_go-SlashFree (suc n) n "" tt
