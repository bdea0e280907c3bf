-- ===== src/Tests/SampleJwt.antt =====
-- A small maker of tokens, in place of the library: it signs for one account, and its token is the
-- second of the expiry in unary.
use Prim.Native.String.{◌∷◌ as push}
use famfun.Prelude.{
  ℕ, zero, suc, ◌+◌, ◌-◌, ◌*◌, ◌/◌, ◌<◌, ◌≤◌, ◌≡◌, refl, ap, String, [], Option, none, some, Bool,
  true, false, ◌&&◌, ◌==◌, Result, ok, err, library, ltb, nat_eq, nat_eq_iff, subst, if◌then◌else◌,
  arith, eq_iff,
}
use famfun.Protocol.Message.{Bytes}
use famfun.Cloud.Tokens.{Jwt, IsJwt, JwtClaims, Signs, second, token_expiry, claims_of, expiry_of}
use famfun.Cloud.Users.{User}

abbrev unary : ℕ → String
unary zero = ""
unary (suc n) = push "x" (unary n)

abbrev count : String → ℕ
count String.[] = 0
count (String.◌∷◌ c s) = suc (count s)

count-unary : (n : ℕ) → count (unary n) ≡ n
count-unary zero = refl
count-unary (suc n) = ap suc (count-unary n)

abbrev whole : ℕ → ℕ
whole t = t / second * second

abbrev claims_at : ℕ → JwtClaims
claims_at e = record {
  user_id = "u";
  username = "ann";
  role = "admin";
  expires_at = some e;
  issued_at = e - token_expiry;
}

abbrev is_ann : JwtClaims → Bool
is_ann c = (c.user_id == "u") && ((c.username == "ann") && (c.role == "admin"))

abbrev sealed : Bool → ℕ → Result String
sealed true n = ok (unary n)
sealed false n = err (library "not the account of the sample")

sealed-ok : (b : Bool) (n : ℕ) (t : String) → sealed b n ≡ ok t → (b ≡ true) × (unary n ≡ t)
sealed-ok true n t h = (refl, cc)
sealed-ok false n t h = absurd cc

abbrev sign_until : JwtClaims → Option ℕ → Result String
sign_until c none = err (library "no expiry")
sign_until c (some e) =
    sealed (is_ann c && (nat_eq (whole e) e && nat_eq c.issued_at (e - token_expiry))) (e / second)

abbrev pub sample_jwt : Jwt
sample_jwt = record {
  numeric_date = whole;
  sign = λ key c. sign_until c c.expires_at;
  parse = λ key now t.
      if ltb now (count t * second)
      then ok (claims_at (count t * second))
      else err (library "expired");
}

test_of_lt : (m n : ℕ) → m < n → ltb m n ≡ true
test_of_lt m n h = ground arith

test_of_le : (m n : ℕ) → n ≤ m → ltb m n ≡ false
test_of_le m n h = ground arith

whole_twice : (t : ℕ) → whole (whole t) ≡ whole t
whole_twice t = omega arith

whole_le : (t : ℕ) → whole t ≤ t
whole_le t = omega arith

whole_near : (t : ℕ) → t < whole t + second
whole_near t = omega arith

and_true : (a b : Bool) → (a && b) ≡ true → (a ≡ true) × (b ≡ true)
and_true true true h = (refl, refl)
and_true true false h = absurd cc
and_true false b h = absurd cc

signs_ann :
    (c : JwtClaims) (e : ℕ) (t : String)
    → sign_until c (some e) ≡ ok t
    → (is_ann c ≡ true)
      × (whole e ≡ e)
      × (c.issued_at ≡ e - token_expiry)
      × (unary (e / second) ≡ t)
signs_ann c e t h =
    let (good, u) = sealed-ok _ (e / second) t h in
    let (ann, dates) =
      and_true (is_ann c) (nat_eq (whole e) e && nat_eq c.issued_at (e - token_expiry)) good in
    let (w, i) = and_true (nat_eq (whole e) e) (nat_eq c.issued_at (e - token_expiry)) dates in
    (ann, (nat_eq_iff (whole e) e).0 w, (nat_eq_iff c.issued_at (e - token_expiry)).0 i, u)

ann_lem :
    (c : JwtClaims)
    → is_ann c ≡ true
    → (c.user_id ≡ "u") × (c.username ≡ "ann") × (c.role ≡ "admin")
ann_lem c h =
    ground (arith, h, eq_iff c.user_id "u", eq_iff c.username "ann", eq_iff c.role "admin")

signed_lem :
    (c : JwtClaims) (t : String) (e : ℕ)
    → sign_until c (some e) ≡ ok t
    → c.expires_at ≡ some e
    → (c ≡ claims_at e) × (count t * second ≡ e)
signed_lem c t e h x =
    let (ann, w, i, u) = signs_ann c e t h in
    let (p, q, r) = ann_lem c ann in
    (cc, subst (λ z. count z * second ≡ e) u (rw (count-unary (e / second)) w))

accepts_lem :
    (c : JwtClaims) (t : String) (e now : ℕ)
    → sign_until c (some e) ≡ ok t
    → c.expires_at ≡ some e
    → now < e
    → sample_jwt.parse [] now t ≡ ok c
accepts_lem c t e now h x early =
    let (same, ends) = signed_lem c t e h x in rw ends (rw (test_of_lt now e early) (rw same refl))

refuses_lem :
    (c : JwtClaims) (t : String) (e now : ℕ)
    → sign_until c (some e) ≡ ok t
    → c.expires_at ≡ some e
    → e ≤ now
    → sample_jwt.parse [] now t ≡ err (library "expired")
refuses_lem c t e now h x late =
    let (same, ends) = signed_lem c t e h x in rw ends (rw (test_of_le now e late) refl)

pub sample_jwt-IsJwt : IsJwt sample_jwt
sample_jwt-IsJwt = record {
  accepts = λ key c t e now h d early.
      accepts_lem c t e now (subst (λ x. sign_until c x ≡ ok t) d.0 h) d.0 early;
  refuses = λ key c t e now h d late.
      (_, refuses_lem c t e now (subst (λ x. sign_until c x ≡ ok t) d.0 h) d.0 late);
  date_twice = whole_twice;
  date_le = whole_le;
  date_near = whole_near;
}

abbrev pub ann : User
ann = record {
  id = "u";
  username = "ann";
  role = "admin";
  password_hash = "hash of secret";
  created_at = "2026-01-01";
  login_at = "";
}

expiry_whole : (now : ℕ) → expiry_of sample_jwt now ≡ whole now + token_expiry
expiry_whole now = omega arith

pub ann-Signs : (key : Bytes) → Signs sample_jwt key ann
unfolding claims_of
ann-Signs key now =
    let e = expiry_of sample_jwt now in
    let w : nat_eq (whole e) e ≡ true =
      (nat_eq_iff (whole e) e).1 (whole_twice (now + token_expiry)) in
    let i : nat_eq (whole now) (e - token_expiry) ≡ true =
      (nat_eq_iff (whole now) (e - token_expiry)).1 (omega (arith, expiry_whole now)) in
    let both : (nat_eq (whole e) e && nat_eq (whole now) (e - token_expiry)) ≡ true = rw w i in
    (unary (e / second), ap (λ b. sealed b (e / second)) both)
