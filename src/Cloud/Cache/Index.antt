-- ===== src/Cloud/Cache/Index.antt =====
-- internal/cloud/cache.go: the element list searched by key, against its search by identity.
use famfun.Prelude.{
  ℕ, suc, ◌+◌, ◌<◌, ◌≡◌, ◌≢◌, refl, sym, subst, inl, inr, Bool-cases, String, List, [], ◌∷◌, Option,
  none, some, arith, All, length, ◌==◌, eq_iff, if◌then◌else◌,
}
use famfun.Cloud.Cache.{Element, element, remove, back}

-- The first element with a key.
unfoldable pub elem_of : String → List Element → Option Element
elem_of k [] = none
elem_of k (e ∷ es) = if e.value.key == k then some e else elem_of k es

unfoldable pub id_of : Option Element → Option ℕ
id_of none = none
id_of (some e) = some e.id

unfoldable pub without : String → List Element → List Element
without k [] = []
without k (e ∷ es) = if e.value.key == k then es else e ∷ without k es

abbrev pub NoKey : String → List Element → Type 0
NoKey k = All (λ e. e.value.key ≢ k)

abbrev pub NoId : ℕ → List Element → Type 0
NoId i = All (λ e. e.id ≢ i)

abbrev pub Distinct : List Element → Type 0
Distinct [] = Unit
Distinct (e ∷ es) = NoKey e.value.key es × NoId e.id es × Distinct es

abbrev pub Below : ℕ → List Element → Type 0
Below n = All (λ e. e.id < n)

unfoldable pub total : List Element → ℕ
total [] = 0
total (e ∷ es) = length e.value.bytes + total es

pub elem_of_key :
    (k : String) (l : List Element) (e : Element) → elem_of k l ≡ some e → e.value.key ≡ k
unfolding elem_of
elem_of_key k [] e h = ground arith
elem_of_key k (x ∷ l) e h = ground (arith, eq_iff x.value.key k, elem_of_key k l e)

pub NoId-elem_of :
    (k : String) (i : ℕ) (l : List Element) (e : Element)
    → NoId i l
    → elem_of k l ≡ some e
    → e.id ≢ i
unfolding elem_of
NoId-elem_of k i [] e n h = ground arith
NoId-elem_of k i (x ∷ l) e n h = ground (arith, NoId-elem_of k i l e n.1)

pub element_lem :
    (k : String) (l : List Element) (e : Element)
    → Distinct l
    → elem_of k l ≡ some e
    → element e.id l ≡ some e
unfolding elem_of element
element_lem k [] e d h = ground arith
element_lem k (x ∷ l) e d h = ground (arith, element_lem k l e d.2, NoId-elem_of k x.id l e d.1)

pub remove-without :
    (k : String) (l : List Element) (e : Element)
    → Distinct l
    → elem_of k l ≡ some e
    → remove e.id l ≡ without k l
unfolding elem_of remove without
remove-without k [] e d h = ground arith
remove-without k (x ∷ l) e d h =
    ground (arith, remove-without k l e d.2, NoId-elem_of k x.id l e d.1)

pub total-without :
    (k : String) (l : List Element) (e : Element)
    → elem_of k l ≡ some e
    → total l ≡ length e.value.bytes + total (without k l)
unfolding elem_of without total
total-without k [] e h = ground arith
total-without k (x ∷ l) e h = ground (arith, total-without k l e)

pub NoKey-elem_of : (k : String) (l : List Element) → elem_of k l ≡ none → NoKey k l
unfolding elem_of
NoKey-elem_of k [] h = tt
NoKey-elem_of k (x ∷ l) h = ground (arith, eq_iff x.value.key k, NoKey-elem_of k l)

pub elem_of-NoKey : (k : String) (l : List Element) → NoKey k l → elem_of k l ≡ none
unfolding elem_of
elem_of-NoKey k [] h = refl
elem_of-NoKey k (x ∷ l) h = ground (arith, eq_iff x.value.key k, elem_of-NoKey k l h.1)

pub All-without {ℓ} :
    (P : Element → Type ℓ) (k : String) (l : List Element) → All P l → All P (without k l)
unfolding without
All-without P k [] h = tt
All-without P k (x ∷ l) (p, h) = elim (Bool-cases (x.value.key == k)) [
  | inl hit ↦ rw hit h
  | inr miss ↦ rw miss (p, All-without P k l h)
]

pub elem_of-without :
    (k j : String) (l : List Element)
    → Distinct l
    → elem_of j (without k l) ≡ (if k == j then none else elem_of j l)
unfolding elem_of without
elem_of-without k j [] d = ground arith
elem_of-without k j (x ∷ l) d = ground (
  arith,
  eq_iff k j,
  eq_iff x.value.key k,
  eq_iff x.value.key j,
  elem_of-without k j l d.2,
  elem_of-NoKey x.value.key l d.0,
)

pub Distinct-without : (k : String) (l : List Element) → Distinct l → Distinct (without k l)
unfolding without
Distinct-without k [] d = tt
Distinct-without k (x ∷ l) (n, i, d) = elim (Bool-cases (x.value.key == k)) [
  | inl hit ↦ rw hit d
  | inr miss ↦ rw miss (All-without _ k l n, All-without _ k l i, Distinct-without k l d)
]

pub NoId-without :
    (k : String) (l : List Element) (e : Element)
    → Distinct l
    → elem_of k l ≡ some e
    → NoId e.id (without k l)
unfolding elem_of without
NoId-without k [] e d h = tt
NoId-without k (x ∷ l) e d h = elim (Bool-cases (x.value.key == k)) [
  | inl hit ↦
      let same : x ≡ e = ground arith in rw hit (subst (λ (y : Element). NoId y.id l) same d.1)
  | inr miss ↦
      let later : elem_of k l ≡ some e = ground arith in
      rw miss (λ s. NoId-elem_of k x.id l e d.1 later (sym s), NoId-without k l e d.2 later)
]

pub NoKey-without : (k : String) (l : List Element) → Distinct l → NoKey k (without k l)
unfolding without
NoKey-without k [] d = tt
NoKey-without k (x ∷ l) (n, i, d) = elim (Bool-cases (x.value.key == k)) [
  | inl hit ↦ rw hit (subst (λ j. NoKey j l) ((eq_iff x.value.key k).0 hit) n)
  | inr miss ↦ rw miss (λ s. absurd (ground (arith, eq_iff x.value.key k)), NoKey-without k l d)
]

-- The list without its last element.
unfoldable pub init : List Element → List Element
init [] = []
init (e ∷ []) = []
init (e ∷ e' ∷ es) = e ∷ init (e' ∷ es)

All-back {ℓ} :
    (P : Element → Type ℓ) (l : List Element) (e : Element) → All P l → back l ≡ some e → P e
unfolding back
All-back P [] e h b = cc
All-back P (x ∷ []) e h b = subst P (ground arith) h.0
All-back P (x ∷ y ∷ l) e h b = All-back P (y ∷ l) e h.1 b

pub All-init {ℓ} : (P : Element → Type ℓ) (l : List Element) → All P l → All P (init l)
unfolding init
All-init P [] h = tt
All-init P (x ∷ []) h = tt
All-init P (x ∷ y ∷ l) h = (h.0, All-init P (y ∷ l) h.1)

pub Distinct-init : (l : List Element) → Distinct l → Distinct (init l)
unfolding init
Distinct-init [] d = tt
Distinct-init (x ∷ []) d = tt
Distinct-init (x ∷ y ∷ l) (n, i, d) =
    (All-init _ (y ∷ l) n, All-init _ (y ∷ l) i, Distinct-init (y ∷ l) d)

pub remove-back :
    (l : List Element) (e : Element) → Distinct l → back l ≡ some e → remove e.id l ≡ init l
unfolding back remove init
remove-back [] e d b = cc
remove-back (x ∷ []) e d b = ground arith
remove-back (x ∷ y ∷ l) e d b =
    ground (arith, remove-back (y ∷ l) e d.2 b, All-back (λ z. z.id ≢ x.id) (y ∷ l) e d.1 b)

pub total-init :
    (l : List Element) (e : Element)
    → back l ≡ some e
    → total l ≡ total (init l) + length e.value.bytes
unfolding back init total
total-init [] e b = cc
total-init (x ∷ []) e b = ground arith
total-init (x ∷ y ∷ l) e b = ground (arith, total-init (y ∷ l) e b)

pub elem_of-init :
    (j : String) (l : List Element) (e : Element)
    → Distinct l
    → back l ≡ some e
    → elem_of j (init l) ≡ (if e.value.key == j then none else elem_of j l)
unfolding back init elem_of
elem_of-init j [] e d b = cc
elem_of-init j (x ∷ []) e d b = ground arith
elem_of-init j (x ∷ y ∷ l) e d b = ground (
  arith,
  eq_iff e.value.key j,
  eq_iff x.value.key j,
  elem_of-init j (y ∷ l) e d.2 b,
  All-back (λ z. z.value.key ≢ x.value.key) (y ∷ l) e d.0 b,
)

pub length-init :
    (l : List Element) (e : Element) → back l ≡ some e → length l ≡ suc (length (init l))
unfolding back init
length-init [] e b = cc
length-init (x ∷ []) e b = refl
length-init (x ∷ y ∷ l) e b = ground (arith, length-init (y ∷ l) e b)

pub back-none : (l : List Element) → back l ≡ none → l ≡ []
unfolding back
back-none [] b = refl
back-none (x ∷ []) b = cc
back-none (x ∷ y ∷ l) b = ground (arith, back-none (y ∷ l) b)
