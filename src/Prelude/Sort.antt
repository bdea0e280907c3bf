-- ===== src/Prelude/Sort.antt =====
-- sort.Slice by a `less` function: the result is ordered and holds the same elements. Of two
-- elements that `less` does not tell apart either may come first, as Go leaves it open.
use mathlib.Core.List.{Perm, Mem, mem-cons_self, mem-cons_of_mem, mem-cons, not-mem-nil}
use mathlib.Core.List.Perm
use mathlib.Core.Bool.{Bool-set}
use mathlib.Core.Logic.Or
use famfun.Prelude.{
  ◌≡◌, sym, ap₂, subst, inl, inr, Bool, true, false, Bool-cases, List, [], ◌∷◌, All, if◌then◌else◌,
}

module _ {ℓ} {A : Type ℓ} (less : A → A → Bool) where
  unfoldable pub place : A → List A → List A
  place x [] = x ∷ []
  place x (y ∷ ys) = if less y x then y ∷ place x ys else x ∷ y ∷ ys

  unfoldable pub sort : List A → List A
  sort [] = []
  sort (x ∷ xs) = place x (sort xs)

  -- Nothing later in the list is less than something earlier.
  abbrev pub Ordered : List A → Type ℓ
  Ordered [] = Unit
  Ordered (x ∷ xs) = All (λ y. less y x ≡ false) xs × Ordered xs

  place-perm : (x : A) (ys : List A) → Perm (place x ys) (x ∷ ys)
  unfolding place
  place-perm x [] = Perm.refl _
  place-perm x (y ∷ ys) = elim (Bool-cases (less y x)) [
    | inl before ↦ rw before (Perm.trans (Perm.cons y (place-perm x ys)) (Perm.swap x y ys))
    | inr after ↦ rw after (Perm.refl _)
  ]

  pub sort-perm : (xs : List A) → Perm (sort xs) xs
  unfolding sort
  sort-perm [] = Perm.refl _
  sort-perm (x ∷ xs) = Perm.trans (place-perm x (sort xs)) (Perm.cons x (sort-perm xs))

  All-place {κ} : (P : A → Type κ) (x : A) (ys : List A) → P x → All P ys → All P (place x ys)
  unfolding place
  All-place P x [] p h = (p, tt)
  All-place P x (y ∷ ys) p h = elim (Bool-cases (less y x)) [
    | inl before ↦ rw before (h.0, All-place P x ys p h.1)
    | inr after ↦ rw after (p, h)
  ]

  All-impl {κ μ} :
      {P : A → Type κ} {Q : A → Type μ} (f : (a : A) → P a → Q a) (xs : List A)
      → All P xs
      → All Q xs
  All-impl f [] h = tt
  All-impl f (x ∷ xs) h = (f x h.0, All-impl f xs h.1)

  module _ (asym : (a b : A) → less a b ≡ true → less b a ≡ false)
      (trans : (a b c : A) → less b a ≡ false → less c b ≡ false → less c a ≡ false) where
    place-Ordered : (x : A) (ys : List A) → Ordered ys → Ordered (place x ys)
    unfolding place
    place-Ordered x [] o = (tt, tt)
    place-Ordered x (y ∷ ys) (first, o) = elim (Bool-cases (less y x)) [
      | inl before ↦
          rw before
            (All-place (λ z. less z y ≡ false) x ys (asym y x before) first, place-Ordered x ys o)
      | inr after ↦ rw after ((after, All-impl (λ z h. trans x y z after h) ys first), (first, o))
    ]

    pub sort-Ordered : (xs : List A) → Ordered (sort xs)
    unfolding sort
    sort-Ordered [] = tt
    sort-Ordered (x ∷ xs) = place-Ordered x (sort xs) (sort-Ordered xs)

  module _ (asym : (a b : A) → less a b ≡ true → less b a ≡ false) where
    irrefl : (a : A) → less a a ≡ false
    irrefl a = elim (Bool-cases (less a a)) [ inl h ↦ asym a a h | inr h ↦ h ]

    -- Nothing in an ordered list is less than its head.
    head_first : (x y : A) (ys : List A) → Ordered (y ∷ ys) → Mem x (y ∷ ys) → less x y ≡ false
    head_first x y ys (first, o) m =
        Or.elim (Bool-set _ _) (mem-cons.0 m) (λ e. rw e (irrefl y)) (All-mem y ys first)
      where
        All-mem : (z : A) (l : List A) → All (λ w. less w z ≡ false) l → Mem x l → less x z ≡ false
        All-mem z [] h n = absurd (not-mem-nil n)
        All-mem z (w ∷ l) h n =
            Or.elim (Bool-set _ _) (mem-cons.0 n) (λ e. rw e h.0) (All-mem z l h.1)

    -- Where `less` tells any two different elements apart, there is one ordered arrangement.
    pub Ordered-unique :
        (xs ys : List A)
        → ((a b : A) → Mem a xs → Mem b xs → less a b ≡ false → less b a ≡ false → a ≡ b)
        → Ordered xs
        → Ordered ys
        → Perm xs ys
        → xs ≡ ys
    Ordered-unique [] ys tie o q p = Perm.nil-eq p
    Ordered-unique (x ∷ xs) [] tie o q p = Perm.eq-nil p
    Ordered-unique (x ∷ xs) (y ∷ ys) tie o q p =
        let there : Mem y (x ∷ xs) = (Perm.mem_iff p).1 mem-cons_self in
        let same : x ≡ y =
          tie x y mem-cons_self there (head_first x y ys q ((Perm.mem_iff p).0 mem-cons_self))
            (head_first y x xs o there) in
        let rest : Perm xs ys = Perm.cons_inv (subst (λ z. Perm (x ∷ xs) (z ∷ ys)) (sym same) p) in
        ap₂ ◌∷◌ same (
          Ordered-unique xs ys (λ a b m n. tie a b (mem-cons_of_mem x m) (mem-cons_of_mem x n)) o.1
            q.1 rest)
