-- ===== src/Prelude/Dict.antt =====
-- Go's `map[string]V` as an association list without repeated keys. The order of the list is the
-- order in which a `range` over the map visits it; an operation may leave any order behind.
use famfun.Prelude.{
  String, ◌≡◌, refl, List, [], ◌∷◌, Option, none, some, arith, ◌==◌, eq_iff, if◌then◌else◌, map,
}

abbrev pub Dict {ℓ} : Type ℓ → Type ℓ
Dict V = List (String × V)

module _ {ℓ} {V : Type ℓ} where
  -- m[key]
  unfoldable pub lookup : (key : String) (pairs : Dict V) → Option V
  lookup key [] = none
  lookup key ((here, val) ∷ pairs) = if here == key then some val else lookup key pairs

  -- delete(m, key)
  unfoldable pub delete : (key : String) (pairs : Dict V) → Dict V
  delete key [] = []
  delete key ((here, val) ∷ pairs) =
      let others = delete key pairs in if here == key then others else (here, val) ∷ others

  -- m[key] = val
  unfoldable pub insert : (key : String) (val : V) (pairs : Dict V) → Dict V
  insert key val [] = (key, val) ∷ []
  insert key val ((here, old) ∷ pairs) =
      if here == key then (key, val) ∷ pairs else (here, old) ∷ insert key val pairs

  abbrev pub values : Dict V → List V
  values = map (λ e. e.1)

  abbrev pub keys : Dict V → List String
  keys = map (λ e. e.0)

  pub lookup-delete :
      (gone key : String) (pairs : Dict V)
      → lookup key (delete gone pairs) ≡ (if gone == key then none else lookup key pairs)
  unfolding lookup delete
  lookup-delete gone key [] = ground arith
  lookup-delete gone key ((here, val) ∷ pairs) =
      ground
        (arith, lookup-delete gone key pairs, eq_iff gone key, eq_iff here gone, eq_iff here key)

  pub lookup-insert :
      (new key : String) (val : V) (pairs : Dict V)
      → lookup key (insert new val pairs) ≡ (if new == key then some val else lookup key pairs)
  unfolding lookup insert
  lookup-insert new key val [] = refl
  lookup-insert new key val ((here, old) ∷ pairs) =
      ground
        (arith, lookup-insert new key val pairs, eq_iff new key, eq_iff here new, eq_iff here key)
