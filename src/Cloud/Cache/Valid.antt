-- ===== src/Cloud/Cache/Valid.antt =====
-- internal/cloud/cache.go: the invariant of the cache, kept by every operation.
use famfun.Prelude.{
  ℕ, zero, suc, ◌+◌, ◌-◌, ◌<◌, ◌≡◌, refl, sym, subst, ◌∙◌, inl, inr, Bool-cases, Option-cases,
  String, List, [], ◌∷◌, none, some, ◌&&◌, arith, length, ltb, eq_iff,
}
use famfun.Prelude.Dict.{lookup, delete, lookup-insert, lookup-delete}
use famfun.Protocol.Message.{Bytes}
use famfun.Cloud.Cache.{
  LruCache, Element, new_lru_cache, move_to_front, find, get, update_existing, add_new, back,
  evict_oldest, evict_loop, evict, put,
}
use famfun.Cloud.Cache.Index.{
  elem_of, id_of, without, NoKey, NoId, Distinct, Below, total, elem_of_key, element_lem,
  remove-without, total-without, NoKey-elem_of, All-without, elem_of-without, Distinct-without,
  NoId-without, NoKey-without, init, All-init, Distinct-init, remove-back, total-init, elem_of-init,
}

-- The byte count is the size of what is stored, no key and no identity stands twice in the list,
-- and the map finds for every key exactly the element of the list that holds it.
pub record IsValid (c : LruCache) : Type 0 where
  pub counted : c.current_bytes ≡ total c.list
  pub distinct : Distinct c.list
  pub below : Below c.fresh c.list
  pub agree : (k : String) → lookup k c.items ≡ id_of (elem_of k c.list)

pub new_lru_cache-IsValid : (max : ℕ) → IsValid (new_lru_cache max)
unfolding new_lru_cache lookup elem_of total id_of
new_lru_cache-IsValid max = record { counted = refl; distinct = tt; below = tt; agree = λ k. refl }

pub find-elem_of : (k : String) (c : LruCache) → IsValid c → find k c ≡ elem_of k c.list
unfolding find id_of
find-elem_of k c v = elim (Option-cases (elem_of k c.list)) [
  | inl miss ↦ rw (v.agree k, find) (rw miss)
  | inr (e, hit) ↦ rw (v.agree k, find) (rw hit (element_lem k c.list e v.distinct hit))
]

-- To put the element of `k` at the front, its bytes replaced.
module _ (k : String) (c : LruCache) (e e' : Element) (hit : elem_of k c.list ≡ some e) where
  abbrev moved : LruCache → LruCache
  moved d = record d { list = e' ∷ without k c.list }

  moved-agree :
      IsValid c
      → e'.id ≡ e.id
      → e'.value.key ≡ e.value.key
      → (j : String) → lookup j c.items ≡ id_of (elem_of j (e' ∷ without k c.list))
  unfolding elem_of id_of
  moved-agree v same_id same_key j = ground (
    arith,
    v.agree j,
    eq_iff k j,
    eq_iff e'.value.key j,
    elem_of_key k c.list e,
    elem_of-without k j c.list v.distinct,
    hit,
  )

  moved-Distinct :
      IsValid c → e'.id ≡ e.id → e'.value.key ≡ e.value.key → Distinct (e' ∷ without k c.list)
  moved-Distinct v same_id same_key =
      let key : e'.value.key ≡ k = same_key ∙ elem_of_key k c.list e hit in
      (
        subst (λ j. NoKey j (without k c.list)) (sym key) (NoKey-without k c.list v.distinct),
        subst (λ i. NoId i (without k c.list)) (sym same_id)
            (NoId-without k c.list e v.distinct hit),
        Distinct-without k c.list v.distinct,
      )

Below-elem_of :
    (k : String) (n : ℕ) (l : List Element) (e : Element)
    → Below n l
    → elem_of k l ≡ some e
    → e.id < n
unfolding elem_of
Below-elem_of k n [] e b h = ground arith
Below-elem_of k n (x ∷ l) e b h = ground (arith, Below-elem_of k n l e b.1)

-- What a hit does, in terms of keys.
pub get-hit :
    (k : String) (c : LruCache) (e : Element)
    → IsValid c
    → elem_of k c.list ≡ some e
    → get k c ≡ (some e.value.bytes, record c { list = e ∷ without k c.list; hits = c.hits + 1 })
unfolding get move_to_front
get-hit k c e v hit =
    rw (find-elem_of k c v ∙ hit, get) (rw (remove-without k c.list e v.distinct hit))

pub get-miss :
    (k : String) (c : LruCache)
    → IsValid c
    → elem_of k c.list ≡ none
    → get k c ≡ (none, record c { misses = c.misses + 1 })
unfolding get
get-miss k c v miss = rw (find-elem_of k c v ∙ miss, get)

pub get-IsValid : (k : String) (c : LruCache) → IsValid c → IsValid (get k c).1
unfolding total
get-IsValid k c v = elim (Option-cases (elem_of k c.list)) [
  | inl miss ↦
      rw (get-miss k c v miss)
        (record { counted = v.counted; distinct = v.distinct; below = v.below; agree = v.agree })
  | inr (e, hit) ↦ rw (get-hit k c e v hit) (record {
    counted = v.counted ∙ total-without k c.list e hit;
    distinct = moved-Distinct k c e e hit v refl refl;
    below = (Below-elem_of k c.fresh c.list e v.below hit, All-without _ k c.list v.below);
    agree = moved-agree k c e e hit v refl refl;
  })
]

-- `put` on a key that is there.
pub put-hit :
    (k : String) (b : Bytes) (c : LruCache) (e : Element)
    → IsValid c
    → elem_of k c.list ≡ some e
    → put k b c ≡ record c {
      current_bytes = c.current_bytes + length b - length e.value.bytes;
      list = record e { value = record e.value { bytes = b } } ∷ without k c.list;
    }
unfolding put update_existing move_to_front
put-hit k b c e v hit =
    rw (find-elem_of k c v ∙ hit, put) (rw (remove-without k c.list e v.distinct hit))

pub put-miss :
    (k : String) (b : Bytes) (c : LruCache)
    → IsValid c
    → elem_of k c.list ≡ none
    → put k b c ≡ evict (add_new k b c)
unfolding put
put-miss k b c v miss = rw (find-elem_of k c v ∙ miss, put)

put_hit-IsValid :
    (k : String) (b : Bytes) (c : LruCache) (e : Element)
    → IsValid c
    → elem_of k c.list ≡ some e
    → IsValid (put k b c)
unfolding total
put_hit-IsValid k b c e v hit =
    let e' : Element = record e { value = record e.value { bytes = b } } in
    rw (put-hit k b c e v hit) (record {
      counted = omega (arith, v.counted, total-without k c.list e hit);
      distinct = moved-Distinct k c e e' hit v refl refl;
      below = (Below-elem_of k c.fresh c.list e v.below hit, All-without _ k c.list v.below);
      agree = moved-agree k c e e' hit v refl refl;
    })

Below-suc : (n : ℕ) (l : List Element) → Below n l → Below (suc n) l
Below-suc n [] h = tt
Below-suc n (e ∷ l) (p, h) = (omega arith, Below-suc n l h)

NoId-fresh : (n : ℕ) (l : List Element) → Below n l → NoId n l
NoId-fresh n [] h = tt
NoId-fresh n (e ∷ l) (p, h) = (omega arith, NoId-fresh n l h)

pub add_new-IsValid :
    (k : String) (b : Bytes) (c : LruCache)
    → IsValid c
    → elem_of k c.list ≡ none
    → IsValid (add_new k b c)
unfolding add_new total elem_of id_of
add_new-IsValid k b c v miss = record {
  counted = omega (arith, v.counted);
  distinct = (NoKey-elem_of k c.list miss, NoId-fresh c.fresh c.list v.below, v.distinct);
  below = (omega arith, Below-suc c.fresh c.list v.below);
  agree = λ j. ground (arith, lookup-insert k j c.fresh c.items, v.agree j);
}

-- What one eviction does: the last element goes.
pub evict_oldest_lem :
    (c : LruCache) (e : Element)
    → IsValid c
    → back c.list ≡ some e
    → evict_oldest c ≡ record c {
      list = init c.list;
      items = delete e.value.key c.items;
      current_bytes = c.current_bytes - length e.value.bytes;
    }
unfolding evict_oldest
evict_oldest_lem c e v b = rw (b, evict_oldest) (rw (remove-back c.list e v.distinct b))

pub evict_oldest-IsValid : (c : LruCache) → IsValid c → IsValid (evict_oldest c)
unfolding id_of evict_oldest
evict_oldest-IsValid c v = elim (Option-cases (back c.list)) [
  | inl gone ↦ rw (gone, evict_oldest) v
  | inr (e, b) ↦ subst IsValid (sym (evict_oldest_lem c e v b)) (record {
    counted = omega (arith, v.counted, total-init c.list e b);
    distinct = Distinct-init c.list v.distinct;
    below = All-init _ c.list v.below;
    agree = λ j. ground (
      arith,
      lookup-delete e.value.key j c.items,
      v.agree j,
      elem_of-init j c.list e v.distinct b,
    );
  })
]

pub evict_loop-IsValid : (n : ℕ) (c : LruCache) → IsValid c → IsValid (evict_loop n c)
unfolding evict_loop
evict_loop-IsValid zero c v = v
evict_loop-IsValid (suc n) c v =
    elim (Bool-cases (ltb c.max_bytes c.current_bytes && ltb 0 (length c.list))) [
      | inl more ↦
          rw (more, evict_loop) (evict_loop-IsValid n (evict_oldest c) (evict_oldest-IsValid c v))
      | inr done ↦ rw (done, evict_loop) v
    ]

pub put-IsValid : (k : String) (b : Bytes) (c : LruCache) → IsValid c → IsValid (put k b c)
unfolding evict
put-IsValid k b c v = elim (Option-cases (elem_of k c.list)) [
  | inl miss ↦ rw (put-miss k b c v miss) (evict_loop-IsValid _ _ (add_new-IsValid k b c v miss))
  | inr (e, hit) ↦ put_hit-IsValid k b c e v hit
]
