-- ===== src/Cloud/Cache/Refines.antt =====
-- internal/cloud/cache.go: the cache against a list of entries, most recently used first.
use famfun.Prelude.{
  ℕ, zero, suc, ◌+◌, ◌≤◌, ◌<◌, ◌≡◌, refl, sym, ap, ap₂, ◌∙◌, inl, inr, Bool-cases, Option-cases,
  String, List, [], ◌∷◌, Option, none, some, ◌&&◌, arith, length, ltb, eq_refl,
}
use famfun.Prelude.Dict.{Dict, lookup, delete}
use famfun.Protocol.Message.{Bytes}
use famfun.Cloud.Cache.{
  LruCache, Element, new_lru_cache, get, put, add_new, find, back, evict_oldest, evict_loop, evict,
}
use famfun.Cloud.Cache.Index.{elem_of, total, elem_of_key, total-without, length-init, back-none}
use famfun.Cloud.Cache.Valid.{
  IsValid, new_lru_cache-IsValid, find-elem_of, get-hit, get-miss, get-IsValid, put-hit, put-miss,
  put-IsValid, add_new-IsValid, evict_oldest_lem, evict_oldest-IsValid,
}
use famfun.Cloud.Cache.Recent.{
  Recent, keep, recent_get, recent_put, view, abs, bytes_of, lookup-view, delete-view, keep_all,
  keep-init,
}

-- `d` is `c` with as much dropped from the old end as the limit asks for.
pub record Fits (c d : LruCache) : Type 0 where
  pub entries : view d.list ≡ keep c.max_bytes (view c.list)
  pub bounded : d.current_bytes ≤ c.max_bytes
  pub limit : d.max_bytes ≡ c.max_bytes
  pub hits : d.hits ≡ c.hits
  pub misses : d.misses ≡ c.misses

Fits-self : (c : LruCache) → IsValid c → total c.list ≤ c.max_bytes → Fits c c
Fits-self c v h = record {
  entries = sym (keep_all c.max_bytes c.list h);
  bounded = omega (arith, v.counted);
  limit = refl;
  hits = refl;
  misses = refl;
}

total-nil : (l : List Element) → length l ≤ 0 → total l ≡ 0
unfolding total
total-nil [] h = refl
total-nil (x ∷ l) h = absurd (omega arith)

-- The loop ends because the list shrinks, and leaves what fits.
evict_loop-Fits : (n : ℕ) (c : LruCache) → IsValid c → length c.list ≤ n → Fits c (evict_loop n c)
unfolding evict_loop
evict_loop-Fits zero c v h = Fits-self c v (omega (arith, total-nil c.list))
evict_loop-Fits (suc n) c v h =
    elim (Bool-cases (ltb c.max_bytes c.current_bytes && ltb 0 (length c.list))) [
      | inr done ↦
          rw (done, evict_loop) (Fits-self c v (ground (arith, v.counted, total-nil c.list)))
      | inl more ↦
          rw (more, evict_loop)
            (elim (Option-cases (back c.list)) [
              | inl gone ↦ absurd (ground (arith, ap length (back-none c.list gone)))
              | inr (e, b) ↦
                  let over : c.max_bytes < total c.list = ground (arith, v.counted) in
                  let step = evict_oldest_lem c e v b in
                  let ih =
                    evict_loop-Fits n (evict_oldest c) (evict_oldest-IsValid c v)
                      (omega (arith, ap (λ d. length d.list) step, length-init c.list e b)) in
                  record {
                    entries =
                        ih.entries
                        ∙ ap (λ d. keep d.max_bytes (view d.list)) step
                        ∙ sym (keep-init c.max_bytes c.list over);
                    bounded = omega (arith, ih.bounded, ap (λ d. d.max_bytes) step);
                    limit = ih.limit ∙ ap (λ d. d.max_bytes) step;
                    hits = ih.hits ∙ ap (λ d. d.hits) step;
                    misses = ih.misses ∙ ap (λ d. d.misses) step;
                  }
            ])
    ]

-- A valid cache answers and changes as the list of entries does.
get-abs :
    (k : String) (c : LruCache)
    → IsValid c
    → ((get k c).0 ≡ (recent_get k (abs c)).0) × (abs (get k c).1 ≡ (recent_get k (abs c)).1)
unfolding recent_get bytes_of
get-abs k c v = elim (Option-cases (elem_of k c.list)) [
  | inl miss ↦
      let gone : lookup k (view c.list) ≡ none = lookup-view k c.list ∙ ap bytes_of miss in
      rw (get-miss k c v miss) (rw (gone, recent_get) (refl, refl))
  | inr (e, hit) ↦
      let found = lookup-view k c.list ∙ ap bytes_of hit in
      let rest = delete-view k c.list v.distinct in
      rw (get-hit k c e v hit)
        (rw (found, recent_get) (refl, rw (rest, elem_of_key k c.list e hit)))
]

put-abs :
    (k : String) (b : Bytes) (c : LruCache) → IsValid c → abs (put k b c) ≡ recent_put k b (abs c)
unfolding recent_put bytes_of evict add_new
put-abs k b c v = elim (Option-cases (elem_of k c.list)) [
  | inl miss ↦
      let gone : lookup k (view c.list) ≡ none = lookup-view k c.list ∙ ap bytes_of miss in
      let fits = evict_loop-Fits _ (add_new k b c) (add_new-IsValid k b c v miss) (omega arith) in
      rw (put-miss k b c v miss) (
        rw (gone, recent_put)
          (λ i. record {
            limit = fits.limit i;
            entries = fits.entries i;
            hits = fits.hits i;
            misses = fits.misses i;
          }))
  | inr (e, hit) ↦
      let found = lookup-view k c.list ∙ ap bytes_of hit in
      let rest = delete-view k c.list v.distinct in
      rw (put-hit k b c e v hit) (rw (found, recent_put) (rw (rest, elem_of_key k c.list e hit)))
]

-- One call of the cache's clients.
pub data Call : Type 0 where
  gets : String → Call
  puts : String → Bytes → Call

-- The calls in order: what each `Get` returned, and the cache at the end.
unfoldable pub run : List Call → LruCache → List (Option Bytes) × LruCache
run [] c = ([], c)
run (gets k ∷ calls) c = let (b, c') = get k c in let (bs, d) = run calls c' in (b ∷ bs, d)
run (puts k b ∷ calls) c = run calls (put k b c)

unfoldable pub recent_run : List Call → Recent → List (Option Bytes) × Recent
recent_run [] r = ([], r)
recent_run (gets k ∷ calls) r =
    let (b, r') = recent_get k r in let (bs, q) = recent_run calls r' in (b ∷ bs, q)
recent_run (puts k b ∷ calls) r = recent_run calls (recent_put k b r)

run-IsValid :
    (calls : List Call) (c : LruCache)
    → IsValid c
    → ((run calls c).0 ≡ (recent_run calls (abs c)).0)
      × (abs (run calls c).1 ≡ (recent_run calls (abs c)).1)
      × IsValid (run calls c).1
unfolding run recent_run
run-IsValid [] c v = (refl, refl, v)
run-IsValid (gets k ∷ calls) c v =
    let (answer, after) = get-abs k c v in
    let (p, q, w) = run-IsValid calls (get k c).1 (get-IsValid k c v) in
    (
      ap₂ ◌∷◌ answer (p ∙ ap (λ r. (recent_run calls r).0) after),
      q ∙ ap (λ r. (recent_run calls r).1) after,
      w,
    )
run-IsValid (puts k b ∷ calls) c v =
    let after = put-abs k b c v in
    let (p, q, w) = run-IsValid calls (put k b c) (put-IsValid k b c v) in
    (p ∙ ap (λ r. (recent_run calls r).0) after, q ∙ ap (λ r. (recent_run calls r).1) after, w)

-- From a new cache, any sequence of `Get` and `Put` gives the answers that the list of entries
-- gives, and leaves a cache that is valid and holds exactly its entries, in its order, with its
-- counts of hits and misses.
pub run-recent_run :
    (max : ℕ) (calls : List Call)
    → ((run calls (new_lru_cache max)).0 ≡ (recent_run calls (abs (new_lru_cache max))).0)
      × (abs (run calls (new_lru_cache max)).1 ≡ (recent_run calls (abs (new_lru_cache max))).1)
      × IsValid (run calls (new_lru_cache max)).1
run-recent_run max calls = run-IsValid calls (new_lru_cache max) (new_lru_cache-IsValid max)

-- After a `Put` of a new key the stored bytes are within the limit, and what is stored is the
-- longest run of the most recently used entries that fits, the new one first.
pub put_new-Fits :
    (k : String) (b : Bytes) (c : LruCache)
    → IsValid c
    → find k c ≡ none
    → ((put k b c).current_bytes ≤ c.max_bytes)
      × (view (put k b c).list ≡ keep c.max_bytes ((k, b) ∷ view c.list))
unfolding evict add_new
put_new-Fits k b c v gone =
    let miss : elem_of k c.list ≡ none = sym (find-elem_of k c v) ∙ gone in
    let fits = evict_loop-Fits _ (add_new k b c) (add_new-IsValid k b c v miss) (omega arith) in
    rw (put-miss k b c v miss) (fits.bounded, fits.entries)

-- A `Put` of a key that is there stores its bytes at the front and evicts nothing, whatever their size:
-- the other entries stay as they are, and so does the limit. The byte count moves by the difference in
-- size, so that it ends above the limit exactly if it does so with the new bytes in place of the old.
pub put_present_over :
    (k : String) (b : Bytes) (c : LruCache) (e : Element)
    → IsValid c
    → find k c ≡ some e
    → (view (put k b c).list ≡ (k, b) ∷ delete k (view c.list))
      × ((put k b c).current_bytes + length e.value.bytes ≡ c.current_bytes + length b)
      × ((put k b c).max_bytes ≡ c.max_bytes)
      × (ltb (put k b c).max_bytes (put k b c).current_bytes
          ≡ ltb (c.max_bytes + length e.value.bytes) (c.current_bytes + length b))
put_present_over k b c e v found =
    let hit : elem_of k c.list ≡ some e = sym (find-elem_of k c v) ∙ found in
    rw (put-hit k b c e v hit) (
      rw (delete-view k c.list v.distinct, elem_of_key k c.list e hit) refl,
      omega (arith, v.counted, total-without k c.list e hit),
      refl,
      ground (arith, v.counted, total-without k c.list e hit),
    )

lookup-front : (k : String) (b : Bytes) (es : Dict Bytes) → lookup k ((k, b) ∷ es) ≡ some b
unfolding lookup
lookup-front k b es = rw (eq_refl k)

keep-front :
    (k : String) (b : Bytes) (room : ℕ) (es : Dict Bytes)
    → length b ≤ room
    → lookup k (keep room ((k, b) ∷ es)) ≡ some b
unfolding keep lookup
keep-front k b room es h = ground (arith, eq_refl k)

-- What was put is what the next `Get` returns, if it fits into the cache at all.
pub get-put :
    (k : String) (b : Bytes) (c : LruCache)
    → IsValid c
    → length b ≤ c.max_bytes
    → (get k (put k b c)).0 ≡ some b
unfolding recent_get recent_put
get-put k b c v h =
    (get-abs k (put k b c) (put-IsValid k b c v)).0
    ∙ ap (λ r. (recent_get k r).0) (put-abs k b c v)
    ∙ elim (Option-cases (lookup k (view c.list))) [
      | inl gone ↦
          rw (gone, recent_put) (rw (keep-front k b c.max_bytes (view c.list) h, recent_get))
      | inr (a, there) ↦
          rw (there, recent_put) (rw (lookup-front k b (delete k (view c.list)), recent_get))
    ]
