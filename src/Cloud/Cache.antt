-- ===== src/Cloud/Cache.antt =====
-- internal/cloud/cache.go: the least-recently-used cache of stream segments. The elements of the
-- `container/list` have identities, and the map leads from a key to the identity of an element.
-- `max_bytes` is not negative, and the byte counts stay below 2 ^ 63.
pub mod Index
pub mod Valid
pub mod Recent
pub mod Refines
use famfun.Prelude.{
  ℕ, zero, suc, ◌+◌, ◌-◌, String, List, [], ◌∷◌, ◌++◌, Option, none, some, Bool, true, false, ◌&&◌,
  length, ltb, nat_eq, if◌then◌else◌,
}
use famfun.Prelude.Dict.{Dict, lookup, insert, delete}
use famfun.Protocol.Message.{Bytes}

pub record CacheEntry : Type 0 where
  pub key : String
  pub bytes : Bytes

-- *list.Element, with its identity.
pub record Element : Type 0 where
  pub id : ℕ
  pub value : CacheEntry

-- The front of the list comes first. `fresh` is the identity of the next element.
pub record LruCache : Type 0 where
  pub max_bytes : ℕ
  pub current_bytes : ℕ
  pub list : List Element
  pub items : Dict ℕ
  pub hits : ℕ
  pub misses : ℕ
  pub fresh : ℕ

unfoldable pub new_lru_cache : ℕ → LruCache
new_lru_cache max = record {
  max_bytes = max;
  current_bytes = 0;
  list = [];
  items = [];
  hits = 0;
  misses = 0;
  fresh = 0;
}

-- The element with an identity.
unfoldable pub element : ℕ → List Element → Option Element
element i [] = none
element i (e ∷ es) = if nat_eq e.id i then some e else element i es

-- list.Remove(elem)
unfoldable pub remove : ℕ → List Element → List Element
remove i [] = []
remove i (e ∷ es) = if nat_eq e.id i then es else e ∷ remove i es

-- list.MoveToFront(elem)
unfoldable pub move_to_front : Element → List Element → List Element
move_to_front e es = e ∷ remove e.id es

-- The element of a key: the map's identity, followed to the list.
unfoldable pub find : String → LruCache → Option Element
find key c = elim (lookup key c.items) [ none ↦ none | some i ↦ element i c.list ]

unfoldable pub get : String → LruCache → Option Bytes × LruCache
get key c = elim (find key c) [
  | none ↦ (none, record c { misses = c.misses + 1 })
  | some e ↦ (some e.value.bytes, record c { list = move_to_front e c.list; hits = c.hits + 1 })
]

unfoldable pub update_existing : Element → Bytes → LruCache → LruCache
update_existing e b c = record c {
  current_bytes = c.current_bytes + length b - length e.value.bytes;
  list = move_to_front (record e { value = record e.value { bytes = b } }) c.list;
}

unfoldable pub add_new : String → Bytes → LruCache → LruCache
add_new key b c = record c {
  list = record { id = c.fresh; value = record { key = key; bytes = b } } ∷ c.list;
  items = insert key c.fresh c.items;
  current_bytes = c.current_bytes + length b;
  fresh = suc c.fresh;
}

-- list.Back()
unfoldable pub back : List Element → Option Element
back [] = none
back (e ∷ []) = some e
back (e ∷ e' ∷ es) = back (e' ∷ es)

unfoldable pub evict_oldest : LruCache → LruCache
evict_oldest c = elim (back c.list) [
  | none ↦ c
  | some e ↦ record c {
    list = remove e.id c.list;
    items = delete e.value.key c.items;
    current_bytes = c.current_bytes - length e.value.bytes;
  }
]

-- The loop of `evict`, on fuel; the list shrinks in every round.
unfoldable pub evict_loop : ℕ → LruCache → LruCache
evict_loop zero c = c
evict_loop (suc n) c = elim (ltb c.max_bytes c.current_bytes && ltb 0 (length c.list)) [
  | true ↦ evict_loop n (evict_oldest c)
  | false ↦ c
]

unfoldable pub evict : LruCache → LruCache
evict c = evict_loop (length c.list) c

unfoldable pub put : String → Bytes → LruCache → LruCache
put key b c = elim (find key c) [ some e ↦ update_existing e b c | none ↦ evict (add_new key b c) ]

-- model.CacheStats; `F` are the floating-point numbers.
pub record CacheStats (F : Type 0) : Type 0 where
  pub hits : ℕ
  pub misses : ℕ
  pub entries : ℕ
  pub size_bytes : ℕ
  pub max_bytes : ℕ
  pub hit_rate : F

-- `ratio a b` is float64(a) / float64(b).
unfoldable pub stats : {F : Type 0} → F → (ℕ → ℕ → F) → LruCache → CacheStats F
stats zero_rate ratio c =
    let total = c.hits + c.misses in
    record {
      hits = c.hits;
      misses = c.misses;
      entries = length c.list;
      size_bytes = c.current_bytes;
      max_bytes = c.max_bytes;
      hit_rate = if ltb 0 total then ratio c.hits total else zero_rate;
    }
