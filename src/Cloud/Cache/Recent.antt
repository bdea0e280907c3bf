-- ===== src/Cloud/Cache/Recent.antt =====
-- internal/cloud/cache.go: the specification of the cache, a list of entries, most recently
-- used first.
use famfun.Prelude.{
  ℕ, ◌+◌, ◌-◌, ◌≤◌, ◌<◌, ◌≡◌, refl, ap, subst, inl, inr, Bool-cases, String, List, [], ◌∷◌, map,
  Option, none, some, arith, length, leb, ◌==◌, eq_iff, if◌then◌else◌,
}
use famfun.Prelude.Dict.{Dict, lookup, delete}
use famfun.Protocol.Message.{Bytes}
use famfun.Cloud.Cache.{LruCache, Element}
use famfun.Cloud.Cache.Index.{elem_of, without, NoKey, Distinct, total, init}

-- The specification: no identities, no map, no byte count.
pub record Recent : Type 0 where
  pub limit : ℕ
  pub entries : Dict Bytes
  pub hits : ℕ
  pub misses : ℕ

-- The longest beginning whose bytes fit.
unfoldable pub keep : ℕ → Dict Bytes → Dict Bytes
keep room [] = []
keep room (e ∷ es) =
    let rest = keep (room - length e.1) es in if leb (length e.1) room then e ∷ rest else []

unfoldable pub recent_get : String → Recent → Option Bytes × Recent
recent_get k r = elim (lookup k r.entries) [
  | none ↦ (none, record r { misses = r.misses + 1 })
  | some b ↦ (some b, record r { entries = (k, b) ∷ delete k r.entries; hits = r.hits + 1 })
]

-- A key that is there is replaced whatever its size; a new one makes room at the old end.
unfoldable pub recent_put : String → Bytes → Recent → Recent
recent_put k b r = elim (lookup k r.entries) [
  | none ↦ record r { entries = keep r.limit ((k, b) ∷ r.entries) }
  | some _ ↦ record r { entries = (k, b) ∷ delete k r.entries }
]

abbrev pub view : List Element → Dict Bytes
view = map (λ e. (e.value.key, e.value.bytes))

abbrev pub abs : LruCache → Recent
abs c = record { limit = c.max_bytes; entries = view c.list; hits = c.hits; misses = c.misses }

unfoldable pub bytes_of : Option Element → Option Bytes
bytes_of none = none
bytes_of (some e) = some e.value.bytes

pub lookup-view : (k : String) (l : List Element) → lookup k (view l) ≡ bytes_of (elem_of k l)
unfolding lookup elem_of bytes_of
lookup-view k [] = refl
lookup-view k (e ∷ l) = ground (arith, lookup-view k l)

pub delete-NoKey : (k : String) (l : List Element) → NoKey k l → delete k (view l) ≡ view l
unfolding delete
delete-NoKey k [] n = refl
delete-NoKey k (e ∷ l) n = ground (arith, eq_iff e.value.key k, delete-NoKey k l n.1)

pub delete-view :
    (k : String) (l : List Element) → Distinct l → delete k (view l) ≡ view (without k l)
unfolding delete without
delete-view k [] d = refl
delete-view k (e ∷ l) (n, i, d) = elim (Bool-cases (e.value.key == k)) [
  | inl hit ↦
      rw hit (
        subst (λ j. delete j (view l) ≡ view l) ((eq_iff e.value.key k).0 hit) (delete-NoKey _ l n))
  | inr miss ↦ rw miss (rw (delete-view k l d))
]

pub keep_all : (max : ℕ) (l : List Element) → total l ≤ max → keep max (view l) ≡ view l
unfolding keep total
keep_all max [] h = refl
keep_all max (e ∷ l) h = ground (arith, keep_all (max - length e.value.bytes) l)

pub keep-init :
    (max : ℕ) (l : List Element) → max < total l → keep max (view l) ≡ keep max (view (init l))
unfolding keep total init
keep-init max [] h = absurd (omega arith)
keep-init max (e ∷ []) h = ground arith
keep-init max (e ∷ x ∷ l) h = elim (Bool-cases (leb (length e.value.bytes) max)) [
  | inl fits ↦
      let there : length e.value.bytes ≤ max = ground arith in
      rw fits (
        ap (◌∷◌ (e.value.key, e.value.bytes))
          (keep-init (max - length e.value.bytes) (x ∷ l) (omega arith)))
  | inr over ↦ rw over
]
