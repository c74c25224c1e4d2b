-- ===== src/Radius/Cache/Bounds.antt =====
-- The entries and the bytes that the cache holds, under any calls.
use go_lab_tacacs_mcp.Common.{
  All, List, Option-cases, [], arith, false, inl, inr, length, refl, some, true, ℕ, ◌+◌, ◌-◌, ◌∷◌,
  ◌≡◌, ◌≤◌,
}
use go_lab_tacacs_mcp.Common.Text.{Str}
use go_lab_tacacs_mcp.Radius.Cache.{
  Cache, CacheEntry, Fingerprint, Lookup, SlotKey, abandon, begin, complete, delete_entry,
  expire_entries, expire_locked, find_entry, lookup_miss, lookup_purged, new_cache, remove_locked,
  reserve, set_entry,
}

-- The reply bytes of the entries.
unfoldable pub held_bytes : List (SlotKey × CacheEntry) → ℕ
held_bytes [] = 0
held_bytes ((k, e) ∷ entries) = length e.response + held_bytes entries

-- An entry counts its reply, and a pending one has none.
unfoldable pub IsCounted : SlotKey × CacheEntry → Type 0
IsCounted (k, e) = (e.bytes ≡ length e.response) × (e.pending ≡ true → e.bytes ≡ 0)

pub record IsBounded (c : Cache) : Type 0 where
  pub counted : All IsCounted c.entries
  pub used : c.used_bytes ≡ held_bytes c.entries
  pub within : c.used_bytes ≤ c.max_bytes
  pub few : length c.entries ≤ c.max_entries

find_entry-IsCounted :
    (key : SlotKey) (entries : List (SlotKey × CacheEntry)) (e : CacheEntry)
    → All IsCounted entries
    → find_entry key entries ≡ some e
    → IsCounted (key, e)
unfolding find_entry IsCounted
find_entry-IsCounted key [] e' h f = cc
find_entry-IsCounted key ((k, e) ∷ entries) e' (h, hs) f =
    ground (arith, find_entry-IsCounted key entries e' hs)

delete_entry-IsCounted :
    (key : SlotKey) (entries : List (SlotKey × CacheEntry))
    → All IsCounted entries
    → All IsCounted (delete_entry key entries)
unfolding delete_entry
delete_entry-IsCounted key [] h = tt
delete_entry-IsCounted key ((k, e) ∷ entries) (h, hs) =
    ground (arith, delete_entry-IsCounted key entries hs)

set_entry-IsCounted :
    (key : SlotKey) (new : CacheEntry) (entries : List (SlotKey × CacheEntry))
    → IsCounted (key, new)
    → All IsCounted entries
    → All IsCounted (set_entry key new entries)
unfolding set_entry IsCounted
set_entry-IsCounted key new [] n h = tt
set_entry-IsCounted key new ((k, e) ∷ entries) n (h, hs) =
    ground (arith, set_entry-IsCounted key new entries n hs)

delete_entry-held :
    (key : SlotKey) (entries : List (SlotKey × CacheEntry)) (e : CacheEntry)
    → find_entry key entries ≡ some e
    → (held_bytes (delete_entry key entries) + length e.response ≡ held_bytes entries)
      × (length (delete_entry key entries) + 1 ≡ length entries)
unfolding find_entry delete_entry held_bytes
delete_entry-held key [] e' f = cc
delete_entry-held key ((k, e) ∷ entries) e' f = ground (arith, delete_entry-held key entries e')

set_entry-held :
    (key : SlotKey) (new : CacheEntry) (entries : List (SlotKey × CacheEntry)) (e : CacheEntry)
    → find_entry key entries ≡ some e
    → (held_bytes (set_entry key new entries) + length e.response
        ≡ held_bytes entries + length new.response)
      × (length (set_entry key new entries) ≡ length entries)
unfolding find_entry set_entry held_bytes
set_entry-held key new [] e' f = cc
set_entry-held key new ((k, e) ∷ entries) e' f = ground (arith, set_entry-held key new entries e')

expire_entries-IsCounted :
    (now : ℕ) (entries : List (SlotKey × CacheEntry)) (used : ℕ)
    → All IsCounted entries
    → All IsCounted (expire_entries now entries used).0
unfolding expire_entries
expire_entries-IsCounted now [] used h = tt
expire_entries-IsCounted now ((k, e) ∷ entries) used (h, hs) = ground (
  arith,
  expire_entries-IsCounted now entries (used - e.bytes) hs,
  expire_entries-IsCounted now entries used hs,
)

-- With `rest` for the bytes of entries that the loop has kept.
expire_entries-held :
    (now : ℕ) (entries : List (SlotKey × CacheEntry)) (used rest : ℕ)
    → All IsCounted entries
    → used ≡ held_bytes entries + rest
    → ((expire_entries now entries used).1 ≡ held_bytes (expire_entries now entries used).0 + rest)
      × ((expire_entries now entries used).1 ≤ used)
      × (length (expire_entries now entries used).0 ≤ length entries)
unfolding expire_entries held_bytes IsCounted
expire_entries-held now [] used rest h u = (u, omega arith, omega arith)
expire_entries-held now ((k, e) ∷ entries) used rest (h, hs) u = ground (
  arith,
  expire_entries-held now entries (used - e.bytes) rest hs (ground (arith, h, u)),
  expire_entries-held now entries used (length e.response + rest) hs (ground (arith, u)),
)

expire_locked-IsBounded : (now : ℕ) (c : Cache) → IsBounded c → IsBounded (expire_locked now c)
unfolding expire_locked
expire_locked-IsBounded now c v = ground (
  arith,
  expire_entries-IsCounted now c.entries c.used_bytes v.counted,
  expire_entries-held now c.entries c.used_bytes 0 v.counted (ground (arith, v.used)),
)

remove_locked-IsBounded :
    (c : Cache) (key : SlotKey)
    → IsBounded c
    → IsBounded (remove_locked c key) × (length (remove_locked c key).entries ≤ length c.entries)
unfolding remove_locked IsCounted
remove_locked-IsBounded c key v = elim (Option-cases (find_entry key c.entries)) [
  | inl n ↦ ground (arith, n)
  | inr (e, f) ↦ ground (
    arith,
    f,
    delete_entry-IsCounted key c.entries v.counted,
    delete_entry-held key c.entries e f,
    find_entry-IsCounted key c.entries e v.counted f,
  )
]

reserve-IsBounded :
    (now : ℕ) (c : Cache) (key : SlotKey) (fp : Fingerprint) (outcome : Lookup)
    → IsBounded c
    → IsBounded (reserve now c key fp outcome).0
unfolding reserve held_bytes IsCounted
reserve-IsBounded now c key fp outcome v = ground arith

begin-IsBounded :
    (now : ℕ) (c : Cache) (key : SlotKey) (fp : Fingerprint)
    → IsBounded c
    → IsBounded (begin now c key fp).0
unfolding begin
begin-IsBounded now c key fp v =
    let c' = expire_locked now c in
    let v' = expire_locked-IsBounded now c v in
    ground (
      arith,
      v',
      reserve-IsBounded now c' key fp lookup_miss v',
      reserve-IsBounded now (remove_locked c' key) key fp lookup_purged
          (remove_locked-IsBounded c' key v').0,
    )

complete-IsBounded :
    (now : ℕ) (c : Cache) (key : SlotKey) (fp : Fingerprint) (response : Str)
    → IsBounded c
    → IsBounded (complete now c key fp response)
unfolding complete IsCounted
complete-IsBounded now c key fp response v = elim (Option-cases (find_entry key c.entries)) [
  | inl n ↦ ground (arith, n, v)
  | inr (e, f) ↦
      let new : CacheEntry = record {
        pending = false;
        fp = e.fp;
        response = response;
        expires = now + c.ttl;
        bytes = length response;
      } in
      ground (
        arith,
        f,
        v,
        (remove_locked-IsBounded c key v).0,
        set_entry-IsCounted key new c.entries (refl, λ p. cc) v.counted,
        set_entry-held key new c.entries e f,
        find_entry-IsCounted key c.entries e v.counted f,
      )
]

abandon-IsBounded :
    (c : Cache) (key : SlotKey) (fp : Fingerprint) → IsBounded c → IsBounded (abandon c key fp)
unfolding abandon
abandon-IsBounded c key fp v = ground (arith, v, (remove_locked-IsBounded c key v).0)

-- The calls of the workers, in the order in which they take the lock.
pub data Call : Type 0 where
  begins : ℕ → SlotKey → Fingerprint → Call
  completes : ℕ → SlotKey → Fingerprint → Str → Call
  abandons : SlotKey → Fingerprint → Call

unfoldable pub after : Cache → List Call → Cache
after c [] = c
after c (begins now key fp ∷ calls) = after (begin now c key fp).0 calls
after c (completes now key fp response ∷ calls) = after (complete now c key fp response) calls
after c (abandons key fp ∷ calls) = after (abandon c key fp) calls

after-IsBounded : (calls : List Call) (c : Cache) → IsBounded c → IsBounded (after c calls)
unfolding after
after-IsBounded [] c v = v
after-IsBounded (begins now key fp ∷ calls) c v =
    after-IsBounded calls (begin now c key fp).0 (begin-IsBounded now c key fp v)
after-IsBounded (completes now key fp response ∷ calls) c v =
    after-IsBounded calls (complete now c key fp response)
      (complete-IsBounded now c key fp response v)
after-IsBounded (abandons key fp ∷ calls) c v =
    after-IsBounded calls (abandon c key fp) (abandon-IsBounded c key fp v)

new_cache-IsBounded : (entries bytes ttl : ℕ) → IsBounded (new_cache entries bytes ttl)
unfolding new_cache held_bytes
new_cache-IsBounded entries bytes ttl = ground arith

-- From a new cache, whatever calls come in whatever order and with whatever readings of the clock:
-- the count of bytes is the length of the replies held, a pending entry holds none, the count stays
-- within the byte limit and the entries stay within the entry limit.
pub after-new_cache :
    (entries bytes ttl : ℕ) (calls : List Call)
    → IsBounded (after (new_cache entries bytes ttl) calls)
after-new_cache entries bytes ttl calls =
    after-IsBounded calls (new_cache entries bytes ttl) (new_cache-IsBounded entries bytes ttl)
