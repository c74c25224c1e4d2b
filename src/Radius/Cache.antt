-- ===== src/Radius/Cache.antt =====
-- The retransmission cache: internal/radius/udp/cache.go. Go's map is an association list. A method
-- holds the lock from its start to its end, so it is one step from a cache to a cache, with the
-- reading of the clock as an argument; the receiver is not nil. Instants are numbers. The listener
-- role and the source address are texts.
pub mod Bounds
pub mod Replay
pub mod Others
use go_lab_tacacs_mcp.Common.{
  Bool, List, Option, [], drop, false, if◌then◌else◌, leb, length, ltb, none, not, some, take, true,
  ℕ, ◌&&◌, ◌+◌, ◌-◌, ◌==◌, ◌||◌, ◌∷◌,
}
use go_lab_tacacs_mcp.Common.Text.{Str, str_eq}

pub data Lookup : Type 0 where
  lookup_miss lookup_hit lookup_pending lookup_saturated lookup_purged : Lookup

pub record SlotKey : Type 0 where
  pub endpoint_id : Str
  pub role : Str
  pub src : Str
  pub listener_id : Str
  pub code : ℕ
  pub id : ℕ

pub record Fingerprint : Type 0 where
  pub auth : Str
  pub digest : Str

pub record CacheEntry : Type 0 where
  pub pending : Bool
  pub fp : Fingerprint
  pub response : Str
  pub expires : ℕ
  pub bytes : ℕ

-- Go's `Cache`.
pub record Cache : Type 0 where
  pub entries : List (SlotKey × CacheEntry)
  pub max_entries : ℕ
  pub max_bytes : ℕ
  pub used_bytes : ℕ
  pub ttl : ℕ

-- The limits are numbers, so the negative ones that `newCache` treats like 0 are not written.
unfoldable pub new_cache : ℕ → ℕ → ℕ → Cache
new_cache entries bytes ttl = record {
  entries = [];
  max_entries = if entries == 0 then 1 else entries;
  max_bytes = if bytes == 0 then 4096 else bytes;
  used_bytes = 0;
  ttl = if ttl == 0 then 15000000000 else ttl;
}

-- Go's `==` on the struct.
unfoldable pub same_key : SlotKey → SlotKey → Bool
same_key a b =
    str_eq a.endpoint_id b.endpoint_id
    && (str_eq a.role b.role
        && (str_eq a.src b.src
            && (str_eq a.listener_id b.listener_id && (a.code == b.code && a.id == b.id))))

unfoldable pub same_fp : Fingerprint → Fingerprint → Bool
same_fp a b = str_eq a.auth b.auth && str_eq a.digest b.digest

-- `c.entries[key]`
unfoldable pub find_entry : SlotKey → List (SlotKey × CacheEntry) → Option CacheEntry
find_entry key [] = none
find_entry key ((k, e) ∷ entries) =
    let rest = find_entry key entries in if same_key key k then some e else rest

-- `delete(c.entries, key)`
unfoldable pub delete_entry : SlotKey → List (SlotKey × CacheEntry) → List (SlotKey × CacheEntry)
delete_entry key [] = []
delete_entry key ((k, e) ∷ entries) =
    let rest = delete_entry key entries in if same_key key k then entries else (k, e) ∷ rest

-- The entry that a pointer of the map leads to, written.
unfoldable pub set_entry :
    SlotKey → CacheEntry → List (SlotKey × CacheEntry) → List (SlotKey × CacheEntry)
set_entry key new [] = []
set_entry key new ((k, e) ∷ entries) =
    let rest = set_entry key new entries in
    if same_key key k then (k, new) ∷ entries else (k, e) ∷ rest

-- `removeLocked`; subtraction that stops at 0 is what its test for a negative sum makes of it.
unfoldable pub remove_locked : Cache → SlotKey → Cache
remove_locked c key = elim (find_entry key c.entries) [
  | none ↦ c
  | some e ↦ record c { used_bytes = c.used_bytes - e.bytes; entries = delete_entry key c.entries }
]

-- The loop of `expireLocked`: what stays of the entries and of the sum of bytes.
unfoldable pub expire_entries :
    ℕ → List (SlotKey × CacheEntry) → ℕ → List (SlotKey × CacheEntry) × ℕ
expire_entries now [] used = ([], used)
expire_entries now ((k, e) ∷ entries) used =
    let gone = expire_entries now entries (used - e.bytes) in
    let (kept, left) = expire_entries now entries used in
    if leb e.expires now then gone else ((k, e) ∷ kept, left)

unfoldable pub expire_locked : ℕ → Cache → Cache
expire_locked now c =
    let (kept, left) = expire_entries now c.entries c.used_bytes in
    record c { entries = kept; used_bytes = left }

-- The end of `Begin`: the test for room and the new pending entry.
unfoldable pub reserve : ℕ → Cache → SlotKey → Fingerprint → Lookup → Cache × (Lookup × Str)
reserve now c key fp outcome =
    if leb c.max_entries (length c.entries) then (c, (lookup_saturated, [])) else (
      record c {
        entries =
            (
              key,
              record { pending = true; fp = fp; response = []; expires = now + c.ttl; bytes = 0 },
            )
            ∷ c.entries;
      },
      (outcome, []),
    )

unfoldable pub begin : ℕ → Cache → SlotKey → Fingerprint → Cache × (Lookup × Str)
unfolding reserve
begin now c₀ key fp =
    let c = expire_locked now c₀ in
    elim (find_entry key c.entries) [
      | none ↦ reserve now c key fp lookup_miss
      | some e ↦
          if same_fp e.fp fp
          then if e.pending then (c, (lookup_pending, [])) else (c, (lookup_hit, e.response))
          else reserve now (remove_locked c key) key fp lookup_purged
    ]

unfoldable pub complete : ℕ → Cache → SlotKey → Fingerprint → Str → Cache
complete now c key fp response = elim (find_entry key c.entries) [
  | none ↦ c
  | some e ↦
      if not e.pending || not (same_fp e.fp fp)
      then c
      else if ltb c.max_bytes (c.used_bytes + length response)
      then remove_locked c key
      else record c {
        entries =
            set_entry key
              (record {
                pending = false;
                fp = e.fp;
                response = response;
                expires = now + c.ttl;
                bytes = length response;
              })
              c.entries;
        used_bytes = c.used_bytes + length response;
      }
]

unfoldable pub abandon : Cache → SlotKey → Fingerprint → Cache
abandon c key fp = elim (find_entry key c.entries) [
  | none ↦ c
  | some e ↦ if not (same_fp e.fp fp) then c else remove_locked c key
]

-- `fingerprintOf`, with SHA-256 as a parameter: the authenticator of a datagram that has a whole
-- header of 20 bytes, else 16 zero bytes.
unfoldable pub fingerprint_of : (Str → Str) → Str → Fingerprint
fingerprint_of sha256 declared = record {
  auth =
      if leb 20 (length declared)
      then take 16 (drop 4 declared)
      else 0 ∷ 0 ∷ 0 ∷ 0 ∷ 0 ∷ 0 ∷ 0 ∷ 0 ∷ 0 ∷ 0 ∷ 0 ∷ 0 ∷ 0 ∷ 0 ∷ 0 ∷ 0 ∷ [];
  digest = sha256 declared;
}
