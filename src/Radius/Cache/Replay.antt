-- ===== src/Radius/Cache/Replay.antt =====
-- A slot from its reservation to the replay of its reply.
use go_lab_tacacs_mcp.Common.{
  List, [], arith, false, if◌then◌else◌, length, some, true, ℕ, ◌+◌, ◌-◌, ◌<◌, ◌∷◌, ◌≡◌, ◌≤◌, ◌⊎◌,
}
use go_lab_tacacs_mcp.Common.Text.{Str, str_eq_refl}
use go_lab_tacacs_mcp.Radius.Cache.{
  Cache, CacheEntry, Fingerprint, Lookup, SlotKey, begin, complete, expire_entries, expire_locked,
  find_entry, lookup_hit, lookup_miss, lookup_pending, lookup_purged, remove_locked, reserve,
  same_fp, same_key, set_entry,
}

same_key_refl : (k : SlotKey) → same_key k k ≡ true
unfolding same_key
same_key_refl k = ground (
  arith,
  str_eq_refl k.endpoint_id,
  str_eq_refl k.role,
  str_eq_refl k.src,
  str_eq_refl k.listener_id,
)

same_fp_refl : (fp : Fingerprint) → same_fp fp fp ≡ true
unfolding same_fp
same_fp_refl fp = ground (arith, str_eq_refl fp.auth, str_eq_refl fp.digest)

pub expire_entries-live :
    (now : ℕ) (key : SlotKey) (entries : List (SlotKey × CacheEntry)) (used : ℕ) (e : CacheEntry)
    → find_entry key entries ≡ some e
    → now < e.expires
    → find_entry key (expire_entries now entries used).0 ≡ some e
unfolding expire_entries find_entry
expire_entries-live now key [] used e f lt = cc
expire_entries-live now key ((k, x) ∷ entries) used e f lt = ground (
  arith,
  expire_entries-live now key entries (used - x.bytes) e,
  expire_entries-live now key entries used e,
)

set_entry-found :
    (key : SlotKey) (new e : CacheEntry) (entries : List (SlotKey × CacheEntry))
    → find_entry key entries ≡ some e
    → find_entry key (set_entry key new entries) ≡ some new
unfolding find_entry set_entry
set_entry-found key new e [] f = cc
set_entry-found key new e ((k, x) ∷ entries) f = ground (arith, set_entry-found key new e entries)

-- The outcomes with which `Begin` hands the slot to its caller.
unfoldable pub IsOwner : Lookup → Type 0
IsOwner o = (o ≡ lookup_miss) ⊎ (o ≡ lookup_purged)

abbrev pub pending_entry : ℕ → Fingerprint → CacheEntry
pending_entry expires fp = record {
  pending = true;
  fp = fp;
  response = [];
  expires = expires;
  bytes = 0;
}

reserve-found :
    (now : ℕ) (c : Cache) (key : SlotKey) (fp : Fingerprint) (outcome : Lookup)
    → IsOwner (reserve now c key fp outcome).1.0
    → (find_entry key (reserve now c key fp outcome).0.entries
        ≡ some (pending_entry (now + c.ttl) fp))
      × ((reserve now c key fp outcome).0.ttl ≡ c.ttl)
unfolding reserve find_entry IsOwner
reserve-found now c key fp outcome h = ground (arith, same_key_refl key)

remove_locked-ttl : (c : Cache) (key : SlotKey) → (remove_locked c key).ttl ≡ c.ttl
unfolding remove_locked
remove_locked-ttl c key = ground arith

begin-found :
    (now : ℕ) (c : Cache) (key : SlotKey) (fp : Fingerprint)
    → IsOwner (begin now c key fp).1.0
    → (find_entry key (begin now c key fp).0.entries ≡ some (pending_entry (now + c.ttl) fp))
      × ((begin now c key fp).0.ttl ≡ c.ttl)
unfolding begin expire_locked IsOwner
begin-found now c key fp h =
    let c' = expire_locked now c in
    ground (
      arith,
      h,
      reserve-found now c' key fp lookup_miss,
      remove_locked-ttl c' key,
      reserve-found now (remove_locked c' key) key fp lookup_purged,
    )

-- A live entry with the fingerprint answers `Begin`: pending with nothing, complete with its reply.
begin-live :
    (now : ℕ) (c : Cache) (key : SlotKey) (e : CacheEntry)
    → find_entry key c.entries ≡ some e
    → now < e.expires
    → (begin now c key e.fp).1
      ≡ (if e.pending then (lookup_pending, []) else (lookup_hit, e.response))
unfolding begin expire_locked
begin-live now c key e f lt =
    ground (arith, expire_entries-live now key c.entries c.used_bytes e f lt, same_fp_refl e.fp)

-- Once `Begin` has handed a slot to its caller, an equal request that comes next and before the
-- slot expires is discarded as pending.
pub begin-pending :
    (now later : ℕ) (c : Cache) (key : SlotKey) (fp : Fingerprint)
    → IsOwner (begin now c key fp).1.0
    → later < now + c.ttl
    → (begin later (begin now c key fp).0 key fp).1 ≡ (lookup_pending, [])
begin-pending now later c key fp h lt =
    begin-live later (begin now c key fp).0 key (pending_entry (now + c.ttl) fp)
      (begin-found now c key fp h).0 lt

abbrev pub replied_entry : ℕ → Fingerprint → Str → CacheEntry
replied_entry expires fp reply = record {
  pending = false;
  fp = fp;
  response = reply;
  expires = expires;
  bytes = length reply;
}

complete-found :
    (now expires : ℕ) (c : Cache) (key : SlotKey) (fp : Fingerprint) (reply : Str)
    → find_entry key c.entries ≡ some (pending_entry expires fp)
    → c.used_bytes + length reply ≤ c.max_bytes
    → find_entry key (complete now c key fp reply).entries
      ≡ some (replied_entry (now + c.ttl) fp reply)
unfolding complete
complete-found now expires c key fp reply f room = ground (
  arith,
  f,
  same_fp_refl fp,
  set_entry-found key (replied_entry (now + c.ttl) fp reply) (pending_entry expires fp) c.entries f,
)

-- When the owner of a slot completes it, with no call between, with a reply for which the byte limit
-- has room, an equal request that comes next and before the reply expires gets exactly the bytes of
-- that reply.
pub begin-complete :
    (now done later : ℕ) (c : Cache) (key : SlotKey) (fp : Fingerprint) (reply : Str)
    → IsOwner (begin now c key fp).1.0
    → (begin now c key fp).0.used_bytes + length reply ≤ (begin now c key fp).0.max_bytes
    → later < done + c.ttl
    → (begin later (complete done (begin now c key fp).0 key fp reply) key fp).1
      ≡ (lookup_hit, reply)
begin-complete now done later c key fp reply h room lt =
    let c' = (begin now c key fp).0 in
    let (found, ttl) = begin-found now c key fp h in
    begin-live later (complete done c' key fp reply) key (replied_entry (done + c'.ttl) fp reply)
      (complete-found done (now + c.ttl) c' key fp reply found room) (omega (arith, ttl))
