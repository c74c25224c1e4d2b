-- ===== src/Radius/Cache/Others.antt =====
-- Calls on one slot, and the entries of the other slots.
use go_lab_tacacs_mcp.Common.{
  List, Option-cases, [], arith, false, inl, inr, refl, some, true, ℕ, ◌+◌, ◌<◌, ◌∙◌, ◌∷◌, ◌≡◌,
}
use go_lab_tacacs_mcp.Common.Text.{Str, str_eq→eq}
use go_lab_tacacs_mcp.Radius.Cache.{
  Cache, CacheEntry, Fingerprint, Lookup, SlotKey, abandon, begin, complete, delete_entry,
  expire_locked, find_entry, lookup_miss, lookup_purged, remove_locked, reserve, same_key,
  set_entry,
}
use go_lab_tacacs_mcp.Radius.Cache.Replay.{expire_entries-live, replied_entry}

same_key-congruent :
    (a b other : SlotKey) → same_key a b ≡ true → same_key other b ≡ same_key other a
unfolding same_key
same_key-congruent a b other h = ground (
  arith,
  str_eq→eq a.endpoint_id b.endpoint_id,
  str_eq→eq a.role b.role,
  str_eq→eq a.src b.src,
  str_eq→eq a.listener_id b.listener_id,
)

delete_entry-others :
    (key other : SlotKey) (entries : List (SlotKey × CacheEntry))
    → same_key other key ≡ false
    → find_entry other (delete_entry key entries) ≡ find_entry other entries
unfolding delete_entry find_entry
delete_entry-others key other [] apart = refl
delete_entry-others key other ((k, e) ∷ entries) apart =
    ground (arith, same_key-congruent key k other, delete_entry-others key other entries apart)

set_entry-others :
    (key other : SlotKey) (new : CacheEntry) (entries : List (SlotKey × CacheEntry))
    → same_key other key ≡ false
    → find_entry other (set_entry key new entries) ≡ find_entry other entries
unfolding set_entry find_entry
set_entry-others key other new [] apart = refl
set_entry-others key other new ((k, e) ∷ entries) apart =
    ground (arith, same_key-congruent key k other, set_entry-others key other new entries apart)

remove_locked-others :
    (c : Cache) (key other : SlotKey)
    → same_key other key ≡ false
    → find_entry other (remove_locked c key).entries ≡ find_entry other c.entries
unfolding remove_locked
remove_locked-others c key other apart =
    ground (arith, delete_entry-others key other c.entries apart)

reserve-others :
    (now : ℕ) (c : Cache) (key other : SlotKey) (fp : Fingerprint) (outcome : Lookup)
    → same_key other key ≡ false
    → find_entry other (reserve now c key fp outcome).0.entries ≡ find_entry other c.entries
unfolding reserve find_entry
reserve-others now c key other fp outcome apart = ground arith

begin-others :
    (now : ℕ) (c : Cache) (key other : SlotKey) (fp : Fingerprint) (e : CacheEntry)
    → same_key other key ≡ false
    → find_entry other c.entries ≡ some e
    → now < e.expires
    → find_entry other (begin now c key fp).0.entries ≡ some e
unfolding begin expire_locked
begin-others now c key other fp e apart f lt =
    let c' = expire_locked now c in
    ground (
      arith,
      expire_entries-live now other c.entries c.used_bytes e f lt,
      reserve-others now c' key other fp lookup_miss apart,
      reserve-others now (remove_locked c' key) key other fp lookup_purged apart,
      remove_locked-others c' key other apart,
    )

complete-others :
    (now : ℕ) (c : Cache) (key other : SlotKey) (fp : Fingerprint) (reply : Str)
    → same_key other key ≡ false
    → find_entry other (complete now c key fp reply).entries ≡ find_entry other c.entries
unfolding complete
complete-others now c key other fp reply apart = elim (Option-cases (find_entry key c.entries)) [
  | inl n ↦ ground (arith, n)
  | inr (e, f) ↦ ground (
    arith,
    f,
    remove_locked-others c key other apart,
    set_entry-others key other (replied_entry (now + c.ttl) e.fp reply) c.entries apart,
  )
]

abandon-others :
    (c : Cache) (key other : SlotKey) (fp : Fingerprint)
    → same_key other key ≡ false
    → find_entry other (abandon c key fp).entries ≡ find_entry other c.entries
unfolding abandon
abandon-others c key other fp apart = ground (arith, remove_locked-others c key other apart)

-- A live entry stays what it is under any one call on another slot.
pub calls-others :
    (now : ℕ) (c : Cache) (key other : SlotKey) (fp : Fingerprint) (reply : Str) (e : CacheEntry)
    → same_key other key ≡ false
    → find_entry other c.entries ≡ some e
    → now < e.expires
    → (find_entry other (begin now c key fp).0.entries ≡ some e)
      × (find_entry other (complete now c key fp reply).entries ≡ some e)
      × (find_entry other (abandon c key fp).entries ≡ some e)
calls-others now c key other fp reply e apart f lt = (
  begin-others now c key other fp e apart f lt,
  complete-others now c key other fp reply apart ∙ f,
  abandon-others c key other fp apart ∙ f,
)
