-- ===== src/Tests/Caches.antt =====
-- The retransmission cache at concrete inputs. The hash of this example is the identity.
use go_lab_tacacs_mcp.Common.{List, [], arith, false, inl, length, refl, some, ◌+◌, ◌∷◌, ◌≡◌, ◌≤◌}
use go_lab_tacacs_mcp.Common.Text.{str_eq, text}
use go_lab_tacacs_mcp.Radius.Cache.{
  Cache, Fingerprint, SlotKey, abandon, begin, complete, delete_entry, expire_entries,
  expire_locked, find_entry, fingerprint_of, lookup_hit, lookup_miss, lookup_pending, lookup_purged,
  new_cache, remove_locked, same_fp, same_key, set_entry,
}
use go_lab_tacacs_mcp.Radius.Cache.Bounds.{
  Call, IsBounded, abandons, after, after-new_cache, begins, completes,
}
use go_lab_tacacs_mcp.Radius.Cache.Others.{calls-others}
use go_lab_tacacs_mcp.Radius.Cache.Replay.{IsOwner, begin-complete, begin-pending, pending_entry}

abbrev nas : SlotKey
nas = record {
  endpoint_id = text "nas";
  role = text "auth";
  src = text "10.0.0.1:1812";
  listener_id = text "udp";
  code = 1;
  id = 7;
}

abbrev first_request : Fingerprint
first_request = record { auth = 1 ∷ 2 ∷ []; digest = text "first" }

abbrev other_request : Fingerprint
other_request = record { auth = 3 ∷ 4 ∷ []; digest = text "other" }

abbrev small_cache : Cache
unfolding new_cache
small_cache = new_cache 2 10 5

abbrev some_calls : List Call
some_calls =
    begins 1 nas first_request
    ∷ completes 2 nas first_request (text "accept")
    ∷ begins 3 nas other_request
    ∷ abandons nas other_request
    ∷ []

after-new_cache_example : IsBounded (after (new_cache 2 10 5) some_calls)
after-new_cache_example = after-new_cache 2 10 5 some_calls

first_begin : (begin 1 small_cache nas first_request).1 ≡ (lookup_miss, [])
unfolding begin expire_locked expire_entries find_entry small_cache
first_begin = refl

purging_begin :
    (begin 3
      (complete 2 (begin 1 small_cache nas first_request).0 nas first_request (text "ok"))
      nas
      other_request).1
    ≡ (lookup_purged, [])
unfolding begin complete expire_locked expire_entries find_entry set_entry remove_locked
    delete_entry same_key same_fp str_eq small_cache
purging_begin = refl

first_begin-IsOwner : IsOwner (begin 1 small_cache nas first_request).1.0
unfolding IsOwner begin expire_locked expire_entries find_entry small_cache
first_begin-IsOwner = inl refl

has_room :
    (begin 1 small_cache nas first_request).0.used_bytes + length (text "accept")
    ≤ (begin 1 small_cache nas first_request).0.max_bytes
unfolding begin expire_locked expire_entries find_entry small_cache
has_room = omega arith

begin-pending_example :
    (begin 3 (begin 1 small_cache nas first_request).0 nas first_request).1 ≡ (lookup_pending, [])
unfolding small_cache
begin-pending_example =
    begin-pending 1 3 small_cache nas first_request first_begin-IsOwner (omega arith)

begin-complete_example :
    (begin 4
      (complete 2 (begin 1 small_cache nas first_request).0 nas first_request (text "accept"))
      nas
      first_request).1
    ≡ (lookup_hit, text "accept")
unfolding small_cache
begin-complete_example =
    begin-complete 1 2 4 small_cache nas first_request (text "accept") first_begin-IsOwner has_room
      (omega arith)

short_fingerprint : (fingerprint_of (λ s. s) (text "abc")).digest ≡ text "abc"
unfolding fingerprint_of
short_fingerprint = refl

abbrev next_id : SlotKey
next_id = record nas { id = 8 }

abbrev one_pending : Cache
one_pending = (begin 1 small_cache nas first_request).0

slots_apart : same_key nas next_id ≡ false
unfolding same_key str_eq
slots_apart = refl

pending_slot : find_entry nas one_pending.entries ≡ some (pending_entry 6 first_request)
unfolding begin expire_locked expire_entries find_entry small_cache same_key str_eq
pending_slot = refl

calls-others_example :
    (find_entry nas (begin 2 one_pending next_id other_request).0.entries
      ≡ some (pending_entry 6 first_request))
    × (find_entry nas (complete 2 one_pending next_id other_request (text "ok")).entries
        ≡ some (pending_entry 6 first_request))
    × (find_entry nas (abandon one_pending next_id other_request).entries
        ≡ some (pending_entry 6 first_request))
calls-others_example =
    calls-others 2 one_pending next_id nas other_request (text "ok") (pending_entry 6 first_request)
      slots_apart pending_slot (omega arith)
