-- ===== src/Tests/Indexes.antt =====
-- The session index at concrete inputs.
use go_lab_tacacs_mcp.Common.{List, [], arith, length, none, refl, some, ◌<◌, ◌∷◌, ◌≡◌}
use go_lab_tacacs_mcp.Common.Text.{str_eq, text}
use go_lab_tacacs_mcp.Radius.Crypto.{zeros}
use go_lab_tacacs_mcp.Radius.Sessions.{
  AcctEvent, SessionIndex, SessionRecord, apply, blank_record, drop_keys, event_interim,
  event_start, expire_sessions, expired_keys, fill, find_handle, find_key, key_of,
  new_session_index, same_session,
}
use go_lab_tacacs_mcp.Radius.Sessions.Counted.{
  IndexCall, IsCounted, after_calls, applies, deletes, index-IsCounted, looks_up, update_past_cap,
}

abbrev start_event : AcctEvent
start_event = record {
  kind = event_start;
  endpoint_id = text "nas";
  client_id = text "lab";
  user_id = text "bob";
  session_id = text "s1";
  nas_ip = none;
  nas_identifier = [];
  nas_port = 0;
  peer = none;
  class_bytes = [];
  started_at = 0;
  revision = 1;
}

abbrev interim_event : AcctEvent
unfolding zeros
interim_event = record start_event { kind = event_interim; class_bytes = zeros 253 }

abbrev bob_record : SessionRecord
unfolding fill
bob_record = record (fill blank_record start_event 5) { handle = text "h1" }

-- After the start; the cap on bytes has room for it.
abbrev tight_index : SessionIndex
tight_index = record {
  max_entries = 4;
  max_bytes = 210;
  ttl = 100;
  by_key = (key_of start_event, text "h1") ∷ [];
  by_handle = (text "h1", bob_record) ∷ [];
  used_bytes = 205;
}

abbrev empty_index : SessionIndex
empty_index = record {
  max_entries = 4;
  max_bytes = 1000;
  ttl = 100;
  by_key = [];
  by_handle = [];
  used_bytes = 0;
}

made : new_session_index 4 1000 100 ≡ some empty_index
unfolding new_session_index
made = refl

abbrev index_calls : List IndexCall
index_calls =
    applies 5 (some (text "h1") ∷ []) start_event
    ∷ applies 6 [] interim_event
    ∷ looks_up 7 (text "h1")
    ∷ deletes 8 (key_of start_event)
    ∷ []

index-IsCounted_example : IsCounted 4 (after_calls empty_index index_calls)
index-IsCounted_example = index-IsCounted 4 1000 100 empty_index index_calls made

key_found :
    find_key (key_of interim_event) (expire_sessions 6 tight_index).by_key ≡ some (text "h1")
unfolding find_key same_session str_eq expire_sessions expired_keys drop_keys bob_record
    interim_event
key_found = refl

handle_found : find_handle (text "h1") (expire_sessions 6 tight_index).by_handle ≡ some bob_record
unfolding find_handle str_eq expire_sessions expired_keys drop_keys bob_record
handle_found = refl

small_cap : (expire_sessions 6 tight_index).max_bytes < length interim_event.class_bytes
unfolding expire_sessions expired_keys drop_keys bob_record zeros interim_event
small_cap = omega arith

update_past_cap_example :
    (expire_sessions 6 tight_index).max_bytes < (apply 6 [] tight_index interim_event).0.used_bytes
unfolding interim_event
update_past_cap_example =
    update_past_cap 6 [] tight_index interim_event (text "h1") bob_record refl (λ e. cc) key_found
      handle_found small_cap
