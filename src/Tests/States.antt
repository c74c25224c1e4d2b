-- ===== src/Tests/States.antt =====
-- Challenge States at concrete inputs. The hash of this example is the identity.
use go_lab_tacacs_mcp.Common.{All, List, [], arith, refl, some, true, ◌++◌, ◌<◌, ◌∷◌, ◌≡◌, ◌≢◌}
use go_lab_tacacs_mcp.Common.Text.{Str, str_eq, text}
use go_lab_tacacs_mcp.Radius.Attribute.{wire_size}
use go_lab_tacacs_mcp.Radius.Challenges.{
  ChallengeBind, ChallengeEntry, ChallengeIssue, ChallengeStore, bind_match, bind_udp_ip,
  challenge_key, consume, consume_ok, consume_unknown, entry_bytes, entry_of, find_challenge,
  same_ip,
}
use go_lab_tacacs_mcp.Radius.Challenges.Consume.{
  IsApart, StoreCall, after_calls, consume_once, consume_other_endpoint, consumes, counts,
}

abbrev plain : Str → Str
plain s = s

abbrev udp_bind : ChallengeBind
udp_bind = record { kind = bind_udp_ip; source_ip = some (text "10.0.0.1"); cert_fp = [] }

abbrev md5_issue : ChallengeIssue
md5_issue = record {
  state = text "12";
  endpoint_id = text "nas";
  client_id = text "lab";
  bind = udp_bind;
  user_id = text "bob";
  method = text "eap-md5";
  eap_id = 1;
  eap_type = 4;
  step = text "md5_challenge";
  reply_attributes = [];
  md5_challenge = text "abcd";
  tunnel_id = [];
  revision = 1;
}

abbrev md5_entry : ChallengeEntry
unfolding entry_bytes wire_size
md5_entry = record (entry_of md5_issue 30) { bytes = entry_bytes (entry_of md5_issue 30) }

abbrev one_state : ChallengeStore
one_state = record {
  challenges = (text "nas12", md5_entry) ∷ [];
  max_entries = 4;
  max_bytes = 1000;
  used_bytes = 120;
  ttl = 30;
  saturations = 0;
}

bound_here : bind_match udp_bind udp_bind ≡ true
unfolding bind_match same_ip str_eq
bound_here = refl

first_consume :
    (consume plain 5 one_state (text "nas") (text "12") (text "lab") udp_bind).1
    ≡ consume_ok md5_entry
unfolding consume challenge_key find_challenge str_eq bind_match same_ip md5_entry
first_consume = refl

abbrev later_calls : List StoreCall
later_calls = counts 6 ∷ consumes 7 (text "nas") (text "12") (text "lab") udp_bind ∷ []

later_calls-IsApart : All (IsApart plain (challenge_key plain (text "nas") (text "12"))) later_calls
unfolding IsApart
later_calls-IsApart = (tt, (tt, tt))

consume_once_example :
    (consume plain 8
      (after_calls plain
        (consume plain 5 one_state (text "nas") (text "12") (text "lab") udp_bind).0
        later_calls)
      (text "nas")
      (text "12")
      (text "lab")
      udp_bind).1
    ≡ consume_unknown
consume_once_example =
    consume_once plain 5 8 one_state (text "nas") (text "12") (text "lab") (text "lab") udp_bind
      udp_bind md5_entry later_calls first_consume later_calls-IsApart

held_state :
    find_challenge (challenge_key plain (text "nas") (text "1" ++ text "2")) one_state.challenges
    ≡ some md5_entry
unfolding challenge_key find_challenge str_eq
held_state = refl

still_live : 5 < md5_entry.expires
unfolding md5_entry
still_live = omega arith

same_endpoint : md5_entry.endpoint_id ≡ text "nas"
unfolding md5_entry
same_endpoint = refl

bound_entry : bind_match md5_entry.bind udp_bind ≡ true
unfolding md5_entry
bound_entry = bound_here

consume_other_endpoint_example :
    ((consume plain 5 one_state (text "nas" ++ text "1") (text "2") md5_entry.client_id udp_bind).1
      ≡ consume_ok md5_entry)
    × (md5_entry.endpoint_id ≢ text "nas" ++ text "1")
consume_other_endpoint_example =
    consume_other_endpoint plain 5 one_state (text "nas") (text "1") (text "2") udp_bind md5_entry
      held_state same_endpoint (λ e. cc) (λ e. cc) (λ e. cc) still_live bound_entry
