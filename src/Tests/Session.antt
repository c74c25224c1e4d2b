-- ===== src/Tests/Session.antt =====
-- Sessions and single-connect at concrete inputs.
use go_lab_tacacs_mcp.Common.{List, [], arith, false, none, refl, true, ℕ, ◌<◌, ◌∷◌, ◌≡◌}
use go_lab_tacacs_mcp.Tacacs.Constants.{major_ver}
use go_lab_tacacs_mcp.Tacacs.Header.{Header, major, next_seq, validate}
use go_lab_tacacs_mcp.Tacacs.Sequence.{
  Sequence, check_request, new_sequence, next_reply, set_max_continues,
}
use go_lab_tacacs_mcp.Tacacs.Sequence.Order.{
  Event, from_client, from_server, repeated_255, reply, request, run, run_order, transcript,
}

abbrev client : ℕ → Header
client n = record {
  version = 0xc0;
  typ = 1;
  seq_no = n;
  flags = 0;
  session_id = 5;
  body_length = 0;
}

-- A request that comes again before the reply, and one after the wrong reply, are left out.
abbrev calls : List Event
calls =
    request (client 1) ∷ request (client 1) ∷ reply 0 ∷ request (client 5) ∷ request (client 3) ∷ []

calls-run :
    (run (set_max_continues (new_sequence 5 1) 0, []) calls).1
    ≡ from_client 3 ∷ from_server 2 ∷ from_client 1 ∷ []
unfolding run set_max_continues new_sequence check_request next_reply next_seq validate
calls-run = refl

run_order_example :
    (k : ℕ) × (k < 256)
    × ((run (set_max_continues (new_sequence 5 1) 0, []) calls).1 ≡ transcript k)
run_order_example = run_order 5 1 0 calls (omega arith)

-- A session whose cap is 200 and which waits for packet 255.
abbrev late : Sequence
late = record {
  session_id = 5;
  typ = 1;
  next = 255;
  started = true;
  replied = true;
  closed = false;
  continues = 126;
  max_cont = 200;
  wrap = false;
}

client_major : major (client 255) ≡ major_ver
unfolding major
client_major = refl

repeated_255_example :
    ((check_request late (client 255)).1 ≡ none)
    × ((check_request (check_request late (client 255)).0 (client 255)).1 ≡ none)
repeated_255_example =
    repeated_255 late (client 255) refl refl refl client_major refl refl refl refl refl
      (omega arith)
