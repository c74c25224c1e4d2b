-- ===== src/Tests/Rings.antt =====
-- Event rings at concrete inputs.
use go_lab_tacacs_mcp.Common.{List, [], length, none, refl, ℕ, ◌%◌, ◌-◌, ◌^◌, ◌∷◌, ◌≡◌}
use go_lab_tacacs_mcp.Common.Text.{text}
use go_lab_tacacs_mcp.Events.Event.{Event, zero_event}
use go_lab_tacacs_mcp.Events.Read.{Query}
use go_lab_tacacs_mcp.Events.Ring.{
  accept, blank, emit_stdout, entries, fan, fanout_locked, latest, new_ring, snapshot, stamp, store,
}
use go_lab_tacacs_mcp.Events.Ring.Refine.{accepts, last?, last_of, ring_refines, stamped}

abbrev login : Event
login = record zero_event { category = text "authen"; typ = text "login" }

abbrev logout : Event
logout = record zero_event { category = text "acct"; typ = text "logout" }

abbrev three : List (ℕ × Event)
three = (5, login) ∷ (6, logout) ∷ (7, login) ∷ []

abbrev authen_only : Query
authen_only = record {
  after_id = 0;
  limit = 1;
  categories = text "authen" ∷ [];
  protocol = [];
  listener_role = [];
  packet_code = [];
  outcome = [];
}

last_two : snapshot (accepts (new_ring 2 none) three) ≡ stamp 2 6 logout ∷ stamp 3 7 login ∷ []
unfolding snapshot entries accepts accept new_ring blank store emit_stdout fanout_locked fan stamp
last_two = refl

ring_refines_example :
    (snapshot (accepts (new_ring 2 none) three) ≡ last_of 2 (stamped 0 three))
    × (latest (accepts (new_ring 2 none) three) ≡ last? (last_of 2 (stamped 0 three)))
    × ((accepts (new_ring 2 none) three).overwritten ≡ (length (stamped 0 three) - 2) % 2 ^ 64)
ring_refines_example = ring_refines 2 none three
