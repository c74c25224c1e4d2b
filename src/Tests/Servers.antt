-- ===== src/Tests/Servers.antt =====
-- A TACACS+ connection with the handler that has no AAA, at concrete inputs.
use go_lab_tacacs_mcp.Common.{
  List, [], false, length, ok, refl, some, true, ◌%◌, ◌+◌, ◌∷◌, ◌≡◌, ◌≤◌,
}
use go_lab_tacacs_mcp.Common.Bytes.{Bytes}
use go_lab_tacacs_mcp.Common.Text.{text}
use go_lab_tacacs_mcp.Server.Conn.{
  Conn, Turn, delete_session, dispatch_in, drop_session, end_aaa, end_round, find_session,
  negotiate_flags, new_conn, new_session, offer_packet, open_admitted, open_session, open_valid,
  opens, put_session, reads, reply_error, run_session, runs, session_round, take_turn, take_turns,
  write, write_error,
}
use go_lab_tacacs_mcp.Server.Conn.Bounds.{connection_bounds}
use go_lab_tacacs_mcp.Server.Conn.Drain.{Drains, drain_settles}
use go_lab_tacacs_mcp.Server.Dispatch.{
  Identity, Outgoing, dispatch, dispatch_acct, encode_acct, legacy, map_decode_err, route, tls,
}
use go_lab_tacacs_mcp.Server.Dispatch.Reply.{IsReply, dispatch-IsReply}
use go_lab_tacacs_mcp.Server.Stub.{stub}
use go_lab_tacacs_mcp.Tacacs.Acct.{decode_acct_request, encode_acct_reply, valid_acct_flags}
use go_lab_tacacs_mcp.Tacacs.Args.{read_arg_lens, read_args}
use go_lab_tacacs_mcp.Tacacs.Constants.{max_body_bytes}
use go_lab_tacacs_mcp.Tacacs.Cursor.{
  bytes, check_body_cap, done, printable_ascii, require_printable, u16len, u8,
}
use go_lab_tacacs_mcp.Tacacs.Header.{Header, known_type, minor, next_seq, validate}
use go_lab_tacacs_mcp.Tacacs.Sequence.{
  admit, check_request, expect_reply, negotiated, new_sequence, new_single_connect, next_reply,
  on_client_first, on_server_first,
}
use go_lab_tacacs_mcp.Tacacs.Version.{classify_acct_minor}

abbrev lab_identity : Identity
lab_identity = record { client_id = text "lab"; transport = tls; peer = []; revision = 1 }

-- The first packet of an accounting session, and a START record without arguments.
abbrev acct_header : Header
acct_header = record {
  version = 0xc0;
  typ = 3;
  seq_no = 1;
  flags = 4;
  session_id = 5;
  body_length = 9;
}

abbrev acct_start : Bytes
acct_start = 2 ∷ 6 ∷ 1 ∷ 1 ∷ 1 ∷ 0 ∷ 0 ∷ 0 ∷ 0 ∷ []

abbrev acct_answer : Outgoing
acct_answer = record {
  hdr = record { version = 0xc0; typ = 3; seq_no = 2; flags = 0; session_id = 5; body_length = 5 };
  body = 0 ∷ 0 ∷ 0 ∷ 0 ∷ 1 ∷ [];
  terminal = true;
}

answered :
    (dispatch stub lab_identity 1 tt (new_sequence 5 3) acct_header acct_start).2 ≡ ok acct_answer
unfolding dispatch new_sequence check_request admit expect_reply next_reply next_seq route validate
    dispatch_acct classify_acct_minor minor decode_acct_request u8 read_arg_lens bytes read_args
    done require_printable printable_ascii valid_acct_flags stub encode_acct encode_acct_reply
    u16len check_body_cap
answered = refl

abbrev acct_turns : List Turn
acct_turns =
    reads acct_header acct_start
    ∷ opens true
    ∷ runs true 5
    ∷ reads acct_header acct_start
    ∷ opens true
    ∷ []

dispatch-IsReply_example :
    (acct_header.seq_no % 2 ≡ 1)
    × (acct_answer.hdr ≡ record {
      version = acct_header.version;
      typ = acct_header.typ;
      seq_no = acct_header.seq_no + 1;
      flags = 0;
      session_id = acct_header.session_id;
      body_length = length acct_answer.body;
    })
    × (length acct_answer.body ≤ max_body_bytes)
    × IsReply acct_header.typ acct_answer.body
dispatch-IsReply_example =
    dispatch-IsReply stub lab_identity 1 tt (new_sequence 5 3) acct_header acct_start acct_answer
      answered

connection_bounds_example :
    let c = take_turns stub (new_conn lab_identity 1 0 true tt) acct_turns in
    (length c.sessions ≤ 1024) × (c.sc.agreed ≡ false → c.next_ref ≤ 1)
connection_bounds_example = connection_bounds stub lab_identity 1 0 true tt acct_turns

-- A connection whose first session agreed on single-connect and is over.
abbrev agreed_conn : Conn (Unit {0})
unfolding new_conn
agreed_conn = record (new_conn (record lab_identity { transport = legacy }) 1 0 true tt) {
  sc = (on_server_first (on_client_first new_single_connect 4) 4).0;
  next_ref = 1;
  first = false;
}

-- Its second session has a packet whose body cannot be read, and the packet of another session is
-- admitted.
abbrev busy_conn : Conn (Unit {0})
unfolding agreed_conn new_session
busy_conn = record agreed_conn {
  sessions =
      record (new_session 1 6 3) {
        inbox = (record acct_header { session_id = 6; body_length = 0 }, []) ∷ [];
      }
      ∷ [];
  next_ref = 2;
  admitted = some (record acct_header { session_id = 7 }, acct_start);
}

late_drains : (take_turn stub busy_conn (runs true 6)).drain ≡ true
unfolding take_turn busy_conn agreed_conn map_decode_err find_session run_session session_round
    dispatch_in dispatch new_sequence check_request admit expect_reply next_reply next_seq route
    validate dispatch_acct classify_acct_minor minor decode_acct_request u8 put_session drop_session
    end_aaa reply_error known_type write_error negotiate_flags write delete_session stub
    on_server_first on_client_first
late_drains = refl

-- The connection then, and the session that is opened while it drains.
abbrev late_conn : Conn (Unit {0})
unfolding busy_conn
late_conn = record busy_conn { sessions = []; drain = true }

opens_late :
    ((take_turn stub late_conn (opens true)).next_ref ≡ 3)
    × (length (take_turn stub late_conn (opens true)).sessions ≡ 1)
unfolding take_turn late_conn busy_conn agreed_conn open_admitted open_valid negotiated
    on_server_first on_client_first open_session offer_packet new_session end_round put_session
opens_late = (refl, refl)

drain_settles_example : Drains late_conn (take_turns stub late_conn (opens true ∷ acct_turns))
unfolding late_conn
drain_settles_example = drain_settles stub late_conn (opens true ∷ acct_turns) refl
