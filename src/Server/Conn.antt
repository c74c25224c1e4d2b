-- ===== src/Server/Conn.antt =====
-- One connection: conn.go. `handlePacket` is two steps, up to its test of `drain` and from there on:
-- it holds no lock, and a session may set `drain` in between. One round of a session's goroutine and
-- the end of a goroutine whose session was dropped are each one step; what is written is a log, the last
-- packet first, and whether `PacketIO` took a packet is an argument. Deadlines, cancellation and
-- metrics are left out. A session's `ref` stands for its pointer.
pub mod Keeps
pub mod Bounds
pub mod Drain
use go_lab_tacacs_mcp.Common.{
  Bool, List, Option, Result, [], err, false, if◌then◌else◌, leb, length, none, not, ok, some, true,
  ℕ, ◌%◌, ◌&&◌, ◌+◌, ◌==◌, ◌^◌, ◌||◌, ◌∷◌,
}
use go_lab_tacacs_mcp.Common.Bytes.{Bytes}
use go_lab_tacacs_mcp.Server.Dispatch.{
  Handler, Identity, Outgoing, ServeError, acct_with, authen_with, author_with, dispatch, io_failed,
  missing_unencrypted, of_codec, secret_mismatch, unencrypted,
}
use go_lab_tacacs_mcp.Tacacs.Acct.{encode_acct_reply}
use go_lab_tacacs_mcp.Tacacs.Authen.{encode_authen_reply}
use go_lab_tacacs_mcp.Tacacs.Author.{encode_author_response}
use go_lab_tacacs_mcp.Tacacs.Constants.{
  acct_status_error, authen_status_error, author_status_error, flag_single_connect, type_authen,
  type_author,
}
use go_lab_tacacs_mcp.Tacacs.Errors.{Error, body_too_large}
use go_lab_tacacs_mcp.Tacacs.Header.{Header, known_type, next_seq, unknown_type_reply, validate}
use go_lab_tacacs_mcp.Tacacs.Sequence.{
  Sequence, SingleConnect, negotiated, new_sequence, new_single_connect, on_client_first,
  on_server_first, pending,
}

pub record Session : Type 0 where
  pub ref : ℕ
  pub id : ℕ
  pub typ : ℕ
  pub seq : Sequence
  pub inbox : List (Header × Bytes)

-- Go's `connState`, with the reader's `first`. `exiting` holds the sessions that were dropped while
-- their goroutine runs, until its deferred `dropSession`. `ended` is set when the reader returns.
-- `admitted` is the packet of a new session whose reader has read `drain` as false and is to go on.
pub record Conn (S : Type 0) : Type 0 where
  pub identity : Identity
  pub conn_key : ℕ
  pub max_sessions : ℕ
  pub single_connect_enabled : Bool
  pub aaa : S
  pub sc : SingleConnect
  pub sessions : List Session
  pub exiting : List Session
  pub next_ref : ℕ
  pub drain : Bool
  pub first : Bool
  pub admitted : Option (Header × Bytes)
  pub ended : Bool
  pub written : List (Header × Bytes)

-- `cs.sessions[id]`
unfoldable pub find_session : ℕ → List Session → Option Session
find_session id [] = none
find_session id (s ∷ ss) = let rest = find_session id ss in if s.id == id then some s else rest

unfoldable pub delete_session : ℕ → List Session → List Session
delete_session id [] = []
delete_session id (s ∷ ss) =
    let rest = delete_session id ss in if s.id == id then rest else s ∷ rest

unfoldable pub delete_ref : ℕ → List Session → List Session
delete_ref ref [] = []
delete_ref ref (s ∷ ss) = let rest = delete_ref ref ss in if s.ref == ref then rest else s ∷ rest

unfoldable pub find_ref : ℕ → List Session → Option Session
find_ref ref [] = none
find_ref ref (s ∷ ss) = let rest = find_ref ref ss in if s.ref == ref then some s else rest

-- The session behind a pointer, with its fields changed.
unfoldable pub put_session : Session → List Session → List Session
put_session s [] = []
put_session s (t ∷ ss) = if t.ref == s.ref then s ∷ ss else t ∷ put_session s ss

-- The channel holds one packet; `none` is a full channel.
unfoldable pub offer_packet : Session → Header × Bytes → Option Session
offer_packet s p = elim s.inbox [ [] ↦ some (record s { inbox = p ∷ [] }) | q ∷ qs ↦ none ]

unfoldable pub new_session : ℕ → ℕ → ℕ → Session
new_session ref id typ = record {
  ref = ref;
  id = id;
  typ = typ;
  seq = new_sequence id typ;
  inbox = [];
}

-- `body, _ = r.Encode()`
abbrev pub body_of : Result Error Bytes → Bytes
body_of (ok b) = b
body_of (err e) = []

abbrev pub error_body : ℕ → Bytes
error_body typ =
    if typ == type_authen
    then body_of (encode_authen_reply (authen_with authen_status_error))
    else if typ == type_author
    then body_of (encode_author_response (author_with author_status_error))
    else body_of (encode_acct_reply (acct_with acct_status_error))

-- The sequence number of an error; `none` is the early return.
abbrev pub error_seq : ℕ → Option ℕ
error_seq seq = elim (next_seq seq) [
  | ok n ↦ some n
  | err e ↦ if not (seq == 0) then none else some 1
]

abbrev pub is_some {ℓ} : {A : Type ℓ} → Option A → Bool
is_some none = false
is_some (some a) = true

abbrev pub is_mismatch : ServeError → Bool
is_mismatch secret_mismatch = true
is_mismatch _ = false

-- One turn: of the reader, with what `Read` gave, or with the packet it has admitted; of the goroutine of the session with an id; and of
-- one that was dropped, by its pointer.
pub data Turn : Type 0 where
  reads : Header → Bytes → Turn
  opens : Bool → Turn
  read_fails : Header → ServeError → Turn
  runs : Bool → ℕ → Turn
  exits : ℕ → Turn

module _ {S : Type 0} where
  -- `MaxSessionsPerConnection` is a number, so the negative one that `normalized` treats like 0 is
  -- not written.
  unfoldable pub new_conn : Identity → ℕ → ℕ → Bool → S → Conn S
  new_conn id conn_key max_sessions enabled aaa = record {
    identity = id;
    conn_key = conn_key;
    max_sessions = if max_sessions == 0 then 1024 else max_sessions;
    single_connect_enabled = enabled;
    aaa = aaa;
    sc = new_single_connect;
    sessions = [];
    exiting = [];
    next_ref = 0;
    drain = false;
    first = true;
    admitted = none;
    ended = false;
    written = [];
  }

  unfoldable pub negotiate_flags : Conn S → Conn S × ℕ
  negotiate_flags c =
      let flags = if c.single_connect_enabled then flag_single_connect else 0 in
      let (sc, agreed) = on_server_first c.sc flags in
      (record c { sc = sc }, if negotiated sc then flag_single_connect else 0)

  unfoldable pub write : Conn S → Header → Bytes → Conn S
  write c h body = record c { written = (h, body) ∷ c.written }

  -- `replyError` once the sequence number is known.
  unfoldable pub write_error : Conn S → Header → ℕ → Conn S
  write_error c req seq =
      let (c', flags) = if c.sc.complete then (c, 0) else negotiate_flags c in
      let body = error_body req.typ in
      write c'
        (record {
          version = req.version;
          typ = req.typ;
          seq_no = seq;
          flags = flags;
          session_id = req.session_id;
          body_length = length body % 2 ^ 32;
        })
        body

  unfoldable pub reply_error : Conn S → Header → Conn S
  reply_error c req =
      if not (known_type req)
      then c
      else elim (error_seq req.seq_no) [ none ↦ c | some seq ↦ write_error c req seq ]

  abbrev pub draining : Conn S → Conn S
  draining c = record c { drain = true }

  -- The goroutine of a session that the reader dropped.
  abbrev pub leave : Conn S → Session → Conn S
  leave c s = record c { exiting = s ∷ c.exiting }

  unfoldable pub should_close : Conn S → Bool
  should_close c =
      if pending c.sc
      then false
      else if not (negotiated c.sc) && length c.sessions == 0
      then true
      else c.drain && length c.sessions == 0

  -- The end of a round of `readLoop`, and the test of `drain` before the next `Read`, which blocks
  -- while sessions run.
  unfoldable pub end_round : Conn S → Bool → Conn S
  end_round c stops = record c {
    first = false;
    ended = stops || (should_close c || (c.drain && length c.sessions == 0));
  }

  -- The reader is in `handlePacket`.
  abbrev pub is_busy : Conn S → Bool
  is_busy c = is_some c.admitted

module _ {S : Type 0} (h : Handler S) where
  unfoldable pub end_aaa : Conn S → ℕ → Conn S
  end_aaa c session_id = record c {
    aaa =
        h.end_session c.aaa
          (record { identity = c.identity; session_id = session_id; conn_key = c.conn_key });
  }

  -- The map entry goes only if it is this session.
  unfoldable pub drop_session : Conn S → Session → Conn S
  drop_session c s = elim (find_session s.id c.sessions) [
    | none ↦ end_aaa c s.id
    | some cur ↦
        if cur.ref == s.ref
        then end_aaa (record c { sessions = delete_session s.id c.sessions }) s.id
        else end_aaa c s.id
  ]

  -- `dispatch`, with the changes to the session in the map.
  unfoldable pub dispatch_in :
      Conn S → Session → Header → Bytes → Conn S × Session × Result ServeError Outgoing
  dispatch_in c s hdr body =
      let (aaa, seq, out) = dispatch h c.identity c.conn_key c.aaa s.seq hdr body in
      let s' : Session = record s { seq = seq } in
      (record c { aaa = aaa; sessions = put_session s' c.sessions }, s', out)

  unfoldable pub process_first :
      Bool → Conn S → Session → Header → Bytes → Conn S × Option ServeError
  process_first took c₀ s₀ hdr body =
      let (c, s, made) = dispatch_in c₀ s₀ hdr body in
      elim made [
        | err e ↦
            if is_mismatch e
            then (drop_session (draining (reply_error c hdr)) s, some secret_mismatch)
            else (drop_session (reply_error c hdr) s, none)
        | ok out ↦
            let (c', flags) = negotiate_flags c in
            let c'' = write c' (record (out.hdr) { flags = flags }) out.body in
            if not took
            then (drop_session c'' s, some io_failed)
            else if out.terminal || s.seq.closed
            then (drop_session c'' s, none)
            else (c'', none)
      ]

  -- `handlePacket` for a session that is in the map.
  unfoldable pub handle_existing : Conn S → Session → Header → Bytes → Conn S
  handle_existing c s hdr body =
      if not (s.typ == hdr.typ)
      then leave (drop_session (reply_error c hdr) s) s
      else elim (offer_packet s (hdr, body)) [
        | none ↦ reply_error c hdr
        | some s' ↦ record c { sessions = put_session s' c.sessions }
      ]

  -- `handlePacket` from `newSession` on.
  unfoldable pub open_session : Bool → Conn S → Header → Bytes → Bool → Conn S × Option ServeError
  open_session took c hdr body first =
      let s = new_session c.next_ref hdr.session_id hdr.typ in
      let opened = record c { sessions = s ∷ c.sessions; next_ref = c.next_ref + 1 } in
      if first then process_first took opened s hdr body else elim (offer_packet s (hdr, body)) [
        | none ↦ (drop_session (reply_error opened hdr) s, none)
        | some s' ↦ (record opened { sessions = put_session s' opened.sessions }, none)
      ]

  -- `handlePacket` for a valid header, up to the test of `drain`.
  unfoldable pub handle_valid : Conn S → Header → Bytes → Conn S
  handle_valid c hdr body = elim (find_session hdr.session_id c.sessions) [
    | some s ↦ handle_existing c s hdr body
    | none ↦ if c.drain then reply_error c hdr else record c { admitted = some (hdr, body) }
  ]

  -- `handlePacket` behind the test of `drain`, with `first`.
  unfoldable pub open_valid : Bool → Conn S → Header → Bytes → Bool → Conn S × Option ServeError
  open_valid took c hdr body first =
      if not first && not (negotiated c.sc)
      then (reply_error c hdr, none)
      else if leb c.max_sessions (length c.sessions)
      then (reply_error c hdr, none)
      else open_session took c hdr body first

  -- `handlePacket` for a header of an unknown type.
  unfoldable pub handle_unknown : Conn S → Header → Bool → Conn S × Option ServeError
  handle_unknown c hdr first = elim (unknown_type_reply hdr) [
    | err e ↦ (draining c, some (of_codec e))
    | ok r ↦
        let sc = if not c.sc.complete && first then (on_server_first c.sc r.flags).0 else c.sc in
        (draining (write (record c { sc = sc }) r []), none)
  ]

  -- `handlePacket`, up to the test of `drain`.
  unfoldable pub handle_packet : Conn S → Header → Bytes → Bool → Conn S × Option ServeError
  handle_packet c₀ hdr body first =
      let c = if first then record c₀ { sc = on_client_first c₀.sc hdr.flags } else c₀ in
      if not (known_type hdr) then handle_unknown c hdr first else elim (validate hdr) [
        | err e ↦ (draining (reply_error c hdr), none)
        | ok _ ↦ (handle_valid c hdr body, none)
      ]

  -- The errors of `Read`, in `handleReadError`; with them comes whether the reader goes on.
  unfoldable pub handle_read_error : Conn S → Header → ServeError → Conn S × Bool
  handle_read_error c hdr unencrypted = (draining (reply_error c hdr), true)
  handle_read_error c hdr missing_unencrypted = (draining (reply_error c hdr), true)
  handle_read_error c hdr (of_codec body_too_large) =
      (draining (if known_type hdr then reply_error c hdr else c), false)
  handle_read_error c hdr _ = (c, false)

  -- One round of `readLoop` with what `Read` gave; it ends here where no packet is admitted.
  unfoldable pub read_packet : Conn S → Header → Bytes → Conn S
  read_packet c hdr body =
      if c.ended
      then c
      else let (c', failed) = handle_packet c hdr body c.first in
        if is_busy c' then c' else end_round c' (is_some failed)

  -- The rest of the round for the admitted packet, and whether the write behind it is taken.
  unfoldable pub open_admitted : Bool → Conn S → Conn S
  open_admitted took c = elim c.admitted [
    | none ↦ c
    | some (hdr, body) ↦
        let (c', failed) = open_valid took (record c { admitted = none }) hdr body c.first in
        end_round c' (is_some failed)
  ]

  unfoldable pub read_failure : Conn S → Header → ServeError → Conn S
  read_failure c hdr e =
      if c.ended then c else let (c', cont) = handle_read_error c hdr e in end_round c' (not cont)

  -- A round of `runSession` with a packet; every end of the loop drops the session.
  unfoldable pub session_round : Bool → Conn S → Session → Header → Bytes → Conn S
  session_round took c₀ s₀ hdr body =
      let (c, s, made) = dispatch_in c₀ s₀ hdr body in
      elim made [
        | err e ↦
            if is_mismatch e
            then drop_session (draining (reply_error c hdr)) s
            else drop_session (reply_error c hdr) s
        | ok out ↦
            let c' = write c out.hdr out.body in
            if not took || (out.terminal || s.seq.closed) then drop_session c' s else c'
      ]

  -- The receive of `runSession`.
  abbrev pub receive : Bool → Conn S → Session → List (Header × Bytes) → Conn S
  receive took c s [] = c
  receive took c s ((hdr, body) ∷ ps) = session_round took c (record s { inbox = ps }) hdr body

  unfoldable pub run_session : Bool → Conn S → Session → Conn S
  run_session took c s = receive took c s s.inbox

  -- The deferred `dropSession` of a goroutine whose session the reader dropped.
  unfoldable pub exit_session : Conn S → Session → Conn S
  exit_session c s = drop_session (record c { exiting = delete_ref s.ref c.exiting }) s

  unfoldable pub take_turn : Conn S → Turn → Conn S
  take_turn c (reads hdr body) = if is_busy c then c else read_packet c hdr body
  take_turn c (opens took) = open_admitted took c
  take_turn c (read_fails hdr e) = if is_busy c then c else read_failure c hdr e
  take_turn c (runs took id) = elim (find_session id c.sessions) [
    | none ↦ c
    | some s ↦ if c.ended then c else run_session took c s
  ]
  take_turn c (exits ref) = elim (find_ref ref c.exiting) [ none ↦ c | some s ↦ exit_session c s ]

  unfoldable pub take_turns : Conn S → List Turn → Conn S
  take_turns c [] = c
  take_turns c (t ∷ ts) = take_turns (take_turn c t) ts
