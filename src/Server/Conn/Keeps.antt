-- ===== src/Server/Conn/Keeps.antt =====
-- What every part of a connection's turn but the opening of a session keeps.
use go_lab_tacacs_mcp.Common.{
  Bool, Bool-cases, List, Option-cases, Result-cases, [], arith, inl, inr, length, refl, true, ℕ,
  ◌∙◌, ◌∷◌, ◌≡◌, ◌≤◌,
}
use go_lab_tacacs_mcp.Common.Bytes.{Bytes}
use go_lab_tacacs_mcp.Server.Conn.{
  Conn, Session, delete_ref, delete_session, dispatch_in, draining, drop_session, end_aaa,
  error_seq, exit_session, handle_existing, handle_read_error, handle_unknown, negotiate_flags,
  offer_packet, process_first, put_session, receive, reply_error, run_session, session_round, write,
  write_error,
}
use go_lab_tacacs_mcp.Server.Dispatch.{Handler, ServeError, dispatch}
use go_lab_tacacs_mcp.Tacacs.Header.{Header, known_type}
use go_lab_tacacs_mcp.Tacacs.Sequence.{on_server_first}

-- What every part of a step but the opening of a session does: no session more or opened, the cap as it was,
-- the same reader's turn and admitted packet, no way back from draining or from a completed negotiation.
pub record Keeps {S : Type 0} (c c' : Conn S) : Type 0 where
  pub fewer : length c'.sessions ≤ length c.sessions
  pub cap : c'.max_sessions ≡ c.max_sessions
  pub opened : c'.next_ref ≡ c.next_ref
  pub turn : c'.first ≡ c.first
  pub busy : c'.admitted ≡ c.admitted
  pub drained : c.drain ≡ true → c'.drain ≡ true
  pub settled : c.sc.complete ≡ true → (c'.sc.complete ≡ true) × (c'.sc.agreed ≡ c.sc.agreed)
  pub sane :
      (c.sc.agreed ≡ true → c.sc.complete ≡ true) → c'.sc.agreed ≡ true → c'.sc.complete ≡ true

pub length-delete_session : (id : ℕ) (ss : List Session) → length (delete_session id ss) ≤ length ss
unfolding delete_session
length-delete_session id [] = omega arith
length-delete_session id (s ∷ ss) = ground (arith, length-delete_session id ss)

pub length-put_session : (s : Session) (ss : List Session) → length (put_session s ss) ≡ length ss
unfolding put_session
length-put_session s [] = refl
length-put_session s (t ∷ ss) = ground (arith, length-put_session s ss)

module _ {S : Type 0} where
  pub Keeps-refl : (c : Conn S) → Keeps c c
  Keeps-refl c = ground arith

  pub Keeps-trans : {c d e : Conn S} → Keeps c d → Keeps d e → Keeps c e
  Keeps-trans u v = record {
    fewer = omega (arith, u.fewer, v.fewer);
    cap = v.cap ∙ u.cap;
    opened = v.opened ∙ u.opened;
    turn = v.turn ∙ u.turn;
    busy = v.busy ∙ u.busy;
    drained = λ h. v.drained (u.drained h);
    settled = λ h. let (k, a) = u.settled h in let (l, b) = v.settled k in (l, b ∙ a);
    sane = λ h. v.sane (u.sane h);
  }

  pub negotiate-Keeps : (c : Conn S) → Keeps c (negotiate_flags c).0
  unfolding negotiate_flags on_server_first
  negotiate-Keeps c = ground arith

  pub write_error-Keeps : (c : Conn S) (req : Header) (seq : ℕ) → Keeps c (write_error c req seq)
  unfolding write_error write
  write_error-Keeps c req seq = ground (arith, negotiate-Keeps c)

  pub reply_error-Keeps : (c : Conn S) (req : Header) → Keeps c (reply_error c req)
  unfolding reply_error
  reply_error-Keeps c req = elim (Bool-cases (known_type req)) [
    | inr t ↦ rw (t, reply_error) (Keeps-refl c)
    | inl t ↦ elim (Option-cases (error_seq req.seq_no)) [
      | inl e ↦ rw (t, e, reply_error) (Keeps-refl c)
      | inr (seq, e) ↦ rw (t, e, reply_error) (write_error-Keeps c req seq)
    ]
  ]

  pub drained_error-Keeps : (c : Conn S) (req : Header) → Keeps c (draining (reply_error c req))
  drained_error-Keeps c req = ground (arith, reply_error-Keeps c req)

module _ {S : Type 0} (h : Handler S) where
  pub drop-Keeps : (c : Conn S) (s : Session) → Keeps c (drop_session h c s)
  unfolding drop_session end_aaa
  drop-Keeps c s = ground (arith, length-delete_session s.id c.sessions)

  pub dropped-Keeps : {c c' : Conn S} (s : Session) → Keeps c c' → Keeps c (drop_session h c' s)
  dropped-Keeps {c' = c'} s k = Keeps-trans k (drop-Keeps c' s)

  pub dispatch_in-Keeps :
      (c : Conn S) (s : Session) (hdr : Header) (body : Bytes)
      → Keeps c (dispatch_in h c s hdr body).0
  unfolding dispatch_in
  dispatch_in-Keeps c s hdr body =
      let seq = (dispatch h c.identity c.conn_key c.aaa s.seq hdr body).1 in
      ground (arith, length-put_session (record s { seq = seq }) c.sessions)

  pub existing-Keeps :
      (c : Conn S) (s : Session) (hdr : Header) (body : Bytes)
      → Keeps c (handle_existing h c s hdr body)
  unfolding handle_existing offer_packet
  existing-Keeps c s hdr body = ground (
    arith,
    dropped-Keeps s (reply_error-Keeps c hdr),
    reply_error-Keeps c hdr,
    length-put_session (record s { inbox = (hdr, body) ∷ [] }) c.sessions,
  )

  pub written-Keeps :
      {c c' : Conn S} (hdr : Header) (body : Bytes) → Keeps c c' → Keeps c (write c' hdr body)
  unfolding write
  written-Keeps {c' = c'} hdr body k = record {
    fewer = k.fewer;
    cap = k.cap;
    opened = k.opened;
    turn = k.turn;
    busy = k.busy;
    drained = k.drained;
    settled = k.settled;
    sane = k.sane;
  }

  -- The branch on an error of a dispatch.
  pub failed-Keeps :
      {c d : Conn S} (s : Session) (req : Header)
      → Keeps c d
      → Keeps c (drop_session h (draining (reply_error d req)) s)
        × Keeps c (drop_session h (reply_error d req) s)
  failed-Keeps {d = d} s req k = (
    Keeps-trans k (dropped-Keeps s (drained_error-Keeps d req)),
    Keeps-trans k (dropped-Keeps s (reply_error-Keeps d req)),
  )

  pub process_first-Keeps :
      (took : Bool) (c : Conn S) (s : Session) (hdr : Header) (body : Bytes)
      → Keeps c (process_first h took c s hdr body).0
  unfolding process_first
  process_first-Keeps took c s hdr body =
      let d = dispatch_in h c s hdr body in
      let k = dispatch_in-Keeps c s hdr body in
      elim (Result-cases d.2) [
        | inr (x, e) ↦
            let (v, w) = failed-Keeps d.1 hdr k in rw (e, process_first) (ground (arith, v, w))
        | inl (out, e) ↦
            let n = negotiate_flags d.0 in
            let w =
              written-Keeps (record (out.hdr) { flags = n.1 }) out.body
                (Keeps-trans k (negotiate-Keeps d.0)) in
            rw (e, process_first) (ground (arith, w, dropped-Keeps d.1 w))
      ]

  pub round-Keeps :
      (took : Bool) (c : Conn S) (s : Session) (hdr : Header) (body : Bytes)
      → Keeps c (session_round h took c s hdr body)
  unfolding session_round
  round-Keeps took c s hdr body =
      let d = dispatch_in h c s hdr body in
      let k = dispatch_in-Keeps c s hdr body in
      elim (Result-cases d.2) [
        | inr (x, e) ↦
            let (v, w) = failed-Keeps d.1 hdr k in rw (e, session_round) (ground (arith, v, w))
        | inl (out, e) ↦
            let w = written-Keeps out.hdr out.body k in
            rw (e, session_round) (ground (arith, w, dropped-Keeps d.1 w))
      ]

  pub receive-Keeps :
      (took : Bool) (c : Conn S) (s : Session) (inbox : List (Header × Bytes))
      → Keeps c (receive h took c s inbox)
  receive-Keeps took c s [] = Keeps-refl c
  receive-Keeps took c s ((hdr, body) ∷ ps) = round-Keeps took c (record s { inbox = ps }) hdr body

  pub run-Keeps : (took : Bool) (c : Conn S) (s : Session) → Keeps c (run_session h took c s)
  unfolding run_session
  run-Keeps took c s = receive-Keeps took c s s.inbox

  pub exit-Keeps : (c : Conn S) (s : Session) → Keeps c (exit_session h c s)
  unfolding exit_session
  exit-Keeps c s =
      Keeps-trans (ground arith) (drop-Keeps (record c { exiting = delete_ref s.ref c.exiting }) s)

  pub unknown-Keeps :
      (c : Conn S) (hdr : Header) (first : Bool) → Keeps c (handle_unknown h c hdr first).0
  unfolding handle_unknown write on_server_first
  unknown-Keeps c hdr first = ground arith

  pub failure-Keeps :
      (c : Conn S) (hdr : Header) (e : ServeError) → Keeps c (handle_read_error h c hdr e).0
  unfolding handle_read_error
  failure-Keeps c hdr e = ground (arith, drained_error-Keeps c hdr, Keeps-refl c)
