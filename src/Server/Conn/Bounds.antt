-- ===== src/Server/Conn/Bounds.antt =====
-- How many sessions a connection holds, under any interleaving of its reader and its sessions.
use go_lab_tacacs_mcp.Common.{
  Bool, Bool-cases, List, Option, Option-cases, [], arith, false, if◌then◌else◌, inl, inr, length,
  none, not, some, sym, true, ℕ, ◌+◌, ◌<◌, ◌==◌, ◌∙◌, ◌∷◌, ◌≡◌, ◌≤◌, ◌⊎◌,
}
use go_lab_tacacs_mcp.Common.Bytes.{Bytes}
use go_lab_tacacs_mcp.Server.Conn.{
  Conn, Session, Turn, end_round, exits, find_ref, find_session, handle_packet, handle_read_error,
  handle_valid, is_some, new_conn, new_session, offer_packet, open_admitted, open_session,
  open_valid, opens, put_session, read_fails, read_failure, read_packet, reads, runs, take_turn,
  take_turns,
}
use go_lab_tacacs_mcp.Server.Conn.Keeps.{
  Keeps, Keeps-refl, drained_error-Keeps, existing-Keeps, exit-Keeps, failure-Keeps,
  length-put_session, process_first-Keeps, reply_error-Keeps, run-Keeps, unknown-Keeps,
}
use go_lab_tacacs_mcp.Server.Dispatch.{Handler, Identity, ServeError}
use go_lab_tacacs_mcp.Tacacs.Header.{Header}
use go_lab_tacacs_mcp.Tacacs.Sequence.{negotiated, on_client_first}

-- The limits of a connection between two turns.
record IsBounded {S : Type 0} (limit : ℕ) (c : Conn S) : Type 0 where
  capped : c.max_sessions ≡ limit
  within : length c.sessions ≤ limit
  counted : length c.sessions ≤ c.next_ref
  alone : c.sc.agreed ≡ false → c.next_ref ≤ 1
  sane : c.sc.agreed ≡ true → c.sc.complete ≡ true

abbrev IsFresh : {S : Type 0} → Conn S → Type 0
IsFresh c = c.first ≡ true → c.next_ref ≡ 0

module _ {S : Type 0} where
  Keeps-IsBounded :
      {limit : ℕ} {c c' : Conn S} → Keeps c c' → IsBounded limit c → IsBounded limit c'
  Keeps-IsBounded {c = c} {c' = c'} k b = record {
    capped = k.cap ∙ b.capped;
    within = omega (arith, k.fewer, b.within);
    counted = omega (arith, k.fewer, k.opened, b.counted);
    alone = λ e. elim (Bool-cases c.sc.agreed) [
      | inl t ↦ let (_, same) = k.settled (b.sane t) in absurd (cc same)
      | inr f ↦ rw k.opened (b.alone f)
    ];
    sane = k.sane b.sane;
  }

module _ {S : Type 0} (h : Handler S) where
  opened-IsBounded :
      {limit : ℕ} (c : Conn S) (s : Session)
      → IsBounded limit c
      → length c.sessions < c.max_sessions
      → (c.next_ref ≡ 0) ⊎ (c.sc.agreed ≡ true)
      → IsBounded limit (record c { sessions = s ∷ c.sessions; next_ref = c.next_ref + 1 })
  opened-IsBounded c s b room may = ground (arith, b, room, may)

  offered-Keeps :
      (c : Conn S) (s : Session) → Keeps c (record c { sessions = put_session s c.sessions })
  offered-Keeps c s = ground (arith, length-put_session s c.sessions)

  open-IsBounded :
      {limit : ℕ} (took : Bool) (c : Conn S) (hdr : Header) (body : Bytes) (first : Bool)
      → IsBounded limit c
      → length c.sessions < c.max_sessions
      → (c.next_ref ≡ 0) ⊎ (c.sc.agreed ≡ true)
      → IsBounded limit (open_session h took c hdr body first).0
  unfolding open_session offer_packet new_session
  open-IsBounded took c hdr body first b room may =
      let s = new_session c.next_ref hdr.session_id hdr.typ in
      let opened : Conn S = record c { sessions = s ∷ c.sessions; next_ref = c.next_ref + 1 } in
      let v = opened-IsBounded c s b room may in
      elim (Bool-cases first) [
        | inl t ↦
            rw (t, open_session) (Keeps-IsBounded (process_first-Keeps h took opened s hdr body) v)
        | inr t ↦
            rw (t, open_session)
              (Keeps-IsBounded (offered-Keeps opened (record s { inbox = (hdr, body) ∷ [] })) v)
      ]

  open_valid-IsBounded :
      {limit : ℕ} (took : Bool) (c : Conn S) (hdr : Header) (body : Bytes)
      → IsBounded limit c
      → IsFresh c
      → IsBounded limit (open_valid h took c hdr body c.first).0
  unfolding open_valid negotiated
  open_valid-IsBounded took c hdr body b f =
      let r = Keeps-IsBounded (reply_error-Keeps c hdr) b in
      let o = open-IsBounded took c hdr body c.first b in ground (arith, r, o)

  pub asked-Keeps :
      (c : Conn S) (flags : ℕ) → Keeps c (record c { sc = on_client_first c.sc flags })
  unfolding on_client_first
  asked-Keeps c flags = ground arith

  -- The reader's first look at the flags.
  pub looked-Keeps :
      (c : Conn S) (flags : ℕ)
      → Keeps c (if c.first then record c { sc = on_client_first c.sc flags } else c)
  looked-Keeps c flags = ground (arith, asked-Keeps c flags, Keeps-refl c)

  -- The limits, and where the reader has not read yet, that nothing was opened.
  abbrev Holds : ℕ → Conn S → Type 0
  Holds limit c = IsBounded limit c × IsFresh c

  Keeps-Holds : {limit : ℕ} {c c' : Conn S} → Keeps c c' → Holds limit c → Holds limit c'
  Keeps-Holds k (b, f) = (Keeps-IsBounded k b, λ t. k.opened ∙ f (sym k.turn ∙ t))

  admitted-Holds :
      {limit : ℕ} (c : Conn S) (a : Option (Header × Bytes))
      → Holds limit c
      → Holds limit (record c { admitted = a })
  admitted-Holds c a (b, f) = ground (arith, b, f)

  valid-Holds :
      {limit : ℕ} (c : Conn S) (hdr : Header) (body : Bytes)
      → Holds limit c
      → Holds limit (handle_valid h c hdr body)
  unfolding handle_valid
  valid-Holds c hdr body v = elim (Option-cases (find_session hdr.session_id c.sessions)) [
    | inr (s, e) ↦ rw (e, handle_valid) (Keeps-Holds (existing-Keeps h c s hdr body) v)
    | inl e ↦
        let r = Keeps-Holds (reply_error-Keeps c hdr) v in
        let a = admitted-Holds c (some (hdr, body)) v in rw (e, handle_valid) (ground (arith, r, a))
  ]

  packet-Holds :
      {limit : ℕ} (c : Conn S) (hdr : Header) (body : Bytes)
      → Holds limit c
      → Holds limit (handle_packet h c hdr body c.first).0
  unfolding handle_packet
  packet-Holds c₀ hdr body v₀ =
      let c = if c₀.first then record c₀ { sc = on_client_first c₀.sc hdr.flags } else c₀ in
      let v : Holds _ c = Keeps-Holds (looked-Keeps c₀ hdr.flags) v₀ in
      ground (
        arith,
        Keeps-Holds (unknown-Keeps h c hdr c₀.first) v,
        Keeps-Holds (drained_error-Keeps c hdr) v,
        valid-Holds c hdr body v,
      )

  end-Holds :
      {limit : ℕ} (c : Conn S) (stops : Bool) → IsBounded limit c → Holds limit (end_round c stops)
  unfolding end_round
  end-Holds c stops b = ground (arith, b)

  read-Holds :
      {limit : ℕ} (c : Conn S) (hdr : Header) (body : Bytes)
      → Holds limit c
      → Holds limit (read_packet h c hdr body)
  unfolding read_packet
  read-Holds c hdr body v =
      let (c', failed) = handle_packet h c hdr body c.first in
      let k = packet-Holds c hdr body v in ground (arith, v, k, end-Holds c' (is_some failed) k.0)

  failure-Holds :
      {limit : ℕ} (c : Conn S) (hdr : Header) (e : ServeError)
      → Holds limit c
      → Holds limit (read_failure h c hdr e)
  unfolding read_failure
  failure-Holds c hdr e v =
      let (c', cont) = handle_read_error h c hdr e in
      let k = Keeps-IsBounded (failure-Keeps h c hdr e) v.0 in
      ground (arith, v, end-Holds c' (not cont) k)

  open_admitted-Holds :
      {limit : ℕ} (took : Bool) (c : Conn S) → Holds limit c → Holds limit (open_admitted h took c)
  unfolding open_admitted
  open_admitted-Holds took c v = elim (Option-cases c.admitted) [
    | inl e ↦ rw (e, open_admitted) v
    | inr ((hdr, body), e) ↦
        let (b, f) = admitted-Holds c none v in
        let k = open_valid-IsBounded took (record c { admitted = none }) hdr body b f in
        rw (e, open_admitted) (end-Holds _ _ k)
  ]

  -- A goroutine's turn opens no session.
  pub runs-Keeps : (c : Conn S) (took : Bool) (id : ℕ) → Keeps c (take_turn h c (runs took id))
  unfolding take_turn
  runs-Keeps c took id = elim (Option-cases (find_session id c.sessions)) [
    | inl e ↦ rw (e, take_turn) (Keeps-refl c)
    | inr (s, e) ↦ rw (e, take_turn) (ground (arith, Keeps-refl c, run-Keeps h took c s))
  ]

  pub exits-Keeps : (c : Conn S) (ref : ℕ) → Keeps c (take_turn h c (exits ref))
  unfolding take_turn
  exits-Keeps c ref = elim (Option-cases (find_ref ref c.exiting)) [
    | inl e ↦ rw (e, take_turn) (Keeps-refl c)
    | inr (s, e) ↦ rw (e, take_turn) (exit-Keeps h c s)
  ]

  turn-Holds : {limit : ℕ} (c : Conn S) (t : Turn) → Holds limit c → Holds limit (take_turn h c t)
  unfolding take_turn
  turn-Holds c (reads hdr body) v = ground (arith, v, read-Holds c hdr body v)
  turn-Holds c (opens took) v = open_admitted-Holds took c v
  turn-Holds c (read_fails hdr e) v = ground (arith, v, failure-Holds c hdr e v)
  turn-Holds c (runs took id) v = Keeps-Holds (runs-Keeps c took id) v
  turn-Holds c (exits ref) v = Keeps-Holds (exits-Keeps c ref) v

  turns-Holds :
      {limit : ℕ} (c : Conn S) (ts : List Turn) → Holds limit c → Holds limit (take_turns h c ts)
  unfolding take_turns
  turns-Holds c [] v = v
  turns-Holds c (t ∷ ts) v = turns-Holds (take_turn h c t) ts (turn-Holds c t v)

  new-Holds :
      (id : Identity) (conn_key max_sessions : ℕ) (enabled : Bool) (aaa : S)
      → Holds
          (if max_sessions == 0 then 1024 else max_sessions)
          (new_conn id conn_key max_sessions enabled aaa)
  unfolding new_conn
  new-Holds id conn_key max_sessions enabled aaa = ground arith

  -- Under any interleaving of its reader, its sessions and the ends of dropped sessions, a connection
  -- never holds more sessions than the configured cap (1024 where that is 0), and as long as single-connect is not agreed on it has
  -- opened at most one session since it began.
  pub connection_bounds :
      (id : Identity) (conn_key max_sessions : ℕ) (enabled : Bool) (aaa : S) (ts : List Turn)
      → let c = take_turns h (new_conn id conn_key max_sessions enabled aaa) ts in
        (length c.sessions ≤ (if max_sessions == 0 then 1024 else max_sessions))
        × (c.sc.agreed ≡ false → c.next_ref ≤ 1)
  connection_bounds id conn_key max_sessions enabled aaa ts =
      let v =
        (turns-Holds (new_conn id conn_key max_sessions enabled aaa) ts
          (new-Holds id conn_key max_sessions enabled aaa)).0 in
      (v.within, v.alone)
