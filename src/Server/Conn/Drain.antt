-- ===== src/Server/Conn/Drain.antt =====
-- A connection that drains.
use go_lab_tacacs_mcp.Common.{
  Bool, Bool-cases, List, Option-cases, [], arith, if◌then◌else◌, inl, inr, length, none, not, refl,
  true, ℕ, ◌+◌, ◌∙◌, ◌∷◌, ◌≡◌, ◌≤◌,
}
use go_lab_tacacs_mcp.Common.Bytes.{Bytes}
use go_lab_tacacs_mcp.Server.Conn.{
  Conn, Turn, end_round, exits, find_session, handle_packet, handle_read_error, handle_valid,
  is_busy, is_some, new_session, offer_packet, open_admitted, open_session, open_valid, opens,
  read_fails, read_failure, read_packet, reads, runs, take_turn, take_turns,
}
use go_lab_tacacs_mcp.Server.Conn.Bounds.{exits-Keeps, looked-Keeps, runs-Keeps}
use go_lab_tacacs_mcp.Server.Conn.Keeps.{
  Keeps, Keeps-trans, drained_error-Keeps, existing-Keeps, failure-Keeps, length-put_session,
  process_first-Keeps, reply_error-Keeps, unknown-Keeps,
}
use go_lab_tacacs_mcp.Server.Dispatch.{Handler, ServeError}
use go_lab_tacacs_mcp.Tacacs.Header.{Header}
use go_lab_tacacs_mcp.Tacacs.Sequence.{on_client_first}

-- The session of a packet that the reader has admitted, which may still be opened.
abbrev pub owed : {S : Type 0} → Conn S → ℕ
owed c = if is_busy c then 1 else 0

-- It still drains, and opened no session and holds no session more but what was owed.
pub record Drains {S : Type 0} (c c' : Conn S) : Type 0 where
  pub still : c'.drain ≡ true
  pub unopened : c'.next_ref + owed c' ≤ c.next_ref + owed c
  pub fewer : length c'.sessions + owed c' ≤ length c.sessions + owed c

module _ {S : Type 0} where
  Drains-refl : (c : Conn S) → c.drain ≡ true → Drains c c
  Drains-refl c d = record { still = d; unopened = omega arith; fewer = omega arith }

  Keeps-Drains : {c c' : Conn S} → c.drain ≡ true → Keeps c c' → Drains c c'
  Keeps-Drains d k = record {
    still = k.drained d;
    unopened = rw (k.busy, k.opened) (omega arith);
    fewer = rw k.busy (omega (arith, k.fewer));
  }

  Drains-trans : {c d e : Conn S} → Drains c d → Drains d e → Drains c e
  Drains-trans u v = record {
    still = v.still;
    unopened = omega (arith, u.unopened, v.unopened);
    fewer = omega (arith, u.fewer, v.fewer);
  }

  end-Drains : (c : Conn S) (stops : Bool) → c.drain ≡ true → Drains c (end_round c stops)
  unfolding end_round
  end-Drains c stops d = record { still = d; unopened = omega arith; fewer = omega arith }

module _ {S : Type 0} (h : Handler S) where
  valid-Keeps :
      (c : Conn S) (hdr : Header) (body : Bytes)
      → c.drain ≡ true
      → Keeps c (handle_valid h c hdr body)
  unfolding handle_valid
  valid-Keeps c hdr body d = elim (Option-cases (find_session hdr.session_id c.sessions)) [
    | inr (s, e) ↦ rw (e, handle_valid) (existing-Keeps h c s hdr body)
    | inl e ↦ rw (e, handle_valid) (ground (arith, d, reply_error-Keeps c hdr))
  ]

  packet-Keeps :
      (c : Conn S) (hdr : Header) (body : Bytes)
      → c.drain ≡ true
      → Keeps c (handle_packet h c hdr body c.first).0
  unfolding handle_packet
  packet-Keeps c₀ hdr body d =
      let c = if c₀.first then record c₀ { sc = on_client_first c₀.sc hdr.flags } else c₀ in
      let k = looked-Keeps h c₀ hdr.flags in
      let u = Keeps-trans k (unknown-Keeps h c hdr c₀.first) in
      let e = Keeps-trans k (drained_error-Keeps c hdr) in
      let v = Keeps-trans k (valid-Keeps c hdr body (k.drained d)) in ground (arith, u, e, v)

  read-Drains :
      (c : Conn S) (hdr : Header) (body : Bytes)
      → c.drain ≡ true
      → Drains c (read_packet h c hdr body)
  unfolding read_packet
  read-Drains c hdr body d =
      let (c', failed) = handle_packet h c hdr body c.first in
      let v = Keeps-Drains d (packet-Keeps c hdr body d) in
      let w = Drains-trans v (end-Drains c' (is_some failed) v.still) in
      ground (arith, Drains-refl c d, v, w)

  failure-Drains :
      (c : Conn S) (hdr : Header) (e : ServeError)
      → c.drain ≡ true
      → Drains c (read_failure h c hdr e)
  unfolding read_failure
  failure-Drains c hdr e d =
      let (c', cont) = handle_read_error h c hdr e in
      let v = Keeps-Drains d (failure-Keeps h c hdr e) in
      let w = Drains-trans v (end-Drains c' (not cont) v.still) in
      ground (arith, Drains-refl c d, w)

  -- At most one session more, and the packet is not admitted any more.
  record Opens (c c' : Conn S) : Type 0 where
    still : c'.drain ≡ true
    idle : c'.admitted ≡ none
    unopened : c'.next_ref ≤ c.next_ref + 1
    fewer : length c'.sessions ≤ length c.sessions + 1

  Keeps-Opens : {c c' : Conn S} → c.drain ≡ true → c.admitted ≡ none → Keeps c c' → Opens c c'
  Keeps-Opens d n k = record {
    still = k.drained d;
    idle = k.busy ∙ n;
    unopened = omega (arith, k.opened);
    fewer = omega (arith, k.fewer);
  }

  open-Opens :
      (took : Bool) (c : Conn S) (hdr : Header) (body : Bytes) (first : Bool)
      → c.drain ≡ true
      → c.admitted ≡ none
      → Opens c (open_session h took c hdr body first).0
  unfolding open_session offer_packet new_session
  open-Opens took c hdr body first d n =
      let s = new_session c.next_ref hdr.session_id hdr.typ in
      let opened : Conn S = record c { sessions = s ∷ c.sessions; next_ref = c.next_ref + 1 } in
      let k = process_first-Keeps h took opened s hdr body in
      let p = length-put_session (record s { inbox = (hdr, body) ∷ [] }) opened.sessions in
      elim (Bool-cases first) [
        | inl t ↦
            rw (t, open_session)
              (record {
                still = k.drained d;
                idle = k.busy ∙ n;
                unopened = omega (arith, k.opened);
                fewer = omega (arith, k.fewer);
              })
        | inr t ↦
            rw (t, open_session)
              (record { still = d; idle = n; unopened = omega arith; fewer = omega (arith, p) })
      ]

  open_valid-Opens :
      (took : Bool) (c : Conn S) (hdr : Header) (body : Bytes) (first : Bool)
      → c.drain ≡ true
      → c.admitted ≡ none
      → Opens c (open_valid h took c hdr body first).0
  unfolding open_valid
  open_valid-Opens took c hdr body first d n =
      let r = Keeps-Opens d n (reply_error-Keeps c hdr) in
      let o = open-Opens took c hdr body first d n in ground (arith, r, o)

  opens-Drains : (took : Bool) (c : Conn S) → c.drain ≡ true → Drains c (open_admitted h took c)
  unfolding open_admitted end_round
  opens-Drains took c d = elim (Option-cases c.admitted) [
    | inl e ↦ ground (arith, e, Drains-refl c d)
    | inr ((hdr, body), e) ↦
        let o = open_valid-Opens took (record c { admitted = none }) hdr body c.first d refl in
        rw (e, open_admitted)
          (record {
            still = o.still;
            unopened = rw o.idle (omega (arith, o.unopened));
            fewer = rw o.idle (omega (arith, o.fewer));
          })
  ]

  turn-Drains : (c : Conn S) (t : Turn) → c.drain ≡ true → Drains c (take_turn h c t)
  unfolding take_turn
  turn-Drains c (reads hdr body) d = ground (arith, Drains-refl c d, read-Drains c hdr body d)
  turn-Drains c (opens took) d = opens-Drains took c d
  turn-Drains c (read_fails hdr e) d = ground (arith, Drains-refl c d, failure-Drains c hdr e d)
  turn-Drains c (runs took id) d = Keeps-Drains d (runs-Keeps h c took id)
  turn-Drains c (exits ref) d = Keeps-Drains d (exits-Keeps h c ref)

  -- From the moment a connection drains it drains for good, opens no session and holds no session
  -- more, whatever turns its reader and its sessions take; but where the reader has admitted a packet
  -- before, the session of that one packet may be opened while it drains.
  pub drain_settles : (c : Conn S) (ts : List Turn) → c.drain ≡ true → Drains c (take_turns h c ts)
  unfolding take_turns
  drain_settles c [] d = Drains-refl c d
  drain_settles c (t ∷ ts) d =
      let v = turn-Drains c t d in Drains-trans v (drain_settles (take_turn h c t) ts v.still)
