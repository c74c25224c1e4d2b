-- ===== src/Tacacs/Sequence/Order.antt =====
-- The order of the packets of one session, under any mix of requests, replies and closes.
use go_lab_tacacs_mcp.Common.{
  ==_iff, Bool-cases, List, Option, Result, Result-cases, [], arith, err, false, if◌then◌else◌, inl,
  inr, none, not, ok, some, suc, true, zero, ℕ, ◌%◌, ◌&&◌, ◌*◌, ◌+◌, ◌-◌, ◌<◌, ◌==◌, ◌||◌, ◌∷◌, ◌≡◌,
  ◌≤◌, ◌⊎◌,
}
use go_lab_tacacs_mcp.Tacacs.Constants.{major_ver}
use go_lab_tacacs_mcp.Tacacs.Errors.{
  Error, premature_packet, seq_parity, seq_unexpected, session_closed, session_mismatch,
}
use go_lab_tacacs_mcp.Tacacs.Header.{Header, major, next_seq, validate}
use go_lab_tacacs_mcp.Tacacs.Sequence.{
  Sequence, admit, check_request, client_seq, close, new_sequence, next_reply, one_shot,
  set_max_continues,
}

pub data Event : Type 0 where
  request : Header → Event
  reply : ℕ → Event
  shut : Event

-- A packet that the session let through, by its sequence number.
pub data Packet : Type 0 where
  from_client from_server : ℕ → Packet

abbrev pub logged_request : Header → Option Error → List Packet → List Packet
logged_request h none log = from_client h.seq_no ∷ log
logged_request h (some e) log = log

abbrev pub logged_reply : Result Error Header → List Packet → List Packet
logged_reply (ok h) log = from_server h.seq_no ∷ log
logged_reply (err e) log = log

-- One call on a session, with the packets that it has let through, the last one first.
unfoldable pub step : Sequence × List Packet → Event → Sequence × List Packet
step (s, log) (request h) = let (s', e) = check_request s h in (s', logged_request h e log)
step (s, log) (reply flags) = let (s', r) = next_reply s flags in (s', logged_reply r log)
step (s, log) shut = (close s, log)

unfoldable pub run : Sequence × List Packet → List Event → Sequence × List Packet
unfolding step
run st [] = st
run st (e ∷ es) = run (step st e) es

-- client 1, server 2, client 3, and so on up to `k`, the last one first.
abbrev pub transcript : ℕ → List Packet
transcript zero = []
transcript (suc k) =
    (if suc k % 2 == 1 then from_client (suc k) else from_server (suc k)) ∷ transcript k

-- The packets let through are those before `next`, and the continues count the client's among them.
record IsOrdered (s : Sequence) (log : List Packet) : Type 0 where
  order : log ≡ transcript (s.next - 1)
  no_wrap : s.wrap ≡ false
  positive : 0 < s.next
  capped : s.max_cont ≤ 126
  within : s.next ≤ 2 * s.max_cont + 3
  first : s.started ≡ false → (s.next ≡ 1) × (s.continues ≡ 0) × (s.replied ≡ false)
  waiting : s.started ≡ true → s.closed ≡ false → s.continues ≤ s.max_cont
  turn :
      s.started ≡ true
      → s.closed ≡ false
      → (s.next ≡ 2 * s.continues + 2) ⊎ ((s.next ≡ 2 * s.continues + 3) × (s.replied ≡ true))

transcript_grow :
    (n : ℕ)
    → 0 < n
    → transcript (n + 1 - 1)
      ≡ (if n % 2 == 1 then from_client n else from_server n) ∷ transcript (n - 1)
transcript_grow zero h = absurd (omega arith)
transcript_grow (suc n) h =
    let e : suc n + 1 - 1 ≡ suc n = omega arith in let d : suc n - 1 ≡ n = omega arith in rw (e, d)

-- `CheckRequest` refuses and changes nothing, or the header is the next client packet of an open
-- session that waits for one.
check_request_cases :
    (s : Sequence) (h : Header)
    → ((e : Error) × (check_request s h ≡ (s, some e)))
      ⊎ ((check_request s h ≡ admit s h)
          × (h.seq_no ≡ s.next)
          × (h.seq_no % 2 ≡ 1)
          × (s.closed ≡ false)
          × ((s.started && not s.replied) ≡ false))
unfolding check_request
check_request_cases s h = elim (Bool-cases s.closed) [
  | inl c ↦ inl (session_closed, ground (arith, c))
  | inr o ↦ elim (Bool-cases (not (h.session_id == s.session_id) || not (h.typ == s.typ))) [
    | inl c ↦ inl (session_mismatch, ground (arith, c, o))
    | inr m ↦ elim (Result-cases (validate h)) [
      | inr (e, c) ↦ inl (e, ground (arith, c, m, o))
      | inl (u, n) ↦ elim (Bool-cases (client_seq h.seq_no)) [
        | inr c ↦ inl (seq_parity, simp (o, m, n, c))
        | inl q ↦ elim (Bool-cases (s.started && not s.replied)) [
          | inl c ↦ inl (premature_packet, simp (o, m, n, q, c))
          | inr w ↦ elim (Bool-cases (h.seq_no == s.next)) [
            | inr c ↦ inl (seq_unexpected, simp (o, m, n, q, w, c))
            | inl g ↦ inr (
              simp (o, m, n, q, w, g),
              (==_iff h.seq_no s.next).0 g,
              (==_iff (h.seq_no % 2) 1).0 (unfold client_seq in q),
              o,
              w,
            )
          ]
        ]
      ]
    ]
  ]
]

admit-IsOrdered :
    (s : Sequence) (log : List Packet) (h : Header)
    → IsOrdered s log
    → h.seq_no ≡ s.next
    → h.seq_no % 2 ≡ 1
    → s.closed ≡ false
    → (s.started && not s.replied) ≡ false
    → IsOrdered (admit s h).0 (logged_request h (admit s h).1 log)
unfolding admit next_seq
admit-IsOrdered s log h v n q o w = ground (arith, transcript_grow s.next v.positive)

step-IsOrdered :
    (s : Sequence) (log : List Packet) (e : Event)
    → IsOrdered s log
    → IsOrdered (step (s, log) e).0 (step (s, log) e).1
unfolding step next_seq next_reply close
step-IsOrdered s log (request h) v = elim (check_request_cases s h) [
  | inl (e, c) ↦ rw c v
  | inr (c, n, q, o, w) ↦ rw c (admit-IsOrdered s log h v n q o w)
]
step-IsOrdered s log (reply flags) v = ground (arith, transcript_grow s.next v.positive)
step-IsOrdered s log shut v = ground arith

run-IsOrdered :
    (s : Sequence) (log : List Packet) (es : List Event)
    → IsOrdered s log
    → IsOrdered (run (s, log) es).0 (run (s, log) es).1
unfolding run
run-IsOrdered s log [] v = v
run-IsOrdered s log (e ∷ es) v =
    run-IsOrdered (step (s, log) e).0 (step (s, log) e).1 es (step-IsOrdered s log e v)

new_sequence-IsOrdered :
    (session_id typ n : ℕ)
    → n ≤ 126
    → IsOrdered (set_max_continues (new_sequence session_id typ) n) []
unfolding new_sequence set_max_continues
new_sequence-IsOrdered session_id typ n h = ground arith

-- A new session, under any mix of calls and with a continue cap of at most 126 (0 is the default,
-- 32), lets through client 1, server 2, client 3 and so on, nothing else and nothing twice, and
-- fewer than 256 of them.
pub run_order :
    (session_id typ n : ℕ) (es : List Event)
    → n ≤ 126
    → (k : ℕ) × (k < 256)
      × ((run (set_max_continues (new_sequence session_id typ) n, []) es).1 ≡ transcript k)
run_order session_id typ n es h =
    let start = set_max_continues (new_sequence session_id typ) n in
    let v = run-IsOrdered start [] es (new_sequence-IsOrdered session_id typ n h) in
    ((run (start, []) es).0.next - 1, omega arith, v.order)

-- `CheckRequest` lets the client packet 255 through twice: the first time leaves `next` at 255, and
-- only `NextReply` closes the session. It takes an authentication session that is open, waits for
-- packet 255 and whose cap leaves room for two continues.
pub repeated_255 :
    (s : Sequence) (h : Header)
    → h.session_id ≡ s.session_id
    → h.typ ≡ s.typ
    → one_shot s.typ ≡ false
    → major h ≡ major_ver
    → h.seq_no ≡ 255
    → s.next ≡ 255
    → s.closed ≡ false
    → s.started ≡ true
    → s.replied ≡ true
    → s.continues + 2 ≤ s.max_cont
    → ((check_request s h).1 ≡ none) × ((check_request (check_request s h).0 h).1 ≡ none)
unfolding check_request validate next_seq
repeated_255 s h a b c d e f g i j k = ground arith
