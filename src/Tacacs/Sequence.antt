-- ===== src/Tacacs/Sequence.antt =====
-- Sessions and single-connect: internal/tacacs/codec/sequence.go. A method that changes its
-- receiver returns the new state; Go's nil error is `none`. The continue cap is a number, so the
-- negative caps that `SetMaxContinues` treats like 0 are not written.
pub mod Order
pub mod Single
use go_lab_tacacs_mcp.Common.{
  Bool, Option, Result, bit_and, err, false, if◌then◌else◌, ltb, none, not, ok, some, true, ℕ, ◌%◌,
  ◌&&◌, ◌+◌, ◌==◌, ◌||◌,
}
use go_lab_tacacs_mcp.Tacacs.Constants.{
  default_max_continues, flag_single_connect, type_acct, type_author,
}
use go_lab_tacacs_mcp.Tacacs.Errors.{
  Error, premature_packet, seq_parity, seq_unexpected, seq_wrap, session_closed, session_mismatch,
  too_many_continues,
}
use go_lab_tacacs_mcp.Tacacs.Header.{Header, next_seq, validate}

unfoldable pub client_seq : ℕ → Bool
client_seq seq = seq % 2 == 1

unfoldable pub server_seq : ℕ → Bool
server_seq seq = not (seq == 0) && seq % 2 == 0

-- Go's `Sequence`.
pub record Sequence : Type 0 where
  pub session_id : ℕ
  pub typ : ℕ
  pub next : ℕ
  pub started : Bool
  pub replied : Bool
  pub closed : Bool
  pub continues : ℕ
  pub max_cont : ℕ
  pub wrap : Bool

unfoldable pub new_sequence : ℕ → ℕ → Sequence
new_sequence session_id typ = record {
  session_id = session_id;
  typ = typ;
  next = 1;
  started = false;
  replied = false;
  closed = false;
  continues = 0;
  max_cont = default_max_continues;
  wrap = false;
}

unfoldable pub set_max_continues : Sequence → ℕ → Sequence
set_max_continues s n = record s { max_cont = if n == 0 then default_max_continues else n }

-- Authorization and accounting sessions have one request and one reply.
abbrev pub one_shot : ℕ → Bool
one_shot typ = typ == type_author || typ == type_acct

-- The end of `CheckRequest`: 255 is a legal client packet, and the increment after it is not.
unfoldable pub expect_reply : Sequence → Header → Sequence × Option Error
expect_reply s h = elim (next_seq h.seq_no) [
  | err e ↦ (record s { wrap = true }, none)
  | ok n ↦ (record s { next = n }, none)
]

-- `CheckRequest` from `if !s.started` on.
unfoldable pub admit : Sequence → Header → Sequence × Option Error
unfolding expect_reply
admit s h =
    if not s.started
    then if not (h.seq_no == 1)
      then (s, some seq_unexpected)
      else expect_reply (record s { started = true }) h
    else if one_shot s.typ
    then (record s { closed = true }, some session_closed)
    else if ltb s.max_cont (s.continues + 1)
    then (record s { continues = s.continues + 1; closed = true }, some too_many_continues)
    else expect_reply (record s { continues = s.continues + 1 }) h

unfoldable pub check_request : Sequence → Header → Sequence × Option Error
unfolding client_seq admit
check_request s h =
    if s.closed
    then (s, some session_closed)
    else if not (h.session_id == s.session_id) || not (h.typ == s.typ)
    then (s, some session_mismatch)
    else elim (validate h) [
      | err e ↦ (s, some e)
      | ok _ ↦
          if not (client_seq h.seq_no)
          then (s, some seq_parity)
          else if s.started && not s.replied
          then (s, some premature_packet)
          else if not (h.seq_no == s.next)
          then (s, some seq_unexpected)
          else admit s h
    ]

-- The header that `NextReply` builds, and the state behind it.
abbrev pub reply_header : Sequence → ℕ → Header
reply_header s flags = record {
  version = 0;
  typ = s.typ;
  seq_no = s.next;
  flags = flags;
  session_id = s.session_id;
  body_length = 0;
}

unfoldable pub next_reply : Sequence → ℕ → Sequence × Result Error Header
unfolding server_seq
next_reply s flags =
    if s.closed
    then (s, err session_closed)
    else if not s.started
    then (s, err seq_unexpected)
    else if s.wrap
    then (record s { closed = true }, err seq_wrap)
    else if not (server_seq s.next)
    then (s, err seq_parity)
    else elim (next_seq s.next) [
      | err e ↦ (record s { closed = true }, err e)
      | ok n ↦ (
        record s { next = n; replied = true; closed = one_shot s.typ || s.closed },
        ok (reply_header s flags),
      )
    ]

unfoldable pub close : Sequence → Sequence
close s = record s { closed = true }

-- Go's `SingleConnect`; its field `ok` is `agreed`.
pub record SingleConnect : Type 0 where
  pub saw_client : Bool
  pub client : Bool
  pub complete : Bool
  pub agreed : Bool

abbrev pub new_single_connect : SingleConnect
new_single_connect = record { saw_client = false; client = false; complete = false; agreed = false }

-- `flags&FlagSingleConnect != 0`
abbrev pub asks_single : ℕ → Bool
asks_single flags = not (bit_and flags flag_single_connect == 0)

unfoldable pub on_client_first : SingleConnect → ℕ → SingleConnect
on_client_first s flags =
    if s.saw_client || s.complete
    then s
    else record s { saw_client = true; client = asks_single flags }

unfoldable pub on_server_first : SingleConnect → ℕ → SingleConnect × Bool
on_server_first s flags =
    if s.complete
    then (s, s.agreed)
    else let agreed = s.saw_client && (s.client && asks_single flags) in
      (record s { agreed = agreed; complete = true }, agreed)

unfoldable pub negotiated : SingleConnect → Bool
negotiated s = s.agreed

unfoldable pub pending : SingleConnect → Bool
pending s = s.saw_client && not s.complete

unfoldable pub allow_new_session : SingleConnect → Result Error (Unit {0})
unfolding negotiated
allow_new_session s = if not (negotiated s) then err premature_packet else ok tt

unfoldable pub negotiate_single_connect : Bool → ℕ → ℕ → Bool
negotiate_single_connect first_pair client_flags server_flags =
    if not first_pair then false else asks_single client_flags && asks_single server_flags
