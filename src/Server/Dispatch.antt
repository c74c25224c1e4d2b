-- ===== src/Server/Dispatch.antt =====
-- One packet of a session, from its header and clear body to the reply: conn.go (`dispatch` and what
-- it calls), handler.go and errors.go. The AAA hook is a parameter that threads its own state; its
-- error result is `none`. Go's context and its cancellation are left out.
pub mod Reply
use go_lab_tacacs_mcp.Common.{
  Bool, Option, Result, [], bit_and, err, false, if◌then◌else◌, length, none, not, ok, some, true,
  ℕ, ◌%◌, ◌&&◌, ◌==◌, ◌>>=◌, ◌>>◌, ◌^◌, ◌||◌,
}
use go_lab_tacacs_mcp.Common.Bytes.{Bytes}
use go_lab_tacacs_mcp.Common.Text.{Str}
use go_lab_tacacs_mcp.Tacacs.Acct.{AcctReply, AcctRequest, decode_acct_request, encode_acct_reply}
use go_lab_tacacs_mcp.Tacacs.Authen.{
  AuthenContinue, AuthenReply, AuthenStart, decode_authen_continue, decode_authen_start,
  encode_authen_reply,
}
use go_lab_tacacs_mcp.Tacacs.Author.{
  AuthorRequest, AuthorResponse, decode_author_request, encode_author_response,
}
use go_lab_tacacs_mcp.Tacacs.Constants.{
  acct_status_error, authen_status_error, authen_status_fail, authen_status_pass,
  authen_status_restart, author_status_error, continue_flag_abort, type_acct, type_authen,
  type_author,
}
use go_lab_tacacs_mcp.Tacacs.Errors.{Error, acct_flags, length_mismatch, unknown_type}
use go_lab_tacacs_mcp.Tacacs.Header.{Header, minor}
use go_lab_tacacs_mcp.Tacacs.Sequence.{Sequence, check_request, next_reply}
use go_lab_tacacs_mcp.Tacacs.Version.{
  accept, authen_status, classify_acct_minor, classify_authen_start, classify_author_minor, error,
  fail,
}

pub data Transport : Type 0 where
  legacy tls : Transport

pub record Identity : Type 0 where
  pub client_id : Str
  pub transport : Transport
  pub peer : Bytes
  pub revision : ℕ

-- Go's `Env`; the embedded identity is a field.
pub record Env : Type 0 where
  pub identity : Identity
  pub session_id : ℕ
  pub conn_key : ℕ

-- `io_failed` stands for what `PacketIO` reports.
pub data ServeError : Type 0 where
  of_codec : Error → ServeError
  unencrypted missing_unencrypted secret_mismatch conn_limit io_failed : ServeError

-- Go's `Handler`, over the state of its implementation, and the optional `EndSession`, which does
-- nothing where it is not implemented.
pub record Handler (S : Type 0) : Type 0 where
  pub authen_start : S → Env → AuthenStart → S × Option AuthenReply
  pub authen_continue : S → Env → AuthenContinue → S × Option AuthenReply
  pub authorize : S → Env → AuthorRequest → S × Option AuthorResponse
  pub account : S → Env → AcctRequest → S × Option AcctReply
  pub end_session : S → Env → S

-- Go's `outgoing`.
pub record Outgoing : Type 0 where
  pub hdr : Header
  pub body : Bytes
  pub terminal : Bool

-- `AuthenReply{Status: status}`, `AuthorResponse{Status: status}` and `AcctReply{Status: status}`.
abbrev pub authen_with : ℕ → AuthenReply
authen_with status = record { status = status; flags = 0; server_msg = []; data_field = [] }

abbrev pub author_with : ℕ → AuthorResponse
author_with status = record { status = status; server_msg = []; data_field = []; args = [] }

abbrev pub acct_with : ℕ → AcctReply
acct_with status = record { status = status; server_msg = []; data_field = [] }

-- An error of the codec, as one of this package.
abbrev pub of_result {ℓ} : {A : Type ℓ} → Result Error A → Result ServeError A
of_result (ok a) = ok a
of_result (err e) = err (of_codec e)

abbrev pub is_length_mismatch : Error → Bool
is_length_mismatch length_mismatch = true
is_length_mismatch _ = false

abbrev pub is_acct_flags : Error → Bool
is_acct_flags acct_flags = true
is_acct_flags _ = false

abbrev pub is_legacy : Transport → Bool
is_legacy legacy = true
is_legacy tls = false

unfoldable pub map_decode_err : Transport → Error → ServeError
map_decode_err tr e = if is_length_mismatch e && is_legacy tr then secret_mismatch else of_codec e

unfoldable pub authen_terminal : ℕ → Bool
authen_terminal status =
    status == authen_status_pass
    || (status == authen_status_fail
        || (status == authen_status_restart || status == authen_status_error))

-- `h.Length = uint32(len(body))`
abbrev pub outgoing_of : Header → Bytes → Bool → Outgoing
outgoing_of h body terminal = record {
  hdr = record h { body_length = length body % 2 ^ 32 };
  body = body;
  terminal = terminal;
}

unfoldable pub encode_authen : Header → AuthenReply → Bool → Result ServeError Outgoing
encode_authen h r terminal = do
  body ← of_result (encode_authen_reply r)
  ok (outgoing_of h body terminal)

unfoldable pub encode_author : Header → AuthorResponse → Result ServeError Outgoing
encode_author h r = do body ← of_result (encode_author_response r); ok (outgoing_of h body true)

unfoldable pub encode_acct : Header → AcctReply → Result ServeError Outgoing
encode_acct h r = do body ← of_result (encode_acct_reply r); ok (outgoing_of h body true)

-- `cont.Abort()`
abbrev pub abort : AuthenContinue → Bool
abort cont = not (bit_and cont.flags continue_flag_abort == 0)

-- What becomes of the handler's answer.
abbrev pub answer_authen : Header → Option AuthenReply → Bool → Result ServeError Outgoing
answer_authen rh none aborted = encode_authen rh (authen_with authen_status_error) true
answer_authen rh (some reply) aborted =
    encode_authen rh reply (authen_terminal reply.status || aborted)

abbrev pub answer_author : Header → Option AuthorResponse → Result ServeError Outgoing
answer_author rh none = encode_author rh (author_with author_status_error)
answer_author rh (some reply) = encode_author rh reply

abbrev pub answer_acct : Header → Option AcctReply → Result ServeError Outgoing
answer_acct rh none = encode_acct rh (acct_with acct_status_error)
answer_acct rh (some reply) = encode_acct rh reply

-- The branch on a decoding error, in `dispatchAcct`.
abbrev pub refuse_acct : Env → Header → Error → Result ServeError Outgoing
refuse_acct env rh e =
    if is_acct_flags e
    then encode_acct rh (acct_with acct_status_error)
    else err (map_decode_err env.identity.transport e)

module _ {S : Type 0} (h : Handler S) where
  unfoldable pub dispatch_start : S → Env → Header → Header → Bytes → S × Result ServeError Outgoing
  dispatch_start st env hdr rh body = elim (decode_authen_start body) [
    | err e ↦ (st, err (map_decode_err env.identity.transport e))
    | ok start ↦ elim (classify_authen_start (minor hdr) start).1 [
      | accept ↦
          let (st', reply) = h.authen_start st env start in (st', answer_authen rh reply false)
      | fail ↦ (st, encode_authen rh (authen_with (authen_status fail)) true)
      | error ↦ (st, encode_authen rh (authen_with (authen_status error)) true)
    ]
  ]

  unfoldable pub dispatch_continue : S → Env → Header → Bytes → S × Result ServeError Outgoing
  dispatch_continue st env rh body = elim (decode_authen_continue body) [
    | err e ↦ (st, err (map_decode_err env.identity.transport e))
    | ok cont ↦
        let (st', reply) = h.authen_continue st env cont in
        (st', answer_authen rh reply (abort cont))
  ]

  unfoldable pub dispatch_authen :
      S → Env → Header → Header → Bytes → S × Result ServeError Outgoing
  dispatch_authen st env hdr rh body =
      if hdr.seq_no == 1
      then dispatch_start st env hdr rh body
      else dispatch_continue st env rh body

  unfoldable pub dispatch_author :
      S → Env → Header → Header → Bytes → S × Result ServeError Outgoing
  dispatch_author st env hdr rh body = elim (classify_author_minor (minor hdr)) [
    | accept ↦ elim (decode_author_request body) [
      | err e ↦ (st, err (map_decode_err env.identity.transport e))
      | ok req ↦ let (st', reply) = h.authorize st env req in (st', answer_author rh reply)
    ]
    | _ ↦ (st, encode_author rh (author_with author_status_error))
  ]

  unfoldable pub dispatch_acct : S → Env → Header → Header → Bytes → S × Result ServeError Outgoing
  dispatch_acct st env hdr rh body = elim (classify_acct_minor (minor hdr)) [
    | accept ↦ elim (decode_acct_request body) [
      | err e ↦ (st, refuse_acct env rh e)
      | ok (req, flagged) ↦ elim flagged [
        | some e ↦ (st, refuse_acct env rh e)
        | none ↦ let (st', reply) = h.account st env req in (st', answer_acct rh reply)
      ]
    ]
    | _ ↦ (st, encode_acct rh (acct_with acct_status_error))
  ]

  -- The switch on the type, in `dispatch`.
  unfoldable pub route : S → Env → Header → Header → Bytes → S × Result ServeError Outgoing
  route st env hdr rh body =
      if hdr.typ == type_authen
      then dispatch_authen st env hdr rh body
      else if hdr.typ == type_author
      then dispatch_author st env hdr rh body
      else if hdr.typ == type_acct
      then dispatch_acct st env hdr rh body
      else (st, err (of_codec unknown_type))

  unfoldable pub dispatch :
      Identity → ℕ → S → Sequence → Header → Bytes → S × Sequence × Result ServeError Outgoing
  dispatch id conn_key st seq hdr body =
      let (asked, refused) = check_request seq hdr in
      elim refused [
        | some e ↦ (st, asked, err (of_codec e))
        | none ↦
            let (replied, made) = next_reply asked 0 in
            elim made [
              | err e ↦ (st, replied, err (of_codec e))
              | ok rh ↦
                  let env : Env = record {
                    identity = id;
                    session_id = hdr.session_id;
                    conn_key = conn_key;
                  } in
                  let (st', out) =
                    route st env hdr (record rh { version = hdr.version; flags = 0 }) body in
                  (st', replied, out)
            ]
      ]
