-- ===== src/Server/Dispatch/Reply.antt =====
-- What holds of every reply that `dispatch` makes.
use go_lab_tacacs_mcp.Common.{
  Bool, Bool-cases, Option, Option-cases, Result-cases, arith, false, inl, inr, length,
  length-append, none, ok, refl, some, true, ℕ, ◌%◌, ◌++◌, ◌+◌, ◌==◌, ◌^◌, ◌||◌, ◌≡◌, ◌≤◌, ◌⊎◌,
}
use go_lab_tacacs_mcp.Common.Bytes.{Bytes}
use go_lab_tacacs_mcp.Server.Dispatch.{
  Env, Handler, Identity, Outgoing, abort, acct_with, answer_acct, answer_authen, answer_author,
  authen_terminal, authen_with, author_with, dispatch, dispatch_acct, dispatch_authen,
  dispatch_author, dispatch_continue, dispatch_start, encode_acct, encode_authen, encode_author,
  is_acct_flags, outgoing_of, refuse_acct, route,
}
use go_lab_tacacs_mcp.Tacacs.Acct.{
  AcctReply, decode_acct_reply, decode_acct_request, encode_acct_reply,
}
use go_lab_tacacs_mcp.Tacacs.Acct.Reply.{decode-encode_acct_reply}
use go_lab_tacacs_mcp.Tacacs.Args.{encode_arg_list}
use go_lab_tacacs_mcp.Tacacs.Authen.{
  AuthenReply, decode_authen_continue, decode_authen_reply, decode_authen_start,
  encode_authen_reply,
}
use go_lab_tacacs_mcp.Tacacs.Authen.Reply.{decode-encode_reply, known_reply_flags}
use go_lab_tacacs_mcp.Tacacs.Author.{
  AuthorResponse, decode_author_request, decode_author_response, encode_author_response,
}
use go_lab_tacacs_mcp.Tacacs.Author.Response.{decode-encode_author_response}
use go_lab_tacacs_mcp.Tacacs.Constants.{
  acct_status_error, authen_status_error, author_status_error, max_body_bytes, type_acct,
  type_authen, type_author,
}
use go_lab_tacacs_mcp.Tacacs.Cursor.{check_body_cap, require_printable, u16len}
use go_lab_tacacs_mcp.Tacacs.Errors.{Error}
use go_lab_tacacs_mcp.Tacacs.Header.{Header, minor, next_seq, validate}
use go_lab_tacacs_mcp.Tacacs.Sequence.{
  Sequence, admit, check_request, client_seq, expect_reply, next_reply,
}
use go_lab_tacacs_mcp.Tacacs.Version.{
  Disposition, accept, authen_status, classify_acct_minor, classify_authen_start,
  classify_author_minor, error, fail,
}

-- The body is one that a client reads as a reply of that type.
abbrev pub IsReply : ℕ → Bytes → Type 0
IsReply typ body =
    ((typ ≡ type_authen) × (r : AuthenReply) × (decode_authen_reply body ≡ ok r))
    ⊎ (((typ ≡ type_author) × (r : AuthorResponse) × (decode_author_response body ≡ ok r))
        ⊎ ((typ ≡ type_acct) × (r : AcctReply) × (decode_acct_reply body ≡ ok r)))

-- The reply carries this header, with the length of its body, and a body of this type.
record Carries (typ : ℕ) (rh : Header) (out : Outgoing) : Type 0 where
  header : out.hdr ≡ record rh { body_length = length out.body }
  bounded : length out.body ≤ max_body_bytes
  readable : IsReply typ out.body

length-encode_authen :
    (r : AuthenReply) (out : Bytes) → encode_authen_reply r ≡ ok out → length out ≤ max_body_bytes
unfolding encode_authen_reply require_printable u16len check_body_cap
length-encode_authen r out h = ground (arith, length-append r.server_msg r.data_field)

length-encode_author :
    (r : AuthorResponse) (out : Bytes)
    → encode_author_response r ≡ ok out
    → length out ≤ max_body_bytes
unfolding encode_author_response require_printable u16len check_body_cap
length-encode_author r out h = elim (Result-cases (encode_arg_list r.args)) [
  | inl ((ls, ps), e) ↦ ground (
    arith,
    e,
    length-append r.data_field ps,
    length-append r.server_msg (r.data_field ++ ps),
    length-append ls (r.server_msg ++ (r.data_field ++ ps)),
  )
  | inr (x, e) ↦ ground (arith, e)
]

length-encode_acct :
    (r : AcctReply) (out : Bytes) → encode_acct_reply r ≡ ok out → length out ≤ max_body_bytes
unfolding encode_acct_reply require_printable u16len check_body_cap
length-encode_acct r out h = ground (arith, length-append r.server_msg r.data_field)

outgoing_of-Carries :
    (typ : ℕ) (rh : Header) (body : Bytes) (terminal : Bool) (out : Outgoing)
    → length body ≤ max_body_bytes
    → IsReply typ body
    → outgoing_of rh body terminal ≡ out
    → Carries typ rh out
outgoing_of-Carries typ rh body terminal out b r e =
    let fits : length body % 2 ^ 32 ≡ length body = omega (arith, b) in
    rw (← e) (record { header = rw fits; bounded = b; readable = r })

encode_authen-Carries :
    (rh : Header) (r : AuthenReply) (terminal : Bool) (out : Outgoing)
    → encode_authen rh r terminal ≡ ok out
    → Carries type_authen rh out
unfolding encode_authen
encode_authen-Carries rh r terminal out h = elim (Result-cases (encode_authen_reply r)) [
  | inl (body, e) ↦
      outgoing_of-Carries type_authen rh body terminal out (length-encode_authen r body e)
        (inl (refl, known_reply_flags r, (decode-encode_reply r body e).1)) (ground (arith, e))
  | inr (x, e) ↦ ground (arith, e)
]

encode_author-Carries :
    (rh : Header) (r : AuthorResponse) (out : Outgoing)
    → encode_author rh r ≡ ok out
    → Carries type_author rh out
unfolding encode_author
encode_author-Carries rh r out h = elim (Result-cases (encode_author_response r)) [
  | inl (body, e) ↦
      outgoing_of-Carries type_author rh body true out (length-encode_author r body e)
        (inr (inl (refl, r, (decode-encode_author_response r body e).1))) (ground (arith, e))
  | inr (x, e) ↦ ground (arith, e)
]

encode_acct-Carries :
    (rh : Header) (r : AcctReply) (out : Outgoing)
    → encode_acct rh r ≡ ok out
    → Carries type_acct rh out
unfolding encode_acct
encode_acct-Carries rh r out h = elim (Result-cases (encode_acct_reply r)) [
  | inl (body, e) ↦
      outgoing_of-Carries type_acct rh body true out (length-encode_acct r body e)
        (inr (inr (refl, r, (decode-encode_acct_reply r body e).1))) (ground (arith, e))
  | inr (x, e) ↦ ground (arith, e)
]

-- What `CheckRequest` and `NextReply` say of the header of the reply.
made_inv :
    (seq : Sequence) (hdr rh : Header)
    → (check_request seq hdr).1 ≡ none
    → (next_reply (check_request seq hdr).0 0).1 ≡ ok rh
    → (rh.seq_no ≡ hdr.seq_no + 1)
      × (rh.typ ≡ hdr.typ)
      × (rh.session_id ≡ hdr.session_id)
      × (hdr.seq_no % 2 ≡ 1)
unfolding check_request admit expect_reply next_reply next_seq client_seq validate
made_inv seq hdr rh h k = ground arith

answer_authen-Carries :
    (rh : Header) (r : Option AuthenReply) (aborted : Bool) (out : Outgoing)
    → answer_authen rh r aborted ≡ ok out
    → Carries type_authen rh out
answer_authen-Carries rh none aborted out h =
    encode_authen-Carries rh (authen_with authen_status_error) true out h
answer_authen-Carries rh (some r) aborted out h =
    encode_authen-Carries rh r (authen_terminal r.status || aborted) out h

answer_author-Carries :
    (rh : Header) (r : Option AuthorResponse) (out : Outgoing)
    → answer_author rh r ≡ ok out
    → Carries type_author rh out
answer_author-Carries rh none out h =
    encode_author-Carries rh (author_with author_status_error) out h
answer_author-Carries rh (some r) out h = encode_author-Carries rh r out h

answer_acct-Carries :
    (rh : Header) (r : Option AcctReply) (out : Outgoing)
    → answer_acct rh r ≡ ok out
    → Carries type_acct rh out
answer_acct-Carries rh none out h = encode_acct-Carries rh (acct_with acct_status_error) out h
answer_acct-Carries rh (some r) out h = encode_acct-Carries rh r out h

refuse_acct-Carries :
    (env : Env) (rh : Header) (e : Error) (out : Outgoing)
    → refuse_acct env rh e ≡ ok out
    → Carries type_acct rh out
refuse_acct-Carries env rh e out h = elim (Bool-cases (is_acct_flags e)) [
  | inl t ↦ encode_acct-Carries rh (acct_with acct_status_error) out (rw t at h)
  | inr t ↦ ground (arith, t)
]

Disposition-cases : (d : Disposition) → (d ≡ accept) ⊎ ((d ≡ fail) ⊎ (d ≡ error))
Disposition-cases accept = inl refl
Disposition-cases fail = inr (inl refl)
Disposition-cases error = inr (inr refl)

module _ {S : Type 0} (h : Handler S) (st : S) (env : Env) where
  start-Carries :
      (hdr rh : Header) (body : Bytes) (out : Outgoing)
      → (dispatch_start h st env hdr rh body).1 ≡ ok out
      → Carries type_authen rh out
  unfolding dispatch_start
  start-Carries hdr rh body out e = elim (Result-cases (decode_authen_start body)) [
    | inr (x, d) ↦ ground (arith, d)
    | inl (start, d) ↦ elim (Disposition-cases (classify_authen_start (minor hdr) start).1) [
      | inl c ↦
          answer_authen-Carries rh (h.authen_start st env start).1 false out
            (rw (d, c, dispatch_start) at e)
      | inr (inl c) ↦
          encode_authen-Carries rh (authen_with (authen_status fail)) true out
            (rw (d, c, dispatch_start) at e)
      | inr (inr c) ↦
          encode_authen-Carries rh (authen_with (authen_status error)) true out
            (rw (d, c, dispatch_start) at e)
    ]
  ]

  continue-Carries :
      (rh : Header) (body : Bytes) (out : Outgoing)
      → (dispatch_continue h st env rh body).1 ≡ ok out
      → Carries type_authen rh out
  unfolding dispatch_continue
  continue-Carries rh body out e = elim (Result-cases (decode_authen_continue body)) [
    | inr (x, d) ↦ ground (arith, d)
    | inl (cont, d) ↦
        answer_authen-Carries rh (h.authen_continue st env cont).1 (abort cont) out
          (rw (d, dispatch_continue) at e)
  ]

  authen-Carries :
      (hdr rh : Header) (body : Bytes) (out : Outgoing)
      → (dispatch_authen h st env hdr rh body).1 ≡ ok out
      → Carries type_authen rh out
  unfolding dispatch_authen
  authen-Carries hdr rh body out e = elim (Bool-cases (hdr.seq_no == 1)) [
    | inl t ↦ start-Carries hdr rh body out (rw t at e)
    | inr t ↦ continue-Carries rh body out (rw t at e)
  ]

  author-Carries :
      (hdr rh : Header) (body : Bytes) (out : Outgoing)
      → (dispatch_author h st env hdr rh body).1 ≡ ok out
      → Carries type_author rh out
  unfolding dispatch_author
  author-Carries hdr rh body out e = elim (Disposition-cases (classify_author_minor (minor hdr))) [
    | inl c ↦ elim (Result-cases (decode_author_request body)) [
      | inr (x, d) ↦ ground (arith, c, d)
      | inl (req, d) ↦
          answer_author-Carries rh (h.authorize st env req).1 out (rw (c, d, dispatch_author) at e)
    ]
    | inr (inl c) ↦
        encode_author-Carries rh (author_with author_status_error) out
          (rw (c, dispatch_author) at e)
    | inr (inr c) ↦
        encode_author-Carries rh (author_with author_status_error) out
          (rw (c, dispatch_author) at e)
  ]

  acct-Carries :
      (hdr rh : Header) (body : Bytes) (out : Outgoing)
      → (dispatch_acct h st env hdr rh body).1 ≡ ok out
      → Carries type_acct rh out
  unfolding dispatch_acct
  acct-Carries hdr rh body out e = elim (Disposition-cases (classify_acct_minor (minor hdr))) [
    | inl c ↦ elim (Result-cases (decode_acct_request body)) [
      | inr (x, d) ↦ refuse_acct-Carries env rh x out (rw (c, d, dispatch_acct) at e)
      | inl ((req, some x), d) ↦ refuse_acct-Carries env rh x out (rw (c, d, dispatch_acct) at e)
      | inl ((req, none), d) ↦
          answer_acct-Carries rh (h.account st env req).1 out (rw (c, d, dispatch_acct) at e)
    ]
    | inr (inl c) ↦
        encode_acct-Carries rh (acct_with acct_status_error) out (rw (c, dispatch_acct) at e)
    | inr (inr c) ↦
        encode_acct-Carries rh (acct_with acct_status_error) out (rw (c, dispatch_acct) at e)
  ]

  route-Carries :
      (hdr rh : Header) (body : Bytes) (out : Outgoing)
      → (route h st env hdr rh body).1 ≡ ok out
      → Carries hdr.typ rh out
  unfolding route
  route-Carries hdr rh body out e = ground (
    arith,
    authen-Carries hdr rh body out,
    author-Carries hdr rh body out,
    acct-Carries hdr rh body out,
  )

module _ {S : Type 0} (h : Handler S) where
  -- Every reply that `dispatch` makes answers the client's odd packet with the next, even sequence
  -- number, in its session, with its type and version and no flags; its length is that of its body,
  -- which is within the body cap and which a client decodes as a reply of that type.
  pub dispatch-IsReply :
      (id : Identity) (conn_key : ℕ) (st : S) (seq : Sequence) (hdr : Header) (body : Bytes)
      (out : Outgoing)
      → (dispatch h id conn_key st seq hdr body).2 ≡ ok out
      → (hdr.seq_no % 2 ≡ 1)
        × (out.hdr ≡ record {
          version = hdr.version;
          typ = hdr.typ;
          seq_no = hdr.seq_no + 1;
          flags = 0;
          session_id = hdr.session_id;
          body_length = length out.body;
        })
        × (length out.body ≤ max_body_bytes)
        × IsReply hdr.typ out.body
  unfolding dispatch
  dispatch-IsReply id conn_key st seq hdr body out e =
      let asked = check_request seq hdr in
      elim (Option-cases asked.1) [
        | inr (x, c) ↦ absurd (cc (rw (c, dispatch) at e))
        | inl c ↦ elim (Result-cases (next_reply asked.0 0).1) [
          | inr (x, m) ↦ absurd (cc (rw (c, m, dispatch) at e))
          | inl (rh, m) ↦
              let inv = made_inv seq hdr rh c m in
              let env : Env = record {
                identity = id;
                session_id = hdr.session_id;
                conn_key = conn_key;
              } in
              let v =
                route-Carries h st env hdr (record rh { version = hdr.version; flags = 0 }) body out
                  (rw (c, m, dispatch) at e) in
              (inv.3, ground (arith, v.header, inv), v.bounded, v.readable)
        ]
      ]
