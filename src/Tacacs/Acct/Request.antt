-- ===== src/Tacacs/Acct/Request.antt =====
-- `DecodeAcctRequest` and `AcctRequest.Encode`.
-- The request as it is sent: a WATCHDOG without update carries no arguments.
use go_lab_tacacs_mcp.Common.{
  All, Bool-cases, Result-cases, [], ap, arith, if◌then◌else◌, inl, inr, length, none, ok, refl,
  true, ℕ, ◌++◌, ◌==◌, ◌∙◌, ◌∷◌, ◌≡◌, ◌≤◌, ◌⊎◌,
}
use go_lab_tacacs_mcp.Common.Bytes.{Bytes}
use go_lab_tacacs_mcp.Tacacs.Acct.{
  AcctRequest, decode_acct_request, encode_acct_request, use_arguments, valid_acct_flags,
}
use go_lab_tacacs_mcp.Tacacs.Args.{encode_arg_list}
use go_lab_tacacs_mcp.Tacacs.Args.Laws.{
  IsArgument, encode_arg_list_inv, length-lens_of, lens_of, payload_of, read_arg_lens-append,
  read_args-All,
}
use go_lab_tacacs_mcp.Tacacs.Constants.{
  acct_flag_start, acct_flag_stop, acct_flag_watchdog, acct_flag_watchdog_update,
}
use go_lab_tacacs_mcp.Tacacs.Cursor.{
  check_body_cap, done, printable_ascii, require_printable, u8, u8len,
}
use go_lab_tacacs_mcp.Tacacs.Cursor.Laws.{bytes-append}

unfoldable sent : AcctRequest → AcctRequest
sent r = record r { args = if use_arguments r then r.args else [] }

abbrev layout : AcctRequest → Bytes
layout r =
    r.flags
    ∷ r.authen_method
    ∷ r.priv_lvl
    ∷ r.authen_type
    ∷ r.service
    ∷ length r.user
    ∷ length r.port
    ∷ length r.rem_addr
    ∷ length (lens_of r.args)
    ∷ (lens_of r.args ++ (r.user ++ (r.port ++ (r.rem_addr ++ payload_of r.args))))

record IsSendable (r : AcctRequest) : Type 0 where
  flags_valid : valid_acct_flags r.flags ≡ true
  user_fits : length r.user ≤ 255
  port_fits : length r.port ≤ 255
  rem_fits : length r.rem_addr ≤ 255
  port_text : printable_ascii r.port ≡ true
  rem_text : printable_ascii r.rem_addr ≡ true
  args_fit : length (lens_of r.args) ≤ 255
  args_sound : All IsArgument r.args

encode_inv :
    (r : AcctRequest) (out : Bytes)
    → encode_acct_request r ≡ ok out
    → IsSendable (sent r) × (out ≡ layout (sent r))
unfolding encode_acct_request require_printable u8len check_body_cap sent
encode_inv r out h = elim (Result-cases (encode_arg_list (sent r).args)) [
  | inl ((ls, ps), e) ↦
      ground (arith, e, encode_arg_list_inv (sent r).args ls ps e, length-lens_of (sent r).args)
  | inr (x, e) ↦ ground (arith, e)
]

decode-layout : (r : AcctRequest) → IsSendable r → decode_acct_request (layout r) ≡ ok (r, none)
unfolding decode_acct_request u8 done require_printable
decode-layout r v = simp (
  read_arg_lens-append, v.args_fit, bytes-append, read_args-All, v.args_sound, v.port_text,
  v.rem_text, v.flags_valid,
)

-- The records whose arguments count: START, STOP and WATCHDOG with update.
abbrev pub HasArguments : ℕ → Type 0
HasArguments flags =
    (flags ≡ acct_flag_start) ⊎ (flags ≡ acct_flag_stop) ⊎ (flags ≡ acct_flag_watchdog_update)

sent_cases :
    (r : AcctRequest)
    → valid_acct_flags r.flags ≡ true
    → (HasArguments r.flags × (sent r ≡ r))
      ⊎ ((r.flags ≡ acct_flag_watchdog) × (sent r ≡ record r { args = [] }))
unfolding sent valid_acct_flags use_arguments
sent_cases r h = elim (Bool-cases (r.flags == acct_flag_watchdog)) [
  | inl t ↦ inr (ground arith, rw t refl)
  | inr t ↦ inl (ground arith, rw t refl)
]

-- Decoding what `Encode` wrote gives a START, a STOP and a WATCHDOG with update back, with no flag
-- error; a WATCHDOG without update, the only other record that is written, comes back without its
-- arguments.
pub decode-encode_acct_request :
    (r : AcctRequest) (out : Bytes)
    → encode_acct_request r ≡ ok out
    → (HasArguments r.flags × (decode_acct_request out ≡ ok (r, none)))
      ⊎ ((r.flags ≡ acct_flag_watchdog)
          × (decode_acct_request out ≡ ok (record r { args = [] }, none)))
decode-encode_acct_request r out h =
    let (v, e) = encode_inv r out h in
    let back : decode_acct_request out ≡ ok (sent r, none) = rw e (decode-layout (sent r) v) in
    let valid : valid_acct_flags r.flags ≡ true = unfold sent in v.flags_valid in
    elim (sent_cases r valid) [
      | inl (a, same) ↦ inl (a, back ∙ ap (λ x. ok (x, none)) same)
      | inr (w, same) ↦ inr (w, back ∙ ap (λ x. ok (x, none)) same)
    ]
