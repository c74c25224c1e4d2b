-- ===== src/Tacacs/Author/Request.antt =====
-- `DecodeAuthorRequest` and `AuthorRequest.Encode`.
use go_lab_tacacs_mcp.Common.{
  All, Result-cases, arith, inl, inr, length, ok, true, ◌++◌, ◌∷◌, ◌≡◌, ◌≤◌,
}
use go_lab_tacacs_mcp.Common.Bytes.{Bytes}
use go_lab_tacacs_mcp.Tacacs.Args.{encode_arg_list}
use go_lab_tacacs_mcp.Tacacs.Args.Laws.{
  IsArgument, encode_arg_list_inv, length-lens_of, lens_of, payload_of, read_arg_lens-append,
  read_args-All,
}
use go_lab_tacacs_mcp.Tacacs.Author.{AuthorRequest, decode_author_request, encode_author_request}
use go_lab_tacacs_mcp.Tacacs.Cursor.{
  check_body_cap, done, printable_ascii, require_printable, u8, u8len,
}
use go_lab_tacacs_mcp.Tacacs.Cursor.Laws.{bytes-append}

abbrev layout : AuthorRequest → Bytes
layout r =
    r.authen_method
    ∷ r.priv_lvl
    ∷ r.authen_type
    ∷ r.service
    ∷ length r.user
    ∷ length r.port
    ∷ length r.rem_addr
    ∷ length (lens_of r.args)
    ∷ (lens_of r.args ++ (r.user ++ (r.port ++ (r.rem_addr ++ payload_of r.args))))

record IsSendable (r : AuthorRequest) : Type 0 where
  user_fits : length r.user ≤ 255
  port_fits : length r.port ≤ 255
  rem_fits : length r.rem_addr ≤ 255
  port_text : printable_ascii r.port ≡ true
  rem_text : printable_ascii r.rem_addr ≡ true
  args_fit : length (lens_of r.args) ≤ 255
  args_sound : All IsArgument r.args

encode_inv :
    (r : AuthorRequest) (out : Bytes)
    → encode_author_request r ≡ ok out
    → IsSendable r × (out ≡ layout r)
unfolding encode_author_request require_printable u8len check_body_cap
encode_inv r out h = elim (Result-cases (encode_arg_list r.args)) [
  | inl ((ls, ps), e) ↦ ground (arith, e, encode_arg_list_inv r.args ls ps e, length-lens_of r.args)
  | inr (x, e) ↦ ground (arith, e)
]

decode-layout : (r : AuthorRequest) → IsSendable r → decode_author_request (layout r) ≡ ok r
unfolding decode_author_request u8 done require_printable
decode-layout r v = simp (
  read_arg_lens-append, v.args_fit, bytes-append, read_args-All, v.args_sound, v.port_text,
  v.rem_text,
)

-- Decoding what `Encode` wrote gives the REQUEST back, its arguments in their order.
pub decode-encode_author_request :
    (r : AuthorRequest) (out : Bytes)
    → encode_author_request r ≡ ok out
    → decode_author_request out ≡ ok r
decode-encode_author_request r out h = let (v, e) = encode_inv r out h in rw e (decode-layout r v)
