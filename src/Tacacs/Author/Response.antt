-- ===== src/Tacacs/Author/Response.antt =====
-- `DecodeAuthorResponse` and `AuthorResponse.Encode`.
use go_lab_tacacs_mcp.Common.{
  All, Result-cases, arith, inl, inr, length, ok, true, ◌++◌, ◌<◌, ◌∷◌, ◌≡◌, ◌≢◌, ◌≤◌,
}
use go_lab_tacacs_mcp.Common.Bytes.{Bytes, put_u16}
use go_lab_tacacs_mcp.Tacacs.Args.{encode_arg_list}
use go_lab_tacacs_mcp.Tacacs.Args.Laws.{
  IsArgument, encode_arg_list_inv, length-lens_of, lens_of, payload_of, read_arg_lens-append,
  read_args-All,
}
use go_lab_tacacs_mcp.Tacacs.Author.{AuthorResponse, decode_author_response, encode_author_response}
use go_lab_tacacs_mcp.Tacacs.Constants.{author_status_follow}
use go_lab_tacacs_mcp.Tacacs.Cursor.{
  check_body_cap, done, printable_ascii, require_printable, u16len, u8,
}
use go_lab_tacacs_mcp.Tacacs.Cursor.Laws.{bytes-append, u16-put_u16}

abbrev layout : AuthorResponse → Bytes
layout r =
    r.status
    ∷ length (lens_of r.args)
    ∷ (put_u16 (length r.server_msg)
        ++ (put_u16 (length r.data_field)
            ++ (lens_of r.args ++ (r.server_msg ++ (r.data_field ++ payload_of r.args)))))

record IsSendable (r : AuthorResponse) : Type 0 where
  msg_fits : length r.server_msg < 65536
  data_fits : length r.data_field < 65536
  msg_text : printable_ascii r.server_msg ≡ true
  data_text : printable_ascii r.data_field ≡ true
  args_fit : length (lens_of r.args) ≤ 255
  args_sound : All IsArgument r.args
  no_follow : r.status ≢ author_status_follow

encode_inv :
    (r : AuthorResponse) (out : Bytes)
    → encode_author_response r ≡ ok out
    → IsSendable r × (out ≡ layout r)
unfolding encode_author_response require_printable u16len check_body_cap
encode_inv r out h = elim (Result-cases (encode_arg_list r.args)) [
  | inl ((ls, ps), e) ↦ ground (arith, e, encode_arg_list_inv r.args ls ps e, length-lens_of r.args)
  | inr (x, e) ↦ ground (arith, e)
]

decode-layout : (r : AuthorResponse) → IsSendable r → decode_author_response (layout r) ≡ ok r
unfolding decode_author_response u8 done require_printable
decode-layout r v = simp (
  u16-put_u16, v.msg_fits, v.data_fits, read_arg_lens-append, v.args_fit, bytes-append,
  read_args-All, v.args_sound, v.msg_text, v.data_text,
)

-- `Encode` never writes FOLLOW, and decoding what it wrote gives the RESPONSE back, its arguments
-- in their order.
pub decode-encode_author_response :
    (r : AuthorResponse) (out : Bytes)
    → encode_author_response r ≡ ok out
    → (r.status ≢ author_status_follow) × (decode_author_response out ≡ ok r)
decode-encode_author_response r out h =
    let (v, e) = encode_inv r out h in (v.no_follow, rw e (decode-layout r v))
