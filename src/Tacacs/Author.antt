-- ===== src/Tacacs/Author.antt =====
-- The authorization bodies of internal/tacacs/codec/author.go.
pub mod Request
pub mod Response
use go_lab_tacacs_mcp.Common.{
  Bool, List, Result, guard, length, not, ok, ℕ, ◌%◌, ◌++◌, ◌+◌, ◌==◌, ◌>>=◌, ◌>>◌, ◌||◌, ◌∷◌,
}
use go_lab_tacacs_mcp.Common.Bytes.{Bytes, put_u16}
use go_lab_tacacs_mcp.Tacacs.Args.{Argument, encode_arg_list, read_arg_lens, read_args}
use go_lab_tacacs_mcp.Tacacs.Constants.{
  author_status_error, author_status_fail, author_status_follow, author_status_pass_add,
  author_status_pass_repl,
}
use go_lab_tacacs_mcp.Tacacs.Cursor.{
  bytes, check_body_cap, done, require_printable, u16, u16len, u8, u8len,
}
use go_lab_tacacs_mcp.Tacacs.Errors.{Error, follow}

-- Go's `AuthorRequest`.
pub record AuthorRequest : Type 0 where
  pub authen_method : ℕ
  pub priv_lvl : ℕ
  pub authen_type : ℕ
  pub service : ℕ
  pub user : Bytes
  pub port : Bytes
  pub rem_addr : Bytes
  pub args : List Argument

unfoldable pub decode_author_request : Bytes → Result Error AuthorRequest
decode_author_request p = do
  (authen_method, c) ← u8 p
  (priv_lvl, c) ← u8 c
  (authen_type, c) ← u8 c
  (service, c) ← u8 c
  (user_len, c) ← u8 c
  (port_len, c) ← u8 c
  (rem_len, c) ← u8 c
  (arg_cnt, c) ← u8 c
  (lens, c) ← read_arg_lens arg_cnt c
  (user, c) ← bytes user_len c
  (port, c) ← bytes port_len c
  (rem_addr, c) ← bytes rem_len c
  (args, c) ← read_args lens c
  done c
  require_printable port
  require_printable rem_addr
  ok (record {
    authen_method = authen_method;
    priv_lvl = priv_lvl;
    authen_type = authen_type;
    service = service;
    user = user;
    port = port;
    rem_addr = rem_addr;
    args = args;
  })

unfoldable pub encode_author_request : AuthorRequest → Result Error Bytes
encode_author_request r = do
  require_printable r.port
  require_printable r.rem_addr
  ul ← u8len r.user
  pl ← u8len r.port
  rl ← u8len r.rem_addr
  (lens, payload) ← encode_arg_list r.args
  check_body_cap (8 + length lens + ul + pl + rl + length payload)
  ok (
      r.authen_method
      ∷ r.priv_lvl
      ∷ r.authen_type
      ∷ r.service
      ∷ ul
      ∷ pl
      ∷ rl
      ∷ (length lens % 256)
      ∷ (lens ++ (r.user ++ (r.port ++ (r.rem_addr ++ payload)))))

-- Go's `AuthorResponse`.
pub record AuthorResponse : Type 0 where
  pub status : ℕ
  pub server_msg : Bytes
  pub data_field : Bytes
  pub args : List Argument

unfoldable pub decode_author_response : Bytes → Result Error AuthorResponse
decode_author_response p = do
  (status, c) ← u8 p
  (arg_cnt, c) ← u8 c
  (sm_len, c) ← u16 c
  (data_len, c) ← u16 c
  (lens, c) ← read_arg_lens arg_cnt c
  (server_msg, c) ← bytes sm_len c
  (data_field, c) ← bytes data_len c
  (args, c) ← read_args lens c
  done c
  require_printable server_msg
  require_printable data_field
  ok (record { status = status; server_msg = server_msg; data_field = data_field; args = args })

unfoldable pub encode_author_response : AuthorResponse → Result Error Bytes
encode_author_response r = do
  guard (not (r.status == author_status_follow)) follow
  require_printable r.server_msg
  require_printable r.data_field
  sl ← u16len r.server_msg
  dl ← u16len r.data_field
  (lens, payload) ← encode_arg_list r.args
  check_body_cap (6 + length lens + sl + dl + length payload)
  ok (
      r.status
      ∷ (length lens % 256)
      ∷ (put_u16 sl ++ (put_u16 dl ++ (lens ++ (r.server_msg ++ (r.data_field ++ payload))))))

unfoldable pub known_author_status : ℕ → Bool
known_author_status status =
    status == author_status_pass_add
    || (status == author_status_pass_repl
        || (status == author_status_fail
            || (status == author_status_error || status == author_status_follow)))
