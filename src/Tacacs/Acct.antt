-- ===== src/Tacacs/Acct.antt =====
-- The accounting bodies of internal/tacacs/codec/acct.go.
pub mod Request
pub mod Reply
use go_lab_tacacs_mcp.Common.{
  Bool, List, Option, Result, [], guard, if◌then◌else◌, length, none, not, ok, some, ℕ, ◌%◌, ◌++◌,
  ◌+◌, ◌==◌, ◌>>=◌, ◌>>◌, ◌||◌, ◌∷◌,
}
use go_lab_tacacs_mcp.Common.Bytes.{Bytes, put_u16}
use go_lab_tacacs_mcp.Tacacs.Args.{Argument, encode_arg_list, read_arg_lens, read_args}
use go_lab_tacacs_mcp.Tacacs.Constants.{
  acct_flag_start, acct_flag_stop, acct_flag_watchdog, acct_flag_watchdog_update,
  acct_status_follow,
}
use go_lab_tacacs_mcp.Tacacs.Cursor.{
  bytes, check_body_cap, done, remain, require_printable, u16, u16len, u8, u8len,
}
use go_lab_tacacs_mcp.Tacacs.Errors.{Error, acct_flags, follow, length_mismatch}

-- Go's `AcctRequest`.
pub record AcctRequest : Type 0 where
  pub flags : ℕ
  pub authen_method : ℕ
  pub priv_lvl : ℕ
  pub authen_type : ℕ
  pub service : ℕ
  pub user : Bytes
  pub port : Bytes
  pub rem_addr : Bytes
  pub args : List Argument

unfoldable pub use_arguments : AcctRequest → Bool
use_arguments r = not (r.flags == acct_flag_watchdog)

unfoldable pub valid_acct_flags : ℕ → Bool
valid_acct_flags flags =
    flags == acct_flag_start
    || (flags == acct_flag_stop
        || (flags == acct_flag_watchdog || flags == acct_flag_watchdog_update))

-- `ok (z, some acct_flags)` is Go's `z, ErrAcctFlags`: the decoded fields beside the error.
unfoldable pub decode_acct_request : Bytes → Result Error (AcctRequest × Option Error)
decode_acct_request p = do
  (flags, c) ← u8 p
  (authen_method, c) ← u8 c
  (priv_lvl, c) ← u8 c
  (authen_type, c) ← u8 c
  (service, c) ← u8 c
  (user_len, c) ← u8 c
  (port_len, c) ← u8 c
  (rem_len, c) ← u8 c
  (arg_cnt, c) ← u8 c
  (lens, c) ← read_arg_lens arg_cnt c
  (user, c) ← bytes user_len c
  (port, c) ← bytes port_len c
  (rem_addr, c) ← bytes rem_len c
  (args, c) ← read_args lens c
  done c
  require_printable port
  require_printable rem_addr
  ok (
    record {
      flags = flags;
      authen_method = authen_method;
      priv_lvl = priv_lvl;
      authen_type = authen_type;
      service = service;
      user = user;
      port = port;
      rem_addr = rem_addr;
      args = args;
    },
    if valid_acct_flags flags then none else some acct_flags,
  )

unfoldable pub encode_acct_request : AcctRequest → Result Error Bytes
encode_acct_request r = do
  guard (valid_acct_flags r.flags) acct_flags
  require_printable r.port
  require_printable r.rem_addr
  ul ← u8len r.user
  pl ← u8len r.port
  rl ← u8len r.rem_addr
  (lens, payload) ← encode_arg_list (if use_arguments r then r.args else [])
  check_body_cap (9 + length lens + ul + pl + rl + length payload)
  ok (
      r.flags
      ∷ r.authen_method
      ∷ r.priv_lvl
      ∷ r.authen_type
      ∷ r.service
      ∷ ul
      ∷ pl
      ∷ rl
      ∷ (length lens % 256)
      ∷ (lens ++ (r.user ++ (r.port ++ (r.rem_addr ++ payload)))))

-- Go's `AcctReply`.
pub record AcctReply : Type 0 where
  pub status : ℕ
  pub server_msg : Bytes
  pub data_field : Bytes

unfoldable pub decode_acct_reply : Bytes → Result Error AcctReply
decode_acct_reply p = do
  (sm_len, c) ← u16 p
  (data_len, c) ← u16 c
  (status, c) ← u8 c
  guard (remain c == sm_len + data_len) length_mismatch
  (server_msg, c) ← bytes sm_len c
  (data_field, c) ← bytes data_len c
  done c
  require_printable server_msg
  require_printable data_field
  ok (record { status = status; server_msg = server_msg; data_field = data_field })

unfoldable pub encode_acct_reply : AcctReply → Result Error Bytes
encode_acct_reply r = do
  guard (not (r.status == acct_status_follow)) follow
  require_printable r.server_msg
  require_printable r.data_field
  sl ← u16len r.server_msg
  dl ← u16len r.data_field
  check_body_cap (5 + sl + dl)
  ok (put_u16 sl ++ (put_u16 dl ++ (r.status ∷ (r.server_msg ++ r.data_field))))
