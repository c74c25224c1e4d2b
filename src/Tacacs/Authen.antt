-- ===== src/Tacacs/Authen.antt =====
-- The authentication bodies of internal/tacacs/codec/authen.go. Each decoder threads the cursor `c`.
pub mod Start
pub mod Continue
pub mod Reply
use go_lab_tacacs_mcp.Common.{
  Result, bit_and, guard, if◌then◌else◌, not, ok, ℕ, ◌++◌, ◌+◌, ◌==◌, ◌>>=◌, ◌>>◌, ◌∷◌,
}
use go_lab_tacacs_mcp.Common.Bytes.{Bytes, put_u16}
use go_lab_tacacs_mcp.Tacacs.Constants.{
  authen_status_fail, authen_status_follow, continue_flag_known_mask, reply_flag_known_mask,
}
use go_lab_tacacs_mcp.Tacacs.Cursor.{
  bytes, check_body_cap, done, remain, require_printable, u16, u16len, u8, u8len,
}
use go_lab_tacacs_mcp.Tacacs.Errors.{Error, follow, length_mismatch}

-- Go's `AuthenStart`; its `Type` and `Data` are `typ` and `data_field`.
pub record AuthenStart : Type 0 where
  pub action : ℕ
  pub priv_lvl : ℕ
  pub typ : ℕ
  pub service : ℕ
  pub user : Bytes
  pub port : Bytes
  pub rem_addr : Bytes
  pub data_field : Bytes

unfoldable pub decode_authen_start : Bytes → Result Error AuthenStart
decode_authen_start p = do
  (action, c) ← u8 p
  (priv_lvl, c) ← u8 c
  (typ, c) ← u8 c
  (service, c) ← u8 c
  (user_len, c) ← u8 c
  (port_len, c) ← u8 c
  (rem_len, c) ← u8 c
  (data_len, c) ← u8 c
  guard (remain c == user_len + port_len + rem_len + data_len) length_mismatch
  (user, c) ← bytes user_len c
  (port, c) ← bytes port_len c
  (rem_addr, c) ← bytes rem_len c
  (data_field, c) ← bytes data_len c
  done c
  require_printable port
  require_printable rem_addr
  ok (record {
    action = action;
    priv_lvl = priv_lvl;
    typ = typ;
    service = service;
    user = user;
    port = port;
    rem_addr = rem_addr;
    data_field = data_field;
  })

unfoldable pub encode_authen_start : AuthenStart → Result Error Bytes
encode_authen_start s = do
  require_printable s.port
  require_printable s.rem_addr
  ul ← u8len s.user
  pl ← u8len s.port
  rl ← u8len s.rem_addr
  dl ← u8len s.data_field
  check_body_cap (8 + ul + pl + rl + dl)
  ok (
      s.action
      ∷ s.priv_lvl
      ∷ s.typ
      ∷ s.service
      ∷ ul
      ∷ pl
      ∷ rl
      ∷ dl
      ∷ (s.user ++ (s.port ++ (s.rem_addr ++ s.data_field))))

-- Go's `AuthenContinue`.
pub record AuthenContinue : Type 0 where
  pub flags : ℕ
  pub user_msg : Bytes
  pub data_field : Bytes

unfoldable pub decode_authen_continue : Bytes → Result Error AuthenContinue
decode_authen_continue p = do
  (um_len, c) ← u16 p
  (data_len, c) ← u16 c
  (flags, c) ← u8 c
  guard (remain c == um_len + data_len) length_mismatch
  (user_msg, c) ← bytes um_len c
  (data_field, c) ← bytes data_len c
  done c
  require_printable user_msg
  ok (record { flags = flags; user_msg = user_msg; data_field = data_field })

unfoldable pub encode_authen_continue : AuthenContinue → Result Error Bytes
encode_authen_continue m = do
  require_printable m.user_msg
  ul ← u16len m.user_msg
  dl ← u16len m.data_field
  check_body_cap (5 + ul + dl)
  ok (
      put_u16 ul
      ++ (put_u16 dl ++ (bit_and m.flags continue_flag_known_mask ∷ (m.user_msg ++ m.data_field))))

-- Go's `AuthenReply`.
pub record AuthenReply : Type 0 where
  pub status : ℕ
  pub flags : ℕ
  pub server_msg : Bytes
  pub data_field : Bytes

unfoldable pub decode_authen_reply : Bytes → Result Error AuthenReply
decode_authen_reply p = do
  (status, c) ← u8 p
  (flags, c) ← u8 c
  (sm_len, c) ← u16 c
  (data_len, c) ← u16 c
  guard (remain c == sm_len + data_len) length_mismatch
  (server_msg, c) ← bytes sm_len c
  (data_field, c) ← bytes data_len c
  done c
  require_printable server_msg
  ok (record { status = status; flags = flags; server_msg = server_msg; data_field = data_field })

unfoldable pub encode_authen_reply : AuthenReply → Result Error Bytes
encode_authen_reply r = do
  guard (not (r.status == authen_status_follow)) follow
  require_printable r.server_msg
  sl ← u16len r.server_msg
  dl ← u16len r.data_field
  check_body_cap (6 + sl + dl)
  ok (
      r.status
      ∷ bit_and r.flags reply_flag_known_mask
      ∷ (put_u16 sl ++ (put_u16 dl ++ (r.server_msg ++ r.data_field))))

-- A FOLLOW that arrives is read as FAIL.
unfoldable pub normalize_authen_status : ℕ → ℕ
normalize_authen_status status =
    if status == authen_status_follow then authen_status_fail else status
