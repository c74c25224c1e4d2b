-- ===== src/Tests/Wire.antt =====
-- The codec of internal/tacacs/codec at concrete inputs.
use go_lab_tacacs_mcp.Common.{
  All, [], arith, err, length, none, ok, refl, some, take, true, ℕ, ◌%◌, ◌++◌, ◌+◌, ◌↔◌, ◌∷◌, ◌≡◌,
  ◌≢◌, ◌≤◌, ◌⊎◌,
}
use go_lab_tacacs_mcp.Common.Bytes.{Bytes, IsByte}
use go_lab_tacacs_mcp.Common.Text.{text}
use go_lab_tacacs_mcp.Domain.AvPair.{AvPair, encode, parse_av_pair}
use go_lab_tacacs_mcp.Domain.AvPair.Laws.{parse_av_pair_iff}
use go_lab_tacacs_mcp.Tacacs.Acct.{
  AcctReply, AcctRequest, decode_acct_reply, decode_acct_request, encode_acct_reply,
  encode_acct_request, use_arguments, valid_acct_flags,
}
use go_lab_tacacs_mcp.Tacacs.Acct.Reply.{acct_reply_iff}
use go_lab_tacacs_mcp.Tacacs.Acct.Request.{HasArguments, decode-encode_acct_request}
use go_lab_tacacs_mcp.Tacacs.Args.{
  Argument, contains_arg_sep, encode_arg_list, encode_argument, parse_argument,
}
use go_lab_tacacs_mcp.Tacacs.Args.Laws.{parse_argument_iff}
use go_lab_tacacs_mcp.Tacacs.Authen.{
  AuthenContinue, AuthenReply, AuthenStart, decode_authen_reply, decode_authen_start,
  encode_authen_continue, encode_authen_reply, encode_authen_start,
}
use go_lab_tacacs_mcp.Tacacs.Authen.Reply.{decode-encode_reply, known_reply_flags}
use go_lab_tacacs_mcp.Tacacs.Authen.Start.{decode_start_iff}
use go_lab_tacacs_mcp.Tacacs.Author.{
  AuthorRequest, AuthorResponse, decode_author_request, decode_author_response,
  encode_author_request, encode_author_response,
}
use go_lab_tacacs_mcp.Tacacs.Author.Request.{decode-encode_author_request}
use go_lab_tacacs_mcp.Tacacs.Author.Response.{decode-encode_author_response}
use go_lab_tacacs_mcp.Tacacs.Chap.{
  ChapData, MschapData, decode_chap_data, effective_min, encode_chap_data,
}
use go_lab_tacacs_mcp.Tacacs.Chap.Laws.{decode_chap_iff}
use go_lab_tacacs_mcp.Tacacs.Constants.{
  acct_flag_watchdog, acct_status_follow, authen_status_follow, author_status_follow, header_size,
  max_body_bytes,
}
use go_lab_tacacs_mcp.Tacacs.Cursor.{
  check_body_cap, printable_ascii, require_printable, u16len, u8, u8len,
}
use go_lab_tacacs_mcp.Tacacs.Errors.{length_mismatch}
use go_lab_tacacs_mcp.Tacacs.Header.{
  Header, allocate_body, clamp_max_body, decode_header, decode_packet, encode_header,
}
use go_lab_tacacs_mcp.Tacacs.Header.Packet.{decode_packet-encode, decode_packet_exact}
use go_lab_tacacs_mcp.Tacacs.Obfuscate.{obfuscate}
use go_lab_tacacs_mcp.Tacacs.Obfuscate.Involution.{obfuscate_twice}
use go_lab_tacacs_mcp.Tacacs.Version.{accept, classify_authen_start, pap_login}
use go_lab_tacacs_mcp.Tacacs.Version.Matrix.{Row, classify_iff}

abbrev start_login : AuthenStart
start_login = record {
  action = 1;
  priv_lvl = 1;
  typ = 2;
  service = 1;
  user = text "bob";
  port = text "tty0";
  rem_addr = [];
  data_field = text "pw";
}

abbrev start_bytes : Bytes
start_bytes = 1 ∷ 1 ∷ 2 ∷ 1 ∷ 3 ∷ 4 ∷ 0 ∷ 2 ∷ text "bobtty0pw"

-- A byte behind the body is refused.
start_trailing : decode_authen_start (start_bytes ++ (0 ∷ [])) ≡ err length_mismatch
unfolding decode_authen_start u8
start_trailing = refl

decode_start_iff_example :
    (decode_authen_start start_bytes ≡ ok start_login)
    ↔ (encode_authen_start start_login ≡ ok start_bytes)
decode_start_iff_example = decode_start_iff start_bytes start_login (omega arith)

abbrev message : AuthenContinue
message = record { flags = 3; user_msg = text "hi"; data_field = 200 ∷ [] }

abbrev message_bytes : Bytes
message_bytes = 0 ∷ 2 ∷ 0 ∷ 1 ∷ 1 ∷ b'h' ∷ b'i' ∷ 200 ∷ []

message_encodes : encode_authen_continue message ≡ ok message_bytes
unfolding encode_authen_continue require_printable printable_ascii u16len check_body_cap
message_encodes = refl

abbrev reply_fail : AuthenReply
reply_fail = record { status = 2; flags = 0xff; server_msg = text "no"; data_field = [] }

abbrev reply_bytes : Bytes
reply_bytes = 2 ∷ 1 ∷ 0 ∷ 2 ∷ 0 ∷ 0 ∷ b'n' ∷ b'o' ∷ []

reply_encodes : encode_authen_reply reply_fail ≡ ok reply_bytes
unfolding encode_authen_reply require_printable printable_ascii u16len check_body_cap
reply_encodes = refl

decode-encode_reply_example :
    (2 ≢ authen_status_follow)
    × (decode_authen_reply reply_bytes ≡ ok (known_reply_flags reply_fail))
decode-encode_reply_example = decode-encode_reply reply_fail reply_bytes reply_encodes

abbrev show_arg : Argument
show_arg = record { name = text "cmd"; separator = b'='; value = text "show" }

abbrev star_arg : Argument
star_arg = record { name = text "pri"; separator = b'*'; value = [] }

parse_argument_iff_example :
    (parse_argument (text "cmd=show") ≡ ok (some show_arg))
    ↔ (encode_argument show_arg ≡ ok (text "cmd=show"))
parse_argument_iff_example = parse_argument_iff (text "cmd=show") show_arg (omega arith)

abbrev author : AuthorRequest
author = record {
  authen_method = 6;
  priv_lvl = 15;
  authen_type = 1;
  service = 1;
  user = text "bob";
  port = text "t";
  rem_addr = text "1";
  args = show_arg ∷ star_arg ∷ [];
}

abbrev author_bytes : Bytes
author_bytes = 6 ∷ 15 ∷ 1 ∷ 1 ∷ 3 ∷ 1 ∷ 1 ∷ 2 ∷ 8 ∷ 4 ∷ text "bobt1cmd=showpri*"

author_encodes : encode_author_request author ≡ ok author_bytes
unfolding encode_author_request require_printable printable_ascii u8len check_body_cap
    encode_arg_list encode_argument contains_arg_sep
author_encodes = refl

decode-encode_author_request_example : decode_author_request author_bytes ≡ ok author
decode-encode_author_request_example =
    decode-encode_author_request author author_bytes author_encodes

abbrev response : AuthorResponse
response = record { status = 1; server_msg = []; data_field = []; args = star_arg ∷ [] }

abbrev response_bytes : Bytes
response_bytes = 1 ∷ 1 ∷ 0 ∷ 0 ∷ 0 ∷ 0 ∷ 4 ∷ text "pri*"

response_encodes : encode_author_response response ≡ ok response_bytes
unfolding encode_author_response require_printable printable_ascii u16len check_body_cap
    encode_arg_list encode_argument contains_arg_sep
response_encodes = refl

decode-encode_author_response_example :
    (1 ≢ author_status_follow) × (decode_author_response response_bytes ≡ ok response)
decode-encode_author_response_example =
    decode-encode_author_response response response_bytes response_encodes

-- WATCHDOG without update: its argument is not sent.
abbrev watchdog : AcctRequest
watchdog = record {
  flags = 8;
  authen_method = 6;
  priv_lvl = 1;
  authen_type = 1;
  service = 1;
  user = text "b";
  port = [];
  rem_addr = [];
  args = show_arg ∷ [];
}

abbrev watchdog_bytes : Bytes
watchdog_bytes = 8 ∷ 6 ∷ 1 ∷ 1 ∷ 1 ∷ 1 ∷ 0 ∷ 0 ∷ 0 ∷ text "b"

watchdog_encodes : encode_acct_request watchdog ≡ ok watchdog_bytes
unfolding encode_acct_request valid_acct_flags use_arguments require_printable printable_ascii u8len
    check_body_cap encode_arg_list
watchdog_encodes = refl

decode-encode_acct_request_example :
    (HasArguments watchdog.flags × (decode_acct_request watchdog_bytes ≡ ok (watchdog, none)))
    ⊎ ((watchdog.flags ≡ acct_flag_watchdog)
        × (decode_acct_request watchdog_bytes ≡ ok (record watchdog { args = [] }, none)))
decode-encode_acct_request_example =
    decode-encode_acct_request watchdog watchdog_bytes watchdog_encodes

abbrev acct_ok : AcctReply
acct_ok = record { status = 1; server_msg = text "k"; data_field = [] }

acct_reply_iff_example :
    (encode_acct_reply acct_ok ≡ ok (0 ∷ 1 ∷ 0 ∷ 0 ∷ 1 ∷ text "k"))
    ↔ ((decode_acct_reply (0 ∷ 1 ∷ 0 ∷ 0 ∷ 1 ∷ text "k") ≡ ok acct_ok) × (1 ≢ acct_status_follow))
acct_reply_iff_example =
    acct_reply_iff (0 ∷ 1 ∷ 0 ∷ 0 ∷ 1 ∷ text "k") acct_ok (omega arith) (omega arith)

abbrev short_header : Header
short_header = record {
  version = 0xc0;
  typ = 1;
  seq_no = 1;
  flags = 4;
  session_id = 0x01020304;
  body_length = 2;
}

abbrev packet_bytes : Bytes
packet_bytes = 0xc0 ∷ 1 ∷ 1 ∷ 4 ∷ 1 ∷ 2 ∷ 3 ∷ 4 ∷ 0 ∷ 0 ∷ 0 ∷ 2 ∷ 7 ∷ 8 ∷ 9 ∷ []

packet_decodes : decode_packet packet_bytes 0 ≡ ok (short_header, 7 ∷ 8 ∷ [])
unfolding decode_packet decode_header allocate_body
packet_decodes = refl

decode_packet_exact_example :
    (length {A = ℕ} (7 ∷ 8 ∷ []) ≡ 2)
    × (2 ≤ clamp_max_body 0)
    × (clamp_max_body 0 ≤ max_body_bytes)
    × (encode_header short_header ++ (7 ∷ 8 ∷ []) ≡ take (header_size + 2) packet_bytes)
decode_packet_exact_example =
    decode_packet_exact packet_bytes 0 short_header (7 ∷ 8 ∷ []) (omega arith) packet_decodes

decode_packet-encode_example :
    decode_packet (encode_header short_header ++ ((7 ∷ 8 ∷ []) ++ (9 ∷ []))) 2
    ≡ ok (short_header, 7 ∷ 8 ∷ [])
unfolding clamp_max_body
decode_packet-encode_example =
    decode_packet-encode short_header (7 ∷ 8 ∷ []) (9 ∷ []) 2 (omega arith) refl (omega arith)

classify_iff_example :
    (classify_authen_start 1 start_login ≡ (pap_login, accept)) ↔ Row pap_login 1 start_login
classify_iff_example = classify_iff pap_login 1 start_login

abbrev chap : ChapData
chap = record { id = 9; challenge = text "12345678"; response = text "0123456789abcdef" }

decode_chap_iff_example :
    (decode_chap_data (9 ∷ text "123456780123456789abcdef") 0 ≡ ok chap)
    ↔ ((encode_chap_data chap ≡ ok (9 ∷ text "123456780123456789abcdef")) × (effective_min 0 ≤ 8))
decode_chap_iff_example = decode_chap_iff (9 ∷ text "123456780123456789abcdef") 0 chap

abbrev mschap : MschapData
mschap = record {
  id = 9;
  challenge = text "12345678";
  response = text "0123456789abcdef0123456789abcdef0123456789abcdefX";
}

abbrev mschap_bytes : Bytes
mschap_bytes = 9 ∷ text "123456780123456789abcdef0123456789abcdef0123456789abcdefX"

-- A hash of 16 bytes that keeps something of its input.
abbrev sixteen : ℕ → Bytes
sixteen b = b ∷ 1 ∷ 2 ∷ 3 ∷ 4 ∷ 5 ∷ 6 ∷ 7 ∷ 8 ∷ 9 ∷ 10 ∷ 11 ∷ 12 ∷ 13 ∷ 14 ∷ 15 ∷ []

abbrev toy_md5 : Bytes → Bytes
toy_md5 x = sixteen (length x % 256)

toy_length : (x : Bytes) → length (toy_md5 x) ≡ 16
toy_length x = refl

toy_bytes : (x : Bytes) → All IsByte (toy_md5 x)
toy_bytes x = omega arith

obfuscate_twice_example :
    (out : Bytes) × (obfuscate toy_md5 7 0xc0 1 (text "key") (text "hello, world 1234") ≡ some out)
    × (length out ≡ 17)
    × (obfuscate toy_md5 7 0xc0 1 (text "key") out ≡ some (text "hello, world 1234"))
obfuscate_twice_example =
    obfuscate_twice toy_md5 toy_length toy_bytes 7 0xc0 1 (text "key") (text "hello, world 1234")
      (omega arith)

abbrev show_pair : AvPair
show_pair = record { name = text "cmd"; separator = b'='; value = text "show" }

parse_av_pair_iff_example :
    (parse_av_pair (text "cmd=show") ≡ ok (some show_pair))
    ↔ (encode show_pair ≡ ok (text "cmd=show"))
parse_av_pair_iff_example = parse_av_pair_iff (text "cmd=show") show_pair

show_printable : printable_ascii (text "cmd=show") ≡ true
unfolding printable_ascii
show_printable = refl
