-- ===== src/Tacacs/Constants.antt =====
-- Wire values of internal/tacacs/codec/constants.go and header.go.
use go_lab_tacacs_mcp.Common.{ℕ}

abbrev pub authen_action_login : ℕ
authen_action_login = 0x01

abbrev pub authen_action_chpass : ℕ
authen_action_chpass = 0x02

abbrev pub authen_action_send_pass : ℕ
authen_action_send_pass = 0x03

abbrev pub authen_action_send_auth : ℕ
authen_action_send_auth = 0x04

abbrev pub authen_type_ascii : ℕ
authen_type_ascii = 0x01

abbrev pub authen_type_pap : ℕ
authen_type_pap = 0x02

abbrev pub authen_type_chap : ℕ
authen_type_chap = 0x03

abbrev pub authen_type_mschap : ℕ
authen_type_mschap = 0x05

abbrev pub authen_type_mschapv2 : ℕ
authen_type_mschapv2 = 0x06

abbrev pub authen_service_none : ℕ
authen_service_none = 0x00

abbrev pub authen_service_login : ℕ
authen_service_login = 0x01

abbrev pub authen_service_enable : ℕ
authen_service_enable = 0x02

abbrev pub authen_service_ppp : ℕ
authen_service_ppp = 0x03

abbrev pub authen_service_pt : ℕ
authen_service_pt = 0x05

abbrev pub authen_service_rcmd : ℕ
authen_service_rcmd = 0x06

abbrev pub authen_service_x25 : ℕ
authen_service_x25 = 0x07

abbrev pub authen_service_nasi : ℕ
authen_service_nasi = 0x08

abbrev pub authen_service_fw_proxy : ℕ
authen_service_fw_proxy = 0x09

abbrev pub authen_status_fail : ℕ
authen_status_fail = 0x02

abbrev pub authen_status_pass : ℕ
authen_status_pass = 0x01

abbrev pub authen_status_restart : ℕ
authen_status_restart = 0x06

abbrev pub authen_status_error : ℕ
authen_status_error = 0x07

abbrev pub authen_status_follow : ℕ
authen_status_follow = 0x21

abbrev pub continue_flag_abort : ℕ
continue_flag_abort = 0x01

abbrev pub continue_flag_known_mask : ℕ
continue_flag_known_mask = 0x01

abbrev pub reply_flag_known_mask : ℕ
reply_flag_known_mask = 0x01

abbrev pub author_status_pass_add : ℕ
author_status_pass_add = 0x01

abbrev pub author_status_pass_repl : ℕ
author_status_pass_repl = 0x02

abbrev pub author_status_fail : ℕ
author_status_fail = 0x10

abbrev pub author_status_error : ℕ
author_status_error = 0x11

abbrev pub author_status_follow : ℕ
author_status_follow = 0x21

abbrev pub acct_flag_start : ℕ
acct_flag_start = 0x02

abbrev pub acct_flag_stop : ℕ
acct_flag_stop = 0x04

abbrev pub acct_flag_watchdog : ℕ
acct_flag_watchdog = 0x08

abbrev pub acct_flag_watchdog_update : ℕ
acct_flag_watchdog_update = 0x0a

abbrev pub acct_status_success : ℕ
acct_status_success = 0x01

abbrev pub acct_status_error : ℕ
acct_status_error = 0x02

abbrev pub acct_status_follow : ℕ
acct_status_follow = 0x21

abbrev pub default_chap_min_challenge : ℕ
default_chap_min_challenge = 8

abbrev pub min_chap_challenge : ℕ
min_chap_challenge = 5

abbrev pub mschapv1_challenge_len : ℕ
mschapv1_challenge_len = 8

abbrev pub mschapv2_challenge_len : ℕ
mschapv2_challenge_len = 16

abbrev pub mschap_response_len : ℕ
mschap_response_len = 49

abbrev pub chap_response_len : ℕ
chap_response_len = 16

abbrev pub default_max_continues : ℕ
default_max_continues = 32

abbrev pub arg_sep_mandatory : ℕ
arg_sep_mandatory = b'='

abbrev pub arg_sep_optional : ℕ
arg_sep_optional = b'*'

abbrev pub header_size : ℕ
header_size = 12

abbrev pub major_ver : ℕ
major_ver = 0x0c

abbrev pub type_authen : ℕ
type_authen = 0x01

abbrev pub type_author : ℕ
type_author = 0x02

abbrev pub type_acct : ℕ
type_acct = 0x03

abbrev pub flag_single_connect : ℕ
flag_single_connect = 0x04

abbrev pub flag_known_mask : ℕ
flag_known_mask = 0x05

abbrev pub max_body_bytes : ℕ
max_body_bytes = 65536
