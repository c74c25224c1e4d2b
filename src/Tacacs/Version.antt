-- ===== src/Tacacs/Version.antt =====
-- The version, action, type and service matrix: internal/tacacs/codec/version.go.
pub mod Matrix
use go_lab_tacacs_mcp.Common.{Bool, Option, if◌then◌else◌, ltb, none, not, some, ℕ, ◌==◌, ◌||◌}
use go_lab_tacacs_mcp.Tacacs.Authen.{AuthenStart}
use go_lab_tacacs_mcp.Tacacs.Constants.{
  authen_action_chpass, authen_action_login, authen_action_send_auth, authen_action_send_pass,
  authen_service_enable, authen_service_fw_proxy, authen_service_login, authen_service_nasi,
  authen_service_none, authen_service_ppp, authen_service_pt, authen_service_rcmd,
  authen_service_x25, authen_status_error, authen_status_fail, authen_type_ascii, authen_type_chap,
  authen_type_mschap, authen_type_mschapv2, authen_type_pap, type_acct, type_authen, type_author,
}
use go_lab_tacacs_mcp.Tacacs.Header.{minor}

pub data Flow : Type 0 where
  no_flow ascii_login pap_login chap_login mschapv1 mschapv2 enable ascii_chpass : Flow

pub data Disposition : Type 0 where
  accept fail error : Disposition

-- 0 is no status: the conversation goes on.
unfoldable pub authen_status : Disposition → ℕ
authen_status fail = authen_status_fail
authen_status error = authen_status_error
authen_status accept = 0

unfoldable pub known_authen_service : ℕ → Bool
known_authen_service service =
    service == authen_service_none
    || (service == authen_service_login
        || (service == authen_service_enable
            || (service == authen_service_ppp
                || (service == authen_service_pt
                    || (service == authen_service_rcmd
                        || (service == authen_service_x25
                            || (service == authen_service_nasi
                                || service == authen_service_fw_proxy)))))))

-- `none` is Go's `FlowNone, false`.
unfoldable pub login_flow : ℕ → Option Flow
login_flow typ =
    if typ == authen_type_ascii
    then some ascii_login
    else if typ == authen_type_pap
    then some pap_login
    else if typ == authen_type_chap
    then some chap_login
    else if typ == authen_type_mschap
    then some mschapv1
    else if typ == authen_type_mschapv2
    then some mschapv2
    else none

unfoldable pub classify_chpass : ℕ → AuthenStart → Flow × Disposition
classify_chpass minor s =
    if s.service == authen_service_enable
    then (no_flow, fail)
    else if not (s.typ == authen_type_ascii)
    then (no_flow, error)
    else if s.service == authen_service_none || not (known_authen_service s.service)
    then (ascii_chpass, fail)
    else if not (minor == 0)
    then (ascii_chpass, fail)
    else (ascii_chpass, accept)

abbrev pub wanted_minor : Flow → ℕ
wanted_minor ascii_login = 0
wanted_minor _ = 1

unfoldable pub classify_login : ℕ → AuthenStart → Flow × Disposition
classify_login minor s =
    if s.service == authen_service_enable
    then if not (minor == 0) then (enable, fail) else (enable, accept)
    else elim (login_flow s.typ) [
      | none ↦ (no_flow, error)
      | some flow ↦
          if s.service == authen_service_none || not (known_authen_service s.service)
          then (flow, fail)
          else if not (minor == wanted_minor flow)
          then (flow, fail)
          else (flow, accept)
    ]

unfoldable pub classify_authen_start : ℕ → AuthenStart → Flow × Disposition
unfolding classify_chpass classify_login login_flow known_authen_service
classify_authen_start minor s =
    if s.action == authen_action_send_auth || s.action == authen_action_send_pass
    then (no_flow, error)
    else if s.action == authen_action_chpass
    then classify_chpass minor s
    else if s.action == authen_action_login
    then classify_login minor s
    else (no_flow, error)

unfoldable pub classify_packet_minor : ℕ → ℕ → Disposition
classify_packet_minor typ minor =
    if typ == type_author || typ == type_acct
    then if not (minor == 0) then error else accept
    else if typ == type_authen
    then if ltb 1 minor then fail else accept
    else error

unfoldable pub classify_author_minor : ℕ → Disposition
classify_author_minor minor = if not (minor == 0) then error else accept

unfoldable pub classify_acct_minor : ℕ → Disposition
classify_acct_minor minor = if not (minor == 0) then error else accept
