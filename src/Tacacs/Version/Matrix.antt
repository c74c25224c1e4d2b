-- ===== src/Tacacs/Version/Matrix.antt =====
-- What `ClassifyAuthenStart` accepts, against a table by rows.
-- A service of a session: those of RFC 8907 but NONE and ENABLE.
use go_lab_tacacs_mcp.Common.{
  Bool-cases, arith, false, inl, inr, not, some, ℕ, ◌==◌, ◌||◌, ◌↔◌, ◌≡◌, ◌⊎◌,
}
use go_lab_tacacs_mcp.Tacacs.Authen.{AuthenStart}
use go_lab_tacacs_mcp.Tacacs.Constants.{
  authen_action_chpass, authen_action_login, authen_service_enable, authen_service_fw_proxy,
  authen_service_login, authen_service_nasi, authen_service_none, authen_service_ppp,
  authen_service_pt, authen_service_rcmd, authen_service_x25, authen_type_ascii, authen_type_chap,
  authen_type_mschap, authen_type_mschapv2, authen_type_pap,
}
use go_lab_tacacs_mcp.Tacacs.Version.{
  Flow, accept, ascii_chpass, ascii_login, chap_login, classify_authen_start, enable,
  known_authen_service, login_flow, mschapv1, mschapv2, pap_login, wanted_minor,
}

abbrev pub IsSessionService : ℕ → Type 0
IsSessionService v =
    (v ≡ authen_service_login)
    ⊎ (v ≡ authen_service_ppp)
    ⊎ (v ≡ authen_service_pt)
    ⊎ (v ≡ authen_service_rcmd)
    ⊎ (v ≡ authen_service_x25)
    ⊎ (v ≡ authen_service_nasi)
    ⊎ (v ≡ authen_service_fw_proxy)

-- The columns of a login: its flow, its authentication type, its minor version.
abbrev pub IsLogin : Flow → ℕ → ℕ → Type 0
IsLogin f typ m =
    ((f ≡ ascii_login) × (typ ≡ authen_type_ascii) × (m ≡ 0))
    ⊎ ((f ≡ pap_login) × (typ ≡ authen_type_pap) × (m ≡ 1))
    ⊎ ((f ≡ chap_login) × (typ ≡ authen_type_chap) × (m ≡ 1))
    ⊎ ((f ≡ mschapv1) × (typ ≡ authen_type_mschap) × (m ≡ 1))
    ⊎ ((f ≡ mschapv2) × (typ ≡ authen_type_mschapv2) × (m ≡ 1))

-- The rows of the matrix: a flow with its action, type, minor version and service.
pub data Row : Flow → ℕ → AuthenStart → Type 0 where
  enable_row :
      {m : ℕ} {s : AuthenStart}
      → s.action ≡ authen_action_login
      → s.service ≡ authen_service_enable
      → m ≡ 0
      → Row enable m s
  login_row :
      {f : Flow} {m : ℕ} {s : AuthenStart}
      → s.action ≡ authen_action_login
      → IsLogin f s.typ m
      → IsSessionService s.service
      → Row f m s
  chpass_row :
      {m : ℕ} {s : AuthenStart}
      → s.action ≡ authen_action_chpass
      → s.typ ≡ authen_type_ascii
      → m ≡ 0
      → IsSessionService s.service
      → Row ascii_chpass m s

-- Every row is accepted, with its flow.
pub classify-Row :
    (f : Flow) (m : ℕ) (s : AuthenStart) → Row f m s → classify_authen_start m s ≡ (f, accept)
unfolding classify_authen_start
classify-Row f m s (enable_row a b c) = ground arith
classify-Row f m s (login_row a b d) = ground arith
classify-Row f m s (chpass_row a b c d) = ground arith

session_service :
    (v : ℕ)
    → (v == authen_service_enable) ≡ false
    → (v == authen_service_none || not (known_authen_service v)) ≡ false
    → IsSessionService v
unfolding known_authen_service
session_service v h k = ground arith

login_flow-IsLogin :
    (f : Flow) (typ m : ℕ) → login_flow typ ≡ some f → m ≡ wanted_minor f → IsLogin f typ m
unfolding login_flow
login_flow-IsLogin f typ m h k = elim (Bool-cases (typ == authen_type_ascii)) [
  | inl t ↦ ground arith
  | inr t ↦ ground arith
]

-- What is accepted is a row.
pub Row-classify :
    (f : Flow) (m : ℕ) (s : AuthenStart) → classify_authen_start m s ≡ (f, accept) → Row f m s
unfolding classify_authen_start
Row-classify f m s h = elim (Bool-cases (s.action == authen_action_chpass)) [
  | inl a ↦
      let e : f ≡ ascii_chpass = ground arith in
      rw e (
        chpass_row (ground arith) (ground arith) (ground arith)
          (session_service s.service (ground arith) (ground arith)))
  | inr a ↦ elim (Bool-cases (s.service == authen_service_enable)) [
    | inl b ↦
        let e : f ≡ enable = ground arith in
        rw e (enable_row (ground arith) (ground arith) (ground arith))
    | inr b ↦
        login_row (ground arith) (login_flow-IsLogin f s.typ m (ground arith) (ground arith))
          (session_service s.service b (ground arith))
  ]
]

-- A START is accepted with a flow exactly when it is a row of the table for that flow.
pub classify_iff :
    (f : Flow) (m : ℕ) (s : AuthenStart) → (classify_authen_start m s ≡ (f, accept)) ↔ Row f m s
classify_iff f m s = (Row-classify f m s, classify-Row f m s)
