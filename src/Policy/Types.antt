-- ===== src/Policy/Types.antt =====
-- Requests, results and traces: internal/policy/types.go, and the decision and status of
-- internal/domain/enums.go. Nil slices and empty ones are both `[]`, so the steps that only turn one
-- into the other are not written.
-- Go's `AuthorDecision`; `unset` is the empty string.
use go_lab_tacacs_mcp.Common.{
  Bool, List, Option, [], if◌then◌else◌, length, map, none, ℕ, ◌++◌, ◌==◌, ◌∷◌,
}
use go_lab_tacacs_mcp.Common.Text.{Str, text}
use go_lab_tacacs_mcp.Domain.AvPair.{AvPair}

pub data Decision : Type 0 where
  permit_add permit_replace deny unset : Decision

pub data AuthorStatus : Type 0 where
  pass_add pass_repl status_fail status_error status_follow : AuthorStatus

unfoldable pub decision_string : Decision → Str
decision_string permit_add = text "permit_add"
decision_string permit_replace = text "permit_replace"
decision_string deny = text "deny"
decision_string unset = []

unfoldable pub status_string : AuthorStatus → Str
status_string pass_add = text "pass_add"
status_string pass_repl = text "pass_repl"
status_string status_fail = text "fail"
status_string status_error = text "error"
status_string status_follow = text "follow"

unfoldable pub wire_status : Decision → AuthorStatus
wire_status permit_add = pass_add
wire_status permit_replace = pass_repl
wire_status deny = status_fail
wire_status unset = status_error

pub data RuleKind : Type 0 where
  service_kind command_kind : RuleKind

unfoldable pub kind_string : RuleKind → Str
kind_string service_kind = text "service"
kind_string command_kind = text "command"

-- Go's `Request`. The authentication method is its canonical name.
pub record Request : Type 0 where
  pub user_id : Str
  pub client_id : Str
  pub service : Str
  pub protocol : Str
  pub cmd : Str
  pub cmd_args : List Str
  pub arguments : List AvPair
  pub authen_method : Str
  pub privilege : ℕ
  pub port : Str
  pub remote_addr : Str

pub record TraceStep : Type 0 where
  pub source : Str
  pub rule_id : Str
  pub kind : Str
  pub matched : Bool
  pub reason : Str

pub record TraceWinner : Type 0 where
  pub source : Str
  pub rule_id : Str
  pub action : Str

pub record TraceAv : Type 0 where
  pub name : Str
  pub separator : Str
  pub value : Str

pub record Trace : Type 0 where
  pub evaluator : Str
  pub user_id : Str
  pub client_id : Str
  pub service : Str
  pub protocol : Str
  pub cmd : Str
  pub cmd_args : List Str
  pub display_cmd : Str
  pub request_arguments : List TraceAv
  pub authen_method : Str
  pub privilege : ℕ
  pub effective_group_ids : List Str
  pub steps : List TraceStep
  pub winner : Option TraceWinner
  pub decision : Str
  pub status : Str
  pub arguments : List TraceAv
  pub default_deny : Str
  pub error_text : Str

abbrev pub empty_trace : Trace
empty_trace = record {
  evaluator = [];
  user_id = [];
  client_id = [];
  service = [];
  protocol = [];
  cmd = [];
  cmd_args = [];
  display_cmd = [];
  request_arguments = [];
  authen_method = [];
  privilege = 0;
  effective_group_ids = [];
  steps = [];
  winner = none;
  decision = [];
  status = [];
  arguments = [];
  default_deny = [];
  error_text = [];
}

-- Go's `Result`.
pub record PolicyResult : Type 0 where
  pub decision : Decision
  pub status : AuthorStatus
  pub arguments : List AvPair
  pub trace : Trace

-- `strings.Join(args, " ")`
unfoldable pub join_args : List Str → Str
join_args [] = []
join_args (a ∷ []) = a
join_args (a ∷ b ∷ args) = a ++ (text " " ++ join_args (b ∷ args))

unfoldable pub display_command : Str → List Str → Str
unfolding join_args
display_command cmd args =
    if length cmd == 0
    then join_args args
    else if length args == 0
    then cmd
    else cmd ++ (text " " ++ join_args args)

unfoldable pub trace_avs : List AvPair → List TraceAv
trace_avs = map (λ p. record { name = p.name; separator = p.separator ∷ []; value = p.value })
