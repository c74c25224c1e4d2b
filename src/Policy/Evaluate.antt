-- ===== src/Policy/Evaluate.antt =====
-- Evaluation: internal/policy/evaluate.go, and the argument helpers of dictionary.go.
pub mod Decide
pub mod Safety
pub mod Steps
use go_lab_tacacs_mcp.Common.{
  Bool, List, Option, [], false, if◌then◌else◌, leb, length, ltb, map, none, not, some, take, true,
  ℕ, ◌&&◌, ◌++◌, ◌==◌, ◌∷◌,
}
use go_lab_tacacs_mcp.Common.Text.{Str, str_eq, text}
use go_lab_tacacs_mcp.Domain.AvPair.{AvPair}
use go_lab_tacacs_mcp.Policy.Compile.{
  CompiledCommand, CompiledGroup, CompiledRuleSet, CompiledService, CompiledUser, Engine,
  effective_groups, match, seen_in,
}
use go_lab_tacacs_mcp.Policy.Response.{Limits, deny_result, error_result, matched_result}
use go_lab_tacacs_mcp.Policy.Types.{
  PolicyResult, Request, RuleKind, Trace, TraceStep, command_kind, display_command, empty_trace,
  join_args, kind_string, service_kind, trace_avs,
}

unfoldable pub first_av : List AvPair → Str → Option Str
first_av [] name = none
first_av (p ∷ args) name = if str_eq p.name name then some p.value else first_av args name

unfoldable pub all_av : List AvPair → Str → List Str
all_av [] name = []
all_av (p ∷ args) name =
    let rest = all_av args name in if str_eq p.name name then p.value ∷ rest else rest

-- Go's zero string where the name is missing.
abbrev pub or_empty : Option Str → Str
or_empty none = []
or_empty (some s) = s

abbrev pub is_empty {ℓ} : {A : Type ℓ} → List A → Bool
is_empty xs = length xs == 0

-- `e.normalize(req)` with `extractFromAVs`. Where no `cmd` is present its value is the empty string.
unfoldable pub normalize : Request → Request
unfolding first_av all_av
normalize req = record req {
  service =
      if is_empty req.service
      then or_empty (first_av req.arguments (text "service"))
      else req.service;
  protocol =
      if is_empty req.protocol
      then or_empty (first_av req.arguments (text "protocol"))
      else req.protocol;
  cmd = if is_empty req.cmd then or_empty (first_av req.arguments (text "cmd")) else req.cmd;
  cmd_args = if is_empty req.cmd_args then all_av req.arguments (text "cmd-arg") else req.cmd_args;
}

-- A clock that returns the zero time checks no window.
unfoldable pub user_valid : {R : Type 0} → ℕ → CompiledUser R → Bool
user_valid now u =
    if now == 0
    then true
    else if elim u.valid_after [ none ↦ false | some t ↦ ltb now t ]
    then false
    else if elim u.valid_before [ none ↦ false | some t ↦ not (ltb now t) ]
    then false
    else true

unfoldable pub client_allowed : {R : Type 0} → CompiledUser R → Str → Bool
unfolding seen_in
client_allowed u client_id =
    if is_empty u.client_ids
    then true
    else if is_empty client_id
    then false
    else seen_in client_id u.client_ids

unfoldable pub match_service : CompiledService → Request → Bool × Str
match_service r req =
    if not (str_eq r.service req.service)
    then (false, text "service mismatch")
    else if elim r.protocol [
      | none ↦ false
      | some p ↦ not (is_empty p) && not (str_eq p req.protocol)
    ]
    then (false, text "protocol mismatch")
    else (true, text "matched")

unfoldable pub new_trace :
    {R : Type 0} → Engine R → RuleKind → Request → List (CompiledGroup R) → Trace
unfolding display_command trace_avs kind_string
new_trace e kind req groups =
    let display = display_command req.cmd req.cmd_args in
    record empty_trace {
      evaluator = kind_string kind;
      user_id = req.user_id;
      client_id = req.client_id;
      service = req.service;
      protocol = req.protocol;
      cmd = req.cmd;
      cmd_args = req.cmd_args;
      display_cmd =
          if ltb 0 e.limits.max_cmd_bytes && ltb e.limits.max_cmd_bytes (length display)
          then take e.limits.max_cmd_bytes display
          else display;
      request_arguments = trace_avs req.arguments;
      authen_method = req.authen_method;
      privilege = req.privilege;
      effective_group_ids = map (λ g. g.id) groups;
    }

-- `e.record(tr, step)`
unfoldable pub record_step : Limits → Trace → TraceStep → Trace
record_step lim tr step =
    if leb lim.max_trace_steps (length tr.steps)
    then tr
    else record tr { steps = tr.steps ++ (step ∷ []) }

-- A walk ends with a result, or goes on with the trace that it has grown.
pub data Walk : Type 0 where
  decided : PolicyResult → Walk
  undecided : Trace → Walk

unfoldable pub walk_services : Limits → Str → List CompiledService → Request → Trace → Walk
unfolding match_service record_step
walk_services lim source [] req tr = undecided tr
walk_services lim source (r ∷ rules) req tr =
    let (matched, reason) = match_service r req in
    let tr' = record_step lim tr (record {
      source = source;
      rule_id = r.id;
      kind = kind_string service_kind;
      matched = matched;
      reason = reason;
    }) in
    let rest = walk_services lim source rules req tr' in
    if matched then decided (matched_result tr' source r.id r.action r.reply lim) else rest

module _ {R : Type 0} (matches : R → Str → Bool) where
  unfoldable pub match_command : CompiledCommand R → Request → Bool × Str
  unfolding match join_args
  match_command r req =
      if not (match matches r.command req.cmd)
      then (false, text "command mismatch")
      else if not (match matches r.args (join_args req.cmd_args))
      then (false, text "arguments mismatch")
      else (true, text "matched")

  unfoldable pub walk_commands : Limits → Str → List (CompiledCommand R) → Request → Trace → Walk
  unfolding match_command record_step
  walk_commands lim source [] req tr = undecided tr
  walk_commands lim source (r ∷ rules) req tr =
      let (matched, reason) = match_command r req in
      let tr' = record_step lim tr (record {
        source = source;
        rule_id = r.id;
        kind = kind_string command_kind;
        matched = matched;
        reason = if matched && not (is_empty r.reason) then r.reason else reason;
      }) in
      let rest = walk_commands lim source rules req tr' in
      if matched then decided (matched_result tr' source r.id r.action [] lim) else rest

  unfoldable pub walk_rules : Limits → Str → CompiledRuleSet R → Request → RuleKind → Trace → Walk
  unfolding walk_services walk_commands
  walk_rules lim source rs req service_kind tr = walk_services lim source rs.services req tr
  walk_rules lim source rs req command_kind tr = walk_commands lim source rs.commands req tr

  -- The loop over the groups.
  unfoldable pub walk_groups : Limits → List (CompiledGroup R) → Request → RuleKind → Trace → Walk
  unfolding walk_rules
  walk_groups lim [] req kind tr = undecided tr
  walk_groups lim (g ∷ groups) req kind tr =
      elim (walk_rules lim (text "group:" ++ g.id) g.rules req kind tr) [
        | decided res ↦ decided res
        | undecided tr' ↦ walk_groups lim groups req kind tr'
      ]

  -- The three walks of `evaluate` and the denial behind them.
  unfoldable pub walk_all :
      Engine R → CompiledUser R → List (CompiledGroup R) → Request → RuleKind → Trace → PolicyResult
  unfolding walk_groups deny_result
  walk_all e u groups req kind tr = elim (walk_rules e.limits (text "user") u.rules req kind tr) [
    | decided res ↦ res
    | undecided tr₁ ↦ elim (walk_groups e.limits groups req kind tr₁) [
      | decided res ↦ res
      | undecided tr₂ ↦ elim (walk_rules e.limits (text "fallback") e.fallback req kind tr₂) [
        | decided res ↦ res
        | undecided tr₃ ↦
            deny_result tr₃ (text "no matching " ++ (kind_string kind ++ text " rule"))
      ]
    ]
  ]

  unfoldable pub evaluate : Engine R → Request → RuleKind → PolicyResult
  unfolding user_valid client_allowed effective_groups new_trace walk_all
  evaluate e req kind = elim (e.users req.user_id) [
    | none ↦ deny_result (new_trace e kind req []) (text "user not found")
    | some u ↦
        if not u.enabled
        then deny_result (new_trace e kind req []) (text "user disabled")
        else let groups = effective_groups e u req.client_id in
          let tr = new_trace e kind req groups in
          if not (user_valid e.now u)
          then deny_result tr (text "user not valid at evaluation time")
          else if not (client_allowed u req.client_id)
          then deny_result tr (text "user not permitted on client")
          else walk_all e u groups req kind tr
  ]

  -- The receiver may be nil.
  unfoldable pub authorize : Option (Engine R) → Request → PolicyResult
  authorize none req = error_result empty_trace (text "policy engine is not compiled")
  authorize (some e) req =
      if not (is_empty (normalize req).cmd)
      then evaluate e (normalize req) command_kind
      else evaluate e (normalize req) service_kind

  unfoldable pub evaluate_service : Option (Engine R) → Request → PolicyResult
  evaluate_service none req = error_result empty_trace (text "policy engine is not compiled")
  evaluate_service (some e) req =
      if not (is_empty (normalize req).cmd)
      then deny_result (new_trace e service_kind (normalize req) [])
          (text "service evaluator does not authorize commands")
      else evaluate e (normalize req) service_kind

  unfoldable pub evaluate_command : Option (Engine R) → Request → PolicyResult
  evaluate_command none req = error_result empty_trace (text "policy engine is not compiled")
  evaluate_command (some e) req =
      if is_empty (normalize req).cmd
      then deny_result (new_trace e command_kind (normalize req) [])
          (text "command evaluator does not decide session requests")
      else evaluate e (normalize req) command_kind
