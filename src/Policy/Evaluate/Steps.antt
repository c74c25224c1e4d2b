-- ===== src/Policy/Evaluate/Steps.antt =====
-- The length of a trace.
use go_lab_tacacs_mcp.Common.{
  Bool, List, Option-cases, [], arith, if◌then◌else◌, inl, inr, length, length-append, not, refl,
  ◌&&◌, ◌++◌, ◌∷◌, ◌≡◌, ◌≤◌, ◌⊎◌,
}
use go_lab_tacacs_mcp.Common.Text.{Str, text}
use go_lab_tacacs_mcp.Domain.AvPair.{AvPair}
use go_lab_tacacs_mcp.Policy.Compile.{
  CompiledCommand, CompiledGroup, CompiledRuleSet, CompiledService, CompiledUser, Engine,
  effective_groups,
}
use go_lab_tacacs_mcp.Policy.Evaluate.{
  Walk, decided, evaluate, is_empty, match_command, match_service, new_trace, record_step,
  undecided, walk_all, walk_commands, walk_groups, walk_rules, walk_services,
}
use go_lab_tacacs_mcp.Policy.Response.{Limits, deny_result, error_result, finish, matched_result}
use go_lab_tacacs_mcp.Policy.Types.{
  Decision, PolicyResult, Request, RuleKind, Trace, TraceStep, command_kind, kind_string,
  service_kind,
}

steps-matched :
    (tr : Trace) (source rule_id : Str) (action : Decision) (reply : List AvPair) (lim : Limits)
    → (matched_result tr source rule_id action reply lim).trace.steps ≡ tr.steps
unfolding matched_result finish error_result
steps-matched tr source rule_id action reply lim = ground arith

steps-deny : (tr : Trace) (reason : Str) → (deny_result tr reason).trace.steps ≡ tr.steps
unfolding deny_result finish error_result
steps-deny tr reason = ground arith

abbrev trace_of : Walk → Trace
trace_of (decided res) = res.trace
trace_of (undecided tr) = tr

Walk-cases :
    (w : Walk) → ((res : PolicyResult) × (w ≡ decided res)) ⊎ ((tr : Trace) × (w ≡ undecided tr))
Walk-cases (decided res) = inl (res, refl)
Walk-cases (undecided tr) = inr (tr, refl)

abbrev IsShort : Limits → Trace → Type 0
IsShort lim tr = length tr.steps ≤ lim.max_trace_steps

record_step-IsShort :
    (lim : Limits) (tr : Trace) (step : TraceStep)
    → IsShort lim tr
    → IsShort lim (record_step lim tr step)
unfolding record_step
record_step-IsShort lim tr step h = ground (arith, length-append tr.steps (step ∷ []))

walk_services-IsShort :
    (lim : Limits) (source : Str) (rules : List CompiledService) (req : Request) (tr : Trace)
    → IsShort lim tr
    → IsShort lim (trace_of (walk_services lim source rules req tr))
unfolding walk_services
walk_services-IsShort lim source [] req tr h = h
walk_services-IsShort lim source (r ∷ rules) req tr h =
    let (m, reason) = match_service r req in
    let tr' = record_step lim tr (record {
      source = source;
      rule_id = r.id;
      kind = kind_string service_kind;
      matched = m;
      reason = reason;
    }) in
    ground (
      arith,
      steps-matched tr' source r.id r.action r.reply lim,
      record_step-IsShort lim tr
          (record {
            source = source;
            rule_id = r.id;
            kind = kind_string service_kind;
            matched = m;
            reason = reason;
          })
          h,
      walk_services-IsShort lim source rules req tr',
    )

module _ {R : Type 0} (matches : R → Str → Bool) where
  walk_commands-IsShort :
      (lim : Limits) (source : Str) (rules : List (CompiledCommand R)) (req : Request) (tr : Trace)
      → IsShort lim tr
      → IsShort lim (trace_of (walk_commands matches lim source rules req tr))
  unfolding walk_commands
  walk_commands-IsShort lim source [] req tr h = h
  walk_commands-IsShort lim source (r ∷ rules) req tr h =
      let (m, reason) = match_command matches r req in
      let step : TraceStep = record {
        source = source;
        rule_id = r.id;
        kind = kind_string command_kind;
        matched = m;
        reason = if m && not (is_empty r.reason) then r.reason else reason;
      } in
      ground (
        arith,
        steps-matched (record_step lim tr step) source r.id r.action [] lim,
        record_step-IsShort lim tr step h,
        walk_commands-IsShort lim source rules req (record_step lim tr step),
      )

  walk_rules-IsShort :
      (lim : Limits) (source : Str) (rs : CompiledRuleSet R) (req : Request) (kind : RuleKind)
      (tr : Trace)
      → IsShort lim tr
      → IsShort lim (trace_of (walk_rules matches lim source rs req kind tr))
  unfolding walk_rules
  walk_rules-IsShort lim source rs req service_kind tr h =
      walk_services-IsShort lim source rs.services req tr h
  walk_rules-IsShort lim source rs req command_kind tr h =
      walk_commands-IsShort lim source rs.commands req tr h

  walk_groups-IsShort :
      (lim : Limits) (groups : List (CompiledGroup R)) (req : Request) (kind : RuleKind)
      (tr : Trace)
      → IsShort lim tr
      → IsShort lim (trace_of (walk_groups matches lim groups req kind tr))
  unfolding walk_groups
  walk_groups-IsShort lim [] req kind tr h = h
  walk_groups-IsShort lim (g ∷ groups) req kind tr h =
      let w = walk_rules-IsShort lim (text "group:" ++ g.id) g.rules req kind tr h in
      elim (Walk-cases (walk_rules matches lim (text "group:" ++ g.id) g.rules req kind tr)) [
        | inl (res, e) ↦ ground (arith, e, w)
        | inr (tr', e) ↦ ground (arith, e, w, walk_groups-IsShort lim groups req kind tr')
      ]

  walk_all-IsShort :
      (e : Engine R) (u : CompiledUser R) (groups : List (CompiledGroup R)) (req : Request)
      (kind : RuleKind) (tr : Trace)
      → IsShort e.limits tr
      → IsShort e.limits (walk_all matches e u groups req kind tr).trace
  unfolding walk_all
  walk_all-IsShort e u groups req kind tr h =
      let w₁ = walk_rules-IsShort e.limits (text "user") u.rules req kind tr h in
      elim (Walk-cases (walk_rules matches e.limits (text "user") u.rules req kind tr)) [
        | inl (res, c) ↦ ground (arith, c, w₁)
        | inr (tr₁, c) ↦
            let w₂ = walk_groups-IsShort e.limits groups req kind tr₁ (ground (arith, c, w₁)) in
            elim (Walk-cases (walk_groups matches e.limits groups req kind tr₁)) [
              | inl (res, d) ↦ ground (arith, c, d, w₂)
              | inr (tr₂, d) ↦
                  let w₃ =
                    walk_rules-IsShort e.limits (text "fallback") e.fallback req kind tr₂
                      (ground (arith, d, w₂)) in
                  elim (Walk-cases
                    (walk_rules matches e.limits (text "fallback") e.fallback req kind tr₂)) [
                      | inl (res, f) ↦ ground (arith, c, d, f, w₃)
                      | inr (tr₃, f) ↦ ground (
                        arith,
                        c,
                        d,
                        f,
                        w₃,
                        steps-deny tr₃ (text "no matching " ++ (kind_string kind ++ text " rule")),
                      )
                    ]
            ]
      ]

  -- However many rules an evaluation walks, its trace holds at most `max_trace_steps` of them.
  pub steps-evaluate :
      (e : Engine R) (req : Request) (kind : RuleKind)
      → length (evaluate matches e req kind).trace.steps ≤ e.limits.max_trace_steps
  unfolding evaluate
  steps-evaluate e req kind = elim (Option-cases (e.users req.user_id)) [
    | inl n ↦ ground (arith, n, steps-deny (new_trace e kind req []) (text "user not found"))
    | inr (u, n) ↦
        let groups = effective_groups e u req.client_id in
        let tr = new_trace e kind req groups in
        ground (
          arith,
          n,
          steps-deny (new_trace e kind req []) (text "user disabled"),
          steps-deny tr (text "user not valid at evaluation time"),
          steps-deny tr (text "user not permitted on client"),
          walk_all-IsShort e u groups req kind tr,
        )
  ]
