-- ===== src/Policy/Evaluate/Decide.antt =====
-- Decisions against a specification that has no trace: the first rule that matches, in the order
-- user, groups, fallback, and a denial where none does.
use mathlib.Core.Option
use go_lab_tacacs_mcp.Common.{
  Bool, List, Option, Option-cases, [], arith, err, if◌then◌else◌, inl, inr, none, not, ok, refl,
  some, ◌&&◌, ◌++◌, ◌∷◌, ◌≡◌, ◌⊎◌,
}
use go_lab_tacacs_mcp.Common.Text.{Str, text}
use go_lab_tacacs_mcp.Domain.AvPair.{AvPair}
use go_lab_tacacs_mcp.Policy.Compile.{
  CompiledCommand, CompiledGroup, CompiledRuleSet, CompiledService, CompiledUser, Engine,
  effective_groups,
}
use go_lab_tacacs_mcp.Policy.Evaluate.{
  Walk, client_allowed, decided, evaluate, is_empty, match_command, match_service, new_trace,
  record_step, undecided, user_valid, walk_all, walk_commands, walk_groups, walk_rules,
  walk_services,
}
use go_lab_tacacs_mcp.Policy.Response.{
  Limits, build_reply, deny_result, error_result, finish, matched_result,
}
use go_lab_tacacs_mcp.Policy.Types.{
  AuthorStatus, Decision, PolicyResult, Request, RuleKind, Trace, command_kind, deny, kind_string,
  service_kind, status_error, status_fail, unset, wire_status,
}

-- What a caller acts on: decision, status and arguments.
abbrev pub Verdict : Type 0
Verdict = Decision × AuthorStatus × List AvPair

unfoldable pub verdict : PolicyResult → Verdict
verdict res = (res.decision, res.status, res.arguments)

abbrev pub denied : Verdict
denied = (deny, status_fail, [])

-- A rule as the specification sees it: does it match, its action and its reply.
abbrev pub Candidate : Type 0
Candidate = Bool × Decision × List AvPair

unfoldable pub first_match : List Candidate → Option (Decision × List AvPair)
first_match [] = none
first_match ((matched, action, reply) ∷ cs) =
    if matched then some (action, reply) else first_match cs

-- A matching rule's verdict: its action with its reply, or an error where the reply breaks a limit.
unfoldable pub outcome : Limits → Decision × List AvPair → Verdict
outcome lim (action, reply) = elim (build_reply action reply lim) [
  | err e ↦ (unset, status_error, [])
  | ok avs ↦ (action, wire_status action, avs)
]

abbrev pub or_else {ℓ} : {A : Type ℓ} → Option A → Option A → Option A
or_else none y = y
or_else (some x) y = some x

first_match-append :
    (cs ds : List Candidate) → first_match (cs ++ ds) ≡ or_else (first_match cs) (first_match ds)
unfolding first_match
first_match-append [] ds = refl
first_match-append ((m, a, r) ∷ cs) ds = ground (arith, first_match-append cs ds)

verdict-matched :
    (tr : Trace) (source rule_id : Str) (action : Decision) (reply : List AvPair) (lim : Limits)
    → verdict (matched_result tr source rule_id action reply lim) ≡ outcome lim (action, reply)
unfolding verdict matched_result finish error_result outcome
verdict-matched tr source rule_id action reply lim = ground arith

pub verdict-deny : (tr : Trace) (reason : Str) → verdict (deny_result tr reason) ≡ denied
unfolding verdict deny_result finish build_reply wire_status
verdict-deny tr reason = refl

abbrev walk_verdict : Walk → Option Verdict
walk_verdict (decided res) = some (verdict res)
walk_verdict (undecided tr) = none

Walk-cases :
    (w : Walk) → ((res : PolicyResult) × (w ≡ decided res)) ⊎ ((tr : Trace) × (w ≡ undecided tr))
Walk-cases (decided res) = inl (res, refl)
Walk-cases (undecided tr) = inr (tr, refl)

service_candidates : List CompiledService → Request → List Candidate
service_candidates [] req = []
service_candidates (r ∷ rules) req =
    ((match_service r req).0, r.action, r.reply) ∷ service_candidates rules req

walk_services-first :
    (lim : Limits) (source : Str) (rules : List CompiledService) (req : Request) (tr : Trace)
    → walk_verdict (walk_services lim source rules req tr)
      ≡ Option.map (outcome lim) (first_match (service_candidates rules req))
unfolding walk_services service_candidates first_match
walk_services-first lim source [] req tr = refl
walk_services-first lim source (r ∷ rules) req tr =
    let (m, reason) = match_service r req in
    let tr' = record_step lim tr (record {
      source = source;
      rule_id = r.id;
      kind = kind_string service_kind;
      matched = m;
      reason = reason;
    }) in
    ground (
      arith,
      verdict-matched tr' source r.id r.action r.reply lim,
      walk_services-first lim source rules req tr',
    )

module _ {R : Type 0} (matches : R → Str → Bool) where
  command_candidates : List (CompiledCommand R) → Request → List Candidate
  command_candidates [] req = []
  command_candidates (r ∷ rules) req =
      ((match_command matches r req).0, r.action, []) ∷ command_candidates rules req

  walk_commands-first :
      (lim : Limits) (source : Str) (rules : List (CompiledCommand R)) (req : Request) (tr : Trace)
      → walk_verdict (walk_commands matches lim source rules req tr)
        ≡ Option.map (outcome lim) (first_match (command_candidates rules req))
  unfolding walk_commands command_candidates first_match
  walk_commands-first lim source [] req tr = refl
  walk_commands-first lim source (r ∷ rules) req tr =
      let (m, reason) = match_command matches r req in
      let tr' = record_step lim tr (record {
        source = source;
        rule_id = r.id;
        kind = kind_string command_kind;
        matched = m;
        reason = if m && not (is_empty r.reason) then r.reason else reason;
      }) in
      ground (
        arith,
        verdict-matched tr' source r.id r.action [] lim,
        walk_commands-first lim source rules req tr',
      )

  unfoldable pub candidates : RuleKind → CompiledRuleSet R → Request → List Candidate
  unfolding service_candidates command_candidates
  candidates service_kind rs req = service_candidates rs.services req
  candidates command_kind rs req = command_candidates rs.commands req

  walk_rules-first :
      (lim : Limits) (source : Str) (rs : CompiledRuleSet R) (req : Request) (kind : RuleKind)
      (tr : Trace)
      → walk_verdict (walk_rules matches lim source rs req kind tr)
        ≡ Option.map (outcome lim) (first_match (candidates kind rs req))
  unfolding walk_rules candidates
  walk_rules-first lim source rs req service_kind tr =
      walk_services-first lim source rs.services req tr
  walk_rules-first lim source rs req command_kind tr =
      walk_commands-first lim source rs.commands req tr

  unfoldable pub group_candidates : RuleKind → List (CompiledGroup R) → Request → List Candidate
  unfolding candidates
  group_candidates kind [] req = []
  group_candidates kind (g ∷ groups) req =
      candidates kind g.rules req ++ group_candidates kind groups req

  walk_groups-first :
      (lim : Limits) (groups : List (CompiledGroup R)) (req : Request) (kind : RuleKind)
      (tr : Trace)
      → walk_verdict (walk_groups matches lim groups req kind tr)
        ≡ Option.map (outcome lim) (first_match (group_candidates kind groups req))
  unfolding walk_groups group_candidates
  walk_groups-first lim [] req kind tr = unfold first_match in refl
  walk_groups-first lim (g ∷ groups) req kind tr =
      elim (Walk-cases (walk_rules matches lim (text "group:" ++ g.id) g.rules req kind tr)) [
        | inl (res, e) ↦ ground (
          arith,
          e,
          walk_rules-first lim (text "group:" ++ g.id) g.rules req kind tr,
          first_match-append (candidates kind g.rules req) (group_candidates kind groups req),
        )
        | inr (tr', e) ↦ ground (
          arith,
          e,
          walk_rules-first lim (text "group:" ++ g.id) g.rules req kind tr,
          first_match-append (candidates kind g.rules req) (group_candidates kind groups req),
          walk_groups-first lim groups req kind tr',
        )
      ]

  -- All rules of one kind that a user meets, in the order of their precedence.
  unfoldable pub chain : Engine R → CompiledUser R → RuleKind → Request → List Candidate
  unfolding group_candidates
  chain e u kind req =
      candidates kind u.rules req
      ++ (group_candidates kind (effective_groups e u req.client_id) req
          ++ candidates kind e.fallback req)

  unfoldable pub chain_verdict : Limits → Option (Decision × List AvPair) → Verdict
  unfolding outcome
  chain_verdict lim none = denied
  chain_verdict lim (some choice) = outcome lim choice

  -- The specification: no trace, no walk.
  unfoldable pub decide : Engine R → Request → RuleKind → Verdict
  unfolding chain chain_verdict
  decide e req kind = elim (e.users req.user_id) [
    | none ↦ denied
    | some u ↦
        if u.enabled && (user_valid e.now u && client_allowed u req.client_id)
        then chain_verdict e.limits (first_match (chain e u kind req))
        else denied
  ]

  walk_all-chain :
      (e : Engine R) (u : CompiledUser R) (req : Request) (kind : RuleKind) (tr : Trace)
      → verdict (walk_all matches e u (effective_groups e u req.client_id) req kind tr)
        ≡ chain_verdict e.limits (first_match (chain e u kind req))
  unfolding walk_all chain chain_verdict
  walk_all-chain e u req kind tr =
      let groups = effective_groups e u req.client_id in
      let own = candidates kind u.rules req in
      let theirs = group_candidates kind groups req in
      let last = candidates kind e.fallback req in
      let first = first_match-append own (theirs ++ last) in
      let second = first_match-append theirs last in
      let w₁ = walk_rules-first e.limits (text "user") u.rules req kind tr in
      elim (Walk-cases (walk_rules matches e.limits (text "user") u.rules req kind tr)) [
        | inl (res, c) ↦ ground (arith, c, w₁, first)
        | inr (tr₁, c) ↦
            let w₂ = walk_groups-first e.limits groups req kind tr₁ in
            elim (Walk-cases (walk_groups matches e.limits groups req kind tr₁)) [
              | inl (res, d) ↦ ground (arith, c, d, w₁, w₂, first, second)
              | inr (tr₂, d) ↦
                  let w₃ = walk_rules-first e.limits (text "fallback") e.fallback req kind tr₂ in
                  elim (Walk-cases
                    (walk_rules matches e.limits (text "fallback") e.fallback req kind tr₂)) [
                      | inl (res, f) ↦ ground (arith, c, d, f, w₁, w₂, w₃, first, second)
                      | inr (tr₃, f) ↦ ground (
                        arith,
                        c,
                        d,
                        f,
                        w₁,
                        w₂,
                        w₃,
                        first,
                        second,
                        verdict-deny tr₃
                            (text "no matching " ++ (kind_string kind ++ text " rule")),
                      )
                    ]
            ]
      ]

  -- The decision, status and arguments of an evaluation are those of the specification: of the
  -- first rule of the kind that matches among the user's, those of its groups in their order, and
  -- the fallback rules; a denial where none matches, and where the user is missing, disabled, out
  -- of its validity window or not permitted on the client.
  pub evaluate-decide :
      (e : Engine R) (req : Request) (kind : RuleKind)
      → verdict (evaluate matches e req kind) ≡ decide e req kind
  unfolding evaluate decide
  evaluate-decide e req kind = elim (Option-cases (e.users req.user_id)) [
    | inl n ↦ ground (arith, n, verdict-deny (new_trace e kind req []) (text "user not found"))
    | inr (u, n) ↦
        let groups = effective_groups e u req.client_id in
        let tr = new_trace e kind req groups in
        ground (
          arith,
          n,
          verdict-deny (new_trace e kind req []) (text "user disabled"),
          verdict-deny tr (text "user not valid at evaluation time"),
          verdict-deny tr (text "user not permitted on client"),
          walk_all-chain e u req kind tr,
        )
  ]
