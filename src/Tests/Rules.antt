-- ===== src/Tests/Rules.antt =====
-- A policy of two users and two groups. A regular expression of this example is a prefix.
use go_lab_tacacs_mcp.Common.{
  All, Bool, List, Option, [], false, if◌then◌else◌, length, none, ok, refl, some, true, ◌<◌, ◌==◌,
  ◌↔◌, ◌∷◌, ◌≡◌, ◌≢◌, ◌≤◌,
}
use go_lab_tacacs_mcp.Common.Int.{negsuc, pos, ℤ}
use go_lab_tacacs_mcp.Common.Text.{Str, text}
use go_lab_tacacs_mcp.Domain.AvPair.{contains_separator, encoded_len, validate}
use go_lab_tacacs_mcp.Policy.Compile.{
  CompiledCommand, CompiledGroup, CompiledRuleSet, CompiledService, CompiledUser, Engine,
  effective_groups,
}
use go_lab_tacacs_mcp.Policy.Compile.Groups.{
  IsAsked, IsIdSet, Occurs, Selects, effective_groups_order,
}
use go_lab_tacacs_mcp.Policy.Compile.Sorted.{InOrder}
use go_lab_tacacs_mcp.Policy.Evaluate.{
  authorize, evaluate, evaluate_command, evaluate_service, normalize,
}
use go_lab_tacacs_mcp.Policy.Evaluate.Decide.{decide, denied, evaluate-decide, verdict}
use go_lab_tacacs_mcp.Policy.Evaluate.Safety.{authorize_split}
use go_lab_tacacs_mcp.Policy.Response.{Limits, build_reply}
use go_lab_tacacs_mcp.Policy.Response.Bounds.{FitsReply, build_reply_inv}
use go_lab_tacacs_mcp.Policy.Types.{
  Request, command_kind, deny, permit_add, permit_replace, service_kind,
}
use mathlib.Core.List.{Perm}

abbrev prefix_of : Str → Str → Bool
prefix_of [] s = true
prefix_of (x ∷ p) [] = false
prefix_of (x ∷ p) (y ∷ s) = if x == y then prefix_of p s else false

abbrev no_rules : CompiledRuleSet Str
no_rules = record { services = []; commands = [] }

abbrev show_only : CompiledCommand Str
show_only = record {
  id = text "show";
  priority = pos 1;
  action = permit_add;
  command = record { exact = []; pattern = some (text "sh") };
  args = record { exact = []; pattern = some [] };
  reason = [];
}

abbrev shell : CompiledService
shell = record {
  id = text "services[0]";
  service = text "shell";
  protocol = none;
  action = permit_replace;
  reply = record { name = text "priv-lvl"; separator = b'='; value = text "15" } ∷ [];
}

abbrev bob : CompiledUser Str
bob = record {
  id = text "bob";
  enabled = true;
  group_ids = text "ops" ∷ text "lab" ∷ text "ops" ∷ [];
  rules = no_rules;
  client_ids = [];
  valid_after = some 10;
  valid_before = none;
}

abbrev group_named : Str → ℤ → CompiledRuleSet Str → CompiledGroup Str
group_named id priority rules = record {
  id = id;
  enabled = true;
  priority = priority;
  rules = rules;
}

abbrev users : Str → Option (CompiledUser Str)
users id = if prefix_of id (text "bob") then some bob else none

abbrev groups : Str → Option (CompiledGroup Str)
groups id =
    if prefix_of id (text "ops")
    then some
        (group_named (text "ops") (pos 5) (record { services = []; commands = show_only ∷ [] }))
    else some (group_named id (negsuc 0) (record { services = shell ∷ []; commands = [] }))

abbrev engine : Engine Str
engine = record {
  users = users;
  groups = groups;
  clients = λ id. none;
  fallback = no_rules;
  limits = record { max_args = 1; max_arg_bytes = 20; max_cmd_bytes = 10; max_trace_steps = 1 };
  now = 11;
}

abbrev show_run : Request
show_run = record {
  user_id = text "bob";
  client_id = [];
  service = text "shell";
  protocol = [];
  cmd = text "show";
  cmd_args = text "run" ∷ [];
  arguments = [];
  authen_method = text "tacacs";
  privilege = 15;
  port = [];
  remote_addr = [];
}

evaluate-decide_example :
    verdict (evaluate prefix_of engine show_run command_kind)
    ≡ decide prefix_of engine show_run command_kind
evaluate-decide_example = evaluate-decide prefix_of engine show_run command_kind

authorize_split_example :
    ((normalize show_run).cmd ≢ []
      → (verdict (authorize prefix_of (some engine) show_run)
          ≡ decide prefix_of engine (normalize show_run) command_kind)
        × (verdict (evaluate_service prefix_of (some engine) show_run) ≡ denied))
    × ((normalize show_run).cmd ≡ []
        → (verdict (authorize prefix_of (some engine) show_run)
            ≡ decide prefix_of engine (normalize show_run) service_kind)
          × (verdict (evaluate_command prefix_of (some engine) show_run) ≡ denied))
authorize_split_example = authorize_split prefix_of engine show_run

effective_groups_order_example :
    (ids : List Str) × (gs : List (CompiledGroup Str)) × IsIdSet ids
    × ((id : Str) → Occurs id ids ↔ ((id ≢ []) × IsAsked engine bob [] id))
    × Selects engine ids gs
    × Perm (effective_groups engine bob []) gs
    × InOrder (effective_groups engine bob [])
effective_groups_order_example = effective_groups_order engine bob []

abbrev lim_one : Limits
lim_one = engine.limits

reply_built : build_reply permit_add shell.reply lim_one ≡ ok shell.reply
unfolding build_reply validate encoded_len contains_separator
reply_built = refl

build_reply_inv_example :
    (permit_add ≡ deny → shell.reply ≡ [])
    × (permit_add ≢ deny
        → (shell.reply ≡ shell.reply)
          × All (FitsReply lim_one) shell.reply
          × (0 < 1 → length shell.reply ≤ 1))
build_reply_inv_example = build_reply_inv permit_add shell.reply shell.reply lim_one reply_built
