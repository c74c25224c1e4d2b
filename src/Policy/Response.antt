-- ===== src/Policy/Response.antt =====
-- Replies: internal/policy/response.go.
pub mod Bounds
use go_lab_tacacs_mcp.Common.{
  Bool, List, Result, [], err, false, guard, if◌then◌else◌, length, ltb, none, not, ok, some, true,
  ℕ, ◌&&◌, ◌==◌, ◌>>=◌, ◌>>◌, ◌||◌, ◌∷◌,
}
use go_lab_tacacs_mcp.Common.Text.{Str, text}
use go_lab_tacacs_mcp.Domain.AvPair.{AvPair, encoded_len, validate}
use go_lab_tacacs_mcp.Domain.Error.{DomainError, error_string, invalid_argument, new_error}
use go_lab_tacacs_mcp.Policy.Types.{
  Decision, PolicyResult, Trace, decision_string, deny, status_error, status_string, trace_avs,
  unset, wire_status,
}

-- Go's `limits`. A limit that is 0 or less is off: 0 stands for the negative ones too.
pub record Limits : Type 0 where
  pub max_args : ℕ
  pub max_arg_bytes : ℕ
  pub max_cmd_bytes : ℕ
  pub max_trace_steps : ℕ

abbrev pub no_limits : Limits
no_limits = record { max_args = 0; max_arg_bytes = 0; max_cmd_bytes = 0; max_trace_steps = 0 }

-- The loop of `buildReply`.
unfoldable pub copy_reply : List AvPair → Limits → Result DomainError (List AvPair)
copy_reply [] lim = ok []
copy_reply (p ∷ reply) lim = do
  validate p
  guard (not (ltb 0 lim.max_arg_bytes && ltb lim.max_arg_bytes (encoded_len p)))
      (new_error invalid_argument (text "authorization argument exceeds max_argument_bytes"))
  out ← copy_reply reply lim
  ok (p ∷ out)

abbrev pub is_deny : Decision → Bool
is_deny deny = true
is_deny _ = false

unfoldable pub build_reply : Decision → List AvPair → Limits → Result DomainError (List AvPair)
unfolding copy_reply
build_reply action reply lim =
    if is_deny action || length reply == 0
    then ok []
    else if ltb 0 lim.max_args && ltb lim.max_args (length reply)
    then err (
        new_error invalid_argument
          (text "authorization response exceeds max_authorization_arguments"))
    else copy_reply reply lim

unfoldable pub error_result : Trace → Str → PolicyResult
error_result tr reason = record {
  decision = unset;
  status = status_error;
  arguments = [];
  trace = record tr {
    default_deny = [];
    error_text = reason;
    winner = none;
    decision = [];
    status = status_string status_error;
    arguments = [];
  };
}

unfoldable pub finish : Trace → Decision → List AvPair → Limits → PolicyResult
unfolding build_reply error_result
finish tr action reply lim = elim (build_reply action reply lim) [
  | err e ↦ error_result tr (error_string e)
  | ok avs ↦ record {
    decision = action;
    status = wire_status action;
    arguments = avs;
    trace = record tr {
      decision = decision_string action;
      status = status_string (wire_status action);
      arguments = trace_avs avs;
    };
  }
]

unfoldable pub deny_result : Trace → Str → PolicyResult
unfolding finish
deny_result tr reason =
    finish (record tr { default_deny = reason; winner = none }) deny [] no_limits

unfoldable pub matched_result : Trace → Str → Str → Decision → List AvPair → Limits → PolicyResult
unfolding finish
matched_result tr source rule_id action reply lim =
    finish
      (record tr {
        winner =
            some (record { source = source; rule_id = rule_id; action = decision_string action });
        default_deny = [];
      })
      action reply lim
