-- ===== src/Policy/Evaluate/Safety.antt =====
-- Permits, and the split of `Authorize`.
use go_lab_tacacs_mcp.Common.{
  Bool, [], false, length, refl, some, suc-==-zero, true, ◌∷◌, ◌≡◌, ◌≢◌, ◌⊎◌,
}
use go_lab_tacacs_mcp.Common.Text.{Str, text}
use go_lab_tacacs_mcp.Domain.AvPair.{AvPair}
use go_lab_tacacs_mcp.Policy.Compile.{Engine}
use go_lab_tacacs_mcp.Policy.Evaluate.{
  authorize, evaluate_command, evaluate_service, is_empty, new_trace, normalize,
}
use go_lab_tacacs_mcp.Policy.Evaluate.Decide.{
  decide, denied, evaluate-decide, verdict, verdict-deny,
}
use go_lab_tacacs_mcp.Policy.Types.{
  Decision, Request, command_kind, permit_add, permit_replace, service_kind,
}

abbrev pub IsPermit : Decision → Type 0
IsPermit a = (a ≡ permit_add) ⊎ (a ≡ permit_replace)

nonempty : (s : Str) → s ≢ [] → is_empty s ≡ false
nonempty [] h = absurd (h refl)
nonempty (c ∷ s) h = suc-==-zero (length s)

module _ {R : Type 0} (matches : R → Str → Bool) where
  -- `Authorize` decides a request with a command by the command rules and any other by the service
  -- rules; the service evaluator denies every command, and the command evaluator every session.
  pub authorize_split :
      (e : Engine R) (req : Request)
      → ((normalize req).cmd ≢ []
          → (verdict (authorize matches (some e) req)
              ≡ decide matches e (normalize req) command_kind)
            × (verdict (evaluate_service matches (some e) req) ≡ denied))
        × ((normalize req).cmd ≡ []
            → (verdict (authorize matches (some e) req)
                ≡ decide matches e (normalize req) service_kind)
              × (verdict (evaluate_command matches (some e) req) ≡ denied))
  unfolding authorize evaluate_service evaluate_command
  authorize_split e req =
      let commands = evaluate-decide matches e (normalize req) command_kind in
      let services = evaluate-decide matches e (normalize req) service_kind in
      (
        λ n.
            let some_cmd : is_empty (normalize req).cmd ≡ false = nonempty (normalize req).cmd n in
            rw some_cmd (
              commands,
              verdict-deny (new_trace e service_kind (normalize req) [])
                  (text "service evaluator does not authorize commands"),
            ),
        λ n.
            let no_cmd : is_empty (normalize req).cmd ≡ true = rw n in
            rw no_cmd (
              services,
              verdict-deny (new_trace e command_kind (normalize req) [])
                  (text "command evaluator does not decide session requests"),
            ),
      )
