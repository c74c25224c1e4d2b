-- ===== src/Policy/Response/Bounds.antt =====
-- Replies of `buildReply`.
-- A pair that the limits let through.
use go_lab_tacacs_mcp.Common.{
  All, List, Result-cases, [], arith, inl, inr, length, ok, refl, ◌<◌, ◌∷◌, ◌≡◌, ◌≢◌, ◌≤◌,
}
use go_lab_tacacs_mcp.Domain.AvPair.{AvPair, encoded_len, validate}
use go_lab_tacacs_mcp.Policy.Response.{Limits, build_reply, copy_reply}
use go_lab_tacacs_mcp.Policy.Types.{Decision, deny}

abbrev pub FitsReply : Limits → AvPair → Type 0
FitsReply lim p = (validate p ≡ ok tt) × (0 < lim.max_arg_bytes → encoded_len p ≤ lim.max_arg_bytes)

copy_reply_inv :
    (reply out : List AvPair) (lim : Limits)
    → copy_reply reply lim ≡ ok out
    → (out ≡ reply) × All (FitsReply lim) reply
unfolding copy_reply
copy_reply_inv [] out lim h = (ground arith, tt)
copy_reply_inv (p ∷ reply) out lim h = elim (Result-cases (copy_reply reply lim)) [
  | inl (ps, e) ↦
      let (same, fit) = copy_reply_inv reply ps lim e in
      (ground (arith, e, same), ((ground (arith, e), λ k. ground (arith, e)), fit))
  | inr (x, e) ↦ absurd (ground (arith, e))
]

-- `buildReply` returns nothing for a denial, and otherwise the whole reply in its order, which then
-- has at most `maxArgs` pairs, each valid and of at most `maxArgBytes`, where these limits are on.
pub build_reply_inv :
    (action : Decision) (reply out : List AvPair) (lim : Limits)
    → build_reply action reply lim ≡ ok out
    → (action ≡ deny → out ≡ [])
      × (action ≢ deny
          → (out ≡ reply)
            × All (FitsReply lim) out
            × (0 < lim.max_args → length out ≤ lim.max_args))
unfolding build_reply
build_reply_inv deny reply out lim h = (λ e. ground arith, λ n. absurd (n refl))
build_reply_inv action [] out lim h =
    let none_left : out ≡ [] = ground arith in
    (λ e. none_left, λ n. rw none_left (refl, tt, λ k. omega arith))
build_reply_inv action (p ∷ reply) out lim h =
    let fits : (0 < lim.max_args → length (p ∷ reply) ≤ lim.max_args) = ground arith in
    let (same, fit) = copy_reply_inv (p ∷ reply) out lim (ground arith) in
    (λ e. ground arith, λ n. rw same (refl, fit, fits))
