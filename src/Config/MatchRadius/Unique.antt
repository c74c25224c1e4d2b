-- ===== src/Config/MatchRadius/Unique.antt =====
-- A compiled RADIUS index always chooses one client.
use go_lab_tacacs_mcp.Common.{
  All, Bool, List, Option, [], err, ok, some, true, ℕ, ◌++◌, ◌∷◌, ◌≡◌, ◌⊎◌,
}
use go_lab_tacacs_mcp.Common.Bytes.{Bytes}
use go_lab_tacacs_mcp.Common.Text.{Str}
use go_lab_tacacs_mcp.Config.Match.{Client, MatchCandidate, not_found}
use go_lab_tacacs_mcp.Config.Match.Pick.{IsWorse}
use go_lab_tacacs_mcp.Config.MatchRadius.{
  RadiusIndex, RadiusIndexClient, hit_endpoint, match_radius, radius_candidates,
}
use go_lab_tacacs_mcp.Config.Network.{IndexCidr, contains, same_flag}
use go_lab_tacacs_mcp.Config.Network.Same.{IsIndexed, IsNetwork}

-- The CIDR texts of a client are in the form that `normalizeCIDRs` writes.
abbrev pub IsNormalized : (Str → Option (Bytes × ℕ)) → Client → Type 0
IsNormalized parse_cidr c =
    All (λ s. (p : Bytes × ℕ) → parse_cidr s ≡ some p → IsNetwork p) c.source_cidrs

abbrev IsSound : Str × RadiusIndexClient → Type 0
IsSound e = All IsIndexed e.1.cidrs

-- The network that gave the longest prefix.
abbrev HasCidr : ℕ → Bytes → Bool → List IndexCidr → Type 0
HasCidr k ip v4 [] = ⊥
HasCidr k ip v4 (x ∷ xs) =
    ((x.bits ≡ k) × (same_flag x.v4 v4 ≡ true) × (contains x.network ip ≡ true))
    ⊎ HasCidr k ip v4 xs

radius_candidate : RadiusIndexClient → ℕ → MatchCandidate
radius_candidate ic bits = record { id = ic.id; priority = ic.priority; prefix = some bits }

-- The two outcomes of a lookup of a valid address: no client of the index contains it, or one
-- candidate with its longest prefix is better than all others and is the answer.
abbrev pub IsDecided : RadiusIndex → Bytes → Bytes → Bool → Type 0
IsDecided idx ip canon v4 =
    ((radius_candidates canon v4 idx.by_id ≡ []) × (match_radius idx ip ≡ err not_found))
    ⊎ ((c : MatchCandidate) × (xs : List MatchCandidate) × (ys : List MatchCandidate)
        × (radius_candidates canon v4 idx.by_id ≡ xs ++ (c ∷ ys))
        × All (IsWorse c) (xs ++ ys)
        × (match_radius idx ip ≡ ok (c.id, hit_endpoint c.id idx.by_id)))
