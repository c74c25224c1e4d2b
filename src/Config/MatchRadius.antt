-- ===== src/Config/MatchRadius.antt =====
-- Choosing a RADIUS client by the source address: config/match_radius.go. `hits` is carried by its
-- candidates' ids: the endpoint is looked up where the winner is known.
pub mod Unique
use go_lab_tacacs_mcp.Common.{
  Bool, List, Option, Result, [], err, false, guard, if◌then◌else◌, length, none, not, ok, some,
  true, ℕ, ◌==◌, ◌>>=◌, ◌>>◌, ◌||◌, ◌∷◌,
}
use go_lab_tacacs_mcp.Common.Bytes.{Bytes}
use go_lab_tacacs_mcp.Common.Int.{ℤ}
use go_lab_tacacs_mcp.Common.Text.{Str, str_eq, text}
use go_lab_tacacs_mcp.Config.Match.{
  Client, ClientEndpoint, IndexError, MatchCandidate, Role, bad_carrier, bad_peer, bad_role,
  first_clash, index_cidrs, int_eq, no_source, pick, put_id, role_aaa, role_access, role_accounting,
  role_admin, role_authentication, role_authorization, role_dynamic_authorization, sort_by_id,
}
use go_lab_tacacs_mcp.Config.Network.{IndexCidr, canonicalize_ip, longest_containing, share_cidr}

pub record RadiusIndexClient : Type 0 where
  pub id : Str
  pub endpoint_id : Str
  pub priority : ℤ
  pub cidrs : List IndexCidr

-- Go's `RADIUSIndex`; its warnings are always empty.
pub record RadiusIndex : Type 0 where
  pub role : Role
  pub by_id : List (Str × RadiusIndexClient)

pub data Carrier : Type 0 where
  radius_udp other_carrier : Carrier

abbrev pub is_udp : Carrier → Bool
is_udp radius_udp = true
is_udp other_carrier = false

-- The roles that an index can have.
abbrev pub is_index_role : Role → Bool
is_index_role role_access = true
is_index_role role_accounting = true
is_index_role role_dynamic_authorization = true
is_index_role _ = false

unfoldable pub same_role : Role → Role → Bool
same_role role_authentication role_authentication = true
same_role role_authorization role_authorization = true
same_role role_accounting role_accounting = true
same_role role_access role_access = true
same_role role_admin role_admin = true
same_role role_aaa role_aaa = true
same_role role_dynamic_authorization role_dynamic_authorization = true
same_role _ _ = false

unfoldable pub has_role : List Role → Role → Bool
unfolding same_role
has_role [] role = false
has_role (r ∷ rs) role = same_role r role || has_role rs role

unfoldable pub endpoint_has_role : ClientEndpoint → Role → Bool
unfolding has_role
endpoint_has_role ep role = has_role ep.roles role

-- The loop of `radiusEndpoint`, for the wanted transport in lower case; nil is `none`.
unfoldable pub radius_endpoint : Str → List ClientEndpoint → Option ClientEndpoint
radius_endpoint want [] = none
radius_endpoint want (ep ∷ eps) =
    let rest = radius_endpoint want eps in
    if not ep.is_radius
    then rest
    else if length want == 0 || str_eq ep.transport want
    then some ep
    else rest

unfoldable pub radius_clash : RadiusIndexClient → RadiusIndexClient → Bool
unfolding share_cidr int_eq
radius_clash a b = if not (int_eq a.priority b.priority) then false else share_cidr a.cidrs b.cidrs

unfoldable pub check_radius_ambiguity : List (Str × RadiusIndexClient) → Option IndexError
check_radius_ambiguity by_id = first_clash radius_clash (sort_by_id by_id)

module _ (parse_cidr : Str → Option (Bytes × ℕ)) where
  unfoldable pub radius_index_from_client :
      Client → ClientEndpoint → Result IndexError RadiusIndexClient
  unfolding index_cidrs
  radius_index_from_client c ep = do
    guard (not (length c.source_cidrs == 0)) no_source
    cidrs ← index_cidrs parse_cidr c.source_cidrs
    ok (record { id = c.id; endpoint_id = ep.id; priority = c.priority; cidrs = cidrs })

  -- The UDP endpoint with the role, of an enabled client.
  unfoldable pub indexed_endpoint : Role → Client → Option ClientEndpoint
  unfolding radius_endpoint endpoint_has_role
  indexed_endpoint role c =
      if not c.enabled then none else elim (radius_endpoint (text "udp") c.endpoints) [
        | none ↦ none
        | some ep ↦ if endpoint_has_role ep role then some ep else none
      ]

  -- The loop of `CompileRADIUSIndex`.
  unfoldable pub compile_radius_loop :
      Role
      → List (Str × RadiusIndexClient)
      → List Client
      → Result IndexError (List (Str × RadiusIndexClient))
  unfolding indexed_endpoint
  compile_radius_loop role by_id [] = ok by_id
  compile_radius_loop role by_id (c ∷ cs) = elim (indexed_endpoint role c) [
    | none ↦ compile_radius_loop role by_id cs
    | some ep ↦
        (radius_index_from_client c ep >>= λ ic. compile_radius_loop role (put_id c.id ic by_id) cs)
  ]

  unfoldable pub compile_radius_index : List Client → Role → Carrier → Result IndexError RadiusIndex
  compile_radius_index clients role carrier = do
    guard (is_index_role role) bad_role
    guard (is_udp carrier) bad_carrier
    by_id ← compile_radius_loop role [] clients
    elim (check_radius_ambiguity by_id) [
      | none ↦ ok (record { role = role; by_id = by_id })
      | some e ↦ err e
    ]

-- The candidates that the loop of `Match` collects, and `hits` beside them.
unfoldable pub radius_candidates :
    Bytes → Bool → List (Str × RadiusIndexClient) → List MatchCandidate
unfolding longest_containing
radius_candidates ip v4 [] = []
radius_candidates ip v4 ((id, ic) ∷ m) =
    let rest = radius_candidates ip v4 m in
    elim (longest_containing ic.cidrs ip v4) [
      | none ↦ rest
      | some bits ↦ record { id = ic.id; priority = ic.priority; prefix = some bits } ∷ rest
    ]

unfoldable pub hit_endpoint : Str → List (Str × RadiusIndexClient) → Str
hit_endpoint id [] = []
hit_endpoint id ((k, ic) ∷ m) = if str_eq ic.id id then ic.endpoint_id else hit_endpoint id m

-- `Match` of a RADIUS index: the client and its endpoint.
unfoldable pub match_radius : RadiusIndex → Bytes → Result IndexError (Str × Str)
match_radius idx ip = elim (canonicalize_ip ip) [
  | none ↦ err bad_peer
  | some (canon, v4) ↦ do
    id ← pick (radius_candidates canon v4 idx.by_id)
    ok (id, hit_endpoint id idx.by_id)
]
