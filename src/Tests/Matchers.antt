-- ===== src/Tests/Matchers.antt =====
-- The RADIUS matcher at a concrete input: two nested networks.
use go_lab_tacacs_mcp.Common.{
  List, Option, [], if◌then◌else◌, none, ok, refl, some, true, ℕ, ◌∷◌, ◌≡◌,
}
use go_lab_tacacs_mcp.Common.Bytes.{Bytes}
use go_lab_tacacs_mcp.Common.Int.{pos}
use go_lab_tacacs_mcp.Common.Text.{Str, str_eq, text}
use go_lab_tacacs_mcp.Config.Match.{
  Client, ClientEndpoint, address_and_certificate, pick, role_access,
}
use go_lab_tacacs_mcp.Config.MatchRadius.{
  RadiusIndex, RadiusIndexClient, hit_endpoint, match_radius, radius_candidates,
}
use go_lab_tacacs_mcp.Config.Network.{canonicalize_ip, contains, index_cidr}

abbrev wide : Bytes × ℕ
wide = (10 ∷ 0 ∷ 0 ∷ 0 ∷ [], 8)

abbrev narrow : Bytes × ℕ
narrow = (10 ∷ 1 ∷ 0 ∷ 0 ∷ [], 16)

-- `net.ParseCIDR` of this example.
abbrev lab_cidr : Str → Option (Bytes × ℕ)
lab_cidr s =
    if str_eq s (text "10.0.0.0/8")
    then some wide
    else if str_eq s (text "10.1.0.0/16")
    then some narrow
    else none

abbrev lab_endpoint : ClientEndpoint
lab_endpoint = record {
  id = text "nas";
  is_radius = true;
  transport = text "udp";
  roles = role_access ∷ [];
}

abbrev lab_client : Str → Str → Client
lab_client id cidr = record {
  id = id;
  priority = pos 10;
  enabled = true;
  source_cidrs = cidr ∷ [];
  transports = [];
  mode = address_and_certificate;
  dns_sans = [];
  ip_sans = [];
  endpoints = lab_endpoint ∷ [];
}

abbrev lab_clients : List Client
lab_clients =
    lab_client (text "a") (text "10.0.0.0/8") ∷ lab_client (text "b") (text "10.1.0.0/16") ∷ []

abbrev lab_entry : Str → Bytes × ℕ → Str × RadiusIndexClient
unfolding index_cidr
lab_entry id p =
    (id, record { id = id; endpoint_id = text "nas"; priority = pos 10; cidrs = index_cidr p ∷ [] })

abbrev lab_index : RadiusIndex
lab_index = record {
  role = role_access;
  by_id = lab_entry (text "a") wide ∷ lab_entry (text "b") narrow ∷ [];
}

longest_wins : match_radius lab_index (10 ∷ 1 ∷ 2 ∷ 3 ∷ []) ≡ ok (text "b", text "nas")
unfolding match_radius canonicalize_ip radius_candidates pick hit_endpoint str_eq contains lab_entry
longest_wins = refl
