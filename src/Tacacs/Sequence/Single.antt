-- ===== src/Tacacs/Sequence/Single.antt =====
-- Single-connect negotiation: `OnClientFirst`, `OnServerFirst` and `Negotiated`.
use go_lab_tacacs_mcp.Common.{arith, true, ℕ, ◌≡◌}
use go_lab_tacacs_mcp.Tacacs.Sequence.{
  negotiate_single_connect, negotiated, new_single_connect, on_client_first, on_server_first,
}

-- After the first request and the first reply, whatever either side sends later, the negotiated result
-- is that of the first pair of flags.
pub negotiated_first_pair :
    (client_flags server_flags later_client later_server : ℕ)
    → negotiated
        (on_server_first
          (on_client_first
            (on_server_first (on_client_first new_single_connect client_flags) server_flags).0
            later_client)
          later_server).0
      ≡ negotiate_single_connect true client_flags server_flags
unfolding negotiated on_server_first on_client_first negotiate_single_connect
negotiated_first_pair c s c' s' = ground arith
