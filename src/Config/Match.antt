-- ===== src/Config/Match.antt =====
-- Choosing a client for a peer: config/match.go. Go's map by id is an association list, and a map
-- that is read in any order is a list in any order. `net.ParseCIDR` and `net.ParseIP` (nil is
-- `none`) and `strings.EqualFold` are parameters. Paths of errors are left out; a warning is the
-- position of its client.
pub mod Pick
pub mod Clash
use go_lab_tacacs_mcp.Common.{
  Bool, List, Option, Result, [], err, false, guard, if◌then◌else◌, length, none, not, ok, some,
  true, ℕ, ◌&&◌, ◌++◌, ◌+◌, ◌==◌, ◌>>=◌, ◌>>◌, ◌||◌, ◌∷◌,
}
use go_lab_tacacs_mcp.Common.Bytes.{Bytes}
use go_lab_tacacs_mcp.Common.Int.{int_ltb, negsuc, pos, ℤ}
use go_lab_tacacs_mcp.Common.Text.{Str, str_eq, str_ltb}
use go_lab_tacacs_mcp.Config.Network.{
  IndexCidr, canonicalize_ip, index_cidr, ip_equal, longer, longest_containing, share_cidr,
}

pub data MatchMode : Type 0 where
  address_and_certificate certificate_only : MatchMode

pub data Transport : Type 0 where
  legacy tls : Transport

pub data Role : Type 0 where
  role_authentication role_authorization role_accounting role_access : Role
  role_admin role_aaa role_dynamic_authorization : Role

-- `is_radius` is `Protocol == ProtocolRADIUS && RADIUS != nil`.
pub record ClientEndpoint : Type 0 where
  pub id : Str
  pub is_radius : Bool
  pub transport : Str
  pub roles : List Role

-- What the indexes read of a `Client`.
pub record Client : Type 0 where
  pub id : Str
  pub priority : ℤ
  pub enabled : Bool
  pub source_cidrs : List Str
  pub transports : List Transport
  pub mode : MatchMode
  pub dns_sans : List Str
  pub ip_sans : List Str
  pub endpoints : List ClientEndpoint

pub data IndexError : Type 0 where
  no_transport bad_ip bad_cidr no_source bad_role bad_carrier not_found bad_peer : IndexError
  ambiguous : Str → Str → IndexError

-- A nil identity is `none`.
pub record CertIdentity : Type 0 where
  pub cert_dns : List Str
  pub cert_ips : List Bytes

pub record IndexClient : Type 0 where
  pub id : Str
  pub priority : ℤ
  pub mode : MatchMode
  pub transports : List Transport
  pub cidrs : List IndexCidr
  pub dns : List Str
  pub ips : List Bytes

pub record ClientIndex : Type 0 where
  pub by_id : List (Str × IndexClient)
  pub warnings : List ℕ

-- Go's `matchCandidate`; a prefix of -1 is `none`.
pub record MatchCandidate : Type 0 where
  pub id : Str
  pub priority : ℤ
  pub prefix : Option ℕ

unfoldable pub same_transport : Transport → Transport → Bool
same_transport legacy legacy = true
same_transport tls tls = true
same_transport legacy tls = false
same_transport tls legacy = false

unfoldable pub has_transport : List Transport → Transport → Bool
unfolding same_transport
has_transport [] want = false
has_transport (t ∷ ts) want = same_transport t want || has_transport ts want

abbrev pub is_cert_only : MatchMode → Bool
is_cert_only certificate_only = true
is_cert_only address_and_certificate = false

unfoldable pub int_eq : ℤ → ℤ → Bool
int_eq (pos a) (pos b) = a == b
int_eq (negsuc a) (negsuc b) = a == b
int_eq (pos a) (negsuc b) = false
int_eq (negsuc a) (pos b) = false

-- `m[id] = v`
unfoldable pub put_id {ℓ} : {V : Type ℓ} → Str → V → List (Str × V) → List (Str × V)
put_id id v [] = (id, v) ∷ []
put_id id v ((k, w) ∷ m) = if str_eq k id then (id, v) ∷ m else (k, w) ∷ put_id id v m

-- The ids in `ambiguousError` are sorted.
unfoldable pub ambiguous_error : Str → Str → IndexError
ambiguous_error a b = if str_ltb b a then ambiguous b a else ambiguous a b

-- `sort.Strings` on the ids, with what stands behind each.
unfoldable pub insert_by_id {ℓ} : {V : Type ℓ} → Str × V → List (Str × V) → List (Str × V)
insert_by_id e [] = e ∷ []
insert_by_id e (d ∷ ds) = if str_ltb d.0 e.0 then d ∷ insert_by_id e ds else e ∷ d ∷ ds

unfoldable pub sort_by_id {ℓ} : {V : Type ℓ} → List (Str × V) → List (Str × V)
unfolding insert_by_id
sort_by_id [] = []
sort_by_id (e ∷ es) = insert_by_id e (sort_by_id es)

-- The two loops of `checkAmbiguity`, over a test of a pair.
module _ {ℓ} {V : Type ℓ} (clash : V → V → Bool) where
  unfoldable pub clash_with : Str × V → List (Str × V) → Option IndexError
  clash_with a [] = none
  clash_with a (b ∷ bs) = if clash a.1 b.1 then some (ambiguous_error a.0 b.0) else clash_with a bs

  unfoldable pub first_clash : List (Str × V) → Option IndexError
  unfolding clash_with
  first_clash [] = none
  first_clash (a ∷ as_) = elim (clash_with a as_) [ some e ↦ some e | none ↦ first_clash as_ ]

-- `bestPrefix`, over all candidates; -1 is `none`.
unfoldable pub best_prefix : List MatchCandidate → Option ℕ
best_prefix [] = none
best_prefix (c ∷ cs) =
    let rest = best_prefix cs in elim c.prefix [ none ↦ rest | some bits ↦ longer rest bits ]

unfoldable pub same_prefix : Option ℕ → Option ℕ → Bool
same_prefix none best = true
same_prefix (some bits) none = false
same_prefix (some bits) (some best) = bits == best

-- `final`: no prefix, or the best one.
unfoldable pub final_of : Option ℕ → List MatchCandidate → List MatchCandidate
unfolding same_prefix
final_of best [] = []
final_of best (c ∷ cs) =
    if same_prefix c.prefix best then c ∷ final_of best cs else final_of best cs

unfoldable pub best_priority : ℤ → List MatchCandidate → ℤ
best_priority best [] = best
best_priority best (c ∷ cs) =
    best_priority (if int_ltb c.priority best then c.priority else best) cs

unfoldable pub winners_of : ℤ → List MatchCandidate → List (Str × Unit {0})
unfolding int_eq
winners_of best [] = []
winners_of best (c ∷ cs) =
    if int_eq c.priority best then (c.id, tt) ∷ winners_of best cs else winners_of best cs

-- The end of `Match`: the winners in the order of their ids.
abbrev pub sole_winner : List (Str × Unit {0}) → Result IndexError Str
sole_winner [] = err not_found
sole_winner (w ∷ []) = ok w.0
sole_winner (w ∷ v ∷ ws) = err (ambiguous_error w.0 v.0)

abbrev pub pick_final : List MatchCandidate → Result IndexError Str
pick_final [] = err not_found
pick_final (c ∷ cs) = sole_winner (sort_by_id (winners_of (best_priority c.priority cs) (c ∷ cs)))

-- `Match` from `var final` on.
unfoldable pub pick : List MatchCandidate → Result IndexError Str
unfolding best_prefix final_of best_priority winners_of sort_by_id
pick cand = pick_final (final_of (best_prefix cand) cand)

-- `sharedTransports`
unfoldable pub shared_from : List Transport → List Transport → List Transport → List Transport
unfolding has_transport
shared_from out [] b = out
shared_from out (t ∷ ts) b =
    shared_from (if has_transport b t && not (has_transport out t) then out ++ (t ∷ []) else out) ts
      b

unfoldable pub shared_transports : List Transport → List Transport → List Transport
unfolding shared_from
shared_transports a b = shared_from [] a b

unfoldable pub any_of {ℓ} : {A : Type ℓ} → (A → Bool) → List A → Bool
any_of test [] = false
any_of test (x ∷ xs) = test x || any_of test xs

-- The loops over pairs in `certSatisfied` and `certsMayOverlap`.
unfoldable pub any_pair {ℓ} : {A : Type ℓ} → (A → A → Bool) → List A → List A → Bool
any_pair test [] ys = false
any_pair test (x ∷ xs) ys = any_of (test x) ys || any_pair test xs ys

module _ (equal_fold : Str → Str → Bool) where
  unfoldable pub cert_satisfied : IndexClient → Option CertIdentity → Bool
  unfolding any_pair any_of ip_equal
  cert_satisfied ic cert = if length ic.dns == 0 && length ic.ips == 0 then true else elim cert [
    | none ↦ false
    | some c ↦ any_pair equal_fold ic.dns c.cert_dns || any_pair ip_equal ic.ips c.cert_ips
  ]

  unfoldable pub certs_may_overlap : IndexClient → IndexClient → Bool
  unfolding any_pair any_of ip_equal
  certs_may_overlap a b =
      if length a.dns == 0 && length a.ips == 0
      then true
      else if length b.dns == 0 && length b.ips == 0
      then true
      else any_pair equal_fold a.dns b.dns || any_pair ip_equal a.ips b.ips

  -- The loop of `pairAmbiguous` over the shared transports.
  unfoldable pub ambiguous_on : IndexClient → IndexClient → List Transport → Bool
  unfolding share_cidr certs_may_overlap same_transport
  ambiguous_on a b [] = false
  ambiguous_on a b (tr ∷ trs) =
      let rest = ambiguous_on a b trs in
      if same_transport tr tls && not (certs_may_overlap a b)
      then rest
      else if is_cert_only a.mode || is_cert_only b.mode
      then true
      else if share_cidr a.cidrs b.cidrs
      then true
      else rest

  unfoldable pub pair_ambiguous : IndexClient → IndexClient → Bool
  unfolding ambiguous_on shared_transports int_eq
  pair_ambiguous a b =
      if not (int_eq a.priority b.priority)
      then false
      else ambiguous_on a b (shared_transports a.transports b.transports)

  unfoldable pub check_ambiguity : List (Str × IndexClient) → Option IndexError
  check_ambiguity by_id = first_clash pair_ambiguous (sort_by_id by_id)

  -- The candidates that the loop of `Match` collects.
  unfoldable pub candidates :
      Transport
      → Bytes
      → Bool
      → Option CertIdentity
      → List (Str × IndexClient)
      → List MatchCandidate
  unfolding has_transport cert_satisfied longest_containing
  candidates tr ip v4 cert [] = []
  candidates tr ip v4 cert ((id, ic) ∷ m) =
      let rest = candidates tr ip v4 cert m in
      if not (has_transport ic.transports tr)
      then rest
      else if same_transport tr tls && not (cert_satisfied ic cert)
      then rest
      else if is_cert_only ic.mode
      then record { id = ic.id; priority = ic.priority; prefix = none } ∷ rest
      else elim (longest_containing ic.cidrs ip v4) [
        | none ↦ rest
        | some bits ↦ record { id = ic.id; priority = ic.priority; prefix = some bits } ∷ rest
      ]

  -- `Match`
  unfoldable pub match_client :
      ClientIndex → Transport → Bytes → Option CertIdentity → Result IndexError Str
  match_client idx tr ip cert = elim (canonicalize_ip ip) [
    | none ↦ err bad_peer
    | some (canon, v4) ↦ pick (candidates tr canon v4 cert idx.by_id)
  ]

module _ (parse_cidr : Str → Option (Bytes × ℕ)) where
  unfoldable pub index_cidrs : List Str → Result IndexError (List IndexCidr)
  unfolding index_cidr
  index_cidrs [] = ok []
  index_cidrs (s ∷ ss) = elim (parse_cidr s) [
    | none ↦ err bad_cidr
    | some p ↦ do cs ← index_cidrs ss; ok (index_cidr p ∷ cs)
  ]

  module _ (parse_ip : Str → Option Bytes) where
    unfoldable pub parse_stored_ip_san : List Str → Result IndexError (List Bytes)
    parse_stored_ip_san [] = ok []
    parse_stored_ip_san (s ∷ ss) = elim (parse_ip s) [
      | none ↦ err bad_ip
      | some ip ↦ do ips ← parse_stored_ip_san ss; ok (ip ∷ ips)
    ]

    -- With the client comes whether there is a warning.
    unfoldable pub index_from_client : Client → Result IndexError (IndexClient × Bool)
    unfolding parse_stored_ip_san index_cidrs
    index_from_client c = do
      guard (not (length c.transports == 0)) no_transport
      ips ← parse_stored_ip_san c.ip_sans
      cidrs ← index_cidrs c.source_cidrs
      ok (
        record {
          id = c.id;
          priority = c.priority;
          mode = c.mode;
          transports = c.transports;
          cidrs = cidrs;
          dns = c.dns_sans;
          ips = ips;
        },
        is_cert_only c.mode && not (length c.source_cidrs == 0),
      )

    -- The loop of `CompileClientIndex`; `i` is the position of the first client.
    unfoldable pub compile_loop : ℕ → ClientIndex → List Client → Result IndexError ClientIndex
    unfolding index_from_client put_id
    compile_loop i idx [] = ok idx
    compile_loop i idx (c ∷ cs) =
        if not c.enabled || length c.transports == 0
        then compile_loop (i + 1) idx cs
        else (index_from_client c >>= λ (ic, warn).
            compile_loop (i + 1)
              (record {
                by_id = put_id c.id ic idx.by_id;
                warnings = if warn then idx.warnings ++ (i ∷ []) else idx.warnings;
              })
              cs)

    unfoldable pub compile_client_index :
        (Str → Str → Bool) → List Client → Result IndexError ClientIndex
    unfolding compile_loop
    compile_client_index equal_fold clients = do
      idx ← compile_loop 0 (record { by_id = []; warnings = [] }) clients
      elim (check_ambiguity equal_fold idx.by_id) [ none ↦ ok idx | some e ↦ err e ]
