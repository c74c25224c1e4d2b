-- ===== src/Radius/Challenges.antt =====
-- The store of Access-Challenge States: internal/radius/runtime/challenge_store.go. Go's map is an
-- association list. A method holds the lock from its start to its end, so it is one step from a
-- store to a store, with the reading of the clock as an argument; the receiver is not nil. SHA-256
-- is a parameter. The hook and the wiping of buffers that are dropped are left out.
pub mod Consume
use go_lab_tacacs_mcp.Common.{
  Bool, List, Option, [], false, if◌then◌else◌, leb, length, ltb, none, not, some, true, ℕ, ◌%◌,
  ◌&&◌, ◌*◌, ◌++◌, ◌+◌, ◌-◌, ◌==◌, ◌^◌, ◌||◌, ◌∷◌,
}
use go_lab_tacacs_mcp.Common.Text.{Str, str_eq}
use go_lab_tacacs_mcp.Radius.Attribute.{RawSet, wire_size}
use go_lab_tacacs_mcp.Radius.Crypto.{zeros}

-- `unknown_kind` is any other byte.
pub data BindKind : Type 0 where
  bind_udp_ip bind_tls_cert unknown_kind : BindKind

-- An address that is not valid is `none`.
pub record ChallengeBind : Type 0 where
  pub kind : BindKind
  pub source_ip : Option Str
  pub cert_fp : Str

pub record ChallengeIssue : Type 0 where
  pub state : Str
  pub endpoint_id : Str
  pub client_id : Str
  pub bind : ChallengeBind
  pub user_id : Str
  pub method : Str
  pub eap_id : ℕ
  pub eap_type : ℕ
  pub step : Str
  pub reply_attributes : RawSet
  pub md5_challenge : Str
  pub tunnel_id : Str
  pub revision : ℕ

-- Go's `challengeEntry`; `ChallengeRecord` has the same fields without `bytes`.
pub record ChallengeEntry : Type 0 where
  pub endpoint_id : Str
  pub client_id : Str
  pub bind : ChallengeBind
  pub user_id : Str
  pub method : Str
  pub eap_id : ℕ
  pub eap_type : ℕ
  pub step : Str
  pub reply : RawSet
  pub md5 : Str
  pub tunnel_id : Str
  pub expires : ℕ
  pub revision : ℕ
  pub bytes : ℕ

pub data IssueResult : Type 0 where
  issue_ok issue_invalid issue_exists issue_saturated : IssueResult

-- With `consume_ok` comes the record.
pub data ConsumeResult : Type 0 where
  consume_ok : ChallengeEntry → ConsumeResult
  consume_unknown consume_expired consume_binding : ConsumeResult

pub record ChallengeStore : Type 0 where
  pub challenges : List (Str × ChallengeEntry)
  pub max_entries : ℕ
  pub max_bytes : ℕ
  pub used_bytes : ℕ
  pub ttl : ℕ
  pub saturations : ℕ

-- The limits are numbers, so the negative ones that are treated like 0 are not written.
unfoldable pub new_challenge_store : ℕ → ℕ → ℕ → ChallengeStore
new_challenge_store entries bytes ttl = record {
  challenges = [];
  max_entries = if entries == 0 then 4096 else entries;
  max_bytes = if bytes == 0 then 1048576 else bytes;
  used_bytes = 0;
  ttl = if ttl == 0 then 30000000000 else ttl;
  saturations = 0;
}

-- `[32]byte{}`
abbrev pub no_cert : Str
unfolding zeros
no_cert = zeros 32

abbrev pub is_valid_ip : Option Str → Bool
is_valid_ip none = false
is_valid_ip (some a) = true

unfoldable pub same_ip : Option Str → Option Str → Bool
same_ip none none = true
same_ip none (some b) = false
same_ip (some a) none = false
same_ip (some a) (some b) = str_eq a b

abbrev pub same_kind : BindKind → BindKind → Bool
same_kind bind_udp_ip bind_udp_ip = true
same_kind bind_tls_cert bind_tls_cert = true
same_kind unknown_kind unknown_kind = true
same_kind _ _ = false

unfoldable pub unset : ChallengeBind → Bool
unset b = not (is_valid_ip b.source_ip) && str_eq b.cert_fp (zeros 32)

-- The tests of each kind, in `match`.
abbrev pub match_kind : BindKind → ChallengeBind → ChallengeBind → Bool
match_kind bind_udp_ip b other = is_valid_ip b.source_ip && same_ip b.source_ip other.source_ip
match_kind bind_tls_cert b other =
    not (str_eq b.cert_fp (zeros 32)) && str_eq b.cert_fp other.cert_fp
match_kind unknown_kind b other = false

unfoldable pub bind_match : ChallengeBind → ChallengeBind → Bool
unfolding same_ip
bind_match b other = if not (same_kind b.kind other.kind) then false else match_kind b.kind b other

-- The tests of each kind, in `issueValid`.
abbrev pub valid_kind : BindKind → ChallengeBind → Bool
valid_kind bind_udp_ip b = is_valid_ip b.source_ip
valid_kind bind_tls_cert b = not (str_eq b.cert_fp (zeros 32))
valid_kind unknown_kind b = false

unfoldable pub issue_valid : ChallengeIssue → Bool
issue_valid i =
    if length i.state == 0 || (length i.endpoint_id == 0 || length i.client_id == 0)
    then false
    else valid_kind i.bind.kind i.bind

unfoldable pub entry_bytes : ChallengeEntry → ℕ
entry_bytes e =
    32
    + length e.endpoint_id
    + length e.client_id
    + length e.user_id
    + length e.method
    + length e.md5
    + length e.tunnel_id
    + wire_size e.reply
    + length e.reply * 24
    + 64

-- `s.entries[key]`
unfoldable pub find_challenge : Str → List (Str × ChallengeEntry) → Option ChallengeEntry
find_challenge key [] = none
find_challenge key ((k, e) ∷ entries) =
    let rest = find_challenge key entries in if str_eq key k then some e else rest

-- `delete(s.entries, key)`
unfoldable pub delete_challenge : Str → List (Str × ChallengeEntry) → List (Str × ChallengeEntry)
delete_challenge key [] = []
delete_challenge key ((k, e) ∷ entries) =
    let rest = delete_challenge key entries in if str_eq key k then rest else (k, e) ∷ rest

-- `removeLocked`; subtraction that stops at 0 is what its test for a negative sum makes of it.
unfoldable pub remove_challenge : ChallengeStore → Str → ChallengeStore
remove_challenge s key = elim (find_challenge key s.challenges) [
  | none ↦ s
  | some e ↦ record s {
    used_bytes = s.used_bytes - e.bytes;
    challenges = delete_challenge key s.challenges;
  }
]

-- The loop of `expireLocked`: what stays of the entries and of the sum of bytes.
unfoldable pub expire_challenges :
    ℕ → List (Str × ChallengeEntry) → ℕ → List (Str × ChallengeEntry) × ℕ
expire_challenges now [] used = ([], used)
expire_challenges now ((k, e) ∷ entries) used =
    let gone = expire_challenges now entries (used - e.bytes) in
    let (kept, left) = expire_challenges now entries used in
    if leb e.expires now then gone else ((k, e) ∷ kept, left)

unfoldable pub expire_store : ℕ → ChallengeStore → ChallengeStore
expire_store now s =
    let (kept, left) = expire_challenges now s.challenges s.used_bytes in
    record s { challenges = kept; used_bytes = left }

-- `Len`
unfoldable pub count_live : ℕ → ChallengeStore → ChallengeStore × ℕ
count_live now s = (expire_store now s, length (expire_store now s).challenges)

-- The loop of `Reset`.
unfoldable pub reset_loop : List (Str × ChallengeEntry) → ChallengeStore → ChallengeStore
reset_loop [] s = s
reset_loop ((k, e) ∷ entries) s = reset_loop entries (remove_challenge s k)

unfoldable pub reset : ChallengeStore → ChallengeStore
reset s = reset_loop s.challenges s

-- The entry that `Issue` builds, before its size.
abbrev pub entry_of : ChallengeIssue → ℕ → ChallengeEntry
entry_of i expires = record {
  endpoint_id = i.endpoint_id;
  client_id = i.client_id;
  bind = i.bind;
  user_id = i.user_id;
  method = i.method;
  eap_id = i.eap_id;
  eap_type = i.eap_type;
  step = i.step;
  reply = i.reply_attributes;
  md5 = i.md5_challenge;
  tunnel_id = i.tunnel_id;
  expires = expires;
  revision = i.revision;
  bytes = 0;
}

module _ (sha256 : Str → Str) where
  unfoldable pub challenge_key : Str → Str → Str
  challenge_key endpoint_id state = sha256 (endpoint_id ++ state)

  unfoldable pub issue : ℕ → ChallengeStore → ChallengeIssue → ChallengeStore × IssueResult
  issue now s₀ i =
      if not (issue_valid i)
      then (s₀, issue_invalid)
      else let key = challenge_key i.endpoint_id i.state in
        let s = expire_store now s₀ in
        let size = entry_bytes (entry_of i (now + s.ttl)) in
        elim (find_challenge key s.challenges) [
          | some e ↦ (s, issue_exists)
          | none ↦
              if leb s.max_entries (length s.challenges) || ltb s.max_bytes (s.used_bytes + size)
              then (record s { saturations = (s.saturations + 1) % 2 ^ 64 }, issue_saturated)
              else (
                record s {
                  challenges =
                      (key, record (entry_of i (now + s.ttl)) { bytes = size }) ∷ s.challenges;
                  used_bytes = s.used_bytes + size;
                },
                issue_ok,
              )
        ]

  unfoldable pub consume :
      ℕ → ChallengeStore → Str → Str → Str → ChallengeBind → ChallengeStore × ConsumeResult
  consume now s endpoint_id state client_id bind =
      if length endpoint_id == 0 || length state == 0
      then (s, consume_unknown)
      else let key = challenge_key endpoint_id state in
        elim (find_challenge key s.challenges) [
          | none ↦ (s, consume_unknown)
          | some e ↦
              if leb e.expires now
              then (remove_challenge s key, consume_expired)
              else if not (str_eq e.client_id client_id) || not (bind_match e.bind bind)
              then (s, consume_binding)
              else (remove_challenge s key, consume_ok e)
        ]
