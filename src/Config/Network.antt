-- ===== src/Config/Network.antt =====
-- IP addresses and networks: what config/match.go uses of package net, and its `canonicalizeIP` and
-- `longestContaining`. An address is its bytes; nil is `[]`.
pub mod Same
use go_lab_tacacs_mcp.Common.{
  Bool, List, Option, [], bit_and, drop, false, if◌then◌else◌, leb, length, ltb, none, not, some,
  suc, take, true, zero, ℕ, ◌&&◌, ◌++◌, ◌-◌, ◌==◌, ◌^◌, ◌||◌, ◌∷◌,
}
use go_lab_tacacs_mcp.Common.Bytes.{Bytes}
use go_lab_tacacs_mcp.Common.Text.{str_eq}

-- ::ffff:0:0/96
abbrev pub v4_prefix : Bytes
v4_prefix = 0 ∷ 0 ∷ 0 ∷ 0 ∷ 0 ∷ 0 ∷ 0 ∷ 0 ∷ 0 ∷ 0 ∷ 255 ∷ 255 ∷ []

-- `ip.To4()` and `ip.To16()`; nil is `none`.
unfoldable pub to4 : Bytes → Option Bytes
to4 ip =
    if length ip == 4
    then some ip
    else if length ip == 16 && str_eq (take 12 ip) v4_prefix
    then some (drop 12 ip)
    else none

unfoldable pub to16 : Bytes → Option Bytes
to16 ip =
    if length ip == 4 then some (v4_prefix ++ ip) else if length ip == 16 then some ip else none

-- `a.Equal(b)`
unfoldable pub same_opt : Option Bytes → Option Bytes → Bool
same_opt (some a) (some b) = str_eq a b
same_opt none none = true
same_opt none (some b) = false
same_opt (some a) none = false

unfoldable pub ip_equal : Bytes → Bytes → Bool
unfolding to16 same_opt
ip_equal a b =
    if length a == length b
    then str_eq a b
    else elim (to16 a) [ none ↦ false | some x ↦ same_opt (some x) (to16 b) ]

-- `CIDRMask(ones, 8*n)`
unfoldable pub cidr_mask : ℕ → ℕ → Bytes
cidr_mask ones zero = []
cidr_mask ones (suc n) = (if leb 8 ones then 255 else 256 - 2 ^ (8 - ones)) ∷ cidr_mask (ones - 8) n

-- `ip[i] & m[i]`, byte by byte.
unfoldable pub and_bytes : Bytes → Bytes → Bytes
and_bytes [] mask = []
and_bytes (b ∷ ip) [] = []
and_bytes (b ∷ ip) (m ∷ mask) = bit_and b m ∷ and_bytes ip mask

-- `net.IPNet`
pub record IpNet : Type 0 where
  pub ip : Bytes
  pub mask : Bytes

-- Go's `indexCIDR`.
pub record IndexCidr : Type 0 where
  pub network : IpNet
  pub bits : ℕ
  pub v4 : Bool

-- `networkNumberAndMask`: the address and mask that `Contains` compares by.
unfoldable pub network_mask : Bytes → Bytes → Option Bytes
network_mask ip mask =
    if length mask == 4
    then if length ip == 4 then some mask else none
    else if length mask == 16
    then some (if length ip == 4 then drop 12 mask else mask)
    else none

unfoldable pub network_number : IpNet → Option (Bytes × Bytes)
unfolding to4 network_mask
network_number n = elim (to4 n.ip) [
  | some ip ↦ elim (network_mask ip n.mask) [ none ↦ none | some m ↦ some (ip, m) ]
  | none ↦
      if length n.ip == 16
      then elim (network_mask n.ip n.mask) [ none ↦ none | some m ↦ some (n.ip, m) ]
      else none
]

abbrev pub shortest : Bytes → Bytes
unfolding to4
shortest ip = elim (to4 ip) [ some x ↦ x | none ↦ ip ]

unfoldable pub contains : IpNet → Bytes → Bool
unfolding network_number and_bytes
contains n ip = elim (network_number n) [
  | none ↦ false
  | some (nn, m) ↦
      length (shortest ip) == length nn && str_eq (and_bytes nn m) (and_bytes (shortest ip) m)
]

-- The address and whether it is IPv4; `none` is nil.
unfoldable pub canonicalize_ip : Bytes → Option (Bytes × Bool)
unfolding to4 to16
canonicalize_ip ip = if length ip == 0 then none else elim (to4 ip) [
  | some v4 ↦ some (v4, true)
  | none ↦ elim (to16 ip) [ some v6 ↦ some (v6, false) | none ↦ none ]
]

abbrev pub same_flag : Bool → Bool → Bool
same_flag a b = if a then b else not b

-- One round of the loop of `longestContaining`; `none` is `-1, false`.
abbrev pub longer : Option ℕ → ℕ → Option ℕ
longer none bits = some bits
longer (some best) bits = if ltb best bits then some bits else some best

unfoldable pub longest_from : Option ℕ → List IndexCidr → Bytes → Bool → Option ℕ
longest_from best [] ip v4 = best
longest_from best (c ∷ cs) ip v4 =
    longest_from
      (if not (same_flag c.v4 v4) || not (contains c.network ip) then best else longer best c.bits)
      cs ip v4

unfoldable pub longest_containing : List IndexCidr → Bytes → Bool → Option ℕ
unfolding longest_from
longest_containing cidrs ip v4 = longest_from none cidrs ip v4

-- `indexCIDR` of what `net.ParseCIDR` gave: the masked address and the length of its prefix.
unfoldable pub index_cidr : Bytes × ℕ → IndexCidr
unfolding to4 cidr_mask
index_cidr (ip, ones) =
    let mask = cidr_mask ones (length ip) in
    elim (to4 ip) [
      | some x ↦ record { network = record { ip = x; mask = mask }; bits = ones; v4 = true }
      | none ↦ record {
        network = record { ip = elim (to16 ip) [ some x ↦ x | none ↦ [] ]; mask = mask };
        bits = ones;
        v4 = false;
      }
    ]

unfoldable pub same_cidr : IndexCidr → IndexCidr → Bool
unfolding ip_equal
same_cidr x y =
    same_flag x.v4 y.v4
    && (x.bits == y.bits
        && (ip_equal x.network.ip y.network.ip && str_eq x.network.mask y.network.mask))

-- The two loops of `shareIdenticalCIDR`.
unfoldable pub any_same : IndexCidr → List IndexCidr → Bool
unfolding same_cidr
any_same x [] = false
any_same x (y ∷ ys) = same_cidr x y || any_same x ys

unfoldable pub share_cidr : List IndexCidr → List IndexCidr → Bool
unfolding any_same
share_cidr [] ys = false
share_cidr (x ∷ xs) ys = any_same x ys || share_cidr xs ys
