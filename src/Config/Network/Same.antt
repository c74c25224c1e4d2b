-- ===== src/Config/Network/Same.antt =====
-- Two networks of one length that contain one address are the same network.
use go_lab_tacacs_mcp.Common.{
  ==-refl, Bool-cases, ap, arith, if◌then◌else◌, inl, inr, length, none, refl, some, suc, sym, true,
  zero, ℕ, ◌-◌, ◌∙◌, ◌≡◌, ◌⊎◌,
}
use go_lab_tacacs_mcp.Common.Bytes.{Bytes}
use go_lab_tacacs_mcp.Common.Text.{str_eq, str_eq_refl, str_eq→eq}
use go_lab_tacacs_mcp.Config.Network.{
  IndexCidr, and_bytes, cidr_mask, contains, index_cidr, ip_equal, network_mask, network_number,
  same_cidr, same_flag, shortest, to16, to4,
}

-- The network of a CIDR text in the form that `normalizeCIDRs` writes: its address is masked, and not
-- an IPv4 address in the form of IPv6.
abbrev pub IsNetwork : Bytes × ℕ → Type 0
IsNetwork (ip, ones) =
    ((length ip ≡ 4) ⊎ ((length ip ≡ 16) × (to4 ip ≡ none)))
    × (and_bytes ip (cidr_mask ones (length ip)) ≡ ip)

-- What `index_cidr` makes of it.
pub record IsIndexed (x : IndexCidr) : Type 0 where
  pub size : length x.network.ip ≡ (if x.v4 then 4 else 16)
  pub family : to4 x.network.ip ≡ (if x.v4 then some x.network.ip else none)
  pub mask_of : x.network.mask ≡ cidr_mask x.bits (length x.network.ip)
  pub masked : and_bytes x.network.ip x.network.mask ≡ x.network.ip

length-cidr_mask : (ones n : ℕ) → length (cidr_mask ones n) ≡ n
unfolding cidr_mask
length-cidr_mask ones zero = refl
length-cidr_mask ones (suc n) = ap suc (length-cidr_mask (ones - 8) n)

to4_of_4 : (ip : Bytes) → length ip ≡ 4 → to4 ip ≡ some ip
unfolding to4
to4_of_4 ip h = rw h

to16_of_16 : (ip : Bytes) → length ip ≡ 16 → to16 ip ≡ some ip
unfolding to16
to16_of_16 ip h = rw h

pub index_cidr-IsIndexed : (p : Bytes × ℕ) → IsNetwork p → IsIndexed (index_cidr p)
unfolding index_cidr
index_cidr-IsIndexed (ip, ones) (inl four, m) =
    rw (to4_of_4 ip four, index_cidr)
      (record { size = four; family = to4_of_4 ip four; mask_of = refl; masked = m })
index_cidr-IsIndexed (ip, ones) (inr (sixteen, six), m) =
    rw (six, to16_of_16 ip sixteen, index_cidr)
      (record { size = sixteen; family = six; mask_of = refl; masked = m })

length-mask : (x : IndexCidr) → IsIndexed x → length x.network.mask ≡ (if x.v4 then 4 else 16)
length-mask x v = ap length v.mask_of ∙ (length-cidr_mask x.bits (length x.network.ip) ∙ v.size)

number_of :
    (x : IndexCidr) → IsIndexed x → network_number x.network ≡ some (x.network.ip, x.network.mask)
unfolding network_number network_mask
number_of x v = elim (Bool-cases x.v4) [
  | inl t ↦
      let family = rw t at v.family in
      let size = rw t at v.size in
      let mask = rw t at (length-mask x v) in
      rw (family, size, mask, network_number, network_mask) refl
  | inr f ↦
      let family = rw f at v.family in
      let size = rw f at v.size in
      let mask = rw f at (length-mask x v) in
      rw (family, size, mask, network_number, network_mask) refl
]

-- A network that contains an address is the address under its mask.
contains_inv :
    (x : IndexCidr) (ip : Bytes)
    → IsIndexed x
    → contains x.network ip ≡ true
    → x.network.ip ≡ and_bytes (shortest ip) x.network.mask
unfolding contains
contains_inv x ip v h =
    let k = rw (number_of x v, contains) at h in
    let e : and_bytes x.network.ip x.network.mask ≡ and_bytes (shortest ip) x.network.mask =
      str_eq→eq _ _ (ground (arith, k)) in
    sym v.masked ∙ e

ip_equal_refl : (ip : Bytes) → ip_equal ip ip ≡ true
unfolding ip_equal
ip_equal_refl ip = rw (==-refl (length ip)) (str_eq_refl ip)

-- Two indexed networks of one family and length that contain an address are found to be the same.
pub same_network :
    (x y : IndexCidr) (ip : Bytes)
    → IsIndexed x
    → IsIndexed y
    → same_flag x.v4 y.v4 ≡ true
    → x.bits ≡ y.bits
    → contains x.network ip ≡ true
    → contains y.network ip ≡ true
    → same_cidr x y ≡ true
unfolding same_cidr
same_network x y ip vx vy f b hx hy =
    let lx : length x.network.ip ≡ length y.network.ip = ground (arith, vx.size, vy.size, f) in
    let m : x.network.mask ≡ y.network.mask = vx.mask_of ∙ (rw (b, lx) (sym vy.mask_of)) in
    let e : x.network.ip ≡ y.network.ip =
      contains_inv x ip vx hx ∙ (rw m (sym (contains_inv y ip vy hy))) in
    let i : ip_equal x.network.ip y.network.ip ≡ true = rw e (ip_equal_refl y.network.ip) in
    let k : str_eq x.network.mask y.network.mask ≡ true = rw m (str_eq_refl y.network.mask) in
    ground (arith, f, b, i, k)
