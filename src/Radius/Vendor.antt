-- ===== src/Radius/Vendor.antt =====
-- Vendor-specific attributes: internal/radius/attribute/vendor.go. A Go string is the list of its
-- bytes.
pub mod Cisco
use go_lab_tacacs_mcp.Common.{
  Bool, List, Result, [], drop, err, false, guard, if◌then◌else◌, length, ltb, not, ok, suc, take,
  true, zero, ℕ, ◌%◌, ◌++◌, ◌+◌, ◌-◌, ◌==◌, ◌>>=◌, ◌>>◌, ◌||◌, ◌∷◌,
}
use go_lab_tacacs_mcp.Common.Bytes.{Bytes, byte_at, get_u32, put_u32}
use go_lab_tacacs_mcp.Radius.Attribute.{
  AttrError, Raw, max_value_length, no_fuel, not_vsa, vendor_tlv_long, vendor_tlv_malformed,
  vsa_short, vsa_value_long,
}

abbrev pub vendor_id_size : ℕ
vendor_id_size = 4

abbrev pub type_vendor_specific : ℕ
type_vendor_specific = 26

abbrev pub vendor_microsoft : ℕ
vendor_microsoft = 311

abbrev pub vendor_cisco : ℕ
vendor_cisco = 9

abbrev pub type_cisco_av_pair : ℕ
type_cisco_av_pair = 1

abbrev pub max_vendor_tlv_value : ℕ
max_vendor_tlv_value = max_value_length - vendor_id_size - 2

pub record Vsa : Type 0 where
  pub vendor : ℕ
  pub payload : Bytes

pub record VendorTlv : Type 0 where
  pub typ : ℕ
  pub value : Bytes

unfoldable pub parse_vsa : Raw → Result AttrError Vsa
parse_vsa r =
    if not (r.typ == type_vendor_specific)
    then err not_vsa
    else if ltb (length r.value) vendor_id_size
    then err vsa_short
    else ok (record {
      vendor =
          get_u32 (byte_at r.value 0) (byte_at r.value 1) (byte_at r.value 2) (byte_at r.value 3);
      payload = drop 4 r.value;
    })

-- `VSA.Raw`
unfoldable pub raw_of : Vsa → Result AttrError Raw
raw_of v =
    if ltb (max_value_length - vendor_id_size) (length v.payload)
    then err vsa_value_long
    else ok (record { typ = type_vendor_specific; value = put_u32 v.vendor ++ v.payload })

-- The loop of `ParseVendorTLVs` at `payload[i:]`.
unfoldable pub tlv_loop : ℕ → Bytes → Result AttrError (List VendorTlv)
tlv_loop fuel [] = ok []
tlv_loop zero (t ∷ p) = err no_fuel
tlv_loop (suc fuel) (typ ∷ []) = err vendor_tlv_malformed
tlv_loop (suc fuel) (typ ∷ n ∷ rest) = do
  guard (not (ltb n 2)) vendor_tlv_malformed
  guard (not (ltb (2 + length rest) n)) vendor_tlv_malformed
  more ← tlv_loop fuel (drop (n - 2) rest)
  ok (record { typ = typ; value = take (n - 2) rest } ∷ more)

unfoldable pub parse_vendor_tlvs : Bytes → Result AttrError (List VendorTlv)
unfolding tlv_loop
parse_vendor_tlvs payload = tlv_loop (length payload) payload

-- The two loops of `EncodeVendorTLVs`.
unfoldable pub check_tlvs : List VendorTlv → Result AttrError (Unit {0})
check_tlvs [] = ok tt
check_tlvs (t ∷ tlvs) = do
  guard (not (ltb max_vendor_tlv_value (length t.value))) vendor_tlv_long
  check_tlvs tlvs

unfoldable pub write_tlvs : List VendorTlv → Bytes
write_tlvs [] = []
write_tlvs (t ∷ tlvs) = t.typ ∷ ((2 + length t.value) % 256) ∷ (t.value ++ write_tlvs tlvs)

unfoldable pub encode_vendor_tlvs : List VendorTlv → Result AttrError Bytes
unfolding check_tlvs write_tlvs
encode_vendor_tlvs tlvs = do
  check_tlvs tlvs
  guard (not (ltb (max_value_length - vendor_id_size) (length (write_tlvs tlvs)))) vsa_value_long
  ok (write_tlvs tlvs)

unfoldable pub microsoft_vsa : ℕ → Bytes → Result AttrError Raw
microsoft_vsa vendor_type value = do
  payload ← encode_vendor_tlvs (record { typ = vendor_type; value = value } ∷ [])
  raw_of (record { vendor = vendor_microsoft; payload = payload })

-- The MS-CHAP types: response, error, challenge, response 2, success 2.
abbrev pub secret_type : ℕ → Bool
secret_type t = t == 1 || (t == 2 || (t == 11 || (t == 25 || t == 26)))

unfoldable pub any_secret : List VendorTlv → Bool
any_secret [] = false
any_secret (t ∷ tlvs) = let rest = any_secret tlvs in if secret_type t.typ then true else rest

unfoldable pub microsoft_secret : Raw → Bool
unfolding any_secret
microsoft_secret r = if not (r.typ == type_vendor_specific) then false else elim (parse_vsa r) [
  | err e ↦ false
  | ok vsa ↦
      if not (vsa.vendor == vendor_microsoft)
      then false
      else elim (parse_vendor_tlvs vsa.payload) [ err e ↦ true | ok tlvs ↦ any_secret tlvs ]
]

unfoldable pub encode_cisco_av_pair : Bytes → Result AttrError Raw
encode_cisco_av_pair s = do
  payload ← encode_vendor_tlvs (record { typ = type_cisco_av_pair; value = s } ∷ [])
  raw_of (record { vendor = vendor_cisco; payload = payload })

unfoldable pub cisco_values : List VendorTlv → List Bytes
cisco_values [] = []
cisco_values (t ∷ tlvs) =
    let rest = cisco_values tlvs in if t.typ == type_cisco_av_pair then t.value ∷ rest else rest

unfoldable pub decode_cisco_av_pairs : Raw → Result AttrError (List Bytes)
unfolding cisco_values
decode_cisco_av_pairs r = do
  vsa ← parse_vsa r
  if not (vsa.vendor == vendor_cisco)
      then ok []
      else (parse_vendor_tlvs vsa.payload >>= λ tlvs. ok (cisco_values tlvs))
