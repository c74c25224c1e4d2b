-- ===== src/Radius/Vendor/Cisco.antt =====
-- One Cisco-AVPair, and one MS-CHAP value, to the wire and back.
use go_lab_tacacs_mcp.Common.{
  Result-cases, [], append-nil, arith, drop_all, false, inl, inr, length, ltb, ok, refl, take-all,
  ℕ, ◌%◌, ◌++◌, ◌+◌, ◌-◌, ◌<◌, ◌>>=◌, ◌^◌, ◌↔◌, ◌∷◌, ◌≡◌, ◌≤◌,
}
use go_lab_tacacs_mcp.Common.Bytes.{Bytes, get-put_u32, put_u32}
use go_lab_tacacs_mcp.Radius.Attribute.{Raw, max_value_length}
use go_lab_tacacs_mcp.Radius.Vendor.{
  decode_cisco_av_pairs, encode_cisco_av_pair, encode_vendor_tlvs, max_vendor_tlv_value,
  microsoft_secret, microsoft_vsa, parse_vendor_tlvs, parse_vsa, raw_of, secret_type,
  type_vendor_specific, write_tlvs,
}

single_tlv :
    (typ : ℕ) (value : Bytes)
    → length value ≤ 247
    → parse_vendor_tlvs (write_tlvs (record { typ = typ; value = value } ∷ []))
      ≡ ok (record { typ = typ; value = value } ∷ [])
unfolding parse_vendor_tlvs write_tlvs
single_tlv typ value h =
    let e : (2 + length value) % 256 ≡ 2 + length value = omega arith in
    let e' : 2 + length value - 2 ≡ length value = omega arith in
    let t₁ : ltb (2 + length value) 2 ≡ false = ground arith in
    let t₂ : ltb (2 + length value) (2 + length value) ≡ false = ground arith in
    rw (append-nil, e, e', t₁, t₂, take-all (length value) value refl, drop_all value) refl

encode-single :
    (typ : ℕ) (value payload : Bytes)
    → (encode_vendor_tlvs (record { typ = typ; value = value } ∷ []) ≡ ok payload)
      ↔ ((length value ≤ 247) × (payload ≡ write_tlvs (record { typ = typ; value = value } ∷ [])))
unfolding encode_vendor_tlvs write_tlvs
encode-single typ value payload = ground (arith, append-nil value)

-- What both encoders write.
wire_value : ℕ → ℕ → Bytes → Raw
wire_value vendor typ value = record {
  typ = 26;
  value = put_u32 vendor ++ write_tlvs (record { typ = typ; value = value } ∷ []);
}

length-one :
    (typ : ℕ) (value : Bytes)
    → length (write_tlvs (record { typ = typ; value = value } ∷ [])) ≡ 2 + length value
unfolding write_tlvs
length-one typ value = rw (append-nil value) (omega arith)

encode_wire :
    (vendor typ : ℕ) (value : Bytes) (r : Raw)
    → ((encode_vendor_tlvs (record { typ = typ; value = value } ∷ []) >>= λ payload.
          raw_of (record { vendor = vendor; payload = payload }))
        ≡ ok r)
      ↔ ((length value ≤ 247) × (r ≡ wire_value vendor typ value))
unfolding raw_of wire_value
encode_wire vendor typ value r =
    elim (Result-cases (encode_vendor_tlvs (record { typ = typ; value = value } ∷ []))) [
      | inr (x, e) ↦ ground (
        arith,
        e,
        encode-single typ value (write_tlvs (record { typ = typ; value = value } ∷ [])),
      )
      | inl (payload, e) ↦
          ground (arith, e, (encode-single typ value payload).0 e, length-one typ value)
    ]

parse_wire :
    (vendor typ : ℕ) (value : Bytes)
    → vendor < 2 ^ 32
    → length value ≤ 247
    → (parse_vsa (wire_value vendor typ value)
        ≡ ok (record {
          vendor = vendor;
          payload = write_tlvs (record { typ = typ; value = value } ∷ []);
        }))
      × (length (wire_value vendor typ value).value ≤ 253)
unfolding parse_vsa wire_value
parse_wire vendor typ value v h = ground (arith, get-put_u32 vendor v, length-one typ value)

-- A Cisco-AVPair that `EncodeCiscoAVPair` makes is a Vendor-Specific attribute that fits on the wire,
-- and `DecodeCiscoAVPairs` reads exactly that text from it; `EncodeCiscoAVPair` makes one of every
-- text of at most 247 bytes and of no other.
pub decode-encode_cisco :
    (s : Bytes)
    → ((r : Raw)
        → encode_cisco_av_pair s ≡ ok r
        → (r.typ ≡ type_vendor_specific)
          × (length r.value ≤ max_value_length)
          × (decode_cisco_av_pairs r ≡ ok (s ∷ [])))
      × ((length s ≤ max_vendor_tlv_value) ↔ ((r : Raw) × (encode_cisco_av_pair s ≡ ok r)))
unfolding encode_cisco_av_pair decode_cisco_av_pairs wire_value
decode-encode_cisco s = (
  λ r h.
      let (fits, e) = (encode_wire 9 1 s r).0 h in
      let (parsed, short) = parse_wire 9 1 s (omega arith) fits in
      rw e (refl, short, rw (parsed, single_tlv 1 s fits) refl),
  (
    λ h. (wire_value 9 1 s, (encode_wire 9 1 s (wire_value 9 1 s)).1 (h, refl)),
    λ (r, h). ((encode_wire 9 1 s r).0 h).0,
  ),
)

-- What `MicrosoftVSA` makes is a secret exactly when its type is one of MS-CHAP.
pub microsoft-secret :
    (vendor_type : ℕ) (value : Bytes) (r : Raw)
    → microsoft_vsa vendor_type value ≡ ok r
    → microsoft_secret r ≡ secret_type vendor_type
unfolding microsoft_vsa microsoft_secret wire_value
microsoft-secret t value r h =
    let (fits, e) = (encode_wire 311 t value r).0 h in
    let (parsed, short) = parse_wire 311 t value (omega arith) fits in
    rw (e, parsed, single_tlv t value fits) (ground arith)
