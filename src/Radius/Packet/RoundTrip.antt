-- ===== src/Radius/Packet/RoundTrip.antt =====
-- `DecodeBounded` and `EncodeBounded`.
use go_lab_tacacs_mcp.Common.{
  All, All-drop, All-take, Result-cases, [], ap, append_assoc, arith, drop, drop-append_of_length,
  false, inl, inr, length, length-append, length-drop, length-take, le→ltb, ltb, ok, refl, take,
  take-append-drop, take-append_of_length, ℕ, ◌%◌, ◌*◌, ◌++◌, ◌+◌, ◌-◌, ◌<◌, ◌↔◌, ◌∙◌, ◌∷◌, ◌≡◌,
  ◌≤◌,
}
use go_lab_tacacs_mcp.Common.Bytes.{Bytes, IsByte, put_u16, put_u16-bytes}
use go_lab_tacacs_mcp.Radius.Attribute.{RawSet, decode_attributes, encode_attributes, value_bytes}
use go_lab_tacacs_mcp.Radius.Attribute.RoundTrip.{
  IsWithin, decode-encode_attributes, decode_attributes_iff,
}
use go_lab_tacacs_mcp.Radius.Packet.{
  Bounds, Header, Packet, attribute_bytes, clamp_packet, decode_bounded, decode_header,
  encode_bounded, min_packet_bytes, normalized, packet_octets,
}

pub header-packet_octets :
    (p : Packet) (n : ℕ) (payload : Bytes)
    → length p.authenticator ≡ 16
    → n < 65536
    → decode_header (packet_octets p n payload)
      ≡ ok (record {
        code = p.code;
        identifier = p.identifier;
        packet_length = n;
        authenticator = p.authenticator;
      })
unfolding decode_header
header-packet_octets p n payload a h = ground (
  arith,
  length-append p.authenticator payload,
  take-append_of_length 16 p.authenticator payload a,
)

pub drop-packet_octets :
    (p : Packet) (n : ℕ) (payload : Bytes)
    → length p.authenticator ≡ 16
    → drop 20 (packet_octets p n payload) ≡ payload
drop-packet_octets p n payload a = drop-append_of_length 16 p.authenticator payload a

-- What `EncodeBounded` writes, and for which packets.
pub encode_bounded_iff :
    (p : Packet) (b : Bounds) (out : Bytes)
    → (encode_bounded p b ≡ ok out) ↔ (
        (length p.attributes ≤ (normalized b).max_attributes)
        × (value_bytes p.attributes ≤ (normalized b).max_value)
        × ((payload : Bytes) × (encode_attributes p.attributes ≡ ok payload)
            × (20 + length payload ≤ (normalized b).max_packet)
            × (out ≡ packet_octets p (20 + length payload) payload)))
unfolding encode_bounded
encode_bounded_iff p b out = elim (Result-cases (encode_attributes p.attributes)) [
  | inl (payload, e) ↦ (
    λ h. (
      ground (arith, e, h),
      ground (arith, e, h),
      (payload, e, ground (arith, e, h), ground (arith, e, h)),
    ),
    λ (n, v, (payload', e', l, o)). ground (arith, e, n, v, e', l, o),
  )
  | inr (x, e) ↦ (
    λ h. absurd (ground (arith, e, h)),
    λ (n, v, (payload', e', l, o)). absurd (ground (arith, e, e')),
  )
]

pub max_packet_le : (b : Bounds) → (normalized b).max_packet ≤ 4096
unfolding normalized
max_packet_le b = ground arith

clamp_packet_bounds : (n : ℕ) → (20 ≤ clamp_packet n) × (clamp_packet n ≤ 4096)
clamp_packet_bounds n = ground arith

pub normalized-IsWithin :
    (s : RawSet) (b : Bounds)
    → IsWithin s (normalized b).max_attributes (normalized b).max_value
      ↔ ((length s ≤ (normalized b).max_attributes) × (value_bytes s ≤ (normalized b).max_value))
unfolding normalized
normalized-IsWithin s b = ground arith

pub packet_octets-append :
    (p : Packet) (n : ℕ) (payload padding : Bytes)
    → packet_octets p n payload ++ padding ≡ packet_octets p n (payload ++ padding)
packet_octets-append p n payload padding = rw (append_assoc p.authenticator payload padding) refl

decode_bounded-octets :
    (p : Packet) (b : Bounds) (payload padding : Bytes)
    → length p.authenticator ≡ 16
    → encode_attributes p.attributes ≡ ok payload
    → IsWithin p.attributes (normalized b).max_attributes (normalized b).max_value
    → 20 + length payload ≤ (normalized b).max_packet
    → decode_bounded (packet_octets p (20 + length payload) (payload ++ padding)) b ≡ ok p
unfolding decode_bounded
decode_bounded-octets p b payload padding a e w l =
    let size = 20 + length payload in
    let m : (normalized b).max_packet ≤ 4096 = max_packet_le b in
    let cut : attribute_bytes (packet_octets p size (payload ++ padding)) size ≡ payload =
      rw (drop-packet_octets p size (payload ++ padding) a)
        (take-append_of_length (size - 20) payload padding (omega arith)) in
    let long : 20 + length payload ≤ length (packet_octets p size (payload ++ padding)) = omega (
      arith,
      a,
      length-append p.authenticator (payload ++ padding),
      length-append payload padding,
    ) in
    let t₁ : ltb size min_packet_bytes ≡ false = ground arith in
    let t₂ : ltb (normalized b).max_packet size ≡ false = ground (arith, l) in
    let t₃ : ltb (length (packet_octets p size (payload ++ padding))) size ≡ false =
      le→ltb _ _ long in
    rw
      (
        header-packet_octets p size (payload ++ padding) a (omega (arith, l, m)),
        t₁,
        t₂,
        t₃,
        cut,
        decode-encode_attributes p.attributes payload (normalized b).max_attributes
            (normalized b).max_value e w,
      )
      refl

-- A packet that `EncodeBounded` writes is read back, whatever padding follows.
pub decode-encode_bounded :
    (p : Packet) (b : Bounds) (out padding : Bytes)
    → length p.authenticator ≡ 16
    → encode_bounded p b ≡ ok out
    → decode_bounded (out ++ padding) b ≡ ok p
decode-encode_bounded p b out padding a h =
    let (n, v, (payload, e, l, o)) = (encode_bounded_iff p b out).0 h in
    let w = (normalized-IsWithin p.attributes b).1 (n, v) in
    let same : out ++ padding ≡ packet_octets p (20 + length payload) (payload ++ padding) =
      ap (λ t. t ++ padding) o ∙ packet_octets-append p (20 + length payload) payload padding in
    rw same (decode_bounded-octets p b payload padding a e w l)

-- What a packet that is accepted says of its datagram.
decode_bounded_inv :
    (d : Bytes) (b : Bounds) (p : Packet)
    → decode_bounded d b ≡ ok p
    → (h : Header) × (decode_header d ≡ ok h)
      × (20 ≤ h.packet_length)
      × (h.packet_length ≤ (normalized b).max_packet)
      × (h.packet_length ≤ length d)
      × (decode_attributes
            (attribute_bytes d h.packet_length)
            (normalized b).max_attributes
            (normalized b).max_value
          ≡ ok p.attributes)
      × (p.code ≡ h.code)
      × (p.identifier ≡ h.identifier)
      × (p.authenticator ≡ h.authenticator)
unfolding decode_bounded
decode_bounded_inv d b p h = elim (Result-cases (decode_header d)) [
  | inr (x, e) ↦ absurd (ground (arith, e, h))
  | inl (hd, e) ↦
      elim (Result-cases (
        decode_attributes (attribute_bytes d hd.packet_length) (normalized b).max_attributes
          (normalized b).max_value)) [
            | inr (x, e') ↦ absurd (ground (arith, e, e', h))
            | inl (attrs, e') ↦ (
              hd,
              e,
              ground (arith, e, e', h),
              ground (arith, e, e', h),
              ground (arith, e, e', h),
              ground (arith, e, e', h),
              ground (arith, e, e', h),
              ground (arith, e, e', h),
              ground (arith, e, e', h),
            )
          ]
]

decode_header_inv :
    (d : Bytes) (h : Header)
    → All IsByte d
    → decode_header d ≡ ok h
    → h.packet_length ≤ length d
    → 20 ≤ h.packet_length
    → (length h.authenticator ≡ 16)
      × (h.packet_length < 65536)
      × (length (attribute_bytes d h.packet_length) ≡ h.packet_length - 20)
      × (d ≡ (
          h.code
          ∷ h.identifier
          ∷ (put_u16 (h.packet_length % 65536)
              ++ (h.authenticator
                  ++ (attribute_bytes d h.packet_length
                      ++ drop (h.packet_length - 20) (drop 20 d))))))
unfolding decode_header
decode_header_inv [] h w e l k = absurd (ground (arith, e))
decode_header_inv (a ∷ []) h w e l k = absurd (ground (arith, e))
decode_header_inv (a ∷ b ∷ []) h w e l k = absurd (ground (arith, e))
decode_header_inv (a ∷ b ∷ c ∷ []) h w e l k = absurd (ground (arith, e))
decode_header_inv (a ∷ b ∷ c ∷ f ∷ rest) h (wa, (wb, (wc, (wf, w)))) e l k =
    let n = c * 256 + f in
    let long : 16 ≤ length rest = ground (arith, e) in
    let same : h
        ≡ record { code = a; identifier = b; packet_length = n; authenticator = take 16 rest } =
      ground (arith, e) in
    let l' : n ≤ 4 + length rest = ground (arith, same, l) in
    rw same (
      omega (arith, length-take 16 rest),
      omega arith,
      omega (
        arith,
        length-take (n - 20) (drop 16 rest),
        length-drop 16 rest,
        ap Header.packet_length same,
      ),
      rw (take-append-drop (n - 20) (drop 16 rest), take-append-drop 16 rest)
          (ground (arith, put_u16-bytes c f wc wf)),
    )

-- On bytes, `DecodeBounded` accepts a datagram as a packet exactly when the datagram is what
-- `EncodeBounded` writes for that packet under the same bounds, with padding behind it.
pub decode_bounded_iff :
    (d : Bytes) (b : Bounds) (p : Packet)
    → All IsByte d
    → (decode_bounded d b ≡ ok p) ↔ (
        (length p.authenticator ≡ 16)
        × ((out padding : Bytes) × (encode_bounded p b ≡ ok out) × (d ≡ out ++ padding)))
decode_bounded_iff d b p w = (
  λ h.
      let (hd, e, k, m, l, attrs, c, i, a) = decode_bounded_inv d b p h in
      let (a16, small, size, parts) = decode_header_inv d hd w e l k in
      let payload = attribute_bytes d hd.packet_length in
      let (encoded, within) =
        (decode_attributes_iff payload (normalized b).max_attributes (normalized b).max_value
            p.attributes
            (All-take IsByte (hd.packet_length - 20) (drop 20 d) (All-drop IsByte 20 d w))).1.0
          attrs in
      let (n, v) = (normalized-IsWithin p.attributes b).0 within in
      let len : 20 + length payload ≡ hd.packet_length = omega (arith, size) in
      let out = packet_octets p (20 + length payload) payload in
      (
        rw a a16,
        (
          out,
          drop (hd.packet_length - 20) (drop 20 d),
          (encode_bounded_iff p b out).1 (n, v, (payload, encoded, omega (arith, len, m), refl)),
          parts
              ∙ rw
                  (
                    packet_octets-append p (20 + length payload) payload
                        (drop (hd.packet_length - 20) (drop 20 d)),
                    len,
                    c,
                    i,
                    a,
                  )
                  refl,
        ),
      ),
  λ (a, (out, padding, e, s)). rw s (decode-encode_bounded p b out padding a e),
)
