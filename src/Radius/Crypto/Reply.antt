-- ===== src/Radius/Crypto/Reply.antt =====
-- The Response Authenticator of an encoded reply.
use go_lab_tacacs_mcp.Common.{
  ==-refl, [], ap, arith, drop, false, guard, guard-eq-ok, length, length-append, le→ltb, ltb, ok,
  refl, suc-==-zero, take, take-append_of_length, true, ℕ, ◌%◌, ◌++◌, ◌+◌, ◌==◌, ◌↔◌, ◌∙◌, ◌∷◌, ◌≡◌,
  ◌≢◌, ◌≤◌,
}
use go_lab_tacacs_mcp.Common.Bytes.{Bytes, put_u16}
use go_lab_tacacs_mcp.Common.Text.{str_eq, str_eq_iff}
use go_lab_tacacs_mcp.Radius.Attribute.{RawSet, encode_attributes, value_bytes}
use go_lab_tacacs_mcp.Radius.Attribute.RoundTrip.{IsWithin, decode-encode_attributes}
use go_lab_tacacs_mcp.Radius.Crypto.{
  declared_header, invalid_response, lift, response_authenticator, validate_response_authenticator,
}
use go_lab_tacacs_mcp.Radius.Packet.{
  Packet, default_bounds, encode, header_size, max_packet_bytes, min_packet_bytes, normalized,
  packet_octets,
}
use go_lab_tacacs_mcp.Radius.Packet.RoundTrip.{
  drop-packet_octets, encode_bounded_iff, header-packet_octets, max_packet_le, packet_octets-append,
}

take-octets :
    (p : Packet) (payload padding : Bytes)
    → length p.authenticator ≡ 16
    → take (20 + length payload) (packet_octets p (20 + length payload) (payload ++ padding))
      ≡ packet_octets p (20 + length payload) payload
take-octets p payload padding a =
    rw (← packet_octets-append p (20 + length payload) payload padding) (
      take-append_of_length (20 + length payload) (packet_octets p (20 + length payload) payload)
        padding (omega (arith, a, length-append p.authenticator payload)))

pub declared-octets :
    (p : Packet) (payload padding : Bytes)
    → length p.authenticator ≡ 16
    → 20 + length payload ≤ 4096
    → declared_header (packet_octets p (20 + length payload) (payload ++ padding))
      ≡ ok (
        record {
          code = p.code;
          identifier = p.identifier;
          packet_length = 20 + length payload;
          authenticator = p.authenticator;
        },
        packet_octets p (20 + length payload) payload,
      )
unfolding declared_header lift
declared-octets p payload padding a h =
    let size = 20 + length payload in
    let octets = packet_octets p size (payload ++ padding) in
    let long : length octets ≡ 20 + length payload + length padding = omega (
      arith,
      a,
      length-append p.authenticator (payload ++ padding),
      length-append payload padding,
    ) in
    let t₀ : ltb (length octets) 20 ≡ false = le→ltb _ _ (omega (arith, long)) in
    let t₁ : ltb size min_packet_bytes ≡ false = ground arith in
    let t₂ : ltb max_packet_bytes size ≡ false = ground (arith, h) in
    let t₃ : ltb (length octets) size ≡ false = le→ltb _ _ (omega (arith, long)) in
    rw
      (
        t₀,
        header-packet_octets p size (payload ++ padding) a (omega (arith, h)),
        t₁,
        t₂,
        t₃,
        take-octets p payload padding a,
      )
      refl

IsWithin-defaults :
    (s : RawSet)
    → length s ≤ (normalized default_bounds).max_attributes
    → value_bytes s ≤ (normalized default_bounds).max_value
    → IsWithin s 0 0
unfolding normalized default_bounds
IsWithin-defaults s n v = (n, v)

module _ (md5 : Bytes → Bytes) where
  -- What `ValidateResponseAuthenticator` compares.
  abbrev pub wanted : Bytes → Bytes → Packet → Bytes → Bytes
  wanted secret req_auth p payload =
      md5 (
        p.code
        ∷ p.identifier
        ∷ (put_u16 (20 + length payload) ++ (req_auth ++ (payload ++ secret))))

  validate-octets :
      (c : ℕ) (cs req_auth payload padding : Bytes) (p : Packet)
      → length p.authenticator ≡ 16
      → encode_attributes p.attributes ≡ ok payload
      → IsWithin p.attributes 0 0
      → 20 + length payload ≤ 4096
      → validate_response_authenticator md5
          (c ∷ cs)
          (packet_octets p (20 + length payload) (payload ++ padding))
          req_auth
        ≡ guard (str_eq p.authenticator (wanted (c ∷ cs) req_auth p payload)) invalid_response
  unfolding validate_response_authenticator response_authenticator lift
  validate-octets c cs req_auth payload padding p a e w fits =
      let size = 20 + length payload in
      let r : size % 65536 ≡ size = omega (arith, fits) in
      let t : (size == size) ≡ true = ==-refl size in
      rw
        (
          declared-octets p payload padding a fits,
          drop-packet_octets p size payload a,
          decode-encode_attributes p.attributes payload 0 0 e w,
          e,
          suc-==-zero,
          r,
          t,
        )
        (ground arith)

  -- A reply that was encoded validates, with padding or not, exactly when its Authenticator is the
  -- MD5 of its code, identifier and length, the request's authenticator, its attributes and the
  -- secret.
  pub validate_response_iff :
      (secret req_auth out padding : Bytes) (p : Packet)
      → secret ≢ []
      → length p.authenticator ≡ 16
      → encode p ≡ ok out
      → (validate_response_authenticator md5 secret (out ++ padding) req_auth ≡ ok tt) ↔ (
          p.authenticator
          ≡ md5 (
              p.code
              ∷ p.identifier
              ∷ (put_u16 (length out) ++ (req_auth ++ (drop header_size out ++ secret)))))
  unfolding encode
  validate_response_iff [] req_auth out padding p s a h = absurd (s refl)
  validate_response_iff (c ∷ cs) req_auth out padding p s a h =
      let (n, v, (payload, e, l, o)) = (encode_bounded_iff p default_bounds out).0 h in
      let m : (normalized default_bounds).max_packet ≤ 4096 = max_packet_le default_bounds in
      let fits : 20 + length payload ≤ 4096 = omega (arith, l, m) in
      let size = 20 + length payload in
      let same : out ++ padding ≡ packet_octets p size (payload ++ padding) =
        ap (λ t. t ++ padding) o ∙ packet_octets-append p size payload padding in
      let len : length out ≡ size =
        ap length o ∙ omega (arith, a, length-append p.authenticator payload) in
      let body : drop 20 out ≡ payload =
        ap (λ t. drop 20 t) o ∙ drop-packet_octets p size payload a in
      let valid =
        validate-octets c cs req_auth payload padding p a e (IsWithin-defaults p.attributes n v)
          fits in
      rw (same, valid, len, body)
        (
          λ g.
              (str_eq_iff p.authenticator (wanted (c ∷ cs) req_auth p payload)).0
                (guard-eq-ok _ invalid_response g),
          λ g. rw ((str_eq_iff p.authenticator (wanted (c ∷ cs) req_auth p payload)).1 g) refl,
        )
