-- ===== src/Tests/Datagrams.antt =====
-- RADIUS datagrams at concrete inputs.
use go_lab_tacacs_mcp.Common.{
  All, [], arith, drop, err, length, ok, refl, some, ◌%◌, ◌++◌, ◌↔◌, ◌∷◌, ◌≡◌, ◌≢◌, ◌≤◌,
}
use go_lab_tacacs_mcp.Common.Bytes.{Bytes, IsByte, put_u16}
use go_lab_tacacs_mcp.Common.Text.{text}
use go_lab_tacacs_mcp.Radius.Attribute.{
  Raw, check_values, decode_attributes, decode_loop, encode_attributes, header_short,
  max_value_length, no_fuel, value_bytes, write_values,
}
use go_lab_tacacs_mcp.Radius.Attribute.RoundTrip.{IsWithin, decode_attributes_iff}
use go_lab_tacacs_mcp.Radius.Crypto.{
  hide_user_password, max_user_password, unhide_user_password, validate_response_authenticator,
}
use go_lab_tacacs_mcp.Radius.Crypto.Password.{IsTrimOf, unhide-hide}
use go_lab_tacacs_mcp.Radius.Crypto.Reply.{validate_response_iff}
use go_lab_tacacs_mcp.Radius.Packet.{
  Packet, decode_bounded, default_bounds, discard_reason, encode, encode_bounded, header_size,
  malformed_header, normalized,
}
use go_lab_tacacs_mcp.Radius.Packet.RoundTrip.{decode_bounded_iff}
use go_lab_tacacs_mcp.Radius.Vendor.{
  decode_cisco_av_pairs, encode_cisco_av_pair, max_vendor_tlv_value, type_vendor_specific,
}
use go_lab_tacacs_mcp.Radius.Vendor.Cisco.{decode-encode_cisco}

abbrev user_name : Raw
user_name = record { typ = 1; value = text "bob" }

abbrev user_bytes : Bytes
user_bytes = 1 ∷ 5 ∷ text "bob"

user_attributes : decode_attributes user_bytes 0 0 ≡ ok (user_name ∷ [])
unfolding decode_attributes decode_loop
user_attributes = refl

decode_attributes_iff_example :
    (decode_attributes user_bytes 1 3 ≢ err no_fuel)
    × ((decode_attributes user_bytes 1 3 ≡ ok (user_name ∷ []))
        ↔ ((encode_attributes (user_name ∷ []) ≡ ok user_bytes) × IsWithin (user_name ∷ []) 1 3))
decode_attributes_iff_example = decode_attributes_iff user_bytes 1 3 (user_name ∷ []) (omega arith)

abbrev zero_auth : Bytes
zero_auth = 0 ∷ 0 ∷ 0 ∷ 0 ∷ 0 ∷ 0 ∷ 0 ∷ 0 ∷ 0 ∷ 0 ∷ 0 ∷ 0 ∷ 0 ∷ 0 ∷ 0 ∷ 0 ∷ []

abbrev access_accept : Packet
access_accept = record {
  code = 2;
  identifier = 7;
  authenticator = zero_auth;
  attributes = user_name ∷ [];
}

abbrev accept_bytes : Bytes
accept_bytes = 2 ∷ 7 ∷ 0 ∷ 25 ∷ (zero_auth ++ user_bytes)

accept_encoded : encode access_accept ≡ ok accept_bytes
unfolding encode encode_bounded normalized default_bounds encode_attributes check_values
    write_values value_bytes
accept_encoded = refl

accept_short : discard_reason (some header_short) ≡ malformed_header
unfolding discard_reason
accept_short = refl

decode_bounded_iff_example :
    (decode_bounded (accept_bytes ++ (9 ∷ [])) default_bounds ≡ ok access_accept) ↔ (
      (length zero_auth ≡ 16)
      × ((out padding : Bytes) × (encode_bounded access_accept default_bounds ≡ ok out)
          × (accept_bytes ++ (9 ∷ []) ≡ out ++ padding)))
decode_bounded_iff_example =
    decode_bounded_iff (accept_bytes ++ (9 ∷ [])) default_bounds access_accept (omega arith)

decode-encode_cisco_example :
    ((r : Raw)
      → encode_cisco_av_pair (text "priv-lvl=15") ≡ ok r
      → (r.typ ≡ type_vendor_specific)
        × (length r.value ≤ max_value_length)
        × (decode_cisco_av_pairs r ≡ ok (text "priv-lvl=15" ∷ [])))
    × ((length (text "priv-lvl=15") ≤ max_vendor_tlv_value)
        ↔ ((r : Raw) × (encode_cisco_av_pair (text "priv-lvl=15") ≡ ok r)))
decode-encode_cisco_example = decode-encode_cisco (text "priv-lvl=15")

-- A hash of 16 bytes that keeps something of its input.
abbrev size_md5 : Bytes → Bytes
size_md5 x = (length x % 256) ∷ 1 ∷ 2 ∷ 3 ∷ 4 ∷ 5 ∷ 6 ∷ 7 ∷ 8 ∷ 9 ∷ 10 ∷ 11 ∷ 12 ∷ 13 ∷ 14 ∷ 15 ∷ []

size_length : (x : Bytes) → length (size_md5 x) ≡ 16
size_length x = refl

size_bytes : (x : Bytes) → All IsByte (size_md5 x)
size_bytes x = omega arith

unhide-hide_example :
    (hidden : Bytes) × (hide_user_password size_md5 (text "key") zero_auth (text "pass word")
      ≡ ok hidden)
    × (16 ≤ length hidden)
    × (length hidden ≤ max_user_password)
    × (length hidden % 16 ≡ 0)
    × ((plain : Bytes) × (unhide_user_password size_md5 (text "key") zero_auth hidden ≡ ok plain)
        × IsTrimOf (text "pass word") plain)
unhide-hide_example =
    unhide-hide size_md5 size_length size_bytes (text "key") zero_auth (text "pass word") (λ e. cc)
      (omega arith) (omega arith)

validate_response_iff_example :
    (validate_response_authenticator size_md5 (text "key") (accept_bytes ++ []) zero_auth ≡ ok tt)
    ↔ (zero_auth
        ≡ size_md5
            (2 ∷ 7 ∷ (put_u16 25 ++ (zero_auth ++ (drop header_size accept_bytes ++ text "key")))))
validate_response_iff_example =
    validate_response_iff size_md5 (text "key") zero_auth accept_bytes [] access_accept (λ e. cc)
      refl accept_encoded
