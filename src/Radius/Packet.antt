-- ===== src/Radius/Packet.antt =====
-- RADIUS packets: internal/radius/codec (packet.go, bounds.go, code.go, decode.go, encode.go, and
-- `DiscardReason` of errors.go). The limits of `Bounds` are numbers, so the negative ones that
-- `normalized` treats like 0 are not written.
pub mod RoundTrip
use Prim.Native.Char.{code}
use go_lab_tacacs_mcp.Common.{
  Bool, Option, Result, drop, err, guard, if◌then◌else◌, length, ltb, none, not, ok, some, take, ℕ,
  ◌%◌, ◌*◌, ◌++◌, ◌+◌, ◌-◌, ◌==◌, ◌>>=◌, ◌>>◌, ◌||◌, ◌∷◌,
}
use go_lab_tacacs_mcp.Common.Bytes.{Bytes, byte_at, put_u16}
use go_lab_tacacs_mcp.Radius.Attribute.{
  AttrError, RawSet, attr_length, budget, decode_attributes, default_max_attributes,
  default_max_value_bytes, encode_attributes, header_short, invalid_length, no_fuel, not_vsa,
  overflow, packet_too_large, too_many, value_bytes, value_too_long, vendor_tlv_long,
  vendor_tlv_malformed, vsa_short, vsa_value_long,
}

abbrev pub header_size : ℕ
header_size = 20

abbrev pub min_packet_bytes : ℕ
min_packet_bytes = 20

abbrev pub max_packet_bytes : ℕ
max_packet_bytes = 4096

-- Go's `Packet`; its authenticator has 16 bytes.
pub record Packet : Type 0 where
  pub code : ℕ
  pub identifier : ℕ
  pub authenticator : Bytes
  pub attributes : RawSet

pub record Header : Type 0 where
  pub code : ℕ
  pub identifier : ℕ
  pub packet_length : ℕ
  pub authenticator : Bytes

pub record Bounds : Type 0 where
  pub max_packet : ℕ
  pub max_attributes : ℕ
  pub max_value : ℕ

unfoldable pub default_bounds : Bounds
default_bounds = record {
  max_packet = max_packet_bytes;
  max_attributes = default_max_attributes;
  max_value = default_max_value_bytes;
}

-- `b.MaxPacketBytes` after its two tests.
abbrev pub clamp_packet : ℕ → ℕ
clamp_packet n =
    let m = if n == 0 || ltb max_packet_bytes n then max_packet_bytes else n in
    if ltb m min_packet_bytes then min_packet_bytes else m

unfoldable pub normalized : Bounds → Bounds
normalized b = record {
  max_packet = clamp_packet b.max_packet;
  max_attributes = if b.max_attributes == 0 then default_max_attributes else b.max_attributes;
  max_value = if b.max_value == 0 then default_max_value_bytes else b.max_value;
}

unfoldable pub decode_header : Bytes → Result AttrError Header
decode_header p =
    if ltb (length p) header_size
    then err header_short
    else ok (record {
      code = byte_at p 0;
      identifier = byte_at p 1;
      packet_length = byte_at p 2 * 256 + byte_at p 3;
      authenticator = take 16 (drop 4 p);
    })

-- `datagram[HeaderSize:declared]`
abbrev pub attribute_bytes : Bytes → ℕ → Bytes
attribute_bytes datagram declared = take (declared - header_size) (drop header_size datagram)

unfoldable pub decode_bounded : Bytes → Bounds → Result AttrError Packet
decode_bounded datagram b₀ = do
  h ← decode_header datagram
  let b = normalized b₀
  guard (not (ltb h.packet_length min_packet_bytes)) invalid_length
  guard (not (ltb b.max_packet h.packet_length)) invalid_length
  guard (not (ltb (length datagram) h.packet_length)) invalid_length
  attrs ← decode_attributes (attribute_bytes datagram h.packet_length) b.max_attributes b.max_value
  ok (record {
    code = h.code;
    identifier = h.identifier;
    authenticator = h.authenticator;
    attributes = attrs;
  })

unfoldable pub decode : Bytes → Result AttrError Packet
decode datagram = decode_bounded datagram default_bounds

-- The octets of a packet: `uint16(n)` wraps.
abbrev pub packet_octets : Packet → ℕ → Bytes → Bytes
packet_octets p n payload =
    p.code ∷ p.identifier ∷ (put_u16 (n % 65536) ++ (p.authenticator ++ payload))

unfoldable pub encode_bounded : Packet → Bounds → Result AttrError Bytes
encode_bounded p b₀ = do
  let b = normalized b₀
  guard (not (ltb b.max_attributes (length p.attributes))) too_many
  guard (not (ltb b.max_value (value_bytes p.attributes))) budget
  payload ← encode_attributes p.attributes
  guard (not (ltb b.max_packet (header_size + length payload))) packet_too_large
  ok (packet_octets p (header_size + length payload) payload)

unfoldable pub encode : Packet → Result AttrError Bytes
encode p = encode_bounded p default_bounds

-- Packet codes.
abbrev pub access_family : ℕ → Bool
access_family c = c == 1 || (c == 2 || (c == 3 || c == 11))

abbrev pub accounting_family : ℕ → Bool
accounting_family c = c == 4 || c == 5

unfoldable pub dynamic_auth_family : ℕ → Bool
dynamic_auth_family c = c == 40 || (c == 41 || (c == 42 || (c == 43 || (c == 44 || c == 45))))

-- Why a datagram is dropped.
pub data Reason : Type 0 where
  no_reason malformed_header invalid_length_reason : Reason

unfoldable pub discard_reason : Option AttrError → Reason
discard_reason none = no_reason
discard_reason (some header_short) = malformed_header
discard_reason (some invalid_length) = invalid_length_reason
discard_reason (some packet_too_large) = invalid_length_reason
discard_reason (some overflow) = invalid_length_reason
discard_reason (some attr_length) = invalid_length_reason
discard_reason (some too_many) = invalid_length_reason
discard_reason (some budget) = invalid_length_reason
discard_reason (some value_too_long) = invalid_length_reason
discard_reason (some not_vsa) = malformed_header
discard_reason (some vsa_short) = malformed_header
discard_reason (some vsa_value_long) = malformed_header
discard_reason (some vendor_tlv_malformed) = malformed_header
discard_reason (some vendor_tlv_long) = malformed_header
discard_reason (some no_fuel) = malformed_header
