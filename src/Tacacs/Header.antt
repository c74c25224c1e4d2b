-- ===== src/Tacacs/Header.antt =====
-- The packet header: internal/tacacs/codec/header.go. Bytes and the two 32-bit fields are numbers.
pub mod Packet
use Prim.Native.Nat.{bit_or}
use go_lab_tacacs_mcp.Common.{
  Bool, Result, bit_and, drop, err, if◌then◌else◌, length, ltb, not, ok, take, ℕ, ◌%◌, ◌*◌, ◌++◌,
  ◌+◌, ◌/◌, ◌==◌, ◌>>=◌, ◌||◌, ◌∷◌,
}
use go_lab_tacacs_mcp.Common.Bytes.{Bytes, byte_at, get_u32, put_u32}
use go_lab_tacacs_mcp.Tacacs.Constants.{
  flag_known_mask, header_size, major_ver, max_body_bytes, type_acct, type_authen, type_author,
}
use go_lab_tacacs_mcp.Tacacs.Errors.{
  Error, body_short, body_too_large, header_short, seq_wrap, seq_zero, unsupported_major,
}

-- Go's `Header`.
pub record Header : Type 0 where
  pub version : ℕ
  pub typ : ℕ
  pub seq_no : ℕ
  pub flags : ℕ
  pub session_id : ℕ
  pub body_length : ℕ

-- `MajorVer<<4 | (minor & 0x0f)`, in a byte.
unfoldable pub version_byte : ℕ → ℕ
version_byte minor = bit_or (major_ver * 16 % 256) (bit_and minor 0x0f)

unfoldable pub major : Header → ℕ
major h = h.version / 16

unfoldable pub minor : Header → ℕ
minor h = bit_and h.version 0x0f

unfoldable pub known_type : Header → Bool
known_type h = h.typ == type_authen || (h.typ == type_author || h.typ == type_acct)

unfoldable pub decode_header : Bytes → Result Error Header
decode_header p =
    if ltb (length p) header_size
    then err header_short
    else ok (record {
      version = byte_at p 0;
      typ = byte_at p 1;
      seq_no = byte_at p 2;
      flags = byte_at p 3;
      session_id = get_u32 (byte_at p 4) (byte_at p 5) (byte_at p 6) (byte_at p 7);
      body_length = get_u32 (byte_at p 8) (byte_at p 9) (byte_at p 10) (byte_at p 11);
    })

-- `Header.Encode`
unfoldable pub encode_header : Header → Bytes
encode_header h =
    h.version ∷ h.typ ∷ h.seq_no ∷ h.flags ∷ (put_u32 h.session_id ++ put_u32 h.body_length)

unfoldable pub clear_unknown_flags : Header → Header
clear_unknown_flags h = record h { flags = bit_and h.flags flag_known_mask }

unfoldable pub validate : Header → Result Error (Unit {0})
unfolding major
validate h =
    if not (major h == major_ver)
    then err unsupported_major
    else if h.seq_no == 0
    then err seq_zero
    else ok tt

unfoldable pub clamp_max_body : ℕ → ℕ
clamp_max_body max_body =
    if max_body == 0 || ltb max_body_bytes max_body then max_body_bytes else max_body

unfoldable pub body_budget : Header → ℕ → ℕ
unfolding clamp_max_body
body_budget h max_body =
    if ltb (clamp_max_body max_body) h.body_length then clamp_max_body max_body else h.body_length

-- `AllocateBody`: the size of the buffer.
unfoldable pub allocate_body : Header → ℕ → Result Error ℕ
unfolding clamp_max_body
allocate_body h max_body =
    if ltb (clamp_max_body max_body) h.body_length then err body_too_large else ok h.body_length

-- `copy(body, p[HeaderSize:need])`, into a buffer of exactly that size. The header that Go gives
-- beside an error is left out.
unfoldable pub decode_packet : Bytes → ℕ → Result Error (Header × Bytes)
decode_packet p max_body = do
  h ← decode_header p
  size ← allocate_body h max_body
  if ltb (length p) (header_size + h.body_length)
      then err body_short
      else ok (h, take size (drop header_size p))

unfoldable pub next_seq : ℕ → Result Error ℕ
next_seq seq = if seq == 0 then err seq_zero else if seq == 255 then err seq_wrap else ok (seq + 1)

unfoldable pub unknown_type_reply : Header → Result Error Header
unknown_type_reply h = do seq ← next_seq h.seq_no; ok (record h { seq_no = seq; body_length = 0 })
