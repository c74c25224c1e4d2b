-- ===== src/Tacacs/Header/Packet.antt =====
-- Headers and packets on the wire.
-- The fields fit their widths.
use go_lab_tacacs_mcp.Common.{
  All, Result-cases, arith, drop, inl, inr, length, length-append, length-drop, length-take, ok,
  take, take-add, take-append, ℕ, ◌++◌, ◌+◌, ◌<◌, ◌^◌, ◌↔◌, ◌∷◌, ◌≡◌, ◌≤◌,
}
use go_lab_tacacs_mcp.Common.Bytes.{Bytes, IsByte, get-put_u32, put-get_u32}
use go_lab_tacacs_mcp.Tacacs.Constants.{header_size, max_body_bytes}
use go_lab_tacacs_mcp.Tacacs.Header.{
  Header, allocate_body, body_budget, clamp_max_body, decode_header, decode_packet, encode_header,
}

pub record IsHeader (h : Header) : Type 0 where
  pub version_fits : h.version < 256
  pub typ_fits : h.typ < 256
  pub seq_fits : h.seq_no < 256
  pub flags_fit : h.flags < 256
  pub session_fits : h.session_id < 2 ^ 32
  pub length_fits : h.body_length < 2 ^ 32

-- Decoding the header that `Encode` wrote gives it back, whatever bytes follow.
pub decode-encode_header :
    (h : Header) (rest : Bytes) → IsHeader h → decode_header (encode_header h ++ rest) ≡ ok h
unfolding decode_header encode_header
decode-encode_header h rest v = ground (arith, get-put_u32 h.session_id, get-put_u32 h.body_length)

-- A header that decodes fits its widths, and `Encode` writes the first 12 bytes for it.
pub encode-decode_header :
    (p : Bytes) (h : Header)
    → All IsByte p
    → decode_header p ≡ ok h
    → IsHeader h × (encode_header h ≡ take header_size p)
unfolding decode_header encode_header
encode-decode_header (a ∷ b ∷ c ∷ d ∷ e ∷ f ∷ g ∷ i ∷ j ∷ k ∷ l ∷ m ∷ p) h w x =
    ground (arith, put-get_u32 e f g i, put-get_u32 j k l m)
encode-decode_header p h w x = ground arith

-- `DecodePacket` returns a header with a body of exactly the declared length, which is at most
-- the clamped cap; and header and body are the first bytes of the input.
pub decode_packet_exact :
    (p : Bytes) (max_body : ℕ) (h : Header) (body : Bytes)
    → All IsByte p
    → decode_packet p max_body ≡ ok (h, body)
    → (length body ≡ h.body_length)
      × (h.body_length ≤ clamp_max_body max_body)
      × (clamp_max_body max_body ≤ max_body_bytes)
      × (encode_header h ++ body ≡ take (header_size + h.body_length) p)
unfolding decode_packet allocate_body clamp_max_body
decode_packet_exact p max_body h body w x = elim (Result-cases (decode_header p)) [
  | inl (h', e) ↦
      let (v, r) = encode-decode_header p h' w e in
      ground (
        arith,
        e,
        r,
        take-add header_size h'.body_length p,
        length-take h'.body_length (drop header_size p),
        length-drop header_size p,
      )
  | inr (k, e) ↦ ground (arith, e)
]

-- Every packet of at most the clamped cap is read back from the stream: header, body, and whatever
-- bytes follow are left out.
pub decode_packet-encode :
    (h : Header) (body rest : Bytes) (max_body : ℕ)
    → IsHeader h
    → length body ≡ h.body_length
    → h.body_length ≤ clamp_max_body max_body
    → decode_packet (encode_header h ++ (body ++ rest)) max_body ≡ ok (h, body)
unfolding decode_packet allocate_body encode_header
decode_packet-encode h body rest max_body v e fit =
    rw (decode-encode_header h (body ++ rest) v)
      (ground (arith, length-append body rest, take-append body rest))

-- No header makes a reader ask for more than the clamped cap, which never passes 65536, or than
-- the declared length; the buffer is allocated exactly when the length is within the cap.
pub body_budget_bounds :
    (h : Header) (max_body : ℕ)
    → (body_budget h max_body ≤ max_body_bytes)
      × (body_budget h max_body ≤ h.body_length)
      × ((body_budget h max_body ≡ h.body_length) ↔ (allocate_body h max_body ≡ ok h.body_length))
unfolding body_budget allocate_body clamp_max_body
body_budget_bounds h max_body = ground arith
