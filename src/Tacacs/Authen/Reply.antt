-- ===== src/Tacacs/Authen/Reply.antt =====
-- `DecodeAuthenReply` and `AuthenReply.Encode`.
-- The message with the flag bits that `Encode` keeps.
use go_lab_tacacs_mcp.Common.{
  ==-refl, All, arith, bit_and, drop, length, length-drop, length-take, ok, take, true, ℕ, ◌*◌,
  ◌++◌, ◌+◌, ◌<◌, ◌∙◌, ◌∷◌, ◌≡◌, ◌≢◌, ◌≤◌,
}
use go_lab_tacacs_mcp.Common.Bytes.{Bytes, IsByte, put_u16}
use go_lab_tacacs_mcp.Tacacs.Authen.{AuthenReply, decode_authen_reply, encode_authen_reply}
use go_lab_tacacs_mcp.Tacacs.Constants.{authen_status_follow, max_body_bytes, reply_flag_known_mask}
use go_lab_tacacs_mcp.Tacacs.Cursor.{
  check_body_cap, done, printable_ascii, require_printable, u16, u16len, u8,
}
use go_lab_tacacs_mcp.Tacacs.Cursor.Laws.{
  bytes-all, bytes-append, bytes_lem, two_lengths, two_slices, u16-put_u16,
}

unfoldable pub known_reply_flags : AuthenReply → AuthenReply
known_reply_flags r = record r { flags = bit_and r.flags reply_flag_known_mask }

abbrev layout : AuthenReply → Bytes
layout r =
    r.status
    ∷ r.flags
    ∷ (put_u16 (length r.server_msg)
        ++ (put_u16 (length r.data_field) ++ (r.server_msg ++ r.data_field)))

encode_inv :
    (r : AuthenReply) (out : Bytes)
    → encode_authen_reply r ≡ ok out
    → (length r.server_msg < 65536)
      × (length r.data_field < 65536)
      × (printable_ascii r.server_msg ≡ true)
      × (out ≡ layout (known_reply_flags r))
      × (r.status ≢ authen_status_follow)
unfolding encode_authen_reply require_printable u16len check_body_cap known_reply_flags
encode_inv r out h = ground arith

decode-layout :
    (r : AuthenReply)
    → length r.server_msg < 65536
    → length r.data_field < 65536
    → printable_ascii r.server_msg ≡ true
    → decode_authen_reply (layout r) ≡ ok r
unfolding decode_authen_reply u8 done require_printable
decode-layout r hs hd k =
    simp (u16-put_u16, hs, hd, two_lengths, ==-refl, bytes-append, bytes-all, k)

-- `Encode` never writes FOLLOW, and decoding what it wrote gives the REPLY back with its unknown
-- flag bits cleared.
pub decode-encode_reply :
    (r : AuthenReply) (out : Bytes)
    → encode_authen_reply r ≡ ok out
    → (r.status ≢ authen_status_follow) × (decode_authen_reply out ≡ ok (known_reply_flags r))
unfolding known_reply_flags
decode-encode_reply r out h =
    let (hs, hd, k, e, nf) = encode_inv r out h in
    (nf, rw e (decode-layout (known_reply_flags r) hs hd k))

abbrev slices : (status flags sm dl : ℕ) (c : Bytes) → AuthenReply
slices status flags sm dl c = record {
  status = status;
  flags = flags;
  server_msg = take sm c;
  data_field = take dl (drop sm c);
}

decode_inv :
    (status flags h₁ l₁ h₂ l₂ : ℕ) (c : Bytes) (z : AuthenReply)
    → decode_authen_reply (status ∷ flags ∷ h₁ ∷ l₁ ∷ h₂ ∷ l₂ ∷ c) ≡ ok z
    → (z ≡ slices status flags (h₁ * 256 + l₁) (h₂ * 256 + l₂) c)
      × (length c ≡ (h₁ * 256 + l₁) + (h₂ * 256 + l₂))
      × (printable_ascii z.server_msg ≡ true)
unfolding decode_authen_reply u8 u16 done require_printable
decode_inv status flags h₁ l₁ h₂ l₂ c z h =
    ground (arith, bytes_lem (h₁ * 256 + l₁) c, bytes_lem (h₂ * 256 + l₂) (drop (h₁ * 256 + l₁) c))

encode-slices :
    (status flags sm dl : ℕ) (c : Bytes)
    → status ≢ authen_status_follow
    → sm < 65536
    → dl < 65536
    → 6 + sm + dl ≤ max_body_bytes
    → length c ≡ sm + dl
    → printable_ascii (take sm c) ≡ true
    → encode_authen_reply (slices status flags sm dl c)
      ≡ ok (status ∷ bit_and flags reply_flag_known_mask ∷ (put_u16 sm ++ (put_u16 dl ++ c)))
unfolding encode_authen_reply require_printable u16len check_body_cap
encode-slices status flags sm dl c nf hu hd fit hl k =
    ground
      (arith, two_slices sm dl c hl, length-take sm c, length-take dl (drop sm c), length-drop sm c)

-- A REPLY body within the body cap that decodes, whose status is not FOLLOW and whose flags are all
-- known, is the one that `Encode` writes for the result.
pub encode-decode_reply :
    (p : Bytes) (z : AuthenReply)
    → All IsByte p
    → length p ≤ max_body_bytes
    → decode_authen_reply p ≡ ok z
    → z.status ≢ authen_status_follow
    → bit_and z.flags reply_flag_known_mask ≡ z.flags
    → encode_authen_reply z ≡ ok p
encode-decode_reply (s ∷ f ∷ h₁ ∷ l₁ ∷ h₂ ∷ l₂ ∷ c) z h fit e nf known =
    let (shape, fits, k) = decode_inv s f h₁ l₁ h₂ l₂ c z e in
    let k' : printable_ascii (take (h₁ * 256 + l₁) c) ≡ true = rw shape at k in
    rw shape (
      encode-slices s f (h₁ * 256 + l₁) (h₂ * 256 + l₂) c (rw shape at nf) (omega arith)
        (omega arith) (omega arith) fits k'
      ∙ ground (arith, shape))
encode-decode_reply p z h fit e nf known = unfold decode_authen_reply u8 u16 in cc
