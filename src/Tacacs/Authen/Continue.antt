-- ===== src/Tacacs/Authen/Continue.antt =====
-- `DecodeAuthenContinue` and `AuthenContinue.Encode`.
-- The message with the flag bits that `Encode` keeps.
use go_lab_tacacs_mcp.Common.{
  ==-refl, All, arith, bit_and, drop, length, length-drop, length-take, ok, take, true, ℕ, ◌*◌,
  ◌++◌, ◌+◌, ◌<◌, ◌∙◌, ◌∷◌, ◌≡◌, ◌≤◌,
}
use go_lab_tacacs_mcp.Common.Bytes.{Bytes, IsByte, put_u16}
use go_lab_tacacs_mcp.Tacacs.Authen.{AuthenContinue, decode_authen_continue, encode_authen_continue}
use go_lab_tacacs_mcp.Tacacs.Constants.{continue_flag_known_mask, max_body_bytes}
use go_lab_tacacs_mcp.Tacacs.Cursor.{
  check_body_cap, done, printable_ascii, require_printable, u16, u16len, u8,
}
use go_lab_tacacs_mcp.Tacacs.Cursor.Laws.{
  bytes-all, bytes-append, bytes_lem, two_lengths, two_slices, u16-put_u16,
}

unfoldable pub known_flags : AuthenContinue → AuthenContinue
known_flags m = record m { flags = bit_and m.flags continue_flag_known_mask }

abbrev layout : AuthenContinue → Bytes
layout m =
    put_u16 (length m.user_msg)
    ++ (put_u16 (length m.data_field) ++ (m.flags ∷ (m.user_msg ++ m.data_field)))

encode_inv :
    (m : AuthenContinue) (out : Bytes)
    → encode_authen_continue m ≡ ok out
    → (length m.user_msg < 65536)
      × (length m.data_field < 65536)
      × (printable_ascii m.user_msg ≡ true)
      × (out ≡ layout (known_flags m))
unfolding encode_authen_continue require_printable u16len check_body_cap known_flags
encode_inv m out h = ground arith

decode-layout :
    (m : AuthenContinue)
    → length m.user_msg < 65536
    → length m.data_field < 65536
    → printable_ascii m.user_msg ≡ true
    → decode_authen_continue (layout m) ≡ ok m
unfolding decode_authen_continue u8 done require_printable
decode-layout m hu hd k =
    simp (u16-put_u16, hu, hd, two_lengths, ==-refl, bytes-append, bytes-all, k)

-- Decoding what `Encode` wrote gives the CONTINUE back with its unknown flag bits cleared.
pub decode-encode_continue :
    (m : AuthenContinue) (out : Bytes)
    → encode_authen_continue m ≡ ok out
    → decode_authen_continue out ≡ ok (known_flags m)
unfolding known_flags
decode-encode_continue m out h =
    let (hu, hd, k, e) = encode_inv m out h in rw e (decode-layout (known_flags m) hu hd k)

abbrev slices : (um dl flags : ℕ) (c : Bytes) → AuthenContinue
slices um dl flags c = record {
  flags = flags;
  user_msg = take um c;
  data_field = take dl (drop um c);
}

decode_inv :
    (h₁ l₁ h₂ l₂ flags : ℕ) (c : Bytes) (z : AuthenContinue)
    → decode_authen_continue (h₁ ∷ l₁ ∷ h₂ ∷ l₂ ∷ flags ∷ c) ≡ ok z
    → (z ≡ slices (h₁ * 256 + l₁) (h₂ * 256 + l₂) flags c)
      × (length c ≡ (h₁ * 256 + l₁) + (h₂ * 256 + l₂))
      × (printable_ascii z.user_msg ≡ true)
unfolding decode_authen_continue u8 u16 done require_printable
decode_inv h₁ l₁ h₂ l₂ flags c z h =
    ground (arith, bytes_lem (h₁ * 256 + l₁) c, bytes_lem (h₂ * 256 + l₂) (drop (h₁ * 256 + l₁) c))

encode-slices :
    (um dl flags : ℕ) (c : Bytes)
    → um < 65536
    → dl < 65536
    → 5 + um + dl ≤ max_body_bytes
    → length c ≡ um + dl
    → printable_ascii (take um c) ≡ true
    → encode_authen_continue (slices um dl flags c)
      ≡ ok (put_u16 um ++ (put_u16 dl ++ (bit_and flags continue_flag_known_mask ∷ c)))
unfolding encode_authen_continue require_printable u16len check_body_cap
encode-slices um dl flags c hu hd cap hl k =
    ground
      (arith, two_slices um dl c hl, length-take um c, length-take dl (drop um c), length-drop um c)

-- A CONTINUE body within the body cap that decodes and whose flags are all known is the one that
-- `Encode` writes for the result.
pub encode-decode_continue :
    (p : Bytes) (z : AuthenContinue)
    → All IsByte p
    → length p ≤ max_body_bytes
    → decode_authen_continue p ≡ ok z
    → bit_and z.flags continue_flag_known_mask ≡ z.flags
    → encode_authen_continue z ≡ ok p
encode-decode_continue (h₁ ∷ l₁ ∷ h₂ ∷ l₂ ∷ flags ∷ c) z h fit e known =
    let (shape, fits, k) = decode_inv h₁ l₁ h₂ l₂ flags c z e in
    let k' : printable_ascii (take (h₁ * 256 + l₁) c) ≡ true = rw shape at k in
    rw shape (
      encode-slices (h₁ * 256 + l₁) (h₂ * 256 + l₂) flags c (omega arith) (omega arith)
        (omega arith) fits k'
      ∙ ground (arith, shape))
encode-decode_continue p z h fit e known = unfold decode_authen_continue u8 u16 in cc
