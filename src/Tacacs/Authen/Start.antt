-- ===== src/Tacacs/Authen/Start.antt =====
-- `DecodeAuthenStart` and `AuthenStart.Encode`.
use go_lab_tacacs_mcp.Common.{
  ==-refl, All, arith, drop, length, length-append, length-drop, length-take, ok, take, take-all,
  take-append-drop, true, ℕ, ◌++◌, ◌+◌, ◌<◌, ◌↔◌, ◌∷◌, ◌≡◌, ◌≤◌,
}
use go_lab_tacacs_mcp.Common.Bytes.{Bytes, IsByte}
use go_lab_tacacs_mcp.Tacacs.Authen.{AuthenStart, decode_authen_start, encode_authen_start}
use go_lab_tacacs_mcp.Tacacs.Cursor.{
  check_body_cap, done, printable_ascii, require_printable, u8, u8len,
}
use go_lab_tacacs_mcp.Tacacs.Cursor.Laws.{bytes-all, bytes-append, bytes_lem}

abbrev head_of : AuthenStart → ℕ → ℕ → ℕ → ℕ → Bytes → Bytes
head_of s ul pl rl dl rest = s.action ∷ s.priv_lvl ∷ s.typ ∷ s.service ∷ ul ∷ pl ∷ rl ∷ dl ∷ rest

abbrev layout : AuthenStart → Bytes
layout s =
    head_of s (length s.user) (length s.port) (length s.rem_addr) (length s.data_field)
      (s.user ++ (s.port ++ (s.rem_addr ++ s.data_field)))

record IsSendable (s : AuthenStart) : Type 0 where
  user_fits : length s.user ≤ 255
  port_fits : length s.port ≤ 255
  rem_fits : length s.rem_addr ≤ 255
  data_fits : length s.data_field ≤ 255
  port_text : printable_ascii s.port ≡ true
  rem_text : printable_ascii s.rem_addr ≡ true

encode_inv :
    (s : AuthenStart) (out : Bytes)
    → encode_authen_start s ≡ ok out
    → IsSendable s × (out ≡ layout s)
unfolding encode_authen_start require_printable u8len check_body_cap
encode_inv s out h = ground arith

four_lengths :
    (a b c d : Bytes) → length (a ++ (b ++ (c ++ d))) ≡ length a + length b + length c + length d
four_lengths a b c d =
    omega (arith, length-append a (b ++ (c ++ d)), length-append b (c ++ d), length-append c d)

decode-layout : (s : AuthenStart) → IsSendable s → decode_authen_start (layout s) ≡ ok s
unfolding decode_authen_start u8 done require_printable
decode-layout s v =
    rw (four_lengths s.user s.port s.rem_addr s.data_field)
      (simp (==-refl, bytes-append, bytes-all, v.port_text, v.rem_text))

-- Decoding what `Encode` wrote gives the same START back.
pub decode-encode :
    (s : AuthenStart) (out : Bytes)
    → encode_authen_start s ≡ ok out
    → decode_authen_start out ≡ ok s
decode-encode s out h = let (v, e) = encode_inv s out h in rw e (decode-layout s v)

-- The four fields that follow the fixed bytes, as slices of them.
abbrev slices : (a b t s ul pl rl dl : ℕ) (c : Bytes) → AuthenStart
slices a b t s ul pl rl dl c = record {
  action = a;
  priv_lvl = b;
  typ = t;
  service = s;
  user = take ul c;
  port = take pl (drop ul c);
  rem_addr = take rl (drop pl (drop ul c));
  data_field = take dl (drop rl (drop pl (drop ul c)));
}

decode_inv :
    (a b t s ul pl rl dl : ℕ) (c : Bytes) (z : AuthenStart)
    → decode_authen_start (a ∷ b ∷ t ∷ s ∷ ul ∷ pl ∷ rl ∷ dl ∷ c) ≡ ok z
    → (z ≡ slices a b t s ul pl rl dl c)
      × (length c ≡ ul + pl + rl + dl)
      × (printable_ascii z.port ≡ true)
      × (printable_ascii z.rem_addr ≡ true)
unfolding decode_authen_start u8 done require_printable
decode_inv a b t s ul pl rl dl c z h = ground (
  arith,
  bytes_lem ul c,
  bytes_lem pl (drop ul c),
  bytes_lem rl (drop pl (drop ul c)),
  bytes_lem dl (drop rl (drop pl (drop ul c))),
)

four_slices :
    (ul pl rl dl : ℕ) (c : Bytes)
    → length c ≡ ul + pl + rl + dl
    → take ul c
        ++ (take pl (drop ul c)
            ++ (take rl (drop pl (drop ul c)) ++ take dl (drop rl (drop pl (drop ul c)))))
      ≡ c
four_slices ul pl rl dl c h =
    rw
      (take-all dl (drop rl (drop pl (drop ul c))) (
        omega (
          arith,
          length-drop ul c,
          length-drop pl (drop ul c),
          length-drop rl (drop pl (drop ul c)),
        )))
      (simp take-append-drop)

encode-slices :
    (a b t s ul pl rl dl : ℕ) (c : Bytes)
    → ul < 256
    → pl < 256
    → rl < 256
    → dl < 256
    → length c ≡ ul + pl + rl + dl
    → printable_ascii (take pl (drop ul c)) ≡ true
    → printable_ascii (take rl (drop pl (drop ul c))) ≡ true
    → encode_authen_start (slices a b t s ul pl rl dl c)
      ≡ ok (a ∷ b ∷ t ∷ s ∷ ul ∷ pl ∷ rl ∷ dl ∷ c)
unfolding encode_authen_start require_printable u8len check_body_cap
encode-slices a b t s ul pl rl dl c hu hp hr hd hl k m = ground (
  arith,
  four_slices ul pl rl dl c hl,
  length-take ul c,
  length-take pl (drop ul c),
  length-take rl (drop pl (drop ul c)),
  length-take dl (drop rl (drop pl (drop ul c))),
  length-drop ul c,
  length-drop pl (drop ul c),
  length-drop rl (drop pl (drop ul c)),
)

-- A START body that decodes is the one that `Encode` writes for the result.
pub encode-decode :
    (p : Bytes) (z : AuthenStart)
    → All IsByte p
    → decode_authen_start p ≡ ok z
    → encode_authen_start z ≡ ok p
encode-decode (a ∷ b ∷ t ∷ s ∷ ul ∷ pl ∷ rl ∷ dl ∷ c) z h e =
    let (shape, fits, k, m) = decode_inv a b t s ul pl rl dl c z e in
    rw shape (
      encode-slices a b t s ul pl rl dl c (omega arith) (omega arith) (omega arith) (omega arith)
        fits (rw shape at k) (rw shape at m))
encode-decode p z h e = unfold decode_authen_start u8 in cc

-- On bytes, `DecodeAuthenStart` accepts a body with a result exactly when `Encode` writes that body
-- for the result.
pub decode_start_iff :
    (p : Bytes) (z : AuthenStart)
    → All IsByte p
    → (decode_authen_start p ≡ ok z) ↔ (encode_authen_start z ≡ ok p)
decode_start_iff p z h = (encode-decode p z h, decode-encode z p)
