-- ===== src/Tacacs/Acct/Reply.antt =====
-- `DecodeAcctReply` and `AcctReply.Encode`.
use go_lab_tacacs_mcp.Common.{
  ==-refl, All, arith, drop, length, length-drop, length-take, ok, take, true, ℕ, ◌*◌, ◌++◌, ◌+◌,
  ◌<◌, ◌↔◌, ◌∙◌, ◌∷◌, ◌≡◌, ◌≢◌, ◌≤◌,
}
use go_lab_tacacs_mcp.Common.Bytes.{Bytes, IsByte, put_u16}
use go_lab_tacacs_mcp.Tacacs.Acct.{AcctReply, decode_acct_reply, encode_acct_reply}
use go_lab_tacacs_mcp.Tacacs.Constants.{acct_status_follow, max_body_bytes}
use go_lab_tacacs_mcp.Tacacs.Cursor.{
  check_body_cap, done, printable_ascii, require_printable, u16, u16len, u8,
}
use go_lab_tacacs_mcp.Tacacs.Cursor.Laws.{
  bytes-all, bytes-append, bytes_lem, two_lengths, two_slices, u16-put_u16,
}

abbrev layout : AcctReply → Bytes
layout r =
    put_u16 (length r.server_msg)
    ++ (put_u16 (length r.data_field) ++ (r.status ∷ (r.server_msg ++ r.data_field)))

record IsSendable (r : AcctReply) : Type 0 where
  msg_fits : length r.server_msg < 65536
  data_fits : length r.data_field < 65536
  msg_text : printable_ascii r.server_msg ≡ true
  data_text : printable_ascii r.data_field ≡ true
  no_follow : r.status ≢ acct_status_follow

encode_inv :
    (r : AcctReply) (out : Bytes) → encode_acct_reply r ≡ ok out → IsSendable r × (out ≡ layout r)
unfolding encode_acct_reply require_printable u16len check_body_cap
encode_inv r out h = ground arith

decode-layout : (r : AcctReply) → IsSendable r → decode_acct_reply (layout r) ≡ ok r
unfolding decode_acct_reply u8 done require_printable
decode-layout r v = simp (
  u16-put_u16, v.msg_fits, v.data_fits, two_lengths, ==-refl, bytes-append, bytes-all, v.msg_text,
  v.data_text,
)

abbrev slices : (sm dl status : ℕ) (c : Bytes) → AcctReply
slices sm dl status c = record {
  status = status;
  server_msg = take sm c;
  data_field = take dl (drop sm c);
}

decode_inv :
    (h₁ l₁ h₂ l₂ status : ℕ) (c : Bytes) (z : AcctReply)
    → decode_acct_reply (h₁ ∷ l₁ ∷ h₂ ∷ l₂ ∷ status ∷ c) ≡ ok z
    → (z ≡ slices (h₁ * 256 + l₁) (h₂ * 256 + l₂) status c)
      × (length c ≡ (h₁ * 256 + l₁) + (h₂ * 256 + l₂))
      × (printable_ascii z.server_msg ≡ true)
      × (printable_ascii z.data_field ≡ true)
unfolding decode_acct_reply u8 u16 done require_printable
decode_inv h₁ l₁ h₂ l₂ status c z h =
    ground (arith, bytes_lem (h₁ * 256 + l₁) c, bytes_lem (h₂ * 256 + l₂) (drop (h₁ * 256 + l₁) c))

encode-slices :
    (sm dl status : ℕ) (c : Bytes)
    → status ≢ acct_status_follow
    → sm < 65536
    → dl < 65536
    → 5 + sm + dl ≤ max_body_bytes
    → length c ≡ sm + dl
    → printable_ascii (take sm c) ≡ true
    → printable_ascii (take dl (drop sm c)) ≡ true
    → encode_acct_reply (slices sm dl status c) ≡ ok (put_u16 sm ++ (put_u16 dl ++ (status ∷ c)))
unfolding encode_acct_reply require_printable u16len check_body_cap
encode-slices sm dl status c nf hu hd fit hl k m =
    ground
      (arith, two_slices sm dl c hl, length-take sm c, length-take dl (drop sm c), length-drop sm c)

-- `Encode` never writes FOLLOW, and decoding what it wrote gives the REPLY back.
pub decode-encode_acct_reply :
    (r : AcctReply) (out : Bytes)
    → encode_acct_reply r ≡ ok out
    → (r.status ≢ acct_status_follow) × (decode_acct_reply out ≡ ok r)
decode-encode_acct_reply r out h =
    let (v, e) = encode_inv r out h in (v.no_follow, rw e (decode-layout r v))

-- A REPLY body within the body cap that decodes and whose status is not FOLLOW is the one that
-- `Encode` writes for the result.
pub encode-decode_acct_reply :
    (p : Bytes) (z : AcctReply)
    → All IsByte p
    → length p ≤ max_body_bytes
    → decode_acct_reply p ≡ ok z
    → z.status ≢ acct_status_follow
    → encode_acct_reply z ≡ ok p
encode-decode_acct_reply (h₁ ∷ l₁ ∷ h₂ ∷ l₂ ∷ s ∷ c) z h fit e nf =
    let (shape, fits, k, m) = decode_inv h₁ l₁ h₂ l₂ s c z e in
    let k' : printable_ascii (take (h₁ * 256 + l₁) c) ≡ true = rw shape at k in
    let m' : printable_ascii (take (h₂ * 256 + l₂) (drop (h₁ * 256 + l₁) c)) ≡ true =
      rw shape at m in
    rw shape (
      encode-slices (h₁ * 256 + l₁) (h₂ * 256 + l₂) s c (rw shape at nf) (omega arith) (omega arith)
        (omega arith) fits k' m'
      ∙ ground arith)
encode-decode_acct_reply p z h fit e nf = unfold decode_acct_reply u8 u16 in cc

-- On bytes within the body cap, `Encode` writes a body for a REPLY exactly when the body decodes as
-- that REPLY and its status is not FOLLOW.
pub acct_reply_iff :
    (p : Bytes) (z : AcctReply)
    → All IsByte p
    → length p ≤ max_body_bytes
    → (encode_acct_reply z ≡ ok p)
      ↔ ((decode_acct_reply p ≡ ok z) × (z.status ≢ acct_status_follow))
acct_reply_iff p z h fit = (
  λ e. let (nf, d) = decode-encode_acct_reply z p e in (d, nf),
  λ d. encode-decode_acct_reply p z h fit d.0 d.1,
)
