-- ===== src/Tacacs/Chap/Laws.antt =====
-- Splitting and joining CHAP data.
use go_lab_tacacs_mcp.Common.{
  [], arith, drop, drop-append, err, if◌then◌else◌, inl, inr, length, length-append, length-drop,
  length-take, ok, suc, take-append, take-append-drop, ℕ, ◌++◌, ◌+◌, ◌-◌, ◌==◌, ◌↔◌, ◌∷◌, ◌≡◌, ◌≤◌,
  ◌⊎◌,
}
use go_lab_tacacs_mcp.Common.Bytes.{Bytes}
use go_lab_tacacs_mcp.Tacacs.Chap.{
  ChapData, MschapData, decode_chap_data, decode_mschap, decode_mschapv1_data, decode_mschapv2_data,
  effective_min, encode_chap_data, encode_mschap_data,
}
use go_lab_tacacs_mcp.Tacacs.Constants.{chap_response_len, mschap_response_len}
use go_lab_tacacs_mcp.Tacacs.Errors.{mschap_length}

drop_one-add : (n x : ℕ) (p : Bytes) → drop (1 + n) (x ∷ p) ≡ drop n p
drop_one-add n x p = let e : 1 + n ≡ suc n = omega arith in rw e

-- CHAP data that decodes splits into a challenge of at least the minimum, never below 5 bytes, and
-- a response of 16; and `EncodeCHAPData` joins it again.
pub encode-decode_chap :
    (p : Bytes) (min_challenge : ℕ) (d : ChapData)
    → decode_chap_data p min_challenge ≡ ok d
    → (encode_chap_data d ≡ ok p)
      × (effective_min min_challenge ≤ length d.challenge)
      × (5 ≤ length d.challenge)
      × (length d.response ≡ chap_response_len)
unfolding decode_chap_data encode_chap_data
encode-decode_chap [] m d h = ground arith
encode-decode_chap (x ∷ p) m d h =
    let n = length (x ∷ p) - 1 - chap_response_len in
    ground (arith, drop_one-add n x p, length-take n p, length-drop n p, take-append-drop n p)

-- Joined CHAP data splits at the same place, when the challenge has the minimum length.
pub decode-encode_chap :
    (d : ChapData) (min_challenge : ℕ) (out : Bytes)
    → encode_chap_data d ≡ ok out
    → effective_min min_challenge ≤ length d.challenge
    → decode_chap_data out min_challenge ≡ ok d
unfolding decode_chap_data encode_chap_data
decode-encode_chap d m out h k = ground (
  arith,
  length-append d.challenge d.response,
  take-append d.challenge d.response,
  drop-append d.challenge d.response,
  drop_one-add (length d.challenge) d.id (d.challenge ++ d.response),
)

decode_mschap_inv :
    (p : Bytes) (n : ℕ) (d : MschapData)
    → decode_mschap p n ≡ ok d
    → (p ≡ d.id ∷ (d.challenge ++ d.response))
      × (length d.challenge ≡ n)
      × (length d.response ≡ mschap_response_len)
unfolding decode_mschap
decode_mschap_inv [] n d h = ground arith
decode_mschap_inv (x ∷ p) n d h =
    ground (arith, drop_one-add n x p, length-take n p, length-drop n p, take-append-drop n p)

encode_mschap-joined :
    (d : MschapData)
    → (length d.challenge ≡ 8) ⊎ (length d.challenge ≡ 16)
    → length d.response ≡ mschap_response_len
    → encode_mschap_data d ≡ ok (d.id ∷ (d.challenge ++ d.response))
unfolding encode_mschap_data
encode_mschap-joined d h k = ground arith

-- MS-CHAP data of either version that decodes is what `EncodeMSCHAPData` joins.
pub encode-decode_mschap :
    (p : Bytes) (d : MschapData)
    → (decode_mschapv1_data p ≡ ok d) ⊎ (decode_mschapv2_data p ≡ ok d)
    → encode_mschap_data d ≡ ok p
encode-decode_mschap p d (inl h) =
    let (e, c, r) = decode_mschap_inv p 8 d (unfold decode_mschapv1_data in h) in
    rw e (encode_mschap-joined d (inl c) r)
encode-decode_mschap p d (inr h) =
    let (e, c, r) = decode_mschap_inv p 16 d (unfold decode_mschapv2_data in h) in
    rw e (encode_mschap-joined d (inr c) r)

decode_mschap-joined :
    (d : MschapData) (n : ℕ)
    → length d.response ≡ mschap_response_len
    → decode_mschap (d.id ∷ (d.challenge ++ d.response)) n
      ≡ (if length d.challenge == n then ok d else err mschap_length)
unfolding decode_mschap
decode_mschap-joined d n h = ground (
  arith,
  length-append d.challenge d.response,
  take-append d.challenge d.response,
  drop-append d.challenge d.response,
  drop_one-add n d.id (d.challenge ++ d.response),
)

-- Joined MS-CHAP data decodes as the version of its challenge length, and as no other.
pub decode-encode_mschap :
    (d : MschapData) (out : Bytes)
    → encode_mschap_data d ≡ ok out
    → ((length d.challenge ≡ 8)
        × (decode_mschapv1_data out ≡ ok d)
        × (decode_mschapv2_data out ≡ err mschap_length))
      ⊎ ((length d.challenge ≡ 16)
          × (decode_mschapv2_data out ≡ ok d)
          × (decode_mschapv1_data out ≡ err mschap_length))
unfolding decode_mschapv1_data decode_mschapv2_data encode_mschap_data
decode-encode_mschap d out h = ground (arith, decode_mschap-joined d 8, decode_mschap-joined d 16)

-- `DecodeCHAPData` splits bytes as some data exactly when `EncodeCHAPData` joins that data to those
-- bytes and the challenge has the effective minimum length.
pub decode_chap_iff :
    (p : Bytes) (min_challenge : ℕ) (d : ChapData)
    → (decode_chap_data p min_challenge ≡ ok d)
      ↔ ((encode_chap_data d ≡ ok p) × (effective_min min_challenge ≤ length d.challenge))
decode_chap_iff p m d = (
  λ h. let (e, a, b, c) = encode-decode_chap p m d h in (e, a),
  λ h. decode-encode_chap d m p h.0 h.1,
)

-- `EncodeMSCHAPData` joins data to some bytes exactly when one of the two decoders splits those bytes
-- as that data.
pub mschap_iff :
    (p : Bytes) (d : MschapData)
    → (encode_mschap_data d ≡ ok p)
      ↔ ((decode_mschapv1_data p ≡ ok d) ⊎ (decode_mschapv2_data p ≡ ok d))
mschap_iff p d = (λ h. either_version d p h, encode-decode_mschap p d)
  where
    either_version :
        (d : MschapData) (p : Bytes)
        → encode_mschap_data d ≡ ok p
        → (decode_mschapv1_data p ≡ ok d) ⊎ (decode_mschapv2_data p ≡ ok d)
    either_version d p h = elim (decode-encode_mschap d p h) [ inl x ↦ inl x.1 | inr x ↦ inr x.1 ]
