-- ===== src/Tacacs/Chap.antt =====
-- CHAP and MS-CHAP data: internal/tacacs/codec/chap.go.
pub mod Laws
use go_lab_tacacs_mcp.Common.{
  Result, drop, err, if◌then◌else◌, length, ltb, not, ok, take, ℕ, ◌++◌, ◌+◌, ◌-◌, ◌==◌, ◌||◌, ◌∷◌,
}
use go_lab_tacacs_mcp.Common.Bytes.{Bytes, byte_at}
use go_lab_tacacs_mcp.Tacacs.Constants.{
  chap_response_len, default_chap_min_challenge, min_chap_challenge, mschap_response_len,
  mschapv1_challenge_len, mschapv2_challenge_len,
}
use go_lab_tacacs_mcp.Tacacs.Errors.{Error, chap_length, mschap_length}

-- Go's `CHAPData`, and `MSCHAPData` with the same fields.
pub record ChapData : Type 0 where
  pub id : ℕ
  pub challenge : Bytes
  pub response : Bytes

pub record MschapData : Type 0 where
  pub id : ℕ
  pub challenge : Bytes
  pub response : Bytes

-- The minimum after the two corrections; a cap of 0 stands for the negative ones too.
unfoldable pub effective_min : ℕ → ℕ
effective_min min_challenge =
    let m = if min_challenge == 0 then default_chap_min_challenge else min_challenge in
    if ltb m min_chap_challenge then min_chap_challenge else m

unfoldable pub decode_chap_data : Bytes → ℕ → Result Error ChapData
unfolding effective_min
decode_chap_data p min_challenge =
    if ltb (length p) (1 + effective_min min_challenge + chap_response_len)
    then err chap_length
    else let n = length p - 1 - chap_response_len in
      ok (record { id = byte_at p 0; challenge = take n (drop 1 p); response = drop (1 + n) p })

unfoldable pub decode_mschap : Bytes → ℕ → Result Error MschapData
decode_mschap p challenge_len =
    if not (length p == 1 + challenge_len + mschap_response_len)
    then err mschap_length
    else ok (record {
      id = byte_at p 0;
      challenge = take challenge_len (drop 1 p);
      response = drop (1 + challenge_len) p;
    })

unfoldable pub decode_mschapv1_data : Bytes → Result Error MschapData
decode_mschapv1_data p = decode_mschap p mschapv1_challenge_len

unfoldable pub decode_mschapv2_data : Bytes → Result Error MschapData
decode_mschapv2_data p = decode_mschap p mschapv2_challenge_len

unfoldable pub encode_chap_data : ChapData → Result Error Bytes
encode_chap_data d =
    if not (length d.response == chap_response_len)
    then err chap_length
    else ok (d.id ∷ (d.challenge ++ d.response))

unfoldable pub encode_mschap_data : MschapData → Result Error Bytes
encode_mschap_data d =
    if not (length d.response == mschap_response_len)
    then err mschap_length
    else if length d.challenge == mschapv1_challenge_len
        || length d.challenge == mschapv2_challenge_len
    then ok (d.id ∷ (d.challenge ++ d.response))
    else err mschap_length
