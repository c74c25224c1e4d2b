-- ===== src/Radius/Crypto.antt =====
-- RADIUS authenticators and password hiding: internal/radius/crypto. MD5 and HMAC-MD5 are
-- parameters; a hash over parts is the hash of their concatenation. `Wipe` of buffers that are no
-- longer read is left out.
pub mod Password
pub mod Reply
use Prim.Native.Char.{code}
use go_lab_tacacs_mcp.Common.{
  Result, [], drop, err, guard, if◌then◌else◌, length, ltb, not, ok, suc, take, zero, ℕ, ◌%◌, ◌&&◌,
  ◌*◌, ◌++◌, ◌+◌, ◌-◌, ◌/◌, ◌==◌, ◌>>=◌, ◌>>◌, ◌||◌, ◌∷◌,
}
use go_lab_tacacs_mcp.Common.Bytes.{Bytes, byte_at, put_u16, xor_bytes}
use go_lab_tacacs_mcp.Common.Text.{str_eq}
use go_lab_tacacs_mcp.Radius.Attribute.{AttrError, RawSet, decode_attributes, encode_attributes}
use go_lab_tacacs_mcp.Radius.Packet.{
  Header, decode_header, header_size, max_packet_bytes, min_packet_bytes,
}

-- An error of the attribute codec is passed on.
pub data CryptoError : Type 0 where
  empty_secret packet_short declared_length length_mismatch : CryptoError
  password_too_long hidden_password : CryptoError
  missing_ma duplicate_ma invalid_ma : CryptoError
  invalid_accounting invalid_response invalid_dyn_auth : CryptoError
  of_attribute : AttrError → CryptoError

abbrev pub max_user_password : ℕ
max_user_password = 128

abbrev pub type_message_authenticator : ℕ
type_message_authenticator = 80

-- `n` zero bytes, as `make` gives them.
unfoldable pub zeros : ℕ → Bytes
zeros zero = []
zeros (suc n) = 0 ∷ zeros n

-- An error of the attribute codec, as one of this package.
unfoldable pub lift {ℓ} : {A : Type ℓ} → Result AttrError A → Result CryptoError A
lift (ok a) = ok a
lift (err e) = err (of_attribute e)

unfoldable pub declared_header : Bytes → Result CryptoError (Header × Bytes)
declared_header packet =
    if ltb (length packet) header_size
    then err packet_short
    else (lift (decode_header packet) >>= λ h.
        if ltb h.packet_length min_packet_bytes
          || (ltb max_packet_bytes h.packet_length || ltb (length packet) h.packet_length)
        then err declared_length
        else ok (h, take h.packet_length packet))

-- The loop behind `end` in `UnhideUserPassword`: without the NULs that end `plain[:end]`.
unfoldable pub trim_end : ℕ → Bytes → ℕ
trim_end zero plain = 0
trim_end (suc e) plain = if byte_at plain e == 0 then trim_end e plain else suc e

-- `n/hiddenBlock`, in `HideUserPassword`.
abbrev pub hidden_blocks : ℕ → ℕ
hidden_blocks n = let k = (n + 15) / 16 in if k == 0 then 1 else k

module _ (md5 : Bytes → Bytes) where
  -- The loop of `HideUserPassword`, by blocks left; `prev` is the authenticator, then the block
  -- hidden last.
  unfoldable pub hide_loop : ℕ → Bytes → Bytes → Bytes → Bytes
  hide_loop zero secret prev padded = []
  hide_loop (suc k) secret prev padded =
      let block = xor_bytes (take 16 padded) (md5 (secret ++ prev)) in
      block ++ hide_loop k secret block (drop 16 padded)

  unfoldable pub hide_user_password : Bytes → Bytes → Bytes → Result CryptoError Bytes
  hide_user_password secret req_auth password =
      if length secret == 0
      then err empty_secret
      else if ltb max_user_password (length password)
      then err password_too_long
      else let k = hidden_blocks (length password) in
        ok (hide_loop k secret req_auth (password ++ zeros (16 * k - length password)))

  unfoldable pub unhide_loop : ℕ → Bytes → Bytes → Bytes → Bytes
  unhide_loop zero secret prev hidden = []
  unhide_loop (suc k) secret prev hidden =
      xor_bytes (take 16 hidden) (md5 (secret ++ prev))
      ++ unhide_loop k secret (take 16 hidden) (drop 16 hidden)

  unfoldable pub unhide_user_password : Bytes → Bytes → Bytes → Result CryptoError Bytes
  unhide_user_password secret req_auth hidden =
      if length secret == 0
      then err empty_secret
      else if ltb (length hidden) 16
          || (ltb max_user_password (length hidden) || not (length hidden % 16 == 0))
      then err hidden_password
      else let plain = unhide_loop (length hidden / 16) secret req_auth hidden in
        ok (take (trim_end (length plain) plain) plain)

  -- `length` is 0 for the length that the attributes give.
  unfoldable pub response_authenticator :
      Bytes → ℕ → ℕ → ℕ → Bytes → RawSet → Result CryptoError Bytes
  response_authenticator secret code id size req_auth attrs =
      if length secret == 0
      then err empty_secret
      else (lift (encode_attributes attrs) >>= λ attr_bytes.
          let computed = (header_size + length attr_bytes) % 65536 in
          if not (size == 0) && not (size == computed)
          then err length_mismatch
          else ok (md5 (code ∷ id ∷ (put_u16 computed ++ (req_auth ++ (attr_bytes ++ secret))))))

  unfoldable pub validate_response_authenticator :
      Bytes → Bytes → Bytes → Result CryptoError (Unit {0})
  validate_response_authenticator secret packet req_auth = do
    (h, declared) ← declared_header packet
    attrs ← lift (decode_attributes (drop header_size declared) 0 0)
    want ← response_authenticator secret h.code h.identifier h.packet_length req_auth attrs
    guard (str_eq h.authenticator want) invalid_response

  unfoldable pub dyn_auth_request_authenticator : Bytes → Bytes → Result CryptoError Bytes
  dyn_auth_request_authenticator secret packet =
      if length secret == 0
      then err empty_secret
      else (declared_header packet >>= λ (h, declared).
          ok (md5 (take 4 declared ++ (zeros 16 ++ (drop header_size declared ++ secret)))))

  unfoldable pub validate_dyn_auth_request : Bytes → Bytes → Result CryptoError (Unit {0})
  validate_dyn_auth_request secret packet = do
    (h, declared) ← declared_header packet
    want ← dyn_auth_request_authenticator secret packet
    guard (str_eq h.authenticator want) invalid_dyn_auth
