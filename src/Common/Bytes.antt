-- ===== src/Common/Bytes.antt =====
-- Byte slices as lists of numbers, the two integer formats of encoding/binary, and exclusive or.
use go_lab_tacacs_mcp.Common.{
  ==_iff, All, List, [], arith, bit_xor, length, refl, suc, true, zero, ℕ, ◌%◌, ◌*◌, ◌+◌, ◌/◌, ◌<◌,
  ◌==◌, ◌^◌, ◌∷◌, ◌≡◌, ◌≤◌,
}
use go_lab_tacacs_mcp.Common.Bits.{holds_up_to, holds_up_to_lem}

abbrev pub Bytes : Type 0
Bytes = List ℕ

abbrev pub IsByte : ℕ → Type 0
IsByte b = b < 256

-- `binary.BigEndian.PutUint16`
abbrev pub put_u16 : ℕ → Bytes
put_u16 n = (n / 256 % 256) ∷ (n % 256) ∷ []

-- `p[i]`; callers have tested the length.
abbrev pub byte_at : Bytes → ℕ → ℕ
byte_at [] i = 0
byte_at (x ∷ p) zero = x
byte_at (x ∷ p) (suc i) = byte_at p i

-- `binary.BigEndian.Uint32(p[i:])` and `PutUint32`.
abbrev pub get_u32 : ℕ → ℕ → ℕ → ℕ → ℕ
get_u32 a b c d = a * 2 ^ 24 + b * 2 ^ 16 + c * 2 ^ 8 + d

abbrev pub put_u32 : ℕ → Bytes
put_u32 n = (n / 2 ^ 24 % 256) ∷ (n / 2 ^ 16 % 256) ∷ (n / 2 ^ 8 % 256) ∷ (n % 256) ∷ []

-- `out[i] = body[i] ^ pad[i]`, for a pad at least as long as the body.
unfoldable pub xor_bytes : Bytes → Bytes → Bytes
xor_bytes [] pad = []
xor_bytes (b ∷ body) [] = []
xor_bytes (b ∷ body) (p ∷ pad) = bit_xor b p ∷ xor_bytes body pad

pub put_u16-bytes : (h l : ℕ) → h < 256 → l < 256 → put_u16 (h * 256 + l) ≡ h ∷ l ∷ []
put_u16-bytes h l p q = ground arith

pub get-put_u32 :
    (n : ℕ)
    → n < 2 ^ 32
    → get_u32 (n / 2 ^ 24 % 256) (n / 2 ^ 16 % 256) (n / 2 ^ 8 % 256) (n % 256) ≡ n
get-put_u32 n h = omega arith

pub put-get_u32 :
    (a b c d : ℕ)
    → IsByte a
    → IsByte b
    → IsByte c
    → IsByte d
    → put_u32 (get_u32 a b c d) ≡ a ∷ b ∷ c ∷ d ∷ []
put-get_u32 a b c d ha hb hc hd = ground arith

xor_table : holds_up_to (λ b. holds_up_to (λ p. bit_xor (bit_xor b p) p == b) 256) 256 ≡ true
unfolding holds_up_to
xor_table = refl

pub xor_twice : (b p : ℕ) → IsByte b → IsByte p → bit_xor (bit_xor b p) p ≡ b
xor_twice b p hb hp = (==_iff (bit_xor (bit_xor b p) p) b).0 (
    holds_up_to_lem (λ q. bit_xor (bit_xor b q) q == b) 256 p hp
      (holds_up_to_lem (λ c. holds_up_to (λ q. bit_xor (bit_xor c q) q == c) 256) 256 b hb
        xor_table))

pub xor_bytes_twice :
    (body pad : Bytes)
    → All IsByte body
    → All IsByte pad
    → length body ≤ length pad
    → (xor_bytes (xor_bytes body pad) pad ≡ body) × (length (xor_bytes body pad) ≡ length body)
unfolding xor_bytes
xor_bytes_twice [] pad h k e = ground arith
xor_bytes_twice (b ∷ body) [] h k e = absurd (omega arith)
xor_bytes_twice (b ∷ body) (p ∷ pad) (hb, hs) (kp, ks) e =
    ground (arith, xor_twice b p hb kp, xor_bytes_twice body pad hs ks)
