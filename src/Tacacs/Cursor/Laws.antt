-- ===== src/Tacacs/Cursor/Laws.antt =====
-- What the reader of cursor.go returns on bytes that an encoder wrote, and what a read that
-- succeeds says of the bytes read.
use go_lab_tacacs_mcp.Common.{
  [], append-nil, arith, drop, drop-append, err, if◌then◌else◌, length, length-append, length-drop,
  length-take, ltb, ok, refl, suc, take, take-all, take-append, take-append-drop, true, zero, ℕ,
  ◌++◌, ◌+◌, ◌<◌, ◌∷◌, ◌≡◌,
}
use go_lab_tacacs_mcp.Common.Bytes.{Bytes, put_u16}
use go_lab_tacacs_mcp.Tacacs.Cursor.{bytes, done, printable_ascii, require_printable, u16}
use go_lab_tacacs_mcp.Tacacs.Errors.{length_mismatch}

pub bytes-append : (xs rest : Bytes) → bytes (length xs) (xs ++ rest) ≡ ok (xs, rest)
unfolding bytes
bytes-append [] rest = ground arith
bytes-append (x ∷ xs) rest =
    ground (arith, length-append (x ∷ xs) rest, take-append xs rest, drop-append xs rest)

-- The last field: nothing stands behind it.
pub bytes-all : (xs : Bytes) → bytes (length xs) xs ≡ ok (xs, [])
bytes-all xs = rw append-nil at (bytes-append xs [])

pub bytes_inv :
    (n : ℕ) (c xs rest : Bytes) → bytes n c ≡ ok (xs, rest) → (c ≡ xs ++ rest) × (length xs ≡ n)
unfolding bytes
bytes_inv n c xs rest h = ground (arith, take-append-drop n c, length-take n c)

pub u16-put_u16 : (n : ℕ) (rest : Bytes) → n < 65536 → u16 (put_u16 n ++ rest) ≡ ok (n, rest)
unfolding u16
u16-put_u16 n rest h = ground arith

pub done_inv : (c : Bytes) → done c ≡ ok tt → c ≡ []
unfolding done
done_inv [] h = refl
done_inv (x ∷ c) h = ground arith

pub require_printable_inv : (b : Bytes) → require_printable b ≡ ok tt → printable_ascii b ≡ true
unfolding require_printable
require_printable_inv b h = ground arith

pub bytes_lem :
    (n : ℕ) (c : Bytes)
    → bytes n c ≡ (if ltb (length c) n then err length_mismatch else ok (take n c, drop n c))
unfolding bytes
bytes_lem zero c = ground arith
bytes_lem (suc n) c = ground arith

-- The two fields that close a body with two lengths.
pub two_lengths : (a b : Bytes) → length (a ++ b) ≡ length a + length b
two_lengths a b = length-append a b

pub two_slices : (m n : ℕ) (c : Bytes) → length c ≡ m + n → take m c ++ take n (drop m c) ≡ c
two_slices m n c h =
    rw (take-all n (drop m c) (omega (arith, length-drop m c))) (take-append-drop m c)
