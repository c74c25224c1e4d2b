-- ===== src/Tacacs/Cursor.antt =====
-- The reader of internal/tacacs/codec/cursor.go and the text test of ascii.go. A byte slice is a
-- list of numbers. A cursor `{b, off}` is the slice `b[off:]` that it has still to read: no
-- operation looks at the bytes before `off`. Go's nil slice and empty slice are both `[]`.
pub mod Laws
use go_lab_tacacs_mcp.Common.{
  Bool, Result, [], drop, err, false, guard, if◌then◌else◌, length, ltb, ok, take, true, ℕ, ◌%◌,
  ◌*◌, ◌+◌, ◌==◌, ◌||◌, ◌∷◌,
}
use go_lab_tacacs_mcp.Common.Bytes.{Bytes}
use go_lab_tacacs_mcp.Tacacs.Constants.{max_body_bytes}
use go_lab_tacacs_mcp.Tacacs.Errors.{
  Error, body_too_large, field_too_long, length_mismatch, non_printable,
}

-- `c.remain()`
abbrev pub remain : Bytes → ℕ
remain c = length c

unfoldable pub u8 : Bytes → Result Error (ℕ × Bytes)
u8 [] = err length_mismatch
u8 (v ∷ c) = ok (v, c)

-- Two bytes, the high one first.
unfoldable pub u16 : Bytes → Result Error (ℕ × Bytes)
u16 (h ∷ l ∷ c) = ok (h * 256 + l, c)
u16 _ = err length_mismatch

-- `c.bytes(n)`: `n` comes from one or two bytes and is never negative.
unfoldable pub bytes : ℕ → Bytes → Result Error (Bytes × Bytes)
bytes n c =
    if ltb (remain c) n
    then err length_mismatch
    else if n == 0
    then ok ([], c)
    else ok (take n c, drop n c)

unfoldable pub done : Bytes → Result Error (Unit {0})
done c = guard (remain c == 0) length_mismatch

-- `byte(len(b))`
unfoldable pub u8len : Bytes → Result Error ℕ
u8len b = if ltb 255 (length b) then err field_too_long else ok (length b % 256)

-- `uint16(len(b))`
unfoldable pub u16len : Bytes → Result Error ℕ
u16len b = if ltb 65535 (length b) then err field_too_long else ok (length b % 65536)

unfoldable pub check_body_cap : ℕ → Result Error (Unit {0})
check_body_cap n = if ltb max_body_bytes n then err body_too_large else ok tt

-- The loop ends at the first byte that is no printable US-ASCII.
unfoldable pub printable_ascii : Bytes → Bool
printable_ascii [] = true
printable_ascii (c ∷ cs) = if ltb c 0x20 || ltb 0x7e c then false else printable_ascii cs

unfoldable pub require_printable : Bytes → Result Error (Unit {0})
require_printable b = if printable_ascii b then ok tt else err non_printable
