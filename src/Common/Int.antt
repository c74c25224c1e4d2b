-- ===== src/Common/Int.antt =====
-- Go's `int` where a value may be negative: `negsuc n` is -(n + 1).
use go_lab_tacacs_mcp.Common.{Bool, ap, arith, false, ltb, true, ℕ, ◌≡◌}

pub data ℤ : Type 0 where
  pos : ℕ → ℤ
  negsuc : ℕ → ℤ

-- `a < b`
abbrev pub int_ltb : ℤ → ℤ → Bool
int_ltb (pos a) (pos b) = ltb a b
int_ltb (pos a) (negsuc b) = false
int_ltb (negsuc a) (pos b) = true
int_ltb (negsuc a) (negsuc b) = ltb b a

pub int_ltb_asym : (a b : ℤ) → int_ltb a b ≡ true → int_ltb b a ≡ false
int_ltb_asym a b h = ground arith

pub int_ltb_trans : (a b c : ℤ) → int_ltb b a ≡ false → int_ltb c b ≡ false → int_ltb c a ≡ false
int_ltb_trans a b c h k = ground arith

pub int_ltb_irrefl : (a : ℤ) → int_ltb a a ≡ false
int_ltb_irrefl a = ground arith

pub int_ltb_total : (a b : ℤ) → int_ltb a b ≡ false → int_ltb b a ≡ false → a ≡ b
int_ltb_total (pos a) (pos b) h k = let e : a ≡ b = ground arith in ap pos e
int_ltb_total (pos a) (negsuc b) h k = cc
int_ltb_total (negsuc a) (pos b) h k = cc
int_ltb_total (negsuc a) (negsuc b) h k = let e : a ≡ b = ground arith in ap negsuc e
