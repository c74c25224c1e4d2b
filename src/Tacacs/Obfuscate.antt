-- ===== src/Tacacs/Obfuscate.antt =====
-- Body obfuscation: internal/tacacs/codec/obfuscate.go. MD5 is a parameter.
pub mod Involution
use mathlib.Core.Option
use go_lab_tacacs_mcp.Common.{
  Option, [], if◌then◌else◌, length, ltb, none, some, suc, take, zero, ℕ, ◌++◌, ◌==◌, ◌∷◌,
}
use go_lab_tacacs_mcp.Common.Bytes.{Bytes, put_u32, xor_bytes}

module _ (md5 : Bytes → Bytes) where
  -- The loop of `obfuscationPad`. `none` is no Go value: the fuel ran out.
  unfoldable pub pad_loop : ℕ → ℕ → Bytes → Bytes → Bytes → Option Bytes
  pad_loop zero n prefix prev pad = if ltb (length pad) n then none else some pad
  pad_loop (suc fuel) n prefix prev pad =
      let sum = md5 (prefix ++ prev) in
      let rest = pad_loop fuel n prefix sum (pad ++ sum) in
      if ltb (length pad) n then rest else some pad

  -- A round adds a byte at least, so `n` rounds are enough.
  unfoldable pub obfuscation_pad : ℕ → ℕ → ℕ → Bytes → ℕ → Option Bytes
  unfolding pad_loop
  obfuscation_pad session_id version seq_no key n =
      Option.map (take n)
        (pad_loop n n (put_u32 session_id ++ (key ++ (version ∷ seq_no ∷ []))) [] [])

  unfoldable pub obfuscate : ℕ → ℕ → ℕ → Bytes → Bytes → Option Bytes
  unfolding obfuscation_pad xor_bytes
  obfuscate session_id version seq_no key body =
      if length body == 0
      then some []
      else Option.map (xor_bytes body) (obfuscation_pad session_id version seq_no key (length body))
