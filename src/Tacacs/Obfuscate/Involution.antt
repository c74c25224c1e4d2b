-- ===== src/Tacacs/Obfuscate/Involution.antt =====
-- The pad loop, and obfuscating twice.
use go_lab_tacacs_mcp.Common.{
  All, All-append, All-take, Bool-cases, [], arith, inl, inr, length, length-append, length-take,
  ltb, refl, some, suc, suc-==-zero, take, zero, ℕ, ◌++◌, ◌+◌, ◌∷◌, ◌≡◌, ◌≤◌,
}
use go_lab_tacacs_mcp.Common.Bytes.{Bytes, IsByte, put_u32, xor_bytes, xor_bytes_twice}
use go_lab_tacacs_mcp.Tacacs.Obfuscate.{obfuscate, obfuscation_pad, pad_loop}

module _ (md5 : Bytes → Bytes) (md5_length : (x : Bytes) → length (md5 x) ≡ 16)
    (md5_bytes : (x : Bytes) → All IsByte (md5 x)) where
  pad_loop_total :
      (fuel n : ℕ) (prefix prev pad : Bytes)
      → n ≤ fuel + length pad
      → All IsByte pad
      → (out : Bytes) × (pad_loop md5 fuel n prefix prev pad ≡ some out)
        × (n ≤ length out)
        × All IsByte out
  unfolding pad_loop
  pad_loop_total zero n prefix prev pad h k = (pad, ground arith, omega arith, k)
  pad_loop_total (suc fuel) n prefix prev pad h k = elim (Bool-cases (ltb (length pad) n)) [
    | inl e ↦
        let sum = md5 (prefix ++ prev) in
        let (out, q, l, b) =
          pad_loop_total fuel n prefix sum (pad ++ sum)
            (omega (arith, length-append pad sum, md5_length (prefix ++ prev)))
            (All-append IsByte pad sum k (md5_bytes (prefix ++ prev))) in
        (out, rw e q, l, b)
    | inr e ↦ (pad, rw e refl, ground (arith, e), k)
  ]

  pad_total :
      (session_id version seq_no : ℕ) (key : Bytes) (n : ℕ)
      → (pad : Bytes) × (obfuscation_pad md5 session_id version seq_no key n ≡ some pad)
        × (length pad ≡ n)
        × All IsByte pad
  unfolding obfuscation_pad
  pad_total session_id version seq_no key n =
      let prefix = put_u32 session_id ++ (key ++ (version ∷ seq_no ∷ [])) in
      let (out, q, l, b) = pad_loop_total n n prefix [] [] (omega arith) tt in
      (take n out, rw q refl, omega (arith, length-take n out), All-take IsByte n out b)

  -- With a hash of 16 bytes, obfuscation of a body ends, keeps its length, and a second one with
  -- the same session, version, sequence number and key gives the body back.
  pub obfuscate_twice :
      (session_id version seq_no : ℕ) (key body : Bytes)
      → All IsByte body
      → (out : Bytes) × (obfuscate md5 session_id version seq_no key body ≡ some out)
        × (length out ≡ length body)
        × (obfuscate md5 session_id version seq_no key out ≡ some body)
  unfolding obfuscate
  obfuscate_twice session_id version seq_no key [] h = ([], refl, refl, refl)
  obfuscate_twice session_id version seq_no key (x ∷ body) h =
      let (pad, q, l, b) = pad_total session_id version seq_no key (length (x ∷ body)) in
      let (twice, same) = xor_bytes_twice (x ∷ body) pad h b (omega arith) in
      (xor_bytes (x ∷ body) pad, rw (q, suc-==-zero), same, rw (same, q, twice, suc-==-zero))
