-- ===== src/Radius/Crypto/Password.antt =====
-- `HideUserPassword` and `UnhideUserPassword`.
use go_lab_tacacs_mcp.Common.{
  All, All-append, All-drop, All-take, Bool-cases, [], ap, append-nil, append_assoc, arith, drop,
  drop-append_of_length, false, inl, inr, length, length-append, length-drop, length-take, ltb, ok,
  refl, suc, suc-==-zero, sym, take, take-append-drop, take-append_of_length, zero, ℕ, ◌%◌, ◌*◌,
  ◌++◌, ◌+◌, ◌-◌, ◌/◌, ◌<◌, ◌==◌, ◌∙◌, ◌∷◌, ◌≡◌, ◌≢◌, ◌≤◌,
}
use go_lab_tacacs_mcp.Common.Bytes.{Bytes, IsByte, byte_at, xor_bytes, xor_bytes_twice}
use go_lab_tacacs_mcp.Radius.Crypto.{
  hidden_blocks, hide_loop, hide_user_password, max_user_password, trim_end, unhide_loop,
  unhide_user_password, zeros,
}

length-zeros : (n : ℕ) → length (zeros n) ≡ n
unfolding zeros
length-zeros zero = refl
length-zeros (suc n) = omega (arith, length-zeros n)

zeros-All : (n : ℕ) → All IsByte (zeros n)
unfolding zeros
zeros-All zero = tt
zeros-All (suc n) = (omega arith, zeros-All n)

byte_at-zeros : (m i : ℕ) → byte_at (zeros m) i ≡ 0
unfolding zeros
byte_at-zeros zero i = refl
byte_at-zeros (suc m) zero = refl
byte_at-zeros (suc m) (suc i) = byte_at-zeros m i

byte_at-append : (xs ys : Bytes) (i : ℕ) → i < length xs → byte_at (xs ++ ys) i ≡ byte_at xs i
byte_at-append [] ys i h = absurd (omega arith)
byte_at-append (x ∷ xs) ys zero h = refl
byte_at-append (x ∷ xs) ys (suc i) h = byte_at-append xs ys i (omega arith)

byte_at-padded : (xs : Bytes) (m i : ℕ) → length xs ≤ i → byte_at (xs ++ zeros m) i ≡ 0
byte_at-padded [] m i h = byte_at-zeros m i
byte_at-padded (x ∷ xs) m zero h = absurd (omega arith)
byte_at-padded (x ∷ xs) m (suc i) h = byte_at-padded xs m i (omega arith)

-- Neither the padding nor what stands behind `e` is looked at.
trim_end-append : (e : ℕ) (xs ys : Bytes) → e ≤ length xs → trim_end e (xs ++ ys) ≡ trim_end e xs
unfolding trim_end
trim_end-append zero xs ys h = refl
trim_end-append (suc e) xs ys h =
    rw (byte_at-append xs ys e (omega arith), trim_end-append e xs ys (omega arith)) refl

trim_end-padded :
    (j : ℕ) (xs : Bytes) (m : ℕ)
    → trim_end (j + length xs) (xs ++ zeros m) ≡ trim_end (length xs) xs
unfolding trim_end
trim_end-padded zero xs m =
    let e : 0 + length xs ≡ length xs = omega arith in
    rw e (trim_end-append (length xs) xs (zeros m) (omega arith))
trim_end-padded (suc j) xs m =
    let e : suc j + length xs ≡ suc (j + length xs) = omega arith in
    rw (e, byte_at-padded xs m (j + length xs) (omega arith)) (trim_end-padded j xs m)

trim_end-le : (e : ℕ) (xs : Bytes) → trim_end e xs ≤ e
unfolding trim_end
trim_end-le zero xs = omega arith
trim_end-le (suc e) xs = ground (arith, trim_end-le e xs)

take-append_le : (n : ℕ) (xs ys : Bytes) → n ≤ length xs → take n (xs ++ ys) ≡ take n xs
take-append_le zero xs ys h = refl
take-append_le (suc n) [] ys h = absurd (omega arith)
take-append_le (suc n) (x ∷ xs) ys h = ap (λ t. x ∷ t) (take-append_le n xs ys (omega arith))

trimmed :
    (xs : Bytes) (m : ℕ)
    → take (trim_end (length (xs ++ zeros m)) (xs ++ zeros m)) (xs ++ zeros m)
      ≡ take (trim_end (length xs) xs) xs
trimmed xs m =
    let e : length (xs ++ zeros m) ≡ m + length xs =
      omega (arith, length-append xs (zeros m), length-zeros m) in
    rw (e, trim_end-padded m xs m)
      (take-append_le (trim_end (length xs) xs) xs (zeros m) (trim_end-le (length xs) xs))

-- The last byte, where there is one, is no NUL.
abbrev pub IsTrimmed : Bytes → Type 0
IsTrimmed [] = Unit
IsTrimmed (x ∷ []) = x ≢ 0
IsTrimmed (x ∷ y ∷ ys) = IsTrimmed (y ∷ ys)

IsTrimmed-append : (xs : Bytes) (b : ℕ) → b ≢ 0 → IsTrimmed (xs ++ (b ∷ []))
IsTrimmed-append [] b h = h
IsTrimmed-append (x ∷ []) b h = h
IsTrimmed-append (x ∷ y ∷ ys) b h = IsTrimmed-append (y ∷ ys) b h

take-suc : (e : ℕ) (xs : Bytes) → e < length xs → take (suc e) xs ≡ take e xs ++ (byte_at xs e ∷ [])
take-suc e [] h = absurd (omega arith)
take-suc zero (x ∷ xs) h = refl
take-suc (suc e) (x ∷ xs) h = ap (λ t. x ∷ t) (take-suc e xs (omega arith))

take-length : (xs : Bytes) → take (length xs) xs ≡ xs
take-length [] = refl
take-length (x ∷ xs) = ap (λ t. x ∷ t) (take-length xs)

-- The bytes of `p` and NULs behind them, where `p` is as long as it has to be.
abbrev pub IsTrimOf : Bytes → Bytes → Type 0
IsTrimOf xs p = (nuls : Bytes) × (xs ≡ p ++ nuls) × All (λ b. b ≡ 0) nuls × IsTrimmed p

take-IsTrimOf :
    (e : ℕ) (xs : Bytes) → e ≤ length xs → IsTrimOf (take e xs) (take (trim_end e xs) xs)
unfolding trim_end
take-IsTrimOf zero xs h = ([], refl, tt, tt)
take-IsTrimOf (suc e) xs h = elim (Bool-cases (byte_at xs e == 0)) [
  | inl t ↦
      let (nuls, same, all, trim) = take-IsTrimOf e xs (omega arith) in
      let last : byte_at xs e ≡ 0 = ground (arith, t) in
      let p = take (trim_end e xs) xs in
      rw (t, trim_end)
        (
          nuls ++ (byte_at xs e ∷ []),
          take-suc e xs (omega arith)
              ∙ (ap (λ l. l ++ (byte_at xs e ∷ [])) same ∙ append_assoc p nuls (byte_at xs e ∷ [])),
          All-append (λ b. b ≡ 0) nuls (byte_at xs e ∷ []) all (last, tt),
          trim,
        )
  | inr t ↦
      rw (t, trim_end)
        (
          [],
          sym (append-nil (take (suc e) xs)),
          tt,
          rw (take-suc e xs (omega arith))
              (IsTrimmed-append (take e xs) (byte_at xs e) (ground (arith, t))),
        )
]

password-IsTrimOf : (xs : Bytes) → IsTrimOf xs (take (trim_end (length xs) xs) xs)
password-IsTrimOf xs =
    let (nuls, same, all, trim) = take-IsTrimOf (length xs) xs (omega arith) in
    (nuls, sym (take-length xs) ∙ same, all, trim)

module _ (md5 : Bytes → Bytes) (md5_length : (x : Bytes) → length (md5 x) ≡ 16)
    (md5_bytes : (x : Bytes) → All IsByte (md5 x)) where
  unhide-hide_loop :
      (k : ℕ) (secret prev padded : Bytes)
      → All IsByte padded
      → length padded ≡ 16 * k
      → (length (hide_loop md5 k secret prev padded) ≡ 16 * k)
        × (unhide_loop md5 k secret prev (hide_loop md5 k secret prev padded) ≡ padded)
  unfolding hide_loop unhide_loop
  unhide-hide_loop zero secret prev [] w h = (omega arith, refl)
  unhide-hide_loop zero secret prev (x ∷ p) w h = absurd (omega arith)
  unhide-hide_loop (suc k) secret prev p w h =
      let pad = md5 (secret ++ prev) in
      let block = xor_bytes (take 16 p) pad in
      let (twice, same) =
        xor_bytes_twice (take 16 p) pad (All-take IsByte 16 p w) (md5_bytes (secret ++ prev))
          (omega (arith, length-take 16 p, md5_length (secret ++ prev))) in
      let (len, back) =
        unhide-hide_loop k secret block (drop 16 p) (All-drop IsByte 16 p w)
          (omega (arith, length-drop 16 p)) in
      let sixteen : length block ≡ 16 = omega (arith, same, length-take 16 p) in
      let rest = hide_loop md5 k secret block (drop 16 p) in
      let front : take 16 (block ++ rest) ≡ block = take-append_of_length 16 block rest sixteen in
      let back' : drop 16 (block ++ rest) ≡ rest = drop-append_of_length 16 block rest sixteen in
      (
        omega (arith, length-append block rest, len, sixteen),
        rw (front, back', twice, back) (take-append-drop 16 p),
      )

  -- With a hash of 16 bytes: a password of at most 128 bytes is hidden in 16 to 128 bytes, a
  -- multiple of 16, and unhiding with the same secret and authenticator gives the password back
  -- without the NULs at its end: bytes with no NUL at their end that give the password with NULs
  -- behind them.
  pub unhide-hide :
      (secret req_auth password : Bytes)
      → secret ≢ []
      → length password ≤ max_user_password
      → All IsByte password
      → (hidden : Bytes) × (hide_user_password md5 secret req_auth password ≡ ok hidden)
        × (16 ≤ length hidden)
        × (length hidden ≤ max_user_password)
        × (length hidden % 16 ≡ 0)
        × ((plain : Bytes) × (unhide_user_password md5 secret req_auth hidden ≡ ok plain)
            × IsTrimOf password plain)
  unfolding hide_user_password unhide_user_password
  unhide-hide [] req_auth password s h w = absurd (s refl)
  unhide-hide (c ∷ cs) req_auth password s h w =
      let k = hidden_blocks (length password) in
      let m = 16 * k - length password in
      let padded = password ++ zeros m in
      let k₁ : 1 ≤ k = ground arith in
      let k₈ : k ≤ 8 = ground arith in
      let fits : length password ≤ 16 * k = ground arith in
      let size : length padded ≡ 16 * k =
        omega (arith, length-append password (zeros m), length-zeros m, fits) in
      let (len, back) =
        unhide-hide_loop k (c ∷ cs) req_auth padded
          (All-append IsByte password (zeros m) w (zeros-All m)) size in
      let hidden = hide_loop md5 k (c ∷ cs) req_auth padded in
      let t : ltb max_user_password (length password) ≡ false = ground (arith, h) in
      let t' : ltb (length hidden) 16 ≡ false = ground (arith, len) in
      let t'' : ltb max_user_password (length hidden) ≡ false = ground (arith, len) in
      let q : length hidden / 16 ≡ k = omega (arith, len) in
      let r : length hidden % 16 ≡ 0 = omega (arith, len) in
      (
        hidden,
        rw (suc-==-zero, t) refl,
        omega (arith, len),
        omega (arith, len),
        r,
        (
          take (trim_end (length password) password) password,
          rw (suc-==-zero, t', t'', r, q, back) (ap ok (trimmed password m)),
          password-IsTrimOf password,
        ),
      )
