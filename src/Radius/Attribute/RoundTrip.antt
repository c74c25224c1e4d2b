-- ===== src/Radius/Attribute/RoundTrip.antt =====
-- `Decode` and `Encode` of attributes.
use go_lab_tacacs_mcp.Common.{
  All, All-drop, Result-cases, [], arith, drop, drop-append, err, false, if◌then◌else◌, inl, inr,
  length, length-append, length-drop, length-take, ltb, ok, refl, suc, take, take-append,
  take-append-drop, true, zero, ℕ, ◌%◌, ◌++◌, ◌+◌, ◌-◌, ◌<◌, ◌==◌, ◌>>=◌, ◌↔◌, ◌∷◌, ◌≡◌, ◌≢◌, ◌≤◌,
}
use go_lab_tacacs_mcp.Common.Bytes.{Bytes, IsByte}
use go_lab_tacacs_mcp.Radius.Attribute.{
  Raw, RawSet, check_values, decode_attributes, decode_loop, default_max_attributes,
  default_max_value_bytes, encode_attributes, no_fuel, value_bytes, wire_length, wire_size,
  write_values,
}

-- The values fit the length byte.
abbrev pub HasShort : Raw → Type 0
HasShort a = length a.value ≤ 253

pub check_values_iff : (s : RawSet) → (check_values s ≡ ok tt) ↔ All HasShort s
unfolding check_values
check_values_iff [] = (λ h. tt, λ h. refl)
check_values_iff (a ∷ s) = ground (arith, check_values_iff s)

pub length-write_values : (s : RawSet) → length (write_values s) ≡ wire_size s
unfolding write_values wire_size wire_length
length-write_values [] = refl
length-write_values (a ∷ s) =
    omega (arith, length-append a.value (write_values s), length-write_values s)

-- One round of the loop, on an attribute that was written and is within the budgets.
decode_loop_step :
    (fuel typ : ℕ) (value rest : Bytes) (count used max_attrs max_bytes : ℕ)
    → length value ≤ 253
    → count < max_attrs
    → used + length value ≤ max_bytes
    → decode_loop
        (suc fuel)
        (typ ∷ ((2 + length value) % 256) ∷ (value ++ rest))
        count
        used
        max_attrs
        max_bytes
      ≡ (decode_loop fuel rest (count + 1) (used + length value) max_attrs max_bytes >>= λ more.
          ok (record { typ = typ; value = value } ∷ more))
unfolding decode_loop
decode_loop_step fuel typ value rest count used ma mb h c u =
    let e : (2 + length value) % 256 ≡ 2 + length value = omega arith in
    let e' : 2 + length value - 2 ≡ length value = omega arith in
    let t₁ : ltb (2 + length value) 2 ≡ false = ground arith in
    let t₂ : ltb (2 + length (value ++ rest)) (2 + length value) ≡ false =
      ground (arith, length-append value rest) in
    let t₃ : ltb count ma ≡ true = ground arith in
    let t₄ : ltb mb (used + length value) ≡ false = ground arith in
    rw (e, e', t₁, t₂, t₃, t₄, take-append value rest, drop-append value rest) refl

decode_loop-nil :
    (fuel count used max_attrs max_bytes : ℕ)
    → decode_loop fuel [] count used max_attrs max_bytes ≡ ok []
unfolding decode_loop
decode_loop-nil zero count used ma mb = refl
decode_loop-nil (suc fuel) count used ma mb = refl

decode_loop-zero :
    (t : ℕ) (p : Bytes) (count used max_attrs max_bytes : ℕ) (s : RawSet)
    → decode_loop zero (t ∷ p) count used max_attrs max_bytes ≢ ok s
unfolding decode_loop
decode_loop-zero t p count used ma mb s h = cc

decode_loop-one :
    (fuel t count used max_attrs max_bytes : ℕ) (s : RawSet)
    → decode_loop (suc fuel) (t ∷ []) count used max_attrs max_bytes ≢ ok s
unfolding decode_loop
decode_loop-one fuel t count used ma mb s h = cc

-- What the loop makes of bytes that were written for a set within the budgets.
decode_loop-write :
    (fuel : ℕ) (s : RawSet) (count used max_attrs max_bytes : ℕ)
    → wire_size s ≤ fuel
    → All HasShort s
    → count + length s ≤ max_attrs
    → used + value_bytes s ≤ max_bytes
    → decode_loop fuel (write_values s) count used max_attrs max_bytes ≡ ok s
unfolding write_values wire_size wire_length value_bytes
decode_loop-write fuel [] count used ma mb f h c u = decode_loop-nil fuel count used ma mb
decode_loop-write zero (a ∷ s) count used ma mb f h c u = absurd (omega arith)
decode_loop-write (suc fuel) (a ∷ s) count used ma mb f (h, hs) c u =
    rw
      (
        decode_loop_step fuel a.typ a.value (write_values s) count used ma mb h (omega arith)
            (omega arith),
        decode_loop-write fuel s (count + 1) (used + length a.value) ma mb (omega arith) hs
            (omega arith) (omega arith),
      )
      refl

-- A round that succeeds, read backwards.
decode_loop_inv :
    (fuel typ alen : ℕ) (rest : Bytes) (count used max_attrs max_bytes : ℕ) (s : RawSet)
    → decode_loop (suc fuel) (typ ∷ alen ∷ rest) count used max_attrs max_bytes ≡ ok s
    → (2 ≤ alen)
      × (alen ≤ 2 + length rest)
      × (count < max_attrs)
      × (used + (alen - 2) ≤ max_bytes)
      × ((more : RawSet) × (s ≡ record { typ = typ; value = take (alen - 2) rest } ∷ more)
          × (decode_loop fuel
                (drop (alen - 2) rest)
                (count + 1)
                (used + (alen - 2))
                max_attrs
                max_bytes
              ≡ ok more))
unfolding decode_loop
decode_loop_inv fuel typ alen rest count used ma mb s h =
    elim (Result-cases
      (decode_loop fuel (drop (alen - 2) rest) (count + 1) (used + (alen - 2)) ma mb)) [
        | inl (more, e) ↦ (
          ground (arith, e),
          ground (arith, e),
          ground (arith, e),
          ground (arith, e),
          (more, ground (arith, e), e),
        )
        | inr (x, e) ↦ absurd (ground (arith, e))
      ]

-- The loop succeeds only on the bytes that are written for its result.
decode_loop_sound :
    (fuel : ℕ) (p : Bytes) (count used max_attrs max_bytes : ℕ) (s : RawSet)
    → All IsByte p
    → count ≤ max_attrs
    → used ≤ max_bytes
    → decode_loop fuel p count used max_attrs max_bytes ≡ ok s
    → (write_values s ≡ p)
      × All HasShort s
      × (count + length s ≤ max_attrs)
      × (used + value_bytes s ≤ max_bytes)
unfolding write_values value_bytes
decode_loop_sound fuel [] count used ma mb s b c u h =
    let e : s ≡ [] = cc (decode_loop-nil fuel count used ma mb) in
    rw e (refl, tt, omega arith, omega arith)
decode_loop_sound zero (t ∷ p) count used ma mb s b c u h =
    absurd (decode_loop-zero t p count used ma mb s h)
decode_loop_sound (suc fuel) (t ∷ []) count used ma mb s b c u h =
    absurd (decode_loop-one fuel t count used ma mb s h)
decode_loop_sound (suc fuel) (t ∷ alen ∷ rest) count used ma mb s (bt, (ba, bs)) c u h =
    let (two, fits, room, budget', (more, e, e')) =
      decode_loop_inv fuel t alen rest count used ma mb s h in
    let (w, short, n, v) =
      decode_loop_sound fuel (drop (alen - 2) rest) (count + 1) (used + (alen - 2)) ma mb more
        (All-drop IsByte (alen - 2) rest bs) (omega arith) (omega arith) e' in
    let l : length (take (alen - 2) rest) ≡ alen - 2 = omega (arith, length-take (alen - 2) rest) in
    let a : (2 + (alen - 2)) % 256 ≡ alen = omega arith in
    rw (e, l, w, a, take-append-drop (alen - 2) rest)
      (refl, (omega arith, short), omega arith, omega arith)

-- An attribute takes two bytes, so as much fuel as bytes is enough.
decode_loop-ne-no_fuel :
    (fuel : ℕ) (p : Bytes) (count used max_attrs max_bytes : ℕ)
    → length p ≤ fuel
    → decode_loop fuel p count used max_attrs max_bytes ≢ err no_fuel
unfolding decode_loop
decode_loop-ne-no_fuel zero [] count used ma mb f h = cc
decode_loop-ne-no_fuel (suc fuel) [] count used ma mb f h = cc
decode_loop-ne-no_fuel zero (t ∷ p) count used ma mb f h = absurd (omega arith)
decode_loop-ne-no_fuel (suc fuel) (t ∷ []) count used ma mb f h = cc
decode_loop-ne-no_fuel (suc fuel) (t ∷ alen ∷ rest) count used ma mb f h = ground (
  arith,
  length-drop (alen - 2) rest,
  decode_loop-ne-no_fuel fuel (drop (alen - 2) rest) (count + 1) (used + (alen - 2)) ma mb,
)

abbrev pub IsWithin : RawSet → ℕ → ℕ → Type 0
IsWithin s max_attrs max_bytes =
    (length s ≤ (if max_attrs == 0 then default_max_attributes else max_attrs))
    × (value_bytes s ≤ (if max_bytes == 0 then default_max_value_bytes else max_bytes))

pub encode_attributes_iff :
    (s : RawSet) (p : Bytes)
    → (encode_attributes s ≡ ok p) ↔ (All HasShort s × (write_values s ≡ p))
unfolding encode_attributes
encode_attributes_iff s p = ground (arith, check_values_iff s, Result-cases (check_values s))

-- `Decode` reads back what `Encode` wrote.
pub decode-encode_attributes :
    (s : RawSet) (p : Bytes) (max_attrs max_bytes : ℕ)
    → encode_attributes s ≡ ok p
    → IsWithin s max_attrs max_bytes
    → decode_attributes p max_attrs max_bytes ≡ ok s
unfolding decode_attributes
decode-encode_attributes s p max_attrs max_bytes h (n, v) =
    let (short, w) = (encode_attributes_iff s p).0 h in
    rw (← w) (
      decode_loop-write (length (write_values s)) s 0 0
        (if max_attrs == 0 then default_max_attributes else max_attrs)
        (if max_bytes == 0 then default_max_value_bytes else max_bytes)
        (omega (arith, length-write_values s)) short (omega (arith, n)) (omega (arith, v)))

-- On bytes, `Decode` always ends, and gives a set exactly when `Encode` writes those bytes for the
-- set and the set is within the two budgets.
pub decode_attributes_iff :
    (p : Bytes) (max_attrs max_bytes : ℕ) (s : RawSet)
    → All IsByte p
    → (decode_attributes p max_attrs max_bytes ≢ err no_fuel)
      × ((decode_attributes p max_attrs max_bytes ≡ ok s)
          ↔ ((encode_attributes s ≡ ok p) × IsWithin s max_attrs max_bytes))
unfolding decode_attributes
decode_attributes_iff p max_attrs max_bytes s b =
    let ma : ℕ = if max_attrs == 0 then default_max_attributes else max_attrs in
    let mb : ℕ = if max_bytes == 0 then default_max_value_bytes else max_bytes in
    let sound = λ (h : decode_loop (length p) p 0 0 ma mb ≡ ok s).
      decode_loop_sound (length p) p 0 0 ma mb s b (omega arith) (omega arith) h in
    (
      decode_loop-ne-no_fuel (length p) p 0 0 ma mb (omega arith),
      (
        λ h. (
          (encode_attributes_iff s p).1 ((sound h).1, (sound h).0),
          (omega (arith, (sound h).2), omega (arith, (sound h).3)),
        ),
        λ (h, w). decode-encode_attributes s p max_attrs max_bytes h w,
      ),
    )
