-- ===== src/Events/Ring/Window.antt =====
-- The places of the ring's buffer, going round at its end.
use go_lab_tacacs_mcp.Common.{
  List, [], ap, arith, drop, get_or, get_or-set_ne, get_or-set_self, inl, inr, length, refl, set,
  suc, sym, zero, ℕ, ◌%◌, ◌++◌, ◌+◌, ◌-◌, ◌<◌, ◌∙◌, ◌∷◌, ◌≡◌, ◌≢◌, ◌≤◌, ◌⊎◌,
}
use go_lab_tacacs_mcp.Events.Event.{Event, zero_event}
use go_lab_tacacs_mcp.Events.Ring.{entries}
use mathlib.Core.Path.{ap₂}
use native.Mathlib.Decide.{dec_lt}
use native.Mathlib.Nat.{mod-add-mod, mod-eq-sub-mod, mod-eq_of_lt}

-- `x % size` for an `x` below two rounds.
pub round_cases :
    (size x : ℕ)
    → x < size + size
    → ((x < size) × (x % size ≡ x)) ⊎ ((size ≤ x) × (x % size ≡ x - size))
round_cases size x h = elim (dec_lt x size) [
  | yes p ↦ inl (p, mod-eq_of_lt p)
  | no p ↦ inr (
    omega arith,
    mod-eq-sub-mod {n = x} {m = size} (omega arith)
        ∙ mod-eq_of_lt {n = x - size} {m = size} (omega arith),
  )
]

-- Two places fewer than a round apart are different.
pub places_ne :
    (size start i j : ℕ)
    → start < size
    → i < j
    → j < i + size
    → j ≤ size
    → (start + i) % size ≢ (start + j) % size
places_ne size start i j s lt near le = elim (round_cases size (start + i) (omega arith)) [
  | inl a ↦ elim (round_cases size (start + j) (omega arith)) [
    | inl b ↦ omega (arith, a, b)
    | inr b ↦ omega (arith, a, b)
  ]
  | inr a ↦ elim (round_cases size (start + j) (omega arith)) [
    | inl b ↦ omega (arith, a, b)
    | inr b ↦ omega (arith, a, b)
  ]
]

pub place-lt : (size x : ℕ) → x < size + size → x % size < size
place-lt size x h = elim (round_cases size x h) [
  | inl a ↦ omega (arith, a)
  | inr a ↦ omega (arith, a)
]

-- A write at a place that is not among the `k` places from `i` on.
pub entries-set :
    (buf : List Event) (size start i k j : ℕ) (e : Event)
    → ((x : ℕ) → i ≤ x → x < i + k → (start + x) % size ≢ j)
    → entries (set buf j e) size start i k ≡ entries buf size start i k
unfolding entries
entries-set buf size start i zero j e apart = refl
entries-set buf size start i (suc k) j e apart =
    rw
      (
        get_or-set_ne buf ((start + i) % size) j e zero_event (apart i (omega arith) (omega arith)),
        entries-set buf size start (i + 1) k j e (λ x l u. apart x (omega arith) (omega arith)),
      )
      refl

-- One place more.
pub entries-snoc :
    (buf : List Event) (size start i k : ℕ)
    → entries buf size start i (k + 1)
      ≡ entries buf size start i k ++ (get_or buf ((start + (i + k)) % size) zero_event ∷ [])
unfolding entries
entries-snoc buf size start i zero = let e : i + 0 ≡ i = omega arith in rw e refl
entries-snoc buf size start i (suc k) =
    let e : suc k + 1 ≡ suc (k + 1) = omega arith in
    let e' : i + suc k ≡ i + 1 + k = omega arith in
    rw (e, e', entries-snoc buf size start (i + 1) k) refl

-- Counted from the next place.
pub entries-shift :
    (buf : List Event) (size start i k : ℕ)
    → start < size
    → i + k ≤ size
    → entries buf size ((start + 1) % size) i k ≡ entries buf size start (i + 1) k
unfolding entries
entries-shift buf size start i zero s h = refl
entries-shift buf size start i (suc k) s h =
    rw (mod-add-mod, entries-shift buf size start (i + 1) k s (omega arith))
      (let e : start + 1 + i ≡ start + (i + 1) = omega arith in rw e refl)

pub length-entries :
    (buf : List Event) (size start i k : ℕ) → length (entries buf size start i k) ≡ k
unfolding entries
length-entries buf size start i zero = refl
length-entries buf size start i (suc k) = ap suc (length-entries buf size start (i + 1) k)

pub store-room :
    (buf : List Event) (size start n : ℕ) (e : Event)
    → length buf ≡ size
    → start < size
    → n < size
    → entries (set buf ((start + n) % size) e) size start 0 (n + 1)
      ≡ entries buf size start 0 n ++ (e ∷ [])
store-room buf size start n e len s h =
    let z : 0 + n ≡ n = omega arith in
    rw
      (
        entries-snoc (set buf ((start + n) % size) e) size start 0 n,
        z,
        get_or-set_self buf ((start + n) % size) e zero_event
            (omega (arith, len, place-lt size (start + n) (omega arith))),
        entries-set buf size start 0 n ((start + n) % size) e
            (λ x l u. places_ne size start x n s (omega arith) (omega arith) (omega arith)),
      )
      refl

pub store-full :
    (buf : List Event) (size start : ℕ) (e : Event)
    → length buf ≡ size
    → start < size
    → entries (set buf start e) size ((start + 1) % size) 0 size
      ≡ drop 1 (entries buf size start 0 size) ++ (e ∷ [])
unfolding entries
store-full buf zero start e len s = absurd (omega arith)
store-full buf (suc k) start e len s =
    let size : ℕ = suc k in
    let new = set buf start e in
    let place : (start + (1 + k)) % size ≡ start =
      elim (round_cases size (start + (1 + k)) (omega arith)) [
        | inl a ↦ omega (arith, a)
        | inr a ↦ omega (arith, a)
      ] in
    let here : (start + 0) % size ≡ start = elim (round_cases size (start + 0) (omega arith)) [
      | inl a ↦ omega (arith, a)
      | inr a ↦ omega (arith, a)
    ] in
    let one_more : suc k ≡ k + 1 = omega arith in
    let first : 0 + 1 ≡ 1 = refl in
    entries-shift new size start 0 (suc k) s (omega arith)
    ∙ (ap (λ t. entries new size start 1 t) one_more
        ∙ (entries-snoc new size start 1 k
            ∙ ap₂ ◌++◌
                (entries-set buf size start 1 k start e (λ x l u q.
                  places_ne size start 0 x s (omega arith) (omega arith) (omega arith)
                    (here ∙ sym q)))
                (ap (λ t. t ∷ [])
                  (ap (λ t. get_or new t zero_event) place
                    ∙ get_or-set_self buf start e zero_event (omega (arith, len))))))
