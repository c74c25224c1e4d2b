-- ===== src/Config/Match/Pick.antt =====
-- The choice among candidates with a prefix, beside the order of prefixes and priorities.
use go_lab_tacacs_mcp.Common.{
  All, All-append, Bool-cases, List, Option, [], ap, arith, false, inl, inr, ltb, none, ok, refl,
  some, sym, true, ℕ, ◌++◌, ◌<◌, ◌∙◌, ◌∷◌, ◌≡◌, ◌≤◌, ◌⊎◌,
}
use go_lab_tacacs_mcp.Common.Int.{int_ltb, int_ltb_asym, ℤ}
use go_lab_tacacs_mcp.Config.Match.{
  MatchCandidate, best_prefix, best_priority, final_of, insert_by_id, int_eq, pick, pick_final,
  same_prefix, sort_by_id, winners_of,
}
use mathlib.Core.Path.{subst}

abbrev pub bits_of : MatchCandidate → ℕ
bits_of c = elim c.prefix [ none ↦ 0 | some bits ↦ bits ]

-- A shorter prefix, or the same prefix and a larger priority number.
abbrev pub IsWorse : MatchCandidate → MatchCandidate → Type 0
IsWorse c d =
    (bits_of d < bits_of c) ⊎ ((bits_of d ≡ bits_of c) × (int_ltb c.priority d.priority ≡ true))

abbrev pub HasPrefix : MatchCandidate → Type 0
HasPrefix c = c.prefix ≡ some (bits_of c)

-- The candidates differ in prefix or priority.
abbrev pub IsApart : MatchCandidate → MatchCandidate → Type 0
IsApart c d = bits_of c ≡ bits_of d → int_eq c.priority d.priority ≡ false

abbrev pub AllApart : List MatchCandidate → Type 0
AllApart [] = Unit {0}
AllApart (c ∷ cs) = All (IsApart c) cs × AllApart cs

-- One candidate that is better than all others, and where it stands.
abbrev pub HasBest : List MatchCandidate → Type 0
HasBest cand =
    (c : MatchCandidate) × (xs : List MatchCandidate) × (ys : List MatchCandidate) × (cand
      ≡ xs ++ (c ∷ ys))
    × All (IsWorse c) xs
    × All (IsWorse c) ys

int_total : (a b : ℤ) → int_eq a b ≡ false → (int_ltb a b ≡ true) ⊎ (int_ltb b a ≡ true)
unfolding int_eq
int_total a b h = ground arith

int_lt_trans : (a b c : ℤ) → int_ltb a b ≡ true → int_ltb b c ≡ true → int_ltb a c ≡ true
int_lt_trans a b c h k = ground arith

IsWorse-trans : (c d e : MatchCandidate) → IsWorse c d → IsWorse d e → IsWorse c e
IsWorse-trans c d e h k = ground (arith, h, k, int_lt_trans c.priority d.priority e.priority)

IsWorse-All :
    (c d : MatchCandidate) (xs : List MatchCandidate)
    → IsWorse c d
    → All (IsWorse d) xs
    → All (IsWorse c) xs
IsWorse-All c d [] h k = tt
IsWorse-All c d (x ∷ xs) h (k, ks) = (IsWorse-trans c d x h k, IsWorse-All c d xs h ks)

All-middle :
    (P : MatchCandidate → Type 0) (xs ys : List MatchCandidate) (c : MatchCandidate)
    → All P (xs ++ (c ∷ ys))
    → P c
All-middle P [] ys c h = h.0
All-middle P (x ∷ xs) ys c h = All-middle P xs ys c h.1

IsWorse-total : (c d : MatchCandidate) → IsApart c d → IsWorse c d ⊎ IsWorse d c
IsWorse-total c d h = ground (arith, int_total c.priority d.priority, h)

pub AllApart-HasBest :
    (c : MatchCandidate) (cs : List MatchCandidate) → AllApart (c ∷ cs) → HasBest (c ∷ cs)
AllApart-HasBest c [] h = (c, [], [], refl, tt, tt)
AllApart-HasBest c (d ∷ ds) (hc, h) =
    let (b, xs, ys, e, wx, wy) = AllApart-HasBest d ds h in
    let apart = subst (λ t. All (IsApart c) t) e hc in
    elim (IsWorse-total c b (All-middle (IsApart c) xs ys b apart)) [
      | inl w ↦ (
        c,
        [],
        d ∷ ds,
        refl,
        tt,
        subst (λ t. All (IsWorse c) t) (sym e)
            (All-append (IsWorse c) xs (b ∷ ys) (IsWorse-All c b xs w wx)
              (w, IsWorse-All c b ys w wy)),
      )
      | inr w ↦ (b, c ∷ xs, ys, ap (λ t. c ∷ t) e, (w, wx), wy)
    ]

-- The best prefix of candidates that are worse than one is at most its prefix.
worse-best_prefix :
    (c : MatchCandidate) (ys : List MatchCandidate)
    → All (IsWorse c) ys
    → All HasPrefix ys
    → (best_prefix ys ≡ none) ⊎ ((k : ℕ) × (best_prefix ys ≡ some k) × (k ≤ bits_of c))
unfolding best_prefix
worse-best_prefix c [] w h = inl refl
worse-best_prefix c (y ∷ ys) (w, ws) (h, hs) = elim (worse-best_prefix c ys ws hs) [
  | inl e ↦ inr (bits_of y, ground (arith, h, e), ground (arith, w))
  | inr (k, e, le) ↦ elim (Bool-cases (ltb k (bits_of y))) [
    | inl t ↦ inr (bits_of y, ground (arith, h, e, t), ground (arith, w))
    | inr f ↦ inr (k, ground (arith, h, e, f), le)
  ]
]

best_prefix_of_best :
    (c : MatchCandidate) (xs ys : List MatchCandidate)
    → All (IsWorse c) xs
    → All (IsWorse c) ys
    → All HasPrefix (xs ++ (c ∷ ys))
    → best_prefix (xs ++ (c ∷ ys)) ≡ some (bits_of c)
unfolding best_prefix
best_prefix_of_best c [] ys wx wy (h, hs) = elim (worse-best_prefix c ys wy hs) [
  | inl e ↦ ground (arith, h, e)
  | inr (k, e, le) ↦ ground (arith, h, e, le)
]
best_prefix_of_best c (x ∷ xs) ys (w, wx) wy (h, hs) =
    ground (arith, h, w, best_prefix_of_best c xs ys wx wy hs)

-- What stays of the others: a larger priority number.
abbrev IsLater : MatchCandidate → MatchCandidate → Type 0
IsLater c d = int_ltb c.priority d.priority ≡ true

final-IsLater :
    (c : MatchCandidate) (xs : List MatchCandidate)
    → All (IsWorse c) xs
    → All HasPrefix xs
    → All (IsLater c) (final_of (some (bits_of c)) xs)
unfolding final_of same_prefix
final-IsLater c [] w h = tt
final-IsLater c (x ∷ xs) (inl shorter, ws) (h, hs) =
    let t : same_prefix x.prefix (some (bits_of c)) ≡ false = ground (arith, h, shorter) in
    rw (t, final_of) (final-IsLater c xs ws hs)
final-IsLater c (x ∷ xs) (inr (same, later), ws) (h, hs) =
    let t : same_prefix x.prefix (some (bits_of c)) ≡ true = ground (arith, h, same) in
    rw (t, final_of) (later, final-IsLater c xs ws hs)

final-append :
    (b : Option ℕ) (xs ys : List MatchCandidate)
    → final_of b (xs ++ ys) ≡ final_of b xs ++ final_of b ys
unfolding final_of
final-append b [] ys = refl
final-append b (x ∷ xs) ys = ground (arith, final-append b xs ys)

later-winners :
    (c : MatchCandidate) (xs : List MatchCandidate)
    → All (IsLater c) xs
    → winners_of c.priority xs ≡ []
unfolding winners_of int_eq
later-winners c [] h = refl
later-winners c (x ∷ xs) (h, hs) = ground (arith, h, later-winners c xs hs)

winners-append :
    (b : ℤ) (xs ys : List MatchCandidate)
    → winners_of b (xs ++ ys) ≡ winners_of b xs ++ winners_of b ys
unfolding winners_of
winners-append b [] ys = refl
winners-append b (x ∷ xs) ys = ground (arith, winners-append b xs ys)

best_priority_later :
    (c : MatchCandidate) (ys : List MatchCandidate)
    → All (IsLater c) ys
    → best_priority c.priority ys ≡ c.priority
unfolding best_priority
best_priority_later c [] h = refl
best_priority_later c (y ∷ ys) (h, hs) =
    rw (int_ltb_asym c.priority y.priority h) (best_priority_later c ys hs)

best_priority_of_best :
    (c : MatchCandidate) (p : ℤ) (xs ys : List MatchCandidate)
    → int_ltb c.priority p ≡ true
    → All (IsLater c) xs
    → All (IsLater c) ys
    → best_priority p (xs ++ (c ∷ ys)) ≡ c.priority
unfolding best_priority
best_priority_of_best c p [] ys h hx hy = ground (arith, h, best_priority_later c ys hy)
best_priority_of_best c p (x ∷ xs) ys h (hx, hxs) hy = ground (
  arith,
  h,
  hx,
  best_priority_of_best c x.priority xs ys hx hxs hy,
  best_priority_of_best c p xs ys h hxs hy,
)

int_eq_refl : (a : ℤ) → int_eq a a ≡ true
unfolding int_eq
int_eq_refl a = ground arith

sole-winners :
    (c : MatchCandidate) (xs ys : List MatchCandidate)
    → All (IsLater c) xs
    → All (IsLater c) ys
    → winners_of c.priority (xs ++ (c ∷ ys)) ≡ (c.id, tt) ∷ []
unfolding winners_of
sole-winners c xs ys hx hy =
    winners-append c.priority xs (c ∷ ys)
    ∙ rw (later-winners c xs hx, int_eq_refl c.priority, later-winners c ys hy) refl

pick_final-best :
    (c : MatchCandidate) (xs ys : List MatchCandidate)
    → All (IsLater c) xs
    → All (IsLater c) ys
    → pick_final (xs ++ (c ∷ ys)) ≡ ok c.id
unfolding sort_by_id insert_by_id
pick_final-best c [] ys hx hy = rw (best_priority_later c ys hy, sole-winners c [] ys tt hy) refl
pick_final-best c (x ∷ xs) ys (h, hx) hy =
    rw (best_priority_of_best c x.priority xs ys h hx hy, sole-winners c (x ∷ xs) ys (h, hx) hy)
      refl

split-HasPrefix :
    (c : MatchCandidate) (xs ys : List MatchCandidate)
    → All HasPrefix (xs ++ (c ∷ ys))
    → All HasPrefix xs × HasPrefix c × All HasPrefix ys
split-HasPrefix c [] ys (h, hs) = (tt, h, hs)
split-HasPrefix c (x ∷ xs) ys (h, hs) = let (a, b, d) = split-HasPrefix c xs ys hs in ((h, a), b, d)

final_self :
    (c : MatchCandidate) (ys : List MatchCandidate)
    → HasPrefix c
    → final_of (some (bits_of c)) (c ∷ ys) ≡ c ∷ final_of (some (bits_of c)) ys
unfolding final_of same_prefix
final_self c ys h =
    let t : same_prefix c.prefix (some (bits_of c)) ≡ true = ground (arith, h) in rw (t, final_of)

-- A candidate that is better than all others is picked.
pub pick-best :
    (c : MatchCandidate) (xs ys : List MatchCandidate)
    → All (IsWorse c) xs
    → All (IsWorse c) ys
    → All HasPrefix (xs ++ (c ∷ ys))
    → pick (xs ++ (c ∷ ys)) ≡ ok c.id
unfolding pick
pick-best c xs ys wx wy h =
    let (hx, hc, hy) = split-HasPrefix c xs ys h in
    let best = some (bits_of c) in
    let kept : final_of best (c ∷ ys) ≡ c ∷ final_of best ys = final_self c ys hc in
    let final : final_of best (xs ++ (c ∷ ys)) ≡ final_of best xs ++ (c ∷ final_of best ys) =
      final-append best xs (c ∷ ys) ∙ ap (λ t. final_of best xs ++ t) kept in
    rw (best_prefix_of_best c xs ys wx wy h, final)
      (pick_final-best c (final_of best xs) (final_of best ys) (final-IsLater c xs wx hx)
        (final-IsLater c ys wy hy))
