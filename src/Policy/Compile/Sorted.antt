-- ===== src/Policy/Compile/Sorted.antt =====
-- The stable sort of the compiler, and the order of groups.
use mathlib.Core.List.Perm
use go_lab_tacacs_mcp.Common.{
  Bool, Bool-cases, List, [], arith, false, inl, inr, true, ◌∷◌, ◌≡◌, ◌⊎◌,
}
use go_lab_tacacs_mcp.Common.Int.{int_ltb, int_ltb_asym, int_ltb_total}
use go_lab_tacacs_mcp.Common.Text.{str_ltb, str_ltb_asym}
use go_lab_tacacs_mcp.Policy.Compile.{CompiledGroup, group_less, insert_stable, sort_stable}
use mathlib.Core.List.{Perm}

abbrev pub Ascending {ℓ} : {A : Type ℓ} → (A → A → Bool) → List A → Type 0
Ascending less [] = Unit
Ascending less (x ∷ []) = Unit
Ascending less (x ∷ y ∷ ys) = (less y x ≡ false) × Ascending less (y ∷ ys)

module _ {ℓ} {A : Type ℓ} (less : A → A → Bool)
    (asym : (a b : A) → less a b ≡ true → less b a ≡ false) where
  insert_stable-Ascending :
      (x : A) (ys : List A) → Ascending less ys → Ascending less (insert_stable less x ys)
  unfolding insert_stable
  insert_stable-Ascending x [] h = tt
  insert_stable-Ascending x (y ∷ []) h = ground (arith, asym y x)
  insert_stable-Ascending x (y ∷ z ∷ ys) h =
      ground (arith, asym y x, asym z x, insert_stable-Ascending x (z ∷ ys))

  pub sort_stable-Ascending : (xs : List A) → Ascending less (sort_stable less xs)
  unfolding sort_stable
  sort_stable-Ascending [] = tt
  sort_stable-Ascending (x ∷ xs) =
      insert_stable-Ascending x (sort_stable less xs) (sort_stable-Ascending xs)

module _ {ℓ} {A : Type ℓ} (less : A → A → Bool) where
  insert_stable-perm : (x : A) (ys : List A) → Perm (insert_stable less x ys) (x ∷ ys)
  unfolding insert_stable
  insert_stable-perm x [] = Perm.refl (x ∷ [])
  insert_stable-perm x (y ∷ ys) = elim (Bool-cases (less y x)) [
    | inl e ↦ rw e (Perm.trans (Perm.cons y (insert_stable-perm x ys)) (Perm.swap x y ys))
    | inr e ↦ rw e (Perm.refl (x ∷ y ∷ ys))
  ]

  pub sort_stable-perm : (xs : List A) → Perm (sort_stable less xs) xs
  unfolding sort_stable
  sort_stable-perm [] = Perm.refl []
  sort_stable-perm (x ∷ xs) =
      Perm.trans (insert_stable-perm x (sort_stable less xs)) (Perm.cons x (sort_stable-perm xs))

pub group_less_asym :
    {R : Type 0} (g h : CompiledGroup R) → group_less g h ≡ true → group_less h g ≡ false
unfolding group_less
group_less_asym g h e = ground (arith, int_ltb_asym g.priority h.priority, str_ltb_asym g.id h.id)

-- The order of the walk: a smaller priority number, or the same one and an id that is not greater.
abbrev pub Precedes : {R : Type 0} → CompiledGroup R → CompiledGroup R → Type 0
Precedes g h =
    (int_ltb g.priority h.priority ≡ true)
    ⊎ ((g.priority ≡ h.priority) × (str_ltb h.id g.id ≡ false))

abbrev pub InOrder : {R : Type 0} → List (CompiledGroup R) → Type 0
InOrder [] = Unit
InOrder (g ∷ []) = Unit
InOrder (g ∷ h ∷ gs) = Precedes g h × InOrder (h ∷ gs)

group_less-Precedes : {R : Type 0} (g h : CompiledGroup R) → group_less h g ≡ false → Precedes g h
unfolding group_less
group_less-Precedes g h k = elim (Bool-cases (int_ltb g.priority h.priority)) [
  | inl t ↦ inl t
  | inr t ↦
      let back : int_ltb h.priority g.priority ≡ false = ground (arith, k, t) in
      inr (int_ltb_total g.priority h.priority t back, ground (arith, k, t, back))
]

pub Ascending-InOrder :
    {R : Type 0} (gs : List (CompiledGroup R)) → Ascending group_less gs → InOrder gs
Ascending-InOrder [] a = tt
Ascending-InOrder (g ∷ []) a = tt
Ascending-InOrder (g ∷ h ∷ gs) (l, a) = (group_less-Precedes g h l, Ascending-InOrder (h ∷ gs) a)
