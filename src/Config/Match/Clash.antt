-- ===== src/Config/Match/Clash.antt =====
-- What it means that no two clients of an index clash.
use go_lab_tacacs_mcp.Common.{
  All, Bool, Bool-cases, List, Option-cases, [], false, inl, inr, none, ◌∷◌, ◌≡◌, ◌⊎◌,
}
use go_lab_tacacs_mcp.Common.Text.{Str, str_ltb}
use go_lab_tacacs_mcp.Config.Match.{clash_with, first_clash, insert_by_id, sort_by_id}

-- The relation holds between every two elements.
abbrev pub Pairwise {ℓ} : {A : Type ℓ} → (A → A → Type 0) → List A → Type 0
Pairwise R [] = Unit {0}
Pairwise R (x ∷ xs) = All (R x) xs × Pairwise R xs

module _ {V : Type 0} where
  All-insert_by_id :
      (P : Str × V → Type 0) (e : Str × V) (es : List (Str × V))
      → All P (insert_by_id e es)
      → P e × All P es
  unfolding insert_by_id
  All-insert_by_id P e [] h = h
  All-insert_by_id P e (d ∷ ds) h = elim (Bool-cases (str_ltb d.0 e.0)) [
    | inr f ↦ rw (f, insert_by_id) at h
    | inl t ↦
        let (hd, hs) = rw (t, insert_by_id) at h in
        let (he, hds) = All-insert_by_id P e ds hs in (he, (hd, hds))
  ]

  All-sort_by_id : (P : Str × V → Type 0) (es : List (Str × V)) → All P (sort_by_id es) → All P es
  unfolding sort_by_id
  All-sort_by_id P [] h = tt
  All-sort_by_id P (e ∷ es) h =
      let (he, hs) = All-insert_by_id P e (sort_by_id es) h in (he, All-sort_by_id P es hs)

  module _ (R : Str × V → Str × V → Type 0) (flip : (a b : Str × V) → R a b → R b a) where
    Pairwise-insert_by_id :
        (e : Str × V) (es : List (Str × V))
        → Pairwise R (insert_by_id e es)
        → All (R e) es × Pairwise R es
    unfolding insert_by_id
    Pairwise-insert_by_id e [] h = h
    Pairwise-insert_by_id e (d ∷ ds) h = elim (Bool-cases (str_ltb d.0 e.0)) [
      | inr f ↦ rw (f, insert_by_id) at h
      | inl t ↦
          let (hd, hs) = rw (t, insert_by_id) at h in
          let (hde, hdd) = All-insert_by_id (R d) e ds hd in
          let (he, hds) = Pairwise-insert_by_id e ds hs in ((flip d e hde, he), (hdd, hds))
    ]

    Pairwise-sort_by_id : (es : List (Str × V)) → Pairwise R (sort_by_id es) → Pairwise R es
    unfolding sort_by_id
    Pairwise-sort_by_id [] h = tt
    Pairwise-sort_by_id (e ∷ es) h =
        let (he, hs) = Pairwise-insert_by_id e (sort_by_id es) h in
        (All-sort_by_id (R e) es he, Pairwise-sort_by_id es hs)

  module _ (clash : V → V → Bool) where
    -- One of the two does not clash with the other.
    abbrev pub NoClash : Str × V → Str × V → Type 0
    NoClash a b = (clash a.1 b.1 ≡ false) ⊎ (clash b.1 a.1 ≡ false)

    NoClash-flip : (a b : Str × V) → NoClash a b → NoClash b a
    NoClash-flip a b (inl h) = inr h
    NoClash-flip a b (inr h) = inl h

    clash_with-none :
        (a : Str × V) (bs : List (Str × V)) → clash_with clash a bs ≡ none → All (NoClash a) bs
    unfolding clash_with
    clash_with-none a [] h = tt
    clash_with-none a (b ∷ bs) h = elim (Bool-cases (clash a.1 b.1)) [
      | inl t ↦ absurd (cc (rw (t, clash_with) at h))
      | inr f ↦ (inl f, clash_with-none a bs (rw (f, clash_with) at h))
    ]

    first_clash-none : (es : List (Str × V)) → first_clash clash es ≡ none → Pairwise NoClash es
    unfolding first_clash
    first_clash-none [] h = tt
    first_clash-none (a ∷ as_) h = elim (Option-cases (clash_with clash a as_)) [
      | inr (e, c) ↦ absurd (cc (rw (c, first_clash) at h))
      | inl c ↦ (clash_with-none a as_ c, first_clash-none as_ (rw (c, first_clash) at h))
    ]

    -- Where the check of the sorted clients finds nothing, no two clients clash in both directions.
    pub checked-Pairwise :
        (es : List (Str × V)) → first_clash clash (sort_by_id es) ≡ none → Pairwise NoClash es
    checked-Pairwise es h =
        Pairwise-sort_by_id NoClash NoClash-flip es (first_clash-none (sort_by_id es) h)
