-- ===== src/Common/Text.antt =====
-- Go strings: the list of the bytes of a text, compared for equality and in byte order.
use Prim.Native.String
use Prim.Native.Char.{code}
use go_lab_tacacs_mcp.Common.{
  Bool, List, [], arith, false, if◌then◌else◌, ltb, refl, true, ℕ, ◌&&◌, ◌==◌, ◌↔◌, ◌∷◌, ◌≡◌,
}

abbrev pub Str : Type 0
Str = List ℕ

-- A literal in ASCII.
abbrev pub text : String.String → Str
text String.[] = []
text (String.◌∷◌ c s) = code c ∷ text s

unfoldable pub str_eq : Str → Str → Bool
str_eq [] [] = true
str_eq [] (y ∷ t) = false
str_eq (x ∷ s) [] = false
str_eq (x ∷ s) (y ∷ t) = x == y && str_eq s t

pub str_eq→eq : (s t : Str) → str_eq s t ≡ true → s ≡ t
unfolding str_eq
str_eq→eq [] [] h = refl
str_eq→eq [] (y ∷ t) h = cc
str_eq→eq (x ∷ s) [] h = cc
str_eq→eq (x ∷ s) (y ∷ t) h = ground (arith, str_eq→eq s t)

pub str_eq_refl : (s : Str) → str_eq s s ≡ true
unfolding str_eq
str_eq_refl [] = refl
str_eq_refl (x ∷ s) = ground (arith, str_eq_refl s)

pub str_eq_iff : (s t : Str) → (str_eq s t ≡ true) ↔ (s ≡ t)
str_eq_iff s t = (str_eq→eq s t, λ e. rw e (str_eq_refl t))

-- `s < t`
unfoldable pub str_ltb : Str → Str → Bool
str_ltb s [] = false
str_ltb [] (y ∷ t) = true
str_ltb (x ∷ s) (y ∷ t) = if ltb x y then true else if x == y then str_ltb s t else false

pub str_ltb_asym : (s t : Str) → str_ltb s t ≡ true → str_ltb t s ≡ false
unfolding str_ltb
str_ltb_asym [] [] h = cc
str_ltb_asym (x ∷ s) [] h = cc
str_ltb_asym [] (y ∷ t) h = refl
str_ltb_asym (x ∷ s) (y ∷ t) h = ground (arith, str_ltb_asym s t)
