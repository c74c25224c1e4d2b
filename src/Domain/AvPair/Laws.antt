-- ===== src/Domain/AvPair/Laws.antt =====
-- Parsing and encoding pairs, and the codec's arguments beside them.
use mathlib.Core.Option
use go_lab_tacacs_mcp.Common.{
  Option, Option-cases, Result, [], arith, drop, err, inl, inr, length, length-append, length-take,
  none, ok, refl, some, suc, take, take-append, true, ℕ, ◌+◌, ◌↔◌, ◌∷◌, ◌≡◌, ◌≤◌,
}
use go_lab_tacacs_mcp.Common.Text.{Str}
use go_lab_tacacs_mcp.Domain.AvPair.{
  AvPair, contains_separator, encode, encoded_len, first_separator, index_byte, parse_av_pair,
  validate,
}
use go_lab_tacacs_mcp.Tacacs.Args.{Argument, contains_arg_sep, find_sep, parse_argument}
use go_lab_tacacs_mcp.Tacacs.Args.Laws.{drop_past, find_sep-append, find_sep_inv, suc_of}
use go_lab_tacacs_mcp.Tacacs.Cursor.{printable_ascii, require_printable}

contains_separator-eq : (s : Str) → contains_separator s ≡ contains_arg_sep s
unfolding contains_separator contains_arg_sep
contains_separator-eq [] = refl
contains_separator-eq (c ∷ s) = ground (arith, contains_separator-eq s)

abbrev shifted : ℕ × ℕ → ℕ × ℕ
shifted (i, k) = (suc i, k)

find_sep-suc : (i : ℕ) (s : Str) → find_sep (i + 1) s ≡ Option.map shifted (find_sep i s)
unfolding find_sep
find_sep-suc i [] = refl
find_sep-suc i (c ∷ s) = ground (arith, find_sep-suc (i + 1) s)

-- The two searches of `firstSeparator` find what the loop of `ParseArgument` finds.
pub first_separator-find_sep : (s : Str) → first_separator s ≡ find_sep 0 s
unfolding first_separator index_byte find_sep
first_separator-find_sep [] = refl
first_separator-find_sep (c ∷ s) = ground (arith, first_separator-find_sep s, find_sep-suc 0 s)

-- Encoding then parsing gives the pair back, and it is present.
pub parse-encode_pair : (p : AvPair) (s : Str) → encode p ≡ ok s → parse_av_pair s ≡ ok (some p)
unfolding encode validate encoded_len parse_av_pair
parse-encode_pair p s h = ground (
  arith,
  contains_separator-eq p.name,
  first_separator-find_sep s,
  find_sep-append 0 p.name p.value p.separator,
  take-append p.name (p.separator ∷ p.value),
  drop_past p.name p.value p.separator,
  length-append p.name (p.separator ∷ p.value),
)

-- A text that parses as a present pair is what `Encode` writes for it.
pub encode-parse_pair : (s : Str) (p : AvPair) → parse_av_pair s ≡ ok (some p) → encode p ≡ ok s
unfolding encode validate encoded_len parse_av_pair
encode-parse_pair s p h = elim (Option-cases (find_sep 0 s)) [
  | inl e ↦ ground (arith, e, first_separator-find_sep s)
  | inr ((j, k), e) ↦
      let (d, ej, q, n, r) = find_sep_inv 0 s j k e in
      ground (
        arith,
        e,
        ej,
        q,
        n,
        r,
        first_separator-find_sep s,
        contains_separator-eq (take d s),
        length-take d s,
        length-append (take d s) (k ∷ drop (suc d) s),
        suc_of d,
      )
]

-- The value of a parse that succeeds.
abbrev pub parsed {ℓ} : {E : Type 0} {A : Type ℓ} → Result E A → Option A
parsed (ok a) = some a
parsed (err e) = none

abbrev pub pair_of : Argument → AvPair
pair_of a = record { name = a.name; separator = a.separator; value = a.value }

-- On printable texts of at most 255 bytes the domain's parser accepts what the codec's does, and
-- gives the same pair.
pub parse_av_pair-parse_argument :
    (s : Str)
    → printable_ascii s ≡ true
    → length s ≤ 255
    → parsed (parse_av_pair s) ≡ Option.map (Option.map pair_of) (parsed (parse_argument s))
unfolding parse_av_pair parse_argument require_printable
parse_av_pair-parse_argument s h k = elim (Option-cases (find_sep 0 s)) [
  | inl e ↦ ground (arith, e, first_separator-find_sep s)
  | inr ((j, c), e) ↦
      let (d, ej, q, n, r) = find_sep_inv 0 s j c e in
      ground (
        arith,
        e,
        ej,
        q,
        n,
        r,
        first_separator-find_sep s,
        length-take d s,
        length-append (take d s) (c ∷ drop (suc d) s),
      )
]

-- `ParseAVPair` reads a text as a present pair exactly when `Encode` writes that text for it.
pub parse_av_pair_iff : (s : Str) (p : AvPair) → (parse_av_pair s ≡ ok (some p)) ↔ (encode p ≡ ok s)
parse_av_pair_iff s p = (encode-parse_pair s p, parse-encode_pair p s)
