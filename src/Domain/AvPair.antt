-- ===== src/Domain/AvPair.antt =====
-- Attribute-value pairs: internal/domain/avpair.go.
pub mod Laws
use mathlib.Core.Option
use go_lab_tacacs_mcp.Common.{
  Bool, List, Option, Result, [], drop, err, false, if◌then◌else◌, length, ltb, none, not, ok, some,
  suc, take, true, ℕ, ◌&&◌, ◌++◌, ◌+◌, ◌==◌, ◌>>=◌, ◌>>◌, ◌||◌, ◌∷◌,
}
use go_lab_tacacs_mcp.Common.Text.{Str, str_eq, text}
use go_lab_tacacs_mcp.Domain.Error.{DomainError, invalid_argument, new_error}

-- Go's `AVPair`.
pub record AvPair : Type 0 where
  pub name : Str
  pub separator : ℕ
  pub value : Str

unfoldable pub encoded_len : AvPair → ℕ
encoded_len p = length p.name + 1 + length p.value

-- `strings.ContainsAny(s, "=*")`
unfoldable pub contains_separator : Str → Bool
contains_separator [] = false
contains_separator (c ∷ s) = if c == b'=' || c == b'*' then true else contains_separator s

unfoldable pub validate : AvPair → Result DomainError (Unit {0})
unfolding encoded_len
validate p =
    if length p.name == 0
    then err (new_error invalid_argument (text "AV pair name is required"))
    else if contains_separator p.name
    then err (new_error invalid_argument (text "AV pair name must not contain = or *"))
    else if not (p.separator == b'=' || p.separator == b'*')
    then err (new_error invalid_argument (text "AV pair separator must be = or *"))
    else if ltb (encoded_len p) 2 || ltb 255 (encoded_len p)
    then err (new_error invalid_argument (text "AV pair encoded length must be 2-255 bytes"))
    else ok tt

unfoldable pub encode : AvPair → Result DomainError Str
encode p = do validate p; ok (p.name ++ (p.separator ∷ p.value))

-- `strings.IndexByte(s, c)`; `none` is Go's -1.
unfoldable pub index_byte : Str → ℕ → Option ℕ
index_byte [] c = none
index_byte (x ∷ s) c = if x == c then some 0 else Option.map suc (index_byte s c)

abbrev pub first_of_two : Option ℕ → Option ℕ → Option (ℕ × ℕ)
first_of_two none none = none
first_of_two none (some st) = some (st, b'*')
first_of_two (some eq) none = some (eq, b'=')
first_of_two (some eq) (some st) = if ltb eq st then some (eq, b'=') else some (st, b'*')

unfoldable pub first_separator : Str → Option (ℕ × ℕ)
unfolding index_byte
first_separator s = first_of_two (index_byte s b'=') (index_byte s b'*')

abbrev pub pair_at : Str → Option (ℕ × ℕ) → Result DomainError (Option AvPair)
pair_at s none = err (new_error invalid_argument (text "AV pair must contain = or *"))
pair_at s (some (i, sep)) =
    if length (take i s) == 0
    then err (new_error invalid_argument (text "AV pair name is required"))
    else ok (some (record { name = take i s; separator = sep; value = drop (i + 1) s }))

-- `none` is Go's `present == false`.
unfoldable pub parse_av_pair : Str → Result DomainError (Option AvPair)
unfolding first_separator
parse_av_pair s =
    if length s == 0
    then ok none
    else if ltb (length s) 2 || ltb 255 (length s)
    then err (new_error invalid_argument (text "AV pair encoded length must be 2-255 bytes"))
    else pair_at s (first_separator s)

abbrev pub keep_present : Option AvPair → List AvPair → List AvPair
keep_present none ps = ps
keep_present (some p) ps = p ∷ ps

unfoldable pub parse_av_pairs : List Str → Result DomainError (List AvPair)
unfolding parse_av_pair
parse_av_pairs [] = ok []
parse_av_pairs (s ∷ raw) = do p ← parse_av_pair s; ps ← parse_av_pairs raw; ok (keep_present p ps)

-- `AVPairs.Encode`
unfoldable pub encode_all : List AvPair → Result DomainError (List Str)
unfolding encode
encode_all [] = ok []
encode_all (p ∷ ps) = do s ← encode p; out ← encode_all ps; ok (s ∷ out)

unfoldable pub pairs_equal : List AvPair → List AvPair → Bool
unfolding str_eq
pairs_equal [] [] = true
pairs_equal [] (q ∷ qs) = false
pairs_equal (p ∷ ps) [] = false
pairs_equal (p ∷ ps) (q ∷ qs) =
    (str_eq p.name q.name && (p.separator == q.separator && str_eq p.value q.value))
    && pairs_equal ps qs
