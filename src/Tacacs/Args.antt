-- ===== src/Tacacs/Args.antt =====
-- Argument-value pairs: internal/tacacs/codec/args.go. A Go string is the list of its bytes.
pub mod Laws
use go_lab_tacacs_mcp.Common.{
  Bool, List, Option, Result, [], drop, err, false, guard, if◌then◌else◌, length, ltb, none, not,
  ok, some, suc, take, true, zero, ℕ, ◌%◌, ◌++◌, ◌+◌, ◌==◌, ◌>>=◌, ◌>>◌, ◌||◌, ◌∷◌,
}
use go_lab_tacacs_mcp.Common.Bytes.{Bytes}
use go_lab_tacacs_mcp.Tacacs.Constants.{arg_sep_mandatory, arg_sep_optional}
use go_lab_tacacs_mcp.Tacacs.Cursor.{bytes, remain, require_printable, u8}
use go_lab_tacacs_mcp.Tacacs.Errors.{
  Error, argument, field_too_long, length_mismatch, too_many_args,
}

-- Go's `Argument`.
pub record Argument : Type 0 where
  pub name : Bytes
  pub separator : ℕ
  pub value : Bytes

abbrev pub is_sep : ℕ → Bool
is_sep c = c == arg_sep_mandatory || c == arg_sep_optional

unfoldable pub contains_arg_sep : Bytes → Bool
contains_arg_sep [] = false
contains_arg_sep (c ∷ s) = if is_sep c then true else contains_arg_sep s

abbrev pub raw_of : Argument → Bytes
raw_of a = a.name ++ (a.separator ∷ a.value)

unfoldable pub encode_argument : Argument → Result Error Bytes
encode_argument a = do
  guard (not (length a.name == 0)) argument
  guard (not (contains_arg_sep a.name)) argument
  guard (is_sep a.separator) argument
  let n = length a.name + 1 + length a.value
  guard (not (ltb n 2 || ltb 255 n)) field_too_long
  require_printable (raw_of a)
  ok (raw_of a)

-- The loop of `ParseArgument`: the index and the byte of the first separator from index `i` on;
-- `none` is Go's `sep == -1`.
unfoldable pub find_sep : ℕ → Bytes → Option (ℕ × ℕ)
find_sep i [] = none
find_sep i (c ∷ raw) = if is_sep c then some (i, c) else find_sep (i + 1) raw

-- `sep <= 0` is an error: no separator, or an empty name.
unfoldable pub split_at_sep : Bytes → Option (ℕ × ℕ) → Result Error Argument
split_at_sep raw none = err argument
split_at_sep raw (some (i, kind)) =
    if i == 0
    then err argument
    else ok (record { name = take i raw; separator = kind; value = drop (i + 1) raw })

-- `none` is Go's `ok == false`: an empty field is absent.
unfoldable pub parse_argument : Bytes → Result Error (Option Argument)
unfolding find_sep split_at_sep
parse_argument raw =
    if length raw == 0
    then ok none
    else do require_printable raw; a ← split_at_sep raw (find_sep 0 raw); ok (some a)

-- The loop of `encodeArgList`, over what it has collected.
unfoldable pub encode_args : Bytes → Bytes → List Argument → Result Error (Bytes × Bytes)
encode_args lens payload [] = ok (lens, payload)
encode_args lens payload (a ∷ args) =
    encode_argument a >>= λ raw. encode_args (lens ++ (length raw % 256 ∷ [])) (payload ++ raw) args

unfoldable pub encode_arg_list : List Argument → Result Error (Bytes × Bytes)
unfolding encode_args
encode_arg_list args = if ltb 255 (length args) then err too_many_args else encode_args [] [] args

-- The loop of `readArgLens`.
unfoldable pub read_lens : ℕ → Bytes → Result Error (Bytes × Bytes)
read_lens zero c = ok ([], c)
read_lens (suc n) c = do (v, c) ← u8 c; (lens, c) ← read_lens n c; ok (v ∷ lens, c)

unfoldable pub read_arg_lens : ℕ → Bytes → Result Error (Bytes × Bytes)
unfolding read_lens
read_arg_lens n c =
    if ltb 255 n
    then err too_many_args
    else if ltb (remain c) n
    then err length_mismatch
    else read_lens n c

-- `if present { out = append(out, a) }`
abbrev pub append_present : List Argument → Option Argument → List Argument
append_present out none = out
append_present out (some a) = out ++ (a ∷ [])

-- The loop of `readArgs`, over what it has collected.
unfoldable pub read_args_from : List Argument → Bytes → Bytes → Result Error (List Argument × Bytes)
read_args_from out [] c = ok (out, c)
read_args_from out (ln ∷ lens) c = do
  (raw, c) ← bytes ln c
  a ← parse_argument raw
  read_args_from (append_present out a) lens c

unfoldable pub read_args : Bytes → Bytes → Result Error (List Argument × Bytes)
unfolding read_args_from
read_args lens c = read_args_from [] lens c
