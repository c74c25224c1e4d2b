-- ===== src/Tacacs/Args/Laws.antt =====
-- Encoding and parsing arguments, one and in lists.
-- What a wire argument is: a printable text of at most 255 bytes, a separator behind a name that
-- has none.
use go_lab_tacacs_mcp.Common.{
  >>=-eq-ok, All, Bool-cases, List, Option-cases, [], ap, append-nil, append_assoc, arith, drop,
  false, inl, inr, length, length-append, length-take, ok, refl, some, suc, take, take-append, true,
  ℕ, ◌%◌, ◌++◌, ◌+◌, ◌↔◌, ◌∷◌, ◌≡◌, ◌≢◌, ◌≤◌,
}
use go_lab_tacacs_mcp.Common.Bytes.{Bytes}
use go_lab_tacacs_mcp.Tacacs.Args.{
  Argument, contains_arg_sep, encode_arg_list, encode_args, encode_argument, find_sep, is_sep,
  parse_argument, raw_of, read_arg_lens, read_args, read_args_from, read_lens,
}
use go_lab_tacacs_mcp.Tacacs.Cursor.{printable_ascii, require_printable, u8}
use go_lab_tacacs_mcp.Tacacs.Cursor.Laws.{bytes-append}

pub record IsArgument (a : Argument) : Type 0 where
  pub named : a.name ≢ []
  pub no_sep : contains_arg_sep a.name ≡ false
  pub sep : is_sep a.separator ≡ true
  pub fits : length (raw_of a) ≤ 255
  pub printable : printable_ascii (raw_of a) ≡ true

pub encode_argument_inv :
    (a : Argument) (raw : Bytes) → encode_argument a ≡ ok raw → IsArgument a × (raw ≡ raw_of a)
unfolding encode_argument require_printable
encode_argument_inv a raw h = ground (arith, length-append a.name (a.separator ∷ a.value))

pub encode-IsArgument : (a : Argument) → IsArgument a → encode_argument a ≡ ok (raw_of a)
unfolding encode_argument require_printable
encode-IsArgument a v = ground (arith, length-append a.name (a.separator ∷ a.value))

pub find_sep-append :
    (i : ℕ) (name rest : Bytes) (c : ℕ)
    → contains_arg_sep name ≡ false
    → is_sep c ≡ true
    → find_sep i (name ++ (c ∷ rest)) ≡ some (i + length name, c)
unfolding find_sep contains_arg_sep
find_sep-append i [] rest c h k = ground arith
find_sep-append i (x ∷ name) rest c h k = ground (arith, find_sep-append (i + 1) name rest c)

pub drop_past : (name rest : Bytes) (c : ℕ) → drop (length name + 1) (name ++ (c ∷ rest)) ≡ rest
drop_past [] rest c = refl
drop_past (x ∷ name) rest c =
    let e : length (x ∷ name) + 1 ≡ suc (length name + 1) = omega arith in
    rw e (drop_past name rest c)

pub parse-IsArgument : (a : Argument) → IsArgument a → parse_argument (raw_of a) ≡ ok (some a)
unfolding parse_argument require_printable
parse-IsArgument a v = ground (
  arith,
  find_sep-append 0 a.name a.value a.separator v.no_sep v.sep,
  take-append a.name (a.separator ∷ a.value),
  drop_past a.name a.value a.separator,
  length-append a.name (a.separator ∷ a.value),
)

-- Parsing what `Encode` wrote gives the argument back, and it is present.
pub parse-encode :
    (a : Argument) (raw : Bytes) → encode_argument a ≡ ok raw → parse_argument raw ≡ ok (some a)
parse-encode a raw h = let (v, e) = encode_argument_inv a raw h in rw e (parse-IsArgument a v)

pub find_sep_inv :
    (i : ℕ) (raw : Bytes) (j k : ℕ)
    → find_sep i raw ≡ some (j, k)
    → (d : ℕ) × (j ≡ i + d)
      × (is_sep k ≡ true)
      × (contains_arg_sep (take d raw) ≡ false)
      × (raw ≡ take d raw ++ (k ∷ drop (suc d) raw))
unfolding find_sep contains_arg_sep
find_sep_inv i [] j k h = cc
find_sep_inv i (c ∷ raw) j k h = elim (Bool-cases (is_sep c)) [
  | inl e ↦ (0, ground arith, ground arith, refl, ground arith)
  | inr e ↦
      let (d, ej, s, n, r) = find_sep_inv (i + 1) raw j k (ground arith) in
      (suc d, omega arith, s, ground arith, ground arith)
]

pub suc_of : (d : ℕ) → d + 1 ≡ suc d
suc_of d = omega arith

-- An argument that `ParseArgument` accepts from a field of at most 255 bytes is well formed, and
-- `Encode` writes that field for it.
pub encode-parse :
    (raw : Bytes) (a : Argument)
    → length raw ≤ 255
    → parse_argument raw ≡ ok (some a)
    → encode_argument a ≡ ok raw
unfolding parse_argument require_printable encode_argument
encode-parse raw a fit h = elim (Option-cases (find_sep 0 raw)) [
  | inl e ↦ ground (arith, e)
  | inr ((j, k), e) ↦
      let (d, ej, s, n, r) = find_sep_inv 0 raw j k e in
      ground (
        arith,
        e,
        ej,
        s,
        n,
        r,
        length-take d raw,
        length-append (take d raw) (k ∷ drop (suc d) raw),
        suc_of d,
      )
]

abbrev pub lens_of : List Argument → Bytes
lens_of [] = []
lens_of (a ∷ args) = length (raw_of a) ∷ lens_of args

abbrev pub payload_of : List Argument → Bytes
payload_of [] = []
payload_of (a ∷ args) = raw_of a ++ payload_of args

pub length-lens_of : (args : List Argument) → length (lens_of args) ≡ length args
length-lens_of [] = refl
length-lens_of (a ∷ args) = ap suc (length-lens_of args)

encode_args_inv :
    (args : List Argument) (lens payload ls ps : Bytes)
    → encode_args lens payload args ≡ ok (ls, ps)
    → (ls ≡ lens ++ lens_of args) × (ps ≡ payload ++ payload_of args) × All IsArgument args
unfolding encode_args
encode_args_inv [] lens payload ls ps h = ground (arith, append-nil lens, append-nil payload)
encode_args_inv (a ∷ args) lens payload ls ps h =
    let (raw, e, r) =
      >>=-eq-ok (encode_argument a)
        (λ raw. encode_args (lens ++ (length raw % 256 ∷ [])) (payload ++ raw) args) h in
    let (v, er) = encode_argument_inv a raw e in
    let (l, p, vs) =
      encode_args_inv args (lens ++ (length raw % 256 ∷ [])) (payload ++ raw) ls ps r in
    (
      ground (arith, l, er, v.fits, append_assoc lens (length raw % 256 ∷ []) (lens_of args)),
      ground (arith, p, er, append_assoc payload raw (payload_of args)),
      (v, vs),
    )

pub encode_arg_list_inv :
    (args : List Argument) (ls ps : Bytes)
    → encode_arg_list args ≡ ok (ls, ps)
    → (ls ≡ lens_of args) × (ps ≡ payload_of args) × All IsArgument args × (length args ≤ 255)
unfolding encode_arg_list
encode_arg_list_inv args ls ps h = ground (arith, encode_args_inv args [] [] ls ps)

read_lens-append : (lens rest : Bytes) → read_lens (length lens) (lens ++ rest) ≡ ok (lens, rest)
unfolding read_lens u8
read_lens-append [] rest = refl
read_lens-append (l ∷ lens) rest = rw (read_lens-append lens rest)

pub read_arg_lens-append :
    (lens rest : Bytes)
    → length lens ≤ 255
    → read_arg_lens (length lens) (lens ++ rest) ≡ ok (lens, rest)
unfolding read_arg_lens
read_arg_lens-append lens rest h =
    ground (arith, length-append lens rest, read_lens-append lens rest)

read_args_from-append :
    (args out : List Argument) (rest : Bytes)
    → All IsArgument args
    → read_args_from out (lens_of args) (payload_of args ++ rest) ≡ ok (out ++ args, rest)
unfolding read_args_from
read_args_from-append [] out rest h = rw append-nil
read_args_from-append (a ∷ args) out rest (v, vs) = ground (
  arith,
  append_assoc (raw_of a) (payload_of args) rest,
  bytes-append (raw_of a) (payload_of args ++ rest),
  parse-IsArgument a v,
  read_args_from-append args (out ++ (a ∷ [])) rest vs,
  append_assoc out (a ∷ []) args,
)

-- `readArgs` reads back the list that `encodeArgList` wrote, in its order, and leaves the bytes
-- behind it.
pub read_args-append :
    (args : List Argument) (rest : Bytes)
    → All IsArgument args
    → read_args (lens_of args) (payload_of args ++ rest) ≡ ok (args, rest)
unfolding read_args
read_args-append args rest h = read_args_from-append args [] rest h

pub read_args-All :
    (args : List Argument)
    → All IsArgument args
    → read_args (lens_of args) (payload_of args) ≡ ok (args, [])
read_args-All args h = rw append-nil at (read_args-append args [] h)

-- On fields of at most 255 bytes, `ParseArgument` reads a field as a present argument exactly when
-- `Encode` writes that field for it.
pub parse_argument_iff :
    (raw : Bytes) (a : Argument)
    → length raw ≤ 255
    → (parse_argument raw ≡ ok (some a)) ↔ (encode_argument a ≡ ok raw)
parse_argument_iff raw a h = (encode-parse raw a h, parse-encode a raw)
