-- ===== src/Radius/Attribute.antt =====
-- Raw attributes: internal/radius/attribute/raw.go, set.go, decode.go, encode.go, and the errors of
-- errors.go. Copies of values are the values. A wrapped error is the one that `errors.Is` finds in
-- it. The two budgets are numbers, so the negative ones that `Decode` treats like 0 are not written.
pub mod RoundTrip
use go_lab_tacacs_mcp.Common.{
  List, Option, Result, [], drop, err, guard, if◌then◌else◌, length, ltb, none, not, ok, some, suc,
  take, zero, ℕ, ◌%◌, ◌++◌, ◌+◌, ◌-◌, ◌==◌, ◌>>=◌, ◌>>◌, ◌∷◌,
}
use go_lab_tacacs_mcp.Common.Bytes.{Bytes}

-- The errors of attributes, vendor attributes and packets. `no_fuel` is no Go value: the fuel of a
-- loop ran out.
pub data AttrError : Type 0 where
  overflow attr_length too_many budget value_too_long : AttrError
  not_vsa vsa_short vsa_value_long vendor_tlv_malformed vendor_tlv_long : AttrError
  header_short invalid_length packet_too_large : AttrError
  no_fuel : AttrError

abbrev pub max_value_length : ℕ
max_value_length = 253

abbrev pub default_max_attributes : ℕ
default_max_attributes = 256

abbrev pub default_max_value_bytes : ℕ
default_max_value_bytes = 4096

pub record Raw : Type 0 where
  pub typ : ℕ
  pub value : Bytes

abbrev pub RawSet : Type 0
RawSet = List Raw

unfoldable pub wire_length : Raw → ℕ
wire_length r = 2 + length r.value

unfoldable pub value_bytes : RawSet → ℕ
value_bytes [] = 0
value_bytes (a ∷ s) = length a.value + value_bytes s

unfoldable pub wire_size : RawSet → ℕ
unfolding wire_length
wire_size [] = 0
wire_size (a ∷ s) = wire_length a + wire_size s

unfoldable pub first_of : RawSet → ℕ → Option Raw
first_of [] typ = none
first_of (a ∷ s) typ = if a.typ == typ then some a else first_of s typ

unfoldable pub all_of : RawSet → ℕ → RawSet
all_of [] typ = []
all_of (a ∷ s) typ = let rest = all_of s typ in if a.typ == typ then a ∷ rest else rest

-- The loop of `Decode` at the payload `payload[off:]`, with `count` attributes and `used` value
-- bytes behind it. An attribute takes two bytes at least.
unfoldable pub decode_loop : ℕ → Bytes → ℕ → ℕ → ℕ → ℕ → Result AttrError RawSet
decode_loop fuel [] count used max_attrs max_bytes = ok []
decode_loop zero (t ∷ p) count used max_attrs max_bytes = err no_fuel
decode_loop (suc fuel) (typ ∷ []) count used max_attrs max_bytes = err overflow
decode_loop (suc fuel) (typ ∷ alen ∷ rest) count used max_attrs max_bytes = do
  guard (not (ltb alen 2)) attr_length
  guard (not (ltb (2 + length rest) alen)) overflow
  guard (ltb count max_attrs) too_many
  guard (not (ltb max_bytes (used + (alen - 2)))) budget
  more ← decode_loop fuel (drop (alen - 2) rest) (count + 1) (used + (alen - 2)) max_attrs max_bytes
  ok (record { typ = typ; value = take (alen - 2) rest } ∷ more)

-- `Decode`
unfoldable pub decode_attributes : Bytes → ℕ → ℕ → Result AttrError RawSet
decode_attributes payload max_attrs max_bytes =
    decode_loop (length payload) payload 0 0
      (if max_attrs == 0 then default_max_attributes else max_attrs)
      (if max_bytes == 0 then default_max_value_bytes else max_bytes)

-- The two loops of `Encode`: the test of the values, and the writing.
unfoldable pub check_values : RawSet → Result AttrError (Unit {0})
check_values [] = ok tt
check_values (a ∷ s) = do
  guard (not (ltb max_value_length (length a.value))) value_too_long
  check_values s

unfoldable pub write_values : RawSet → Bytes
write_values [] = []
write_values (a ∷ s) = a.typ ∷ ((2 + length a.value) % 256) ∷ (a.value ++ write_values s)

unfoldable pub encode_attributes : RawSet → Result AttrError Bytes
encode_attributes s = do check_values s; ok (write_values s)
