-- ===== src/Text/Numbers.antt =====
-- `FromStr` and `Display` for unsigned integers.
use bootc_migrate.Prelude.{
  ℕ, zero, suc, ◌+◌, ◌-◌, ◌*◌, ◌/◌, ◌%◌, Option, none, some, [], ◌∷◌, ◌&&◌, if◌then◌else◌, ltb, leb,
  ◌==◌,
}
use bootc_migrate.Text.Defs.{Text}

-- Digits against a bound that the value stays under; the check is made at every digit.
unfoldable pub parse_digits : ℕ → ℕ → Text → Option ℕ
parse_digits bound acc [] = some acc
parse_digits bound acc (c ∷ s) =
    let value = acc * 10 + (c - 48) in
    let rest = parse_digits bound value s in
    if leb 48 c && leb c 57 && ltb value bound then rest else none

-- `str::parse` for an unsigned integer below `bound`: a leading `+` is allowed, nothing is not.
unfoldable pub parse_uint : ℕ → Text → Option ℕ
unfolding parse_digits
parse_uint bound [] = none
parse_uint bound (c ∷ []) = if c == 43 then none else parse_digits bound 0 (c ∷ [])
parse_uint bound (c ∷ d ∷ s) =
    if c == 43 then parse_digits bound 0 (d ∷ s) else parse_digits bound 0 (c ∷ d ∷ s)

abbrev pub u32_bound : ℕ
u32_bound = 4294967296

abbrev pub u64_bound : ℕ
u64_bound = 18446744073709551616

unfoldable pub parse_u32 : Text → Option ℕ
unfolding parse_uint
parse_u32 = parse_uint u32_bound

unfoldable pub parse_u64 : Text → Option ℕ
unfolding parse_uint
parse_u64 = parse_uint u64_bound

-- The decimal digits of `n` in front of `acc`, on fuel.
unfoldable pub digits_onto : ℕ → ℕ → Text → Text
digits_onto zero n acc = acc
digits_onto (suc fuel) n acc =
    let rest = digits_onto fuel (n / 10) ((n % 10 + 48) ∷ acc) in
    if ltb n 10 then (n + 48) ∷ acc else rest

-- `to_string`: `n + 1` rounds are enough for every `n`.
unfoldable pub show_nat : ℕ → Text
unfolding digits_onto
show_nat n = digits_onto (suc n) n []
