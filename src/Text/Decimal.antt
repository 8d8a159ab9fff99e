-- ===== src/Text/Decimal.antt =====
-- A number written in decimal is read back.
use bootc_migrate.Prelude.{
  ℕ, zero, suc, ◌+◌, ◌-◌, ◌*◌, ◌/◌, ◌%◌, ◌<◌, ◌≡◌, refl, ◌∙◌, inl, inr, Bool, true, false, some, [],
  ◌∷◌, ◌&&◌, ltb, leb, ◌==◌, arith, Bool-cases, all, lt→ltb, and_true,
}
use bootc_migrate.Text.Defs.{Text, is_empty}
use bootc_migrate.Text.Numbers.{parse_digits, parse_uint, digits_onto, show_nat}

abbrev pub is_digit : ℕ → Bool
is_digit c = leb 48 c && leb c 57

digit_step :
    (bound acc c : ℕ) (s : Text) (value : ℕ)
    → is_digit c ≡ true
    → acc * 10 + (c - 48) ≡ value
    → value < bound
    → parse_digits bound acc (c ∷ s) ≡ parse_digits bound value s
unfolding parse_digits
digit_step bound acc c s value d e h =
    let (low, high) = and_true (leb 48 c) (leb c 57) d in rw (low, high, e, lt→ltb value bound h)

digit_of : (n : ℕ) → ltb n 10 ≡ true → is_digit (n + 48) ≡ true
digit_of n h = ground (arith, h)

parse_digits-digits_onto :
    (fuel bound n : ℕ) (tail : Text)
    → n < fuel
    → n < bound
    → parse_digits bound 0 (digits_onto fuel n tail) ≡ parse_digits bound n tail
unfolding digits_onto
parse_digits-digits_onto zero bound n tail f h = absurd (omega arith)
parse_digits-digits_onto (suc fuel) bound n tail f h = elim (Bool-cases (ltb n 10)) [
  | inl small ↦ rw small (digit_step bound 0 (n + 48) tail n (digit_of n small) (omega arith) h)
  | inr big ↦ rw big (
      parse_digits-digits_onto fuel bound (n / 10) ((n % 10 + 48) ∷ tail) (ground (arith, big))
        (ground (arith, h))
      ∙ digit_step bound (n / 10) (n % 10 + 48) tail n (digit_of (n % 10) (ground arith))
          (omega arith) h)
]

all_digit-digits_onto :
    (fuel n : ℕ) (tail : Text)
    → all is_digit tail ≡ true
    → all is_digit (digits_onto fuel n tail) ≡ true
unfolding digits_onto
all_digit-digits_onto zero n tail h = h
all_digit-digits_onto (suc fuel) n tail h = elim (Bool-cases (ltb n 10)) [
  | inl small ↦ rw (small, digit_of n small, h)
  | inr big ↦ rw big (
      all_digit-digits_onto fuel (n / 10) ((n % 10 + 48) ∷ tail)
        (rw (digit_of (n % 10) (ground arith), h)))
]

is_empty-digits_onto :
    (fuel n c : ℕ) (tail : Text) → is_empty (digits_onto fuel n (c ∷ tail)) ≡ false
unfolding digits_onto
is_empty-digits_onto zero n c tail = refl
is_empty-digits_onto (suc fuel) n c tail = elim (Bool-cases (ltb n 10)) [
  | inl small ↦ rw small
  | inr big ↦ rw (big, is_empty-digits_onto fuel (n / 10) (n % 10 + 48) (c ∷ tail))
]

-- Decimal notation is digits, and at least one.
pub all_digit-show_nat : (n : ℕ) → all is_digit (show_nat n) ≡ true
unfolding show_nat
all_digit-show_nat n = all_digit-digits_onto (suc n) n [] refl

pub is_empty-show_nat : (n : ℕ) → is_empty (show_nat n) ≡ false
unfolding show_nat digits_onto
is_empty-show_nat n = elim (Bool-cases (ltb n 10)) [
  | inl small ↦ rw small
  | inr big ↦ rw (big, is_empty-digits_onto n (n / 10) (n % 10 + 48) [])
]

no_sign : (c : ℕ) → is_digit c ≡ true → c == 43 ≡ false
no_sign c h = ground (arith, h)

parse_uint-digits :
    (bound : ℕ) (s : Text)
    → all is_digit s ≡ true
    → is_empty s ≡ false
    → parse_uint bound s ≡ parse_digits bound 0 s
unfolding parse_uint
parse_uint-digits bound [] d e = cc
parse_uint-digits bound (c ∷ []) d e = rw (no_sign c ((and_true (is_digit c) true d).0))
parse_uint-digits bound (c ∷ c' ∷ s) d e =
    rw (no_sign c ((and_true (is_digit c) (all is_digit (c' ∷ s)) d).0))

pub parse_uint-show_nat : (bound n : ℕ) → n < bound → parse_uint bound (show_nat n) ≡ some n
unfolding show_nat parse_digits
parse_uint-show_nat bound n h =
    parse_uint-digits bound (show_nat n) (all_digit-show_nat n) (is_empty-show_nat n)
    ∙ parse_digits-digits_onto (suc n) bound n [] (omega arith) h
