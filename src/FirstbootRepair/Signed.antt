-- ===== src/FirstbootRepair/Signed.antt =====
-- The signed integers that the manifest of firstboot_repair.rs is read with: `i64` with
-- `from_str_radix` and its notation, in a radix of at most 10.
use bootc_migrate.Prelude.{
  ℕ, zero, suc, ◌+◌, ◌-◌, ◌*◌, ◌/◌, ◌%◌, ◌≤◌, ◌<◌, ◌≡◌, refl, ap, ◌∙◌, inl, inr, Bool, true, false,
  ◌&&◌, ◌||◌, Option, none, some, [], ◌∷◌, arith, ltb, leb, ◌==◌, if◌then◌else◌, ltb→lt, lt→ltb,
  Bool-cases, all, and_true,
}
use mathlib.Core.Option
use native.Mathlib.Nat.{div-add-mod', div-lt_self, mod-lt}
use bootc_migrate.Text.Fields.{lacks}
use bootc_migrate.Text.Decimal.{is_digit}
use bootc_migrate.Text.{Text, is_empty}

-- `negsuc n` is -(n + 1).
pub data ℤ : Type 0 where
  pos : ℕ → ℤ
  negsuc : ℕ → ℤ

abbrev pub i64_bound : ℕ
i64_bound = 9223372036854775808

unfoldable pub negate : ℕ → ℤ
negate zero = pos 0
negate (suc n) = negsuc n

-- A number that an `i64` holds.
unfoldable pub is_i64 : ℤ → Bool
is_i64 (pos n) = ltb n i64_bound
is_i64 (negsuc n) = ltb n i64_bound

unfoldable pub eq_ℤ : ℤ → ℤ → Bool
eq_ℤ (pos m) (pos n) = m == n
eq_ℤ (negsuc m) (negsuc n) = m == n
eq_ℤ (pos m) (negsuc n) = false
eq_ℤ (negsuc m) (pos n) = false

-- Digits of the radix against a bound that the magnitude stays under, checked at every digit.
unfoldable pub radix_digits : ℕ → ℕ → ℕ → Text → Option ℕ
radix_digits radix bound acc [] = some acc
radix_digits radix bound acc (c ∷ s) =
    let value = acc * radix + (c - 48) in
    let rest = radix_digits radix bound value s in
    if leb 48 c && ltb c (48 + radix) && ltb value bound then rest else none

-- What follows the first character, which may be a sign.
unfoldable pub signed_digits : ℕ → ℕ → Text → Option ℤ
unfolding radix_digits negate
signed_digits radix c [] =
    if c == b'+' || c == b'-'
    then none
    else Option.map pos (radix_digits radix i64_bound 0 (c ∷ []))
signed_digits radix c (d ∷ s) =
    if c == b'+'
    then Option.map pos (radix_digits radix i64_bound 0 (d ∷ s))
    else if c == b'-'
    then Option.map negate (radix_digits radix (i64_bound + 1) 0 (d ∷ s))
    else Option.map pos (radix_digits radix i64_bound 0 (c ∷ d ∷ s))

-- `i64::from_str_radix`
unfoldable pub from_str_radix : ℕ → Text → Option ℤ
unfolding signed_digits
from_str_radix radix [] = none
from_str_radix radix (c ∷ s) = signed_digits radix c s

-- The digits of `n` in front of `acc`, on fuel.
unfoldable pub radix_onto : ℕ → ℕ → ℕ → Text → Text
radix_onto radix zero n acc = acc
radix_onto radix (suc fuel) n acc =
    let rest = radix_onto radix fuel (n / radix) ((n % radix + 48) ∷ acc) in
    if ltb n radix then (n + 48) ∷ acc else rest

-- `{}` and `{:o}` of an unsigned number: `n + 1` rounds are enough for every `n`.
unfoldable pub show_radix : ℕ → ℕ → Text
unfolding radix_onto
show_radix radix n = radix_onto radix (suc n) n []

-- `{}` of an `i64`.
unfoldable pub show_ℤ : ℤ → Text
unfolding show_radix
show_ℤ (pos n) = show_radix 10 n
show_ℤ (negsuc n) = b'-' ∷ show_radix 10 (suc n)

pub eq_ℤ→eq : (a b : ℤ) → eq_ℤ a b ≡ true → a ≡ b
unfolding eq_ℤ
eq_ℤ→eq a b h = ground arith

pub eq_ℤ_self : (a : ℤ) → eq_ℤ a a ≡ true
unfolding eq_ℤ
eq_ℤ_self a = ground arith

radix_digit : ℕ → ℕ → Bool
radix_digit radix c = leb 48 c && ltb c (48 + radix)

-- The loop of `from_str_radix` over the digits that `radix_onto` put in front.
radix_step :
    (radix bound acc c : ℕ) (s : Text) (value : ℕ)
    → leb 48 c ≡ true
    → ltb c (48 + radix) ≡ true
    → acc * radix + (c - 48) ≡ value
    → value < bound
    → radix_digits radix bound acc (c ∷ s) ≡ radix_digits radix bound value s
unfolding radix_digits
radix_step radix bound acc c s value low high e h = rw (low, high, e, lt→ltb value bound h)

radix_digits-radix_onto :
    (radix fuel bound n : ℕ) (tail : Text)
    → 2 ≤ radix
    → n < fuel
    → n < bound
    → radix_digits radix bound 0 (radix_onto radix fuel n tail) ≡ radix_digits radix bound n tail
unfolding radix_onto
radix_digits-radix_onto radix zero bound n tail r f h = absurd (omega arith)
radix_digits-radix_onto radix (suc fuel) bound n tail r f h = elim (Bool-cases (ltb n radix)) [
  | inl small ↦
      rw small
        (radix_step radix bound 0 (n + 48) tail n (ground arith) (ground arith) (omega arith) h)
  | inr big ↦
      let parts = div-add-mod' n radix in
      let less = div-lt_self {n = n} {k = radix} (ground arith) (omega arith) in
      let digit = mod-lt n {m = radix} (omega arith) in
      rw big (
        radix_digits-radix_onto radix fuel bound (n / radix) ((n % radix + 48) ∷ tail) r
          (omega arith) (omega arith)
        ∙ radix_step radix bound (n / radix) (n % radix + 48) tail n (ground arith) (ground arith)
            (ap (λ d. n / radix * radix + d) (omega arith) ∙ parts) h)
]

all_digit-radix_onto :
    (radix fuel n : ℕ) (tail : Text)
    → 2 ≤ radix
    → radix ≤ 10
    → all is_digit tail ≡ true
    → all is_digit (radix_onto radix fuel n tail) ≡ true
unfolding radix_onto
all_digit-radix_onto radix zero n tail r q h = h
all_digit-radix_onto radix (suc fuel) n tail r q h = elim (Bool-cases (ltb n radix)) [
  | inl small ↦ rw small (digit_onto n tail (ground arith) h)
  | inr big ↦
      let digit = mod-lt n {m = radix} (omega arith) in
      rw big (
        all_digit-radix_onto radix fuel (n / radix) ((n % radix + 48) ∷ tail) r q
          (digit_onto (n % radix) tail (omega arith) h))
]
  where
    digit_onto :
        (d : ℕ) (t : Text) → d < 10 → all is_digit t ≡ true → all is_digit ((d + 48) ∷ t) ≡ true
    digit_onto d t low rest = ground arith

is_empty-radix_onto :
    (radix fuel n c : ℕ) (tail : Text) → is_empty (radix_onto radix fuel n (c ∷ tail)) ≡ false
unfolding radix_onto
is_empty-radix_onto radix zero n c tail = refl
is_empty-radix_onto radix (suc fuel) n c tail = elim (Bool-cases (ltb n radix)) [
  | inl small ↦ rw small
  | inr big ↦ rw (big, is_empty-radix_onto radix fuel (n / radix) (n % radix + 48) (c ∷ tail))
]

-- Digits, at least one, that the digits' loop reads back.
show_radix_parts :
    (radix bound n : ℕ)
    → 2 ≤ radix
    → radix ≤ 10
    → n < bound
    → (all is_digit (show_radix radix n) ≡ true)
      × (is_empty (show_radix radix n) ≡ false)
      × (radix_digits radix bound 0 (show_radix radix n) ≡ some n)
unfolding show_radix radix_onto radix_digits
show_radix_parts radix bound n r q h = (
  all_digit-radix_onto radix (suc n) n [] r q refl,
  elim (Bool-cases (ltb n radix)) [
    | inl small ↦ rw small
    | inr big ↦ rw (big, is_empty-radix_onto radix n (n / radix) (n % radix + 48) [])
  ],
  radix_digits-radix_onto radix (suc n) bound n [] r (omega arith) h,
)

no_sign : (c : ℕ) → is_digit c ≡ true → (c == b'+' ≡ false) × (c == b'-' ≡ false)
no_sign c h = ground (arith, h)

unsigned :
    (radix : ℕ) (s : Text)
    → all is_digit s ≡ true
    → is_empty s ≡ false
    → from_str_radix radix s ≡ Option.map pos (radix_digits radix i64_bound 0 s)
unfolding from_str_radix signed_digits
unsigned radix [] d e = cc
unsigned radix (c ∷ []) d e =
    let (no_plus, no_minus) = no_sign c ((and_true (is_digit c) true d).0) in rw (no_plus, no_minus)
unsigned radix (c ∷ c' ∷ s) d e =
    let (no_plus, no_minus) = no_sign c ((and_true (is_digit c) (all is_digit (c' ∷ s)) d).0) in
    rw (no_plus, no_minus)

negative :
    (radix : ℕ) (s : Text)
    → is_empty s ≡ false
    → from_str_radix radix (b'-' ∷ s) ≡ Option.map negate (radix_digits radix (i64_bound + 1) 0 s)
unfolding from_str_radix signed_digits
negative radix [] e = cc
negative radix (c ∷ s) e = refl

-- A number in notation of the radix is read back.
pub from_str_radix-show_radix :
    (radix n : ℕ)
    → 2 ≤ radix
    → radix ≤ 10
    → n < i64_bound
    → from_str_radix radix (show_radix radix n) ≡ some (pos n)
from_str_radix-show_radix radix n r q h =
    let (digits, filled, value) = show_radix_parts radix i64_bound n r q h in
    unsigned radix (show_radix radix n) digits filled ∙ ap (Option.map pos) value

-- An `i64` in decimal is read back.
pub from_str_radix-show_ℤ : (i : ℤ) → is_i64 i ≡ true → from_str_radix 10 (show_ℤ i) ≡ some i
unfolding show_ℤ is_i64 negate
from_str_radix-show_ℤ (pos n) h =
    from_str_radix-show_radix 10 n (omega arith) (omega arith) (ltb→lt n i64_bound h)
from_str_radix-show_ℤ (negsuc n) h =
    let (digits, filled, value) =
      show_radix_parts 10 (i64_bound + 1) (suc n) (omega arith) (omega arith) (ground arith) in
    negative 10 (show_radix 10 (suc n)) filled ∙ ap (Option.map negate) value

lacks_digits : (c : ℕ) (s : Text) → ltb c 48 ≡ true → all is_digit s ≡ true → lacks c s ≡ true
lacks_digits c [] h d = refl
lacks_digits c (e ∷ s) h d = ground (arith, lacks_digits c s h)

-- No notation has a control character.
pub lacks-show_radix :
    (c radix n : ℕ) → ltb c 45 ≡ true → 2 ≤ radix → radix ≤ 10 → lacks c (show_radix radix n) ≡ true
lacks-show_radix c radix n h r q =
    lacks_digits c (show_radix radix n) (ground arith)
      ((show_radix_parts radix (suc n) n r q (omega arith)).0)

pub lacks-show_ℤ : (c : ℕ) (i : ℤ) → ltb c 45 ≡ true → lacks c (show_ℤ i) ≡ true
unfolding show_ℤ
lacks-show_ℤ c (pos n) h = lacks-show_radix c 10 n h (omega arith) (omega arith)
lacks-show_ℤ c (negsuc n) h =
    rw (lacks-show_radix c 10 (suc n) h (omega arith) (omega arith)) (ground arith)
