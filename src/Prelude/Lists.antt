-- ===== src/Prelude/Lists.antt =====
-- Rust's iterator methods on lists, with Boolean tests, and what they share.
use Prim.Native.Nat.{ℕ, suc, ◌+◌}
use mathlib.Core.Path.{◌≡◌, refl, sym, ◌∙◌}
use mathlib.Core.Logic.{inl, inr}
use mathlib.Core.Bool.{Bool, true, false, ◌&&◌, ◌||◌}
use mathlib.Core.Option.{some-injective, Option, none, some}
use mathlib.Core.List.{Memᴰ, List, [], ◌∷◌, ◌++◌}
use native.Mathlib.Omega.{arith}
use bootc_migrate.Prelude.Tests.{if◌then◌else◌, Bool-cases}

-- A predicate on every element, as nested pairs.
abbrev pub All {ℓ κ} : {A : Type ℓ} → (A → Type κ) → List A → Type κ
All P [] = Unit
All P (x ∷ xs) = P x × All P xs

abbrev pub is_some {ℓ} : {A : Type ℓ} → Option A → Bool
is_some none = false
is_some (some a) = true

abbrev pub is_none {ℓ} : {A : Type ℓ} → Option A → Bool
is_none none = true
is_none (some a) = false

-- `Option::or`
abbrev pub or_option {ℓ} : {A : Type ℓ} → Option A → Option A → Option A
or_option none o = o
or_option (some a) o = some a

-- `Option::is_some_and`
abbrev pub is_some_and {ℓ} : {A : Type ℓ} → Option A → (A → Bool) → Bool
is_some_and none p = false
is_some_and (some a) p = p a

module _ {ℓ} {A : Type ℓ} where
  abbrev pub length : List A → ℕ
  length [] = 0
  length (x ∷ xs) = suc (length xs)

  abbrev pub any : (A → Bool) → List A → Bool
  any p [] = false
  any p (x ∷ xs) = p x || any p xs

  abbrev pub all : (A → Bool) → List A → Bool
  all p [] = true
  all p (x ∷ xs) = p x && all p xs

  abbrev pub filter : (A → Bool) → List A → List A
  filter p [] = []
  filter p (x ∷ xs) = let rest = filter p xs in if p x then x ∷ rest else rest

  abbrev pub find? : (A → Bool) → List A → Option A
  find? p [] = none
  find? p (x ∷ xs) = let rest = find? p xs in if p x then some x else rest

  pub length-append : (xs ys : List A) → length (xs ++ ys) ≡ length xs + length ys
  length-append [] ys = omega arith
  length-append (x ∷ xs) ys = omega (arith, length-append xs ys)

  -- What `find` returns passes the test.
  pub find?-eq-some : (p : A → Bool) (xs : List A) {a : A} → find? p xs ≡ some a → p a ≡ true
  find?-eq-some p [] h = ground arith
  find?-eq-some p (x ∷ xs) {a} h = ground (arith, find?-eq-some p xs {a = a})

  pub find?-eq-none : (p : A → Bool) (xs : List A) → find? p xs ≡ none → any p xs ≡ false
  find?-eq-none p [] h = refl
  find?-eq-none p (x ∷ xs) h = ground (arith, find?-eq-none p xs)

  pub any-append : (p : A → Bool) (xs ys : List A) → any p (xs ++ ys) ≡ (any p xs || any p ys)
  any-append p [] ys = refl
  any-append p (x ∷ xs) ys = ground (arith, any-append p xs ys)

-- `filter_map`, over a function into `Option`.
unfoldable pub push_some {ℓ} : {B : Type ℓ} → Option B → List B → List B
push_some none bs = bs
push_some (some b) bs = b ∷ bs

unfoldable pub filter_map {ℓ κ} : {A : Type ℓ} {B : Type κ} → (A → Option B) → List A → List B
unfolding push_some
filter_map f [] = []
filter_map f (x ∷ xs) = push_some (f x) (filter_map f xs)

-- Membership and the Boolean searches.
pub find?-mem {ℓ} :
    {A : Type ℓ} (p : A → Bool) (xs : List A) {a : A} → find? p xs ≡ some a → Memᴰ a xs
find?-mem p [] h = cc
find?-mem p (x ∷ xs) {a} h = elim (Bool-cases (p x)) [
  | inl e ↦ Memᴰ.head (some-injective _ _ (pick e))
  | inr e ↦ Memᴰ.tail (find?-mem p xs (skip e))
]
  where
    pick : p x ≡ true → some a ≡ some x
    pick e = sym h ∙ rw e

    skip : p x ≡ false → find? p xs ≡ some a
    skip e = ground arith

pub any_of_mem {ℓ} :
    {A : Type ℓ} {a : A} (p : A → Bool) {xs : List A} → Memᴰ a xs → p a ≡ true → any p xs ≡ true
any_of_mem p (Memᴰ.head e) h = rw (← e, h)
any_of_mem p (Memᴰ.tail m) h = ground (arith, any_of_mem p m h)
