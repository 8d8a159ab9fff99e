-- ===== src/Etc/Identity/Union.antt =====
-- The union of two account tables by their first field.
use mathlib.Core.List.{append_assoc, append-nil}
use bootc_migrate.Prelude.{
  ◌≡◌, refl, sym, ap, ◌∙◌, inl, inr, Bool, false, ◌&&◌, ◌||◌, not, List, [], ◌∷◌, ◌++◌, arith,
  if◌then◌else◌, Bool-cases, true, Option, some, find?, All,
}
use bootc_migrate.Text.{Text, codes, text_eq, contains, lines, is_empty, text_eq_iff, text_eq_self}
use bootc_migrate.Etc.Identity.{key_of, first_loop, second_loop, union_by_first_field}

-- Lines with a line feed after each.
unfoldable pub unlines : List Text → Text
unlines [] = []
unlines (l ∷ ls) = (l ++ codes "\n") ++ unlines ls

-- Whether a line that is not empty has the key.
abbrev pub has_key : List Text → Text → Bool
has_key [] k = false
has_key (l ∷ ls) k = not (is_empty l) && text_eq k (key_of l) || has_key ls k

-- No key of a line is among `known`, none is there twice, and no line is empty.
abbrev pub IsFresh : (Text → Bool) → List Text → Type 0
IsFresh known [] = Unit
IsFresh known (l ∷ ls) =
    (is_empty l ≡ false)
    × (known (key_of l) ≡ false)
    × IsFresh (λ k. text_eq k (key_of l) || known k) ls

added : List Text → List Text → List Text
added keys [] = []
added keys (l ∷ ls) =
    let skip = added keys ls in
    let keep = l ∷ added (key_of l ∷ keys) ls in
    if is_empty l then skip else if contains keys (key_of l) then skip else keep

unlines-append : (ls ms : List Text) → unlines (ls ++ ms) ≡ unlines ls ++ unlines ms
unfolding unlines
unlines-append [] ms = refl
unlines-append (l ∷ ls) ms =
    rw (unlines-append ls ms) (sym (append_assoc (l ++ codes "\n") (unlines ls) (unlines ms)))

second_loop-added :
    (ls keys : List Text) (out : Text) → second_loop ls keys out ≡ out ++ unlines (added keys ls)
unfolding second_loop added unlines
second_loop-added [] keys out = rw append-nil
second_loop-added (l ∷ ls) keys out = elim (Bool-cases (is_empty l)) [
  | inl e ↦ rw e (second_loop-added ls keys out)
  | inr e ↦ rw e (elim (Bool-cases (contains keys (key_of l))) [
    | inl k ↦ rw k (second_loop-added ls keys out)
    | inr k ↦ rw k (
        second_loop-added ls (key_of l ∷ keys) (out ++ (l ++ codes "\n"))
        ∙ append_assoc out (l ++ codes "\n") (unlines (added (key_of l ∷ keys) ls)))
  ])
]

first_loop-out : (ls keys : List Text) (out : Text) → (first_loop ls keys out).1 ≡ out ++ unlines ls
unfolding first_loop unlines
first_loop-out [] keys out = rw append-nil
first_loop-out (l ∷ ls) keys out =
    first_loop-out ls _ (out ++ (l ++ codes "\n")) ∙ append_assoc out (l ++ codes "\n") (unlines ls)

first_loop-keys :
    (ls keys : List Text) (out k : Text)
    → contains (first_loop ls keys out).0 k ≡ (has_key ls k || contains keys k)
unfolding first_loop
first_loop-keys [] keys out k = refl
first_loop-keys (l ∷ ls) keys out k = ground (
  arith,
  first_loop-keys ls (if is_empty l then keys else key_of l ∷ keys) (out ++ (l ++ codes "\n")) k,
)

has_key-append :
    (ls ms : List Text) (k : Text) → has_key (ls ++ ms) k ≡ (has_key ls k || has_key ms k)
has_key-append [] ms k = refl
has_key-append (l ∷ ls) ms k = ground (arith, has_key-append ls ms k)

has_key-added :
    (keys ls : List Text) (k : Text)
    → (contains keys k || has_key (added keys ls) k) ≡ (contains keys k || has_key ls k)
unfolding added
has_key-added keys [] k = refl
has_key-added keys (l ∷ ls) k =
    ground (
      arith,
      has_key-added keys ls k,
      has_key-added (key_of l ∷ keys) ls k,
      text_eq_iff k (key_of l),
    )

added-IsFresh :
    (keys ls : List Text) (known : Text → Bool)
    → ((k : Text) → known k ≡ contains keys k)
    → IsFresh known (added keys ls)
unfolding added
added-IsFresh keys [] known same = tt
added-IsFresh keys (l ∷ ls) known same = elim (Bool-cases (is_empty l)) [
  | inl e ↦ rw e (added-IsFresh keys ls known same)
  | inr e ↦ rw e (elim (Bool-cases (contains keys (key_of l))) [
    | inl k ↦ rw k (added-IsFresh keys ls known same)
    | inr k ↦ rw k (
      e,
      same (key_of l) ∙ k,
      added-IsFresh (key_of l ∷ keys) ls _ (λ j. ap (λ b. text_eq j (key_of l) || b) (same j)),
    )
  ])
]

-- The first line that is not empty and has the key.
abbrev pub first_with : Text → List Text → Option Text
first_with k ls = find? (λ l. not (is_empty l) && text_eq k (key_of l)) ls

-- The lines of the first table, unchanged and in their order, followed by the line that the second
-- table has first for a key, for each key that the first table lacks.
abbrev pub IsUnion : Text → Text → Text → Type 0
IsUnion first second r =
    (extra : List Text) × (r ≡ unlines (lines first ++ extra))
    × ((k : Text)
        → has_key (lines first ++ extra) k ≡ (has_key (lines first) k || has_key (lines second) k))
    × IsFresh (has_key (lines first)) extra
    × All (λ l. first_with (key_of l) (lines second) ≡ some l) extra

-- The key was unknown, and no line before has it.
abbrev IsFirst : List Text → List Text → Text → Type 0
IsFirst keys ls m = (contains keys (key_of m) ≡ false) × (first_with (key_of m) ls ≡ some m)

All-map : {P Q : Text → Type 0} (ls : List Text) → ((l : Text) → P l → Q l) → All P ls → All Q ls
All-map [] f h = tt
All-map (l ∷ ls) f h = (f l h.0, All-map ls f h.1)

first_with-skip :
    (k l : Text) (ls : List Text) {r : Option Text}
    → (not (is_empty l) && text_eq k (key_of l)) ≡ false
    → first_with k ls ≡ r
    → first_with k (l ∷ ls) ≡ r
first_with-skip k l ls other h = rw other h

added-IsFirst : (keys ls : List Text) → All (IsFirst keys ls) (added keys ls)
unfolding added
added-IsFirst keys [] = tt
added-IsFirst keys (l ∷ ls) = elim (Bool-cases (is_empty l)) [
  | inl e ↦ rw e (All-map (added keys ls) (skip_empty e) (added-IsFirst keys ls))
  | inr e ↦ rw e (elim (Bool-cases (contains keys (key_of l))) [
    | inl k ↦ rw k (All-map (added keys ls) (skip_known k) (added-IsFirst keys ls))
    | inr k ↦ rw k (
      (k, rw (e, text_eq_self (key_of l))),
      All-map (added (key_of l ∷ keys) ls) skip_added (added-IsFirst (key_of l ∷ keys) ls),
    )
  ])
]
  where
    skip_empty : is_empty l ≡ true → (m : Text) → IsFirst keys ls m → IsFirst keys (l ∷ ls) m
    skip_empty e m (new, found) = (new, first_with-skip (key_of m) l ls (ground (arith, e)) found)

    skip_known :
        contains keys (key_of l) ≡ true → (m : Text) → IsFirst keys ls m → IsFirst keys (l ∷ ls) m
    skip_known k m (new, found) = (
      new,
      first_with-skip (key_of m) l ls (ground (arith, k, new, text_eq_iff (key_of m) (key_of l)))
          found,
    )

    skip_added : (m : Text) → IsFirst (key_of l ∷ keys) ls m → IsFirst keys (l ∷ ls) m
    skip_added m (new, found) =
        (ground (arith, new), first_with-skip (key_of m) l ls (ground (arith, new)) found)

-- The union is the lines of the first table, unchanged and in their order, followed by lines of the
-- second one with keys that the first table lacks: for each such key the first line of the second
-- table that is not empty and has it, and no other. It has the keys of both tables and no other.
pub union_by_first_field_lem :
    (first second : Text) → IsUnion first second (union_by_first_field first second)
unfolding union_by_first_field
union_by_first_field_lem first second =
    let ls = lines first in
    let known : List Text = (first_loop ls [] []).0 in
    let extra = added known (lines second) in
    let same : (k : Text) → has_key ls k ≡ contains known k =
      λ k. ground (arith, first_loop-keys ls [] [] k) in
    (
      extra,
      rw (unlines-append ls extra, ← first_loop-out ls [] [])
          (second_loop-added (lines second) known (first_loop ls [] []).1),
      (λ k.
          ground (arith, same k, has_key-append ls extra k, has_key-added known (lines second) k)),
      added-IsFresh known (lines second) (has_key ls) same,
      All-map extra (λ l h. h.1) (added-IsFirst known (lines second)),
    )
