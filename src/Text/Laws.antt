-- ===== src/Text/Laws.antt =====
-- Laws of the `str` functions.
use mathlib.Core.List.{reverse-append}
use bootc_migrate.Prelude.{
  ◌<◌, ◌≡◌, refl, ap, ◌∙◌, ◌≢◌, ◌↔◌, inl, inr, true, false, ◌||◌, List, [], ◌∷◌, ◌++◌, map, reverse,
  arith, Bool-cases, length, length-append,
}
use bootc_migrate.Text.Defs.{
  starts_with, ends_with, Text, text_eq, contains, sort, insert_sorted, dedup, eq_ignore_ascii_case,
  to_lower,
}

pub text_eq→eq : (s t : Text) → text_eq s t ≡ true → s ≡ t
unfolding text_eq
text_eq→eq [] [] h = refl
text_eq→eq [] (d ∷ t) h = cc
text_eq→eq (c ∷ s) [] h = cc
text_eq→eq (c ∷ s) (d ∷ t) h = ground (arith, text_eq→eq s t)

pub text_eq_self : (s : Text) → text_eq s s ≡ true
unfolding text_eq
text_eq_self [] = refl
text_eq_self (c ∷ s) = ground (arith, text_eq_self s)

pub text_eq_iff : (s t : Text) → (text_eq s t ≡ true) ↔ (s ≡ t)
text_eq_iff s t = (text_eq→eq s t, λ e. subst_eq e)
  where
    subst_eq : s ≡ t → text_eq s t ≡ true
    subst_eq e = rw e (text_eq_self t)

pub text_eq_comm : (s t : Text) → text_eq s t ≡ text_eq t s
text_eq_comm s t = ground (arith, text_eq_iff s t, text_eq_iff t s)

contains-insert_sorted :
    (s : Text) (ts : List Text) (q : Text)
    → contains (insert_sorted s ts) q ≡ (text_eq q s || contains ts q)
unfolding insert_sorted
contains-insert_sorted s [] q = refl
contains-insert_sorted s (t ∷ ts) q = ground (arith, contains-insert_sorted s ts q)

pub contains-sort : (ts : List Text) (q : Text) → contains (sort ts) q ≡ contains ts q
unfolding sort
contains-sort [] q = refl
contains-sort (t ∷ ts) q =
    contains-insert_sorted t (sort ts) q ∙ ap (λ b. text_eq q t || b) (contains-sort ts q)

pub contains-dedup : (ts : List Text) (q : Text) → contains (dedup ts) q ≡ contains ts q
unfolding dedup
contains-dedup [] q = refl
contains-dedup (s ∷ []) q = refl
contains-dedup (s ∷ t ∷ ts) q = ground (arith, contains-dedup (t ∷ ts) q, text_eq_iff s t)

pub eq_ignore_ascii_case_self : (s : Text) → eq_ignore_ascii_case s s ≡ true
unfolding eq_ignore_ascii_case
eq_ignore_ascii_case_self s = text_eq_self (map to_lower s)

pub eq_ignore_ascii_case_comm : (s t : Text) → eq_ignore_ascii_case s t ≡ eq_ignore_ascii_case t s
unfolding eq_ignore_ascii_case
eq_ignore_ascii_case_comm s t = text_eq_comm (map to_lower s) (map to_lower t)

pub eq_ignore_ascii_case_trans :
    (s t u : Text)
    → eq_ignore_ascii_case s t ≡ true
    → eq_ignore_ascii_case t u ≡ true
    → eq_ignore_ascii_case s u ≡ true
unfolding eq_ignore_ascii_case
eq_ignore_ascii_case_trans s t u h k = rw (text_eq→eq (map to_lower s) (map to_lower t) h) k

pub starts_with-append : (s t : Text) → starts_with (s ++ t) s ≡ true
unfolding starts_with
starts_with-append [] t = starts_with-nil t
  where
    starts_with-nil : (t : Text) → starts_with t [] ≡ true
    starts_with-nil [] = refl
    starts_with-nil (c ∷ t) = refl
starts_with-append (c ∷ s) t = ground (arith, starts_with-append s t)

-- What has a suffix appended ends with it.
pub ends_with-append : (s t : Text) → ends_with (s ++ t) t ≡ true
unfolding ends_with
ends_with-append s t = rw (reverse-append s t) (starts_with-append (reverse t) (reverse s))

text_eq-longer : (s t : Text) → length s ≢ length t → text_eq s t ≡ false
text_eq-longer s t h = elim (Bool-cases (text_eq s t)) [
  | inl e ↦ absurd (h (ap length (text_eq→eq s t e)))
  | inr e ↦ e
]

-- No text equals itself with a proper suffix.
pub text_eq-append_self :
    (s t : Text) → 0 < length t → (text_eq s (s ++ t) ≡ false) × (text_eq (s ++ t) s ≡ false)
text_eq-append_self s t h = (
  text_eq-longer s (s ++ t) (omega (arith, length-append {0} s t)),
  text_eq-longer (s ++ t) s (omega (arith, length-append {0} s t)),
)

-- Texts with a common suffix agree as their fronts do.
pub text_eq-append_right : (s t u : Text) → text_eq (s ++ u) (t ++ u) ≡ text_eq s t
unfolding text_eq
text_eq-append_right [] [] u = text_eq_self u
text_eq-append_right [] (d ∷ t) u =
    text_eq-longer u (d ∷ t ++ u) (omega (arith, length-append {0} t u))
text_eq-append_right (c ∷ s) [] u =
    text_eq-longer (c ∷ s ++ u) u (omega (arith, length-append {0} s u))
text_eq-append_right (c ∷ s) (d ∷ t) u = ground (arith, text_eq-append_right s t u)
