-- ===== src/Text/Fields.antt =====
-- Trimmed fields: `trim` is idempotent, and splitting undoes joining.
use mathlib.Core.List.{reverse-cons, reverse-append, reverse-reverse}
use bootc_migrate.Prelude.{
  ℕ, ◌≡◌, refl, sym, ap, ◌∙◌, subst, inl, inr, Bool, true, false, ◌&&◌, not, Option, none, some,
  List, [], ◌∷◌, ◌++◌, reverse, arith, ◌==◌, ==_iff, Bool-cases, all,
}
use bootc_migrate.Text.Defs.{
  Text, split_once, split_once_at, push_head, split_by, split_on, is_whitespace, trim_start_by,
  trim, join,
}

-- No whitespace at the front.
abbrev pub starts_clean : Text → Bool
starts_clean [] = true
starts_clean (c ∷ s) = not (is_whitespace c)

trim_start-starts_clean : (s : Text) → starts_clean (trim_start_by is_whitespace s) ≡ true
unfolding trim_start_by
trim_start-starts_clean [] = refl
trim_start-starts_clean (c ∷ s) = elim (Bool-cases (is_whitespace c)) [
  | inl white ↦ rw white (trim_start-starts_clean s)
  | inr solid ↦ rw (solid, solid)
]

pub trim_start_clean : (s : Text) → starts_clean s ≡ true → trim_start_by is_whitespace s ≡ s
unfolding trim_start_by
trim_start_clean [] h = refl
trim_start_clean (c ∷ s) h = elim (Bool-cases (is_whitespace c)) [
  | inl white ↦ absurd (ground arith)
  | inr solid ↦ rw solid
]

starts_clean-append : (s t : Text) → starts_clean (s ++ t) ≡ true → starts_clean s ≡ true
starts_clean-append [] t h = refl
starts_clean-append (c ∷ s) t h = h

-- What was trimmed off the front.
trim_start_suffix : (s : Text) → (cut : Text) × (s ≡ cut ++ trim_start_by is_whitespace s)
unfolding trim_start_by
trim_start_suffix [] = ([], refl)
trim_start_suffix (c ∷ s) =
    let (cut, same) = trim_start_suffix s in
    elim (Bool-cases (is_whitespace c)) [
      | inl white ↦ (c ∷ cut, rw white (ap (λ r. c ∷ r) same))
      | inr solid ↦ ([], rw solid)
    ]

-- Trimming a trimmed text changes nothing.
pub trim-trim : (s : Text) → trim (trim s) ≡ trim s
unfolding trim
trim-trim s =
    let front = trim_start_by is_whitespace s in
    let back = trim_start_by is_whitespace (reverse front) in
    let (cut, same) = trim_start_suffix (reverse front) in
    let parts : front ≡ reverse back ++ reverse cut =
      sym (reverse-reverse front) ∙ (ap reverse same ∙ reverse-append cut back) in
    let clean : starts_clean (reverse back) ≡ true =
      starts_clean-append (reverse back) (reverse cut)
        (subst (λ t. starts_clean t ≡ true) parts (trim_start-starts_clean s)) in
    rw (
      trim_start_clean (reverse back) clean,
      reverse-reverse back,
      trim_start_clean back (trim_start-starts_clean (reverse front)),
    )

abbrev pub lacks : ℕ → Text → Bool
lacks c s = all (λ d. not (d == c)) s

pub lacks-append : (c : ℕ) (s t : Text) → lacks c (s ++ t) ≡ (lacks c s && lacks c t)
lacks-append c [] t = refl
lacks-append c (d ∷ s) t = ground (arith, lacks-append c s t)

lacks-reverse : (c : ℕ) (s : Text) → lacks c (reverse s) ≡ lacks c s
lacks-reverse c [] = refl
lacks-reverse c (d ∷ s) =
    rw (reverse-cons d s) (ground (arith, lacks-append c (reverse s) (d ∷ []), lacks-reverse c s))

lacks-trim_start :
    (c : ℕ) (s : Text) → lacks c s ≡ true → lacks c (trim_start_by is_whitespace s) ≡ true
unfolding trim_start_by
lacks-trim_start c [] h = refl
lacks-trim_start c (d ∷ s) h = ground (arith, lacks-trim_start c s)

pub lacks-trim : (c : ℕ) (s : Text) → lacks c s ≡ true → lacks c (trim s) ≡ true
unfolding trim
lacks-trim c s h =
    let front = trim_start_by is_whitespace s in
    lacks-reverse c (trim_start_by is_whitespace (reverse front))
    ∙ lacks-trim_start c (reverse front) (lacks-reverse c front ∙ lacks-trim_start c s h)

-- A text without a separator is its only piece.
pub split_by-none :
    (p : ℕ → Bool) (s : Text) → all (λ d. not (p d)) s ≡ true → split_by p s ≡ s ∷ []
unfolding split_by push_head
split_by-none p [] h = refl
split_by-none p (d ∷ s) h = elim (Bool-cases (p d)) [
  | inl separator ↦ absurd (ground arith)
  | inr other ↦ rw (other, split_by-none p s (ground arith))
]

-- A text without a separator, in front of one, is the first piece.
pub split_by-append :
    (p : ℕ → Bool) (c : ℕ) (s t : Text)
    → all (λ d. not (p d)) s ≡ true
    → p c ≡ true
    → split_by p (s ++ (c ∷ t)) ≡ s ∷ split_by p t
unfolding split_by push_head
split_by-append p c [] t h e = rw e
split_by-append p c (d ∷ s) t h e = elim (Bool-cases (p d)) [
  | inl separator ↦ absurd (ground arith)
  | inr other ↦ rw (other, split_by-append p c s t (ground arith) e)
]

split_on-lacks : (c : ℕ) (s : Text) → lacks c s ≡ true → split_on c s ≡ s ∷ []
unfolding split_on
split_on-lacks c s h = split_by-none (λ d. d == c) s h

pub split_on-append :
    (c : ℕ) (s t : Text) → lacks c s ≡ true → split_on c (s ++ (c ∷ t)) ≡ s ∷ split_on c t
unfolding split_on
split_on-append c s t h = split_by-append (λ d. d == c) c s t h ((==_iff c c).1 refl)

-- Splitting at the separator undoes a join of at least one text that lacks it.
pub split_on-join :
    (c : ℕ) (s : Text) (ss : List Text)
    → all (lacks c) (s ∷ ss) ≡ true
    → split_on c (join (c ∷ []) (s ∷ ss)) ≡ s ∷ ss
unfolding join
split_on-join c s [] h = split_on-lacks c s (ground arith)
split_on-join c s (t ∷ ts) h =
    split_on-append c s (join (c ∷ []) (t ∷ ts)) (ground arith)
    ∙ ap (λ r. s ∷ r) (split_on-join c t ts (ground arith))

free-push_head :
    (p : ℕ → Bool) (d : ℕ) (pieces : List Text)
    → p d ≡ false
    → all (all (λ e. not (p e))) pieces ≡ true
    → all (all (λ e. not (p e))) (push_head d pieces) ≡ true
unfolding push_head
free-push_head p d [] other h = ground arith
free-push_head p d (piece ∷ pieces) other h = ground arith

-- No piece has a separator.
pub split_by-free : (p : ℕ → Bool) (s : Text) → all (all (λ e. not (p e))) (split_by p s) ≡ true
unfolding split_by
split_by-free p [] = refl
split_by-free p (d ∷ s) = elim (Bool-cases (p d)) [
  | inl separator ↦ rw separator (split_by-free p s)
  | inr other ↦ rw other (free-push_head p d (split_by p s) other (split_by-free p s))
]

pub split_on-all-lacks : (c : ℕ) (s : Text) → all (lacks c) (split_on c s) ≡ true
unfolding split_on
split_on-all-lacks c s = split_by-free (λ d. d == c) s

-- A text without the separator, in front of one, is what `split_once` finds before it.
pub split_once-append :
    (c : ℕ) (s t : Text) → lacks c s ≡ true → split_once c (s ++ (c ∷ t)) ≡ some (s, t)
unfolding split_once split_once_at
split_once-append c [] t h = at_front (split_once c t)
  where
    at_front : (r : Option (Text × Text)) → split_once_at c c t r ≡ some ([], t)
    at_front none = rw ((==_iff c c).1 refl)
    at_front (some (before, after)) = rw ((==_iff c c).1 refl)
split_once-append c (d ∷ s) t h =
    ap (split_once_at c d (s ++ (c ∷ t))) (split_once-append c s t (ground arith)) ∙ rw (not_sep)
  where
    not_sep : d == c ≡ false
    not_sep = ground arith
