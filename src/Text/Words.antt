-- ===== src/Text/Words.antt =====
-- Words: what `split_whitespace` makes of a text, and what joining them makes again.
use bootc_migrate.Prelude.{
  ◌≡◌, refl, Bool, true, ◌&&◌, not, List, [], ◌∷◌, ◌++◌, arith, all, filter,
}
use bootc_migrate.Text.Defs.{Text, codes, split_by, split_whitespace, is_whitespace, is_empty, join}
use bootc_migrate.Text.Fields.{split_by-none, split_by-append, split_by-free}

abbrev pub no_space : Text → Bool
no_space = all (λ c. not (is_whitespace c))

abbrev pub is_word : Text → Bool
is_word w = not (is_empty w) && no_space w

pub no_space-append : (s t : Text) → no_space (s ++ t) ≡ (no_space s && no_space t)
no_space-append [] t = refl
no_space-append (c ∷ s) t = ground (arith, no_space-append s t)

pieces-is_word :
    (pieces : List Text)
    → all no_space pieces ≡ true
    → all is_word (filter (λ w. not (is_empty w)) pieces) ≡ true
pieces-is_word [] h = refl
pieces-is_word (p ∷ ps) h = ground (arith, pieces-is_word ps)

pub split_whitespace-is_word : (s : Text) → all is_word (split_whitespace s) ≡ true
unfolding split_whitespace
split_whitespace-is_word s =
    pieces-is_word (split_by is_whitespace s) (split_by-free is_whitespace s)

-- Words that are joined by a space are split into the same words.
pub split_whitespace-join :
    (ws : List Text) → all is_word ws ≡ true → split_whitespace (join (codes " ") ws) ≡ ws
unfolding split_whitespace join split_by
split_whitespace-join [] h = refl
split_whitespace-join (w ∷ []) h =
    let word : not (is_empty w) ≡ true = ground arith in
    rw (split_by-none is_whitespace w (ground arith), word)
split_whitespace-join (w ∷ v ∷ ws) h =
    let word : not (is_empty w) ≡ true = ground arith in
    rw (
      split_by-append is_whitespace b' ' w (join (codes " ") (v ∷ ws)) (ground arith) space,
      word,
      split_whitespace-join (v ∷ ws) (ground arith),
    )
  where
    space : is_whitespace b' ' ≡ true
    space = refl

pub all-append {ℓ} :
    {A : Type ℓ} (p : A → Bool) (xs ys : List A) → all p (xs ++ ys) ≡ (all p xs && all p ys)
all-append p [] ys = refl
all-append p (x ∷ xs) ys = ground (arith, all-append p xs ys)

pub all-filter {ℓ} :
    {A : Type ℓ} (p q : A → Bool) (xs : List A) → all p xs ≡ true → all p (filter q xs) ≡ true
all-filter p q [] h = refl
all-filter p q (x ∷ xs) h = ground (arith, all-filter p q xs)

pub all-filter_self {ℓ} : {A : Type ℓ} (q : A → Bool) (xs : List A) → all q (filter q xs) ≡ true
all-filter_self q [] = refl
all-filter_self q (x ∷ xs) = ground (arith, all-filter_self q xs)
