-- ===== src/InstallCommit/Components.antt =====
-- The components of joined paths.
use bootc_migrate.Prelude.{
  ℕ, ◌≡◌, refl, sym, ap, ◌∙◌, inl, inr, Bool, true, false, List, [], ◌∷◌, ◌++◌, map, ◌==◌,
  if◌then◌else◌, ==_iff, Bool-cases, filter,
}
use bootc_migrate.Text.{
  Text, codes, text_eq, starts_with, ends_with, split_by, split_on, push_head, is_empty,
}
use bootc_migrate.Etc.Symlinks.{
  Component, root_dir, cur_dir, normal, components, inner_components, leading, component_of,
}
use bootc_migrate.InstallCommit.Paths.{join_path}

abbrev is_none_of : List Text → Bool
is_none_of [] = true
is_none_of (p ∷ ps) = false

push_head-append :
    (c : ℕ) (xs ys : List Text)
    → is_none_of xs ≡ false
    → push_head c (xs ++ ys) ≡ push_head c xs ++ ys
unfolding push_head
push_head-append c [] ys h = cc
push_head-append c (x ∷ xs) ys h = refl

push_head-is_none_of : (c : ℕ) (xs : List Text) → is_none_of (push_head c xs) ≡ false
unfolding push_head
push_head-is_none_of c [] = refl
push_head-is_none_of c (x ∷ xs) = refl

split_by-is_none_of : (p : ℕ → Bool) (s : Text) → is_none_of (split_by p s) ≡ false
unfolding split_by
split_by-is_none_of p [] = refl
split_by-is_none_of p (c ∷ s) = elim (Bool-cases (p c)) [
  | inl t ↦ rw t
  | inr f ↦ rw (f, push_head-is_none_of c (split_by p s))
]

split_by-glue :
    (p : ℕ → Bool) (c : ℕ) (s t : Text)
    → p c ≡ true
    → split_by p (s ++ (c ∷ t)) ≡ split_by p s ++ split_by p t
unfolding split_by
split_by-glue p c [] t h = rw h
split_by-glue p c (d ∷ s) t h = elim (Bool-cases (p d)) [
  | inl e ↦ rw (e, split_by-glue p c s t h)
  | inr f ↦ rw (
    f,
    split_by-glue p c s t h,
    push_head-append d (split_by p s) (split_by p t) (split_by-is_none_of p s),
  )
]

split_on-glue : (c : ℕ) (s t : Text) → split_on c (s ++ (c ∷ t)) ≡ split_on c s ++ split_on c t
unfolding split_on
split_on-glue c s t = split_by-glue (λ d. d == c) c s t ((==_iff c c).1 refl)

filter-append {ℓ} :
    {A : Type ℓ} (p : A → Bool) (xs ys : List A) → filter p (xs ++ ys) ≡ filter p xs ++ filter p ys
filter-append p [] ys = refl
filter-append p (x ∷ xs) ys = elim (Bool-cases (p x)) [
  | inl t ↦ rw (t, filter-append p xs ys)
  | inr f ↦ rw (f, filter-append p xs ys)
]

append_assoc {ℓ} : {A : Type ℓ} (xs ys zs : List A) → xs ++ (ys ++ zs) ≡ (xs ++ ys) ++ zs
append_assoc [] ys zs = refl
append_assoc (x ∷ xs) ys zs = rw (append_assoc xs ys zs)

map-append {ℓ κ} :
    {A : Type ℓ} {B : Type κ} (f : A → B) (xs ys : List A) → map f (xs ++ ys) ≡ map f xs ++ map f ys
map-append f [] ys = refl
map-append f (x ∷ xs) ys = rw (map-append f xs ys)

inner_components-append :
    (xs ys : List Text) → inner_components (xs ++ ys) ≡ inner_components xs ++ inner_components ys
unfolding inner_components
inner_components-append xs ys =
    ap (map component_of) (filter-append _ xs ys) ∙ map-append component_of _ _

leading-append : (xs ys : List Text) → is_none_of xs ≡ false → leading (xs ++ ys) ≡ leading xs
unfolding leading
leading-append [] ys h = cc
leading-append (x ∷ xs) ys h = refl

dot-normal :
    (b : Bool) (ys : List Component) {first : Text} {rest : List Component}
    → (if b then cur_dir ∷ [] else []) ++ ys ≡ normal first ∷ rest
    → ys ≡ normal first ∷ rest
dot-normal true ys e = cc
dot-normal false ys e = e

leading-normal :
    (xs : List Text) (ys : List Component) {first : Text} {rest : List Component}
    → leading xs ++ ys ≡ normal first ∷ rest
    → ys ≡ normal first ∷ rest
unfolding leading
leading-normal [] ys e = e
leading-normal (x ∷ xs) ys e = dot-normal (text_eq x (codes ".")) ys e

-- The components of a path, by whether it is absolute and its pieces.
abbrev components_by : Bool → List Text → List Component
components_by true pieces = root_dir ∷ inner_components pieces
components_by false pieces = leading pieces ++ inner_components pieces

components_by-eq :
    (b : Bool) (pieces : List Text)
    → (if b then root_dir ∷ inner_components pieces else leading pieces ++ inner_components pieces)
      ≡ components_by b pieces
components_by-eq true pieces = refl
components_by-eq false pieces = refl

components-by :
    (p : Text) → components p ≡ components_by (starts_with p (codes "/")) (split_on 47 p)
unfolding components
components-by p = components_by-eq (starts_with p (codes "/")) (split_on 47 p)

components_by-normal :
    (b : Bool) (pieces : List Text) {first : Text} {rest : List Component}
    → components_by b pieces ≡ normal first ∷ rest
    → (b ≡ false) × (inner_components pieces ≡ normal first ∷ rest)
components_by-normal true pieces e = cc
components_by-normal false pieces e = (refl, leading-normal pieces (inner_components pieces) e)

components_by-append :
    (b : Bool) (xs ys : List Text)
    → is_none_of xs ≡ false
    → components_by b (xs ++ ys) ≡ components_by b xs ++ inner_components ys
components_by-append true xs ys h = ap (λ cs. root_dir ∷ cs) (inner_components-append xs ys)
components_by-append false xs ys h = rw (
  leading-append xs ys h,
  inner_components-append xs ys,
  append_assoc (leading xs) (inner_components xs) (inner_components ys),
)

components-append :
    (c : ℕ) (base rel : Text)
    → components ((c ∷ base) ++ (47 ∷ rel))
      ≡ components (c ∷ base) ++ inner_components (split_on 47 rel)
unfolding starts_with split_on
components-append c base rel =
    components-by ((c ∷ base) ++ (47 ∷ rel))
    ∙ ap (components_by (starts_with (c ∷ base) (codes "/"))) (split_on-glue 47 (c ∷ base) rel)
    ∙ components_by-append (starts_with (c ∷ base) (codes "/")) (split_on 47 (c ∷ base))
        (split_on 47 rel) (split_by-is_none_of (λ d. d == 47) (c ∷ base))
    ∙ ap (λ cs. cs ++ inner_components (split_on 47 rel)) (sym (components-by (c ∷ base)))

join_path-relative :
    (base rel : Text)
    → starts_with rel (codes "/") ≡ false
    → is_empty base ≡ false
    → ends_with base (codes "/") ≡ false
    → join_path base rel ≡ base ++ (47 ∷ rel)
unfolding join_path
join_path-relative base rel relative non_empty no_slash = rw (relative, non_empty, no_slash)

-- The base has a first character.
joined :
    (base rel : Text) (cs : List Component)
    → starts_with rel (codes "/") ≡ false
    → is_empty base ≡ false
    → ends_with base (codes "/") ≡ false
    → ((c : ℕ) (b : Text) → components ((c ∷ b) ++ (47 ∷ rel)) ≡ components (c ∷ b) ++ cs)
    → components (join_path base rel) ≡ components base ++ cs
joined [] rel cs relative non_empty no_slash h = cc
joined (c ∷ b) rel cs relative non_empty no_slash h =
    ap components (join_path-relative (c ∷ b) rel relative non_empty no_slash) ∙ h c b

-- The components of a joined path follow those of its base.
pub components-join :
    (base rel : Text) (first : Text) (rest : List Component)
    → is_empty base ≡ false
    → ends_with base (codes "/") ≡ false
    → components rel ≡ normal first ∷ rest
    → components (join_path base rel) ≡ components base ++ (normal first ∷ rest)
components-join base rel first rest non_empty no_slash e =
    let (relative, inner) =
      components_by-normal (starts_with rel (codes "/")) (split_on 47 rel)
        (sym (components-by rel) ∙ e) in
    joined base rel _ relative non_empty no_slash
      (λ c b. components-append c b rel ∙ ap (λ cs. components (c ∷ b) ++ cs) inner)
