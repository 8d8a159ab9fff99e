-- ===== src/InstallCommit/Apart.antt =====
-- Paths that may be deleted are apart from the protected ones.
use bootc_migrate.Prelude.{
  and_true, ◌≡◌, refl, sym, ap, ◌∙◌, inl, inr, Bool, true, false, ◌&&◌, not, List, [], ◌∷◌, ◌++◌,
  arith, if◌then◌else◌, Bool-cases,
}
use bootc_migrate.Text.{
  Text, codes, text_eq, contains, ends_with, is_empty, text_eq→eq, text_eq_comm,
}
use bootc_migrate.Etc.Symlinks.{Component, root_dir, cur_dir, parent_dir, normal, components}
use bootc_migrate.InstallCommit.Paths.{
  protected_roots, deletable_components, is_deletable, same_component, components_start_with,
  path_starts_with, join_path,
}
use bootc_migrate.InstallCommit.Components.{components-join}
use bootc_migrate.InstallCommit.Execute.{path_eq}

-- Neither path is the other one or above it.
abbrev pub path_apart : Text → Text → Bool
path_apart p q = not (path_starts_with p q) && not (path_starts_with q p)

-- A path of a protected directory of the physical root.
pub record IsProtected (sysroot q : Text) : Type 0 where
  pub root : Text
  pub below : List Component
  pub named : contains protected_roots root ≡ true
  pub inside : components q ≡ components sysroot ++ (normal root ∷ below)

components_apart :
    (base : List Component) (f g : Text) (xs ys : List Component)
    → text_eq f g ≡ false
    → components_start_with (base ++ (normal f ∷ xs)) (base ++ (normal g ∷ ys)) ≡ false
unfolding components_start_with same_component
components_apart [] f g xs ys h = rw h
components_apart (c ∷ base) f g xs ys h = ground (arith, components_apart base f g xs ys h)

unguarded : (b x : Bool) → (if b then false else x) ≡ true → b ≡ false
unguarded true x h = cc
unguarded false x h = refl

-- The first name of a path that may be deleted is not a protected one.
deletable-normal :
    (cs : List Component)
    → deletable_components cs ≡ true
    → (f : Text) × (rest : List Component) × (cs ≡ normal f ∷ rest)
      × (contains protected_roots f ≡ false)
unfolding deletable_components
deletable-normal [] h = cc
deletable-normal (root_dir ∷ cs) h = cc
deletable-normal (cur_dir ∷ cs) h = cc
deletable-normal (parent_dir ∷ cs) h = cc
deletable-normal (normal f ∷ cs) h = (f, cs, refl, unguarded (contains protected_roots f) _ h)

clash : {b : Bool} → false ≡ true → b ≡ false
clash e = cc

protected-differs :
    (f r : Text)
    → contains protected_roots f ≡ false
    → contains protected_roots r ≡ true
    → text_eq f r ≡ false
protected-differs f r free held = elim (Bool-cases (text_eq f r)) [
  | inl t ↦ clash (sym free ∙ ap (contains protected_roots) (text_eq→eq f r t) ∙ held)
  | inr e ↦ e
]

cons-eq {ℓ} : {A : Type ℓ} {x y : A} {xs ys : List A} → x ≡ y → xs ≡ ys → (x ∷ xs) ≡ (y ∷ ys)
cons-eq e k = cc

same_component→eq : (c d : Component) → same_component c d ≡ true → c ≡ d
unfolding same_component
same_component→eq root_dir root_dir h = refl
same_component→eq cur_dir cur_dir h = refl
same_component→eq parent_dir parent_dir h = refl
same_component→eq (normal m) (normal n) h = ap normal (text_eq→eq m n h)
same_component→eq root_dir cur_dir h = cc
same_component→eq root_dir parent_dir h = cc
same_component→eq root_dir (normal n) h = cc
same_component→eq cur_dir root_dir h = cc
same_component→eq cur_dir parent_dir h = cc
same_component→eq cur_dir (normal n) h = cc
same_component→eq parent_dir root_dir h = cc
same_component→eq parent_dir cur_dir h = cc
same_component→eq parent_dir (normal n) h = cc
same_component→eq (normal m) root_dir h = cc
same_component→eq (normal m) cur_dir h = cc
same_component→eq (normal m) parent_dir h = cc

start_with-antisym :
    (cs ds : List Component)
    → components_start_with cs ds ≡ true
    → components_start_with ds cs ≡ true
    → cs ≡ ds
unfolding components_start_with
start_with-antisym [] [] h k = refl
start_with-antisym (c ∷ cs) [] h k = cc
start_with-antisym [] (d ∷ ds) h k = cc
start_with-antisym (c ∷ cs) (d ∷ ds) h k =
    let (head, tail) = and_true (same_component c d) (components_start_with cs ds) h in
    let (head', tail') = and_true (same_component d c) (components_start_with ds cs) k in
    cons-eq (same_component→eq c d head) (start_with-antisym cs ds tail tail')

-- A path that may be deleted, and any spelling of it, is apart from a protected one.
pub deletable-apart :
    (sysroot rel p q : Text)
    → is_empty sysroot ≡ false
    → ends_with sysroot (codes "/") ≡ false
    → is_deletable rel ≡ true
    → components p ≡ components (join_path sysroot rel)
    → IsProtected sysroot q
    → path_apart p q ≡ true
unfolding is_deletable path_starts_with
deletable-apart sysroot rel p q non_empty no_slash deletable same held =
    let (f, rest, parts, free) = deletable-normal (components rel) deletable in
    let at_p = same ∙ components-join sysroot rel f rest non_empty no_slash parts in
    let differs = protected-differs f held.root free held.named in
    rw (
      at_p,
      held.inside,
      components_apart (components sysroot) f held.root rest held.below differs,
      components_apart (components sysroot) held.root f held.below rest
          (text_eq_comm held.root f ∙ differs),
    )

pub path_eq-components : (p q : Text) → path_eq p q ≡ true → components p ≡ components q
unfolding path_starts_with
path_eq-components p q h =
    let (there, back) = and_true (path_starts_with p q) (path_starts_with q p) h in
    start_with-antisym (components p) (components q) there back
