-- ===== src/Etc/Symlinks/Kept.antt =====
-- Logical targets are plain absolute paths, and pruning removes what dangles and nothing else.
use mathlib.Core.List.{reverse-cons}
use bootc_migrate.Prelude.{
  ℕ, ◌+◌, ◌≡◌, refl, ◌∙◌, inl, inr, Bool, true, false, ◌&&◌, not, Option, none, some, List, [], ◌∷◌,
  ◌++◌, reverse, arith, if◌then◌else◌, Bool-cases, is_some_and, any, all, ok, for_each, >>=-eq-ok,
  for_each-ok,
}
use bootc_migrate.Text.{Text, codes, text_eq, starts_with, split_on, is_empty}
use bootc_migrate.Etc.Tree.{remove, Node, regular, link, Dict, lookup, lookup-remove}
use bootc_migrate.Etc.Symlinks.{
  Component, root_dir, cur_dir, parent_dir, normal, component_of, inner_components, leading,
  components, parent_components, base_components, fold_components, logical_symlink_target, Location,
  on_disk_location, remove_if_dangling, prune_entry, prune_dangling_symlinks,
}

-- A name that is neither empty nor `.` nor `..`.
abbrev pub is_plain : Text → Bool
is_plain n = not (is_empty n) && not (text_eq n (codes ".")) && not (text_eq n (codes ".."))

abbrev plain_component : Component → Bool
plain_component (normal n) = is_plain n
plain_component root_dir = true
plain_component cur_dir = true
plain_component parent_dir = true

plain-component_of :
    (piece : Text) → is_empty piece ≡ false → plain_component (component_of piece) ≡ true
unfolding component_of
plain-component_of piece h = go (text_eq piece (codes ".")) (text_eq piece (codes "..")) refl refl
  where
    go :
        (a b : Bool)
        → text_eq piece (codes ".") ≡ a
        → text_eq piece (codes "..") ≡ b
        → plain_component (if a then cur_dir else if b then parent_dir else normal piece) ≡ true
    go true b ha hb = refl
    go false true ha hb = refl
    go false false ha hb = rw (h, ha, hb)

plain-inner : (pieces : List Text) → all plain_component (inner_components pieces) ≡ true
unfolding inner_components
plain-inner [] = refl
plain-inner (piece ∷ pieces) = elim (Bool-cases (is_empty piece)) [
  | inl e ↦ rw e (plain-inner pieces)
  | inr e ↦ rw e (elim (Bool-cases (text_eq piece (codes "."))) [
    | inl d ↦ rw d (plain-inner pieces)
    | inr d ↦ rw (d, plain-component_of piece e) (plain-inner pieces)
  ])
]

all-append :
    (p : Component → Bool) (xs ys : List Component) → all p (xs ++ ys) ≡ (all p xs && all p ys)
all-append p [] ys = refl
all-append p (x ∷ xs) ys = ground (arith, all-append p xs ys)

plain-components : (p : Text) → all plain_component (components p) ≡ true
unfolding components leading
plain-components p = elim (Bool-cases (starts_with p (codes "/"))) [
  | inl e ↦ rw e (plain-inner (split_on b'/' p))
  | inr e ↦ rw (e, all-append, plain-inner (split_on b'/' p)) (first (split_on b'/' p))
]
  where
    first : (pieces : List Text) → (all plain_component (leading pieces) && true) ≡ true
    first [] = refl
    first (piece ∷ pieces) = elim (Bool-cases (text_eq piece (codes "."))) [
      | inl e ↦ rw e
      | inr e ↦ rw e
    ]

plain-parent :
    (cs : List Component)
    → all plain_component cs ≡ true
    → all plain_component (parent_components cs) ≡ true
unfolding parent_components
plain-parent [] h = refl
plain-parent (c ∷ []) h = refl
plain-parent (c ∷ d ∷ cs) h = ground (arith, plain-parent (d ∷ cs))

plain-base : (link_rel target : Text) → all plain_component (base_components link_rel target) ≡ true
unfolding base_components text_eq
plain-base link_rel target =
    go (starts_with target (codes "/")) (starts_with link_rel (codes "/")) (components link_rel)
      (plain-components link_rel)
  where
    go :
        (a b : Bool) (cs : List Component)
        → all plain_component cs ≡ true
        → all plain_component (
            if a
            then root_dir ∷ []
            else if b
            then parent_components cs
            else (root_dir ∷ normal (codes "etc") ∷ []) ++ parent_components cs)
          ≡ true
    go true b cs h = refl
    go false true cs h = plain-parent cs h
    go false false cs h = plain-parent cs h

plain-fold :
    (names : List Text) (cs : List Component)
    → all is_plain names ≡ true
    → all plain_component cs ≡ true
    → all is_plain (fold_components names cs) ≡ true
unfolding fold_components
plain-fold names [] h k = h
plain-fold names (root_dir ∷ cs) h k = plain-fold names cs h k
plain-fold names (cur_dir ∷ cs) h k = plain-fold names cs h k
plain-fold [] (parent_dir ∷ cs) h k = plain-fold [] cs refl k
plain-fold (n ∷ names) (parent_dir ∷ cs) h k = plain-fold names cs (ground arith) k
plain-fold names (normal n ∷ cs) h k = plain-fold (n ∷ names) cs (ground arith) (ground arith)

all-append_text : (p : Text → Bool) (xs ys : List Text) → all p (xs ++ ys) ≡ (all p xs && all p ys)
all-append_text p [] ys = refl
all-append_text p (x ∷ xs) ys = ground (arith, all-append_text p xs ys)

all-reverse : (p : Text → Bool) (xs : List Text) → all p xs ≡ true → all p (reverse xs) ≡ true
all-reverse p [] h = refl
all-reverse p (x ∷ xs) h =
    rw (reverse-cons x xs)
      (ground (arith, all-append_text p (reverse xs) (x ∷ []), all-reverse p xs))

-- A logical target has no empty name, no `.` and no `..`, wherever `..` stood in the link: `..` at
-- the root is dropped, so the path cannot leave the root.
pub logical_symlink_target-plain :
    (link_rel target : Text) → all is_plain (logical_symlink_target link_rel target) ≡ true
unfolding logical_symlink_target
logical_symlink_target-plain link_rel target =
    let cs = base_components link_rel target ++ components target in
    all-reverse is_plain (fold_components [] cs) (
      plain-fold [] cs refl (
        all-append plain_component (base_components link_rel target) (components target)
        ∙ rw (plain-base link_rel target, plain-components target)))

module _ (present : Location → Bool) (fails : Text → Bool) where
  abbrev pub exists : Dict Node → Location → Bool
  exists etc place = present place

  -- A round that touches nothing at a path leaves it, one that does leaves nothing there.
  lookup-remove_if :
      (p q : Text) (o : Option Location) (etc : Dict Node) (k : ℕ) {etc' : Dict Node} {k' : ℕ}
      → remove_if_dangling exists fails q o (etc, k) ≡ ok (etc', k')
      → lookup p etc' ≡ (
          if text_eq p q && is_some_and o (λ place. not (present place))
          then none
          else lookup p etc)
  unfolding remove_if_dangling
  lookup-remove_if p q none etc k h = ground arith
  lookup-remove_if p q (some place) etc k h = ground (arith, lookup-remove q p etc)

  abbrev pub dangles : Text → Node → Bool
  dangles p (regular content m) = false
  dangles p (link target) =
      is_some_and (on_disk_location (logical_symlink_target p target))
        (λ place. not (present place))

  lookup-prune_entry :
      (p q : Text) (n : Node) (etc : Dict Node) (k : ℕ) {etc' : Dict Node} {k' : ℕ}
      → prune_entry exists fails (etc, k) (q, n) ≡ ok (etc', k')
      → lookup p etc' ≡ (if text_eq p q && dangles q n then none else lookup p etc)
  unfolding prune_entry
  lookup-prune_entry p q (regular content m) etc k h = ground arith
  lookup-prune_entry p q (link target) etc k h =
      lookup-remove_if p q (on_disk_location (logical_symlink_target q target)) etc k h

  lookup-prune_loop :
      (p : Text) (es : Dict Node) (etc : Dict Node) (k : ℕ) {etc' : Dict Node} {k' : ℕ}
      → for_each (prune_entry exists fails) es (etc, k) ≡ ok (etc', k')
      → lookup p etc'
        ≡ (if any (λ e. text_eq p e.0 && dangles e.0 e.1) es then none else lookup p etc)
  unfolding for_each
  lookup-prune_loop p [] etc k h = ground arith
  lookup-prune_loop p ((q, n) ∷ es) etc k {etc'} {k'} h =
      let (mid, first, rest) =
        >>=-eq-ok (prune_entry exists fails (etc, k) (q, n))
          (λ t. for_each (prune_entry exists fails) es t) h in
      ground (
        arith,
        lookup-prune_entry p q n etc k {etc' = mid.0} {k' = mid.1} first,
        lookup-prune_loop p es mid.0 mid.1 {etc' = etc'} {k' = k'} rest,
      )

  -- Where the check of a place does not depend on the leaves removed so far, pruning removes the
  -- paths of the links whose place is absent and leaves every other path as it was. A link to a
  -- place that cannot be checked stays.
  pub lookup-prune :
      (p : Text) (etc : Dict Node) {etc' : Dict Node} {k : ℕ}
      → prune_dangling_symlinks exists fails etc ≡ ok (etc', k)
      → lookup p etc'
        ≡ (if any (λ e. text_eq p e.0 && dangles e.0 e.1) etc then none else lookup p etc)
  unfolding prune_dangling_symlinks
  lookup-prune p etc h = lookup-prune_loop p etc etc 0 h

-- Pruning succeeds where the system refuses no removal.
pub prune_dangling_symlinks-ok :
    (found : Dict Node → Location → Bool) (etc : Dict Node)
    → (after : Dict Node × ℕ) × (prune_dangling_symlinks found (λ p. false) etc ≡ ok after)
unfolding prune_dangling_symlinks prune_entry remove_if_dangling
prune_dangling_symlinks-ok found etc =
    for_each-ok (λ s. Unit {0}) (prune_entry found (λ p. false)) etc (etc, 0) (λ s e m u. round s e)
      tt
  where
    removed :
        (p : Text) (place : Option Location) (s : Dict Node × ℕ)
        → (t : Dict Node × ℕ) × (remove_if_dangling found (λ q. false) p place s ≡ ok t) × Unit {0}
    removed p none s = (s, refl, tt)
    removed p (some place) s = elim (Bool-cases (found s.0 place)) [
      | inl there ↦ (s, rw there, tt)
      | inr gone ↦ ((remove p s.0, s.1 + 1), rw gone, tt)
    ]

    round :
        (s : Dict Node × ℕ) (e : Text × Node)
        → (t : Dict Node × ℕ) × (prune_entry found (λ q. false) s e ≡ ok t) × Unit {0}
    round s (p, regular content m) = (s, refl, tt)
    round s (p, link target) = removed p (on_disk_location (logical_symlink_target p target)) s
