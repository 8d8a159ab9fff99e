-- ===== src/InstallCommit/Deleted.antt =====
-- The deletions of a plan run to their end and leave none of its targets.
use bootc_migrate.Prelude.{
  and_true, ◌≡◌, refl, subst, Bool, true, false, ◌||◌, not, Option, none, some, List, [], ◌∷◌, ◌++◌,
  is_none, all, ok,
}
use bootc_migrate.Text.{Text, text_eq, text_eq→eq, text_eq_self}
use bootc_migrate.InstallCommit.Paths.{
  is_deletable, components_start_with, path_starts_with, mounts_within, join_path, same_component,
}
use bootc_migrate.Etc.Symlinks.{Component, root_dir, cur_dir, parent_dir, normal, components}
use bootc_migrate.InstallCommit.Tree.{Tree, leaf, closed, dir}
use bootc_migrate.InstallCommit.Checks.{Target, Layout, is_empty_list, mounted_inside}
use bootc_migrate.InstallCommit.Disk.{Disk}
use bootc_migrate.InstallCommit.Execute.{
  require, path_eq, remove_entry, remove_found, delete_target, delete_targets,
}
use bootc_migrate.InstallCommit.Protected.{bind-keeps, require-keeps, if-keeps}
use bootc_migrate.InstallCommit.Planned.{is_admissible}

same_component_self : (c : Component) → same_component c c ≡ true
unfolding same_component
same_component_self root_dir = refl
same_component_self cur_dir = refl
same_component_self parent_dir = refl
same_component_self (normal n) = text_eq_self n

components_start_with_self : (cs : List Component) → components_start_with cs cs ≡ true
unfolding components_start_with
components_start_with_self [] = refl
components_start_with_self (c ∷ cs) = rw (same_component_self c, components_start_with_self cs)

pub path_eq_self : (p : Text) → path_eq p p ≡ true
unfolding path_starts_with
path_eq_self p = rw (components_start_with_self (components p))

append-is_empty :
    (xs ys : List Text)
    → is_empty_list (xs ++ ys) ≡ true
    → (is_empty_list xs ≡ true) × (is_empty_list ys ≡ true)
append-is_empty [] ys h = (refl, h)
append-is_empty (x ∷ xs) ys h = cc

admissible-path_eq :
    (layout : Layout) (t : Target)
    → is_admissible layout t ≡ true
    → (is_deletable t.rel ≡ true) × (path_eq t.path (join_path layout.sysroot t.rel) ≡ true)
admissible-path_eq layout t h =
    let (deletable, same) =
      and_true (is_deletable t.rel) (text_eq t.path (join_path layout.sysroot t.rel)) h in
    (
      deletable,
      subst (λ p. path_eq t.path p ≡ true) (text_eq→eq t.path (join_path layout.sysroot t.rel) same)
          (path_eq_self t.path),
    )

-- A removal that succeeds, at whatever path.
abbrev pub AlwaysOk : {S : Type 0} → (S → Text → S × Bool) → Type 0
AlwaysOk {S = S} remove = (s : S) (p : Text) → (remove s p).1 ≡ true

-- Nothing is left at a path that was removed.
abbrev pub Clears : {S : Type 0} → Disk S → (S → Text → S × Bool) → Type 0
Clears {S = S} disk remove = (s : S) (p : Text) → disk.view ((remove s p).0) p ≡ none

-- A removal makes nothing appear.
abbrev pub AddsNothing : {S : Type 0} → Disk S → (S → Text → S × Bool) → Type 0
AddsNothing {S = S} disk remove =
    (s : S) (p q : Text) → disk.view s q ≡ none → disk.view ((remove s p).0) q ≡ none

module _ {S : Type 0} (disk : Disk S) (layout : Layout) (mountpoints : List (Text × Text))
    (file_ok : AlwaysOk disk.remove_file) (dir_ok : AlwaysOk disk.remove_dir_all)
    (file_clears : Clears disk disk.remove_file) (dir_clears : Clears disk disk.remove_dir_all)
    (file_adds : AddsNothing disk disk.remove_file)
    (dir_adds : AddsNothing disk disk.remove_dir_all) where
  entry_ok : (t : Tree) (p : Text) (s : S) → (remove_entry disk t p s).1 ≡ true
  unfolding remove_entry
  entry_ok (leaf k m) p s = file_ok s p
  entry_ok (closed m) p s = dir_ok s p
  entry_ok (dir m items) p s = dir_ok s p

  entry_clears : (t : Tree) (p : Text) (s : S) → disk.view ((remove_entry disk t p s).0) p ≡ none
  unfolding remove_entry
  entry_clears (leaf k m) p s = file_clears s p
  entry_clears (closed m) p s = dir_clears s p
  entry_clears (dir m items) p s = dir_clears s p

  entry_adds :
      (t : Tree) (p q : Text) (s : S)
      → disk.view s q ≡ none
      → disk.view ((remove_entry disk t p s).0) q ≡ none
  unfolding remove_entry
  entry_adds (leaf k m) p q s = file_adds s p q
  entry_adds (closed m) p q s = dir_adds s p q
  entry_adds (dir m items) p q s = dir_adds s p q

  require-ok :
      {A : Type 0} (x : S × Bool) (path : Text) (a : A)
      → x.1 ≡ true
      → require x path a ≡ (x.0, ok a)
  require-ok (s, true) path a h = refl
  require-ok (s, false) path a h = cc

  -- A target that passes the guards is removed.
  found_gone :
      (t : Target) (found : Option Tree) (s : S)
      → disk.view s t.path ≡ found
      → (s' : S) × (deleted : List Target) × (remove_found disk t found s ≡ (s', ok deleted))
        × (disk.view s' t.path ≡ none)
  unfolding remove_found
  found_gone t none s e = (s, [], refl, e)
  found_gone t (some tree) s e = (
    (remove_entry disk tree t.path s).0,
    t ∷ [],
    require-ok (remove_entry disk tree t.path s) t.path (t ∷ []) (entry_ok tree t.path s),
    entry_clears tree t.path s,
  )

  target_gone :
      (t : Target) (s : S)
      → is_admissible layout t ≡ true
      → is_empty_list (mounts_within t.path mountpoints) ≡ true
      → (s' : S) × (deleted : List Target) × (delete_target disk layout mountpoints t s
          ≡ (s', ok deleted))
        × (disk.view s' t.path ≡ none)
  unfolding delete_target
  target_gone t s h unmounted =
      let (deletable, same) = admissible-path_eq layout t h in
      let (s', deleted, e, gone) = found_gone t (disk.view s t.path) s refl in
      (s', deleted, rw (deletable, same, unmounted) e, gone)

  found_stays :
      (t : Target) (found : Option Tree) (q : Text) (s : S)
      → disk.view s q ≡ none
      → disk.view ((remove_found disk t found s).0) q ≡ none
  unfolding remove_found
  found_stays t none q s h = h
  found_stays t (some tree) q s h =
      require-keeps (λ u. disk.view u q ≡ none) (remove_entry disk tree t.path s) t.path (t ∷ [])
        (entry_adds tree t.path q s h)

  target_stays :
      (t : Target) (q : Text) (s : S)
      → disk.view s q ≡ none
      → disk.view ((delete_target disk layout mountpoints t s).0) q ≡ none
  unfolding delete_target
  target_stays t q s h =
      if-keeps (λ u. disk.view u q ≡ none)
        (not (is_deletable t.rel) || not (path_eq t.path (join_path layout.sysroot t.rel))) _ _ h
        (λ checked.
          if-keeps (λ u. disk.view u q ≡ none)
            (not (is_empty_list (mounts_within t.path mountpoints))) _ _ h
            (λ unmounted. found_stays t (disk.view s t.path) q s h))

  targets_stay :
      (ts : List Target) (q : Text) (s : S)
      → disk.view s q ≡ none
      → disk.view ((delete_targets disk layout mountpoints ts s).0) q ≡ none
  unfolding delete_targets
  targets_stay [] q s h = h
  targets_stay (t ∷ ts) q s h =
      bind-keeps (λ u. disk.view u q ≡ none) (delete_target disk layout mountpoints t s) _
        (target_stays t q s h)
        (λ u here e.
          bind-keeps (λ v. disk.view v q ≡ none) (delete_targets disk layout mountpoints ts u) _
            (targets_stay ts q u e) (λ v later k. k))

  -- When the calls that remove always succeed, leave nothing at their path and
  -- make nothing appear, the deletion of targets that may be deleted, are at
  -- their path below the root and have nothing mounted inside runs to its end,
  -- and leaves nothing at the path of any of them.
  pub delete_targets-gone :
      (ts : List Target) (s : S)
      → all (is_admissible layout) ts ≡ true
      → is_empty_list (mounted_inside ts mountpoints) ≡ true
      → (s' : S) × (deleted : List Target) × (delete_targets disk layout mountpoints ts s
          ≡ (s', ok deleted))
        × (all (λ t. is_none (disk.view s' t.path)) ts ≡ true)
  unfolding delete_targets mounted_inside
  delete_targets-gone [] s h unmounted = (s, [], refl, refl)
  delete_targets-gone (t ∷ ts) s h unmounted =
      let (good, rest) = and_true (is_admissible layout t) (all (is_admissible layout) ts) h in
      let (free, later) =
        append-is_empty (mounts_within t.path mountpoints) (mounted_inside ts mountpoints)
          unmounted in
      let (s1, here, e1, gone) = target_gone t s good free in
      let (s2, more, e2, all_gone) = delete_targets-gone ts s1 rest later in
      let still = subst (λ x. disk.view (x.0) t.path ≡ none) e2 (targets_stay ts t.path s1 gone) in
      (s2, here ++ more, rw (e1, e2), rw (still, all_gone))
