-- ===== src/InstallCommit/Protected.antt =====
-- What the deletions leave alone.
use bootc_migrate.Prelude.{
  and_true, ◌≡◌, refl, ◌∙◌, Bool, true, false, ◌||◌, not, Option, none, some, List, [], ◌∷◌,
  if◌then◌else◌, all, Result, ok, err,
}
use bootc_migrate.Text.{
  Text, codes, text_eq, starts_with, ends_with, split_by, split_on, push_head, is_empty,
}
use bootc_migrate.Etc.Symlinks.{components, inner_components, component_of, leading}
use bootc_migrate.InstallCommit.Paths.{
  prune_if_empty, is_deletable, deletable_components, mounts_within, join_path,
}
use bootc_migrate.InstallCommit.Tree.{Tree, leaf, closed, dir}
use bootc_migrate.InstallCommit.Checks.{Target, Layout, is_empty_list}
use bootc_migrate.InstallCommit.Disk.{Disk, ◌>=>◌}
use bootc_migrate.InstallCommit.Execute.{
  require, path_eq, remove_entry, remove_found, delete_target, delete_targets, is_empty_dir,
  push_pruned, prune_dir, prune, delete_phase,
}
use bootc_migrate.InstallCommit.Apart.{path_apart, IsProtected, deletable-apart, path_eq-components}

pub bind-keeps {ℓ} :
    {S A B : Type 0} (P : S → Type ℓ) (x : S × Result Text A) (next : S → A → S × Result Text B)
    → P (x.0)
    → ((s : S) (a : A) → P s → P ((next s a).0))
    → P ((x >=> next).0)
bind-keeps P (s, err e) next h k = h
bind-keeps P (s, ok a) next h k = k s a h

pub require-keeps {ℓ} :
    {S A : Type 0} (P : S → Type ℓ) (x : S × Bool) (path : Text) (a : A)
    → P (x.0)
    → P ((require x path a).0)
require-keeps P (s, true) path a h = h
require-keeps P (s, false) path a h = h

pub if-keeps {ℓ} :
    {A S : Type 0} (P : S → Type ℓ) (b : Bool) (x y : S × A)
    → P (x.0)
    → (b ≡ false → P (y.0))
    → P ((if b then x else y).0)
if-keeps P true x y h k = h
if-keeps P false x y h k = k refl

guards : (a b : Bool) → (not a || not b) ≡ false → (a ≡ true) × (b ≡ true)
guards true true h = (refl, refl)
guards true false h = cc
guards false b h = cc

if-keeps' {ℓ} :
    {A S : Type 0} (P : S → Type ℓ) (b : Bool) (x y : S × A)
    → P (x.0)
    → P (y.0)
    → P ((if b then x else y).0)
if-keeps' P true x y h k = h
if-keeps' P false x y h k = k

prune_if_empty-is_deletable : all is_deletable prune_if_empty ≡ true
unfolding is_deletable deletable_components components inner_components component_of leading
    split_on split_by push_head text_eq starts_with
prune_if_empty-is_deletable = refl

-- A removal that leaves what is seen at every path apart from the removed one.
abbrev pub IsLocal : {S : Type 0} → Disk S → (S → Text → S × Bool) → Type 0
IsLocal {S = S} disk remove =
    (s : S) (p q : Text) → path_apart p q ≡ true → disk.view ((remove s p).0) q ≡ disk.view s q

module _ {S : Type 0} (disk : Disk S) (layout : Layout) (local_file : IsLocal disk disk.remove_file)
    (local_dir_all : IsLocal disk disk.remove_dir_all) (local_dir : IsLocal disk disk.remove_dir)
    (non_empty : is_empty layout.sysroot ≡ false)
    (no_slash : ends_with layout.sysroot (codes "/") ≡ false) where
  remove_entry-keeps :
      (t : Tree) (p q : Text) (s : S)
      → path_apart p q ≡ true
      → disk.view ((remove_entry disk t p s).0) q ≡ disk.view s q
  unfolding remove_entry
  remove_entry-keeps (leaf k m) p q s h = local_file s p q h
  remove_entry-keeps (closed m) p q s h = local_dir_all s p q h
  remove_entry-keeps (dir m items) p q s h = local_dir_all s p q h

  -- What follows the guards of a target.
  removal :
      (mountpoints : List (Text × Text)) (t : Target) (q : Text) (s : S)
      → IsProtected layout.sysroot q
      → (found : Option Tree)
      → (is_deletable t.rel ≡ true) × (path_eq t.path (join_path layout.sysroot t.rel) ≡ true)
      → disk.view ((remove_found disk t found s).0) q ≡ disk.view s q
  unfolding remove_found
  removal mountpoints t q s held none guarded = refl
  removal mountpoints t q s held (some tree) (deletable, same) =
      require-keeps (λ u. disk.view u q ≡ disk.view s q) (remove_entry disk tree t.path s) t.path
        (t ∷ [])
        (remove_entry-keeps tree t.path q s (
          deletable-apart layout.sysroot t.rel t.path q non_empty no_slash deletable
            (path_eq-components t.path (join_path layout.sysroot t.rel) same) held))

  delete_target-keeps :
      (mountpoints : List (Text × Text)) (t : Target) (q : Text) (s : S)
      → IsProtected layout.sysroot q
      → disk.view ((delete_target disk layout mountpoints t s).0) q ≡ disk.view s q
  unfolding delete_target
  delete_target-keeps mountpoints t q s held =
      if-keeps (λ u. disk.view u q ≡ disk.view s q)
        (not (is_deletable t.rel) || not (path_eq t.path (join_path layout.sysroot t.rel))) _ _ refl
        (λ checked.
          if-keeps (λ u. disk.view u q ≡ disk.view s q)
            (not (is_empty_list (mounts_within t.path mountpoints))) _ _ refl
            (λ unmounted. removal mountpoints t q s held (disk.view s t.path) (guards _ _ checked)))

  delete_targets-keeps :
      (mountpoints : List (Text × Text)) (ts : List Target) (q : Text) (s : S)
      → IsProtected layout.sysroot q
      → disk.view ((delete_targets disk layout mountpoints ts s).0) q ≡ disk.view s q
  unfolding delete_targets
  delete_targets-keeps mountpoints [] q s held = refl
  delete_targets-keeps mountpoints (t ∷ ts) q s held =
      bind-keeps (λ u. disk.view u q ≡ disk.view s q) (delete_target disk layout mountpoints t s) _
        (delete_target-keeps mountpoints t q s held)
        (λ u here e.
          bind-keeps (λ v. disk.view v q ≡ disk.view s q)
            (delete_targets disk layout mountpoints ts u) _
            (delete_targets-keeps mountpoints ts q u held ∙ e) (λ v later k. k))

  push_pruned-keeps :
      (p : Text) (x : S × Bool) (q : Text) (s : S)
      → disk.view (x.0) q ≡ disk.view s q
      → disk.view ((push_pruned disk p x).0) q ≡ disk.view s q
  push_pruned-keeps p (u, true) q s h = h
  push_pruned-keeps p (u, false) q s h = h

  prune_dir-keeps :
      (p q : Text) (s : S)
      → path_apart p q ≡ true
      → disk.view ((prune_dir disk p s).0) q ≡ disk.view s q
  unfolding prune_dir
  prune_dir-keeps p q s h =
      if-keeps' (λ u. disk.view u q ≡ disk.view s q) (is_empty_dir disk (disk.view s p)) _ _
        (push_pruned-keeps p (disk.remove_dir s p) q s (local_dir s p q h)) refl

  prune-keeps :
      (rels : List Text) (q : Text) (s : S)
      → all is_deletable rels ≡ true
      → IsProtected layout.sysroot q
      → disk.view ((prune disk layout rels s).0) q ≡ disk.view s q
  unfolding prune
  prune-keeps [] q s h held = refl
  prune-keeps (rel ∷ rels) q s h held =
      let (first, rest) = and_true (is_deletable rel) (all is_deletable rels) h in
      let p = join_path layout.sysroot rel in
      prune-keeps rels q ((prune_dir disk p s).0) rest held
      ∙ prune_dir-keeps p q s
          (deletable-apart layout.sysroot rel p q non_empty no_slash first refl held)

  -- Whatever the plan and the mount table, and however the deletions end, all
  -- that was to be seen at a path of `ostree`, `boot` or `efi` of the physical
  -- root is still there, when a removal changes nothing at the paths apart from
  -- the removed one and the root's path is not empty and has no slash at its end.
  pub delete_phase-protected :
      (mountpoints : List (Text × Text)) (ts : List Target) (q : Text) (s : S)
      → IsProtected layout.sysroot q
      → disk.view ((delete_phase disk layout mountpoints ts s).0) q ≡ disk.view s q
  unfolding delete_phase
  delete_phase-protected mountpoints ts q s held =
      bind-keeps (λ u. disk.view u q ≡ disk.view s q) (delete_targets disk layout mountpoints ts s)
        _ (delete_targets-keeps mountpoints ts q s held)
        (λ u deleted e. prune-keeps prune_if_empty q u prune_if_empty-is_deletable held ∙ e)
