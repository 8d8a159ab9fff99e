-- ===== src/InstallCommit/Execute.antt =====
-- The forensics, the deletions and the prune of a commit.
use bootc_migrate.Prelude.{
  ℕ, Bool, true, false, ◌&&◌, ◌||◌, not, Option, none, some, List, [], ◌∷◌, ◌++◌, if◌then◌else◌,
  is_some, Result, ok, err,
}
use bootc_migrate.Text.{Text, codes, sort}
use bootc_migrate.InstallCommit.Paths.{
  prune_if_empty, is_deletable, parse_mountpoints, path_starts_with, mounts_within, join_path,
}
use bootc_migrate.InstallCommit.Tree.{
  Kind, a_file, a_symlink, a_dir, special, Tree, leaf, closed, dir, Items, nil, entry,
}
use bootc_migrate.InstallCommit.Var.{child}
use bootc_migrate.InstallCommit.Checks.{
  Target, CommitPlan, Layout, old_var, state_dir_in, is_empty_list,
}
use bootc_migrate.InstallCommit.Plan.{total_bytes}
use bootc_migrate.InstallCommit.Disk.{Disk, ◌>=>◌}

pub record CommitOutcome : Type 0 where
  pub forensics_copied : List Text
  pub deleted : List Target
  pub pruned : List Text
  pub reclaimed_bytes : ℕ
  pub forced : Bool

-- `?` on a call that returns nothing.
abbrev pub require : {S A : Type 0} → S × Bool → Text → A → S × Result Text A
require (s, true) path a = (s, ok a)
require (s, false) path a = (s, err path)

-- `PathBuf` compares the components.
abbrev pub path_eq : Text → Text → Bool
path_eq p q = path_starts_with p q && path_starts_with q p

module _ {S : Type 0} (disk : Disk S) where
  -- An entry that is no directory: never over a path that is there.
  unfoldable pub mirror_leaf : Text → Text → Text → Kind → S → S × Result Text (List Text)
  mirror_leaf src dst rel k s =
      let to = join_path dst rel in
      if is_some (disk.view s to) then (s, ok []) else elim k [
        | a_file ↦ require (disk.copy s (join_path src rel) to) to (rel ∷ [])
        | a_symlink ↦ require (disk.copy_link s (join_path src rel) to) to (rel ∷ [])
        | a_dir ↦ (s, ok [])
        | special ↦ (s, ok [])
      ]

  -- The entries of a directory in order, its subdirectories left for later.
  unfoldable pub mirror_leaves : Text → Text → Text → Items → S → S × Result Text (List Text)
  unfolding mirror_leaf
  mirror_leaves src dst rel nil s = (s, ok [])
  mirror_leaves src dst rel (entry n (leaf k m) rest) s =
      mirror_leaf src dst (child rel n) k s >=> λ s copied.
      mirror_leaves src dst rel rest s >=> λ s more. (s, ok (copied ++ more))
  mirror_leaves src dst rel (entry n (closed m) rest) s = mirror_leaves src dst rel rest s
  mirror_leaves src dst rel (entry n (dir m items) rest) s = mirror_leaves src dst rel rest s

  -- The subdirectory pushed last is the first one taken from the stack.
  unfoldable mutual
    unfolding mirror_leaves

    pub mirror_subdirs : Text → Text → Text → Items → S → S × Result Text (List Text)
    mirror_subdirs src dst rel nil s = (s, ok [])
    mirror_subdirs src dst rel (entry n t rest) s = mirror_subdirs src dst rel rest s >=> λ s later.
        mirror_tree src dst (child rel n) t s >=> λ s here. (s, ok (later ++ here))

    pub mirror_tree : Text → Text → Text → Tree → S → S × Result Text (List Text)
    mirror_tree src dst rel (leaf k m) s = (s, ok [])
    mirror_tree src dst rel (closed m) s =
        require (disk.create_dir_all s (join_path dst rel)) rel rel >=> λ s done. (s, err rel)
    mirror_tree src dst rel (dir m items) s =
        require (disk.create_dir_all s (join_path dst rel)) rel rel >=> λ s done.
        mirror_leaves src dst rel items s >=> λ s here.
        mirror_subdirs src dst rel items s >=> λ s below. (s, ok (here ++ below))

  unfoldable pub mirror_found : Layout → Option Tree → S → S × Result Text (List Text)
  unfolding mirror_tree
  mirror_found layout none s = (s, ok [])
  mirror_found layout (some t) s =
      mirror_tree (state_dir_in (old_var layout)) (state_dir_in layout.live_var) [] t s
      >=> λ s copied. (s, ok (sort copied))

  -- The old `/var/lib/bootc-rebase` into the live one.
  unfoldable pub mirror_forensics : Layout → S → S × Result Text (List Text)
  unfolding mirror_found
  mirror_forensics layout s = mirror_found layout (disk.view s (state_dir_in (old_var layout))) s

  unfoldable pub remove_entry : Tree → Text → S → S × Bool
  remove_entry (leaf k m) p s = disk.remove_file s p
  remove_entry (closed m) p s = disk.remove_dir_all s p
  remove_entry (dir m items) p s = disk.remove_dir_all s p

  unfoldable pub remove_found : Target → Option Tree → S → S × Result Text (List Target)
  unfolding remove_entry
  remove_found t none s = (s, ok [])
  remove_found t (some tree) s = require (remove_entry tree t.path s) t.path (t ∷ [])

  -- One target: checked again, then removed if it is there.
  unfoldable pub delete_target :
      Layout → List (Text × Text) → Target → S → S × Result Text (List Target)
  unfolding remove_found
  delete_target layout mountpoints t s =
      if not (is_deletable t.rel) || not (path_eq t.path (join_path layout.sysroot t.rel))
      then (s, err t.path)
      else if not (is_empty_list (mounts_within t.path mountpoints))
      then (s, err t.path)
      else remove_found t (disk.view s t.path) s

  -- In plan order; the first failure ends it.
  unfoldable pub delete_targets :
      Layout → List (Text × Text) → List Target → S → S × Result Text (List Target)
  unfolding delete_target
  delete_targets layout mountpoints [] s = (s, ok [])
  delete_targets layout mountpoints (t ∷ ts) s = delete_target layout mountpoints t s >=> λ s here.
      delete_targets layout mountpoints ts s >=> λ s later. (s, ok (here ++ later))

  abbrev pub is_empty_dir : Option Tree → Bool
  is_empty_dir none = false
  is_empty_dir (some (leaf k m)) = false
  is_empty_dir (some (closed m)) = false
  is_empty_dir (some (dir m nil)) = true
  is_empty_dir (some (dir m (entry n t rest))) = false

  abbrev pub push_pruned : Text → S × Bool → S × List Text
  push_pruned p (s, true) = (s, p ∷ [])
  push_pruned p (s, false) = (s, [])

  unfoldable pub prune_dir : Text → S → S × List Text
  prune_dir p s =
      if is_empty_dir (disk.view s p) then push_pruned p (disk.remove_dir s p) else (s, [])

  unfoldable pub prune : Layout → List Text → S → S × List Text
  unfolding prune_dir
  prune layout [] s = (s, [])
  prune layout (rel ∷ rels) s =
      let (s', here) = prune_dir (join_path layout.sysroot rel) s in
      let (s'', later) = prune layout rels s' in (s'', here ++ later)

  -- The deletions, then the directories they left empty.
  unfoldable pub delete_phase :
      Layout → List (Text × Text) → List Target → S → S × Result Text (List Target × List Text)
  unfolding delete_targets prune
  delete_phase layout mountpoints targets s =
      delete_targets layout mountpoints targets s >=> λ s deleted.
      (let (s', pruned) = prune layout prune_if_empty s in (s', ok (deleted, pruned)))

  unfoldable pub execute : Layout → CommitPlan → Text → Bool → S → S × Result Text CommitOutcome
  unfolding mirror_forensics delete_phase
  execute layout p proc_mounts forced s = mirror_forensics layout s >=> λ s copied.
      delete_phase layout (parse_mountpoints proc_mounts) p.targets s >=> λ s done.
      (let record_path =
          join_path (state_dir_in layout.live_var) (codes "ostree-install-commit.json") in
        require (disk.write s record_path) record_path (record {
          forensics_copied = copied;
          deleted = done.0;
          pruned = done.1;
          reclaimed_bytes = total_bytes (done.0);
          forced = forced;
        }))
