-- ===== src/InstallCommit/Mirror.antt =====
-- The forensics never write over a path of the live `/var`.
use bootc_migrate.Prelude.{◌≡◌, refl, false, Option, none, some, [], is_some}
use bootc_migrate.Text.{Text}
use bootc_migrate.InstallCommit.Paths.{join_path}
use bootc_migrate.InstallCommit.Tree.{
  Kind, a_file, a_symlink, a_dir, special, Tree, leaf, closed, dir, Items, nil, entry,
}
use bootc_migrate.InstallCommit.Var.{child}
use bootc_migrate.InstallCommit.Checks.{Layout, old_var, state_dir_in}
use bootc_migrate.InstallCommit.Disk.{Disk}
use bootc_migrate.InstallCommit.Execute.{
  require, mirror_leaf, mirror_leaves, mirror_subdirs, mirror_tree, mirror_found, mirror_forensics,
}
use bootc_migrate.InstallCommit.Protected.{bind-keeps, require-keeps, if-keeps}

is_none_of_some {ℓ} : {A : Type ℓ} (o : Option A) → is_some o ≡ false → o ≡ none
is_none_of_some none h = refl
is_none_of_some (some a) h = cc

-- `Kept` is a fact of the disk that no call changes which makes a path that is
-- not there, or directories.
module _ {S : Type 0} (disk : Disk S) (Kept : S → Type 0)
    (copy_keeps : (s : S) (from to : Text)
      → disk.view s to ≡ none
      → Kept s
      → Kept ((disk.copy s from to).0))
    (link_keeps : (s : S) (from to : Text)
      → disk.view s to ≡ none
      → Kept s
      → Kept ((disk.copy_link s from to).0))
    (create_keeps : (s : S) (p : Text) → Kept s → Kept ((disk.create_dir_all s p).0)) where
  leaf_kept :
      (src dst rel : Text) (k : Kind) (s : S) → Kept s → Kept ((mirror_leaf disk src dst rel k s).0)
  unfolding mirror_leaf
  leaf_kept src dst rel a_file s h =
      if-keeps Kept (is_some (disk.view s (join_path dst rel))) _ _ h (λ absent.
        require-keeps Kept _ _ _ (
          copy_keeps s (join_path src rel) (join_path dst rel)
            (is_none_of_some (disk.view s (join_path dst rel)) absent) h))
  leaf_kept src dst rel a_symlink s h =
      if-keeps Kept (is_some (disk.view s (join_path dst rel))) _ _ h (λ absent.
        require-keeps Kept _ _ _ (
          link_keeps s (join_path src rel) (join_path dst rel)
            (is_none_of_some (disk.view s (join_path dst rel)) absent) h))
  leaf_kept src dst rel a_dir s h =
      if-keeps Kept (is_some (disk.view s (join_path dst rel))) _ _ h (λ absent. h)
  leaf_kept src dst rel special s h =
      if-keeps Kept (is_some (disk.view s (join_path dst rel))) _ _ h (λ absent. h)

  leaves_kept :
      (src dst rel : Text) (items : Items) (s : S)
      → Kept s
      → Kept ((mirror_leaves disk src dst rel items s).0)
  unfolding mirror_leaves
  leaves_kept src dst rel nil s h = h
  leaves_kept src dst rel (entry n (leaf k m) rest) s h =
      bind-keeps Kept (mirror_leaf disk src dst (child rel n) k s) _
        (leaf_kept src dst (child rel n) k s h)
        (λ u copied g.
          bind-keeps Kept (mirror_leaves disk src dst rel rest u) _
            (leaves_kept src dst rel rest u g) (λ v more k. k))
  leaves_kept src dst rel (entry n (closed m) rest) s h = leaves_kept src dst rel rest s h
  leaves_kept src dst rel (entry n (dir m items) rest) s h = leaves_kept src dst rel rest s h

  mutual
    unfolding mirror_tree

    subdirs_kept :
        (src dst rel : Text) (items : Items) (s : S)
        → Kept s
        → Kept ((mirror_subdirs disk src dst rel items s).0)
    subdirs_kept src dst rel nil s h = h
    subdirs_kept src dst rel (entry n t rest) s h =
        bind-keeps Kept (mirror_subdirs disk src dst rel rest s) _
          (subdirs_kept src dst rel rest s h)
          (λ u later g.
            bind-keeps Kept (mirror_tree disk src dst (child rel n) t u) _
              (tree_kept src dst (child rel n) t u g) (λ v here k. k))

    tree_kept :
        (src dst rel : Text) (t : Tree) (s : S)
        → Kept s
        → Kept ((mirror_tree disk src dst rel t s).0)
    tree_kept src dst rel (leaf k m) s h = h
    tree_kept src dst rel (closed m) s h =
        bind-keeps Kept (require (disk.create_dir_all s (join_path dst rel)) rel rel) _
          (require-keeps Kept (disk.create_dir_all s (join_path dst rel)) rel rel
            (create_keeps s (join_path dst rel) h))
          (λ u done g. g)
    tree_kept src dst rel (dir m items) s h =
        bind-keeps Kept (require (disk.create_dir_all s (join_path dst rel)) rel rel) _
          (require-keeps Kept (disk.create_dir_all s (join_path dst rel)) rel rel
            (create_keeps s (join_path dst rel) h))
          (λ u done g.
            bind-keeps Kept (mirror_leaves disk src dst rel items u) _
              (leaves_kept src dst rel items u g)
              (λ v here k.
                bind-keeps Kept (mirror_subdirs disk src dst rel items v) _
                  (subdirs_kept src dst rel items v k) (λ w below l. l)))

  copied_kept :
      (layout : Layout) (found : Option Tree) (s : S)
      → Kept s
      → Kept ((mirror_found disk layout found s).0)
  unfolding mirror_found
  copied_kept layout none s h = h
  copied_kept layout (some t) s h =
      bind-keeps Kept
        (mirror_tree disk (state_dir_in (old_var layout)) (state_dir_in layout.live_var) [] t s) _
        (tree_kept (state_dir_in (old_var layout)) (state_dir_in layout.live_var) [] t s h)
        (λ u copied g. g)

  -- The forensics keep, however they end, every fact of the disk that no copy of
  -- a file or a link to a path where nothing is, and no creation of directories,
  -- changes; such as what a file holds that is live.
  pub mirror_forensics-keeps :
      (layout : Layout) (s : S) → Kept s → Kept ((mirror_forensics disk layout s).0)
  unfolding mirror_forensics
  mirror_forensics-keeps layout s h =
      copied_kept layout (disk.view s (state_dir_in (old_var layout))) s h
