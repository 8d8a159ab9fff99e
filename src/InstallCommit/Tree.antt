-- ===== src/InstallCommit/Tree.antt =====
-- Directory trees with what `lstat` reports of each entry.
use bootc_migrate.Prelude.{
  ℕ, Bool, true, false, ◌&&◌, Option, none, some, List, [], ◌∷◌, ◌==◌, if◌then◌else◌,
}
use bootc_migrate.Text.{Text, text_eq}

-- Device and inode, number of links, allocated blocks, length, all in one record.
pub record Meta : Type 0 where
  pub dev : ℕ
  pub ino : ℕ
  pub nlink : ℕ
  pub blocks : ℕ
  pub len : ℕ

-- A socket, a FIFO or a device node is `special`.
pub data Kind : Type 0 where
  a_file a_symlink a_dir special : Kind

-- A directory that cannot be listed is `closed`.
mutual
  pub data Tree : Type 0 where
    leaf : Kind → Meta → Tree
    closed : Meta → Tree
    dir : Meta → Items → Tree

  pub data Items : Type 0 where
    nil : Items
    entry : Text → Tree → Items → Items

abbrev pub kind_of : Tree → Kind
kind_of (leaf k m) = k
kind_of (closed m) = a_dir
kind_of (dir m items) = a_dir

abbrev pub meta_of : Tree → Meta
meta_of (leaf k m) = m
meta_of (closed m) = m
meta_of (dir m items) = m

abbrev pub same_kind : Kind → Kind → Bool
same_kind a_file a_file = true
same_kind a_symlink a_symlink = true
same_kind a_dir a_dir = true
same_kind special special = true
same_kind _ _ = false

-- The entry at a path of names.
unfoldable mutual
  pub find_in : Items → List Text → Option Tree
  find_in nil ns = none
  find_in (entry n t rest) [] = none
  find_in (entry n t rest) (m ∷ ms) =
      let here = find_at t ms in
      let later = find_in rest (m ∷ ms) in if text_eq m n then here else later

  pub find_at : Tree → List Text → Option Tree
  find_at t [] = some t
  find_at (leaf k m) (n ∷ ns) = none
  find_at (closed m) (n ∷ ns) = none
  find_at (dir m items) (n ∷ ns) = find_in items (n ∷ ns)

-- Every directory of the tree lies on the file system `device`.
unfoldable mutual
  pub all_on_device : ℕ → Items → Bool
  all_on_device device nil = true
  all_on_device device (entry n t rest) = on_device device t && all_on_device device rest

  pub on_device : ℕ → Tree → Bool
  on_device device (leaf k m) = true
  on_device device (closed m) = m.dev == device
  on_device device (dir m items) = m.dev == device && all_on_device device items
