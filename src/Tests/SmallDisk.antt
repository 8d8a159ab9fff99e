-- ===== src/Tests/SmallDisk.antt =====
-- A disk as a list of what is at each path, with the laws of its removals.
use bootc_migrate.Prelude.{
  ◌≡◌, refl, subst, inl, inr, Bool, true, false, Option, none, some, List, [], ◌∷◌, arith,
  if◌then◌else◌, Bool-cases,
}
use bootc_migrate.Text.{Text, codes, text_eq, text_eq→eq}
use bootc_migrate.InstallCommit.Paths.{path_starts_with}
use bootc_migrate.InstallCommit.Tree.{Meta, a_file, a_symlink, Tree, leaf}
use bootc_migrate.InstallCommit.Disk.{Disk}
use bootc_migrate.InstallCommit.Apart.{path_apart}
use bootc_migrate.InstallCommit.Deleted.{path_eq_self}

-- The disk is the list of what is at each path.
abbrev pub Entries : Type 0
Entries = List (Text × Tree)

unfoldable pub look_up : Entries → Text → Option Tree
look_up [] q = none
look_up ((p, t) ∷ es) q = if text_eq p q then some t else look_up es q

unfoldable pub without : Entries → Text → Entries
without [] q = []
without ((p, t) ∷ es) q =
    let rest = without es q in if path_starts_with p q then rest else (p, t) ∷ rest

abbrev pub some_file : Meta
some_file = record { dev = 1; ino = 7; nlink = 1; blocks = 8; len = 3 }

abbrev pub some_dir : Meta
some_dir = record { dev = 1; ino = 5; nlink = 2; blocks = 8; len = 0 }

abbrev pub mount_table : Text
mount_table = codes "/dev/sda3 /sysroot btrfs ro 0 0\n/dev/sda2 /boot ext4 rw 0 0\n"

abbrev pub small_disk : Disk Entries
small_disk = record {
  view = look_up;
  remove_file = λ es p. (without es p, true);
  remove_dir_all = λ es p. (without es p, true);
  remove_dir = λ es p. (without es p, true);
  create_dir_all = λ es p. (es, true);
  copy = λ es from to. ((to, leaf a_file some_file) ∷ es, true);
  copy_link = λ es from to. ((to, leaf a_symlink some_file) ∷ es, true);
  write = λ es p. (es, true);
  remount = λ es argv. (es, true);
  proc_mounts = λ es. some mount_table;
}

not_at : (p q r : Text) → path_apart p q ≡ true → path_starts_with r p ≡ true → text_eq r q ≡ false
not_at p q r h below = elim (Bool-cases (text_eq r q)) [
  | inl t ↦ ground (arith, h, subst (λ x. path_starts_with x p ≡ true) (text_eq→eq r q t) below)
  | inr f ↦ f
]

not_itself : (r p : Text) → path_starts_with r p ≡ false → text_eq r p ≡ false
not_itself r p other = elim (Bool-cases (text_eq r p)) [
  | inl t ↦
      ground
        (arith, path_eq_self p, subst (λ x. path_starts_with x p ≡ false) (text_eq→eq r p t) other)
  | inr f ↦ f
]

missed :
    (b : Bool) (t : Tree) (o : Option Tree)
    → (if b then some t else o) ≡ none
    → (b ≡ false) × (o ≡ none)
missed true t o h = cc
missed false t o h = (refl, h)

pub without-local :
    (es : Entries) (p q : Text) → path_apart p q ≡ true → look_up (without es p) q ≡ look_up es q
unfolding look_up without
without-local [] p q h = refl
without-local ((r, t) ∷ es) p q h = elim (Bool-cases (path_starts_with r p)) [
  | inl below ↦ rw (below, without-local es p q h, not_at p q r h below)
  | inr other ↦ rw (other, without-local es p q h)
]

pub without-clears : (es : Entries) (p : Text) → look_up (without es p) p ≡ none
unfolding look_up without
without-clears [] p = refl
without-clears ((r, t) ∷ es) p = elim (Bool-cases (path_starts_with r p)) [
  | inl below ↦ rw (below, without-clears es p)
  | inr other ↦ rw (other, not_itself r p other, without-clears es p)
]

pub without-adds :
    (es : Entries) (p q : Text) → look_up es q ≡ none → look_up (without es p) q ≡ none
unfolding look_up without
without-adds [] p q h = refl
without-adds ((r, t) ∷ es) p q h =
    let (elsewhere, absent) = missed (text_eq r q) t (look_up es q) h in
    elim (Bool-cases (path_starts_with r p)) [
      | inl below ↦ rw (below, without-adds es p q absent)
      | inr other ↦ rw (other, elsewhere, without-adds es p q absent)
    ]
