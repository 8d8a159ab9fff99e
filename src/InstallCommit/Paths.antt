-- ===== src/InstallCommit/Paths.antt =====
-- The pure helpers on paths, mounts and the command line.
use bootc_migrate.Prelude.{
  ℕ, ◌+◌, ◌-◌, ◌*◌, Bool, true, false, ◌&&◌, ◌||◌, Option, none, some, List, [], ◌∷◌, ◌++◌, map,
  ltb, leb, ◌==◌, if◌then◌else◌, is_some_and, any, all, filter, filter_map,
}
use bootc_migrate.Text.{
  Text, codes, text_eq, contains, starts_with, ends_with, strip_prefix, lines, is_empty,
  split_whitespace,
}
use bootc_migrate.Etc.Symlinks.{Component, root_dir, cur_dir, parent_dir, normal, components}
use bootc_migrate.Kernel.Karg.{present, find_map}

abbrev pub old_stateroot_var : Text
old_stateroot_var = codes "state/os/default/var"

abbrev pub old_deploy_dir : Text
old_deploy_dir = codes "state/deploy"

abbrev pub composefs_store : Text
composefs_store = codes "composefs"

abbrev pub composefs_loopback : Text
composefs_loopback = codes "composefs-loopback.ext4"

abbrev pub prune_if_empty : List Text
prune_if_empty =
    codes "state/os/default" ∷ codes "state/os" ∷ codes "state/deploy" ∷ codes "state" ∷ []

abbrev pub protected_roots : List Text
protected_roots = codes "ostree" ∷ codes "boot" ∷ codes "efi" ∷ []

abbrev pub volatile_var_paths : List Text
volatile_var_paths =
    codes "tmp"
    ∷ codes "cache"
    ∷ codes "log/journal"
    ∷ codes "lib/systemd/coredump"
    ∷ codes "lib/bootc-rebase"
    ∷ codes "lib/NetworkManager/NetworkManager.state"
    ∷ codes "lib/flatpak/appstream"
    ∷ codes "lib/flatpak/repo/tmp"
    ∷ []

keep_non_empty : Option Text → Option Text
keep_non_empty none = none
keep_non_empty (some s) = if is_empty s then none else some s

unfoldable pub var_relative : Text → Option Text
unfolding keep_non_empty
var_relative abs = keep_non_empty (strip_prefix abs (codes "/var/"))

unfoldable pub ostree_cmdline_path : Text → Option Text
unfolding keep_non_empty
ostree_cmdline_path cmdline =
    keep_non_empty (find_map (λ arg. strip_prefix arg (codes "ostree=")) (split_whitespace cmdline))

unfoldable pub booted_composefs : Text → Bool
booted_composefs cmdline = present cmdline

-- The path is the volatile one or lies below it.
unfoldable pub at_or_below : Text → Text → Bool
unfolding strip_prefix starts_with
at_or_below rel v =
    text_eq rel v || is_some_and (strip_prefix rel v) (λ rest. starts_with rest (codes "/"))

unfoldable pub is_volatile : Text → Bool
unfolding at_or_below
is_volatile rel = any (at_or_below rel) volatile_var_paths

abbrev pub is_normal : Component → Bool
is_normal (normal n) = true
is_normal root_dir = false
is_normal cur_dir = false
is_normal parent_dir = false

unfoldable pub deletable_components : List Component → Bool
deletable_components [] = false
deletable_components (root_dir ∷ cs) = false
deletable_components (cur_dir ∷ cs) = false
deletable_components (parent_dir ∷ cs) = false
deletable_components (normal first ∷ cs) =
    if contains protected_roots first then false else all is_normal cs

unfoldable pub is_deletable : Text → Bool
unfolding deletable_components components
is_deletable rel = deletable_components (components rel)

is_octal : ℕ → Bool
is_octal c = leb b'0' c && leb c b'7'

-- `u8::from_str_radix(.., 8)` on three characters: a leading `+` is allowed, and 256 is too much.
octal_byte : ℕ → ℕ → ℕ → Option ℕ
unfolding is_octal
octal_byte a b c =
    if is_octal b && is_octal c
    then (if a == b'+'
        then some ((b - 48) * 8 + (c - 48))
        else if is_octal a && ltb a b'4'
        then some ((a - 48) * 64 + ((b - 48) * 8 + (c - 48)))
        else none)
    else none

-- On the bytes of the field; each byte becomes the character of its number.
pub unescape_mount_field : Text → Text
unfolding octal_byte
unescape_mount_field [] = []
unescape_mount_field (x ∷ []) = x ∷ []
unescape_mount_field (x ∷ a ∷ []) = x ∷ a ∷ []
unescape_mount_field (x ∷ a ∷ b ∷ []) = x ∷ a ∷ b ∷ []
unescape_mount_field (x ∷ a ∷ b ∷ c ∷ s) =
    let plain = x ∷ unescape_mount_field (a ∷ b ∷ c ∷ s) in
    let decoded = unescape_mount_field s in
    if x == b'\\'
    then elim (octal_byte a b c) [ none ↦ plain | some code ↦ code ∷ decoded ]
    else plain

mount_of : List Text → Option (Text × Text)
mount_of [] = none
mount_of (dev ∷ []) = none
mount_of (dev ∷ mp ∷ []) = none
mount_of (dev ∷ mp ∷ fstype ∷ rest) = some (unescape_mount_field mp, fstype)

unfoldable pub parse_mountpoints : Text → List (Text × Text)
unfolding mount_of unescape_mount_field
parse_mountpoints proc_mounts =
    filter_map (λ line. mount_of (split_whitespace line)) (lines proc_mounts)

unfoldable pub same_component : Component → Component → Bool
same_component root_dir root_dir = true
same_component cur_dir cur_dir = true
same_component parent_dir parent_dir = true
same_component (normal m) (normal n) = text_eq m n
same_component _ _ = false

unfoldable pub components_start_with : List Component → List Component → Bool
unfolding same_component
components_start_with cs [] = true
components_start_with [] (d ∷ ds) = false
components_start_with (c ∷ cs) (d ∷ ds) = same_component c d && components_start_with cs ds

-- `Path::starts_with`
unfoldable pub path_starts_with : Text → Text → Bool
unfolding components_start_with components
path_starts_with p base = components_start_with (components p) (components base)

unfoldable pub mounts_within : Text → List (Text × Text) → List Text
unfolding path_starts_with
mounts_within target mountpoints =
    filter (λ mp. path_starts_with mp target) (map (λ m. m.0) mountpoints)

-- `Path::join`: an absolute path replaces the base.
unfoldable pub join_path : Text → Text → Text
unfolding starts_with ends_with
join_path base rel =
    if starts_with rel (codes "/")
    then rel
    else if is_empty base || ends_with base (codes "/")
    then base ++ rel
    else base ++ (codes "/" ++ rel)
