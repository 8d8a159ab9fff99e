-- ===== src/Kernel/Options.antt =====
-- Building the command line of the new boot entry: migration/kernel_options.rs.
use bootc_migrate.Prelude.{
  ℕ, Bool, true, false, ◌&&◌, ◌||◌, not, Option, none, some, List, [], ◌∷◌, ◌++◌, ◌==◌,
  if◌then◌else◌, any, filter,
}
use bootc_migrate.Text.{
  Text, codes, text_eq, contains, starts_with, split_on, lines, trim, is_empty, split_whitespace,
  join, has_substring,
}
use bootc_migrate.Kernel.Karg.{is_arg, from_prefixed_or_hex}

unfoldable pub should_filter : Text → Bool
unfolding is_arg
should_filter word =
    if starts_with word (codes "ostree=")
      || starts_with word (codes "BOOT_IMAGE=")
      || starts_with word (codes "initrd=")
      || starts_with word (codes "rd.systemd.unit=")
    then true
    else if starts_with word (codes "ostree.")
    then true
    else is_arg word

unfoldable pub is_carried : Text → Bool
unfolding should_filter
is_carried word =
    not (should_filter word) && not (text_eq word (codes "quiet") || text_eq word (codes "rhgb"))

-- The first loop: the words of the running command line that are carried over.
unfoldable pub carried : Text → List Text
unfolding is_carried
carried cmdline = filter is_carried (split_whitespace cmdline)

-- The loop that pushes the arguments of the logical volumes which are not there yet.
unfoldable pub push_missing : List Text → List Text → List Text
push_missing options [] = options
push_missing options (arg ∷ args) =
    push_missing (if contains options arg then options else options ++ (arg ∷ [])) args

-- A dedicated `/var`: its filesystem's UUID, its type and its mount options.
pub record VarMount : Type 0 where
  pub uuid : Text
  pub fstype : Text
  pub options : Text

-- `replace` of a character.
abbrev pub replace_char : ℕ → Text → Text → Text
replace_char c new [] = []
replace_char c new (d ∷ s) =
    let rest = replace_char c new s in if d == c then new ++ rest else d ∷ rest

unfoldable pub stateroot_var_mount_kernel_arg : VarMount → Text
stateroot_var_mount_kernel_arg var =
    codes "rd.systemd.mount-extra=/dev/disk/by-uuid/"
    ++ (var.uuid
        ++ (codes ":/sysroot/state/os/default/var:"
            ++ (var.fstype
                ++ (codes ":"
                    ++ (replace_char b':' (codes "\\x3a")
                          (replace_char b'\\' (codes "\\x5c") var.options)
                        ++ codes
                            ",x-systemd.before=bootc-root-setup.service,x-systemd.required-by=bootc-root-setup.service")))))

mounts_var : Text → Bool
mounts_var option =
    starts_with option (codes "rd.systemd.mount-extra=")
    && has_substring option (codes ":/sysroot/state/os/default/var:")

unfoldable pub push_var : List Text → Option VarMount → List Text
unfolding mounts_var stateroot_var_mount_kernel_arg
push_var options none = options
push_var options (some var) =
    if any mounts_var options then options else options ++ (stateroot_var_mount_kernel_arg var ∷ [])

unfoldable pub ci_debug_kernel_args : Bool → List Text
ci_debug_kernel_args false = []
ci_debug_kernel_args true =
    codes "systemd.log_target=console"
    ∷ codes "systemd.journald.forward_to_console=1"
    ∷ codes "plymouth.enable=0"
    ∷ codes "systemd.show_status=1"
    ∷ []

-- The options in their order. What findmnt, lvs and the environment say is given.
unfoldable pub option_list : Text → List Text → Option VarMount → Text → Bool → List Text
unfolding carried push_missing push_var ci_debug_kernel_args
option_list cmdline lvm var hex ci =
    push_var (push_missing (carried cmdline) lvm) var
    ++ ((codes "composefs=" ++ hex) ∷ ci_debug_kernel_args ci)

-- `none` is the panic on a digest that is not hexadecimal.
unfoldable pub get_kernel_options : Text → List Text → Option VarMount → Text → Bool → Option Text
unfolding option_list
get_kernel_options cmdline lvm var composefs_digest ci =
    elim (from_prefixed_or_hex composefs_digest) [
      | none ↦ none
      | some hex ↦ some (join (codes " ") (option_list cmdline lvm var hex ci))
    ]

unfoldable pub strip_mount_source : Text → Text
unfolding split_on
strip_mount_source source = elim (split_on b'[' (trim source)) [ [] ↦ [] | device ∷ rest ↦ device ]

unfoldable pub vg_lv : List Text → Option Text
vg_lv [] = none
vg_lv (vg ∷ []) = none
vg_lv (vg ∷ lv ∷ []) =
    if is_empty vg || is_empty lv
    then none
    else some (codes "rd.lvm.lv=" ++ (vg ++ (codes "/" ++ lv)))
vg_lv (vg ∷ lv ∷ other ∷ rest) = none

unfoldable pub parse_lvs_vg_lv : Text → Option Text
unfolding vg_lv
parse_lvs_vg_lv output = elim (lines output) [
  | [] ↦ none
  | line ∷ rest ↦ vg_lv (split_whitespace (trim line))
]

-- `lvs` is what the command prints about a device, if it succeeds.
module _ (lvs : Text → Option Text) where
  unfoldable pub push_lv : List Text → Option Text → List Text
  push_lv args none = args
  push_lv args (some arg) = if contains args arg then args else args ++ (arg ∷ [])

  unfoldable pub lv_of : Text → Option Text
  lv_of dev = elim (lvs dev) [ none ↦ none | some output ↦ parse_lvs_vg_lv output ]

  -- The devices seen so far, and the arguments.
  unfoldable pub lvm_step : List Text × List Text → Text → List Text × List Text
  unfolding push_lv lv_of
  lvm_step (seen, args) line =
      let dev = strip_mount_source line in
      if is_empty dev || contains seen dev
      then (seen, args)
      else (seen ++ (dev ∷ []), push_lv args (lv_of dev))

  unfoldable pub lvm_loop : List Text × List Text → List Text → List Text × List Text
  unfolding lvm_step
  lvm_loop state [] = state
  lvm_loop state (line ∷ rest) = lvm_loop (lvm_step state line) rest

  unfoldable pub discover_lvm_kernel_args : Text → List Text
  unfolding lvm_loop
  discover_lvm_kernel_args sources = (lvm_loop ([], []) (lines sources)).1
