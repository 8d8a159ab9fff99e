-- ===== src/Kernel/Booted.antt =====
-- The command line of the new entry boots the staged image.
use bootc_migrate.Prelude.{
  ◌≡◌, refl, ◌∙◌, Bool, true, false, Option, none, some, List, [], ◌∷◌, ◌++◌, arith, if◌then◌else◌,
  all, any-append,
}
use bootc_migrate.Text.{
  Text, codes, text_eq, contains, starts_with, is_whitespace, is_empty, split_whitespace, join,
  text_eq_self,
}
use bootc_migrate.Text.Words.{
  is_word, no_space-append, split_whitespace-is_word, split_whitespace-join, all-append,
}
use bootc_migrate.Kernel.Karg.{is_arg, digest, is_ascii_hexdigit, from_prefixed_or_hex}
use bootc_migrate.Kernel.Options.{
  carried, push_missing, VarMount, replace_char, stateroot_var_mount_kernel_arg, push_var,
  ci_debug_kernel_args, option_list, get_kernel_options, discover_lvm_kernel_args,
}
use bootc_migrate.Kernel.Plain.{
  is_plain_option, find_map-append, all_word, carried_plain, push_missing-plain, arg_digest-hex,
  no_space-hex, replace_char-no_space, IsVarMount, IsOptionalVarMount, no_space-var, plain_of,
}
use bootc_migrate.Kernel.Lvm.{lvm_plain}

var_mount-plain :
    (var : VarMount) → IsVarMount var → is_plain_option (stateroot_var_mount_kernel_arg var) ≡ true
unfolding stateroot_var_mount_kernel_arg is_arg starts_with is_whitespace
var_mount-plain var h =
    plain_of (stateroot_var_mount_kernel_arg var) refl
      (no_space-var (codes "rd.systemd.mount-extra=/dev/disk/by-uuid/")
        (codes ":/sysroot/state/os/default/var:") var.uuid var.fstype (codes ":")
        (replace_char b':' (codes "\\x3a") (replace_char b'\\' (codes "\\x5c") var.options)
          ++ codes
              ",x-systemd.before=bootc-root-setup.service,x-systemd.required-by=bootc-root-setup.service")
        refl h.uuid refl h.fstype refl
        (no_space-append
            (replace_char b':' (codes "\\x3a") (replace_char b'\\' (codes "\\x5c") var.options)) _
          ∙ rw (
              replace_char-no_space b':' (codes "\\x3a") _ refl
                (replace_char-no_space b'\\' (codes "\\x5c") var.options refl h.options))))
      refl

push_var-plain :
    (options : List Text) (var : Option VarMount)
    → IsOptionalVarMount var
    → all is_plain_option options ≡ true
    → all is_plain_option (push_var options var) ≡ true
unfolding push_var
push_var-plain options none v h = h
push_var-plain options (some var) v h = ground (
  arith,
  var_mount-plain var v,
  all-append is_plain_option options (stateroot_var_mount_kernel_arg var ∷ []),
)

-- The options before the composefs argument are plain.
front_plain :
    (cmdline : Text) (lvm : List Text) (var : Option VarMount)
    → all is_plain_option lvm ≡ true
    → IsOptionalVarMount var
    → all is_plain_option (push_var (push_missing (carried cmdline) lvm) var) ≡ true
unfolding carried
front_plain cmdline lvm var l v = push_var-plain (push_missing (carried cmdline) lvm) var v (
    push_missing-plain (carried cmdline) lvm
      (carried_plain (split_whitespace cmdline) (split_whitespace-is_word cmdline)) l)

ci_words : (ci : Bool) → all is_word (ci_debug_kernel_args ci) ≡ true
unfolding ci_debug_kernel_args is_whitespace
ci_words true = refl
ci_words false = refl

hex_word :
    (hex : Text) → all is_ascii_hexdigit hex ≡ true → is_word (codes "composefs=" ++ hex) ≡ true
unfolding is_whitespace
hex_word hex h = ground (arith, no_space-hex hex)

option_words :
    (front : List Text) (hex : Text) (ci : Bool)
    → all is_plain_option front ≡ true
    → all is_ascii_hexdigit hex ≡ true
    → all is_word (front ++ ((codes "composefs=" ++ hex) ∷ ci_debug_kernel_args ci)) ≡ true
option_words front hex ci f h = ground (
  arith,
  all-append is_word front ((codes "composefs=" ++ hex) ∷ ci_debug_kernel_args ci),
  all_word front,
  hex_word hex,
  ci_words ci,
)

from_prefixed_or_hex-hex :
    (s hex : Text) → from_prefixed_or_hex s ≡ some hex → all is_ascii_hexdigit hex ≡ true
unfolding from_prefixed_or_hex
from_prefixed_or_hex-hex s hex h = ground arith

digest-option_list :
    (cmdline : Text) (lvm : List Text) (var : Option VarMount) (hex : Text) (ci : Bool)
    → all is_ascii_hexdigit hex ≡ true
    → is_empty hex ≡ false
    → all is_plain_option lvm ≡ true
    → IsOptionalVarMount var
    → digest (join (codes " ") (option_list cmdline lvm var hex ci)) ≡ some hex
unfolding digest option_list
digest-option_list cmdline lvm var hex ci h e l v =
    let front = push_var (push_missing (carried cmdline) lvm) var in
    let plain = front_plain cmdline lvm var l v in
    rw (
      split_whitespace-join (front ++ ((codes "composefs=" ++ hex) ∷ ci_debug_kernel_args ci))
          (option_words front hex ci plain h),
      find_map-append front ((codes "composefs=" ++ hex) ∷ ci_debug_kernel_args ci) plain,
      arg_digest-hex hex h e,
    )

-- What holds of every text that the list contains.
all-contained :
    {f : Text → Bool} (ws : List Text)
    → ((w : Text) → contains ws w ≡ true → f w ≡ true)
    → all f ws ≡ true
all-contained [] h = refl
all-contained (w ∷ ws) h =
    rw (h w (rw (text_eq_self w)), all-contained ws (λ v m. h v (ground (arith, m))))

contains-push_missing :
    (options args : List Text) (w : Text)
    → contains options w ≡ true
    → contains (push_missing options args) w ≡ true
unfolding push_missing
contains-push_missing options [] w h = h
contains-push_missing options (arg ∷ args) w h =
    contains-push_missing (if contains options arg then options else options ++ (arg ∷ [])) args w
      (ground (arith, any-append (text_eq w) options (arg ∷ [])))

contains-push_var :
    (options : List Text) (var : Option VarMount) (w : Text)
    → contains options w ≡ true
    → contains (push_var options var) w ≡ true
unfolding push_var
contains-push_var options none w h = h
contains-push_var options (some var) w h =
    ground (arith, any-append (text_eq w) options (stateroot_var_mount_kernel_arg var ∷ []))

-- The new command line can be built if the digest is hexadecimal. Read back, it gives the digest of
-- the staged image, whatever images the running command line names, and it has every word of the
-- running one that the first loop carries over. A dedicated `/var` is one that findmnt prints without spaces.
pub get_kernel_options_lem :
    (lvs : Text → Option Text) (cmdline sources : Text) (var : Option VarMount)
    (composefs_digest hex : Text) (ci : Bool)
    → from_prefixed_or_hex composefs_digest ≡ some hex
    → is_empty hex ≡ false
    → IsOptionalVarMount var
    → (line : Text) × (get_kernel_options cmdline
          (discover_lvm_kernel_args lvs sources)
          var
          composefs_digest
          ci
        ≡ some line)
      × (digest line ≡ some hex)
      × (all (contains (split_whitespace line)) (carried cmdline) ≡ true)
unfolding get_kernel_options option_list
get_kernel_options_lem lvs cmdline sources var composefs_digest hex ci d e v =
    let lvm = discover_lvm_kernel_args lvs sources in
    let hexes = from_prefixed_or_hex-hex composefs_digest hex d in
    let front = push_var (push_missing (carried cmdline) lvm) var in
    let last = (codes "composefs=" ++ hex) ∷ ci_debug_kernel_args ci in
    (
      join (codes " ") (option_list cmdline lvm var hex ci),
      rw (d, get_kernel_options),
      digest-option_list cmdline lvm var hex ci hexes e (lvm_plain lvs sources) v,
      all-contained (carried cmdline) (λ w m.
          rw
            (split_whitespace-join (front ++ last) (
              option_words front hex ci (front_plain cmdline lvm var (lvm_plain lvs sources) v)
                hexes))
            (any-append (text_eq w) front last
              ∙ rw (
                  contains-push_var (push_missing (carried cmdline) lvm) var w
                    (contains-push_missing (carried cmdline) lvm w m)))),
    )
