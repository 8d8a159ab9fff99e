-- ===== src/Tests/Kernel.antt =====
-- The kernel command line of the new entry.
use bootc_migrate.Prelude.{◌≡◌, refl, true, Option, some, [], ◌∷◌, all}
use bootc_migrate.Text.{
  Text, codes, contains, split_whitespace, is_whitespace, strip_prefix, starts_with, text_eq,
}
use bootc_migrate.Kernel.Karg.{digest, from_prefixed_or_hex}
use bootc_migrate.Kernel.Options.{
  VarMount, carried, get_kernel_options, discover_lvm_kernel_args, should_filter, is_carried,
}
use bootc_migrate.Kernel.Plain.{IsVarMount}
use bootc_migrate.Kernel.Booted.{get_kernel_options_lem}

abbrev running : Text
running = codes "ostree=/ostree/boot.0 root=UUID=1 rhgb composefs=?aa rw"

abbrev volumes : Text → Option Text
volumes dev = some (codes "  vg0 root \n")

abbrev sources : Text
sources = codes "/dev/mapper/vg0-root[/var]\n"

abbrev dedicated : VarMount
dedicated = record { uuid = codes "u1"; fstype = codes "xfs"; options = codes "rw,a:b" }

dedicated-IsVarMount : IsVarMount dedicated
unfolding is_whitespace
dedicated-IsVarMount = record { uuid = refl; fstype = refl; options = refl }

get_kernel_options_lem_example :
    (line : Text) × (get_kernel_options running
        (discover_lvm_kernel_args volumes sources)
        (some dedicated)
        (codes "sha512:ab12")
        true
      ≡ some line)
    × (digest line ≡ some (codes "ab12"))
    × (all (contains (split_whitespace line)) (carried running) ≡ true)
unfolding from_prefixed_or_hex strip_prefix
get_kernel_options_lem_example =
    get_kernel_options_lem volumes running sources (some dedicated) (codes "sha512:ab12")
      (codes "ab12") true refl refl dedicated-IsVarMount

filter_test : carried running ≡ codes "root=UUID=1" ∷ codes "rw" ∷ []
unfolding carried is_carried should_filter split_whitespace starts_with text_eq
filter_test = refl
