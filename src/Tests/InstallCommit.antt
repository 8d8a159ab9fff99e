-- ===== src/Tests/InstallCommit.antt =====
-- A commit on a small disk.
use bootc_migrate.Prelude.{
  ◌||◌, ◌≡◌, refl, ap, inl, inr, true, false, none, some, List, [], ◌∷◌, if◌then◌else◌, Bool-cases,
  is_none, all, filter_map, Result, ok, err,
}
use bootc_migrate.Text.{
  Text, codes, text_eq, starts_with, ends_with, strip_prefix, lines, trim, split_whitespace,
  has_substring, to_ascii_lowercase, sort, text_eq→eq,
}
use bootc_migrate.Etc.Symlinks.{components}
use bootc_migrate.InstallCommit.Paths.{
  is_deletable, path_starts_with, mounts_within, join_path, parse_mountpoints, ostree_cmdline_path,
  booted_composefs, var_relative,
}
use bootc_migrate.Kernel.Karg.{present}
use bootc_migrate.InstallCommit.Firmware.{parse_ostree_boot_entry_id}
use bootc_migrate.InstallCommit.Usage.{tree_usage}
use bootc_migrate.InstallCommit.Tree.{
  a_file, a_symlink, Tree, leaf, dir, Items, nil, entry, find_in, all_on_device,
}
use bootc_migrate.InstallCommit.Var.{VarDiff, diff_var}
use bootc_migrate.InstallCommit.Clean.{is_carried_over, on_the_way}
use bootc_migrate.InstallCommit.Checks.{
  Target, CommitPlan, Host, HostFacts, OstreeInstallReport, mounted_inside,
}
use bootc_migrate.InstallCommit.Plan.{live_at, plan, plan_targets, total_bytes}
use bootc_migrate.InstallCommit.Execute.{
  CommitOutcome, mirror_forensics, delete_targets, delete_phase,
}
use bootc_migrate.InstallCommit.Command.{
  host_layout, CommitArgs, committed, Refusal, run, execute_host,
}
use bootc_migrate.InstallCommit.Committed.{IsCleared, run-eq-committed, run-refuses, run-carried}
use bootc_migrate.InstallCommit.Apart.{IsProtected}
use bootc_migrate.InstallCommit.Protected.{delete_phase-protected}
use bootc_migrate.InstallCommit.Deleted.{delete_targets-gone}
use bootc_migrate.InstallCommit.Mirror.{mirror_forensics-keeps}
use bootc_migrate.Tests.SmallDisk.{
  Entries, look_up, without, some_file, some_dir, mount_table, small_disk, without-local,
  without-clears, without-adds,
}

abbrev old_var_tree : Items
old_var_tree =
    entry (codes "lib") (dir some_dir (entry (codes "a") (leaf a_file some_file) nil)) nil

abbrev boot_tree : Tree
boot_tree = dir some_dir nil

abbrev small_entries : Entries
small_entries =
    (codes "/sysroot/state/os/default/var", dir some_dir old_var_tree)
    ∷ (codes "/sysroot/boot", boot_tree)
    ∷ (codes "/var/lib", dir some_dir (entry (codes "a") (leaf a_file some_file) nil))
    ∷ (codes "/var/lib/a", leaf a_file some_file)
    ∷ []

abbrev installed : OstreeInstallReport
installed = record {
  deployment = codes "d1";
  esp_snapshot_dir = codes "/var/lib/esp";
  esp_resident_entry = none;
}

abbrev small_host : Host
small_host = record {
  tree_at = look_up small_entries;
  read_report = λ p.
      if text_eq p (codes "/var/lib/bootc-rebase/ostree-install-report.json")
      then some installed
      else none;
  canonical_name = λ p. some (codes "d1");
  is_dir = λ p. text_eq p (codes "/var/lib/esp");
  list_dir = λ p. none;
  dev_ino = λ p. if text_eq p (codes "/var") then some (1, 2) else some (1, 3);
}

abbrev on_ostree : HostFacts
on_ostree = record {
  cmdline = codes "ostree=/ostree/boot.1/d rw";
  efibootmgr = some (codes "Boot0003* Fedora shim\n");
  proc_mounts = mount_table;
}

abbrev on_composefs : HostFacts
on_composefs = record {
  cmdline = codes "composefs=ab rw";
  efibootmgr = none;
  proc_mounts = mount_table;
}

abbrev asked : CommitArgs
asked = record { apply_now = true; assume_yes = true; force = false }

abbrev forced : CommitArgs
forced = record { apply_now = true; assume_yes = true; force = true }

abbrev reported : CommitArgs
reported = record { apply_now = false; assume_yes = false; force = false }

abbrev old_target : Target
old_target = record {
  rel = codes "state/os/default/var";
  path = codes "/sysroot/state/os/default/var";
  bytes = 12288;
  what = codes "old composefs stateroot /var";
}

run-refuses_example :
    (e : Refusal) × (run small_disk forced (codes "yes") small_host on_composefs small_entries
      ≡ (small_entries, err e))
unfolding booted_composefs present split_whitespace starts_with
run-refuses_example =
    run-refuses small_disk forced (codes "yes") small_host on_composefs small_entries refl

abbrev after : Entries
after =
    (codes "/sysroot/boot", boot_tree)
    ∷ (codes "/var/lib", dir some_dir (entry (codes "a") (leaf a_file some_file) nil))
    ∷ (codes "/var/lib/a", leaf a_file some_file)
    ∷ []

abbrev outcome : CommitOutcome
outcome = record {
  forensics_copied = [];
  deleted = old_target ∷ [];
  pruned = [];
  reclaimed_bytes = 12288;
  forced = false;
}

abbrev small_diff : VarDiff
small_diff = record {
  entries = 2;
  missing = [];
  volatile_missing = 0;
  size_changed = [];
  type_changed = [];
}

diff_test :
    diff_var (some (dir some_dir old_var_tree)) (live_at small_host host_layout) ≡ ok small_diff
unfolding diff_var look_up text_eq join_path sort
diff_test = refl

run_test :
    run small_disk asked [] small_host on_ostree small_entries ≡ (after, ok (committed outcome))
unfolding run diff_var look_up without text_eq join_path is_deletable tree_usage ostree_cmdline_path
    split_whitespace strip_prefix booted_composefs present var_relative parse_ostree_boot_entry_id
    lines trim has_substring to_ascii_lowercase parse_mountpoints mounted_inside mounts_within
    filter_map path_starts_with components total_bytes sort starts_with ends_with plan_targets
run_test = refl

run-eq-committed_example :
    (p : CommitPlan) × (plan small_host host_layout on_ostree ≡ ok p)
    × IsCleared asked [] on_ostree p
    × (execute_host small_disk p false small_entries ≡ (after, ok outcome))
run-eq-committed_example =
    run-eq-committed small_disk asked [] small_host on_ostree small_entries after outcome run_test

boot_file-IsProtected : IsProtected (codes "/sysroot") (codes "/sysroot/boot")
unfolding components
boot_file-IsProtected = record { root = codes "boot"; below = []; named = refl; inside = refl }

delete_phase-protected_example :
    look_up
      ((delete_phase small_disk host_layout [] (old_target ∷ []) small_entries).0)
      (codes "/sysroot/boot")
    ≡ look_up small_entries (codes "/sysroot/boot")
unfolding ends_with
delete_phase-protected_example =
    delete_phase-protected small_disk host_layout without-local without-local without-local refl
      refl [] (old_target ∷ []) (codes "/sysroot/boot") small_entries boot_file-IsProtected

delete_targets-gone_example :
    (s' : Entries) × (deleted : List Target) × (delete_targets small_disk host_layout
        (parse_mountpoints mount_table)
        (old_target ∷ [])
        small_entries
      ≡ (s', ok deleted))
    × (all (λ t. is_none (look_up s' t.path)) (old_target ∷ []) ≡ true)
unfolding is_deletable join_path text_eq mounted_inside mounts_within parse_mountpoints filter_map
    lines split_whitespace
delete_targets-gone_example =
    delete_targets-gone small_disk host_layout (parse_mountpoints mount_table) (λ s p. refl)
      (λ s p. refl) without-clears without-clears without-adds without-adds (old_target ∷ [])
      small_entries refl refl

-- The disk with the old report on it.
abbrev with_report : Entries
with_report =
    (
      codes "/sysroot/state/os/default/var/lib/bootc-rebase",
      dir some_dir (entry (codes "r") (leaf a_file some_file) nil),
    )
    ∷ small_entries

abbrev HoldsA : Entries → Type 0
HoldsA es = look_up es (codes "/var/lib/a") ≡ some (leaf a_file some_file)

added :
    (es : Entries) (to : Text) (t : Tree) → look_up es to ≡ none → HoldsA es → HoldsA ((to, t) ∷ es)
unfolding look_up
added es to t absent h = elim (Bool-cases (text_eq to (codes "/var/lib/a"))) [
  | inl same ↦ cc (ap (look_up es) (text_eq→eq to (codes "/var/lib/a") same), absent, h)
  | inr f ↦ rw f h
]

mirror_forensics-keeps_example : HoldsA ((mirror_forensics small_disk host_layout with_report).0)
unfolding look_up text_eq
mirror_forensics-keeps_example =
    mirror_forensics-keeps small_disk HoldsA
      (λ s from to absent h. added s to (leaf a_file some_file) absent h)
      (λ s from to absent h. added s to (leaf a_symlink some_file) absent h) (λ s p h. h)
      host_layout with_report refl

abbrev plan_or : CommitPlan → Result Text CommitPlan → CommitPlan
plan_or other (err e) = other
plan_or other (ok p) = p

abbrev no_plan : CommitPlan
no_plan = record { checks = []; report_path = none; diff = small_diff; targets = []; kept = [] }

abbrev small_plan : CommitPlan
small_plan = plan_or no_plan (plan small_host host_layout on_ostree)

run-carried_example :
    (on_the_way small_plan.diff.type_changed (codes "lib") (codes "a" ∷ [])
      || is_carried_over (live_at small_host host_layout) (codes "lib/a") a_file)
    ≡ true
unfolding plan diff_var look_up without text_eq join_path is_deletable tree_usage
    ostree_cmdline_path split_whitespace strip_prefix booted_composefs present var_relative
    parse_ostree_boot_entry_id lines trim has_substring to_ascii_lowercase parse_mountpoints
    mounted_inside mounts_within filter_map path_starts_with components total_bytes sort starts_with
    ends_with plan_targets find_in all_on_device
run-carried_example =
    run-carried small_disk asked [] small_host on_ostree small_entries after outcome small_plan
      some_dir old_var_tree (codes "lib") (codes "a" ∷ []) (leaf a_file some_file) run_test refl
      refl refl refl refl refl
