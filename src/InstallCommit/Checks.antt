-- ===== src/InstallCommit/Checks.antt =====
-- What a commit reads of the host, and its preconditions.
use bootc_migrate.Prelude.{
  ℕ, Bool, true, false, ◌&&◌, not, Option, none, some, List, [], ◌∷◌, ◌++◌, ◌==◌, is_some,
  or_option, is_some_and, find?,
}
use bootc_migrate.Text.{Text, codes, text_eq, trim_start_by}
use bootc_migrate.InstallCommit.Paths.{
  old_stateroot_var, var_relative, ostree_cmdline_path, booted_composefs, mounts_within, join_path,
}
use bootc_migrate.InstallCommit.Tree.{Tree}
use bootc_migrate.InstallCommit.Var.{VarDiff}
use bootc_migrate.InstallCommit.Firmware.{parse_ostree_boot_entry_id, parse_systemd_boot_entry_id}

pub record Check : Type 0 where
  pub name : Text
  pub ok_now : Bool
  pub hard : Bool

pub record Target : Type 0 where
  pub rel : Text
  pub path : Text
  pub bytes : ℕ
  pub what : Text

-- The fields of the install report that the commit reads.
pub record OstreeInstallReport : Type 0 where
  pub deployment : Text
  pub esp_snapshot_dir : Text
  pub esp_resident_entry : Option Text

pub record CommitPlan : Type 0 where
  pub checks : List Check
  pub report_path : Option Text
  pub diff : VarDiff
  pub targets : List Target
  pub kept : List Text

pub record HostFacts : Type 0 where
  pub cmdline : Text
  pub efibootmgr : Option Text
  pub proc_mounts : Text

pub record Layout : Type 0 where
  pub sysroot : Text
  pub live_var : Text

-- What the read-only calls of the file system return at a path: the tree that
-- `symlink_metadata` and `read_dir` show, the report that is read and parsed
-- there, the last name of the canonical path, whether it is a directory after
-- symbolic links, the names `read_dir` yields, and its device and inode after symbolic links.
pub record Host : Type 0 where
  pub tree_at : Text → Option Tree
  pub read_report : Text → Option OstreeInstallReport
  pub canonical_name : Text → Option Text
  pub is_dir : Text → Bool
  pub list_dir : Text → Option (List Text)
  pub dev_ino : Text → Option (ℕ × ℕ)

abbrev pub old_var : Layout → Text
old_var layout = join_path layout.sysroot old_stateroot_var

-- `STATE_DIR` below a `/var`.
abbrev pub state_dir_in : Text → Text
state_dir_in var = join_path var (codes "lib/bootc-rebase")

abbrev pub report_file : Text
report_file = codes "ostree-install-report.json"

pub report_at : Host → Text → Option (Text × OstreeInstallReport)
report_at host p = elim (host.read_report p) [ none ↦ none | some r ↦ some (p, r) ]

unfoldable pub find_report : Host → Layout → Option (Text × OstreeInstallReport)
unfolding report_at
find_report host layout =
    or_option (report_at host (join_path (state_dir_in layout.live_var) report_file))
      (report_at host (join_path (state_dir_in (old_var layout)) report_file))

pub booted_deployment : Host → Layout → Text → Option Text
booted_deployment host layout cmdline = elim (ostree_cmdline_path cmdline) [
  | none ↦ none
  | some arg ↦ host.canonical_name (join_path layout.sysroot (trim_start_by (λ c. c == b'/') arg))
]

abbrev pub check : Text → Bool → Bool → Check
check name ok_now hard = record { name = name; ok_now = ok_now; hard = hard }

unfoldable pub check_boot : Text → Check
check_boot cmdline =
    check (codes "booted from OSTree")
      (is_some (ostree_cmdline_path cmdline) && not (booted_composefs cmdline)) true

pub esp_snapshot : Host → Layout → Text → Option Text
esp_snapshot host layout snapshot_dir = elim (var_relative snapshot_dir) [
  | none ↦ none
  | some rel ↦
      find? host.is_dir (join_path layout.live_var rel ∷ join_path (old_var layout) rel ∷ [])
]

unfoldable pub report_checks :
    Host → Layout → Text → Option (Text × OstreeInstallReport) → List Check
unfolding booted_deployment esp_snapshot
report_checks host layout cmdline none = []
report_checks host layout cmdline (some (p, r)) =
    check (codes "booted deployment matches the report")
      (is_some_and (booted_deployment host layout cmdline) (λ booted. text_eq booted r.deployment))
      false
    ∷ check (codes "ESP snapshot present") (is_some (esp_snapshot host layout r.esp_snapshot_dir))
        false
    ∷ []

abbrev pub path_of_report : Option (Text × OstreeInstallReport) → Option Text
path_of_report none = none
path_of_report (some (p, r)) = some p

abbrev pub esp_resident : Option (Text × OstreeInstallReport) → Option Text
esp_resident none = none
esp_resident (some (p, r)) = r.esp_resident_entry

abbrev pub firmware_entry : Option Text → Option Text → Option Text
firmware_entry resident none = none
firmware_entry none (some output) = parse_ostree_boot_entry_id output
firmware_entry (some e) (some output) = parse_systemd_boot_entry_id output

abbrev pub is_empty_list {ℓ} : {A : Type ℓ} → List A → Bool
is_empty_list [] = true
is_empty_list (x ∷ xs) = false

-- Two directories are one when device and inode agree; nothing is checked where one is missing.
unfoldable pub check_not_live : Option (ℕ × ℕ) → Option (ℕ × ℕ) → List Check
check_not_live (some (a_dev, a_ino)) (some (b_dev, b_ino)) =
    check (codes "old /var is not the live /var") (not (a_dev == b_dev && a_ino == b_ino)) true ∷ []
check_not_live _ _ = []

unfoldable pub mounted_inside : List Target → List (Text × Text) → List Text
mounted_inside [] mountpoints = []
mounted_inside (t ∷ ts) mountpoints =
    mounts_within t.path mountpoints ++ mounted_inside ts mountpoints
