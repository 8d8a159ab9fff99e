-- ===== src/BootCleanup/Audit.antt =====
-- Boot entries and the flags of the audit: boot_audit.rs, and `is_ostree_rollback_entry` of
-- migration/rollback.rs.
use bootc_migrate.Prelude.{
  ℕ, suc, Bool, true, false, ◌&&◌, not, Option, none, some, List, [], ◌∷◌, ◌++◌, map, ltb, ◌==◌,
  if◌then◌else◌, is_some_and, any,
}
use bootc_migrate.Text.{Text, codes, text_eq, trim_start_by, has_substring, to_ascii_lowercase}

pub record BootEntry : Type 0 where
  pub id : Text
  pub label : Text
  pub active : Bool
  pub loader_path : Option Text

pub data AuditFlag : Type 0 where
  dead generic_label duplicate_loader_path firmware_managed : AuditFlag

abbrev pub same_flag : AuditFlag → AuditFlag → Bool
same_flag dead dead = true
same_flag generic_label generic_label = true
same_flag duplicate_loader_path duplicate_loader_path = true
same_flag firmware_managed firmware_managed = true
same_flag _ _ = false

pub record AuditedEntry : Type 0 where
  pub entry : BootEntry
  pub flags : List AuditFlag

unfoldable pub has_flag : AuditFlag → AuditedEntry → Bool
has_flag flag a = any (same_flag flag) a.flags

unfoldable pub safe_to_preselect : AuditedEntry → Bool
safe_to_preselect a = has_flag dead a && not (has_flag firmware_managed a)

abbrev pub firmware_label_markers : List Text
firmware_label_markers =
    codes "shell"
    ∷ codes "uiapp"
    ∷ codes "pxe"
    ∷ codes "http boot"
    ∷ codes "diagnostic"
    ∷ codes "bios setup"
    ∷ codes "setup"
    ∷ codes "removable media"
    ∷ codes "usb"
    ∷ codes "network"
    ∷ codes "nic"
    ∷ []

abbrev pub generic_label_markers : List Text
generic_label_markers =
    codes "linux"
    ∷ codes "fedora"
    ∷ codes "uefi os"
    ∷ codes "rhel"
    ∷ codes "centos"
    ∷ codes "opensuse"
    ∷ []

-- The ESP-relative path that is looked up for a loader.
esp_relative : Text → Text
esp_relative p = map (λ c. if c == b'\\' then b'/' else c) (trim_start_by (λ c. c == b'\\') p)

-- How many entries have the loader path, its case ignored.
path_count : List BootEntry → Text → ℕ
path_count [] p = 0
path_count (e ∷ es) p =
    let rest = path_count es p in
    if is_some_and e.loader_path (λ q. text_eq (to_ascii_lowercase q) (to_ascii_lowercase p))
    then suc rest
    else rest

flag_if : Bool → AuditFlag → List AuditFlag
flag_if true flag = flag ∷ []
flag_if false flag = []

-- `exists` says which paths the ESP has.
module _ (exists : Text → Bool) where
  loader_flags : List BootEntry → Option Text → List AuditFlag
  unfolding esp_relative path_count flag_if
  loader_flags entries none = []
  loader_flags entries (some p) =
      flag_if (not (exists (esp_relative p))) dead
      ++ flag_if (ltb 1 (path_count entries p)) duplicate_loader_path

  audit_entry : List BootEntry → BootEntry → AuditedEntry
  unfolding loader_flags
  audit_entry entries e = record {
    entry = e;
    flags =
        flag_if (any (has_substring (to_ascii_lowercase e.label)) firmware_label_markers)
          firmware_managed
        ++ (loader_flags entries e.loader_path
            ++ flag_if (any (has_substring (to_ascii_lowercase e.label)) generic_label_markers)
                generic_label);
  }

  unfoldable pub audit_entries : List BootEntry → List AuditedEntry
  unfolding audit_entry
  audit_entries entries = map (audit_entry entries) entries

abbrev pub ostree_rollback_markers : List Text
ostree_rollback_markers = codes "fedora" ∷ codes "shim" ∷ codes "efi\\fedora" ∷ codes "grub" ∷ []

haystack : Text → Option Text → Text
haystack label none = label
haystack label (some p) = label ++ (codes " " ++ p)

unfoldable pub is_ostree_rollback_entry : Text → Option Text → Bool
unfolding haystack
is_ostree_rollback_entry label loader_path =
    any (has_substring (to_ascii_lowercase (haystack label loader_path))) ostree_rollback_markers
