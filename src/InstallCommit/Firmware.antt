-- ===== src/InstallCommit/Firmware.antt =====
-- The firmware entries that boot the OSTree deployment, from `efibootmgr -v`:
-- crates/bootc-migrate-core/src/migration/rollback.rs and
-- crates/bootc-migrate-core/src/ostree_install/esp_resident.rs.
use bootc_migrate.Prelude.{Bool, ◌||◌, Option, none, some, [], ◌∷◌, if◌then◌else◌, any, all}
use bootc_migrate.Text.{Text, codes, strip_prefix, lines, trim, has_substring, to_ascii_lowercase}
use bootc_migrate.BootCleanup.Audit.{ostree_rollback_markers}
use bootc_migrate.Kernel.Karg.{find_map, is_ascii_hexdigit}

-- The first four characters, which are hexadecimal digits, and the rest.
pub split_entry_id : Text → Option (Text × Text)
split_entry_id (a ∷ b ∷ c ∷ d ∷ s) =
    if all is_ascii_hexdigit (a ∷ b ∷ c ∷ d ∷ []) then some (a ∷ b ∷ c ∷ d ∷ [], s) else none
split_entry_id _ = none

pub entry_id : (Text → Bool) → Option (Text × Text) → Option Text
entry_id matches none = none
entry_id matches (some (id, tail)) = if matches (to_ascii_lowercase tail) then some id else none

pub boot_line : (Text → Bool) → Option Text → Option Text
unfolding split_entry_id entry_id
boot_line matches none = none
boot_line matches (some rest) = entry_id matches (split_entry_id rest)

unfoldable pub parse_ostree_boot_entry_id : Text → Option Text
unfolding boot_line strip_prefix
parse_ostree_boot_entry_id output =
    find_map
      (λ line.
        boot_line (λ tail. any (has_substring tail) ostree_rollback_markers)
          (strip_prefix (trim line) (codes "Boot")))
      (lines output)

unfoldable pub parse_systemd_boot_entry_id : Text → Option Text
unfolding boot_line strip_prefix
parse_systemd_boot_entry_id output =
    find_map
      (λ line.
        boot_line
          (λ tail.
            has_substring tail (codes "linux boot manager")
            || has_substring tail (codes "systemd-bootx64.efi"))
          (strip_prefix (trim line) (codes "Boot")))
      (lines output)
