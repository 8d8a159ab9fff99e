-- ===== src/Tests/BootCleanup.antt =====
-- The boot cleanup on a small set of entries.
use bootc_migrate.Prelude.{
  filter, filter_map, ◌↔◌, ◌||◌, ◌++◌, String, ◌≡◌, refl, true, ◌&&◌, not, Option, none, some, List,
  [], ◌∷◌, All, any, ok, err, for_each,
}
use bootc_migrate.Text.{
  Text, codes, text_eq, starts_with, strip_prefix, split_by, split_on, lines, is_control,
  trim_start_by, trim, join, has_substring, to_ascii_lowercase, eq_ignore_ascii_case,
}
use bootc_migrate.BootCleanup.Audit.{
  BootEntry, dead, generic_label, AuditedEntry, has_flag, audit_entries, is_ostree_rollback_entry,
  safe_to_preselect,
}
use bootc_migrate.BootCleanup.Plan.{
  NvramFacts, delete, rename, CleanupPlan, CleanupSelection, currently_booted, protected_entry,
  is_bootable, delete_protection, rename_block, label_is_valid, default_delete_selection,
  find_entry, delete_op, plan_delete, rename_op, plan_rename, loader_entries,
  booted_entry_has_no_loader, evidence_implausible, bootable_after, check_last, plan_cleanup,
}
use bootc_migrate.BootCleanup.Rounds.{IsSafe}
use bootc_migrate.BootCleanup.Restore.{
  set_boot_order, plan_restore, same_path, same_entry, merged_ids, merge_boot_order, order_ids,
}
use bootc_migrate.BootCleanup.Safety.{plan_cleanup-IsSafe, deletes}
use bootc_migrate.BootCleanup.Survival.{plan_cleanup-keeps_bootable}
use bootc_migrate.BootCleanup.Preselection.{plan_cleanup-default}
use bootc_migrate.BootCleanup.Order.{plan_restore_lem}
use bootc_migrate.BootCleanup.Fields.{NoTwice, merge_boot_order_lem}
use bootc_migrate.BootCleanup.Plan.{branding_renames, booted_renames}
use bootc_migrate.BootCleanup.Branding.{IsBranding, branding_renames-IsBranding}
use bootc_migrate.BootCleanup.Rollback.{
  parse_boot_order, parse_nvram_scalar, new_order_ids, build_new_boot_order,
}

abbrev boot_entry : String → String → Option Text → BootEntry
boot_entry id label loader = record {
  id = codes id;
  label = codes label;
  active = true;
  loader_path = loader;
}

abbrev live_entry : AuditedEntry
live_entry = record {
  entry = boot_entry "0001" "linux" (some (codes "\\a.efi"));
  flags = generic_label ∷ [];
}

abbrev dead_entry : AuditedEntry
dead_entry = record { entry = boot_entry "000A" "old" (some (codes "\\b.efi")); flags = dead ∷ [] }

abbrev audited : List AuditedEntry
audited = live_entry ∷ dead_entry ∷ []

audit_test :
    audit_entries
      (λ p. text_eq p (codes "a.efi"))
      (boot_entry "0001" "linux" (some (codes "\\a.efi"))
        ∷ boot_entry "000A" "old" (some (codes "\\b.efi"))
        ∷ [])
    ≡ audited
unfolding audit_entries has_substring starts_with to_ascii_lowercase trim_start_by text_eq
audit_test = refl

abbrev facts : NvramFacts
facts = record {
  boot_current = some (codes "0001");
  boot_order = some (codes "0001,000A");
  rollback_entry_id = none;
}

abbrev selection : CleanupSelection
selection = record {
  delete_ids = codes "000a" ∷ [];
  renames = (codes "0001", codes " Bluefin ") ∷ [];
}

abbrev cleanup : CleanupPlan
cleanup = record {
  ops =
      delete (codes "000A") (codes "old") (dead ∷ [])
      ∷ rename (codes "0001") (codes "linux") (codes "Bluefin") (codes "\\a.efi")
      ∷ [];
}

cleanup_test : plan_cleanup audited facts selection ≡ ok cleanup
unfolding plan_cleanup for_each find_entry delete_op plan_delete rename_op plan_rename
    evidence_implausible loader_entries booted_entry_has_no_loader is_bootable bootable_after
    check_last delete_protection rename_block has_flag safe_to_preselect default_delete_selection
    is_ostree_rollback_entry label_is_valid eq_ignore_ascii_case to_ascii_lowercase has_substring
    starts_with trim is_control text_eq
cleanup_test = refl

booted_test :
    plan_cleanup audited facts (record { delete_ids = codes "0001" ∷ []; renames = [] })
    ≡ err (protected_entry (codes "0001") currently_booted)
unfolding plan_cleanup for_each find_entry delete_op plan_delete rename_op plan_rename
    evidence_implausible loader_entries booted_entry_has_no_loader is_bootable bootable_after
    check_last delete_protection rename_block has_flag safe_to_preselect default_delete_selection
    is_ostree_rollback_entry label_is_valid eq_ignore_ascii_case to_ascii_lowercase has_substring
    starts_with trim is_control text_eq
booted_test = refl

plan_cleanup-IsSafe_example : All (IsSafe audited facts) cleanup.ops
plan_cleanup-IsSafe_example =
    plan_cleanup-IsSafe audited facts selection {plan = cleanup} cleanup_test

plan_cleanup-keeps_bootable_example :
    any (λ a. is_bootable a && not (any (deletes a.entry.id) cleanup.ops)) audited ≡ true
unfolding is_bootable has_flag
plan_cleanup-keeps_bootable_example =
    plan_cleanup-keeps_bootable audited facts selection {plan = cleanup} cleanup_test refl

plan_cleanup-default_example :
    plan_cleanup audited facts
      (record { delete_ids = default_delete_selection audited facts; renames = [] })
    ≡ ok (record { ops = delete (codes "000A") (codes "old") (dead ∷ []) ∷ [] })
unfolding plan_cleanup for_each find_entry delete_op plan_delete rename_op plan_rename
    evidence_implausible loader_entries booted_entry_has_no_loader is_bootable bootable_after
    check_last delete_protection rename_block has_flag safe_to_preselect default_delete_selection
    is_ostree_rollback_entry label_is_valid eq_ignore_ascii_case to_ascii_lowercase has_substring
    starts_with trim is_control text_eq
plan_cleanup-default_example = plan_cleanup-default audited facts (refl, (refl, tt))

merged_test : merge_boot_order (codes "0007,0001") (codes "0001, 000A") ≡ codes "0007,0001,000A"
unfolding merge_boot_order merged_ids order_ids split_on split_by trim join eq_ignore_ascii_case
    to_ascii_lowercase text_eq
merged_test = refl

merge_boot_order_lem_example :
    let rs = codes "0007" ∷ codes "0001" ∷ [] in
    let cs = codes "0001" ∷ codes "000A" ∷ [] in
    let ids = order_ids (merge_boot_order (codes "0007,0001") (codes "0001, 000A")) in
    (ids ≡ rs ++ filter (λ id. not (any (λ r. eq_ignore_ascii_case r id) rs)) cs)
    × NoTwice ids
    × ((id : Text)
        → any (λ m. eq_ignore_ascii_case m id) ids
          ≡ (any (λ m. eq_ignore_ascii_case m id) rs || any (λ m. eq_ignore_ascii_case m id) cs))
unfolding order_ids split_on split_by trim eq_ignore_ascii_case to_ascii_lowercase text_eq
merge_boot_order_lem_example =
    merge_boot_order_lem (codes "0007,0001") (codes "0001, 000A") (refl, (refl, tt))
      (refl, (refl, tt))

-- Nothing is recreated here, and the order is set.
plan_restore_lem_example :
    let plan = plan_restore (live_entry.entry ∷ []) (some (codes "000A")) (live_entry.entry ∷ []) in
    (plan.ops ≡ set_boot_order (codes "000A") ∷ [])
    × (plan.unrestorable ≡ [])
    × ((a b : BootEntry)
        → (same_entry a b ≡ true) ↔ ((a.label ≡ b.label) × (a.loader_path ≡ b.loader_path)))
unfolding same_entry same_path text_eq filter_map
plan_restore_lem_example =
    plan_restore_lem (live_entry.entry ∷ []) (live_entry.entry ∷ []) (some (codes "000A"))

branding_renames-IsBranding_example :
    All (IsBranding audited facts) ((codes "0001", codes "Bluefin") ∷ [])
unfolding branding_renames booted_renames rename_block has_flag label_is_valid eq_ignore_ascii_case
    to_ascii_lowercase trim is_control text_eq
branding_renames-IsBranding_example = branding_renames-IsBranding audited facts (codes " Bluefin")

parse_test :
    parse_boot_order (codes "BootCurrent: 0001\n BootOrder: 0001,000A \n")
    ≡ some (codes "0001,000A")
unfolding parse_boot_order parse_nvram_scalar lines split_on split_by trim strip_prefix
parse_test = refl

new_order_test :
    build_new_boot_order (codes "0001, 000A,0007") (codes "000a") ≡ codes "000a,0001,0007"
unfolding build_new_boot_order new_order_ids order_ids split_on split_by trim join
    eq_ignore_ascii_case to_ascii_lowercase text_eq
new_order_test = refl
