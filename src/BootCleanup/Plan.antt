-- ===== src/BootCleanup/Plan.antt =====
-- Planning a cleanup: the first half of boot_cleanup/plan.rs.
use bootc_migrate.Prelude.{
  ℕ, Bool, ◌&&◌, not, Option, none, some, List, [], ◌∷◌, ◌++◌, map, ltb, ◌==◌, if◌then◌else◌,
  is_some, is_none, is_some_and, length, any, filter, find?, Result, ok, err, ◌>>=◌, for_each,
}
use bootc_migrate.Text.{Text, text_eq, is_control, trim, is_empty, eq_ignore_ascii_case}
use bootc_migrate.BootCleanup.Audit.{
  AuditFlag, dead, generic_label, firmware_managed, AuditedEntry, has_flag, safe_to_preselect,
  is_ostree_rollback_entry,
}

pub data DeleteProtection : Type 0 where
  firmware_owned currently_booted rollback_path : DeleteProtection

pub data RenameBlock : Type 0 where
  firmware_entry no_loader_path loader_not_on_this_esp label_unchanged : RenameBlock

pub record NvramFacts : Type 0 where
  pub boot_current : Option Text
  pub boot_order : Option Text
  pub rollback_entry_id : Option Text

pub data PlannedOp : Type 0 where
  delete : Text → Text → List AuditFlag → PlannedOp
  rename : Text → Text → Text → Text → PlannedOp

pub record CleanupPlan : Type 0 where
  pub ops : List PlannedOp

pub record CleanupSelection : Type 0 where
  pub delete_ids : List Text
  pub renames : List (Text × Text)

pub data PlanError : Type 0 where
  esp_evidence_implausible : ℕ → PlanError
  unknown_entry : Text → PlanError
  protected_entry : Text → DeleteProtection → PlanError
  not_renameable : Text → RenameBlock → PlanError
  conflicting_ops : Text → PlanError
  invalid_label : Text → Text → PlanError
  removes_last_bootable_entry : PlanError
  -- The `expect` on the loader path of a rename.
  panicked : PlanError

unfoldable pub is_bootable : AuditedEntry → Bool
is_bootable a = is_some a.entry.loader_path && not (has_flag dead a)

unfoldable pub delete_protection : AuditedEntry → NvramFacts → Option DeleteProtection
delete_protection a facts =
    if has_flag firmware_managed a
    then some firmware_owned
    else if is_some_and facts.boot_current (λ c. eq_ignore_ascii_case c a.entry.id)
    then some currently_booted
    else if is_some_and facts.rollback_entry_id (λ r. eq_ignore_ascii_case r a.entry.id)
    then some rollback_path
    else if not (has_flag dead a) && is_ostree_rollback_entry a.entry.label a.entry.loader_path
    then some rollback_path
    else none

unfoldable pub rename_block : AuditedEntry → Text → Option RenameBlock
rename_block a new_label =
    if has_flag firmware_managed a
    then some firmware_entry
    else if is_none a.entry.loader_path
    then some no_loader_path
    else if has_flag dead a
    then some loader_not_on_this_esp
    else if text_eq a.entry.label new_label
    then some label_unchanged
    else none

unfoldable pub label_is_valid : Text → Bool
label_is_valid label = not (is_empty (trim label)) && not (any is_control label)

unfoldable pub default_delete_selection : List AuditedEntry → NvramFacts → List Text
default_delete_selection audited facts =
    map (λ a. a.entry.id)
      (filter (λ a. safe_to_preselect a && is_none (delete_protection a facts)) audited)

unfoldable pub booted_renames : List AuditedEntry → Text → Text → List (Text × Text)
booted_renames audited booted label =
    map (λ a. (a.entry.id, label))
      (filter (λ a. is_none (rename_block a label))
        (filter (has_flag generic_label)
          (filter (λ a. eq_ignore_ascii_case a.entry.id booted) audited)))

unfoldable pub branding_renames : List AuditedEntry → NvramFacts → Text → List (Text × Text)
unfolding booted_renames
branding_renames audited facts pretty_name =
    if not (label_is_valid (trim pretty_name)) then [] else elim facts.boot_current [
      | none ↦ []
      | some booted ↦ booted_renames audited booted (trim pretty_name)
    ]

unfoldable pub find_entry : List AuditedEntry → Text → Result PlanError AuditedEntry
find_entry audited id = elim (find? (λ a. eq_ignore_ascii_case a.entry.id id) audited) [
  | none ↦ err (unknown_entry id)
  | some a ↦ ok a
]

unfoldable pub delete_op : NvramFacts → Text → AuditedEntry → Result PlanError PlannedOp
delete_op facts id a = elim (delete_protection a facts) [
  | some protection ↦ err (protected_entry id protection)
  | none ↦ ok (delete a.entry.id a.entry.label a.flags)
]

-- One round of the loop over the ids to delete.
unfoldable pub plan_delete :
    List AuditedEntry
    → NvramFacts
    → List (Text × Text)
    → List PlannedOp
    → Text
    → Result PlanError (List PlannedOp)
unfolding delete_op
plan_delete audited facts renames ops id = find_entry audited id >>= λ a.
    if any (λ r. eq_ignore_ascii_case r.0 id) renames
    then err (conflicting_ops id)
    else (delete_op facts id a >>= λ op. ok (ops ++ (op ∷ [])))

unfoldable pub rename_op : Text → AuditedEntry → Text → Result PlanError PlannedOp
rename_op id a label = elim (rename_block a label) [
  | some block ↦ err (not_renameable id block)
  | none ↦ elim a.entry.loader_path [
    | none ↦ err panicked
    | some p ↦ ok (rename a.entry.id a.entry.label label p)
  ]
]

-- One round of the loop over the renames.
unfoldable pub plan_rename :
    List AuditedEntry → List PlannedOp → Text × Text → Result PlanError (List PlannedOp)
unfolding rename_op
plan_rename audited ops (id, new_label) = find_entry audited id >>= λ a.
    if not (label_is_valid (trim new_label))
    then err (invalid_label id (trim new_label))
    else (rename_op id a (trim new_label) >>= λ op. ok (ops ++ (op ∷ [])))

unfoldable pub loader_entries : List AuditedEntry → ℕ
loader_entries audited = length (
    filter (λ a. is_some a.entry.loader_path)
      (filter (λ a. not (has_flag firmware_managed a)) audited))

unfoldable pub booted_entry_has_no_loader : List AuditedEntry → NvramFacts → Bool
booted_entry_has_no_loader audited facts =
    is_some_and facts.boot_current
      (λ id. any (λ a. eq_ignore_ascii_case a.entry.id id && is_none a.entry.loader_path) audited)

-- The audit calls every loader dead, which says that it looked at the wrong file system.
unfoldable pub evidence_implausible : List AuditedEntry → NvramFacts → Bool
evidence_implausible audited facts =
    ltb 0 (loader_entries audited)
    && not (booted_entry_has_no_loader audited facts)
    && not (any is_bootable audited)

unfoldable pub bootable_after : List AuditedEntry → List Text → List AuditedEntry
bootable_after audited ids =
    filter (λ a. is_bootable a && not (any (λ id. eq_ignore_ascii_case id a.entry.id) ids)) audited

unfoldable pub check_last :
    List AuditedEntry → List Text → List PlannedOp → Result PlanError CleanupPlan
check_last audited ids ops =
    if ltb 0 (length (filter is_bootable audited)) && length (bootable_after audited ids) == 0
    then err removes_last_bootable_entry
    else ok (record { ops = ops })

unfoldable pub plan_cleanup :
    List AuditedEntry → NvramFacts → CleanupSelection → Result PlanError CleanupPlan
unfolding plan_delete plan_rename check_last
plan_cleanup audited facts selection =
    if is_empty selection.delete_ids && is_empty selection.renames
    then ok (record { ops = [] })
    else if evidence_implausible audited facts
    then err (esp_evidence_implausible (loader_entries audited))
    else (for_each (plan_delete audited facts selection.renames) selection.delete_ids []
        >>= λ deletes.
            (for_each (plan_rename audited) selection.renames deletes
              >>= check_last audited selection.delete_ids))
