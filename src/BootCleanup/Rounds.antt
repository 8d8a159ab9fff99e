-- ===== src/BootCleanup/Rounds.antt =====
-- What one round of the loops of `plan_cleanup` adds to the plan.
use mathlib.Core.List.{Memᴰ}
use bootc_migrate.Prelude.{
  ◌≡◌, refl, ◌∙◌, Bool, true, false, ◌&&◌, not, Option, none, some, List, [], ◌∷◌, ◌++◌, arith,
  if◌then◌else◌, All, is_none, is_some_and, any, find?, find?-eq-some, ok, err, ◌>>=◌, >>=-eq-ok,
  find?-mem,
}
use bootc_migrate.Text.{Text, text_eq, trim, eq_ignore_ascii_case}
use bootc_migrate.BootCleanup.Audit.{
  dead, firmware_managed, AuditedEntry, has_flag, is_ostree_rollback_entry,
}
use bootc_migrate.BootCleanup.Plan.{
  DeleteProtection, NvramFacts, PlannedOp, delete, rename, PlanError, panicked, delete_protection,
  rename_block, RenameBlock, label_is_valid, find_entry, delete_op, plan_delete, rename_op,
  plan_rename,
}

-- What may be deleted: an audited entry that the firmware does not own, that was not booted from,
-- and that rollback does not need.
pub record MayDelete (audited : List AuditedEntry) (facts : NvramFacts) (a : AuditedEntry)
    : Type 0 where
  pub listed : Memᴰ a audited
  pub not_firmware : has_flag firmware_managed a ≡ false
  pub not_booted : is_some_and facts.boot_current (λ c. eq_ignore_ascii_case c a.entry.id) ≡ false
  pub not_rollback :
      is_some_and facts.rollback_entry_id (λ r. eq_ignore_ascii_case r a.entry.id) ≡ false
  pub no_live_rollback :
      (not (has_flag dead a) && is_ostree_rollback_entry a.entry.label a.entry.loader_path) ≡ false

-- What may be renamed, to what: an audited entry with a live loader, to a new and usable label.
pub record MayRename (audited : List AuditedEntry) (a : AuditedEntry) (label loader : Text)
    : Type 0 where
  pub listed : Memᴰ a audited
  pub not_firmware : has_flag firmware_managed a ≡ false
  pub live : has_flag dead a ≡ false
  pub same_loader : a.entry.loader_path ≡ some loader
  pub new_label : text_eq a.entry.label label ≡ false
  pub usable : label_is_valid label ≡ true

abbrev pub IsSafe : List AuditedEntry → NvramFacts → PlannedOp → Type 0
IsSafe audited facts (delete id label flags) =
    (a : AuditedEntry) × MayDelete audited facts a
    × (id ≡ a.entry.id)
    × (label ≡ a.entry.label)
    × (flags ≡ a.flags)
IsSafe audited facts (rename id from_label to_label loader) =
    (a : AuditedEntry) × MayRename audited a to_label loader
    × (id ≡ a.entry.id)
    × (from_label ≡ a.entry.label)

delete_protection-eq-none :
    (audited : List AuditedEntry) (facts : NvramFacts) (a : AuditedEntry)
    → Memᴰ a audited
    → delete_protection a facts ≡ none
    → MayDelete audited facts a
unfolding delete_protection
delete_protection-eq-none audited facts a m h = record {
  listed = m;
  not_firmware = ground arith;
  not_booted = ground arith;
  not_rollback = ground arith;
  no_live_rollback = ground arith;
}

find_entry-mem :
    (audited : List AuditedEntry) (id : Text) {a : AuditedEntry}
    → find_entry audited id ≡ ok a
    → Memᴰ a audited × (eq_ignore_ascii_case a.entry.id id ≡ true)
unfolding find_entry
find_entry-mem audited id {a} h =
    go (find? (λ a. eq_ignore_ascii_case a.entry.id id) audited) refl h
  where
    go :
        (o : Option AuditedEntry)
        → find? (λ a. eq_ignore_ascii_case a.entry.id id) audited ≡ o
        → (elim o [ none ↦ err (PlanError.unknown_entry id) | some b ↦ ok b ]) ≡ ok a
        → Memᴰ a audited × (eq_ignore_ascii_case a.entry.id id ≡ true)
    go none e k = cc
    go (some b) e k =
        let same : some b ≡ some a = cc in
        let found = e ∙ same in
        (
          find?-mem (λ a. eq_ignore_ascii_case a.entry.id id) audited found,
          find?-eq-some (λ a. eq_ignore_ascii_case a.entry.id id) audited found,
        )

pub append-All {ℓ κ} :
    {A : Type ℓ} (P : A → Type κ) (xs : List A) (x : A) → All P xs → P x → All P (xs ++ (x ∷ []))
append-All P [] x hs h = (h, tt)
append-All P (y ∷ xs) x hs h = (hs.0, append-All P xs x hs.1 h)

-- A round of the first loop adds one safe deletion, of an entry that has the id asked for.
pub plan_delete-step :
    (audited : List AuditedEntry) (facts : NvramFacts) (renames : List (Text × Text))
    (ops : List PlannedOp) (id : Text) {ops' : List PlannedOp}
    → plan_delete audited facts renames ops id ≡ ok ops'
    → (a : AuditedEntry) × MayDelete audited facts a
      × (eq_ignore_ascii_case a.entry.id id ≡ true)
      × (ops' ≡ ops ++ (delete a.entry.id a.entry.label a.flags ∷ []))
unfolding plan_delete
plan_delete-step audited facts renames ops id {ops'} h =
    let (a, found, rest) =
      >>=-eq-ok (find_entry audited id)
        (λ a.
          if any (λ r. eq_ignore_ascii_case r.0 id) renames
          then err (PlanError.conflicting_ops id)
          else (delete_op facts id a >>= λ op. ok (ops ++ (op ∷ []))))
        h in
    let (m, same) = find_entry-mem audited id found in
    go a m same (any (λ r. eq_ignore_ascii_case r.0 id) renames) (delete_protection a facts) refl
      rest
  where
    go :
        (a : AuditedEntry)
        → Memᴰ a audited
        → eq_ignore_ascii_case a.entry.id id ≡ true
        → (conflict : Bool) (o : Option DeleteProtection) → delete_protection a facts ≡ o
        → (if conflict
            then err (PlanError.conflicting_ops id)
            else ((elim o [
              | some protection ↦ err (PlanError.protected_entry id protection)
              | none ↦ ok (delete a.entry.id a.entry.label a.flags)
            ])
                >>= λ op. ok (ops ++ (op ∷ []))))
          ≡ ok ops'
        → (a : AuditedEntry) × MayDelete audited facts a
          × (eq_ignore_ascii_case a.entry.id id ≡ true)
          × (ops' ≡ ops ++ (delete a.entry.id a.entry.label a.flags ∷ []))
    go a m same true o e k = cc
    go a m same false (some p) e k = cc
    go a m same false none e k = (a, delete_protection-eq-none audited facts a m e, same, cc)

rename_block-eq-none :
    (a : AuditedEntry) (label : Text)
    → rename_block a label ≡ none
    → (has_flag firmware_managed a ≡ false)
      × (is_none a.entry.loader_path ≡ false)
      × (has_flag dead a ≡ false)
      × (text_eq a.entry.label label ≡ false)
unfolding rename_block
rename_block-eq-none a label h = (ground arith, ground arith, ground arith, ground arith)

rename_op-eq-ok :
    (audited : List AuditedEntry) (id : Text) (a : AuditedEntry) (label : Text) {op : PlannedOp}
    → Memᴰ a audited
    → label_is_valid label ≡ true
    → rename_op id a label ≡ ok op
    → (p : Text) × MayRename audited a label p × (op ≡ rename a.entry.id a.entry.label label p)
unfolding rename_op
rename_op-eq-ok audited id a label {op} m valid h =
    go (rename_block a label) a.entry.loader_path refl refl h
  where
    go :
        (o : Option RenameBlock) (l : Option Text)
        → rename_block a label ≡ o
        → a.entry.loader_path ≡ l
        → (elim o [
          | some block ↦ err (PlanError.not_renameable id block)
          | none ↦ elim l [
            | none ↦ err panicked
            | some p ↦ ok (rename a.entry.id a.entry.label label p)
          ]
        ])
          ≡ ok op
        → (p : Text) × MayRename audited a label p × (op ≡ rename a.entry.id a.entry.label label p)
    go (some b) l e f k = cc
    go none none e f k = cc
    go none (some p) e f k =
        let (firmware, path, live, fresh) = rename_block-eq-none a label e in
        (
          p,
          record {
            listed = m;
            not_firmware = firmware;
            live = live;
            same_loader = f;
            new_label = fresh;
            usable = valid;
          },
          cc,
        )

-- A round of the second loop adds one safe rename.
pub plan_rename-step :
    (audited : List AuditedEntry) (ops : List PlannedOp) (r : Text × Text) {ops' : List PlannedOp}
    → plan_rename audited ops r ≡ ok ops'
    → (a : AuditedEntry) × (p : Text) × MayRename audited a (trim r.1) p
      × (ops' ≡ ops ++ (rename a.entry.id a.entry.label (trim r.1) p ∷ []))
unfolding plan_rename
plan_rename-step audited ops (id, new_label) {ops'} h =
    let (a, found, rest) =
      >>=-eq-ok (find_entry audited id)
        (λ a.
          if not (label_is_valid (trim new_label))
          then err (PlanError.invalid_label id (trim new_label))
          else (rename_op id a (trim new_label) >>= λ op. ok (ops ++ (op ∷ []))))
        h in
    let (m, same) = find_entry-mem audited id found in
    go a m (label_is_valid (trim new_label)) refl rest
  where
    go :
        (a : AuditedEntry)
        → Memᴰ a audited
        → (valid : Bool) → label_is_valid (trim new_label) ≡ valid
        → (if not valid
            then err (PlanError.invalid_label id (trim new_label))
            else (rename_op id a (trim new_label) >>= λ op. ok (ops ++ (op ∷ []))))
          ≡ ok ops'
        → (a : AuditedEntry) × (p : Text) × MayRename audited a (trim new_label) p
          × (ops' ≡ ops ++ (rename a.entry.id a.entry.label (trim new_label) p ∷ []))
    go a m false e k = cc
    go a m true e k =
        let (op, made, out) =
          >>=-eq-ok (rename_op id a (trim new_label)) (λ op. ok (ops ++ (op ∷ []))) k in
        let (p, may, shape) = rename_op-eq-ok audited id a (trim new_label) m e made in
        (a, p, may, ground (arith, out, shape))
