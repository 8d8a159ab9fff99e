-- ===== src/BootCleanup/Safety.antt =====
-- The safety rules hold of every plan that is made.
use mathlib.Core.List.{Memᴰ}
use bootc_migrate.Prelude.{
  ◌≡◌, refl, sym, ◌∙◌, subst, ◌⊎◌, inl, inr, Bool, true, false, ◌&&◌, List, [], arith, ltb, ◌==◌,
  if◌then◌else◌, All, length, any, filter, ok, err, ◌>>=◌, for_each, >>=-eq-ok, for_each-inv,
  any_of_mem,
}
use bootc_migrate.Text.{
  Text, is_empty, eq_ignore_ascii_case, eq_ignore_ascii_case_comm, eq_ignore_ascii_case_trans,
}
use bootc_migrate.BootCleanup.Audit.{AuditedEntry}
use bootc_migrate.BootCleanup.Plan.{
  NvramFacts, PlannedOp, delete, rename, CleanupPlan, CleanupSelection, PlanError, is_bootable,
  loader_entries, plan_delete, plan_rename, evidence_implausible, bootable_after, check_last,
  plan_cleanup,
}
use bootc_migrate.BootCleanup.Rounds.{IsSafe, append-All, plan_delete-step, plan_rename-step}

check_last-eq-ok :
    (audited : List AuditedEntry) (ids : List Text) (ops : List PlannedOp) {plan : CleanupPlan}
    → check_last audited ids ops ≡ ok plan
    → ((ltb 0 (length (filter is_bootable audited)) && length (bootable_after audited ids) == 0)
        ≡ false)
      × (plan.ops ≡ ops)
unfolding check_last
check_last-eq-ok audited ids ops h = (ground arith, ground arith)

-- Whether an operation deletes an entry of the id, its case ignored.
abbrev pub deletes : Text → PlannedOp → Bool
deletes id (delete i label flags) = eq_ignore_ascii_case i id
deletes id (rename i from_label to_label loader) = false

-- Every deletion is of an id that was asked for.
abbrev pub Asked : List Text → PlannedOp → Type 0
Asked ids op = (j : Text) → deletes j op ≡ true → any (λ id. eq_ignore_ascii_case id j) ids ≡ true

module _ (audited : List AuditedEntry) (facts : NvramFacts) (selection : CleanupSelection) where
  abbrev pub Good : List PlannedOp → Type 0
  Good ops = All (IsSafe audited facts) ops × All (Asked selection.delete_ids) ops

  delete_round :
      (ops : List PlannedOp) (id : Text) (ops' : List PlannedOp)
      → Memᴰ id selection.delete_ids
      → Good ops
      → plan_delete audited facts selection.renames ops id ≡ ok ops'
      → Good ops'
  delete_round ops id ops' m good h =
      let (a, may, same, shape) = plan_delete-step audited facts selection.renames ops id h in
      subst Good (sym shape) (
        append-All (IsSafe audited facts) ops (delete a.entry.id a.entry.label a.flags) good.0
            (a, may, refl, refl, refl),
        append-All (Asked selection.delete_ids) ops (delete a.entry.id a.entry.label a.flags) good.1
            (λ j hit.
              any_of_mem (λ i. eq_ignore_ascii_case i j) m
                (eq_ignore_ascii_case_trans id a.entry.id j
                  (eq_ignore_ascii_case_comm id a.entry.id ∙ same) hit)),
      )

  rename_round :
      (ops : List PlannedOp) (r : Text × Text) (ops' : List PlannedOp)
      → Memᴰ r selection.renames
      → Good ops
      → plan_rename audited ops r ≡ ok ops'
      → Good ops'
  rename_round ops r ops' m good h =
      let (a, p, may, shape) = plan_rename-step audited ops r h in
      subst Good (sym shape) (
        append-All (IsSafe audited facts) ops _ good.0 (a, may, refl, refl),
        append-All (Asked selection.delete_ids) ops _ good.1 (λ j hit. absurd (cc)),
      )

  -- A plan is made of operations that passed every check, and the last check has passed too.
  pub plan_cleanup-eq-ok :
      {plan : CleanupPlan}
      → plan_cleanup audited facts selection ≡ ok plan
      → Good plan.ops
        × (((ltb 0 (length (filter is_bootable audited))
                && length (bootable_after audited selection.delete_ids) == 0)
              ≡ false)
            ⊎ (plan.ops ≡ []))
  unfolding plan_cleanup
  plan_cleanup-eq-ok {plan} h =
      go (is_empty selection.delete_ids && is_empty selection.renames)
        (evidence_implausible audited facts) h
    where
      go :
          (none_asked implausible : Bool)
          → (if none_asked
              then ok (record { ops = [] })
              else if implausible
              then err (PlanError.esp_evidence_implausible (loader_entries audited))
              else (for_each (plan_delete audited facts selection.renames) selection.delete_ids []
                  >>= λ deletes.
                      (for_each (plan_rename audited) selection.renames deletes
                        >>= check_last audited selection.delete_ids)))
            ≡ ok plan
          → Good plan.ops
            × (((ltb 0 (length (filter is_bootable audited))
                    && length (bootable_after audited selection.delete_ids) == 0)
                  ≡ false)
                ⊎ (plan.ops ≡ []))
      go true b k = let e : plan.ops ≡ [] = ground arith in (subst Good (sym e) (tt, tt), inr e)
      go false true k = cc
      go false false k =
          let (ds, first, later) =
            >>=-eq-ok
              (for_each (plan_delete audited facts selection.renames) selection.delete_ids [])
              (λ deletes.
                (for_each (plan_rename audited) selection.renames deletes
                  >>= check_last audited selection.delete_ids))
              k in
          let (ops, second, last) =
            >>=-eq-ok (for_each (plan_rename audited) selection.renames ds)
              (check_last audited selection.delete_ids) later in
          let deletes_good : Good ds =
            for_each-inv Good (plan_delete audited facts selection.renames) selection.delete_ids []
              delete_round (tt, tt) first in
          let good : Good ops =
            for_each-inv Good (plan_rename audited) selection.renames ds rename_round deletes_good
              second in
          let (kept, same) = check_last-eq-ok audited selection.delete_ids ops last in
          (subst Good (sym same) good, inl kept)

  -- Every deletion of a plan removes an audited entry that is neither owned by the firmware, nor
  -- the one booted from, nor the one that rollback uses, nor a live rollback loader. Every rename
  -- is of an audited entry with a live loader, keeps that loader and gives a new, usable label.
  pub plan_cleanup-IsSafe :
      {plan : CleanupPlan}
      → plan_cleanup audited facts selection ≡ ok plan
      → All (IsSafe audited facts) plan.ops
  plan_cleanup-IsSafe h = (plan_cleanup-eq-ok h).0.0
