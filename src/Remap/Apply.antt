-- ===== src/Remap/Apply.antt =====
-- Applying the steps: `apply_remap_plan_to_dirs` and `apply_single_step` of remap.rs.
use bootc_migrate.Prelude.{
  ℕ, suc, ◌+◌, Bool, ◌&&◌, ◌||◌, not, Option, none, some, List, [], ◌∷◌, ◌==◌, if◌then◌else◌,
}
use bootc_migrate.Text.{is_empty}
use bootc_migrate.Remap.Plan.{IdKind, uid_kind, gid_kind, RemapStep, RemapPlan}

-- A file or directory that the walk reaches. `refuses` says that the system rejects its chown.
pub record Owned : Type 0 where
  pub uid : ℕ
  pub gid : ℕ
  pub refuses : Bool

unfoldable pub step_matches : RemapStep → IdKind → Owned → Bool
step_matches step uid_kind f = f.uid == step.from
step_matches step gid_kind f = f.gid == step.from

unfoldable pub chown : RemapStep → IdKind → Owned → Owned
chown step uid_kind f = record f { uid = step.to }
chown step gid_kind f = record f { gid = step.to }

unfoldable pub apply_to_file : RemapStep → Owned → Owned
unfolding step_matches chown
apply_to_file step f =
    if step_matches step step.kind f && not f.refuses then chown step step.kind f else f

-- The files after one step, and how many it changed.
unfoldable pub apply_single_step : RemapStep → List Owned → List Owned × ℕ
unfolding apply_to_file
apply_single_step step [] = ([], 0)
apply_single_step step (f ∷ fs) =
    let (fs', count) = apply_single_step step fs in
    (
      apply_to_file step f ∷ fs',
      if step_matches step step.kind f && not f.refuses then suc count else count,
    )

-- A directory that does not exist is passed over.
unfoldable pub apply_to_dirs :
    RemapStep → List (Option (List Owned)) → List (Option (List Owned)) × ℕ
unfolding apply_single_step
apply_to_dirs step [] = ([], 0)
apply_to_dirs step (none ∷ ds) = let (ds', count) = apply_to_dirs step ds in (none ∷ ds', count)
apply_to_dirs step (some d ∷ ds) =
    let (ds', count) = apply_to_dirs step ds in
    let (d', changed) = apply_single_step step d in (some d' ∷ ds', changed + count)

-- Every step runs over every directory before the next one starts.
unfoldable pub run_steps :
    List RemapStep → List (Option (List Owned)) → List (Option (List Owned)) × ℕ
unfolding apply_to_dirs
run_steps [] ds = (ds, 0)
run_steps (step ∷ steps) ds =
    let (ds', changed) = apply_to_dirs step ds in
    let (ds'', count) = run_steps steps ds' in (ds'', changed + count)

unfoldable pub apply_remap_plan_to_dirs :
    List (Option (List Owned)) → RemapPlan → List (Option (List Owned)) × ℕ
unfolding run_steps
apply_remap_plan_to_dirs ds plan =
    if is_empty plan.remaps || is_empty plan.steps then (ds, 0) else run_steps plan.steps ds
