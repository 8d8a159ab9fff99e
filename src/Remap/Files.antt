-- ===== src/Remap/Files.antt =====
-- What applying a plan does to the files.
use bootc_migrate.Prelude.{
  ℕ, ◌≡◌, refl, sym, ◌∙◌, Bool, true, false, ◌||◌, Option, none, some, List, [], ◌∷◌, map, arith,
  ltb, if◌then◌else◌, All,
}
use bootc_migrate.Text.{is_empty}
use bootc_migrate.Remap.Accounts.{PasswdEntry, GroupEntry}
use bootc_migrate.Remap.Plan.{
  uid_kind, gid_kind, RemapEntry, RemapStep, RemapPlan, holds, scratch_start, build_steps, used_ids,
  plan_remap,
}
use bootc_migrate.Remap.Apply.{
  Owned, apply_to_file, apply_single_step, apply_to_dirs, run_steps, apply_remap_plan_to_dirs,
}
use bootc_migrate.Remap.Steps.{renumber, step_id, run_ids, InUse, build_steps-renumber}
use bootc_migrate.Remap.Entries.{IsEntry, plan_remap-entries}

-- The owner and the group of a file renumbered, unless its chown is refused.
unfoldable pub renumber_file : List RemapEntry → Owned → Owned
renumber_file remaps f =
    if f.refuses
    then f
    else record f { uid = renumber uid_kind remaps f.uid; gid = renumber gid_kind remaps f.gid }

-- An id that some table has, or that lies below the scratch ids.
abbrev pub is_accounted : List ℕ → ℕ → Bool
is_accounted used n = ltb n scratch_start || holds used n

-- Every id that the files carry is such an id.
abbrev pub AllAccounted : List ℕ → List (Option (List Owned)) → Type 0
AllAccounted used [] = Unit
AllAccounted used (none ∷ ds) = AllAccounted used ds
AllAccounted used (some d ∷ ds) =
    All (λ f. (is_accounted used f.uid ≡ true) × (is_accounted used f.gid ≡ true)) d
    × AllAccounted used ds

abbrev pub map_dirs : (Owned → Owned) → List (Option (List Owned)) → List (Option (List Owned))
map_dirs g [] = []
map_dirs g (none ∷ ds) = none ∷ map_dirs g ds
map_dirs g (some d ∷ ds) = some (map g d) ∷ map_dirs g ds

run_file : List RemapStep → Owned → Owned
run_file [] f = f
run_file (step ∷ steps) f = run_file steps (apply_to_file step f)

apply_single_step-map :
    (step : RemapStep) (fs : List Owned)
    → (apply_single_step step fs).0 ≡ map (apply_to_file step) fs
unfolding apply_single_step
apply_single_step-map step [] = refl
apply_single_step-map step (f ∷ fs) = rw (apply_single_step-map step fs)

apply_to_dirs-map :
    (step : RemapStep) (ds : List (Option (List Owned)))
    → (apply_to_dirs step ds).0 ≡ map_dirs (apply_to_file step) ds
unfolding apply_to_dirs
apply_to_dirs-map step [] = refl
apply_to_dirs-map step (none ∷ ds) = rw (apply_to_dirs-map step ds)
apply_to_dirs-map step (some d ∷ ds) = rw (apply_to_dirs-map step ds, apply_single_step-map step d)

map_dirs-map_dirs :
    (g h : Owned → Owned) (ds : List (Option (List Owned)))
    → map_dirs h (map_dirs g ds) ≡ map_dirs (λ f. h (g f)) ds
map_dirs-map_dirs g h [] = refl
map_dirs-map_dirs g h (none ∷ ds) = rw (map_dirs-map_dirs g h ds)
map_dirs-map_dirs g h (some d ∷ ds) = rw (map_dirs-map_dirs g h ds, fuse d)
  where
    fuse : (fs : List Owned) → map h (map g fs) ≡ map (λ f. h (g f)) fs
    fuse [] = refl
    fuse (f ∷ fs) = rw (fuse fs)

map_dirs-id : (ds : List (Option (List Owned))) → map_dirs (λ f. f) ds ≡ ds
map_dirs-id [] = refl
map_dirs-id (none ∷ ds) = rw (map_dirs-id ds)
map_dirs-id (some d ∷ ds) = rw (map_dirs-id ds, same d)
  where
    same : (fs : List Owned) → map (λ f. f) fs ≡ fs
    same [] = refl
    same (f ∷ fs) = rw (same fs)

run_steps-map :
    (steps : List RemapStep) (ds : List (Option (List Owned)))
    → (run_steps steps ds).0 ≡ map_dirs (run_file steps) ds
unfolding run_steps run_file
run_steps-map [] ds = sym (map_dirs-id ds)
run_steps-map (step ∷ steps) ds =
    run_steps-map steps (apply_to_dirs step ds).0
    ∙ rw (apply_to_dirs-map step ds) (map_dirs-map_dirs (apply_to_file step) (run_file steps) ds)

apply_to_file-ids :
    (step : RemapStep) (f : Owned)
    → ((apply_to_file step f).refuses ≡ f.refuses)
      × ((apply_to_file step f).uid ≡ (if f.refuses then f.uid else step_id uid_kind step f.uid))
      × ((apply_to_file step f).gid ≡ (if f.refuses then f.gid else step_id gid_kind step f.gid))
unfolding apply_to_file
apply_to_file-ids step f = (ground arith, ground arith, ground arith)

-- The owner and the group go through the steps of their kind.
run_file-ids :
    (steps : List RemapStep) (f : Owned)
    → ((run_file steps f).refuses ≡ f.refuses)
      × ((run_file steps f).uid ≡ (if f.refuses then f.uid else run_ids uid_kind steps f.uid))
      × ((run_file steps f).gid ≡ (if f.refuses then f.gid else run_ids gid_kind steps f.gid))
unfolding run_file run_ids
run_file-ids [] f = (refl, ground arith, ground arith)
run_file-ids (step ∷ steps) f =
    let (r, u, g) = apply_to_file-ids step f in
    let (r', u', g') = run_file-ids steps (apply_to_file step f) in
    (r' ∙ r, ground (arith, r, u, u'), ground (arith, r, g, g'))

Owned-eq : (f g : Owned) → f.refuses ≡ g.refuses → f.uid ≡ g.uid → f.gid ≡ g.gid → f ≡ g
Owned-eq f g r u i = ground arith

-- The steps of a plan renumber a file as its entries say.
run_file-renumber :
    (remaps : List RemapEntry) (used : List ℕ) (f : Owned)
    → InUse used remaps
    → is_accounted used f.uid ≡ true
    → is_accounted used f.gid ≡ true
    → run_file (build_steps remaps used) f ≡ renumber_file remaps f
unfolding renumber_file
run_file-renumber remaps used f h u g =
    let (r', u', g') = run_file-ids (build_steps remaps used) f in
    let uids = build_steps-renumber uid_kind remaps used f.uid h u in
    let gids = build_steps-renumber gid_kind remaps used f.gid h g in
    Owned-eq (run_file (build_steps remaps used) f) (renumber_file remaps f) (ground (arith, r'))
      (ground (arith, u', uids)) (ground (arith, g', gids))

map_dirs-renumber :
    (remaps : List RemapEntry) (used : List ℕ) (ds : List (Option (List Owned)))
    → InUse used remaps
    → AllAccounted used ds
    → map_dirs (run_file (build_steps remaps used)) ds ≡ map_dirs (renumber_file remaps) ds
map_dirs-renumber remaps used [] h a = refl
map_dirs-renumber remaps used (none ∷ ds) h a = rw (map_dirs-renumber remaps used ds h a)
map_dirs-renumber remaps used (some d ∷ ds) h a =
    rw (map_dirs-renumber remaps used ds h a.1, files d a.0)
  where
    files :
        (fs : List Owned)
        → All (λ f. (is_accounted used f.uid ≡ true) × (is_accounted used f.gid ≡ true)) fs
        → map (run_file (build_steps remaps used)) fs ≡ map (renumber_file remaps) fs
    files [] b = refl
    files (f ∷ fs) b = rw (run_file-renumber remaps used f h b.0.0 b.0.1, files fs b.1)

-- With no entry nothing changes, and the code then runs no step.
no_entries :
    (used : List ℕ) (ds : List (Option (List Owned)))
    → AllAccounted used ds
    → ds ≡ map_dirs (renumber_file []) ds
unfolding build_steps run_file
no_entries used ds a = sym (map_dirs-id ds) ∙ map_dirs-renumber [] used ds tt a

has_steps :
    (e : RemapEntry) (es : List RemapEntry) (used : List ℕ)
    → is_empty (build_steps (e ∷ es) used) ≡ false
unfolding build_steps
has_steps e es used = refl

entries-InUse : (used : List ℕ) (es : List RemapEntry) → All (IsEntry used) es → InUse used es
entries-InUse used [] h = tt
entries-InUse used (e ∷ es) h = ((h.0.old_used, h.0.new_used), entries-InUse used es h.1)

apply-build :
    (plan : RemapPlan) (used : List ℕ) (remaps : List RemapEntry) (ds : List (Option (List Owned)))
    → plan.remaps ≡ remaps
    → plan.steps ≡ build_steps remaps used
    → InUse used remaps
    → AllAccounted used ds
    → (apply_remap_plan_to_dirs ds plan).0 ≡ map_dirs (renumber_file remaps) ds
unfolding apply_remap_plan_to_dirs
apply-build plan used [] ds hr hs h a = rw hr (no_entries used ds a)
apply-build plan used (e ∷ es) ds hr hs h a =
    rw (hr, hs, has_steps e es used)
      (run_steps-map (build_steps (e ∷ es) used) ds ∙ map_dirs-renumber (e ∷ es) used ds h a)

-- Applying the plan made from the account tables gives every file the owner and the group that the
-- entries name for its old ones, whatever cycles they make up, and leaves a file whose chown is
-- refused as it was. The files' ids have to stand in a table or lie below the scratch ids.
pub apply-plan_remap :
    (sp : List PasswdEntry) (sg : List GroupEntry) (tp : List PasswdEntry) (tg : List GroupEntry)
    (ds : List (Option (List Owned)))
    → AllAccounted (used_ids sp sg tp tg) ds
    → (apply_remap_plan_to_dirs ds (plan_remap sp sg tp tg)).0
      ≡ map_dirs (renumber_file (plan_remap sp sg tp tg).remaps) ds
unfolding plan_remap
apply-plan_remap sp sg tp tg ds a =
    apply-build (plan_remap sp sg tp tg) (used_ids sp sg tp tg) (plan_remap sp sg tp tg).remaps ds
      refl refl (entries-InUse (used_ids sp sg tp tg) _ (plan_remap-entries sp tp sg tg)) a
