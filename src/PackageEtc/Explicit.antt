-- ===== src/PackageEtc/Explicit.antt =====
-- `plan_explicit` of remap.rs: the plan for remaps that its caller has chosen.
use bootc_migrate.Prelude.{ℕ, Bool, ◌&&◌, ◌||◌, List, [], ◌∷◌, ltb, ◌==◌, if◌then◌else◌}
use bootc_migrate.Text.{text_le}
use bootc_migrate.Remap.Plan.{
  IdKind, uid_kind, gid_kind, same_kind, RemapEntry, RemapPlan, build_steps, empty_plan,
}

abbrev kind_order : IdKind → ℕ
kind_order uid_kind = 0
kind_order gid_kind = 1

-- The order by kind, old id, new id and name.
unfoldable pub entry_le : RemapEntry → RemapEntry → Bool
unfolding text_le
entry_le a b =
    ltb (kind_order a.kind) (kind_order b.kind)
    || kind_order a.kind == kind_order b.kind
      && (ltb a.old_id b.old_id
          || a.old_id == b.old_id
            && (ltb a.new_id b.new_id || a.new_id == b.new_id && text_le a.name b.name))

unfoldable pub insert_entry : RemapEntry → List RemapEntry → List RemapEntry
unfolding entry_le
insert_entry e [] = e ∷ []
insert_entry e (f ∷ fs) =
    let rest = insert_entry e fs in if entry_le e f then e ∷ f ∷ fs else f ∷ rest

unfoldable pub sort_entries : List RemapEntry → List RemapEntry
unfolding insert_entry
sort_entries [] = []
sort_entries (e ∷ es) = insert_entry e (sort_entries es)

abbrev same_change : RemapEntry → RemapEntry → Bool
same_change a b = same_kind a.kind b.kind && a.old_id == b.old_id && a.new_id == b.new_id

-- `dedup_by`: of neighbours with one change the first one stays.
unfoldable pub dedup_after : RemapEntry → List RemapEntry → List RemapEntry
dedup_after kept [] = []
dedup_after kept (e ∷ es) =
    let same = same_change e kept in
    let rest = dedup_after (if same then kept else e) es in if same then rest else e ∷ rest

unfoldable pub dedup_entries : List RemapEntry → List RemapEntry
unfolding dedup_after
dedup_entries [] = []
dedup_entries (e ∷ es) = e ∷ dedup_after e es

unfoldable pub plan_explicit : List RemapEntry → List ℕ → RemapPlan
unfolding dedup_entries sort_entries build_steps
plan_explicit remaps used_ids =
    let chosen = dedup_entries (sort_entries remaps) in
    record empty_plan { remaps = chosen; steps = build_steps chosen used_ids }
