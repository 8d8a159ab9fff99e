-- ===== src/PackageEtc/Ids.antt =====
-- The ids of package_etc.rs: `next_free_id`, `record_mapping` and the loop over the human users.
use bootc_migrate.Prelude.{
  ℕ, zero, suc, ◌+◌, Option, none, some, List, [], ◌∷◌, ◌++◌, ltb, ◌==◌, if◌then◌else◌, length,
  Result, ok, err, ◌>>=◌,
}
use bootc_migrate.Text.{Text, u32_bound}
use bootc_migrate.Remap.Plan.{holds, uid_kind, RemapEntry}
use bootc_migrate.PackageEtc.Accounts.{PasswdLine}

-- `saturating_add(1)` on a u32.
unfoldable pub saturating_next : ℕ → ℕ
saturating_next n = if ltb (n + 1) u32_bound then n + 1 else n

unfoldable pub free_from : ℕ → List ℕ → ℕ → ℕ
unfolding saturating_next
free_from zero used candidate = candidate
free_from (suc fuel) used candidate =
    let rest = free_from fuel used (saturating_next candidate) in
    if holds used candidate then rest else candidate

-- The id and the ids in use with it. The loop passes each id in use at most once, so that many
-- rounds and one are enough; where no id up to the largest one is free the program's loop does not
-- end.
unfoldable pub next_free_id : List ℕ → ℕ → ℕ × List ℕ
unfolding free_from
next_free_id used minimum =
    let candidate = free_from (suc (length used)) used minimum in (candidate, candidate ∷ used)

pub data MergeError : Type 0 where
  no_target_accounts no_target_groups : MergeError
  account_in_both : Text → MergeError
  two_mappings : ℕ → ℕ → ℕ → MergeError

-- A `BTreeMap` of ids; an entry in front replaces those behind it.
unfoldable pub id_get : ℕ → List (ℕ × ℕ) → Option ℕ
id_get old [] = none
id_get old ((k, v) ∷ m) = let rest = id_get old m in if old == k then some v else rest

unfoldable pub mapped : ℕ → ℕ → List (ℕ × ℕ) → Option ℕ → Result MergeError (List (ℕ × ℕ))
mapped old new m none = ok ((old, new) ∷ m)
mapped old new m (some previous) =
    if previous == new then ok ((old, new) ∷ m) else err (two_mappings old previous new)

unfoldable pub record_mapping : ℕ → ℕ → List (ℕ × ℕ) → Result MergeError (List (ℕ × ℕ))
unfolding mapped id_get
record_mapping old new m = mapped old new m (id_get old m)

-- The ids in use, the mapping and the remaps of one kind.
pub record Allocation : Type 0 where
  pub used : List ℕ
  pub mapping : List (ℕ × ℕ)
  pub remaps : List RemapEntry

-- A fresh id, taken into use, where the target owns the old one.
unfoldable pub choose_id : List ℕ → ℕ → ℕ → List ℕ → ℕ × List ℕ
unfolding next_free_id
choose_id owned minimum id used = if holds owned id then next_free_id used minimum else (id, used)

unfoldable pub note_user : PasswdLine → Allocation → ℕ × List ℕ → Result MergeError Allocation
unfolding record_mapping
note_user user a (chosen, used) =
    if chosen == user.uid
    then ok (record a { used = used })
    else (record_mapping user.uid chosen a.mapping >>= λ m. ok (record {
      used = used;
      mapping = m;
      remaps =
          a.remaps
          ++ (record { name = user.name; kind = uid_kind; old_id = user.uid; new_id = chosen }
              ∷ []);
    }))

unfoldable pub map_user : List ℕ → ℕ → Allocation → PasswdLine → Result MergeError Allocation
unfolding note_user choose_id
map_user owned uid_min a user = note_user user a (choose_id owned uid_min user.uid a.used)

abbrev pub or_old : ℕ → Option ℕ → ℕ
or_old old none = old
or_old old (some new) = new

-- The id that a file of the user has in the merged tables.
unfoldable pub final_id : List (ℕ × ℕ) → ℕ → ℕ
unfolding id_get
final_id m id = or_old id (id_get id m)
