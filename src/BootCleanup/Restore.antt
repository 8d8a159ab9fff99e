-- ===== src/BootCleanup/Restore.antt =====
-- Restoring a snapshot and rewriting `BootOrder`: the second half of boot_cleanup/plan.rs.
use bootc_migrate.Prelude.{
  Bool, true, false, ◌&&◌, not, Option, none, some, List, [], ◌∷◌, ◌++◌, map, if◌then◌else◌, any,
  filter, find?,
}
use bootc_migrate.Text.{Text, codes, text_eq, split_on, trim, is_empty, join, eq_ignore_ascii_case}
use bootc_migrate.BootCleanup.Audit.{BootEntry}

pub data RestoreOp : Type 0 where
  recreate : Text → Text → Text → RestoreOp
  set_boot_order : Text → RestoreOp

-- The reason is one text for every entry.
pub record UnrestorableEntry : Type 0 where
  pub id : Text
  pub label : Text

pub record RestorePlan : Type 0 where
  pub ops : List RestoreOp
  pub unrestorable : List UnrestorableEntry

unfoldable pub same_path : Option Text → Option Text → Bool
same_path none none = true
same_path none (some q) = false
same_path (some p) none = false
same_path (some p) (some q) = text_eq p q

unfoldable pub same_entry : BootEntry → BootEntry → Bool
unfolding same_path
same_entry a b = text_eq a.label b.label && same_path a.loader_path b.loader_path

-- What one entry of the backup adds in front of what the later ones add.
unfoldable pub restore_entry : BootEntry → Option Text → RestorePlan → RestorePlan
restore_entry e (some p) plan = record plan { ops = recreate e.id e.label p ∷ plan.ops }
restore_entry e none plan = record plan {
  unrestorable = record { id = e.id; label = e.label } ∷ plan.unrestorable;
}

unfoldable pub restore_entries : List BootEntry → List BootEntry → List RestoreOp → RestorePlan
unfolding restore_entry
restore_entries [] current last = record { ops = last; unrestorable = [] }
restore_entries (e ∷ es) current last =
    let rest = restore_entries es current last in
    if any (λ c. same_entry c e) current then rest else restore_entry e e.loader_path rest

unfoldable pub boot_order_op : Option Text → List RestoreOp
boot_order_op none = []
boot_order_op (some order) = set_boot_order order ∷ []

unfoldable pub plan_restore : List BootEntry → Option Text → List BootEntry → RestorePlan
unfolding restore_entries boot_order_op
plan_restore backup order current = restore_entries backup current (boot_order_op order)

-- The ids of a `BootOrder`; empty fields are dropped.
unfoldable pub order_ids : Text → List Text
order_ids order = filter (λ id. not (is_empty id)) (map trim (split_on b',' order))

remap_id : List (Text × Text) → Text → Text
remap_id remap id = elim (find? (λ r. eq_ignore_ascii_case r.0 id) remap) [
  | none ↦ id
  | some (old, new) ↦ new
]

abbrev comma : Text
comma = codes ","

unfoldable pub remap_boot_order : Text → List (Text × Text) → Text
unfolding remap_id
remap_boot_order order remap = join comma (map (remap_id remap) (order_ids order))

unfoldable pub merged_ids : List Text → List Text → List Text
merged_ids restored current =
    restored ++ filter (λ id. not (any (λ r. eq_ignore_ascii_case r id) restored)) current

unfoldable pub merge_boot_order : Text → Text → Text
merge_boot_order restored current = join comma (merged_ids (order_ids restored) (order_ids current))
