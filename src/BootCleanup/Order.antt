-- ===== src/BootCleanup/Order.antt =====
-- What a restored `BootOrder` and a restore plan keep.
use bootc_migrate.Prelude.{
  ◌≡◌, refl, ap, ◌↔◌, ◌++◌, map, filter_map, is_none, inl, inr, true, false, ◌||◌, not, Option,
  none, some, List, [], ◌∷◌, arith, Bool-cases, any, filter, any-append,
}
use bootc_migrate.Text.{Text, eq_ignore_ascii_case, eq_ignore_ascii_case_trans, text_eq_iff}
use bootc_migrate.BootCleanup.Audit.{BootEntry}
use bootc_migrate.BootCleanup.Restore.{
  RestoreOp, recreate, set_boot_order, UnrestorableEntry, RestorePlan, same_path, same_entry,
  boot_order_op, restore_entry, restore_entries, plan_restore, merged_ids,
}

any_of_equal :
    (rs : List Text) (x id : Text)
    → any (λ r. eq_ignore_ascii_case r x) rs ≡ true
    → eq_ignore_ascii_case x id ≡ true
    → any (λ r. eq_ignore_ascii_case r id) rs ≡ true
any_of_equal [] x id h k = cc
any_of_equal (r ∷ rs) x id h k = elim (Bool-cases (eq_ignore_ascii_case r x)) [
  | inl g ↦ let q = eq_ignore_ascii_case_trans r x id g k in ground arith
  | inr g ↦ let q = any_of_equal rs x id (ground arith) k in ground arith
]

any-filter_unlisted :
    (rs cs : List Text) (id : Text)
    → any (λ r. eq_ignore_ascii_case r id) rs ≡ false
    → any
        (λ m. eq_ignore_ascii_case m id)
        (filter (λ m. not (any (λ r. eq_ignore_ascii_case r m) rs)) cs)
      ≡ any (λ m. eq_ignore_ascii_case m id) cs
any-filter_unlisted rs [] id h = refl
any-filter_unlisted rs (c ∷ cs) id h =
    let rest = any-filter_unlisted rs cs id h in
    elim (Bool-cases (any (λ r. eq_ignore_ascii_case r c) rs)) [
      | inl listed ↦ elim (Bool-cases (eq_ignore_ascii_case c id)) [
        | inl same ↦ let q = any_of_equal rs c id listed same in cc
        | inr differs ↦ ground arith
      ]
      | inr unlisted ↦ ground arith
    ]

-- Putting a recorded order back keeps every id that the firmware has now, its case ignored, and
-- adds none: an id is in the merged order exactly if it is in one of the two.
pub merged_ids-keeps :
    (restored current : List Text) (id : Text)
    → any (λ m. eq_ignore_ascii_case m id) (merged_ids restored current) ≡ (
        any (λ m. eq_ignore_ascii_case m id) restored
        || any (λ m. eq_ignore_ascii_case m id) current)
unfolding merged_ids
merged_ids-keeps restored current id =
    let parts =
      any-append (λ m. eq_ignore_ascii_case m id) restored
        (filter (λ m. not (any (λ r. eq_ignore_ascii_case r m) restored)) current) in
    elim (Bool-cases (any (λ r. eq_ignore_ascii_case r id) restored)) [
      | inl h ↦ ground arith
      | inr h ↦ let rest = any-filter_unlisted restored current id h in ground arith
    ]

-- The entries of a backup that the firmware does not have.
abbrev pub vanished : List BootEntry → List BootEntry → List BootEntry
vanished backup current = filter (λ e. not (any (λ c. same_entry c e) current)) backup

abbrev pub named : BootEntry → UnrestorableEntry
named e = record { id = e.id; label = e.label }

abbrev recreate_op : BootEntry → Option Text → Option RestoreOp
recreate_op e none = none
recreate_op e (some p) = some (recreate e.id e.label p)

-- An entry is recreated if it has a loader.
abbrev pub recreated : BootEntry → Option RestoreOp
recreated e = recreate_op e e.loader_path

abbrev pub order_ops : Option Text → List RestoreOp
order_ops none = []
order_ops (some order) = set_boot_order order ∷ []

restore_one :
    (b : BootEntry) (l : Option Text) (bs : List BootEntry) (last : List RestoreOp)
    (plan : RestorePlan)
    → b.loader_path ≡ l
    → plan.ops ≡ filter_map recreated bs ++ last
    → plan.unrestorable ≡ map named (filter (λ e. is_none e.loader_path) bs)
    → ((restore_entry b l plan).ops ≡ filter_map recreated (b ∷ bs) ++ last)
      × ((restore_entry b l plan).unrestorable
          ≡ map named (filter (λ e. is_none e.loader_path) (b ∷ bs)))
unfolding restore_entry filter_map
restore_one b none bs last plan e h k = rw e (h, ap (λ us. named b ∷ us) k)
restore_one b (some p) bs last plan e h k = rw e (ap (λ ops. recreate b.id b.label p ∷ ops) h, k)

restore_entries_lem :
    (backup current : List BootEntry) (last : List RestoreOp)
    → ((restore_entries backup current last).ops
        ≡ filter_map recreated (vanished backup current) ++ last)
      × ((restore_entries backup current last).unrestorable
          ≡ map named (filter (λ e. is_none e.loader_path) (vanished backup current)))
unfolding restore_entries filter_map
restore_entries_lem [] current last = (refl, refl)
restore_entries_lem (b ∷ bs) current last =
    let (h, k) = restore_entries_lem bs current last in
    elim (Bool-cases (any (λ c. same_entry c b) current)) [
      | inl there ↦ rw there (h, k)
      | inr gone ↦ rw gone (
          restore_one b b.loader_path (vanished bs current) last (restore_entries bs current last)
            refl h k)
    ]

same_path_iff : (p q : Option Text) → (same_path p q ≡ true) ↔ (p ≡ q)
unfolding same_path
same_path_iff none none = ground arith
same_path_iff none (some q) = ground arith
same_path_iff (some p) none = ground arith
same_path_iff (some p) (some q) = ground (arith, text_eq_iff p q)

same_entry_lem :
    (a b : BootEntry)
    → (same_entry a b ≡ true) ↔ ((a.label ≡ b.label) × (a.loader_path ≡ b.loader_path))
unfolding same_entry
same_entry_lem a b =
    ground (arith, text_eq_iff a.label b.label, same_path_iff a.loader_path b.loader_path)

-- A restore recreates, in the order of the backup, the entries that have a loader and that the
-- firmware does not have, and last sets the recorded `BootOrder`, if there is one, also where
-- nothing is recreated; the other entries that the firmware does not have are listed as
-- unrestorable. The firmware has an entry if one of its entries has the same label and loader.
pub plan_restore_lem :
    (backup current : List BootEntry) (order : Option Text)
    → ((plan_restore backup order current).ops
        ≡ filter_map recreated (vanished backup current) ++ order_ops order)
      × ((plan_restore backup order current).unrestorable
          ≡ map named (filter (λ e. is_none e.loader_path) (vanished backup current)))
      × ((a b : BootEntry)
          → (same_entry a b ≡ true) ↔ ((a.label ≡ b.label) × (a.loader_path ≡ b.loader_path)))
unfolding plan_restore boot_order_op
plan_restore_lem backup current none =
    let (h, k) = restore_entries_lem backup current [] in (h, k, same_entry_lem)
plan_restore_lem backup current (some o) =
    let (h, k) = restore_entries_lem backup current (set_boot_order o ∷ []) in
    (h, k, same_entry_lem)
