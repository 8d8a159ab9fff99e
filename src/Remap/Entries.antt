-- ===== src/Remap/Entries.antt =====
-- What the entries of a remap plan satisfy.
use mathlib.Core.List.{map-append}
use bootc_migrate.Prelude.{
  ℕ, ◌<◌, ◌≡◌, refl, ◌≢◌, inl, inr, true, ◌||◌, Option, none, some, List, [], ◌∷◌, ◌++◌, map, arith,
  ◌==◌, ==_iff, Bool-cases, All, any-append,
}
use bootc_migrate.Text.{Text, text_eq, text_le}
use bootc_migrate.Remap.Accounts.{PasswdEntry, GroupEntry}
use bootc_migrate.Remap.Plan.{
  IdKind, uid_kind, gid_kind, RemapEntry, RemapPlan, holds, map_insert, collect_map, map_get,
  in_system_range, add_name, add_names, diff_by_name, empty_plan, uids, gids, used_ids, plan_remap,
  system_id_limit,
}

-- An entry changes the id of a system account that is not root, to another such id; both are in use.
pub record IsEntry (used : List ℕ) (e : RemapEntry) : Type 0 where
  pub old_used : holds used e.old_id ≡ true
  pub new_used : holds used e.new_id ≡ true
  pub changes : e.old_id ≢ e.new_id
  pub old_range : (0 < e.old_id) × (e.old_id < system_id_limit)
  pub new_range : (0 < e.new_id) × (e.new_id < system_id_limit)

module _ (used : List ℕ) where
  abbrev Known : List (Text × ℕ) → Type 0
  Known = All (λ e. holds used e.1 ≡ true)

  insert-Known :
      (k : Text) (v : ℕ) (m : List (Text × ℕ))
      → holds used v ≡ true
      → Known m
      → Known (map_insert k v m)
  unfolding map_insert
  insert-Known k v [] h hs = (h, tt)
  insert-Known k v ((j, w) ∷ m) h hs = elim (Bool-cases (text_eq k j)) [
    | inl e ↦ rw e (h, hs.1)
    | inr e ↦ rw e (elim (Bool-cases (text_le k j)) [
      | inl d ↦ rw d (h, hs)
      | inr d ↦ rw d (hs.0, insert-Known k v m h hs.1)
    ])
  ]

  collect-Known : (m es : List (Text × ℕ)) → Known m → Known es → Known (collect_map m es)
  unfolding collect_map
  collect-Known m [] hm hs = hm
  collect-Known m ((k, v) ∷ es) hm hs =
      collect-Known (map_insert k v m) es (insert-Known k v m hs.0 hm) hs.1

  get-Known :
      (k : Text) (m : List (Text × ℕ)) {v : ℕ}
      → Known m
      → map_get k m ≡ some v
      → holds used v ≡ true
  unfolding map_get
  get-Known k [] hs h = cc
  get-Known k ((j, w) ∷ m) {v} hs h = ground (arith, get-Known k m {v = v} hs.1, hs.0)

  range_lem :
      (old new : ℕ)
      → in_system_range old new ≡ true
      → ((0 < old) × (old < system_id_limit)) × ((0 < new) × (new < system_id_limit))
  unfolding in_system_range
  range_lem old new h = ground arith

  abbrev Entries : RemapPlan → Type 0
  Entries plan = All (IsEntry used) plan.remaps

  append-Entries :
      (es : List RemapEntry) (e : RemapEntry)
      → All (IsEntry used) es
      → IsEntry used e
      → All (IsEntry used) (es ++ (e ∷ []))
  append-Entries [] e hs h = (h, tt)
  append-Entries (x ∷ es) e hs h = (hs.0, append-Entries es e hs.1 h)

  add_name-Entries :
      (kind : IdKind) (name : Text) (old : ℕ) (found : Option ℕ) (plan : RemapPlan)
      → holds used old ≡ true
      → ((v : ℕ) → found ≡ some v → holds used v ≡ true)
      → Entries plan
      → Entries (add_name kind name old found plan)
  unfolding add_name
  add_name-Entries kind name old none plan h k hs = hs
  add_name-Entries kind name old (some new) plan h k hs = elim (Bool-cases (new == old)) [
    | inl e ↦ rw e hs
    | inr e ↦ rw e (elim (Bool-cases (in_system_range old new)) [
      | inl r ↦ rw r (
          append-Entries plan.remaps _ hs (record {
            old_used = h;
            new_used = k new refl;
            changes = λ same. ground (arith, ==_iff new old);
            old_range = (range_lem old new r).0;
            new_range = (range_lem old new r).1;
          }))
      | inr r ↦ rw r hs
    ])
  ]

  add_names-Entries :
      (kind : IdKind) (source target : List (Text × ℕ)) (plan : RemapPlan)
      → Known source
      → Known target
      → Entries plan
      → Entries (add_names kind source target plan)
  unfolding add_names
  add_names-Entries kind [] target plan hs ht h = h
  add_names-Entries kind ((name, old) ∷ source) target plan hs ht h =
      add_names-Entries kind source target _ hs.1 ht (
        add_name-Entries kind name old (map_get name target) plan hs.0
          (λ v e. get-Known name target ht e) h)

  diff-Entries :
      (kind : IdKind) (source target : List (Text × ℕ)) (plan : RemapPlan)
      → Known source
      → Known target
      → Entries plan
      → Entries (diff_by_name kind source target plan)
  unfolding diff_by_name
  diff-Entries kind source target plan hs ht h =
      add_names-Entries kind (collect_map [] source) (collect_map [] target) plan
        (collect-Known [] source tt hs) (collect-Known [] target tt ht) h

holds-append : (xs ys : List ℕ) (n : ℕ) → holds (xs ++ ys) n ≡ (holds xs n || holds ys n)
holds-append xs ys n = any-append (λ i. n == i) xs ys

-- Every table of the plan is among the ids in use.
known_by {ℓ} :
    {A : Type ℓ} (name : A → Text) (id : A → ℕ) (used : List ℕ) (es : List A)
    → ((n : ℕ) → holds (map id es) n ≡ true → holds used n ≡ true)
    → All {A = Text × ℕ} (λ e. holds used e.1 ≡ true) (map (λ e. (name e, id e)) es)
known_by name id used [] h = tt
known_by name id used (e ∷ es) h =
    (h (id e) (ground arith), known_by name id used es (λ n k. h n (ground arith)))

module _ (sp tp : List PasswdEntry) (sg tg : List GroupEntry) where
  abbrev in_use : List ℕ
  in_use = used_ids sp sg tp tg

  used_split :
      (n : ℕ)
      → holds in_use n ≡ (
          (holds (map (λ e. e.uid) sp) n || holds (map (λ e. e.uid) tp) n)
          || (holds (map (λ e. e.gid) sg) n || holds (map (λ e. e.gid) tg) n))
  unfolding used_ids
  used_split n = rw (
    map-append (λ (e : PasswdEntry). e.uid) sp tp,
    map-append (λ (e : GroupEntry). e.gid) sg tg,
    holds-append (map (λ e. e.uid) sp ++ map (λ e. e.uid) tp)
        (map (λ e. e.gid) sg ++ map (λ e. e.gid) tg) n,
    holds-append (map (λ e. e.uid) sp) (map (λ e. e.uid) tp) n,
    holds-append (map (λ e. e.gid) sg) (map (λ e. e.gid) tg) n,
  )

  -- Every entry of the plan renumbers a system account that is not root, to a different id of a
  -- system account that is not root, and both ids are known to the scratch allocation.
  pub plan_remap-entries : All (IsEntry (used_ids sp sg tp tg)) (plan_remap sp sg tp tg).remaps
  unfolding plan_remap
  plan_remap-entries =
      diff-Entries in_use gid_kind (gids sg) (gids tg) _
        (known_by (λ e. e.name) (λ e. e.gid) in_use sg (λ n h. ground (arith, used_split n)))
        (known_by (λ e. e.name) (λ e. e.gid) in_use tg (λ n h. ground (arith, used_split n)))
        (diff-Entries in_use uid_kind (uids sp) (uids tp) empty_plan
          (known_by (λ e. e.name) (λ e. e.uid) in_use sp (λ n h. ground (arith, used_split n)))
          (known_by (λ e. e.name) (λ e. e.uid) in_use tp (λ n h. ground (arith, used_split n))) tt)
