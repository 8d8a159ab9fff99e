-- ===== src/Remap/Plan.antt =====
-- The remap plan of remap.rs: the difference by name, the scratch ids and the steps.
use bootc_migrate.Prelude.{
  ℕ, zero, suc, ◌+◌, Bool, true, false, ◌&&◌, not, Option, none, some, List, [], ◌∷◌, ◌++◌, map,
  ltb, ◌==◌, if◌then◌else◌, is_none, any,
}
use bootc_migrate.Text.{Text, text_eq, text_le, sort, dedup}
use bootc_migrate.Remap.Accounts.{PasswdEntry, GroupEntry}

abbrev pub system_id_limit : ℕ
system_id_limit = 1000

pub data IdKind : Type 0 where
  uid_kind gid_kind : IdKind

abbrev pub same_kind : IdKind → IdKind → Bool
same_kind uid_kind uid_kind = true
same_kind gid_kind gid_kind = true
same_kind uid_kind gid_kind = false
same_kind gid_kind uid_kind = false

pub record RemapEntry : Type 0 where
  pub name : Text
  pub kind : IdKind
  pub old_id : ℕ
  pub new_id : ℕ

pub record RemapStep : Type 0 where
  pub kind : IdKind
  pub from : ℕ
  pub to : ℕ

pub record RemapPlan : Type 0 where
  pub remaps : List RemapEntry
  pub source_only : List Text
  pub target_only : List Text
  pub steps : List RemapStep

abbrev pub holds : List ℕ → ℕ → Bool
holds ids n = any (λ i. n == i) ids

unfoldable pub largest : List ℕ → ℕ
largest [] = 0
largest (i ∷ is) = if ltb (largest is) i then i else largest is

-- `while used_ids.contains(&next) { next += 1 }`, on fuel.
unfoldable pub next_free : ℕ → List ℕ → ℕ → ℕ
next_free zero used n = n
next_free (suc fuel) used n =
    let rest = next_free fuel used (n + 1) in if holds used n then rest else n

-- One scratch id for each remap. The largest id in use bounds the rounds of the inner loop.
unfoldable pub scratch_for : List RemapEntry → List ℕ → ℕ → List ℕ
unfolding next_free largest
scratch_for [] used next = []
scratch_for (e ∷ es) used next =
    let scratch = next_free (suc (largest used)) used next in
    scratch ∷ scratch_for es used (scratch + 1)

unfoldable pub first_pass : List RemapEntry → List ℕ → List RemapStep
first_pass [] ids = []
first_pass (e ∷ es) [] = []
first_pass (e ∷ es) (s ∷ ss) = record { kind = e.kind; from = e.old_id; to = s } ∷ first_pass es ss

unfoldable pub second_pass : List RemapEntry → List ℕ → List RemapStep
second_pass [] ids = []
second_pass (e ∷ es) [] = []
second_pass (e ∷ es) (s ∷ ss) =
    record { kind = e.kind; from = s; to = e.new_id } ∷ second_pass es ss

abbrev pub scratch_start : ℕ
scratch_start = 60000

unfoldable pub build_steps : List RemapEntry → List ℕ → List RemapStep
unfolding scratch_for first_pass second_pass
build_steps remaps used =
    let ids = scratch_for remaps used scratch_start in
    first_pass remaps ids ++ second_pass remaps ids

-- `BTreeMap::insert`: sorted by key, the last value of a key stays.
unfoldable pub map_insert : Text → ℕ → List (Text × ℕ) → List (Text × ℕ)
map_insert k v [] = (k, v) ∷ []
map_insert k v ((j, w) ∷ m) =
    let rest = map_insert k v m in
    if text_eq k j then (k, v) ∷ m else if text_le k j then (k, v) ∷ (j, w) ∷ m else (j, w) ∷ rest

unfoldable pub collect_map : List (Text × ℕ) → List (Text × ℕ) → List (Text × ℕ)
unfolding map_insert
collect_map m [] = m
collect_map m ((k, v) ∷ es) = collect_map (map_insert k v m) es

unfoldable pub map_get : Text → List (Text × ℕ) → Option ℕ
map_get k [] = none
map_get k ((j, w) ∷ m) = let rest = map_get k m in if text_eq k j then some w else rest

unfoldable pub in_system_range : ℕ → ℕ → Bool
in_system_range old new =
    not (old == 0) && not (new == 0) && ltb old system_id_limit && ltb new system_id_limit

unfoldable pub add_name : IdKind → Text → ℕ → Option ℕ → RemapPlan → RemapPlan
unfolding in_system_range
add_name kind name old none plan = record plan { source_only = plan.source_only ++ (name ∷ []) }
add_name kind name old (some new) plan =
    if new == old
    then plan
    else if in_system_range old new
    then record plan {
      remaps =
          plan.remaps ++ (record { name = name; kind = kind; old_id = old; new_id = new } ∷ []);
    }
    else plan

unfoldable pub add_names : IdKind → List (Text × ℕ) → List (Text × ℕ) → RemapPlan → RemapPlan
unfolding add_name map_get
add_names kind [] target plan = plan
add_names kind ((name, old) ∷ source) target plan =
    add_names kind source target (add_name kind name old (map_get name target) plan)

new_names : List (Text × ℕ) → List (Text × ℕ) → List Text
unfolding map_get
new_names source [] = []
new_names source ((name, id) ∷ target) =
    let rest = new_names source target in
    if is_none (map_get name source) then name ∷ rest else rest

unfoldable pub diff_by_name : IdKind → List (Text × ℕ) → List (Text × ℕ) → RemapPlan → RemapPlan
unfolding add_names new_names collect_map
diff_by_name kind source_ids target_ids plan =
    let source = collect_map [] source_ids in
    let target = collect_map [] target_ids in
    let added = add_names kind source target plan in
    record added {
      source_only = dedup (sort added.source_only);
      target_only = dedup (sort (added.target_only ++ new_names source target));
    }

abbrev pub empty_plan : RemapPlan
empty_plan = record { remaps = []; source_only = []; target_only = []; steps = [] }

abbrev pub uids : List PasswdEntry → List (Text × ℕ)
uids = map (λ e. (e.name, e.uid))

abbrev pub gids : List GroupEntry → List (Text × ℕ)
gids = map (λ e. (e.name, e.gid))

-- Every id of the four tables.
unfoldable pub used_ids :
    List PasswdEntry → List GroupEntry → List PasswdEntry → List GroupEntry → List ℕ
used_ids source_passwd source_group target_passwd target_group =
    map (λ e. e.uid) (source_passwd ++ target_passwd)
    ++ map (λ e. e.gid) (source_group ++ target_group)

unfoldable pub plan_remap :
    List PasswdEntry → List GroupEntry → List PasswdEntry → List GroupEntry → RemapPlan
unfolding diff_by_name build_steps used_ids
plan_remap source_passwd source_group target_passwd target_group =
    let users = diff_by_name uid_kind (uids source_passwd) (uids target_passwd) empty_plan in
    let plan = diff_by_name gid_kind (gids source_group) (gids target_group) users in
    record plan {
      steps =
          build_steps plan.remaps (used_ids source_passwd source_group target_passwd target_group);
    }
