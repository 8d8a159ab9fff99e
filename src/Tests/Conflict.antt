-- ===== src/Tests/Conflict.antt =====
-- The cross-base conflict pass on a small tree.
use bootc_migrate.Prelude.{
  String, ◌≡◌, ◌↔◌, refl, Bool, true, false, none, some, List, [], ◌∷◌, length, ok, for_each,
}
use bootc_migrate.Text.{insert_sorted, Text, codes, text_eq, text_le, starts_with, ends_with, sort}
use bootc_migrate.Etc.Tree.{
  Node, regular, Dict, lookup, insert, remove, EtcTree, write_file, write_link,
}
use bootc_migrate.Etc.Identity.{is_identity_db}
use bootc_migrate.Etc.Conflict.{
  file, EtcTriple, take_target_default, EtcConflictPlan, is_exempt, classify, same_kind, same_entry,
  plan_etc_conflicts, collect_etc_triples, read_entry, apply_etc_conflict_plan,
}
use bootc_migrate.Etc.Conflict.Plan.{is_take}
use bootc_migrate.Etc.Conflict.Named.{HasConflict, plan_etc_conflicts_lem}
use bootc_migrate.Etc.Conflict.Apply.{staged_entry, apply_etc_conflict_plan_lem}
use bootc_migrate.Etc.Conflict.Collect.{apply-collect_etc_triples}

abbrev no_fails : Text → Bool
no_fails p = false

abbrev tree : Dict Node → EtcTree
tree nodes = record { nodes = nodes; stat = λ p. none }

abbrev plain_file : String → String → Text × Node
plain_file p content = (codes p, regular (codes content) none)

abbrev source_tree : EtcTree
source_tree = tree (plain_file "app" "a" ∷ plain_file "fstab" "a" ∷ plain_file "same" "a" ∷ [])

abbrev user_tree : EtcTree
user_tree = tree (plain_file "app" "b" ∷ plain_file "fstab" "b" ∷ plain_file "same" "a" ∷ [])

abbrev target_tree : EtcTree
target_tree = tree (plain_file "app" "c" ∷ plain_file "fstab" "c" ∷ plain_file "same" "c" ∷ [])

abbrev triple_of : String → EtcTriple
triple_of p = record {
  path = codes p;
  source_default = some (file (codes "a"));
  current = some (file (codes "b"));
  target_default = some (file (codes "c"));
}

abbrev same_triple : EtcTriple
same_triple = record {
  path = codes "same";
  source_default = some (file (codes "a"));
  current = some (file (codes "a"));
  target_default = some (file (codes "c"));
}

abbrev triples : List EtcTriple
triples = triple_of "app" ∷ triple_of "fstab" ∷ same_triple ∷ []

collect_test : collect_etc_triples source_tree user_tree target_tree ≡ triples
unfolding collect_etc_triples sort insert_sorted text_le read_entry lookup text_eq
collect_test = refl

abbrev conflict_plan : EtcConflictPlan
conflict_plan = record {
  resolved = record { path = codes "app"; sidecar = codes "app.rebase-old" } ∷ [];
  exempt = codes "fstab" ∷ [];
}

plan_test : plan_etc_conflicts triples ≡ conflict_plan
unfolding plan_etc_conflicts classify is_exempt is_identity_db same_kind same_entry ends_with
    starts_with sort insert_sorted text_eq text_le
plan_test = refl

classified_test : classify (triple_of "app") ≡ some take_target_default
unfolding classify is_exempt is_identity_db same_kind same_entry ends_with starts_with text_eq
classified_test = refl

plan_etc_conflicts_lem_example :
    ((true ≡ true) ↔ HasConflict triples (codes "app") false)
    × ((false ≡ true) ↔ HasConflict triples (codes "app") true)
unfolding plan_etc_conflicts classify is_exempt is_identity_db same_kind same_entry ends_with
    starts_with sort insert_sorted text_eq text_le
plan_etc_conflicts_lem_example = plan_etc_conflicts_lem triples (codes "app")

abbrev staged_tree : Dict Node
staged_tree = plain_file "app" "b" ∷ plain_file "fstab" "b" ∷ plain_file "same" "c" ∷ []

abbrev applied_tree : Dict Node
applied_tree =
    plain_file "fstab" "b"
    ∷ plain_file "same" "c"
    ∷ plain_file "app.rebase-old" "b"
    ∷ plain_file "app" "c"
    ∷ []

applied_test :
    apply_etc_conflict_plan no_fails user_tree target_tree (plan_etc_conflicts triples) staged_tree
    ≡ ok (applied_tree, 1)
unfolding apply_etc_conflict_plan for_each read_entry write_file write_link insert remove lookup
    plan_etc_conflicts classify is_exempt is_identity_db same_kind same_entry ends_with starts_with
    sort insert_sorted text_eq text_le
applied_test = refl

apply_etc_conflict_plan_lem_example :
    (staged_entry applied_tree (codes "app") ≡ some (file (codes "c")))
    × (staged_entry applied_tree (codes "app.rebase-old") ≡ some (file (codes "b")))
    × (length (plan_etc_conflicts triples).resolved ≡ 1)
unfolding read_entry lookup plan_etc_conflicts classify is_exempt is_identity_db same_kind
    same_entry ends_with starts_with sort insert_sorted text_eq text_le
apply_etc_conflict_plan_lem_example =
    apply_etc_conflict_plan_lem no_fails user_tree target_tree triples staged_tree (codes "app")
      {staged' = applied_tree} {n = 1} applied_test refl

collected_test :
    apply_etc_conflict_plan no_fails user_tree target_tree
      (plan_etc_conflicts (collect_etc_triples source_tree user_tree target_tree))
      staged_tree
    ≡ ok (applied_tree, 1)
unfolding collect_etc_triples apply_etc_conflict_plan for_each read_entry write_file write_link
    insert remove lookup plan_etc_conflicts classify is_exempt is_identity_db same_kind same_entry
    ends_with starts_with sort insert_sorted text_eq text_le
collected_test = refl

apply-collect_etc_triples_example :
    (staged_entry applied_tree (codes "fstab") ≡ some (file (codes "b")))
    × (staged_entry applied_tree (codes "fstab.rebase-old") ≡ none)
unfolding is_take read_entry lookup classify is_exempt is_identity_db same_kind same_entry ends_with
    starts_with text_eq
apply-collect_etc_triples_example =
    apply-collect_etc_triples no_fails source_tree user_tree target_tree staged_tree (codes "fstab")
      {staged' = applied_tree} {n = 1} collected_test refl
