-- ===== src/Etc/Conflict.antt =====
-- The cross-base conflict pass (crates/bootc-migrate-core/src/etc_conflict.rs).
pub mod Plan
pub mod Named
pub mod Apply
pub mod Collect
use bootc_migrate.Prelude.{
  ℕ, zero, suc, ◌+◌, ◌-◌, ◌*◌, ◌/◌, ◌%◌, ◌^◌, ◌≤◌, ◌<◌, String, ◌≡◌, refl, sym, ap, ◌∙◌, subst, ◌≢◌,
  ◌↔◌, ◌⊎◌, inl, inr, Bool, true, false, ◌&&◌, ◌||◌, not, Option, none, some, List, [], ◌∷◌, ◌++◌,
  map, reverse, arith, ltb, leb, ◌==◌, if◌then◌else◌, ltb→lt, lt→ltb, leb→le, ==_iff, Bool-cases,
  Option-cases, All, is_some, is_none, or_option, is_some_and, length, any, all, filter, find?,
  length-append, find?-eq-some, find?-eq-none, any-append, filter_map, Result, ok, err, ◌>>=◌,
  for_each, >>=-eq-ok,
}
use bootc_migrate.Text.{
  Text, codes, text_eq, text_le, contains, starts_with, ends_with, strip_prefix, split_by, split_on,
  lines, is_whitespace, is_control, trim_start_by, trim, is_empty, split_whitespace, join,
  eq_ignore_ascii_case, sort, dedup, parse_u32, parse_u64, show_nat, text_eq→eq, text_eq_self,
  text_eq_iff, text_eq_comm, contains-sort, contains-dedup, eq_ignore_ascii_case_self,
  eq_ignore_ascii_case_comm, eq_ignore_ascii_case_trans, ends_with-append, text_eq-append_self,
  text_eq-append_right,
}
use bootc_migrate.Etc.Tree.{
  Bytes, Metadata, Node, regular, link, Dict, lookup, insert, remove, keys, EtcTree, WriteError,
  write_file, write_link,
}
use bootc_migrate.Etc.Identity.{is_identity_db}
use bootc_migrate.Etc.Merge.{rebase_old_suffix}

pub data EtcEntry : Type 0 where
  file : Bytes → EtcEntry
  symlink : Text → EtcEntry

pub record EtcTriple : Type 0 where
  pub path : Text
  pub source_default : Option EtcEntry
  pub current : Option EtcEntry
  pub target_default : Option EtcEntry

pub data Decision : Type 0 where
  take_target_default exempt_keep_current : Decision

pub record EtcConflict : Type 0 where
  pub path : Text
  pub sidecar : Text

pub record EtcConflictPlan : Type 0 where
  pub resolved : List EtcConflict
  pub exempt : List Text

abbrev pub exempt_exact : List Text
exempt_exact = codes "fstab" ∷ codes "crypttab" ∷ codes "mdadm.conf" ∷ codes "hostname" ∷ []

abbrev pub exempt_prefixes : List Text
exempt_prefixes = codes "ssh/ssh_host_" ∷ codes "lvm/" ∷ codes "multipath/" ∷ []

unfoldable pub is_exempt : Text → Bool
is_exempt p =
    is_identity_db p
    || contains exempt_exact p
    || any (λ prefix. starts_with p prefix) exempt_prefixes

unfoldable pub same_entry : EtcEntry → EtcEntry → Bool
same_entry (file c) (file d) = text_eq c d
same_entry (symlink c) (symlink d) = text_eq c d
same_entry (file c) (symlink d) = false
same_entry (symlink c) (file d) = false

unfoldable pub same_kind : EtcEntry → EtcEntry → EtcEntry → Bool
same_kind (file s) (file c) (file t) = true
same_kind (symlink s) (symlink c) (symlink t) = true
same_kind (file s) (file c) (symlink t) = false
same_kind (file s) (symlink c) t = false
same_kind (symlink s) (file c) t = false
same_kind (symlink s) (symlink c) (file t) = false

-- The tests of `classify`, in their order.
decide_entry : Bool → Bool → Bool → Bool → Bool → Option Decision
decide_entry kind user_modified target_default_diverged already_at_target exempt =
    if not kind
    then none
    else if not user_modified || not target_default_diverged || already_at_target
    then none
    else if exempt
    then some exempt_keep_current
    else some take_target_default

classify_entries : Text → EtcEntry → EtcEntry → EtcEntry → Option Decision
classify_entries p source current target =
    decide_entry (same_kind source current target) (not (same_entry current source))
      (not (same_entry target source)) (same_entry current target) (is_exempt p)

classify_present : Text → Option EtcEntry → Option EtcEntry → Option EtcEntry → Option Decision
classify_present p (some s) (some c) (some t) = classify_entries p s c t
classify_present p none c t = none
classify_present p (some s) none t = none
classify_present p (some s) (some c) none = none

unfoldable pub classify : EtcTriple → Option Decision
unfolding classify_present classify_entries decide_entry
classify triple =
    if ends_with triple.path rebase_old_suffix
    then none
    else classify_present triple.path triple.source_default triple.current triple.target_default

-- The loop; `resolved` and `exempt` are in the order of the triples before they are sorted.
add_decision : EtcTriple → Option Decision → EtcConflictPlan → EtcConflictPlan
add_decision triple none plan = plan
add_decision triple (some take_target_default) plan = record plan {
  resolved =
      record { path = triple.path; sidecar = triple.path ++ rebase_old_suffix } ∷ plan.resolved;
}
add_decision triple (some exempt_keep_current) plan = record plan {
  exempt = triple.path ∷ plan.exempt;
}

collect_decisions : List EtcTriple → EtcConflictPlan
unfolding add_decision
collect_decisions [] = record { resolved = []; exempt = [] }
collect_decisions (t ∷ ts) = add_decision t (classify t) (collect_decisions ts)

pub insert_conflict : EtcConflict → List EtcConflict → List EtcConflict
insert_conflict c [] = c ∷ []
insert_conflict c (d ∷ ds) =
    let rest = insert_conflict c ds in if text_le c.path d.path then c ∷ d ∷ ds else d ∷ rest

sort_conflicts : List EtcConflict → List EtcConflict
unfolding insert_conflict text_le
sort_conflicts [] = []
sort_conflicts (c ∷ cs) = insert_conflict c (sort_conflicts cs)

unfoldable pub plan_etc_conflicts : List EtcTriple → EtcConflictPlan
unfolding collect_decisions sort_conflicts sort
plan_etc_conflicts triples =
    let plan = collect_decisions triples in
    record { resolved = sort_conflicts plan.resolved; exempt = sort plan.exempt }

abbrev pub entry_of_node : Node → EtcEntry
entry_of_node (regular content m) = file content
entry_of_node (link target) = symlink target

abbrev pub entry_of_option : Option Node → Option EtcEntry
entry_of_option none = none
entry_of_option (some n) = some (entry_of_node n)

-- Reading a tree. Only files and symlinks are listed in one.
unfoldable pub read_entry : EtcTree → Text → Option EtcEntry
unfolding lookup
read_entry t p = entry_of_option (lookup p t.nodes)

triples_over : EtcTree → EtcTree → EtcTree → List Text → List EtcTriple
unfolding read_entry
triples_over source current target [] = []
triples_over source current target (p ∷ ps) =
    let rest = triples_over source current target ps in
    if is_none (read_entry target p)
    then rest
    else record {
      path = p;
      source_default = read_entry source p;
      current = read_entry current p;
      target_default = read_entry target p;
    }
      ∷ rest

unfoldable pub collect_etc_triples : EtcTree → EtcTree → EtcTree → List EtcTriple
unfolding triples_over sort
collect_etc_triples source current target =
    triples_over source current target (sort (keys source.nodes))

-- `fails` says where the file system refuses a write.
module _ (fails : Text → Bool) where
  -- A leaf that already stands at the destination is removed first, so nothing is followed.
  write_entry : EtcEntry → Option Metadata → Text → Dict Node → Result WriteError (Dict Node)
  write_entry (symlink target) m dest staged = write_link fails dest target (remove dest staged)
  write_entry (file content) m dest staged = write_file fails dest content m (remove dest staged)

  write_from : EtcTree → Text → Text → Dict Node → Result WriteError (Dict Node)
  unfolding write_entry read_entry
  write_from src p dest staged = elim (read_entry src p) [
    | none ↦ err (WriteError.failed p)
    | some e ↦ write_entry e (src.stat p) dest staged
  ]

  apply_conflict : EtcTree → EtcTree → Dict Node → EtcConflict → Result WriteError (Dict Node)
  unfolding write_from
  apply_conflict current target staged c =
      write_from current c.path c.sidecar staged >>= write_from target c.path c.path

  unfoldable pub apply_etc_conflict_plan :
      EtcTree → EtcTree → EtcConflictPlan → Dict Node → Result WriteError (Dict Node × ℕ)
  unfolding apply_conflict
  apply_etc_conflict_plan current target plan staged =
      for_each (apply_conflict current target) plan.resolved staged >>= λ staged'.
      ok (staged', length plan.resolved)
