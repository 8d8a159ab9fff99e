-- ===== src/Etc/Conflict/Apply.antt =====
-- What the pass leaves in the staged `/etc`.
use bootc_migrate.Prelude.{
  ℕ, ◌≡◌, Bool, false, Option, none, some, List, [], ◌∷◌, ◌++◌, arith, if◌then◌else◌, All, length,
  ok, err, for_each, >>=-eq-ok,
}
use bootc_migrate.Text.{
  Text, text_eq, ends_with, text_eq_iff, ends_with-append, text_eq-append_right,
}
use bootc_migrate.Etc.Tree.{
  Metadata, Node, Dict, lookup, remove, EtcTree, WriteError, lookup-write_file, lookup-write_link,
  lookup-remove,
}
use bootc_migrate.Etc.Merge.{rebase_old_suffix}
use bootc_migrate.Etc.Conflict.{
  EtcEntry, file, symlink, EtcTriple, EtcConflict, plan_etc_conflicts, entry_of_option, read_entry,
  write_entry, write_from, apply_conflict, apply_etc_conflict_plan,
}
use bootc_migrate.Etc.Conflict.Plan.{rewrites, IsPlanned, plan-IsPlanned}

-- The entry at a path of the staged directory.
abbrev pub staged_entry : Dict Node → Text → Option EtcEntry
staged_entry staged q = entry_of_option (lookup q staged)

module _ (fails : Text → Bool) where
  staged-write_entry :
      (e : EtcEntry) (m : Option Metadata) (dest q : Text) (staged : Dict Node)
      {staged' : Dict Node}
      → write_entry fails e m dest staged ≡ ok staged'
      → staged_entry staged' q ≡ (if text_eq q dest then some e else staged_entry staged q)
  unfolding write_entry
  staged-write_entry (symlink target) m dest q staged {staged'} h = ground (
    arith,
    lookup-write_link fails dest target (remove dest staged) {out' = staged'} q h,
    lookup-remove dest q staged,
  )
  staged-write_entry (file content) m dest q staged {staged'} h = ground (
    arith,
    lookup-write_file fails dest content m (remove dest staged) {out' = staged'} q h,
    lookup-remove dest q staged,
  )

  staged-write_from :
      (src : EtcTree) (p dest q : Text) (staged : Dict Node) {staged' : Dict Node}
      → write_from fails src p dest staged ≡ ok staged'
      → staged_entry staged' q
        ≡ (if text_eq q dest then read_entry src p else staged_entry staged q)
  unfolding write_from
  staged-write_from src p dest q staged {staged'} h = go (read_entry src p) h
    where
      go :
          (o : Option EtcEntry)
          → (elim o [
            | none ↦ err (WriteError.failed p)
            | some e ↦ write_entry fails e (src.stat p) dest staged
          ])
            ≡ ok staged'
          → staged_entry staged' q ≡ (if text_eq q dest then o else staged_entry staged q)
      go none h = cc
      go (some e) h = staged-write_entry e (src.stat p) dest q staged h

  module _ (current target : EtcTree) where
    staged-apply_conflict :
        (c : EtcConflict) (q : Text) (staged : Dict Node) {staged' : Dict Node}
        → IsPlanned c
        → apply_conflict fails current target staged c ≡ ok staged'
        → staged_entry staged' q ≡ (
            if text_eq q c.path
            then read_entry target c.path
            else if text_eq q (c.path ++ rebase_old_suffix)
            then read_entry current c.path
            else staged_entry staged q)
    unfolding apply_conflict
    staged-apply_conflict c q staged {staged'} planned h =
        let (mid, before, after) =
          >>=-eq-ok (write_from fails current c.path c.sidecar staged)
            (write_from fails target c.path c.path) h in
        rw (← planned.beside) (
          ground (
            arith,
            staged-write_from current c.path c.sidecar q staged {staged' = mid} before,
            staged-write_from target c.path c.path q mid {staged' = staged'} after,
          ))

    staged-loop :
        (cs : List EtcConflict) (q : Text) (staged : Dict Node) {staged' : Dict Node}
        → All IsPlanned cs
        → ends_with q rebase_old_suffix ≡ false
        → for_each (apply_conflict fails current target) cs staged ≡ ok staged'
        → staged_entry staged' q
          ≡ (if rewrites cs q then read_entry target q else staged_entry staged q)
    unfolding for_each
    staged-loop [] q staged hs plain h = ground arith
    staged-loop (c ∷ cs) q staged {staged'} hs plain h =
        let (mid, first, rest) =
          >>=-eq-ok (apply_conflict fails current target staged c)
            (λ t. for_each (apply_conflict fails current target) cs t) h in
        ground (
          arith,
          staged-apply_conflict c q staged {staged' = mid} hs.0 first,
          staged-loop cs q mid {staged' = staged'} hs.1 plain rest,
          text_eq_iff q c.path,
          text_eq_iff q (c.path ++ rebase_old_suffix),
          ends_with-append c.path rebase_old_suffix,
        )

    staged-loop_sidecar :
        (cs : List EtcConflict) (q : Text) (staged : Dict Node) {staged' : Dict Node}
        → All IsPlanned cs
        → for_each (apply_conflict fails current target) cs staged ≡ ok staged'
        → staged_entry staged' (q ++ rebase_old_suffix) ≡ (
            if rewrites cs q
            then read_entry current q
            else staged_entry staged (q ++ rebase_old_suffix))
    unfolding for_each
    staged-loop_sidecar [] q staged hs h = ground arith
    staged-loop_sidecar (c ∷ cs) q staged {staged'} hs h =
        let (mid, first, rest) =
          >>=-eq-ok (apply_conflict fails current target staged c)
            (λ t. for_each (apply_conflict fails current target) cs t) h in
        ground (
          arith,
          staged-apply_conflict c (q ++ rebase_old_suffix) staged {staged' = mid} hs.0 first,
          staged-loop_sidecar cs q mid {staged' = staged'} hs.1 rest,
          text_eq_iff (q ++ rebase_old_suffix) c.path,
          text_eq-append_right q c.path rebase_old_suffix,
          text_eq_iff q c.path,
          ends_with-append q rebase_old_suffix,
          hs.0.plain,
        )

    -- A pass that succeeds leaves, for each path that is no sidecar, the target's entry there and the
    -- user's entry in the sidecar beside it if the plan has the path; if not, both keep what the
    -- native merge left. It reports how many paths it rewrote.
    pub apply_etc_conflict_plan_lem :
        (triples : List EtcTriple) (staged : Dict Node) (q : Text) {staged' : Dict Node} {n : ℕ}
        → apply_etc_conflict_plan fails current target (plan_etc_conflicts triples) staged
          ≡ ok (staged', n)
        → ends_with q rebase_old_suffix ≡ false
        → let taken = rewrites (plan_etc_conflicts triples).resolved q in
          (staged_entry staged' q ≡ (if taken then read_entry target q else staged_entry staged q))
          × (staged_entry staged' (q ++ rebase_old_suffix) ≡ (
              if taken then read_entry current q else staged_entry staged (q ++ rebase_old_suffix)))
          × (n ≡ length (plan_etc_conflicts triples).resolved)
    unfolding apply_etc_conflict_plan
    apply_etc_conflict_plan_lem triples staged q {staged'} {n} h plain =
        let cs = (plan_etc_conflicts triples).resolved in
        let (mid, loop, done) =
          >>=-eq-ok (for_each (apply_conflict fails current target) cs staged)
            (λ s. ok (s, length cs)) h in
        let same : mid ≡ staged' = cc in
        let loop' = rw same at loop in
        (
          staged-loop cs q staged (plan-IsPlanned triples) plain loop',
          staged-loop_sidecar cs q staged (plan-IsPlanned triples) loop',
          cc,
        )
