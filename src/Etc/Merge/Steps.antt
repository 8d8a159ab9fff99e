-- ===== src/Etc/Merge/Steps.antt =====
-- What one round of the loop writes, and what the whole loop leaves at a path.
use bootc_migrate.Prelude.{
  ◌≡◌, refl, ◌∙◌, Bool, true, false, Option, none, some, List, [], ◌∷◌, ◌++◌, arith, if◌then◌else◌,
  or_option, any, any-append, ok, err, ◌>>=◌, for_each, >>=-eq-ok,
}
use bootc_migrate.Text.{
  Text, text_eq, contains, ends_with, text_eq_iff, ends_with-append, text_eq-append_self,
  text_eq-append_right,
}
use bootc_migrate.Etc.Tree.{
  Bytes, Metadata, Node, DirEntry, file, symlink, Dict, lookup, keys, EtcTree,
  collect_relative_entries, read_file_at, WriteError, write_file, lookup-write_file,
  lookup-write_link, lookup-collect, keys-collect, contains-union_paths, union_paths,
  lookup-not_contains,
}
use bootc_migrate.Etc.Merge.{
  rebase_old_suffix, MergePolicy, choose_entry, write_rebase_old_sidecar, sidecar_step,
  write_chosen, merge_path, merge_etc_files_with_policy,
}
use bootc_migrate.Etc.Merge.Content.{tree_paths, chosen_node, result_at, sidecar_at}

module _ (fails : Text → Bool) where
  lookup-write_chosen :
      (e : Option DirEntry) (content : Option Bytes) (m : Option Metadata) (p q : Text)
      (out : Dict Node) {out' : Dict Node}
      → write_chosen fails e content m p out ≡ ok out'
      → lookup q out'
        ≡ (if text_eq q p then or_option (chosen_node e content m) (lookup q out) else lookup q out)
  unfolding write_chosen
  lookup-write_chosen none content m p q out h = ground arith
  lookup-write_chosen (some (symlink target)) content m p q out h =
      lookup-write_link fails p target out q h
  lookup-write_chosen (some file) none m p q out h = ground arith
  lookup-write_chosen (some file) (some content) m p q out h =
      lookup-write_file fails p content m out q h

  abbrev beside : Bool → Option DirEntry → EtcTree → Text → Option Node
  beside displaced e cur p =
      if displaced then chosen_node e (read_file_at cur p) (cur.stat p) else none

  lookup-sidecar :
      (e : DirEntry) (cur : EtcTree) (p q : Text) (out : Dict Node) {out' : Dict Node}
      → write_rebase_old_sidecar fails e cur p out ≡ ok out'
      → lookup q out' ≡ (
          if text_eq q (p ++ rebase_old_suffix)
          then or_option (chosen_node (some e) (read_file_at cur p) (cur.stat p)) (lookup q out)
          else lookup q out)
  unfolding write_rebase_old_sidecar
  lookup-sidecar (symlink target) cur p q out h =
      lookup-write_link fails (p ++ rebase_old_suffix) target out q h
  lookup-sidecar file cur p q out {out'} h = go (read_file_at cur p) h
    where
      go :
          (content : Option Bytes)
          → (elim content [
            | none ↦ err (WriteError.failed p)
            | some c ↦ write_file fails (p ++ rebase_old_suffix) c (cur.stat p) out
          ])
            ≡ ok out'
          → lookup q out' ≡ (
              if text_eq q (p ++ rebase_old_suffix)
              then or_option (chosen_node (some file) content (cur.stat p)) (lookup q out)
              else lookup q out)
      go none h = cc
      go (some c) h = lookup-write_file fails (p ++ rebase_old_suffix) c (cur.stat p) out q h

  lookup-sidecar_step :
      (displaced : Bool) (e : Option DirEntry) (cur : EtcTree) (p q : Text) (out : Dict Node)
      {out' : Dict Node}
      → sidecar_step fails displaced e cur p out ≡ ok out'
      → lookup q out' ≡ (
          if text_eq q (p ++ rebase_old_suffix)
          then or_option (beside displaced e cur p) (lookup q out)
          else lookup q out)
  unfolding sidecar_step
  lookup-sidecar_step true none cur p q out h = ground arith
  lookup-sidecar_step false none cur p q out h = ground arith
  lookup-sidecar_step true (some e) cur p q out h = lookup-sidecar e cur p q out h
  lookup-sidecar_step false (some e) cur p q out h = ground arith

  lookup-round :
      (displaced : Bool) (e chosen : Option DirEntry) (content : Option Bytes) (m : Option Metadata)
      (cur : EtcTree) (out : Dict Node) (p q : Text) {out' : Dict Node}
      → (sidecar_step fails displaced e cur p out >>= write_chosen fails chosen content m p)
        ≡ ok out'
      → lookup q out' ≡ (
          if text_eq q p
          then or_option (chosen_node chosen content m) (lookup q out)
          else if text_eq q (p ++ rebase_old_suffix)
          then or_option (beside displaced e cur p) (lookup q out)
          else lookup q out)
  lookup-round displaced e chosen content m cur out p q {out'} h =
      let (mid, before, after) =
        >>=-eq-ok (sidecar_step fails displaced e cur p out) (write_chosen fails chosen content m p)
          h in
      ground (
        arith,
        lookup-sidecar_step displaced e cur p q out {out' = mid} before,
        lookup-write_chosen chosen content m p q mid {out' = out'} after,
        text_eq-append_self p rebase_old_suffix (omega arith),
        text_eq_iff q p,
        text_eq_iff q (p ++ rebase_old_suffix),
      )

  -- One round writes at its path and beside it, and nowhere else.
  pub lookup-merge_path :
      (old cur new : EtcTree) (policy : MergePolicy) (out : Dict Node) (p q : Text)
      {out' : Dict Node}
      → merge_path fails old cur new policy out p ≡ ok out'
      → lookup q out' ≡ (
          if text_eq q p
          then or_option (result_at old cur new policy p) (lookup q out)
          else if text_eq q (p ++ rebase_old_suffix)
          then or_option (sidecar_at old cur new policy p) (lookup q out)
          else lookup q out)
  unfolding merge_path result_at sidecar_at
  lookup-merge_path old cur new policy out p q h = lookup-round _ _ _ _ _ cur out p q h

  module _ (old cur new : EtcTree) (policy : MergePolicy) where
    -- A path that is no sidecar of a path in the list ends with its own result.
    lookup-loop :
        (ps : List Text) (out : Dict Node) (q : Text) {out' : Dict Node}
        → for_each (merge_path fails old cur new policy) ps out ≡ ok out'
        → any (λ p. text_eq q (p ++ rebase_old_suffix)) ps ≡ false
        → lookup q out' ≡ (
            if contains ps q
            then or_option (result_at old cur new policy q) (lookup q out)
            else lookup q out)
    unfolding for_each
    lookup-loop [] out q h none_beside = ground arith
    lookup-loop (p ∷ ps) out q {out'} h none_beside =
        let (mid, first, rest) =
          >>=-eq-ok (merge_path fails old cur new policy out p)
            (λ t. for_each (merge_path fails old cur new policy) ps t) h in
        ground (
          arith,
          lookup-merge_path old cur new policy out p q {out' = mid} first,
          lookup-loop ps mid q {out' = out'} rest,
          text_eq_iff q p,
        )

    -- A sidecar that no path of the list stands for is written by its own path alone.
    lookup-loop_sidecar :
        (ps : List Text) (out : Dict Node) (q : Text) {out' : Dict Node}
        → for_each (merge_path fails old cur new policy) ps out ≡ ok out'
        → contains ps (q ++ rebase_old_suffix) ≡ false
        → lookup (q ++ rebase_old_suffix) out' ≡ (
            if contains ps q
            then or_option (sidecar_at old cur new policy q) (lookup (q ++ rebase_old_suffix) out)
            else lookup (q ++ rebase_old_suffix) out)
    unfolding for_each
    lookup-loop_sidecar [] out q h absent = ground arith
    lookup-loop_sidecar (p ∷ ps) out q {out'} h absent =
        let (mid, first, rest) =
          >>=-eq-ok (merge_path fails old cur new policy out p)
            (λ t. for_each (merge_path fails old cur new policy) ps t) h in
        ground (
          arith,
          lookup-merge_path old cur new policy out p (q ++ rebase_old_suffix) {out' = mid} first,
          lookup-loop_sidecar ps mid q {out' = out'} rest,
          text_eq-append_right q p rebase_old_suffix,
          text_eq_iff q p,
        )

    no_sidecar :
        (ps : List Text) (q : Text)
        → ends_with q rebase_old_suffix ≡ false
        → any (λ p. text_eq q (p ++ rebase_old_suffix)) ps ≡ false
    no_sidecar [] q h = refl
    no_sidecar (p ∷ ps) q h = ground (
      arith,
      no_sidecar ps q h,
      text_eq_iff q (p ++ rebase_old_suffix),
      ends_with-append p rebase_old_suffix,
    )

    absent_in :
        (t : EtcTree) (q : Text)
        → contains (keys t.nodes) q ≡ false
        → lookup q (collect_relative_entries t) ≡ none
    absent_in t q h = rw (lookup-collect t q, lookup-not_contains q t.nodes h)

    choose_entry_absent :
        (d : Option Bool) (modified : Bool) → (choose_entry d modified none none).0 ≡ none
    unfolding choose_entry
    choose_entry_absent none modified = ground arith
    choose_entry_absent (some true) modified = refl
    choose_entry_absent (some false) modified = refl

    -- A path in none of the trees is not written.
    result_at-not_contains :
        (q : Text)
        → contains (tree_paths old cur new) q ≡ false
        → result_at old cur new policy q ≡ none
    unfolding result_at
    result_at-not_contains q h = rw (
      absent_in cur q (
          ground (
            arith,
            any-append (text_eq q) (keys old.nodes) (keys cur.nodes ++ keys new.nodes),
            any-append (text_eq q) (keys cur.nodes) (keys new.nodes),
          )),
      absent_in new q (
          ground (
            arith,
            any-append (text_eq q) (keys old.nodes) (keys cur.nodes ++ keys new.nodes),
            any-append (text_eq q) (keys cur.nodes) (keys new.nodes),
          )),
      choose_entry_absent,
    )

    -- What the merge leaves at a path that is no sidecar, in an output directory without it.
    pub lookup-merge :
        (output : Dict Node) (q : Text) {out' : Dict Node}
        → merge_etc_files_with_policy fails old cur new output policy ≡ ok out'
        → lookup q output ≡ none
        → ends_with q rebase_old_suffix ≡ false
        → lookup q out' ≡ result_at old cur new policy q
    unfolding merge_etc_files_with_policy
    lookup-merge output q {out'} h fresh plain =
        let ps = union_paths (
          keys (collect_relative_entries old)
          ++ (keys (collect_relative_entries cur) ++ keys (collect_relative_entries new))) in
        let listed : contains ps q ≡ contains (tree_paths old cur new) q =
          rw (contains-union_paths, keys-collect old, keys-collect cur, keys-collect new) refl in
        ground (
          arith,
          lookup-loop ps output q {out' = out'} h (no_sidecar ps q plain),
          result_at-not_contains q,
          listed,
        )

    -- A path in none of the trees leaves no sidecar.
    sidecar_at-not_contains :
        (q : Text)
        → contains (tree_paths old cur new) q ≡ false
        → sidecar_at old cur new policy q ≡ none
    unfolding sidecar_at
    sidecar_at-not_contains q h =
        rw
          (absent_in cur q (
            ground (
              arith,
              any-append (text_eq q) (keys old.nodes) (keys cur.nodes ++ keys new.nodes),
              any-append (text_eq q) (keys cur.nodes) (keys new.nodes),
            )))
          (ground arith)

    -- What the merge leaves beside a path, where no tree has a path of that name.
    pub lookup-merge_sidecar :
        (output : Dict Node) (q : Text) {out' : Dict Node}
        → merge_etc_files_with_policy fails old cur new output policy ≡ ok out'
        → lookup (q ++ rebase_old_suffix) output ≡ none
        → contains (tree_paths old cur new) (q ++ rebase_old_suffix) ≡ false
        → lookup (q ++ rebase_old_suffix) out' ≡ sidecar_at old cur new policy q
    unfolding merge_etc_files_with_policy
    lookup-merge_sidecar output q {out'} h fresh alone =
        let ps = union_paths (
          keys (collect_relative_entries old)
          ++ (keys (collect_relative_entries cur) ++ keys (collect_relative_entries new))) in
        let listed : (r : Text) → contains ps r ≡ contains (tree_paths old cur new) r = λ r.
          rw (contains-union_paths, keys-collect old, keys-collect cur, keys-collect new) refl in
        ground (
          arith,
          lookup-loop_sidecar ps output q {out' = out'} h (listed (q ++ rebase_old_suffix) ∙ alone),
          sidecar_at-not_contains q,
          listed q,
        )
