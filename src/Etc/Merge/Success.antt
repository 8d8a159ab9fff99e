-- ===== src/Etc/Merge/Success.antt =====
-- When the merge succeeds.
use mathlib.Core.List.{Memᴰ}
use mathlib.Core.Option.{some-injective}
use bootc_migrate.Prelude.{
  ◌≡◌, refl, sym, ap, ◌∙◌, inl, inr, Bool, true, false, ◌&&◌, not, Option, none, some, List, [],
  ◌∷◌, ◌++◌, arith, if◌then◌else◌, Bool-cases, All, all, ok, ◌>>=◌, for_each-ok, any_of_mem,
}
use bootc_migrate.Text.{Text, text_eq, contains, starts_with, text_eq→eq, text_eq_self}
use bootc_migrate.Etc.Tree.{
  Bytes, Metadata, Node, regular, link, DirEntry, file, symlink, Dict, lookup, insert, keys,
  EtcTree, collect_relative_entries, read_file_at, union_paths, write_file, write_link, is_blocked,
  is_link_at, slash, contains-union_paths, keys-collect,
}
use bootc_migrate.Etc.Identity.{source_first}
use bootc_migrate.Etc.Merge.{
  decision, choose_entry, merged_content, metadata_source, user_modified_at, write_chosen,
  sidecar_step, merge_path, merge_etc_files, merge_etc_files_with_overrides,
  merge_etc_files_with_policy,
}
use bootc_migrate.Etc.Merge.Content.{tree_paths}

-- Neither path lies below the other.
abbrev pub apart : Text → Text → Bool
apart p q = not (starts_with p (q ++ slash)) && not (starts_with q (p ++ slash))

-- No path lies below another one: the trees agree on which paths are directories.
abbrev pub is_flat : List Text → Bool
is_flat ps = all (λ p. all (apart p) ps) ps

all-contains :
    (f : Text → Bool) (ps : List Text) (p : Text)
    → all f ps ≡ true
    → contains ps p ≡ true
    → f p ≡ true
all-contains f [] p h m = cc
all-contains f (q ∷ ps) p h m = elim (Bool-cases (text_eq p q)) [
  | inl same ↦ rw (text_eq→eq p q same) (ground arith)
  | inr other ↦ all-contains f ps p (ground arith) (ground arith)
]

abbrev is_link : Node → Bool
is_link (regular c m) = false
is_link (link t) = true

abbrev is_symlink : Option DirEntry → Bool
is_symlink none = false
is_symlink (some file) = false
is_symlink (some (symlink t)) = true

module _ (ps : List Text) (flat : is_flat ps ≡ true) (chosen : Text → Option DirEntry) where
  -- What is written so far: leaves at paths of the trees, links only where a link was chosen.
  abbrev Written : Dict Node → Type 0
  Written =
      All {A = Text × Node}
        (λ e. (contains ps e.0 ≡ true) × (is_link e.1 ≡ is_symlink (chosen e.0)))

  insert-Written :
      (p : Text) (n : Node) (out : Dict Node)
      → contains ps p ≡ true
      → is_link n ≡ is_symlink (chosen p)
      → Written out
      → Written (insert p n out)
  unfolding insert
  insert-Written p n [] m k w = ((m, k), tt)
  insert-Written p n ((q, v) ∷ out) m k w =
      let rest = insert-Written p n out m k w.1 in
      elim (Bool-cases (text_eq p q)) [
        | inl same ↦ rw same ((m, k), w.1)
        | inr other ↦ rw other (w.0, rest)
      ]

  unblocked :
      (p : Text) (out : Dict Node) → contains ps p ≡ true → Written out → is_blocked p out ≡ false
  unfolding is_blocked
  unblocked p [] m w = refl
  unblocked p ((q, v) ∷ out) m w =
      let rest = unblocked p out m w.1 in
      let clear =
        all-contains (apart p) ps q (all-contains (λ p. all (apart p) ps) ps p flat m) w.0.0 in
      ground arith

  Written-is_link :
      (p : Text) (out : Dict Node) {n : Node}
      → Written out
      → lookup p out ≡ some n
      → is_link n ≡ is_symlink (chosen p)
  unfolding lookup
  Written-is_link p [] w h = cc
  Written-is_link p ((q, v) ∷ out) {n} w h = elim (Bool-cases (text_eq p q)) [
    | inl same ↦
        let here : some v ≡ some n = ground arith in
        ap is_link (sym (some-injective v n here))
        ∙ (w.0.1 ∙ ap (λ r. is_symlink (chosen r)) (sym (text_eq→eq p q same)))
    | inr other ↦ Written-is_link p out {n = n} w.1 (ground arith)
  ]

  no_link :
      (p : Text) (out : Dict Node)
      → is_symlink (chosen p) ≡ false
      → Written out
      → is_link_at p out ≡ false
  unfolding is_link_at
  no_link p out f w = go (lookup p out) (λ n h. Written-is_link p out {n = n} w h ∙ f)
    where
      go :
          (o : Option Node)
          → ((n : Node) → o ≡ some n → is_link n ≡ false)
          → (elim o [ none ↦ false | some n ↦ elim n [ regular c s ↦ false | link t ↦ true ] ])
            ≡ false
      go none k = refl
      go (some (regular c s)) k = refl
      go (some (link t)) k = k (link t) refl

  write_chosen-ok :
      (content : Option Bytes) (m : Option Metadata) (p : Text) (out : Dict Node)
      → contains ps p ≡ true
      → Written out
      → (t : Dict Node) × (write_chosen (λ q. false) (chosen p) content m p out ≡ ok t) × Written t
  unfolding write_chosen write_file write_link
  write_chosen-ok content m p out listed w = go (chosen p) content refl
    where
      go :
          (e : Option DirEntry) (c : Option Bytes)
          → chosen p ≡ e
          → (t : Dict Node) × (write_chosen (λ q. false) e c m p out ≡ ok t) × Written t
      go none c h = (out, refl, w)
      go (some (symlink target)) c h = (
        insert p (link target) out,
        rw (unblocked p out listed w),
        insert-Written p (link target) out listed (sym (ap is_symlink h)) w,
      )
      go (some file) none h = (out, refl, w)
      go (some file) (some c) h = (
        insert p (regular c m) out,
        rw (unblocked p out listed w, no_link p out (ap is_symlink h) w),
        insert-Written p (regular c m) out listed (sym (ap is_symlink h)) w,
      )

sidecar_step_idle :
    (e : Option DirEntry) (cur : EtcTree) (p : Text) (out : Dict Node)
    → sidecar_step (λ q. false) false e cur p out ≡ ok out
unfolding sidecar_step
sidecar_step_idle none cur p out = refl
sidecar_step_idle (some e) cur p out = refl

module _ (old cur new : EtcTree) where
  -- What the path takes if nothing was decided.
  default_entry : Text → Option DirEntry
  default_entry p =
      if user_modified_at (lookup p (collect_relative_entries old))
        (lookup p (collect_relative_entries cur)) old cur p
      then lookup p (collect_relative_entries cur)
      else lookup p (collect_relative_entries new)

  listed_path :
      {p : Text}
      → Memᴰ p (
          union_paths (
            keys (collect_relative_entries old)
            ++ (keys (collect_relative_entries cur) ++ keys (collect_relative_entries new))))
      → contains (tree_paths old cur new) p ≡ true
  listed_path {p} m =
      rw (← keys-collect old, ← keys-collect cur, ← keys-collect new)
        (sym (contains-union_paths _ p) ∙ any_of_mem (text_eq p) m (text_eq_self p))

  -- A merge into an empty directory succeeds, if the system refuses no write and no path of the
  -- trees lies below another one.
  pub merge_etc_files-ok :
      is_flat (tree_paths old cur new) ≡ true
      → (out : Dict Node) × (merge_etc_files (λ p. false) old cur new [] ≡ ok out)
  unfolding merge_etc_files merge_etc_files_with_overrides merge_etc_files_with_policy merge_path
      decision choose_entry default_entry
  merge_etc_files-ok flat =
      for_each-ok (Written (tree_paths old cur new) flat default_entry)
        (merge_path (λ p. false) old cur new (record { overrides = none; identity = source_first }))
        _ []
        (λ out p m w.
          let (t, written, inv) =
            write_chosen-ok (tree_paths old cur new) flat default_entry
              (merged_content false p source_first (read_file_at old p) (read_file_at cur p)
                (read_file_at new p))
              (metadata_source false old cur new p) p out (listed_path m) w in
          (
            t,
            ap
                  (λ r.
                    r
                    >>= write_chosen (λ q. false) (default_entry p)
                        (merged_content false p source_first (read_file_at old p)
                          (read_file_at cur p) (read_file_at new p))
                        (metadata_source false old cur new p) p)
                  (sidecar_step_idle (lookup p (collect_relative_entries cur)) cur p out)
                ∙ written,
            inv,
          ))
        tt
