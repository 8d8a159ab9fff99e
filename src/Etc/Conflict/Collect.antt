-- ===== src/Etc/Conflict/Collect.antt =====
-- The pass from the three trees to the staged `/etc`.
use bootc_migrate.Prelude.{
  ℕ, ◌≡◌, refl, sym, ap, ◌∙◌, inl, inr, Bool, true, false, ◌&&◌, ◌||◌, Option, none, some, List, [],
  ◌∷◌, ◌++◌, arith, if◌then◌else◌, Bool-cases, is_none, any, ok,
}
use bootc_migrate.Text.{Text, text_eq, contains, ends_with, sort, text_eq→eq, contains-sort}
use bootc_migrate.Etc.Tree.{Node, Dict, keys, EtcTree, lookup-not_contains}
use bootc_migrate.Etc.Merge.{rebase_old_suffix}
use bootc_migrate.Etc.Conflict.{
  EtcEntry, EtcTriple, classify, classify_present, plan_etc_conflicts, entry_of_option, read_entry,
  triples_over, collect_etc_triples, apply_etc_conflict_plan,
}
use bootc_migrate.Etc.Conflict.Plan.{is_take, rewrites, plan-rewrites}
use bootc_migrate.Etc.Conflict.Apply.{staged_entry, apply_etc_conflict_plan_lem}

-- The triple of a path, and whether the policy takes the target's default there.
abbrev pub triple_at : EtcTree → EtcTree → EtcTree → Text → EtcTriple
triple_at source current target p = record {
  path = p;
  source_default = read_entry source p;
  current = read_entry current p;
  target_default = read_entry target p;
}

abbrev pub takes_target_at : EtcTree → EtcTree → EtcTree → Text → Bool
takes_target_at source current target p = is_take (classify (triple_at source current target p))

module _ (source current target : EtcTree) where
  no_target :
      (p : Text)
      → is_none (read_entry target p) ≡ true
      → takes_target_at source current target p ≡ false
  unfolding classify classify_present is_take
  no_target p h =
      go (ends_with p rebase_old_suffix) (read_entry source p) (read_entry current p)
        (read_entry target p) h
    where
      go :
          (sidecar : Bool) (s c t : Option EtcEntry)
          → is_none t ≡ true
          → is_take (if sidecar then none else classify_present p s c t) ≡ false
      go true s c t k = refl
      go false none c t k = refl
      go false (some s) none t k = refl
      go false (some s) (some c) none k = refl
      go false (some s) (some c) (some t) k = cc

  no_source :
      (p : Text) → read_entry source p ≡ none → takes_target_at source current target p ≡ false
  unfolding classify classify_present is_take
  no_source p h = rw h (go (ends_with p rebase_old_suffix))
    where
      go :
          (sidecar : Bool)
          → is_take (
              if sidecar
              then none
              else classify_present p none (read_entry current p) (read_entry target p))
            ≡ false
      go true = refl
      go false = refl

  takes-triples_over :
      (q : Text) (ps : List Text)
      → any (λ t. text_eq q t.path && is_take (classify t)) (triples_over source current target ps)
        ≡ (contains ps q && takes_target_at source current target q)
  unfolding triples_over
  takes-triples_over q [] = refl
  takes-triples_over q (p ∷ ps) =
      let rest = takes-triples_over q ps in
      let same : text_eq q p ≡ true
          → takes_target_at source current target q ≡ takes_target_at source current target p =
        λ e. ap (takes_target_at source current target) (text_eq→eq q p e) in
      elim (Bool-cases (is_none (read_entry target p))) [
        | inl gone ↦
            rw gone (skipped (text_eq q p) (contains ps q) rest (λ e. same e ∙ no_target p gone))
        | inr there ↦ rw there (kept (text_eq q p) (contains ps q) rest same)
      ]
    where
      skipped :
          (here later : Bool) {found takes : Bool}
          → found ≡ (later && takes)
          → (here ≡ true → takes ≡ false)
          → found ≡ ((here || later) && takes)
      skipped here later e k = ground arith

      kept :
          (here later : Bool) {found takes takes_here : Bool}
          → found ≡ (later && takes)
          → (here ≡ true → takes ≡ takes_here)
          → (here && takes_here || found) ≡ ((here || later) && takes)
      kept here later e k = ground arith

  -- The plan made from the trees rewrites a path exactly where the policy takes the target's default.
  rewrites-collect :
      (q : Text)
      → rewrites (plan_etc_conflicts (collect_etc_triples source current target)).resolved q
        ≡ takes_target_at source current target q
  unfolding collect_etc_triples read_entry
  rewrites-collect q =
      plan-rewrites (triples_over source current target (sort (keys source.nodes))) q
      ∙ (takes-triples_over q (sort (keys source.nodes))
          ∙ rw (contains-sort (keys source.nodes) q)
              (elim (Bool-cases (contains (keys source.nodes) q)) [
                | inl listed ↦ rw listed
                | inr absent ↦ rw absent (
                    sym (
                      no_source q (ap entry_of_option (lookup-not_contains q source.nodes absent))))
              ]))

-- The pass from the trees: where it succeeds, each path that is no sidecar has the target's entry,
-- and the user's entry in the sidecar beside it, if the policy takes the target's default there; if
-- not, both have what they had.
pub apply-collect_etc_triples :
    (fails : Text → Bool) (source current target : EtcTree) (staged : Dict Node) (q : Text)
    {staged' : Dict Node} {n : ℕ}
    → apply_etc_conflict_plan fails current target
        (plan_etc_conflicts (collect_etc_triples source current target))
        staged
      ≡ ok (staged', n)
    → ends_with q rebase_old_suffix ≡ false
    → (staged_entry staged' q ≡ (
        if takes_target_at source current target q
        then read_entry target q
        else staged_entry staged q))
      × (staged_entry staged' (q ++ rebase_old_suffix) ≡ (
          if takes_target_at source current target q
          then read_entry current q
          else staged_entry staged (q ++ rebase_old_suffix)))
apply-collect_etc_triples fails source current target staged q {staged'} {n} h plain =
    let (at, beside, count) =
      apply_etc_conflict_plan_lem fails current target (collect_etc_triples source current target)
        staged q {staged' = staged'} {n = n} h plain in
    rw (← rewrites-collect source current target q) (at, beside)
