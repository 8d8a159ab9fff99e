-- ===== src/Etc/Conflict/Plan.antt =====
-- Which paths the conflict plan names.
use bootc_migrate.Prelude.{
  ◌≡◌, refl, ap, ◌∙◌, ◌≢◌, ◌↔◌, inl, inr, Bool, true, false, ◌&&◌, ◌||◌, not, Option, none, some,
  List, [], ◌∷◌, ◌++◌, arith, if◌then◌else◌, Bool-cases, All, any,
}
use bootc_migrate.Text.{Text, text_eq, text_le, ends_with, text_eq_iff}
use bootc_migrate.Etc.Merge.{rebase_old_suffix}
use bootc_migrate.Etc.Conflict.{
  EtcEntry, file, symlink, EtcTriple, Decision, take_target_default, exempt_keep_current,
  EtcConflict, EtcConflictPlan, is_exempt, same_entry, same_kind, decide_entry, classify_entries,
  classify_present, classify, add_decision, collect_decisions, insert_conflict, sort_conflicts,
  plan_etc_conflicts,
}

same_entry_iff : (e f : EtcEntry) → (same_entry e f ≡ true) ↔ (e ≡ f)
unfolding same_entry
same_entry_iff (file c) (file d) = ground (arith, text_eq_iff c d)
same_entry_iff (file c) (symlink d) = ground arith
same_entry_iff (symlink c) (file d) = ground arith
same_entry_iff (symlink c) (symlink d) = ground (arith, text_eq_iff c d)

-- Three entries of one kind, no two of them equal.
pub record Diverge (s c t : EtcEntry) : Type 0 where
  pub kind : same_kind s c t ≡ true
  pub user_modified : c ≢ s
  pub default_diverged : t ≢ s
  pub not_at_target : c ≢ t

-- The path has an entry in each tree, the three diverge, and the path is no sidecar.
abbrev pub IsConflict : EtcTriple → Type 0
IsConflict triple =
    (s : EtcEntry) × (c : EtcEntry) × (t : EtcEntry) × (triple.source_default ≡ some s)
    × (triple.current ≡ some c)
    × (triple.target_default ≡ some t)
    × Diverge s c t
    × (ends_with triple.path rebase_old_suffix ≡ false)

-- What the policy decides for a conflict.
abbrev pub verdict : Bool → Decision
verdict exempt = if exempt then exempt_keep_current else take_target_default

decide_entry-eq-some :
    (kind user diverged at exempt : Bool) {d : Decision}
    → decide_entry kind user diverged at exempt ≡ some d
    → (kind ≡ true) × (user ≡ true) × (diverged ≡ true) × (at ≡ false) × (d ≡ verdict exempt)
unfolding decide_entry
decide_entry-eq-some kind user diverged at exempt h = ground arith

same_entry-ne : (e f : EtcEntry) → e ≢ f → same_entry e f ≡ false
same_entry-ne e f h = ground (arith, same_entry_iff e f)

pub ne-same_entry : (e f : EtcEntry) → not (same_entry e f) ≡ true → e ≢ f
ne-same_entry e f h = ground (arith, same_entry_iff e f)

-- A conflict gets the decision that its path calls for.
pub classify-conflict :
    (triple : EtcTriple)
    → IsConflict triple
    → classify triple ≡ some (verdict (is_exempt triple.path))
unfolding classify
classify-conflict triple (s, c, t, hs, hc, ht, d, plain) =
    rw
      (
        plain,
        hs,
        hc,
        ht,
        d.kind,
        same_entry-ne c s d.user_modified,
        same_entry-ne t s d.default_diverged,
        same_entry-ne c t d.not_at_target,
      )
      (verdict_lem (is_exempt triple.path))
  where
    verdict_lem :
        (b : Bool)
        → (if b then some exempt_keep_current else some take_target_default) ≡ some (verdict b)
    verdict_lem true = refl
    verdict_lem false = refl

classify_entries-Diverge :
    (p : Text) (s c t : EtcEntry) {d : Decision}
    → classify_entries p s c t ≡ some d
    → Diverge s c t × (d ≡ verdict (is_exempt p))
unfolding classify_entries
classify_entries-Diverge p s c t h =
    let (kind, user, diverged, at, verdict_is) =
      decide_entry-eq-some (same_kind s c t) (not (same_entry c s)) (not (same_entry t s))
        (same_entry c t) (is_exempt p) h in
    (
      record {
        kind = kind;
        user_modified = ne-same_entry c s user;
        default_diverged = ne-same_entry t s diverged;
        not_at_target = ne-same_entry c t (ap not at);
      },
      verdict_is,
    )

-- Only a conflict gets a decision.
pub classify-eq-some :
    (triple : EtcTriple) {d : Decision}
    → classify triple ≡ some d
    → IsConflict triple × (d ≡ verdict (is_exempt triple.path))
unfolding classify
classify-eq-some triple {d} h = elim (Bool-cases (ends_with triple.path rebase_old_suffix)) [
  | inl e ↦ absurd (ground arith)
  | inr e ↦
      go triple.source_default triple.current triple.target_default refl refl refl e (ground arith)
]
  where
    go :
        (s c t : Option EtcEntry)
        → triple.source_default ≡ s
        → triple.current ≡ c
        → triple.target_default ≡ t
        → ends_with triple.path rebase_old_suffix ≡ false
        → classify_present triple.path s c t ≡ some d
        → IsConflict triple × (d ≡ verdict (is_exempt triple.path))
    go none c t hs hc ht e k = cc
    go (some s) none t hs hc ht e k = cc
    go (some s) (some c) none hs hc ht e k = cc
    go (some s) (some c) (some t) hs hc ht e k =
        let (apart, verdict_is) = classify_entries-Diverge triple.path s c t k in
        ((s, c, t, hs, hc, ht, apart, e), verdict_is)

-- Whether the plan rewrites the path.
abbrev pub rewrites : List EtcConflict → Text → Bool
rewrites cs p = any (λ c. text_eq p c.path) cs

-- What each conflict of a plan satisfies.
pub record IsPlanned (c : EtcConflict) : Type 0 where
  pub beside : c.sidecar ≡ c.path ++ rebase_old_suffix
  pub plain : ends_with c.path rebase_old_suffix ≡ false

unfoldable pub is_take : Option Decision → Bool
is_take none = false
is_take (some take_target_default) = true
is_take (some exempt_keep_current) = false

rewrites-insert :
    (c : EtcConflict) (cs : List EtcConflict) (p : Text)
    → rewrites (insert_conflict c cs) p ≡ (text_eq p c.path || rewrites cs p)
unfolding insert_conflict
rewrites-insert c [] p = refl
rewrites-insert c (d ∷ ds) p = ground (arith, rewrites-insert c ds p)

rewrites-sort : (cs : List EtcConflict) (p : Text) → rewrites (sort_conflicts cs) p ≡ rewrites cs p
unfolding sort_conflicts
rewrites-sort [] p = refl
rewrites-sort (c ∷ cs) p =
    ground (arith, rewrites-insert c (sort_conflicts cs) p, rewrites-sort cs p)

rewrites-add :
    (t : EtcTriple) (d : Option Decision) (plan : EtcConflictPlan) (p : Text)
    → rewrites (add_decision t d plan).resolved p
      ≡ (text_eq p t.path && is_take d || rewrites plan.resolved p)
unfolding add_decision is_take
rewrites-add t none plan p = ground arith
rewrites-add t (some take_target_default) plan p = ground arith
rewrites-add t (some exempt_keep_current) plan p = ground arith

rewrites-collect :
    (ts : List EtcTriple) (p : Text)
    → rewrites (collect_decisions ts).resolved p
      ≡ any (λ t. text_eq p t.path && is_take (classify t)) ts
unfolding collect_decisions
rewrites-collect [] p = refl
rewrites-collect (t ∷ ts) p =
    rewrites-add t (classify t) (collect_decisions ts) p
    ∙ ap (λ b. text_eq p t.path && is_take (classify t) || b) (rewrites-collect ts p)

-- The plan rewrites a path exactly if the policy takes the target's default at a triple of it.
pub plan-rewrites :
    (ts : List EtcTriple) (p : Text)
    → rewrites (plan_etc_conflicts ts).resolved p
      ≡ any (λ t. text_eq p t.path && is_take (classify t)) ts
unfolding plan_etc_conflicts
plan-rewrites ts p = rewrites-sort (collect_decisions ts).resolved p ∙ rewrites-collect ts p

insert-IsPlanned :
    (c : EtcConflict) (cs : List EtcConflict)
    → IsPlanned c
    → All IsPlanned cs
    → All IsPlanned (insert_conflict c cs)
unfolding insert_conflict
insert-IsPlanned c [] h hs = (h, tt)
insert-IsPlanned c (d ∷ ds) h hs = elim (Bool-cases (text_le c.path d.path)) [
  | inl e ↦ rw e (h, hs)
  | inr e ↦ rw e (hs.0, insert-IsPlanned c ds h hs.1)
]

sort-IsPlanned : (cs : List EtcConflict) → All IsPlanned cs → All IsPlanned (sort_conflicts cs)
unfolding sort_conflicts
sort-IsPlanned [] hs = tt
sort-IsPlanned (c ∷ cs) hs = insert-IsPlanned c (sort_conflicts cs) hs.0 (sort-IsPlanned cs hs.1)

add-IsPlanned :
    (t : EtcTriple) (d : Option Decision) (plan : EtcConflictPlan)
    → classify t ≡ d
    → All IsPlanned plan.resolved
    → All IsPlanned (add_decision t d plan).resolved
unfolding add_decision
add-IsPlanned t none plan e hs = hs
add-IsPlanned t (some exempt_keep_current) plan e hs = hs
add-IsPlanned t (some take_target_default) plan e hs =
    let (conflict, v) = classify-eq-some t e in
    let (s, c, g, hs', hc, hg, apart, plain) = conflict in
    (record { beside = refl; plain = plain }, hs)

collect-IsPlanned : (ts : List EtcTriple) → All IsPlanned (collect_decisions ts).resolved
unfolding collect_decisions
collect-IsPlanned [] = tt
collect-IsPlanned (t ∷ ts) =
    add-IsPlanned t (classify t) (collect_decisions ts) refl (collect-IsPlanned ts)

-- Every conflict of a plan has its sidecar beside it, and is no sidecar itself.
pub plan-IsPlanned : (ts : List EtcTriple) → All IsPlanned (plan_etc_conflicts ts).resolved
unfolding plan_etc_conflicts
plan-IsPlanned ts = sort-IsPlanned (collect_decisions ts).resolved (collect-IsPlanned ts)
