-- ===== src/Etc/Conflict/Named.antt =====
-- Which triples a conflict plan of etc_conflict.rs names, and in which of its lists.
use mathlib.Core.List.{Memᴰ}
use bootc_migrate.Prelude.{
  ◌≡◌, refl, sym, ap, ◌∙◌, subst, ◌↔◌, inl, inr, Bool, true, false, ◌&&◌, ◌||◌, Option, none, some,
  List, [], ◌∷◌, arith, Bool-cases, any, any_of_mem,
}
use bootc_migrate.Text.{Text, contains, text_eq, text_eq_iff, contains-sort}
use bootc_migrate.Etc.Conflict.{
  EtcTriple, Decision, take_target_default, exempt_keep_current, EtcConflictPlan, is_exempt,
  classify, add_decision, collect_decisions, plan_etc_conflicts,
}
use bootc_migrate.Etc.Conflict.Plan.{
  IsConflict, verdict, classify-conflict, classify-eq-some, rewrites, is_take, plan-rewrites,
}

unfoldable is_kept : Option Decision → Bool
is_kept none = false
is_kept (some take_target_default) = false
is_kept (some exempt_keep_current) = true

exempt-add :
    (t : EtcTriple) (d : Option Decision) (plan : EtcConflictPlan) (p : Text)
    → contains (add_decision t d plan).exempt p
      ≡ (text_eq p t.path && is_kept d || contains plan.exempt p)
unfolding add_decision is_kept
exempt-add t none plan p = ground arith
exempt-add t (some take_target_default) plan p = ground arith
exempt-add t (some exempt_keep_current) plan p = ground arith

exempt-collect :
    (ts : List EtcTriple) (p : Text)
    → contains (collect_decisions ts).exempt p
      ≡ any (λ t. text_eq p t.path && is_kept (classify t)) ts
unfolding collect_decisions
exempt-collect [] p = refl
exempt-collect (t ∷ ts) p =
    exempt-add t (classify t) (collect_decisions ts) p
    ∙ ap (λ b. text_eq p t.path && is_kept (classify t) || b) (exempt-collect ts p)

plan-exempt :
    (ts : List EtcTriple) (p : Text)
    → contains (plan_etc_conflicts ts).exempt p
      ≡ any (λ t. text_eq p t.path && is_kept (classify t)) ts
unfolding plan_etc_conflicts
plan-exempt ts p = contains-sort (collect_decisions ts).exempt p ∙ exempt-collect ts p

-- A triple of the path that is a conflict, where the path's exemption is as given.
abbrev pub HasConflict : List EtcTriple → Text → Bool → Type 0
HasConflict ts p exempt =
    (t : EtcTriple) × Memᴰ t ts × (t.path ≡ p) × IsConflict t × (is_exempt p ≡ exempt)

mem_of_any {ℓ} :
    {A : Type ℓ} (q : A → Bool) (xs : List A) → any q xs ≡ true → (x : A) × Memᴰ x xs × (q x ≡ true)
mem_of_any q [] h = cc
mem_of_any q (x ∷ xs) h = elim (Bool-cases (q x)) [
  | inl yes_x ↦ (x, Memᴰ.head refl, yes_x)
  | inr no_x ↦ let (y, m, e) = mem_of_any q xs (ground arith) in (y, Memᴰ.tail m, e)
]

decided :
    (ts : List EtcTriple) (p : Text) (t : EtcTriple) (b : Bool)
    → Memᴰ t ts
    → text_eq p t.path ≡ true
    → classify t ≡ some (verdict b)
    → HasConflict ts p b
decided ts p t b m same e =
    let at : p ≡ t.path = (text_eq_iff p t.path).0 same in
    let (conflict, v) = classify-eq-some t e in
    (t, m, sym at, conflict, ap is_exempt at ∙ verdict-inj (is_exempt t.path) b (sym v))
  where
    verdict-inj : (b c : Bool) → verdict b ≡ verdict c → b ≡ c
    verdict-inj true true e = refl
    verdict-inj false false e = refl
    verdict-inj true false e = cc
    verdict-inj false true e = cc

-- A test that only one decision passes holds at some triple of the path exactly if the path has a
-- conflict with that decision.
named_iff :
    (test : Option Decision → Bool) (b : Bool) (ts : List EtcTriple) (p : Text)
    → ((d : Option Decision) → (test d ≡ true) ↔ (d ≡ some (verdict b)))
    → (any (λ t. text_eq p t.path && test (classify t)) ts ≡ true) ↔ HasConflict ts p b
named_iff test b ts p only = (forth, back)
  where
    both : (x y : Bool) → (x && y) ≡ true → (x ≡ true) × (y ≡ true)
    both x y h = ground (arith, h)

    forth : any (λ t. text_eq p t.path && test (classify t)) ts ≡ true → HasConflict ts p b
    forth h =
        let (t, m, e) = mem_of_any (λ t. text_eq p t.path && test (classify t)) ts h in
        let (same, passed) = both (text_eq p t.path) (test (classify t)) e in
        decided ts p t b m same ((only (classify t)).0 passed)

    back : HasConflict ts p b → any (λ t. text_eq p t.path && test (classify t)) ts ≡ true
    back (t, m, at, conflict, exempt) =
        let same : text_eq p t.path ≡ true = (text_eq_iff p t.path).1 (sym at) in
        let verdict_is : classify t ≡ some (verdict b) =
          classify-conflict t conflict ∙ ap (λ c. some (verdict c)) (ap is_exempt at ∙ exempt) in
        any_of_mem (λ t. text_eq p t.path && test (classify t)) m
          (rw same ((only (classify t)).1 verdict_is))

is_take_iff : (d : Option Decision) → (is_take d ≡ true) ↔ (d ≡ some (verdict false))
unfolding is_take
is_take_iff none = ground arith
is_take_iff (some take_target_default) = ground arith
is_take_iff (some exempt_keep_current) = ground arith

is_kept_iff : (d : Option Decision) → (is_kept d ≡ true) ↔ (d ≡ some (verdict true))
unfolding is_kept
is_kept_iff none = ground arith
is_kept_iff (some take_target_default) = ground arith
is_kept_iff (some exempt_keep_current) = ground arith

-- The plan rewrites a path exactly if a triple of it is a conflict and the path is not exempt, and
-- lists it as exempt exactly if a triple of it is a conflict and the path is exempt. A triple is a
-- conflict if the three trees have entries of one kind there, the user's and the target's differ
-- from the source's and from each other, and the path is no sidecar.
pub plan_etc_conflicts_lem :
    (ts : List EtcTriple) (p : Text)
    → ((rewrites (plan_etc_conflicts ts).resolved p ≡ true) ↔ HasConflict ts p false)
      × ((contains (plan_etc_conflicts ts).exempt p ≡ true) ↔ HasConflict ts p true)
plan_etc_conflicts_lem ts p = (
  subst (λ b. (b ≡ true) ↔ HasConflict ts p false) (sym (plan-rewrites ts p))
      (named_iff is_take false ts p is_take_iff),
  subst (λ b. (b ≡ true) ↔ HasConflict ts p true) (sym (plan-exempt ts p))
      (named_iff is_kept true ts p is_kept_iff),
)
