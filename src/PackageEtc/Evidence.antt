-- ===== src/PackageEtc/Evidence.antt =====
-- What the package evidence of package_etc.rs lets the plan replace.
use bootc_migrate.Prelude.{
  ◌≡◌, refl, sym, ap, ◌∙◌, subst, ◌≢◌, ◌⊎◌, inl, inr, Bool, true, false, ◌&&◌, not, some, List, [],
  ◌∷◌, ◌++◌, Bool-cases,
}
use bootc_migrate.Text.{Text, text_eq, contains}
use mathlib.Core.List.{Memᴰ}
use bootc_migrate.Etc.Tree.{Dict, lookup}
use bootc_migrate.Etc.Identity.{is_identity_db}
use bootc_migrate.Etc.Merge.{decision_for}
use bootc_migrate.Etc.Drift.{EtcPathState}
use bootc_migrate.CrossFamily.Policy.{is_carried_over, plan_etc, decide_all}
use bootc_migrate.CrossFamily.Carried.{plan_etc-carries}
use bootc_migrate.PackageEtc.Inventory.{
  PackageEtcInventory, PackagePathClass, vendor_default, user_modified_class, user_added,
  machine_state, unknown, class_of, classify, Adjusted, adjust, adjust_live, adjust_removed,
  adjust_state, adjust_states, package_plan_etc, package_overrides,
}

lookup-decide_all :
    (ps : List Text) (rest : Dict Bool) (p : Text)
    → (contains ps p ≡ true) ⊎ (lookup p rest ≡ some true)
    → lookup p (decide_all true ps ++ rest) ≡ some true
unfolding lookup
lookup-decide_all [] rest p (inl h) = cc
lookup-decide_all [] rest p (inr h) = h
lookup-decide_all (q ∷ ps) rest p h = elim (Bool-cases (text_eq p q)) [
  | inl same ↦ rw same refl
  | inr other ↦ rw other (lookup-decide_all ps rest p (behind h other))
]
  where
    behind :
        (contains (q ∷ ps) p ≡ true) ⊎ (lookup p rest ≡ some true)
        → text_eq p q ≡ false
        → (contains ps p ≡ true) ⊎ (lookup p rest ≡ some true)
    behind (inl h) other = inl (sym (rw other refl) ∙ h)
    behind (inr h) other = inr h

adjust_state-tail :
    (inventory : PackageEtcInventory) (s st : EtcPathState) (rest : Adjusted)
    → Memᴰ st rest.states
    → Memᴰ st (adjust_state inventory s rest).states
unfolding adjust_state adjust_live adjust_removed
adjust_state-tail inventory s st rest m =
    elim (Bool-cases (s.in_current && not (is_identity_db s.path))) [
      | inl live ↦ rw live (Memᴰ.tail m)
      | inr gone ↦
          elim (Bool-cases (
            not (is_identity_db s.path)
            && (inventory.complete
                && (contains inventory.owned s.path && contains inventory.modified s.path)))) [
                  | inl edited ↦ rw (gone, edited) (Memᴰ.tail m)
                  | inr plain ↦ rw (gone, plain) (Memᴰ.tail m)
                ]
    ]

adjust_states-mem :
    (inventory : PackageEtcInventory) (states : List EtcPathState) (st : EtcPathState)
    → Memᴰ st states
    → st.in_current ≡ true
    → is_identity_db st.path ≡ false
    → Memᴰ (adjust (classify inventory st.path) st) (adjust_states inventory states).states
unfolding adjust_states adjust_state adjust_live
adjust_states-mem inventory [] st m live identity = elim m [ ]
adjust_states-mem inventory (s ∷ states) st (Memᴰ.tail m) live identity =
    adjust_state-tail inventory s _ (adjust_states inventory states)
      (adjust_states-mem inventory states st m live identity)
adjust_states-mem inventory (s ∷ states) st (Memᴰ.head e) live identity =
    subst
      (λ x.
        Memᴰ (adjust (classify inventory st.path) st)
          (adjust_state inventory x (adjust_states inventory states)).states)
      e (rw (live, identity) (Memᴰ.head refl))

class_of-machine_state :
    (complete owned modified carried : Bool)
    → class_of complete owned modified carried ≡ machine_state
    → carried ≡ true
class_of-machine_state c o m true h = refl
class_of-machine_state true true true false h = cc
class_of-machine_state true true false false h = cc
class_of-machine_state true false m false h = cc
class_of-machine_state false o m false h = cc

class_of-vendor_default :
    (complete owned modified carried : Bool)
    → (complete && (owned && (not modified && not carried))) ≡ false
    → class_of complete owned modified carried ≢ vendor_default
class_of-vendor_default true true true k h e = cc
class_of-vendor_default true true false true h e = cc
class_of-vendor_default true true false false h e = cc
class_of-vendor_default true false m true h e = cc
class_of-vendor_default true false m false h e = cc
class_of-vendor_default false o m true h e = cc
class_of-vendor_default false o m false h e = cc

-- What the shared planner sees of a live path that is kept.
adjust_kept :
    (class : PackagePathClass) (st : EtcPathState)
    → class ≢ vendor_default
    → (class ≡ machine_state → is_carried_over st.path ≡ true)
    → (is_carried_over st.path ≡ true)
      ⊎ ((adjust class st).in_target_default ≡ false)
        × ((adjust class st).in_source_default ≡ false)
unfolding adjust
adjust_kept vendor_default st h machine = absurd (h refl)
adjust_kept machine_state st h machine = inl (machine refl)
adjust_kept user_modified_class st h machine = inr (refl, refl)
adjust_kept user_added st h machine = inr (refl, refl)
adjust_kept unknown st h machine = inr (refl, refl)

adjust-same :
    (class : PackagePathClass) (st : EtcPathState)
    → ((adjust class st).path ≡ st.path) × ((adjust class st).in_current ≡ st.in_current)
unfolding adjust
adjust-same vendor_default st = (refl, refl)
adjust-same machine_state st = (refl, refl)
adjust-same user_modified_class st = (refl, refl)
adjust-same user_added st = (refl, refl)
adjust-same unknown st = (refl, refl)

live-carried :
    (inventory : PackageEtcInventory) (states : List EtcPathState) (st : EtcPathState)
    → Memᴰ st states
    → st.in_current ≡ true
    → is_identity_db st.path ≡ false
    → classify inventory st.path ≢ vendor_default
    → contains (plan_etc (adjust_states inventory states).states).carried st.path ≡ true
unfolding classify
live-carried inventory states st m live identity evidence =
    let class = classify inventory st.path in
    let (path, current) = adjust-same class st in
    subst (λ p. contains (plan_etc (adjust_states inventory states).states).carried p ≡ true) path
      (plan_etc-carries (adjust_states inventory states).states (adjust class st)
        (adjust_states-mem inventory states st m live identity) (ap is_identity_db path ∙ identity)
        (current ∙ live)
        (subst
          (λ p.
            (is_carried_over p ≡ true)
            ⊎ ((adjust class st).in_target_default ≡ false)
              × ((adjust class st).in_source_default ≡ false))
          (sym path)
          (adjust_kept class st evidence (
            class_of-machine_state inventory.complete (contains inventory.owned st.path)
              (contains inventory.modified st.path) (is_carried_over st.path)))))

-- A path of the live tree that is no identity table is decided for the live side, unless the package evidence is complete and shows it as an unmodified packaged file that is no machine state.
pub package_overrides-live :
    (inventory : PackageEtcInventory) (states : List EtcPathState) (st : EtcPathState)
    → Memᴰ st states
    → st.in_current ≡ true
    → is_identity_db st.path ≡ false
    → (inventory.complete
        && (contains inventory.owned st.path
            && (not (contains inventory.modified st.path) && not (is_carried_over st.path))))
      ≡ false
    → decision_for (package_overrides (package_plan_etc states inventory)) st.path ≡ some true
unfolding classify decision_for package_overrides package_plan_etc
package_overrides-live inventory states st m live identity evidence =
    let plan = package_plan_etc states inventory in
    rw identity (
      lookup-decide_all plan.removed _ st.path (
        inr (
          lookup-decide_all plan.policy.carried _ st.path (
            inl (
              live-carried inventory states st m live identity (
                class_of-vendor_default inventory.complete (contains inventory.owned st.path)
                  (contains inventory.modified st.path) (is_carried_over st.path) evidence))))))
