-- ===== src/PackageEtc/Inventory.antt =====
-- The package evidence of package_etc.rs: what a live path of `/etc` is, and the plan made of it.
use bootc_migrate.Prelude.{Bool, true, false, ◌&&◌, not, List, [], ◌∷◌, ◌++◌, if◌then◌else◌}
use bootc_migrate.Text.{Text, contains}
use bootc_migrate.Etc.Tree.{Dict}
use bootc_migrate.Etc.Identity.{is_identity_db}
use bootc_migrate.Etc.Merge.{EtcDriftManifest}
use bootc_migrate.Etc.Drift.{EtcPathState}
use bootc_migrate.CrossFamily.Policy.{
  is_carried_over, EtcCrossFamilyPlan, plan_etc, in_order, decide_all, overrides,
}

pub record PackageEtcInventory : Type 0 where
  pub owned : List Text
  pub modified : List Text
  pub complete : Bool
  pub warnings : List Text

pub data PackagePathClass : Type 0 where
  vendor_default user_modified_class user_added machine_state unknown : PackagePathClass

abbrev pub class_of : Bool → Bool → Bool → Bool → PackagePathClass
class_of complete owned modified carried_over =
    if complete && owned && modified
    then user_modified_class
    else if carried_over
    then machine_state
    else if not complete
    then unknown
    else if not owned
    then user_added
    else vendor_default

unfoldable pub classify : PackageEtcInventory → Text → PackagePathClass
unfolding is_carried_over
classify inventory path =
    class_of inventory.complete (contains inventory.owned path) (contains inventory.modified path)
      (is_carried_over path)

pub record PackageEtcPlan : Type 0 where
  pub policy : EtcCrossFamilyPlan
  pub classes : Dict PackagePathClass
  pub rebase_new : List Text
  pub removed : List Text

-- The loop over the states: those handed on, the classes, and the two lists of paths.
pub record Adjusted : Type 0 where
  pub states : List EtcPathState
  pub classes : Dict PackagePathClass
  pub rebase_new : List Text
  pub removed : List Text

abbrev push_if : Bool → Text → List Text → List Text
push_if b p ps = if b then p ∷ ps else ps

-- The state that the shared planner sees of a live path.
unfoldable pub adjust : PackagePathClass → EtcPathState → EtcPathState
adjust vendor_default st = record st { in_source_default = true; user_modified = false }
adjust user_modified_class st = record st {
  in_source_default = false;
  in_target_default = false;
  user_modified = true;
}
adjust user_added st = record st {
  in_source_default = false;
  in_target_default = false;
  user_modified = true;
}
adjust unknown st = record st {
  in_source_default = false;
  in_target_default = false;
  user_modified = true;
}
adjust machine_state st = st

-- The live side wins over the target's copy of the path.
abbrev is_kept : PackagePathClass → Bool
is_kept vendor_default = false
is_kept machine_state = false
is_kept user_modified_class = true
is_kept user_added = true
is_kept unknown = true

unfoldable pub adjust_live : PackagePathClass → EtcPathState → Adjusted → Adjusted
unfolding adjust
adjust_live class st rest = record rest {
  states = adjust class st ∷ rest.states;
  classes = (st.path, class) ∷ rest.classes;
  rebase_new = push_if (is_kept class && st.in_target_default) st.path rest.rebase_new;
}

unfoldable pub adjust_removed : EtcPathState → Adjusted → Adjusted
adjust_removed st rest =
    let shipped = st.in_target_default in
    record {
      states =
          (if shipped then record st { in_target_default = false; user_modified = true } else st)
          ∷ rest.states;
      classes = (st.path, user_modified_class) ∷ rest.classes;
      rebase_new = push_if shipped st.path rest.rebase_new;
      removed = push_if shipped st.path rest.removed;
    }

unfoldable pub adjust_state : PackageEtcInventory → EtcPathState → Adjusted → Adjusted
unfolding adjust_live adjust_removed classify is_identity_db
adjust_state inventory st rest =
    if st.in_current && not (is_identity_db st.path)
    then adjust_live (classify inventory st.path) st rest
    else if not (is_identity_db st.path)
        && (inventory.complete
            && (contains inventory.owned st.path && contains inventory.modified st.path))
    then adjust_removed st rest
    else record rest { states = st ∷ rest.states }

unfoldable pub adjust_states : PackageEtcInventory → List EtcPathState → Adjusted
unfolding adjust_state
adjust_states inventory [] = record { states = []; classes = []; rebase_new = []; removed = [] }
adjust_states inventory (st ∷ states) = adjust_state inventory st (adjust_states inventory states)

unfoldable pub package_plan_etc : List EtcPathState → PackageEtcInventory → PackageEtcPlan
unfolding adjust_states plan_etc
package_plan_etc states inventory =
    let adjusted = adjust_states inventory states in
    record {
      policy = plan_etc adjusted.states;
      classes = adjusted.classes;
      rebase_new = in_order adjusted.rebase_new;
      removed = in_order adjusted.removed;
    }

-- The policy's decisions, extended: a decision that was added stands in front.
unfoldable pub package_overrides : PackageEtcPlan → EtcDriftManifest
unfolding overrides
package_overrides plan = record {
  decisions =
      decide_all true plan.removed
      ++ (decide_all true plan.policy.carried ++ (overrides plan.policy).decisions);
}
