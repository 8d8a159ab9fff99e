-- ===== src/Routes.antt =====
-- The transition table of crates/bootc-migrate-core/src/rebase_plan.rs.
pub mod Contract
use bootc_migrate.Prelude.{
  ℕ, zero, suc, ◌+◌, ◌-◌, ◌*◌, ◌/◌, ◌%◌, ◌^◌, ◌≤◌, ◌<◌, String, ◌≡◌, refl, sym, ap, ◌∙◌, subst, ◌≢◌,
  ◌↔◌, ◌⊎◌, inl, inr, Bool, true, false, ◌&&◌, ◌||◌, not, Option, none, some, List, [], ◌∷◌, ◌++◌,
  map, reverse, arith, ltb, leb, ◌==◌, if◌then◌else◌, ltb→lt, lt→ltb, leb→le, ==_iff, Bool-cases,
  Option-cases, All, is_some, is_none, or_option, is_some_and, length, any, all, filter, find?,
  length-append, find?-eq-some, find?-eq-none, any-append, filter_map, Result, ok, err, ◌>>=◌,
  for_each, >>=-eq-ok, for_each-inv, find?-mem, any_of_mem,
}

pub data Backend : Type 0 where
  ostree composefs package_managed : Backend

pub data Strategy : Type 0 where
  core_migration image_swap ostree_deploy ostree_install package_install : Strategy

pub data Phase : Type 0 where
  preflight import pull seal deploy bootloader_phase : Phase

pub data BootloaderPolicy : Type 0 where
  keep_source target : BootloaderPolicy

pub record Route : Type 0 where
  pub from : Backend
  pub to : Backend
  pub strategy : Strategy
  pub implemented : Bool

pub record RebasePlan : Type 0 where
  pub route : Route
  pub phases : List Phase
  pub bootloader : BootloaderPolicy

abbrev pub same_backend : Backend → Backend → Bool
same_backend ostree ostree = true
same_backend composefs composefs = true
same_backend package_managed package_managed = true
same_backend _ _ = false

row : Backend → Backend → Strategy → Route
row from to strategy = record { from = from; to = to; strategy = strategy; implemented = true }

routes : List Route
unfolding row
routes =
    row ostree composefs core_migration
    ∷ row composefs composefs image_swap
    ∷ row ostree ostree ostree_deploy
    ∷ row composefs ostree ostree_install
    ∷ row package_managed ostree package_install
    ∷ []

-- The first row that fits.
unfoldable pub route : Backend → Backend → Option Route
unfolding routes
route from to = find? (λ r. same_backend r.from from && same_backend r.to to) routes

phases_of : Backend → Backend → Option (List Phase × BootloaderPolicy)
phases_of ostree ostree = some (preflight ∷ pull ∷ deploy ∷ [], keep_source)
phases_of ostree composefs =
    some (preflight ∷ import ∷ pull ∷ seal ∷ deploy ∷ bootloader_phase ∷ [], target)
phases_of composefs composefs = some (preflight ∷ pull ∷ deploy ∷ [], keep_source)
phases_of composefs ostree = some (preflight ∷ pull ∷ deploy ∷ bootloader_phase ∷ [], target)
phases_of package_managed ostree = some (preflight ∷ pull ∷ deploy ∷ bootloader_phase ∷ [], target)
phases_of ostree package_managed = none
phases_of composefs package_managed = none
phases_of package_managed package_managed = none
phases_of package_managed composefs = none

plan_of : Option Route → Option (List Phase × BootloaderPolicy) → Option RebasePlan
plan_of none p = none
plan_of (some r) none = none
plan_of (some r) (some (phases, bootloader)) =
    some (record { route = r; phases = phases; bootloader = bootloader })

unfoldable pub plan : Backend → Backend → Option RebasePlan
unfolding route phases_of plan_of
plan from to = plan_of (route from to) (phases_of from to)
