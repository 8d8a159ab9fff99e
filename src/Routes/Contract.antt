-- ===== src/Routes/Contract.antt =====
-- What every plan of the transition table satisfies.
use mathlib.Core.Option.{some-injective}
use bootc_migrate.Prelude.{
  ℕ, ◌≡◌, refl, subst, Bool, true, false, ◌&&◌, some, List, [], ◌∷◌, arith, ltb, ◌==◌, is_some, any,
}
use bootc_migrate.Routes.{
  Backend, ostree, composefs, package_managed, Strategy, core_migration, Phase, preflight, import,
  pull, seal, deploy, bootloader_phase, BootloaderPolicy, keep_source, target, RebasePlan, route,
  plan, same_backend,
}

-- The place of a phase in the pipeline.
abbrev pub stage : Phase → ℕ
stage preflight = 0
stage import = 1
stage pull = 2
stage seal = 3
stage deploy = 4
stage bootloader_phase = 5

-- Each phase comes before the next one in the pipeline.
abbrev pub in_order : List Phase → Bool
in_order [] = true
in_order (p ∷ []) = true
in_order (p ∷ q ∷ ps) = ltb (stage p) (stage q) && in_order (q ∷ ps)

abbrev pub runs : Phase → List Phase → Bool
runs p ps = any (λ q. stage p == stage q) ps

abbrev pub is_target : BootloaderPolicy → Bool
is_target keep_source = false
is_target target = true

abbrev pub is_core : Strategy → Bool
is_core core_migration = true
is_core _ = false

-- What a plan promises, of the backends that it was asked for.
pub record IsSound (from to : Backend) (p : RebasePlan) : Type 0 where
  pub routed : route from to ≡ some p.route
  pub source : same_backend p.route.from from ≡ true
  pub destination : same_backend p.route.to to ≡ true
  pub implemented : p.route.implemented ≡ true
  pub ordered : in_order p.phases ≡ true
  pub checks_first : runs preflight p.phases ≡ true
  pub pulls_and_deploys : (runs pull p.phases && runs deploy p.phases) ≡ true
  pub boots_target : runs bootloader_phase p.phases ≡ is_target p.bootloader
  pub seals_conversions : runs seal p.phases ≡ is_core p.route.strategy
  pub imports_conversions : runs import p.phases ≡ is_core p.route.strategy

-- A plan carries its backends' route, which is implemented. Its phases are in the order of the
-- pipeline with preflight, pull and deploy among them, the bootloader phase is there exactly if
-- the target's bootloader is used, and import and seal exactly for the core migration.
pub plan-IsSound : (from to : Backend) {p : RebasePlan} → plan from to ≡ some p → IsSound from to p
unfolding plan route
plan-IsSound ostree ostree h = subst (IsSound ostree ostree) (some-injective _ _ h) (record {
  routed = refl;
  source = refl;
  destination = refl;
  implemented = refl;
  ordered = refl;
  checks_first = refl;
  pulls_and_deploys = refl;
  boots_target = refl;
  seals_conversions = refl;
  imports_conversions = refl;
})
plan-IsSound ostree composefs h = subst (IsSound ostree composefs) (some-injective _ _ h) (record {
  routed = refl;
  source = refl;
  destination = refl;
  implemented = refl;
  ordered = refl;
  checks_first = refl;
  pulls_and_deploys = refl;
  boots_target = refl;
  seals_conversions = refl;
  imports_conversions = refl;
})
plan-IsSound ostree package_managed h = cc
plan-IsSound composefs ostree h = subst (IsSound composefs ostree) (some-injective _ _ h) (record {
  routed = refl;
  source = refl;
  destination = refl;
  implemented = refl;
  ordered = refl;
  checks_first = refl;
  pulls_and_deploys = refl;
  boots_target = refl;
  seals_conversions = refl;
  imports_conversions = refl;
})
plan-IsSound composefs composefs h =
    subst (IsSound composefs composefs) (some-injective _ _ h) (record {
      routed = refl;
      source = refl;
      destination = refl;
      implemented = refl;
      ordered = refl;
      checks_first = refl;
      pulls_and_deploys = refl;
      boots_target = refl;
      seals_conversions = refl;
      imports_conversions = refl;
    })
plan-IsSound composefs package_managed h = cc
plan-IsSound package_managed ostree h =
    subst (IsSound package_managed ostree) (some-injective _ _ h) (record {
      routed = refl;
      source = refl;
      destination = refl;
      implemented = refl;
      ordered = refl;
      checks_first = refl;
      pulls_and_deploys = refl;
      boots_target = refl;
      seals_conversions = refl;
      imports_conversions = refl;
    })
plan-IsSound package_managed composefs h = cc
plan-IsSound package_managed package_managed h = cc

-- There is a plan exactly where the table has a route.
pub plan-iff-route : (from to : Backend) → is_some (plan from to) ≡ is_some (route from to)
unfolding plan
plan-iff-route from to = ground arith
