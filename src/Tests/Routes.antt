-- ===== src/Tests/Routes.antt =====
-- The transition table.
use bootc_migrate.Prelude.{◌≡◌, refl, true, some, [], ◌∷◌}
use bootc_migrate.Routes.{
  ostree, composefs, core_migration, preflight, import, pull, seal, deploy, bootloader_phase,
  target, RebasePlan, route, plan,
}

abbrev conversion : RebasePlan
conversion = record {
  route = record { from = ostree; to = composefs; strategy = core_migration; implemented = true };
  phases = preflight ∷ import ∷ pull ∷ seal ∷ deploy ∷ bootloader_phase ∷ [];
  bootloader = target;
}

conversion_test : plan ostree composefs ≡ some conversion
unfolding plan route
conversion_test = refl
