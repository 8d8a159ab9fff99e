-- ===== src/BootCleanup/Rollback.antt =====
-- The boot order of a rollback, and the scalars of efibootmgr's output
-- (crates/bootc-migrate-core/src/migration/rollback.rs).
use bootc_migrate.Prelude.{
  ◌≡◌, refl, ap, ◌∙◌, Bool, false, ◌||◌, not, Option, none, some, List, [], ◌∷◌, arith, or_option,
  any, filter,
}
use bootc_migrate.Text.{
  Text, codes, strip_prefix, lines, trim, join, eq_ignore_ascii_case, eq_ignore_ascii_case_self,
  eq_ignore_ascii_case_comm,
}
use bootc_migrate.BootCleanup.Restore.{order_ids, merged_ids}
use bootc_migrate.BootCleanup.Order.{merged_ids-keeps}

scalar_at : Text → Text → Option Text
scalar_at key line = elim (strip_prefix (trim line) key) [
  | none ↦ none
  | some value ↦ some (trim value)
]

first_scalar : Text → List Text → Option Text
unfolding scalar_at
first_scalar key [] = none
first_scalar key (line ∷ rest) = or_option (scalar_at key line) (first_scalar key rest)

-- The value of the first line that starts with the key.
unfoldable pub parse_nvram_scalar : Text → Text → Option Text
unfolding first_scalar
parse_nvram_scalar output key = first_scalar key (lines output)

unfoldable pub parse_boot_order : Text → Option Text
unfolding parse_nvram_scalar
parse_boot_order output = parse_nvram_scalar output (codes "BootOrder:")

unfoldable pub parse_boot_current : Text → Option Text
unfolding parse_nvram_scalar
parse_boot_current output = parse_nvram_scalar output (codes "BootCurrent:")

-- The ids of the new order: the target, then the others in their order.
unfoldable pub new_order_ids : List Text → Text → List Text
new_order_ids ids target = target ∷ filter (λ id. not (eq_ignore_ascii_case id target)) ids

unfoldable pub build_new_boot_order : Text → Text → Text
unfolding new_order_ids order_ids
build_new_boot_order order target = join (codes ",") (new_order_ids (order_ids order) target)

new_order_ids-merged :
    (ids : List Text) (target : Text) → new_order_ids ids target ≡ merged_ids (target ∷ []) ids
unfolding new_order_ids merged_ids
new_order_ids-merged ids target = ap (λ tail. target ∷ tail) (others ids)
  where
    others :
        (xs : List Text)
        → filter (λ id. not (eq_ignore_ascii_case id target)) xs
          ≡ filter (λ id. not (any (λ r. eq_ignore_ascii_case r id) (target ∷ []))) xs
    others [] = refl
    others (x ∷ xs) = ground (arith, others xs, eq_ignore_ascii_case_comm x target)

only_target :
    (ids : List Text) (target : Text)
    → filter
        (λ m. eq_ignore_ascii_case m target)
        (filter (λ id. not (eq_ignore_ascii_case id target)) ids)
      ≡ []
only_target [] target = refl
only_target (id ∷ ids) target = ground (arith, only_target ids target)

-- A rollback puts its entry first in the order and there only once, keeps every other id and adds
-- none, the case of ids ignored.
pub new_order_ids_lem :
    (ids : List Text) (target : Text)
    → (filter (λ m. eq_ignore_ascii_case m target) (new_order_ids ids target) ≡ target ∷ [])
      × ((id : Text)
          → any (λ m. eq_ignore_ascii_case m id) (new_order_ids ids target)
            ≡ (eq_ignore_ascii_case target id || any (λ m. eq_ignore_ascii_case m id) ids))
unfolding new_order_ids
new_order_ids_lem ids target = (
  rw (eq_ignore_ascii_case_self target, only_target ids target),
  λ id.
      ap (any (λ m. eq_ignore_ascii_case m id)) (new_order_ids-merged ids target)
      ∙ (merged_ids-keeps (target ∷ []) ids id ∙ or_false (eq_ignore_ascii_case target id) _),
)
  where
    or_false : (a b : Bool) → ((a || false) || b) ≡ (a || b)
    or_false a b = ground arith
