-- ===== src/PackageEtc/Free.antt =====
-- A free id: `next_free_id` finds one, at most as far from the minimum as there are ids in use.
use bootc_migrate.Prelude.{
  ℕ, zero, suc, ◌+◌, ◌≤◌, ◌<◌, ◌≡◌, refl, inl, inr, true, false, List, [], ◌∷◌, arith, leb,
  if◌then◌else◌, lt→ltb, Bool-cases, length,
}
use bootc_migrate.Text.{u32_bound}
use bootc_migrate.Remap.Plan.{holds}
use bootc_migrate.PackageEtc.Ids.{saturating_next, free_from, next_free_id}

-- How many ids in use are not below `n`.
above : List ℕ → ℕ → ℕ
above [] n = 0
above (i ∷ used) n = if leb n i then suc (above used n) else above used n

above-le-length : (used : List ℕ) (n : ℕ) → above used n ≤ length used
unfolding above
above-le-length [] n = omega arith
above-le-length (i ∷ used) n = ground (arith, above-le-length used n)

above-suc-le : (used : List ℕ) (n : ℕ) → above used (n + 1) ≤ above used n
unfolding above
above-suc-le [] n = omega arith
above-suc-le (i ∷ used) n = ground (arith, above-suc-le used n)

above_used : (used : List ℕ) (n : ℕ) → holds used n ≡ true → above used (n + 1) < above used n
unfolding above
above_used [] n h = cc
above_used (i ∷ used) n h = ground (arith, above_used used n, above-suc-le used n)

free_from_lem :
    (fuel : ℕ) (used : List ℕ) (n : ℕ)
    → above used n < fuel
    → n + above used n < u32_bound
    → let id = free_from fuel used n in (holds used id ≡ false) × (n ≤ id) × (id ≤ n + above used n)
unfolding free_from saturating_next
free_from_lem zero used n f h = absurd (omega arith)
free_from_lem (suc fuel) used n f h = elim (Bool-cases (holds used n)) [
  | inl taken ↦
      let fewer = above_used used n taken in
      let (free, low, high) = free_from_lem fuel used (n + 1) (omega arith) (omega arith) in
      rw (taken, lt→ltb (n + 1) u32_bound (omega arith)) (free, omega arith, omega arith)
  | inr free ↦ rw free (free, omega arith, omega arith)
]

-- The id is not in use, not below the minimum, and not further above it than the number of ids in use, when that stays in 32 bits; and it is in use afterwards, as all ids before.
pub next_free_id_lem :
    (used : List ℕ) (minimum : ℕ)
    → minimum + length used < u32_bound
    → let (id, after) = next_free_id used minimum in
      (holds used id ≡ false) × (minimum ≤ id) × (id ≤ minimum + length used) × (after ≡ id ∷ used)
unfolding next_free_id
next_free_id_lem used minimum h =
    let few = above-le-length used minimum in
    let (free, low, high) =
      free_from_lem (suc (length used)) used minimum (omega arith) (omega arith) in
    (free, low, omega arith, refl)
