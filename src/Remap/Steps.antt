-- ===== src/Remap/Steps.antt =====
-- The steps renumber every id as the entries say, whatever permutation they make up.
use bootc_migrate.Prelude.{
  ℕ, zero, suc, ◌+◌, ◌≤◌, ◌<◌, ◌≡◌, refl, sym, ap, ◌∙◌, inl, inr, Bool, true, false, ◌&&◌, ◌||◌,
  not, Option, none, some, List, [], ◌∷◌, ◌++◌, arith, ltb, ◌==◌, if◌then◌else◌, ==_iff, Bool-cases,
  Option-cases, All,
}
use bootc_migrate.Remap.Plan.{
  IdKind, same_kind, RemapEntry, RemapStep, holds, largest, next_free, scratch_for, first_pass,
  second_pass, scratch_start, build_steps,
}

-- What the entries ask of one id: the first entry of its kind with that old id gives the new one.
unfoldable pub renumber : IdKind → List RemapEntry → ℕ → ℕ
renumber k [] n = n
renumber k (e ∷ es) n =
    let rest = renumber k es n in if same_kind e.kind k && n == e.old_id then e.new_id else rest

-- What the steps do to one id.
abbrev pub step_id : IdKind → RemapStep → ℕ → ℕ
step_id k st n = if same_kind st.kind k && n == st.from then st.to else n

unfoldable pub run_ids : IdKind → List RemapStep → ℕ → ℕ
run_ids k [] n = n
run_ids k (st ∷ sts) n = run_ids k sts (step_id k st n)

-- The entries' ids are all in use.
abbrev pub InUse : List ℕ → List RemapEntry → Type 0
InUse used = All (λ e. (holds used e.old_id ≡ true) × (holds used e.new_id ≡ true))

first_hit : IdKind → ℕ → List RemapStep → Option ℕ
first_hit k n [] = none
first_hit k n (st ∷ sts) =
    let rest = first_hit k n sts in if same_kind st.kind k && n == st.from then some st.to else rest

abbrev or_id : Option ℕ → ℕ → ℕ
or_id none n = n
or_id (some m) n = m

-- A test that the sources of the steps pass and their targets fail.
abbrev Apart : (ℕ → Bool) → List RemapStep → Type 0
Apart test = All (λ st. (test st.from ≡ true) × (test st.to ≡ false))

run_ids_untouched :
    (k : IdKind) (test : ℕ → Bool) (sts : List RemapStep) (n : ℕ)
    → Apart test sts
    → test n ≡ false
    → run_ids k sts n ≡ n
unfolding run_ids
run_ids_untouched k test [] n h e = refl
run_ids_untouched k test (st ∷ sts) n h e =
    elim (Bool-cases (same_kind st.kind k && n == st.from)) [
      | inl hit ↦ absurd (ground (arith, ap test ((==_iff n st.from).0 (ground arith))))
      | inr miss ↦ rw miss (run_ids_untouched k test sts n h.1 e)
    ]

-- Steps whose targets are no sources act at most once on an id.
run_ids-first_hit :
    (k : IdKind) (test : ℕ → Bool) (sts : List RemapStep) (n : ℕ)
    → Apart test sts
    → run_ids k sts n ≡ or_id (first_hit k n sts) n
unfolding run_ids first_hit
run_ids-first_hit k test [] n h = refl
run_ids-first_hit k test (st ∷ sts) n h = elim (Bool-cases (same_kind st.kind k && n == st.from)) [
  | inl hit ↦ rw hit (run_ids_untouched k test sts st.to h.1 h.0.1)
  | inr miss ↦ rw miss (run_ids-first_hit k test sts n h.1)
]

run_ids-append :
    (k : IdKind) (ss ts : List RemapStep) (n : ℕ)
    → run_ids k (ss ++ ts) n ≡ run_ids k ts (run_ids k ss n)
unfolding run_ids
run_ids-append k [] ts n = refl
run_ids-append k (s ∷ ss) ts n = run_ids-append k ss ts (step_id k s n)

holds-le-largest : (used : List ℕ) (n : ℕ) → holds used n ≡ true → n ≤ largest used
unfolding largest
holds-le-largest [] n h = ground arith
holds-le-largest (i ∷ is) n h = ground (arith, holds-le-largest is n)

-- Enough rounds find an id that is not in use, at or above the start.
next_free_lem :
    (fuel : ℕ) (used : List ℕ) (n : ℕ)
    → largest used < fuel + n
    → (holds used (next_free fuel used n) ≡ false) × (n ≤ next_free fuel used n)
unfolding next_free
next_free_lem zero used n h = ground (arith, holds-le-largest used n)
next_free_lem (suc fuel) used n h = ground (arith, next_free_lem fuel used (n + 1))

abbrev Fresh : List ℕ → ℕ → List ℕ → Type 0
Fresh used next = All (λ s. (holds used s ≡ false) × (next ≤ s))

weaken :
    (used : List ℕ) (low high : ℕ) (ss : List ℕ)
    → low ≤ high
    → Fresh used high ss
    → Fresh used low ss
weaken used low high [] h fs = tt
weaken used low high (s ∷ ss) h fs = ((fs.0.0, omega arith), weaken used low high ss h fs.1)

scratch_for-Fresh :
    (es : List RemapEntry) (used : List ℕ) (next : ℕ) → Fresh used next (scratch_for es used next)
unfolding scratch_for
scratch_for-Fresh [] used next = tt
scratch_for-Fresh (e ∷ es) used next =
    let s = next_free (suc (largest used)) used next in
    let free = next_free_lem (suc (largest used)) used next (omega arith) in
    (free, weaken used next (s + 1) _ (omega (arith, free.1)) (scratch_for-Fresh es used (s + 1)))

first_pass-Apart :
    (es : List RemapEntry) (used : List ℕ) (next : ℕ) (ss : List ℕ)
    → InUse used es
    → Fresh used next ss
    → Apart (holds used) (first_pass es ss)
unfolding first_pass
first_pass-Apart [] used next ss h f = tt
first_pass-Apart (e ∷ es) used next [] h f = tt
first_pass-Apart (e ∷ es) used next (s ∷ ss) h f =
    ((h.0.0, f.0.0), first_pass-Apart es used next ss h.1 f.1)

second_pass-Apart :
    (es : List RemapEntry) (used : List ℕ) (next : ℕ) (ss : List ℕ)
    → InUse used es
    → Fresh used next ss
    → Apart (λ n. not (holds used n)) (second_pass es ss)
unfolding second_pass
second_pass-Apart [] used next ss h f = tt
second_pass-Apart (e ∷ es) used next [] h f = tt
second_pass-Apart (e ∷ es) used next (s ∷ ss) h f =
    ((ap not f.0.0, ap not h.0.1), second_pass-Apart es used next ss h.1 f.1)

-- A scratch id that the first pass hands out lies at or above the start.
first_hit-ge :
    (k : IdKind) (n : ℕ) (es : List RemapEntry) (used : List ℕ) (next : ℕ) (ss : List ℕ) {s : ℕ}
    → Fresh used next ss
    → first_hit k n (first_pass es ss) ≡ some s
    → next ≤ s
unfolding first_pass first_hit
first_hit-ge k n [] used next ss f h = ground arith
first_hit-ge k n (e ∷ es) used next [] f h = ground arith
first_hit-ge k n (e ∷ es) used next (t ∷ ss) {s} f h =
    ground (arith, first_hit-ge k n es used next ss {s = s} f.1, f.0)

-- The scratch id of an entry leads the second pass to the entry's new id.
two_passes :
    (k : IdKind) (n : ℕ) (es : List RemapEntry) (used : List ℕ) (next : ℕ) {s : ℕ}
    → first_hit k n (first_pass es (scratch_for es used next)) ≡ some s
    → first_hit k s (second_pass es (scratch_for es used next)) ≡ some (renumber k es n)
unfolding first_pass second_pass first_hit renumber scratch_for
two_passes k n [] used next h = ground arith
two_passes k n (e ∷ es) used next {s} h =
    let t = next_free (suc (largest used)) used next in
    ground (
      arith,
      two_passes k n es used (t + 1) {s = s},
      first_hit-ge k n es used (t + 1) (scratch_for es used (t + 1)) {s = s}
          (scratch_for-Fresh es used (t + 1)),
    )

-- Without an entry for the id, no step of the first pass takes it.
no_entry :
    (k : IdKind) (n : ℕ) (es : List RemapEntry) (used : List ℕ) (next : ℕ)
    → first_hit k n (first_pass es (scratch_for es used next)) ≡ none
    → renumber k es n ≡ n
unfolding first_pass first_hit renumber scratch_for
no_entry k n [] used next h = refl
no_entry k n (e ∷ es) used next h =
    let t = next_free (suc (largest used)) used next in ground (arith, no_entry k n es used (t + 1))

-- An id that is no scratch id is a source of no step of the second pass.
not_scratch :
    (k : IdKind) (n : ℕ) (es : List RemapEntry) (used : List ℕ) (next : ℕ) (ss : List ℕ)
    → Fresh used next ss
    → (ltb n next || holds used n) ≡ true
    → first_hit k n (second_pass es ss) ≡ none
unfolding second_pass first_hit
not_scratch k n [] used next ss f h = refl
not_scratch k n (e ∷ es) used next [] f h = refl
not_scratch k n (e ∷ es) used next (s ∷ ss) f h = elim (Bool-cases (n == s)) [
  | inl same ↦ absurd (clash ((==_iff n s).0 same))
  | inr other ↦ rw other (ground (arith, not_scratch k n es used next ss f.1 h))
]
  where
    clash : n ≡ s → ⊥
    clash e = ground (arith, rw e at h, f.0)

-- The steps give every id what the entries ask for: the entries may make up any permutation, and
-- an id may be the old one of one entry and the new one of another. The id has to be one that is
-- in use or below the scratch ids.
pub build_steps-renumber :
    (k : IdKind) (remaps : List RemapEntry) (used : List ℕ) (n : ℕ)
    → InUse used remaps
    → (ltb n scratch_start || holds used n) ≡ true
    → run_ids k (build_steps remaps used) n ≡ renumber k remaps n
unfolding build_steps
build_steps-renumber k remaps used n h e =
    let ss = scratch_for remaps used scratch_start in
    let fresh = scratch_for-Fresh remaps used scratch_start in
    let one =
      run_ids-first_hit k (holds used) (first_pass remaps ss) n
        (first_pass-Apart remaps used scratch_start ss h fresh) in
    let two = λ (m : ℕ).
      run_ids-first_hit k (λ i. not (holds used i)) (second_pass remaps ss) m
        (second_pass-Apart remaps used scratch_start ss h fresh) in
    run_ids-append k (first_pass remaps ss) (second_pass remaps ss) n
    ∙ (rw (one, two)
        (elim (Option-cases (first_hit k n (first_pass remaps ss))) [
          | inl miss ↦
              rw (miss, not_scratch k n remaps used scratch_start ss fresh e)
                (sym (no_entry k n remaps used scratch_start miss))
          | inr (s, hit) ↦ rw (hit, two_passes k n remaps used scratch_start hit)
        ]))
