-- ===== src/CrossFamily/Carried.antt =====
-- What the `/etc` policy of cross_family.rs carries.
use bootc_migrate.Prelude.{
  ◌≡◌, refl, ap, ◌∙◌, subst, ◌⊎◌, inl, inr, Bool, true, false, ◌&&◌, ◌||◌, List, [], ◌∷◌, ◌++◌,
  if◌then◌else◌, Bool-cases, any, any-append,
}
use bootc_migrate.Text.{Text, text_eq, contains, sort, text_eq_self, contains-sort, contains-dedup}
use mathlib.Core.List.{Memᴰ}
use bootc_migrate.Etc.Identity.{is_identity_db}
use bootc_migrate.Etc.Drift.{EtcPathState}
use bootc_migrate.CrossFamily.Policy.{
  is_carried_over, EtcCrossFamilyPlan, empty_policy, with_sidecar, place_path, place_paths,
  plan_etc,
}

contains_left : (xs ys : List Text) (q : Text) → contains xs q ≡ true → contains (xs ++ ys) q ≡ true
contains_left xs ys q h = any-append (text_eq q) xs ys ∙ rw h refl

contains_last : (xs : List Text) (q : Text) → contains (xs ++ (q ∷ [])) q ≡ true
contains_last xs q = any-append (text_eq q) xs (q ∷ []) ∙ last (any (text_eq q) xs) (text_eq_self q)
  where
    last : (a : Bool) {b : Bool} → b ≡ true → (a || (b || false)) ≡ true
    last true h = refl
    last false h = rw h refl

with_sidecar-carried :
    (st : EtcPathState) (plan : EtcCrossFamilyPlan) → (with_sidecar st plan).carried ≡ plan.carried
unfolding with_sidecar
with_sidecar-carried st plan = elim (Bool-cases (st.in_current && st.user_modified)) [
  | inl edited ↦ rw edited refl
  | inr plain ↦ rw plain refl
]

-- A test between two plans that both keep a path.
if_keeps :
    (b : Bool) (x y : EtcCrossFamilyPlan) (q : Text)
    → contains x.carried q ≡ true
    → contains y.carried q ≡ true
    → contains (if b then x else y).carried q ≡ true
if_keeps true x y q h k = h
if_keeps false x y q h k = k

place_path-keeps :
    (plan : EtcCrossFamilyPlan) (st : EtcPathState) (q : Text)
    → contains plan.carried q ≡ true
    → contains (place_path plan st).carried q ≡ true
unfolding place_path
place_path-keeps plan st q h =
    let more = contains_left plan.carried (st.path ∷ []) q h in
    let aside = ap (λ t. contains t q) (with_sidecar-carried st plan) ∙ h in
    if_keeps (is_identity_db st.path) _ _ q h (
      if_keeps (is_carried_over st.path) _ _ q (if_keeps st.in_current _ _ q more h) (
        if_keeps st.in_target_default _ _ q aside
          (if_keeps st.in_source_default _ _ q aside (if_keeps st.in_current _ _ q more h))))

machine-carries :
    (plan : EtcCrossFamilyPlan) (st : EtcPathState)
    → is_identity_db st.path ≡ false
    → st.in_current ≡ true
    → is_carried_over st.path ≡ true
    → contains (place_path plan st).carried st.path ≡ true
unfolding place_path
machine-carries plan st identity live machine =
    rw (identity, machine, live) (contains_last plan.carried st.path)

place_path-carries :
    (plan : EtcCrossFamilyPlan) (st : EtcPathState)
    → is_identity_db st.path ≡ false
    → st.in_current ≡ true
    → (is_carried_over st.path ≡ true)
      ⊎ (st.in_target_default ≡ false) × (st.in_source_default ≡ false)
    → contains (place_path plan st).carried st.path ≡ true
unfolding place_path
place_path-carries plan st identity live (inl machine) =
    machine-carries plan st identity live machine
place_path-carries plan st identity live (inr (no_target, no_source)) =
    elim (Bool-cases (is_carried_over st.path)) [
      | inl machine ↦ machine-carries plan st identity live machine
      | inr other ↦
          rw (identity, other, no_target, no_source, live) (contains_last plan.carried st.path)
    ]

place_paths-keeps :
    (states : List EtcPathState) (plan : EtcCrossFamilyPlan) (q : Text)
    → contains plan.carried q ≡ true
    → contains (place_paths plan states).carried q ≡ true
unfolding place_paths
place_paths-keeps [] plan q h = h
place_paths-keeps (st ∷ states) plan q h =
    place_paths-keeps states (place_path plan st) q (place_path-keeps plan st q h)

place_paths-carries :
    (states : List EtcPathState) (plan : EtcCrossFamilyPlan) (st : EtcPathState)
    → Memᴰ st states
    → is_identity_db st.path ≡ false
    → st.in_current ≡ true
    → (is_carried_over st.path ≡ true)
      ⊎ (st.in_target_default ≡ false) × (st.in_source_default ≡ false)
    → contains (place_paths plan states).carried st.path ≡ true
unfolding place_paths
place_paths-carries [] plan st m identity live why = elim m [ ]
place_paths-carries (s ∷ states) plan st (Memᴰ.tail m) identity live why =
    place_paths-carries states (place_path plan s) st m identity live why
place_paths-carries (s ∷ states) plan st (Memᴰ.head e) identity live why =
    place_paths-keeps states (place_path plan s) st.path (
      subst (λ x. contains (place_path plan x).carried st.path ≡ true) e
        (place_path-carries plan st identity live why))

-- A live path that is no identity table, and is machine state or shipped by neither side, is carried.
pub plan_etc-carries :
    (states : List EtcPathState) (st : EtcPathState)
    → Memᴰ st states
    → is_identity_db st.path ≡ false
    → st.in_current ≡ true
    → (is_carried_over st.path ≡ true)
      ⊎ (st.in_target_default ≡ false) × (st.in_source_default ≡ false)
    → contains (plan_etc states).carried st.path ≡ true
unfolding plan_etc
plan_etc-carries states st m identity live why =
    contains-dedup (sort (place_paths empty_policy states).carried) st.path
    ∙ (contains-sort (place_paths empty_policy states).carried st.path
        ∙ place_paths-carries states empty_policy st m identity live why)
