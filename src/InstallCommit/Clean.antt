-- ===== src/InstallCommit/Clean.antt =====
-- What a comparison without a missing path says of every path of the old `/var`.
use bootc_migrate.Prelude.{
  sym, any-append, arith, if_true, if_false, ok-inj, ℕ, ◌≡◌, refl, ap, ◌∙◌, ◌⊎◌, inl, inr, Bool,
  true, false, ◌||◌, Option, none, some, List, [], ◌∷◌, ◌++◌, if◌then◌else◌, Bool-cases,
  is_some_and, Result, ok, err,
}
use bootc_migrate.Text.{Text, contains, text_eq, text_eq_self}
use bootc_migrate.InstallCommit.Paths.{is_volatile}
use bootc_migrate.InstallCommit.Tree.{Kind, special, same_kind}
use bootc_migrate.InstallCommit.Var.{
  VarDiff, plus, plus_result, child, look, look_live, absent_report, report,
}
use bootc_migrate.InstallCommit.Volatile.{is_volatile-child}

-- Nothing is missing, and each path of another file type is among the `changed` ones.
unfoldable pub IsClean : List Text → VarDiff → Type 0
IsClean changed d =
    (d.missing ≡ []) × ((x : Text) → contains d.type_changed x ≡ true → contains changed x ≡ true)

-- The path of names below `rel`.
abbrev pub below_path : Text → List Text → Text
below_path rel [] = rel
below_path rel (n ∷ ns) = below_path (child rel n) ns

-- The live `/var` has the path as that kind, or the path is volatile.
abbrev pub is_carried_over : (Text → Option (Kind × ℕ)) → Text → Kind → Bool
is_carried_over live rel k =
    is_volatile rel || is_some_and (live rel) (λ found. same_kind k (found.0))

-- A path, or a directory above it, is among `changed`: the names below `rel`, and `rel`.
abbrev pub on_the_way : List Text → Text → List Text → Bool
on_the_way changed rel [] = contains changed rel
on_the_way changed rel (n ∷ ns) = contains changed rel || on_the_way changed (child rel n) ns

pub contains_head : (x : Text) (xs : List Text) → contains (x ∷ xs) x ≡ true
contains_head x xs = rw (text_eq_self x)

pub is_volatile-below_path :
    (rel : Text) (ns : List Text) → is_volatile rel ≡ true → is_volatile (below_path rel ns) ≡ true
is_volatile-below_path rel [] h = h
is_volatile-below_path rel (n ∷ ns) h =
    is_volatile-below_path (child rel n) ns (is_volatile-child rel n h)

pub append-eq-nil {ℓ} : {A : Type ℓ} (xs ys : List A) → (xs ++ ys) ≡ [] → (xs ≡ []) × (ys ≡ [])
append-eq-nil [] ys e = (refl, e)
append-eq-nil (x ∷ xs) ys e = cc

pub plus_result-eq-ok :
    (p q : Result Text VarDiff) {d : VarDiff}
    → plus_result p q ≡ ok d
    → (a : VarDiff) × (b : VarDiff) × (p ≡ ok a) × (q ≡ ok b) × (plus a b ≡ d)
unfolding plus_result
plus_result-eq-ok (err e) q h = cc
plus_result-eq-ok (ok a) (err e) h = cc
plus_result-eq-ok (ok a) (ok b) h = (a, b, refl, refl, cc)

or_true_left : (a b c : Bool) → c ≡ (a || b) → a ≡ true → c ≡ true
or_true_left a b c e h = ground (arith, e, h)

or_true_right : (a b c : Bool) → c ≡ (a || b) → b ≡ true → c ≡ true
or_true_right a b c e h = ground (arith, e, h)

pub plus-IsClean :
    (changed : List Text) (a b : VarDiff) {d : VarDiff}
    → plus a b ≡ d
    → IsClean changed d
    → IsClean changed a × IsClean changed b
unfolding IsClean
plus-IsClean changed a b {d} e (absent, listed) =
    let (m, n) = append-eq-nil a.missing b.missing (ap (λ d. d.missing) e ∙ absent) in
    let parts : (x : Text)
        → contains d.type_changed x ≡ (contains a.type_changed x || contains b.type_changed x) =
      λ x.
        ap (λ d. contains d.type_changed x) (sym e)
        ∙ any-append (text_eq x) a.type_changed b.type_changed in
    (
      (m, λ x h. listed x (or_true_left _ _ _ (parts x) h)),
      (n, λ x h. listed x (or_true_right _ _ _ (parts x) h)),
    )

unfoldable pub IsPresent :
    Text → Kind → Option (Kind × ℕ) → (ℕ → Result Text VarDiff) → VarDiff → Type 0
IsPresent rel k found same d =
    (live_kind : Kind) × (len : ℕ) × (found ≡ some (live_kind, len))
    × (same_kind k live_kind ≡ true)
    × (same len ≡ ok d)

pub no_nil {ℓ κ} : {A : Type ℓ} {P : Type κ} (x : A) {xs : List A} → (x ∷ xs) ≡ [] → P
no_nil x e = cc

missing-report :
    (rel : Text) (b : Bool) {d : VarDiff}
    → (if b then report 1 [] [] else report 0 (rel ∷ []) []) ≡ d
    → d.missing ≡ []
    → b ≡ true
missing-report rel true e none_missing = refl
missing-report rel false e none_missing = no_nil rel (ap (λ d. d.missing) e ∙ none_missing)

absent-volatile :
    (rel : Text) {d : VarDiff} → absent_report rel ≡ d → d.missing ≡ [] → is_volatile rel ≡ true
absent-volatile rel e none_missing = missing-report rel (is_volatile rel) e none_missing

-- A clean comparison of one path: it is volatile, there with its kind, or listed as changed.
pub look-IsClean :
    (changed : List Text) (rel : Text) (k : Kind) (found : Option (Kind × ℕ))
    (same : ℕ → Result Text VarDiff) {d : VarDiff}
    → same_kind k special ≡ false
    → look rel k found same ≡ ok d
    → IsClean changed d
    → (contains changed rel ≡ true) ⊎ ((is_volatile rel ≡ true) ⊎ IsPresent rel k found same d)
unfolding look look_live IsClean IsPresent
look-IsClean changed rel k none same ordinary e (absent, listed) =
    inr (inl (absent-volatile rel (ok-inj (if_false (same_kind k special) _ _ ordinary e)) absent))
look-IsClean changed rel k (some (live_kind, len)) same ordinary e (absent, listed) =
    elim (Bool-cases (same_kind k live_kind)) [
      | inl t ↦ inr (
          inr (
            live_kind,
            len,
            refl,
            t,
            if_true (same_kind k live_kind) _ _ t (if_false (same_kind k special) _ _ ordinary e),
          ))
      | inr f ↦
          let reported = ok-inj (
            if_false (same_kind k live_kind) _ _ f
              (if_false (same_kind k special) _ _ ordinary e)) in
          inl (
            listed rel
              (ap (λ d. contains d.type_changed rel) (sym reported) ∙ contains_head rel []))
    ]
