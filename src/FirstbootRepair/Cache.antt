-- ===== src/FirstbootRepair/Cache.antt =====
-- The verdict on the last parent that the ownership pass keeps: when it is the verdict on the
-- record at hand.
use bootc_migrate.Prelude.{
  ◌≡◌, refl, sym, ap, ◌∙◌, ◌≢◌, ◌⊎◌, inl, inr, Bool, true, false, none, some, [], ◌∷◌, ◌++◌,
  Bool-cases, and_true,
}
use mathlib.Core.Bool.{true≢false}
use mathlib.Core.Option
use bootc_migrate.Text.{Text, codes, text_eq→eq, text_eq_self}
use bootc_migrate.Etc.Symlinks.{Component, root_dir, cur_dir, parent_dir, normal, components}
use bootc_migrate.InstallCommit.Paths.{same_component}
use bootc_migrate.FirstbootRepair.Records.{IdentityRecord}
use bootc_migrate.FirstbootRepair.Ownership.{
  Place, Calls, parent, parent_or, unwrap_or, same_place, home_dir, Verdict, verdict, remember,
  is_inside,
}

same_component→eq : (c d : Component) → same_component c d ≡ true → c ≡ d
unfolding same_component
same_component→eq root_dir root_dir h = refl
same_component→eq cur_dir cur_dir h = refl
same_component→eq parent_dir parent_dir h = refl
same_component→eq (normal m) (normal n) h = ap normal (text_eq→eq m n h)
same_component→eq root_dir cur_dir h = cc
same_component→eq root_dir parent_dir h = cc
same_component→eq root_dir (normal n) h = cc
same_component→eq cur_dir root_dir h = cc
same_component→eq cur_dir parent_dir h = cc
same_component→eq cur_dir (normal n) h = cc
same_component→eq parent_dir root_dir h = cc
same_component→eq parent_dir cur_dir h = cc
same_component→eq parent_dir (normal n) h = cc
same_component→eq (normal m) root_dir h = cc
same_component→eq (normal m) cur_dir h = cc
same_component→eq (normal m) parent_dir h = cc

same_component_self : (c : Component) → same_component c c ≡ true
unfolding same_component
same_component_self root_dir = refl
same_component_self cur_dir = refl
same_component_self parent_dir = refl
same_component_self (normal n) = text_eq_self n

pub same_place→eq : (p q : Place) → same_place p q ≡ true → p ≡ q
unfolding same_place
same_place→eq [] [] h = refl
same_place→eq [] (d ∷ ds) h = cc
same_place→eq (c ∷ cs) [] h = cc
same_place→eq (c ∷ cs) (d ∷ ds) h =
    let (first, rest) = and_true (same_component c d) (same_place cs ds) h in
    rw (same_component→eq c d first, same_place→eq cs ds rest)

pub same_place_self : (p : Place) → same_place p p ≡ true
unfolding same_place
same_place_self [] = refl
same_place_self (c ∷ cs) = rw (same_component_self c, same_place_self cs)

parent-append : (root : Place) (n : Text) → parent (root ++ (normal n ∷ [])) ≡ some root
unfolding parent
parent-append [] n = refl
parent-append (root_dir ∷ []) n = refl
parent-append (cur_dir ∷ []) n = refl
parent-append (parent_dir ∷ []) n = refl
parent-append (normal m ∷ []) n = refl
parent-append (c ∷ d ∷ cs) n = ap (Option.map (λ p. c ∷ p)) (parent-append (d ∷ cs) n)

-- Where a record's entry lies, and its directory.
abbrev pub place : Place → IdentityRecord → Place
place var_root r = var_root ++ components r.rel

abbrev pub directory : Place → IdentityRecord → Place
directory var_root r = parent_or (place var_root r) var_root

abbrev pub is_home : IdentityRecord → Bool
is_home r = same_place (components r.rel) home_dir

-- The record is that of the home directory, or its entry does not lie directly in the root.
abbrev pub IsShaped : Place → IdentityRecord → Type 0
IsShaped var_root r = (is_home r ≡ true) ⊎ (same_place (directory var_root r) var_root ≡ false)

home-directory :
    (var_root : Place) (r : IdentityRecord) → is_home r ≡ true → directory var_root r ≡ var_root
unfolding parent_or
home-directory var_root r h =
    ap (λ cs. parent_or (var_root ++ cs) var_root) (same_place→eq (components r.rel) home_dir h)
    ∙ ap (λ o. unwrap_or o var_root) (parent-append var_root (codes "home"))

apart : (p q : Place) → same_place p q ≡ false → p ≢ q
apart p q h e = true≢false (sym (same_place_self q) ∙ (ap (λ d. same_place d q) (sym e) ∙ h))

not_home :
    (var_root : Place) (r : IdentityRecord)
    → same_place (directory var_root r) var_root ≡ false
    → is_home r ≡ false
not_home var_root r h = elim (Bool-cases (is_home r)) [
  | inl home ↦ absurd (apart _ _ h (home-directory var_root r home))
  | inr other ↦ other
]

module _ {S : Type 0} (os : Calls S) (var_root home : Place) (start : S) where
  -- The verdict on a record by itself, on the disk as the pass finds it.
  abbrev pub inside : IdentityRecord → Bool
  inside r = is_inside os home r (directory var_root r) start

  -- Records with one directory have one verdict.
  inside_eq :
      (q r : IdentityRecord)
      → IsShaped var_root q
      → IsShaped var_root r
      → same_place (directory var_root q) (directory var_root r) ≡ true
      → inside r ≡ inside q
  unfolding is_inside
  inside_eq q r (inl home_q) (inl home_r) e = rw (home_q, home_r)
  inside_eq q r (inl home_q) (inr deep) e =
      absurd (apart _ _ deep (sym (same_place→eq _ _ e) ∙ home-directory var_root q home_q))
  inside_eq q r (inr deep) (inl home_r) e =
      absurd (apart _ _ deep (same_place→eq _ _ e ∙ home-directory var_root r home_r))
  inside_eq q r (inr deep_q) (inr deep_r) e = rw (
    not_home var_root q deep_q,
    not_home var_root r deep_r,
    same_place→eq (directory var_root q) (directory var_root r) e,
  )

  -- The verdict that is kept is that on every record with that directory.
  abbrev pub IsKnown : Verdict → Type 0
  IsKnown none = Unit
  IsKnown (some (p, seen)) =
      (r : IdentityRecord)
      → IsShaped var_root r
      → same_place p (directory var_root r) ≡ true
      → inside r ≡ seen

  pub verdict_lem :
      (last : Verdict) (r : IdentityRecord)
      → IsKnown last
      → IsShaped var_root r
      → verdict last (directory var_root r) (inside r) ≡ inside r
  unfolding verdict
  verdict_lem none r known shaped = refl
  verdict_lem (some (p, seen)) r known shaped =
      elim (Bool-cases (same_place p (directory var_root r))) [
        | inl same ↦ rw same (sym (known r shaped same))
        | inr other ↦ rw other
      ]

  pub remember-IsKnown :
      (last : Verdict) (r : IdentityRecord)
      → IsKnown last
      → IsShaped var_root r
      → IsKnown (remember last (directory var_root r) (inside r))
  unfolding remember
  remember-IsKnown none r known shaped = λ q q_shaped same. inside_eq r q shaped q_shaped same
  remember-IsKnown (some (p, seen)) r known shaped =
      elim (Bool-cases (same_place p (directory var_root r))) [
        | inl same ↦ rw same known
        | inr other ↦ rw other (λ q q_shaped same. inside_eq r q shaped q_shaped same)
      ]
