-- ===== src/InstallCommit/Volatile.antt =====
-- A volatile path of `/var` and the paths below it.
use bootc_migrate.Prelude.{
  ◌≡◌, refl, inl, inr, Bool, true, false, List, [], ◌∷◌, ◌++◌, arith, ◌==◌, Bool-cases, any,
}
use bootc_migrate.Text.{Text, codes, text_eq, starts_with, strip_prefix}
use bootc_migrate.InstallCommit.Paths.{at_or_below, is_volatile, volatile_var_paths}
use bootc_migrate.InstallCommit.Var.{child}

any_mono {ℓ} :
    {A : Type ℓ} (p q : A → Bool) (xs : List A)
    → ((x : A) → p x ≡ true → q x ≡ true)
    → any p xs ≡ true
    → any q xs ≡ true
any_mono p q [] h e = e
any_mono p q (x ∷ xs) h e = elim (Bool-cases (p x)) [
  | inl t ↦ ground (arith, h x t)
  | inr f ↦ ground (arith, any_mono p q xs h, e, f)
]

pub at_or_below-append :
    (rel s v : Text) → at_or_below rel v ≡ true → at_or_below (rel ++ (47 ∷ s)) v ≡ true
unfolding at_or_below strip_prefix starts_with text_eq
at_or_below-append [] s [] h = refl
at_or_below-append (c ∷ rel) s [] h = h
at_or_below-append [] s (d ∷ v) h = ground (arith, h)
at_or_below-append (c ∷ rel) s (d ∷ v) h = elim (Bool-cases (c == d)) [
  | inl t ↦ ground (arith, at_or_below-append rel s v, h, t)
  | inr f ↦ ground (arith, h, f)
]

root_is_kept : is_volatile [] ≡ false
unfolding is_volatile at_or_below strip_prefix text_eq
root_is_kept = refl

rooted : (name : Text) {b : Bool} → b ≡ false → b ≡ true → is_volatile name ≡ true
rooted name e h = cc

-- What lies below a volatile path is volatile.
pub is_volatile-child :
    (rel name : Text) → is_volatile rel ≡ true → is_volatile (child rel name) ≡ true
unfolding is_volatile at_or_below
is_volatile-child [] name h = rooted name root_is_kept h
is_volatile-child (c ∷ rel) name h =
    any_mono (at_or_below (c ∷ rel)) (at_or_below (c ∷ (rel ++ (codes "/" ++ name))))
      volatile_var_paths (λ v k. at_or_below-append (c ∷ rel) name v k) h
