-- ===== src/Kernel/Lvm.antt =====
-- The arguments of the logical volumes are plain words.
use mathlib.Core.Option.{some-injective}
use bootc_migrate.Prelude.{
  ◌≡◌, refl, subst, inl, inr, true, ◌||◌, Option, none, some, List, [], ◌∷◌, ◌++◌, arith,
  Bool-cases, all,
}
use bootc_migrate.Text.{
  Text, codes, contains, starts_with, lines, is_whitespace, trim, is_empty, split_whitespace,
}
use bootc_migrate.Text.Words.{
  no_space, is_word, no_space-append, split_whitespace-is_word, all-append,
}
use bootc_migrate.Kernel.Karg.{is_arg}
use bootc_migrate.Kernel.Options.{
  vg_lv, parse_lvs_vg_lv, push_lv, lv_of, lvm_step, lvm_loop, strip_mount_source,
  discover_lvm_kernel_args,
}
use bootc_migrate.Kernel.Plain.{is_plain_option, plain_of}

lv_plain :
    (vg lv : Text)
    → no_space vg ≡ true
    → no_space lv ≡ true
    → is_plain_option (codes "rd.lvm.lv=" ++ (vg ++ (codes "/" ++ lv))) ≡ true
unfolding is_arg starts_with is_whitespace
lv_plain vg lv h k =
    plain_of (codes "rd.lvm.lv=" ++ (vg ++ (codes "/" ++ lv))) refl
      (ground (arith, no_space-append vg (codes "/" ++ lv))) refl

vg_lv-plain :
    (ws : List Text) {arg : Text}
    → all is_word ws ≡ true
    → vg_lv ws ≡ some arg
    → is_plain_option arg ≡ true
unfolding vg_lv
vg_lv-plain [] w h = cc
vg_lv-plain (vg ∷ []) w h = cc
vg_lv-plain (vg ∷ lv ∷ []) {arg} w h =
    let made : codes "rd.lvm.lv=" ++ (vg ++ (codes "/" ++ lv)) ≡ arg =
      some-injective _ _ (ground arith) in
    subst (λ a. is_plain_option a ≡ true) made (lv_plain vg lv (ground arith) (ground arith))
vg_lv-plain (vg ∷ lv ∷ other ∷ rest) w h = cc

parse_lvs-plain :
    (output : Text) {arg : Text} → parse_lvs_vg_lv output ≡ some arg → is_plain_option arg ≡ true
unfolding parse_lvs_vg_lv
parse_lvs-plain output {arg} h = go (lines output) h
  where
    go :
        (ls : List Text)
        → (elim ls [ [] ↦ none | line ∷ rest ↦ vg_lv (split_whitespace (trim line)) ]) ≡ some arg
        → is_plain_option arg ≡ true
    go [] k = cc
    go (line ∷ rest) k =
        vg_lv-plain (split_whitespace (trim line)) {arg = arg}
          (split_whitespace-is_word (trim line)) k

module _ (lvs : Text → Option Text) where
  push_lv-plain :
      (args : List Text) (dev : Text)
      → all is_plain_option args ≡ true
      → all is_plain_option (push_lv lvs args (lv_of lvs dev)) ≡ true
  unfolding push_lv lv_of
  push_lv-plain args dev h = go (lvs dev)
    where
      pushed :
          (o : Option Text)
          → ((arg : Text) → o ≡ some arg → is_plain_option arg ≡ true)
          → all is_plain_option (push_lv lvs args o) ≡ true
      pushed none k = h
      pushed (some arg) k = ground (arith, k arg refl, all-append is_plain_option args (arg ∷ []))

      go :
          (o : Option Text)
          → all is_plain_option
              (push_lv lvs args (elim o [ none ↦ none | some output ↦ parse_lvs_vg_lv output ]))
            ≡ true
      go none = h
      go (some output) =
          pushed (parse_lvs_vg_lv output) (λ arg k. parse_lvs-plain output {arg = arg} k)

  lvm_step-plain :
      (seen args : List Text) (line : Text)
      → all is_plain_option args ≡ true
      → all is_plain_option (lvm_step lvs (seen, args) line).1 ≡ true
  unfolding lvm_step
  lvm_step-plain seen args line h =
      elim (Bool-cases
        (is_empty (strip_mount_source line) || contains seen (strip_mount_source line))) [
          | inl known ↦ rw (known, lvm_step) h
          | inr fresh ↦ rw (fresh, lvm_step) (push_lv-plain args (strip_mount_source line) h)
        ]

  lvm_loop-plain :
      (ls : List Text) (state : List Text × List Text)
      → all is_plain_option state.1 ≡ true
      → all is_plain_option (lvm_loop lvs state ls).1 ≡ true
  unfolding lvm_loop
  lvm_loop-plain [] state h = h
  lvm_loop-plain (line ∷ ls) state h =
      lvm_loop-plain ls (lvm_step lvs state line) (lvm_step-plain state.0 state.1 line h)

  pub lvm_plain :
      (sources : Text) → all is_plain_option (discover_lvm_kernel_args lvs sources) ≡ true
  unfolding discover_lvm_kernel_args
  lvm_plain sources = lvm_loop-plain (lines sources) ([], []) refl
