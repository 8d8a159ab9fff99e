-- ===== src/Kernel/Plain.antt =====
-- Words of a command line that name no composefs image.
use bootc_migrate.Prelude.{
  ℕ, ◌≡◌, refl, Bool, true, false, ◌&&◌, not, Option, none, some, List, [], ◌∷◌, ◌++◌, arith, ◌==◌,
  if◌then◌else◌, ==_iff, all, filter,
}
use bootc_migrate.Text.{
  Text, codes, contains, starts_with, strip_prefix, is_whitespace, trim_start_by, is_empty,
}
use bootc_migrate.Text.Words.{no_space, is_word, no_space-append, all-append}
use bootc_migrate.Kernel.Karg.{is_arg, arg_digest, find_map, strip_optional, is_ascii_hexdigit}
use bootc_migrate.Kernel.Options.{should_filter, is_carried, push_missing, VarMount, replace_char}

starts_with-eq-strip : (s p : Text) → starts_with s p ≡ false → strip_prefix s p ≡ none
unfolding starts_with strip_prefix
starts_with-eq-strip s [] h = cc
starts_with-eq-strip [] (d ∷ p) h = refl
starts_with-eq-strip (c ∷ s) (d ∷ p) h = ground (arith, starts_with-eq-strip s p)

strip_prefix-append : (p s : Text) → strip_prefix (p ++ s) p ≡ some s
unfolding strip_prefix
strip_prefix-append [] s = refl
strip_prefix-append (c ∷ p) s = rw ((==_iff c c).1 refl, strip_prefix-append p s)

-- What is no composefs argument has no digest.
arg_digest-eq-none : (w : Text) → is_arg w ≡ false → arg_digest w ≡ none
unfolding is_arg arg_digest strip_prefix
arg_digest-eq-none w h = rw (
  starts_with-eq-strip w (codes "composefs=") (ground arith),
  starts_with-eq-strip w (codes "composefs.digest=") (ground arith),
)

-- Neither a word nor a composefs argument is what a plain option must not be.
abbrev pub is_plain_option : Text → Bool
is_plain_option w = is_word w && not (is_arg w)

pub find_map-append :
    (ws vs : List Text)
    → all is_plain_option ws ≡ true
    → find_map arg_digest (ws ++ vs) ≡ find_map arg_digest vs
find_map-append [] vs h = refl
find_map-append (w ∷ ws) vs h =
    rw (arg_digest-eq-none w (ground arith)) (find_map-append ws vs (ground arith))

pub all_word : (ws : List Text) → all is_plain_option ws ≡ true → all is_word ws ≡ true
all_word [] h = refl
all_word (w ∷ ws) h = ground (arith, all_word ws)

pub carried_plain :
    (ws : List Text) → all is_word ws ≡ true → all is_plain_option (filter is_carried ws) ≡ true
unfolding is_carried should_filter
carried_plain [] h = refl
carried_plain (w ∷ ws) h = ground (arith, carried_plain ws)

pub push_missing-plain :
    (options args : List Text)
    → all is_plain_option options ≡ true
    → all is_plain_option args ≡ true
    → all is_plain_option (push_missing options args) ≡ true
unfolding push_missing
push_missing-plain options [] h k = h
push_missing-plain options (arg ∷ args) h k =
    push_missing-plain (if contains options arg then options else options ++ (arg ∷ [])) args
      (ground (arith, all-append is_plain_option options (arg ∷ []))) (ground arith)

trim_hex : (s : Text) → all is_ascii_hexdigit s ≡ true → trim_start_by (λ c. c == b'?') s ≡ s
unfolding trim_start_by
trim_hex [] h = refl
trim_hex (c ∷ s) h = ground arith

strip_hex : (s : Text) → all is_ascii_hexdigit s ≡ true → strip_optional s (codes "sha512:") ≡ s
unfolding strip_optional strip_prefix
strip_hex [] h = refl
strip_hex (c ∷ s) h = let other : (c == b's') ≡ false = ground arith in rw (other, strip_optional)

pub arg_digest-hex :
    (hex : Text)
    → all is_ascii_hexdigit hex ≡ true
    → is_empty hex ≡ false
    → arg_digest (codes "composefs=" ++ hex) ≡ some hex
unfolding arg_digest strip_prefix
arg_digest-hex hex h e =
    rw (strip_prefix-append (codes "composefs=") hex, trim_hex hex h, strip_hex hex h, e)

hex_solid : (c : ℕ) → is_ascii_hexdigit c ≡ true → is_whitespace c ≡ false
unfolding is_whitespace
hex_solid c h = ground arith

pub no_space-hex : (s : Text) → all is_ascii_hexdigit s ≡ true → no_space s ≡ true
no_space-hex [] h = refl
no_space-hex (c ∷ s) h = ground (arith, hex_solid c, no_space-hex s)

pub replace_char-no_space :
    (c : ℕ) (new s : Text)
    → no_space new ≡ true
    → no_space s ≡ true
    → no_space (replace_char c new s) ≡ true
replace_char-no_space c new [] n h = refl
replace_char-no_space c new (d ∷ s) n h =
    ground (arith, replace_char-no_space c new s n, no_space-append new (replace_char c new s))

-- A mount whose fields, as findmnt prints them, have no space inside.
pub record IsVarMount (var : VarMount) : Type 0 where
  pub uuid : no_space var.uuid ≡ true
  pub fstype : no_space var.fstype ≡ true
  pub options : no_space var.options ≡ true

abbrev pub IsOptionalVarMount : Option VarMount → Type 0
IsOptionalVarMount none = Unit
IsOptionalVarMount (some var) = IsVarMount var

pub no_space-var :
    (a b : Text) (s t u v : Text)
    → no_space a ≡ true
    → no_space s ≡ true
    → no_space b ≡ true
    → no_space t ≡ true
    → no_space u ≡ true
    → no_space v ≡ true
    → no_space (a ++ (s ++ (b ++ (t ++ (u ++ v))))) ≡ true
no_space-var a b s t u v ha hs hb ht hu hv = ground (
  arith,
  no_space-append a (s ++ (b ++ (t ++ (u ++ v)))),
  no_space-append s (b ++ (t ++ (u ++ v))),
  no_space-append b (t ++ (u ++ v)),
  no_space-append t (u ++ v),
  no_space-append u v,
)

pub plain_of :
    (w : Text)
    → is_empty w ≡ false
    → no_space w ≡ true
    → is_arg w ≡ false
    → is_plain_option w ≡ true
plain_of w e n a = ground arith
