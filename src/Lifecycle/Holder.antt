-- ===== src/Lifecycle/Holder.antt =====
-- The record of the lock's holder, written and read.
use bootc_migrate.Prelude.{
  ℕ, ◌<◌, ◌≡◌, refl, ap, ◌∙◌, true, false, not, Option, none, some, List, [], ◌∷◌, ◌++◌, reverse,
  arith, if◌then◌else◌, ==_iff, all,
}
use bootc_migrate.Text.{
  Text, codes, text_eq, is_whitespace, trim_start_by, trim, is_empty, split_whitespace, join,
  split_once, parse_u32, parse_u64, u32_bound, u64_bound, parse_uint, parse_digits, show_nat,
}
use mathlib.Core.List.{reverse-cons, reverse-append, reverse-reverse}
use bootc_migrate.Text.Fields.{starts_clean, trim_start_clean}
use bootc_migrate.Text.{split_once_at}
use bootc_migrate.Text.Words.{all-append, no_space, is_word, split_whitespace-join}
use bootc_migrate.Text.Decimal.{
  is_digit, all_digit-show_nat, is_empty-show_nat, parse_uint-show_nat,
}

-- The process id is a u32 and the time a u64.
pub record LockHolder : Type 0 where
  pub pid : ℕ
  pub started : ℕ

unfoldable pub holder_record : LockHolder → Text
holder_record h =
    codes "pid=" ++ (show_nat h.pid ++ (codes " started=" ++ (show_nat h.started ++ codes "\n")))

-- The values found so far; a field that does not parse takes back its value.
abbrev pub Found : Type 0
Found = Option ℕ × Option ℕ

pub take_field : Found → Option (Text × Text) → Found
take_field (pid, started) none = (pid, started)
take_field (pid, started) (some (key, v)) =
    if text_eq key (codes "pid")
    then (parse_u32 v, started)
    else if text_eq key (codes "started")
    then (pid, parse_u64 v)
    else (pid, started)

pub take_fields : Found → List Text → Found
unfolding take_field
take_fields found [] = found
take_fields found (field ∷ fields) = take_fields (take_field found (split_once b'=' field)) fields

abbrev pub both_found : Found → Option LockHolder
both_found (some p, some s) = some (record { pid = p; started = s })
both_found (some p, none) = none
both_found (none, s) = none

-- A bare process id is the older format.
pub older_or_fields : Option ℕ → Text → Option LockHolder
unfolding take_fields
older_or_fields (some p) contents = some (record { pid = p; started = 0 })
older_or_fields none contents = both_found (take_fields (none, none) (split_whitespace contents))

pub parse_trimmed : Text → Option LockHolder
unfolding older_or_fields
parse_trimmed contents = older_or_fields (parse_u32 contents) contents

pub parse_holder : Text → Option LockHolder
unfolding parse_trimmed
parse_holder contents = parse_trimmed (trim contents)

-- The two words of a record.
abbrev pub holder_words : LockHolder → List Text
holder_words h = (codes "pid=" ++ show_nat h.pid) ∷ (codes "started=" ++ show_nat h.started) ∷ []

digits_no_space : (s : Text) → all is_digit s ≡ true → no_space s ≡ true
unfolding is_whitespace
digits_no_space [] h = refl
digits_no_space (c ∷ s) h = ground (arith, digits_no_space s, h)

holder_words-is_word : (h : LockHolder) → all is_word (holder_words h) ≡ true
unfolding is_whitespace
holder_words-is_word h = rw (
  digits_no_space (show_nat h.pid) (all_digit-show_nat h.pid),
  digits_no_space (show_nat h.started) (all_digit-show_nat h.started),
)

at_here :
    (c : ℕ) (s : Text) (later : Option (Text × Text)) → split_once_at c c s later ≡ some ([], s)
unfolding split_once_at
at_here c s none = rw ((==_iff c c).1 refl)
at_here c s (some (before, after)) = rw ((==_iff c c).1 refl)

split_once-here : (c : ℕ) (s : Text) → split_once c (c ∷ s) ≡ some ([], s)
unfolding split_once
split_once-here c s = at_here c s (split_once c s)

pid_field : (s : Text) → split_once b'=' (codes "pid=" ++ s) ≡ some (codes "pid", s)
unfolding split_once split_once_at
pid_field s =
    ap
      (λ o.
        split_once_at b'=' 112 (codes "id=" ++ s)
          (split_once_at b'=' 105 (codes "d=" ++ s) (split_once_at b'=' 100 (codes "=" ++ s) o)))
      (split_once-here b'=' s)

started_field : (s : Text) → split_once b'=' (codes "started=" ++ s) ≡ some (codes "started", s)
unfolding split_once split_once_at
started_field s =
    ap
      (λ o. split_once_at b'=' 115 (codes "tarted=" ++ s) (
        split_once_at b'=' 116 (codes "arted=" ++ s) (
          split_once_at b'=' 97 (codes "rted=" ++ s) (
            split_once_at b'=' 114 (codes "ted=" ++ s) (
              split_once_at b'=' 116 (codes "ed=" ++ s) (
                split_once_at b'=' 101 (codes "d=" ++ s)
                  (split_once_at b'=' 100 (codes "=" ++ s) o)))))))
      (split_once-here b'=' s)

append_assoc : (s t u : Text) → s ++ (t ++ u) ≡ (s ++ t) ++ u
append_assoc [] t u = refl
append_assoc (c ∷ s) t u = ap (λ r. c ∷ r) (append_assoc s t u)

all_digit-reverse : (s : Text) → all is_digit s ≡ true → all is_digit (reverse s) ≡ true
all_digit-reverse [] h = refl
all_digit-reverse (c ∷ s) h =
    rw (reverse-cons c s, all-append is_digit (reverse s) (c ∷ []))
      (ground (arith, all_digit-reverse s, h))

-- A line whose text begins and ends without a space, trimmed.
trim_line :
    (c : ℕ) (s : Text)
    → is_whitespace c ≡ false
    → starts_clean (reverse (c ∷ s)) ≡ true
    → trim ((c ∷ s) ++ codes "\n") ≡ c ∷ s
unfolding trim is_whitespace trim_start_by
trim_line c s solid clean =
    ap (λ x. reverse (trim_start_by is_whitespace (reverse x)))
      (trim_start_clean ((c ∷ s) ++ codes "\n") (ap not solid))
    ∙ ap (λ x. reverse (trim_start_by is_whitespace x)) (reverse-append (c ∷ s) (codes "\n"))
    ∙ ap reverse (trim_start_clean (reverse (c ∷ s)) clean)
    ∙ reverse-reverse (c ∷ s)

is_empty-append : (s : Text) (c : ℕ) → is_empty (s ++ (c ∷ [])) ≡ false
is_empty-append [] c = refl
is_empty-append (d ∷ s) c = refl

is_empty-reverse : (s : Text) → is_empty s ≡ false → is_empty (reverse s) ≡ false
is_empty-reverse [] h = cc
is_empty-reverse (c ∷ s) h = rw (reverse-cons c s, is_empty-append (reverse s) c)

starts_in_digits :
    (s t : Text) → all is_digit s ≡ true → is_empty s ≡ false → starts_clean (s ++ t) ≡ true
unfolding is_whitespace
starts_in_digits [] t d e = cc
starts_in_digits (c ∷ s) t d e = ground (arith, d)

ends_in_digits :
    (s t : Text)
    → all is_digit t ≡ true
    → is_empty t ≡ false
    → starts_clean (reverse (s ++ t)) ≡ true
ends_in_digits s t d e =
    ap starts_clean (reverse-append s t)
    ∙ starts_in_digits (reverse t) (reverse s) (all_digit-reverse t d) (is_empty-reverse t e)

trim-holder_record : (h : LockHolder) → trim (holder_record h) ≡ join (codes " ") (holder_words h)
unfolding holder_record is_whitespace join
trim-holder_record h =
    ap (λ r. trim (codes "pid=" ++ r))
      (append_assoc (show_nat h.pid) (codes " started=" ++ show_nat h.started) (codes "\n"))
    ∙ trim_line 112 (codes "id=" ++ (show_nat h.pid ++ (codes " started=" ++ show_nat h.started)))
        refl
        (ap (λ r. starts_clean (reverse (codes "pid=" ++ r)))
            (append_assoc (show_nat h.pid) (codes " started=") (show_nat h.started))
          ∙ ends_in_digits (codes "pid=" ++ (show_nat h.pid ++ codes " started="))
              (show_nat h.started) (all_digit-show_nat h.started) (is_empty-show_nat h.started))

record_is_no_number : (h : LockHolder) → parse_u32 (join (codes " ") (holder_words h)) ≡ none
unfolding parse_u32 parse_digits join
record_is_no_number h = refl

fields-holder_words :
    (h : LockHolder)
    → h.pid < u32_bound
    → h.started < u64_bound
    → take_fields (none, none) (holder_words h) ≡ (some h.pid, some h.started)
unfolding take_fields text_eq parse_u32 parse_u64
fields-holder_words h small_pid small_time =
    ap
      (λ o.
        take_field (take_field (none, none) o)
          (split_once b'=' (codes "started=" ++ show_nat h.started)))
      (pid_field (show_nat h.pid))
    ∙ ap (λ o. take_field (parse_uint u32_bound (show_nat h.pid), none) o)
        (started_field (show_nat h.started))
    ∙ ap (λ o. (o, parse_uint u64_bound (show_nat h.started)))
        (parse_uint-show_nat u32_bound h.pid small_pid)
    ∙ ap (λ o. (some h.pid, o)) (parse_uint-show_nat u64_bound h.started small_time)

-- The record of a holder whose numbers fit reads back as that holder.
pub parse_holder-holder_record :
    (h : LockHolder)
    → h.pid < u32_bound
    → h.started < u64_bound
    → parse_holder (holder_record h) ≡ some h
unfolding parse_holder
parse_holder-holder_record h small_pid small_time =
    let line = join (codes " ") (holder_words h) in
    ap parse_trimmed (trim-holder_record h)
    ∙ ap (λ o. older_or_fields o line) (record_is_no_number h)
    ∙ ap (λ ws. both_found (take_fields (none, none) ws))
        (split_whitespace-join (holder_words h) (holder_words-is_word h))
    ∙ ap both_found (fields-holder_words h small_pid small_time)
