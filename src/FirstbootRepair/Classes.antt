-- ===== src/FirstbootRepair/Classes.antt =====
-- The repair classes of firstboot_repair.rs: their names, the skip lists, the machine id, and the
-- login users.
use bootc_migrate.Prelude.{
  ℕ, ◌≡◌, refl, sym, ap, ◌∙◌, ◌≢◌, Bool, true, false, ◌&&◌, ◌||◌, not, Option, none, some, List, [],
  ◌∷◌, ◌++◌, map, ltb, leb, ◌==◌, if◌then◌else◌, any, filter, find?, filter_map, foldr,
}
use bootc_migrate.Text.{
  Text, codes, text_eq, ends_with, strip_prefix, split_by, split_on, lines, is_whitespace,
  trim_start_by, trim, is_empty, split_whitespace, join, parse_u32, text_eq_self,
}
use mathlib.Core.Bool.{true≢false}
use bootc_migrate.InstallCommit.Paths.{join_path}

pub data RepairClass : Type 0 where
  ownership machine_id flatpak selinux_label : RepairClass

abbrev pub all_classes : List RepairClass
all_classes = ownership ∷ machine_id ∷ flatpak ∷ selinux_label ∷ []

unfoldable pub class_name : RepairClass → Text
class_name ownership = codes "ownership"
class_name machine_id = codes "machine-id"
class_name flatpak = codes "flatpak"
class_name selinux_label = codes "selinux-label"

unfoldable pub parse_class : Text → Option RepairClass
unfolding class_name text_eq
parse_class name = find? (λ c. text_eq (class_name c) name) all_classes

unfoldable pub for_verify_finding : Text → Option RepairClass
unfolding text_eq
for_verify_finding class =
    if text_eq class (codes "home-owner") || text_eq class (codes "home-entries")
    then some ownership
    else if text_eq class (codes "machine-id")
    then some machine_id
    else if text_eq class (codes "flatpak")
    then some flatpak
    else if text_eq class (codes "selinux-label")
    then some selinux_label
    else none

before_comment : List Text → Text
before_comment [] = []
before_comment (piece ∷ pieces) = piece

-- The words of a list, without comments.
unfoldable pub skip_words : Text → List Text
unfolding before_comment lines split_on split_by is_whitespace
skip_words text =
    filter (λ w. not (is_empty w))
      (foldr
        (λ line words.
          split_by (λ c. c == b',' || is_whitespace c) (before_comment (split_on b'#' line))
          ++ words)
        [] (lines text))

sort_word : Text → List RepairClass × List Text → List RepairClass × List Text
unfolding parse_class
sort_word word (skips, unknown) = elim (parse_class word) [
  | some class ↦ (class ∷ skips, unknown)
  | none ↦ (skips, word ∷ unknown)
]

-- The classes that the words name, as a set, and the words that name none.
unfoldable pub parse_skip_list : Text → List RepairClass × List Text
unfolding sort_word skip_words
parse_skip_list text = foldr sort_word ([], []) (skip_words text)

abbrev pub cmdline_disable : Text
cmdline_disable = codes "bootc_migrate.repair=0"

abbrev pub cmdline_skip_prefix : Text
cmdline_skip_prefix = codes "bootc_migrate.repair.skip="

unfoldable pub cmdline_disables : Text → Bool
unfolding split_whitespace text_eq
cmdline_disables cmdline = any (λ arg. text_eq arg cmdline_disable) (split_whitespace cmdline)

unfoldable pub cmdline_skip_list : Text → Text
unfolding join strip_prefix split_whitespace
cmdline_skip_list cmdline =
    join (codes ",")
      (filter_map (λ arg. strip_prefix arg cmdline_skip_prefix) (split_whitespace cmdline))

unfoldable pub machine_id_duplicated : Text → Text → Bool
unfolding trim text_eq
machine_id_duplicated live source =
    not (is_empty (trim source)) && text_eq (trim live) (trim source)

pub data Status : Type 0 where
  repaired clean skipped not_applicable failed : Status

-- The class of the machine id: its status, and what the file has afterwards. `writes` says whether
-- the file can be truncated.
machine_result : Bool → Bool → Bool → Text → Status × Text
machine_result false dry_run writes live = (clean, live)
machine_result true true writes live = (repaired, live)
machine_result true false true live = (repaired, [])
machine_result true false false live = (failed, live)

unfoldable pub repair_machine_id : Text → Bool → Bool → Text → Status × Text
unfolding machine_result machine_id_duplicated
repair_machine_id source dry_run writes live =
    if is_empty (trim source)
    then (clean, live)
    else machine_result (machine_id_duplicated live source) dry_run writes live

pub record HumanUser : Type 0 where
  pub name : Text
  pub uid : ℕ
  pub home : Text

login_user : Text → Text → Text → Option ℕ → Option HumanUser
login_user name home shell none = none
login_user name home shell (some uid) =
    if leb 1000 uid
      && ltb uid 65534
      && not (ends_with shell (codes "nologin"))
      && not (ends_with shell (codes "false"))
    then some (record { name = name; uid = uid; home = home })
    else none

user_of : List Text → Option HumanUser
unfolding login_user
user_of (name ∷ password ∷ uid ∷ gid ∷ gecos ∷ home ∷ shell ∷ rest) =
    login_user name home shell (parse_u32 uid)
user_of _ = none

unfoldable pub human_users : Text → List HumanUser
unfolding user_of
human_users passwd = filter_map (λ line. user_of (split_on b':' line)) (lines passwd)

pub record FlatpakInstall : Type 0 where
  pub user : Option HumanUser
  pub directory : Text

unfoldable pub flatpak_installs : List HumanUser → List FlatpakInstall
unfolding join_path
flatpak_installs users =
    record { user = none; directory = codes "/var/lib/flatpak" }
    ∷ map
        (λ u. record { user = some u; directory = join_path u.home (codes ".local/share/flatpak") })
        users

recorded_run :
    (source live : Text) (writes : Bool)
    → is_empty (trim source) ≡ false
    → repair_machine_id source false writes live
      ≡ machine_result (machine_id_duplicated live source) false writes live
unfolding repair_machine_id
recorded_run source live writes recorded =
    ap
      (λ b.
        if b
        then (clean, live)
        else machine_result (machine_id_duplicated live source) false writes live)
      recorded

other_id :
    (source live : Text)
    → is_empty (trim source) ≡ false
    → machine_id_duplicated live source ≡ false
    → trim live ≢ trim source
unfolding machine_id_duplicated
other_id source live recorded other same =
    true≢false (sym (rw (recorded, same) (text_eq_self (trim source))) ∙ other)

trim_nothing : trim [] ≡ []
unfolding trim trim_start_by
trim_nothing = refl

text_eq-nothing : (s : Text) → (not (is_empty s) && text_eq [] s) ≡ false
unfolding text_eq
text_eq-nothing [] = refl
text_eq-nothing (c ∷ s) = refl

no_id : (source : Text) → machine_id_duplicated [] source ≡ false
unfolding machine_id_duplicated
no_id source =
    ap (λ t. not (is_empty (trim source)) && text_eq t (trim source)) trim_nothing
    ∙ text_eq-nothing (trim source)

-- A live id that is another one stays, and is not repaired again.
settled :
    (source after : Text) (writes : Bool)
    → is_empty (trim source) ≡ false
    → machine_id_duplicated after source ≡ false
    → (trim after ≢ trim source) × (repair_machine_id source false writes after ≡ (clean, after))
unfolding machine_result
settled source after writes recorded other = (
  other_id source after recorded other,
  recorded_run source after writes recorded ∙ ap (λ b. machine_result b false writes after) other,
)

-- Where a source's machine id is recorded, a run of the class that is no trial and does not fail leaves the machine with another id or none, and running it again changes nothing and finds nothing to repair.
pub repair_machine_id-distinct :
    (source live : Text) (writes : Bool) {status : Status} {after : Text}
    → is_empty (trim source) ≡ false
    → repair_machine_id source false writes live ≡ (status, after)
    → status ≢ failed
    → (trim after ≢ trim source) × (repair_machine_id source false writes after ≡ (clean, after))
unfolding machine_result
repair_machine_id-distinct source live writes {status} {after} recorded runs works =
    by_result (machine_id_duplicated live source) writes refl
      (sym (recorded_run source live writes recorded) ∙ runs)
  where
    by_result :
        (b w : Bool)
        → machine_id_duplicated live source ≡ b
        → machine_result b false w live ≡ (status, after)
        → (trim after ≢ trim source)
          × (repair_machine_id source false writes after ≡ (clean, after))
    by_result false w other e =
        settled source after writes recorded
          (ap (λ x. machine_id_duplicated x.1 source) (sym e) ∙ other)
    by_result true true same e =
        settled source after writes recorded
          (ap (λ x. machine_id_duplicated x.1 source) (sym e) ∙ no_id source)
    by_result true false same e = absurd (works (ap (λ x. x.0) (sym e)))
