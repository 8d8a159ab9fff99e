-- ===== src/Lifecycle/Steps.antt =====
-- The lock as runs take it, record themselves, leave it or die with it.
use mathlib.Core.List.{append_assoc, append-nil}
use bootc_migrate.Prelude.{
  ℕ, zero, suc, ◌+◌, sym, ◌∷◌, length, length-append, ◌<◌, ◌≡◌, refl, ap, ◌∙◌, subst, Bool, true,
  false, Option, some, [], ◌++◌, if◌then◌else◌,
}
use bootc_migrate.Text.{Text, u32_bound, u64_bound}
use bootc_migrate.Lifecycle.Holder.{
  LockHolder, holder_record, parse_holder, parse_holder-holder_record,
}

-- Where the run that has the lock stands, with its place in the file where that can matter, and
-- with what it has still to write; `free`: no run has it.
pub data Phase : Type 0 where
  free : Phase
  taken : LockHolder → Phase
  looked emptied : LockHolder → ℕ → Phase
  writing : LockHolder → Text → ℕ → Phase
  recorded cleared : LockHolder → Phase

pub record Lock : Type 0 where
  pub contents : Text
  pub phase : Phase

abbrev pub lock : Text → Phase → Lock
lock c ph = record { contents = c; phase = ph }

-- The numbers of a process fit their types.
pub record Fits (h : LockHolder) : Type 0 where
  pub pid : h.pid < u32_bound
  pub started : h.started < u64_bound

-- `File::set_len`: cut off, or filled up with zeros.
unfoldable pub set_len : ℕ → Text → Text
set_len zero c = []
set_len (suc n) [] = 0 ∷ set_len n []
set_len (suc n) (d ∷ c) = d ∷ set_len n c

-- What is left of a text after its first bytes, as many as the other one has.
past : Text → Text → Text
past [] c = c
past (d ∷ part) [] = []
past (d ∷ part) (e ∷ c) = past part c

-- A write at a place of the file: over what is there, after zeros if the file ends before it.
unfoldable pub write_at : ℕ → Text → Text → Text
unfolding past
write_at zero part c = part ++ past part c
write_at (suc n) part [] = 0 ∷ write_at n part []
write_at (suc n) part (d ∷ c) = d ∷ write_at n part c

-- `acquire_lock_at` and the drop of `RunLock`, call by call: `set_len` leaves the place in the file,
-- a read and a write move it, and `write_all` may write piece by piece. A refused run only reads. A
-- run that ends in any way, also in an error between these calls, loses the lock and leaves the file
-- as it is.
pub data Step : Lock → Lock → Type 0 where
  take : (c : Text) (h : LockHolder) → Fits h → Step (lock c free) (lock c (taken h))
  look : (c : Text) (h : LockHolder) (n : ℕ) → Step (lock c (taken h)) (lock c (looked h n))
  empty :
      (c : Text) (h : LockHolder) (n : ℕ)
      → Step (lock c (looked h n)) (lock (set_len 0 c) (emptied h n))
  rewind :
      (c : Text) (h : LockHolder) (n : ℕ)
      → Step (lock c (emptied h n)) (lock c (writing h (holder_record h) 0))
  write :
      (c part rest more : Text) (h : LockHolder) (n : ℕ)
      → rest ≡ part ++ more
      → Step
          (lock c (writing h rest n))
          (lock (write_at n part c) (writing h more (n + length part)))
  record_done :
      (c : Text) (h : LockHolder) (n : ℕ) → Step (lock c (writing h [] n)) (lock c (recorded h))
  clear : (c : Text) (h : LockHolder) → Step (lock c (recorded h)) (lock (set_len 0 c) (cleared h))
  unlock : (c : Text) (h : LockHolder) → Step (lock c (cleared h)) (lock c free)
  die : (c : Text) (ph : Phase) → Step (lock c ph) (lock c free)

pub data Reachable : Lock → Type 0 where
  start : (c : Text) → Reachable (lock c free)
  after : {s t : Lock} → Reachable s → Step s t → Reachable t

-- What another run that tries the lock finds: whom it is refused for, or whose lock it reclaims.
pub data Attempt : Type 0 where
  refused reclaimed : Option LockHolder → Attempt

abbrev pub is_free : Phase → Bool
is_free free = true
is_free (taken h) = false
is_free (looked h n) = false
is_free (emptied h n) = false
is_free (writing h rest n) = false
is_free (recorded h) = false
is_free (cleared h) = false

pub attempt : Lock → Attempt
attempt l =
    if is_free l.phase
    then reclaimed (parse_holder l.contents)
    else refused (parse_holder l.contents)

-- What a run has written of its record is what the file holds, and its numbers fit.
IsNamed : Text → Phase → Type 0
IsNamed c free = Unit
IsNamed c (taken h) = Fits h
IsNamed c (looked h n) = Fits h
IsNamed c (emptied h n) = (c ≡ []) × Fits h
IsNamed c (writing h rest n) = (n ≡ length c) × (holder_record h ≡ c ++ rest) × Fits h
IsNamed c (recorded h) = (c ≡ holder_record h) × Fits h
IsNamed c (cleared h) = Unit

past-nil : (part : Text) → past part [] ≡ []
unfolding past
past-nil [] = refl
past-nil (d ∷ part) = refl

-- A write at the end of the file adds to it.
write_at-end : (c part : Text) → write_at (length c) part c ≡ c ++ part
unfolding write_at
write_at-end [] part = rw (past-nil part) (append-nil part)
write_at-end (d ∷ c) part = ap (λ s. d ∷ s) (write_at-end c part)

written :
    (c part rest more : Text) (h : LockHolder) (n : ℕ)
    → rest ≡ part ++ more
    → IsNamed c (writing h rest n)
    → IsNamed (write_at n part c) (writing h more (n + length part))
unfolding IsNamed
written c part rest more h n cut (place, so_far, fits) =
    let added : write_at n part c ≡ c ++ part =
      ap (λ k. write_at k part c) place ∙ write_at-end c part in
    (
      ap (λ k. k + length part) place ∙ sym (length-append {0} c part) ∙ ap length (sym added),
      so_far
          ∙ ap (λ r. c ++ r) cut
          ∙ sym (append_assoc c part more)
          ∙ ap (λ s. s ++ more) (sym added),
      fits,
    )

Step-IsNamed : {s t : Lock} → Step s t → IsNamed s.contents s.phase → IsNamed t.contents t.phase
unfolding IsNamed set_len
Step-IsNamed (take c h fits) named = fits
Step-IsNamed (look c h n) named = named
Step-IsNamed (empty c h n) named = (refl, named)
Step-IsNamed (rewind c h n) named =
    (ap length (sym named.0), ap (λ s. s ++ holder_record h) (sym named.0), named.1)
Step-IsNamed (write c part rest more h n cut) named = written c part rest more h n cut named
Step-IsNamed (record_done c h n) named = (sym (named.1 ∙ append-nil c), named.2)
Step-IsNamed (clear c h) named = tt
Step-IsNamed (unlock c h) named = tt
Step-IsNamed (die c ph) named = tt

Reachable-IsNamed : {s : Lock} → Reachable s → IsNamed s.contents s.phase
unfolding IsNamed
Reachable-IsNamed (start c) = tt
Reachable-IsNamed (after r step) = Step-IsNamed step (Reachable-IsNamed r)

IsNamed-phase :
    (c : Text) (ph : Phase) (h : LockHolder)
    → IsNamed c ph
    → ph ≡ recorded h
    → IsNamed c (recorded h)
IsNamed-phase c ph h named e = subst (IsNamed c) e named

attempt-refused :
    (c : Text) (ph : Phase) (h : LockHolder)
    → ph ≡ recorded h
    → parse_holder c ≡ some h
    → attempt (lock c ph) ≡ refused (some h)
unfolding attempt
attempt-refused c ph h e named = rw (e, named)

-- Whatever the lock file held at first and whatever runs have taken the lock,
-- left it or died with it, a run that tries the lock while another one has it
-- and has written its record is refused and is told that run.
pub attempt-names_holder :
    (l : Lock) (h : LockHolder) → Reachable l → l.phase ≡ recorded h → attempt l ≡ refused (some h)
unfolding IsNamed
attempt-names_holder l h r e =
    let (written, fits) = IsNamed-phase l.contents l.phase h (Reachable-IsNamed r) e in
    attempt-refused l.contents l.phase h e
      (ap parse_holder written ∙ parse_holder-holder_record h fits.pid fits.started)
