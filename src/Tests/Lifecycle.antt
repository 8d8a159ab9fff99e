-- ===== src/Tests/Lifecycle.antt =====
-- The run lock.
use bootc_migrate.Prelude.{◌≡◌, refl, some, [], arith}
use bootc_migrate.Text.{Text, codes, show_nat}
use bootc_migrate.Lifecycle.Holder.{
  LockHolder, holder_record, parse_holder, parse_holder-holder_record,
}
use bootc_migrate.Lifecycle.Steps.{
  lock, recorded, Fits, take, look, empty, rewind, write, record_done, set_len, write_at, Reachable,
  start, after, refused, attempt, attempt-names_holder,
}

abbrev run_42 : LockHolder
run_42 = record { pid = 42; started = 1700000000 }

run_42-Fits : Fits run_42
run_42-Fits = record { pid = omega arith; started = omega arith }

parse_holder-holder_record_example : parse_holder (holder_record run_42) ≡ some run_42
parse_holder-holder_record_example = parse_holder-holder_record run_42 (omega arith) (omega arith)

-- The file still has the record of a run that was killed.
stale : Text
stale = codes "pid=7 started=5\n"

-- The record is written in two pieces, over the file that the read left at its end.
run_42-Reachable : Reachable (lock (holder_record run_42) (recorded run_42))
unfolding set_len write_at holder_record show_nat
run_42-Reachable =
    let looked_at =
      after (after (start stale) (take stale run_42 run_42-Fits)) (look stale run_42 16) in
    let rewound = after (after looked_at (empty stale run_42 16)) (rewind [] run_42 16) in
    let rest = codes "=42 started=1700000000\n" in
    let begun = after rewound (write [] (codes "pid") (holder_record run_42) rest run_42 0 refl) in
    after (after begun (write (codes "pid") rest rest [] run_42 3 refl))
      (record_done (holder_record run_42) run_42 26)

attempt-names_holder_example :
    attempt (lock (holder_record run_42) (recorded run_42)) ≡ refused (some run_42)
attempt-names_holder_example =
    attempt-names_holder (lock (holder_record run_42) (recorded run_42)) run_42 run_42-Reachable
      refl
