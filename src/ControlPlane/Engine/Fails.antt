-- ===== src/ControlPlane/Engine/Fails.antt =====
-- controlplane/engine/manager.go: a start that fails.
use redis_shake.Prelude.{
  ℕ, true, false, some, List, [], ◌∷◌, ◌++◌, Bytes, bytes_eq_iff, ◌==◌, ◌≡◌, refl, Bool-cases, inl,
  inr, arith,
}
use redis_shake.Prelude.Int.{negsuc}
use redis_shake.ControlPlane.Domain.{TaskMode, failed, Run, is_active, is_terminal}
use redis_shake.ControlPlane.Rows.{update_where, count_where}
use redis_shake.ControlPlane.Rows.Laws.{count-append, find-count, find-append_absent}
use redis_shake.ControlPlane.Store.{
  Database, done, run_at, get_run, active_of, active, stored_run, insert_run,
  create_run_if_no_active,
}
use redis_shake.ControlPlane.Calls.{run_in, kept, set_final, write_run, finalize_run}
use redis_shake.ControlPlane.Changes.Called.{inserted}
use redis_shake.ControlPlane.Engine.{Manager, start_failed, finalize_start_failure, redact}
use redis_shake.ControlPlane.Engine.Rounds.{launch}
use redis_shake.ControlPlane.Engine.Owned.Launches.{created, absent}

-- An UPDATE by an id that only the last row has.
update_last :
    (id : Bytes) (f : Run → Run) (runs : List Run) (r : Run)
    → count_where (run_at id) runs ≡ 0
    → run_in id is_active r ≡ true
    → update_where (run_in id is_active) f (runs ++ r ∷ []) ≡ runs ++ f r ∷ []
unfolding update_where count_where
update_last id f [] r e h = rw h refl
update_last id f (x ∷ runs) r e h = elim (Bool-cases (run_at id x)) [
  | inl c ↦ ground (arith, c, e)
  | inr c ↦ rw (c, update_last id f runs r (ground (arith, c, e)) h) refl
]

counted_last :
    (id : Bytes) (runs : List Run) (r : Run)
    → run_in id is_active r ≡ true
    → (count_where (run_in id is_active) (runs ++ r ∷ []) == 0) ≡ false
counted_last id runs r h = rw (count-append (run_in id is_active) runs r, h) (ground arith)

-- The run of a start that fails, as it stands in the database afterwards.
abbrev pub failed_run : (ℕ → Bytes → Bytes) → Bytes → ℕ → Run → Run
failed_run replace_all cause at r =
    set_final failed (some (negsuc 0)) (redact replace_all cause) at (stored_run r)

abbrev pub with_run : Run → Database → Database
with_run r db = record db { runs = db.runs ++ r ∷ [] }

finalize-inserted :
    (replace_all : ℕ → Bytes → Bytes) (cause : Bytes) (at : ℕ) (r : Run) (db next : Database)
    → insert_run r db ≡ done next
    → is_active r.state ≡ true
    → kept next (finalize_run r.id failed (some (negsuc 0)) (redact replace_all cause) at next)
      ≡ with_run (failed_run replace_all cause at r) db
unfolding kept finalize_run write_run is_terminal
finalize-inserted replace_all cause at r db next e h =
    let f = set_final failed (some (negsuc 0)) (redact replace_all cause) at in
    let holds : run_in r.id is_active (stored_run r) ≡ true =
      ground (arith, (bytes_eq_iff r.id r.id).1 refl, h) in
    rw
      (
        inserted r db next e,
        counted_last r.id db.runs (stored_run r) holds,
        update_last r.id f db.runs (stored_run r) (absent r db next e) holds,
      )
      refl

get-with_run :
    (r : Run) (db : Database)
    → count_where (run_at r.id) db.runs ≡ 0
    → get_run r.id (with_run r db) ≡ some r
unfolding get_run
get-with_run r db e =
    rw
      (
        find-append_absent (run_at r.id) db.runs r (λ c. find-count (run_at r.id) db.runs e),
        (bytes_eq_iff r.id r.id).1 refl,
      )
      refl

-- Where the run of a start was created, and the files or the command then fail, the run stands last
-- in the database, FAILED with the exit code -1, the time, and the redacted cause; it is what the
-- caller is given. The other rows are as before, no process is added, and as many runs are active,
-- of any one task and of all, as before the start.
pub launch-fails :
    (replace_all : ℕ → Bytes → Bytes) (r : Run) (mode : TaskMode) (cause : Bytes) (at max : ℕ)
    (m : Manager) (next : Database)
    → create_run_if_no_active r max m.database ≡ done next
    → is_active r.state ≡ true
    → (launch replace_all r mode (some cause) at max m ≡ (
      record m { database = with_run (failed_run replace_all cause at r) m.database },
      some (start_failed (some (failed_run replace_all cause at r))),
    ))
      × ((id : Bytes)
          → count_where
              (active_of id)
              (with_run (failed_run replace_all cause at r) m.database).runs
            ≡ count_where (active_of id) m.database.runs)
      × (count_where active (with_run (failed_run replace_all cause at r) m.database).runs
          ≡ count_where active m.database.runs)
unfolding launch finalize_start_failure is_active
launch-fails replace_all r mode cause at max m next e h =
    let made = created r max m.database next e in
    let row = failed_run replace_all cause at r in
    (
      rw
          (
            launch,
            e,
            finalize-inserted replace_all cause at r m.database next made h,
            get-with_run row m.database (absent r m.database next made),
          )
          refl,
      λ id. omega (arith, count-append (active_of id) m.database.runs row),
      omega (arith, count-append active m.database.runs row),
    )
