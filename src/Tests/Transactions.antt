-- ===== src/Tests/Transactions.antt =====
-- Units of work and runs over a session that counts the writes that it has stored.
use fukawa.Prelude.{
  ℕ, suc, ◌+◌, Bool, true, false, ◌≡◌, refl, Option, none, some, List, [], ◌∷◌, arith,
}
use fukawa.Prelude.Result.{Result, ok, err}
use fukawa.Infra.Persistence.{DriverError, operational_error, determine_exc}
use fukawa.Infra.Session.{
  SessionApi, SessionError, driver, Exc, persistence, Stmt, insert_membership, select_user,
  upsert_user, Reply, done, users, upserted, UserRow, OrgRow,
}
use fukawa.Infra.Uow.{State, Action, new_uow, commit, aexit, within, rollback_after_failure}
use fukawa.Infra.Uow.Lifecycle.{
  ClosesCleanly, IsReleased, within-IsReleased, failed_commit_rolled_back,
}
use fukawa.App.Executor.{run, block, translated}
use fukawa.App.Executor.Stored.{Transactional, start}
use fukawa.App.Executor.Atomic.{run-atomic}

-- How many writes are stored, how many wait for a commit, and whether the session is open.
pub record Fake : Type 0 where
  pub stored : ℕ
  pub pending : ℕ
  pub is_open : Bool

abbrev outcome : Option SessionError → Result SessionError (Unit {0})
outcome none = ok tt
outcome (some e) = err e

abbrev committing : Option SessionError → Fake → Fake
committing none d = record d { stored = d.stored + d.pending; pending = 0 }
committing (some _) d = d

abbrev pub row : UserRow
row = record {
  public_id = 40;
  email = "ada@id.example";
  username = "ada";
  first_name = none;
  last_name = none;
  auth_issuer = "https://id.example";
  auth_subject = "u1";
  last_login_at = 5;
  created_at = 5;
  updated_at = 5;
}

abbrev answer : List UserRow → Stmt → Fake → Result SessionError Reply × Fake
answer known (select_user _ _) d = (ok (users known), d)
answer known (insert_membership _ _ _ _) d = (ok done, record d { pending = suc d.pending })
answer known (upsert_user _ _ _) d = (ok (upserted []), record d { pending = suc d.pending })

-- a session whose commit and rollback may fail, and that knows some users
abbrev fake : Option SessionError → Option SessionError → List UserRow → SessionApi
fake on_commit on_rollback known = record {
  Session = Fake;
  begin = λ d. record d { pending = 0; is_open = true };
  make_repos = λ d. none;
  add = λ o d. record d { pending = suc d.pending };
  execute = answer known;
  commit = λ d. (outcome on_commit, committing on_commit d);
  rollback = λ d. (outcome on_rollback, record d { pending = 0 });
  flush = λ d. (ok tt, d);
  refresh = λ names d. (ok tt, d);
  close = λ d. (ok tt, record d { is_open = false });
}

abbrev pub stored_writes : Fake → ℕ
stored_writes d = d.stored

answer-stored :
    (known : List UserRow) (q : Stmt) (d : Fake)
    → stored_writes (answer known q d).1 ≡ stored_writes d
answer-stored known (select_user _ _) d = refl
answer-stored known (insert_membership _ _ _ _) d = refl
answer-stored known (upsert_user _ _ _) d = refl

pub fake-Transactional :
    (on_commit on_rollback : Option SessionError) (known : List UserRow)
    → Transactional (fake on_commit on_rollback known) stored_writes
fake-Transactional none on_rollback known = record {
  begin_keeps = λ d. refl;
  add_keeps = λ o d. refl;
  execute_keeps = answer-stored known;
  rollback_keeps = λ d. refl;
  close_keeps = λ d. refl;
  close_ok = λ d. refl;
  commit_err_keeps = λ d e h. absurd (ground arith);
}
fake-Transactional (some x) on_rollback known = record {
  begin_keeps = λ d. refl;
  add_keeps = λ o d. refl;
  execute_keeps = answer-stored known;
  rollback_keeps = λ d. refl;
  close_keeps = λ d. refl;
  close_ok = λ d. refl;
  commit_err_keeps = λ d e h. refl;
}

abbrev pub outage : DriverError
outage = record {
  error_class = operational_error;
  orig = none;
  connection_invalidated = true;
  text = "server closed the connection";
}

abbrev pub healthy : SessionApi
healthy = fake none none (row ∷ [])

-- no commit goes through
abbrev pub failing : SessionApi
failing = fake (some (driver outage)) none (row ∷ [])

-- neither a commit nor a rollback goes through
abbrev dead : SessionApi
dead = fake (some (driver outage)) (some (driver outage)) (row ∷ [])

-- nobody is known
abbrev pub deserted : SessionApi
deserted = fake none none []

healthy-ClosesCleanly : ClosesCleanly healthy (λ d. d.is_open)
healthy-ClosesCleanly = record { no_error = λ d. refl; closed = λ d. refl }

-- three writes are stored, none waits
abbrev idle :
    (on_commit on_rollback : Option SessionError) (known : List UserRow)
    → State (fake on_commit on_rollback known)
idle on_commit on_rollback known = record {
  uow = new_uow "0";
  session = record { stored = 3; pending = 0; is_open = false };
  uuids = 70;
}

abbrev pub idle_healthy : State healthy
idle_healthy = idle none none (row ∷ [])

abbrev pub idle_failing : State failing
idle_failing = idle (some (driver outage)) none (row ∷ [])

abbrev idle_dead : State dead
idle_dead = idle (some (driver outage)) (some (driver outage)) (row ∷ [])

abbrev pub idle_deserted : State deserted
idle_deserted = idle none none []

abbrev acme : OrgRow
acme = record { public_id = 70; name = "Acme" }

-- a handler that writes, and one that then raises
abbrev write : (api : SessionApi) → Action api ℕ
write api s = (ok 9, record s { session = api.add acme s.session })

abbrev pub crash : Exc
crash = persistence (determine_exc outage)

abbrev write_and_crash : (api : SessionApi) → Action api ℕ
write_and_crash api s = (err crash, record s { session = api.add acme s.session })

failing_runs : (run failing "1" (write failing) idle_failing).0 ≡ err (translated crash)
unfolding run block within aexit commit rollback_after_failure
failing_runs = refl

run-atomic_example : stored_writes (run failing "1" (write failing) idle_failing).1.session ≡ 3
run-atomic_example =
    run-atomic failing stored_writes (fake-Transactional (some (driver outage)) none (row ∷ []))
      (write failing) "1" idle_failing (translated crash) (λ s. refl) failing_runs

within-IsReleased_example :
    IsReleased healthy (λ d. d.is_open) (within healthy (write_and_crash healthy) idle_healthy).1
within-IsReleased_example =
    within-IsReleased healthy (λ d. d.is_open) healthy-ClosesCleanly (write_and_crash healthy)
      idle_healthy (λ s h. h)

abbrev open_failing : State failing
open_failing = start failing stored_writes "1" idle_failing

failed_commit_rolled_back_example :
    ((commit failing open_failing).0 ≡ err (persistence (determine_exc outage)))
    × ((aexit failing true (commit failing open_failing).1).1.session
        ≡ record { stored = 3; pending = 0; is_open = false })
failed_commit_rolled_back_example =
    failed_commit_rolled_back failing open_failing outage refl refl refl tt
