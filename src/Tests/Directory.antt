-- ===== src/Tests/Directory.antt =====
-- Two requests for an organization, one of them without a token, over a session that keeps the rows that
-- it has stored and those that wait for a commit.
use fukawa.Prelude.{◌≡◌, refl, none, some, List, [], ◌∷◌, ◌++◌, arith}
use fukawa.Prelude.Result.{Result, ok}
use fukawa.Json.{str, obj, end, field}
use fukawa.Infra.Session.{
  SessionApi, SessionError, Stmt, insert_membership, select_user, upsert_user, Reply, done, users,
  upserted,
}
use fukawa.Infra.Uow.{new_uow}
use fukawa.Api.Routers.{ApiState}
use fukawa.Api.Routers.Directory.{
  Write, organization, membership, Added, CreateRequest, IsStoring, serve, serve_refines,
}
use fukawa.Api.Routers.Owners.{HasOwners, serve-HasOwners}
use fukawa.Tests.Keys.{world}
use fukawa.Tests.Tokens.{verifier}
use fukawa.Tests.Transactions.{row}
use fukawa.Tests.Requests.{ascii, jwt, before}

abbrev Rows : Type 0
Rows = List Write × List Write

abbrev answer : Stmt → Rows → Result SessionError Reply × Rows
answer (select_user _ _) d = (ok (users (row ∷ [])), d)
answer (insert_membership id user org role) (stored, waiting) =
    (ok done, (stored, waiting ++ (membership id user org role ∷ [])))
answer (upsert_user _ _ _) d = (ok (upserted []), d)

abbrev api : SessionApi
api = record {
  Session = Rows;
  begin = λ d. (d.0, []);
  make_repos = λ d. none;
  add = λ o d. (d.0, d.1 ++ (organization o ∷ []));
  execute = answer;
  commit = λ d. (ok tt, (d.0 ++ d.1, []));
  rollback = λ d. (ok tt, (d.0, []));
  flush = λ d. (ok tt, d);
  refresh = λ names d. (ok tt, d);
  close = λ d. (ok tt, d);
}

abbrev pending : Rows → List Write
pending d = d.1

abbrev committed : Rows → List Write
committed d = d.0

answer-committed : (q : Stmt) (d : Rows) → committed (answer q d).1 ≡ committed d
answer-committed (select_user _ _) d = refl
answer-committed (insert_membership _ _ _ _) d = refl
answer-committed (upsert_user _ _ _) d = refl

api-IsStoring : IsStoring api pending committed
api-IsStoring = record {
  transactional = record {
    begin_keeps = λ d. refl;
    add_keeps = λ o d. refl;
    execute_keeps = answer-committed;
    rollback_keeps = λ d. refl;
    close_keeps = λ d. refl;
    close_ok = λ d. refl;
    commit_err_keeps = λ d e h. absurd (ground arith);
  };
  begin_pending = λ d. refl;
  add_pending = λ o d. refl;
  select_pending = λ issuer subject d. refl;
  insert_pending = λ id user org role d r h. refl;
  commit_stores = λ d h. refl;
}

abbrev requests : List CreateRequest
requests =
    record { uow_id = "1"; credentials = some "token"; body = obj (field "name" (str "Acme") end) }
    ∷ record { uow_id = "2"; credentials = none; body = obj (field "name" (str "Acme") end) }
    ∷ []

abbrev state : ApiState api
state = record {
  access = before;
  work = record { uow = new_uow "0"; session = ([], []); uuids = 70 };
}

serve_refines_example :
    (ws : List Write) × Added
      (serve api pending committed jwt world (λ p. p) verifier (λ i. i) ascii requests state).0
      ws
    × (committed
          (serve api pending committed jwt world
            (λ p. p)
            verifier
            (λ i. i)
            ascii
            requests
            state).1.work.session
        ≡ ws)
serve_refines_example =
    serve_refines api pending committed jwt world (λ p. p) verifier (λ i. i) ascii api-IsStoring
      requests state

serve-HasOwners_example : HasOwners (
    committed
      (serve api pending committed jwt world
        (λ p. p)
        verifier
        (λ i. i)
        ascii
        requests
        state).1.work.session)
serve-HasOwners_example =
    serve-HasOwners api pending committed jwt world (λ p. p) verifier (λ i. i) ascii api-IsStoring
      requests state (λ id h. h)
