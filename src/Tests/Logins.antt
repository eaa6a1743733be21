-- ===== src/Tests/Logins.antt =====
-- Logins at src/pet/api/routers/users.py, over a table of users that a transaction changes.
use fukawa.Prelude.{String, ◌≡◌, refl, Option, none}
use fukawa.Prelude.Result.{Result, ok, err}
use fukawa.Domain.Principal.{Principal}
use fukawa.Infra.Session.{SessionApi, SessionError, Stmt, Reply, UserRow}
use fukawa.Infra.Uow.{new_uow, commit}
use fukawa.Api.Access.{get_current_principal}
use fukawa.Api.Failures.{authentication_error}
use fukawa.App.Auth.{missing_token}
use fukawa.Api.Routers.{Answer, ApiState, MeOut, login}
use fukawa.Tests.Keys.{world, after_start}
use fukawa.Tests.Tokens.{jwt, verifier}
use fukawa.Tests.Requests.{ascii}
use fukawa.Tests.Provisioning.{find, answer}

-- the table as it is stored, and as the transaction sees it
abbrev Copies : Type 0
Copies = Option UserRow × Option UserRow

abbrev executed : Stmt → Copies → Result SessionError Reply × Copies
executed q (stored, seen) = ((answer q seen).0, (stored, (answer q seen).1))

abbrev api : SessionApi
api = record {
  Session = Copies;
  begin = λ d. (d.0, d.0);
  make_repos = λ d. none;
  add = λ o d. d;
  execute = executed;
  commit = λ d. (ok tt, (d.1, d.1));
  rollback = λ d. (ok tt, (d.0, d.0));
  flush = λ d. (ok tt, d);
  refresh = λ names d. (ok tt, d);
  close = λ d. (ok tt, d);
}

abbrev stored : Copies → Option UserRow
stored d = d.0

abbrev find_seen : Copies → String → String → Option UserRow
find_seen d = find d.1

abbrev state : ApiState api
state = record {
  access = record { provider = after_start; principal = none };
  work = record { uow = new_uow "0"; session = (none, none); uuids = 70 };
}

abbrev me : MeOut
me = record {
  public_id = 70;
  email = "ada@id.example";
  username = "ada";
  first_name = none;
  last_name = none;
  last_login_at = 5;
}

abbrev new_profile : Answer MeOut
new_profile = record { status_code = 201; content = me }

anonymous :
    (login jwt world (λ p. p) verifier api (λ i. i) ascii "1" 5 none state).0
    ≡ err (authentication_error missing_token)
unfolding login get_current_principal
anonymous = refl
