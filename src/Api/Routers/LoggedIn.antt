-- ===== src/Api/Routers/LoggedIn.antt =====
-- POST /users/me of src/pet/api/routers/users.py: the status of a login and what it stores.
use fukawa.Prelude.{ℕ, String, Bool, ◌≡◌, sym, ap, ◌∙◌, Option, none, inl, inr}
use fukawa.Prelude.Result.{Result, ok, err, Result-cases, ok≢err}
use fukawa.Domain.Name.{Unicode}
use fukawa.Domain.Principal.{Principal}
use fukawa.Domain.Models.{User}
use fukawa.App.Auth.{AuthenticationError}
use fukawa.App.Executor.{run}
use fukawa.App.Executor.Stored.{Transactional}
use fukawa.App.Executor.Atomic.{run-atomic}
use fukawa.App.Usecases.{provision_user_from_claims}
use fukawa.App.Usecases.Provisioning.{provision-LeavesCommit}
use fukawa.Infra.Jwks.{Provider, World}
use fukawa.Infra.Verifier.{Jwt, KeycloakVerifier}
use fukawa.Infra.Session.{SessionApi, Exc}
use fukawa.Infra.Uow.{State}
use fukawa.Api.Access.{AccessState, get_current_principal}
use fukawa.Api.Failures.{Failure, authentication_error}
use fukawa.Api.Routers.{Answer, ApiState, MeOut, login, provisioned, with_user}

module _ (jwt : Jwt) (w : World) (wait : Provider → Provider) (v : KeycloakVerifier)
    (api : SessionApi) (uuid_gen : ℕ → ℕ) (u : Unicode) {Db : Type 0} (committed : api.Session → Db)
    (tx : Transactional api committed) (uow_id : String) (now : ℕ) (credentials : Option String)
    (s : ApiState api) where
  abbrev seen : Result AuthenticationError Principal × AccessState
  seen = get_current_principal jwt w wait v credentials s.access

  abbrev answer : Result Failure (Answer MeOut) × ApiState api
  answer = login jwt w wait v api uuid_gen u uow_id now credentials s

  abbrev stored_after : Result Failure (Answer MeOut) × ApiState api → Db
  stored_after o = committed o.1.work.session

  abbrev ran : Principal → Result Exc (User × Bool) × State api
  ran p = run api uow_id (provision_user_from_claims api uuid_gen now p) s.work

  unauthenticated :
      (e : AuthenticationError)
      → seen.0 ≡ err e
      → answer ≡ (err (authentication_error e), record { access = seen.1; work = s.work })
  unfolding login
  unauthenticated e q =
      ap (with_user jwt w wait v api uuid_gen u uow_id now s.work) (λ i. (q i, seen.1))

  executed :
      (p : Principal) (r : Result Exc (User × Bool))
      → seen.0 ≡ ok p
      → (ran p).0 ≡ r
      → answer ≡ provisioned jwt w wait v api uuid_gen u seen.1 (r, (ran p).1)
  unfolding login
  executed p r q e =
      ap (with_user jwt w wait v api uuid_gen u uow_id now s.work) (λ i. (q i, seen.1))
      ∙ ap (provisioned jwt w wait v api uuid_gen u seen.1) (λ i. (e i, (ran p).1))

  -- A login that is refused or fails has stored nothing, if the session is
  -- transactional and its `close` does not raise.
  failed_login_keeps :
      (f : Failure) → answer.0 ≡ err f → committed answer.1.work.session ≡ committed s.work.session
  failed_login_keeps f h = elim (Result-cases seen.0) [
    | inr (e, q) ↦ ap stored_after (unauthenticated e q)
    | inl (p, q) ↦ elim (Result-cases (ran p).0) [
      | inl ((user, is_created), r) ↦
          absurd (ok≢err (sym (ap (λ o. o.0) (executed p (ok (user, is_created)) q r)) ∙ h))
      | inr (x, r) ↦
          ap stored_after (executed p (err x) q r)
          ∙ run-atomic api committed tx (provision_user_from_claims api uuid_gen now p) uow_id
              s.work x
              (provision-LeavesCommit api (λ d i j. none) uuid_gen committed now p tx.execute_keeps)
              r
    ]
  ]
