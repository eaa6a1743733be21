-- ===== src/App/Executor.antt =====
-- src/pet/app/transaction_executor.py: a use case in one transaction. Logging is left out.
pub mod Atomic
pub mod Stored
use fukawa.Prelude.{String}
use fukawa.Prelude.Result.{Result, ok, err}
use fukawa.App.Errors.{translate_domain_validation_error}
use fukawa.Infra.Persistence.{translate_db_error}
use fukawa.Infra.Session.{SessionApi, Exc, persistence, validation, app}
use fukawa.Infra.Uow.{State, Action, commit, within, new_uow}
use fukawa.Infra.Uow

-- the two `except` clauses
abbrev pub translated : Exc → Exc
translated (persistence e) = app (translate_db_error e)
translated (validation e) = app (translate_domain_validation_error e)
translated e = e

module _ (api : SessionApi) where
  abbrev caught : {A : Type 0} → Result Exc A × State api → Result Exc A × State api
  caught (ok a, s) = (ok a, s)
  caught (err e, s) = (err (translated e), s)

  abbrev committed : {A : Type 0} → A → Result Exc (Unit {0}) × State api → Result Exc A × State api
  committed a (ok _, s) = (ok a, s)
  committed a (err e, s) = (err e, s)

  abbrev then_commit : {A : Type 0} → Result Exc A × State api → Result Exc A × State api
  unfolding commit
  then_commit (ok a, s) = committed a (commit api s)
  then_commit (err e, s) = (err e, s)

  -- the block under `async with`
  unfoldable pub block : {A : Type 0} → Action api A → Action api A
  unfolding commit
  block handler s = caught (then_commit (handler s))

  -- TransactionExecutor.run: the factory makes a new unit of work
  unfoldable pub run : {A : Type 0} → (uow_id : String) → Action api A → Action api A
  unfolding block within
  run uow_id handler s = within api (block handler) (record s { uow = new_uow uow_id })
