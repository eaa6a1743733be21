-- ===== src/Infra/Uow.antt =====
-- src/pet/infra/sqla/uow.py: the unit of work. Logging is left out.
pub mod Lifecycle
use fukawa.Prelude.{
  ℕ, String, Bool, true, false, not, ◌&&◌, Option, none, some, List, is_some, if◌then◌else◌,
}
use fukawa.Prelude.Result.{Result, ok, err}
use fukawa.Infra.Persistence.{DriverError, determine_exc}
use fukawa.Infra.Session.{
  SessionApi, SessionError, driver, foreign, Exc, persistence, uow_not_initialized, uncaught,
}

-- The fields of SQLAlchemyUnitOfWork that change: which of them are set, and the flag.
pub record Uow : Type 0 where
  pub has_session : Bool
  pub has_orgs : Bool
  pub has_users : Bool
  pub has_memberships : Bool
  pub rolled_back : Bool
  pub uow_id : Option String

-- SQLAlchemyUnitOfWork.__init__
abbrev pub new_uow : String → Uow
new_uow id = record {
  has_session = false;
  has_orgs = false;
  has_users = false;
  has_memberships = false;
  rolled_back = false;
  uow_id = some id;
}

module _ (api : SessionApi) where
  open api use {Session}

  -- A unit of work, its session, and how many UUIDs have been drawn.
  pub record State : Type 0 where
    pub uow : Uow
    pub session : Session
    pub uuids : ℕ

  abbrev pub Action : Type 0 → Type 0
  Action A = State → Result Exc A × State

  abbrev pub pure : {A : Type 0} → A → Action A
  pure a s = (ok a, s)

  abbrev pub raise : {A : Type 0} → Exc → Action A
  raise e s = (err e, s)

  infixl 5 ◌>>=◌ ◌>>◌
  abbrev pub ◌>>=◌ : {A B : Type 0} → Action A → (A → Action B) → Action B
  ◌>>=◌ m f s = let (r, s') = m s in elim r [ ok a ↦ f a s' | err e ↦ (err e, s') ]

  abbrev pub ◌>>◌ : {A B : Type 0} → Action A → Action B → Action B
  m >> k = m >>= λ _. k

  abbrev pub with_session : Session → State → State
  with_session d s = record s { session = d }

  -- an operation of the session, whose error goes to a handler
  abbrev pub try_session :
      {A : Type 0}
      → (Session → Result SessionError A × Session)
      → (DriverError → Action A)
      → Action A
  try_session op on_driver s =
      let (r, d) = op s.session in
      elim r [
        | ok a ↦ (ok a, with_session d s)
        | err (driver e) ↦ on_driver e (with_session d s)
        | err (foreign m) ↦ (err (uncaught (foreign m)), with_session d s)
      ]

  abbrev pub set_rolled_back : Action (Unit {0})
  set_rolled_back s = (ok tt, record s { uow = record (s.uow) { rolled_back = true } })

  -- an access to a field that may be None
  abbrev pub require : Bool → String → Action (Unit {0})
  require true name s = (ok tt, s)
  require false name s = (err (uow_not_initialized name), s)

  -- the property `session`
  abbrev pub require_session : Action (Unit {0})
  require_session s = require s.uow.has_session "session" s

  -- the properties `orgs`, `users` and `memberships`
  abbrev pub require_repo : (Uow → Bool) → String → Action (Unit {0})
  require_repo has name s = require (has s.uow) name s

  abbrev marked : Result SessionError (Unit {0}) × Session → Result SessionError Bool × Session
  marked (ok _, d) = (ok true, d)
  marked (err e, d) = (err e, d)

  abbrev set_if : Bool → Action (Unit {0})
  set_if true = set_rolled_back
  set_if false = pure tt

  -- _rollback_after_failure: an error of the database is only logged
  unfoldable pub rollback_after_failure : Action (Unit {0})
  rollback_after_failure = do
    require_session
    rolled ← try_session (λ d. marked (api.rollback d)) (λ e. pure false)
    set_if rolled

  -- the rollback after a failed commit or flush, and the raise of the error behind it
  abbrev pub fail_with : {A : Type 0} → DriverError → Action A
  unfolding rollback_after_failure
  fail_with e = do rollback_after_failure; raise (persistence (determine_exc e))

  unfoldable pub commit : Action (Unit {0})
  unfolding rollback_after_failure
  commit = do require_session; try_session api.commit (λ e. fail_with e)

  unfoldable pub rollback : Action (Unit {0})
  rollback = do
    require_session
    try_session api.rollback (λ e. raise (persistence (determine_exc e)))
    set_rolled_back

  unfoldable pub flush : Action (Unit {0})
  unfolding rollback_after_failure
  flush = do require_session; try_session api.flush (λ e. fail_with e)

  unfoldable pub refresh : List String → Action (Unit {0})
  refresh attrs = do
    require_session
    try_session (api.refresh attrs) (λ e. raise (persistence (determine_exc e)))

  abbrev pub unset : Uow → Uow
  unset u = record u {
    has_session = false;
    has_orgs = false;
    has_users = false;
    has_memberships = false;
  }

  abbrev pub all_set : Uow → Uow
  all_set u = record u {
    has_session = true;
    has_orgs = true;
    has_users = true;
    has_memberships = true;
  }

  -- an exception of `close` is not caught
  abbrev close_session : Action (Unit {0})
  close_session = try_session api.close (λ e. raise (uncaught (driver e)))

  abbrev set_uow : (Uow → Uow) → Action (Unit {0})
  set_uow f s = (ok tt, record s { uow = f s.uow })

  abbrev undo_start : Option String → Action (Unit {0})
  undo_start none = set_uow all_set
  undo_start (some m) = do close_session; set_uow unset; raise (uncaught (foreign m))

  -- __aenter__: the factories of the repositories get the new session
  unfoldable pub aenter : Action (Unit {0})
  aenter s = let d = api.begin s.session in undo_start (api.make_repos d) (with_session d s)

  abbrev reset : Uow → Uow
  reset u = record (unset u) { uow_id = none; rolled_back = false }

  -- the `finally` of __aexit__, after the exception `pending` of its `try`
  abbrev finish : Result Exc (Unit {0}) → Action (Unit {0})
  finish pending s =
      let (r, s') = close_session s in
      elim r [ ok _ ↦ (pending, record s' { uow = reset s'.uow }) | err e ↦ (err e, s') ]

  abbrev rollback_on : Bool → Action (Unit {0})
  rollback_on true = try_session api.rollback (λ e. raise (persistence (determine_exc e)))
  rollback_on false = pure tt

  -- __aexit__, where `failed` tells whether the block raised
  unfoldable pub aexit : (failed : Bool) → Action (Unit {0})
  aexit failed s =
      if not s.uow.has_session
      then (err (uow_not_initialized "session"), s)
      else let (r, s') = rollback_on (failed && not s.uow.rolled_back) s in finish r s'

  -- `async with uow:` around a block: an exception of __aexit__ takes the place of the block's
  abbrev pub leave :
      {A : Type 0} → Result Exc A → Result Exc (Unit {0}) × State → Result Exc A × State
  leave r (ok _, s) = (r, s)
  leave r (err e, s) = (err e, s)

  abbrev pub is_err : {A : Type 0} → Result Exc A → Bool
  is_err (ok _) = false
  is_err (err _) = true

  unfoldable pub within : {A : Type 0} → Action A → Action A
  unfolding aenter aexit
  within body = do aenter; (λ s. let (r, s') = body s in leave r (aexit (is_err r) s'))
