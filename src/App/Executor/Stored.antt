-- ===== src/App/Executor/Stored.antt =====
-- What a unit of work leaves stored: laws of a session that is transactional, and what the operations of
-- the unit of work make of them.
use fukawa.Prelude.{String, Bool, true, not, ◌&&◌, ◌≡◌, arith, inl, inr, Bool-cases}
use fukawa.Prelude.Result.{ok, err, Result-cases}
use fukawa.Infra.Session.{SessionApi, SessionError, driver, foreign, Exc, Stmt, OrgRow}
use fukawa.Infra.Uow.{State, Action, new_uow, commit, aexit}
use fukawa.Infra.Uow.Lifecycle.{entered}

module _ (api : SessionApi) {Db : Type 0} (committed : api.Session → Db) where
  open api use {Session}

  -- What is documented of a session: only a commit that goes through changes what is stored, and
  -- `close` does not raise.
  pub record Transactional : Type 0 where
    pub begin_keeps : (d : Session) → committed (api.begin d) ≡ committed d
    pub add_keeps : (o : OrgRow) (d : Session) → committed (api.add o d) ≡ committed d
    pub execute_keeps : (q : Stmt) (d : Session) → committed (api.execute q d).1 ≡ committed d
    pub rollback_keeps : (d : Session) → committed (api.rollback d).1 ≡ committed d
    pub close_keeps : (d : Session) → committed (api.close d).1 ≡ committed d
    pub close_ok : (d : Session) → (api.close d).0 ≡ ok tt
    pub commit_err_keeps :
        (d : Session) (e : SessionError)
        → (api.commit d).0 ≡ err e
        → committed (api.commit d).1 ≡ committed d

  -- the new unit of work, as the handler finds it
  abbrev pub start : (uow_id : String) → State api → State api
  start uow_id s = entered api (record s { uow = new_uow uow_id })

  -- A handler that leaves the commit to the executor.
  abbrev pub LeavesCommit : {A : Type 0} → Action api A → Type 0
  LeavesCommit handler = (s : State api) → committed (handler s).1.session ≡ committed s.session

  module _ (tx : Transactional) where
    pub aexit-keeps :
        (failed : Bool) (s : State api)
        → committed (aexit api failed s).1.session ≡ committed s.session
    unfolding aexit
    aexit-keeps failed s =
        let d : Session = (api.rollback s.session).1 in
        elim (Bool-cases s.uow.has_session) [
          | inr gone ↦ ground arith
          | inl held ↦ elim (Bool-cases (failed && not s.uow.rolled_back)) [
            | inr quiet ↦ ground (arith, tx.close_ok s.session, tx.close_keeps s.session)
            | inl undo ↦ elim (Result-cases (api.rollback s.session).0) [
              | inl (x, e) ↦
                  ground (arith, tx.close_ok d, tx.close_keeps d, tx.rollback_keeps s.session)
              | inr (driver x, e) ↦
                  ground (arith, tx.close_ok d, tx.close_keeps d, tx.rollback_keeps s.session)
              | inr (foreign m, e) ↦
                  ground (arith, tx.close_ok d, tx.close_keeps d, tx.rollback_keeps s.session)
            ]
          ]
        ]

    pub commit-keeps :
        (s : State api) (x : Exc)
        → (commit api s).0 ≡ err x
        → committed (commit api s).1.session ≡ committed s.session
    unfolding commit
    commit-keeps s x h =
        let d : Session = (api.commit s.session).1 in
        elim (Bool-cases s.uow.has_session) [
          | inr gone ↦ ground arith
          | inl held ↦ elim (Result-cases (api.commit s.session).0) [
            | inl (y, e) ↦ absurd (ground arith)
            | inr (foreign m, e) ↦ ground (arith, tx.commit_err_keeps s.session (foreign m) e)
            | inr (driver q, e) ↦ elim (Result-cases (api.rollback d).0) [
              | inl (y, r) ↦
                  ground (arith, tx.commit_err_keeps s.session (driver q) e, tx.rollback_keeps d)
              | inr (driver y, r) ↦
                  ground (arith, tx.commit_err_keeps s.session (driver q) e, tx.rollback_keeps d)
              | inr (foreign m, r) ↦
                  ground (arith, tx.commit_err_keeps s.session (driver q) e, tx.rollback_keeps d)
            ]
          ]
        ]

    -- A commit that goes through leaves the session in its place.
    pub commit-ok :
        (s : State api)
        → (commit api s).0 ≡ ok tt
        → (s.uow.has_session ≡ true)
          × ((api.commit s.session).0 ≡ ok tt)
          × ((commit api s).1 ≡ record s { session = (api.commit s.session).1 })
    unfolding commit
    commit-ok s h =
        let d : Session = (api.commit s.session).1 in
        elim (Bool-cases s.uow.has_session) [
          | inr gone ↦ absurd (ground arith)
          | inl held ↦ elim (Result-cases (api.commit s.session).0) [
            | inl (y, e) ↦ (held, e, ground arith)
            | inr (foreign m, e) ↦ absurd (ground arith)
            | inr (driver q, e) ↦ elim (Result-cases (api.rollback d).0) [
              | inl (y, r) ↦ absurd (ground arith)
              | inr (driver y, r) ↦ absurd (ground arith)
              | inr (foreign m, r) ↦ absurd (ground arith)
            ]
          ]
        ]
