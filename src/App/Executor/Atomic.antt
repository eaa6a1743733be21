-- ===== src/App/Executor/Atomic.antt =====
-- TransactionExecutor.run of src/pet/app/transaction_executor.py: what is stored when it returns and
-- when it raises, and what it raises.
use fukawa.Prelude.{
  String, true, false, ◌≡◌, refl, ap, ◌∙◌, none, some, arith, inl, inr, Option-cases,
}
use fukawa.Prelude.Result.{Result, ok, err, Result-cases}
use fukawa.Infra.Persistence.{determine_exc}
use fukawa.Infra.Session.{SessionApi, SessionError, driver, foreign, Exc, persistence, uncaught}
use fukawa.Infra.Uow.{State, Action, new_uow, commit, aexit, within, is_err, leave}
use fukawa.Infra.Uow.Lifecycle.{within-entered, leave-state, KeepsSession}
use fukawa.App.Executor.{block, run}
use fukawa.App.Executor.Stored.{
  Transactional, LeavesCommit, start, aexit-keeps, commit-keeps, commit-ok,
}

-- what a raising rollback puts in the place of the exception `pending`
abbrev pub rollback_error : Result SessionError (Unit {0}) → (pending : Exc) → Exc
rollback_error (ok _) pending = pending
rollback_error (err (driver e)) pending = persistence (determine_exc e)
rollback_error (err (foreign m)) pending = uncaught (foreign m)

module _ (api : SessionApi) {Db : Type 0} (committed : api.Session → Db)
    (tx : Transactional api committed) where
  open api use {Session}

  -- the block of the executor that raised
  block-keeps :
      {A : Type 0} (handler : Action api A) (s : State api) (x : Exc)
      → LeavesCommit api committed handler
      → (block api handler s).0 ≡ err x
      → committed (block api handler s).1.session ≡ committed s.session
  unfolding block
  block-keeps handler s x leaves h = elim (Result-cases (handler s).0) [
    | inr (e, q) ↦ ground (arith, leaves s)
    | inl (a, q) ↦ elim (Result-cases (commit api (handler s).1).0) [
      | inl (y, c) ↦ absurd (ground arith)
      | inr (e, c) ↦ ground (arith, leaves s, commit-keeps api committed tx (handler s).1 e c)
    ]
  ]

  block-ok :
      {A : Type 0} (handler : Action api A) (s : State api) (a : A)
      → (block api handler s).0 ≡ ok a
      → ((handler s).0 ≡ ok a)
        × ((commit api (handler s).1).0 ≡ ok tt)
        × ((block api handler s).1 ≡ (commit api (handler s).1).1)
  unfolding block
  block-ok handler s a h = elim (Result-cases (handler s).0) [
    | inr (e, q) ↦ absurd (ground arith)
    | inl (b, q) ↦ elim (Result-cases (commit api (handler s).1).0) [
      | inr (e, c) ↦ absurd (ground arith)
      | inl (y, c) ↦ (ground arith, ground arith, ground arith)
    ]
  ]

  block-has_session :
      {A : Type 0} (handler : Action api A) (s : State api) (a : A)
      → (block api handler s).0 ≡ ok a
      → (block api handler s).1.uow.has_session ≡ true
  block-has_session handler s a h =
      let (_, went, same) = block-ok handler s a h in
      let (held, _, rest) = commit-ok api committed tx (handler s).1 went in
      ap (λ t. t.uow.has_session) (same ∙ rest) ∙ held

  aexit-quiet : (s : State api) → s.uow.has_session ≡ true → (aexit api false s).0 ≡ ok tt
  unfolding aexit
  aexit-quiet s h = ground (arith, tx.close_ok s.session)

  block-commits :
      {A : Type 0} (handler : Action api A) (s : State api) (a : A)
      → (handler s).1.uow.has_session ≡ true
      → (handler s).0 ≡ ok a
      → (api.commit (handler s).1.session).0 ≡ ok tt
      → ((block api handler s).0 ≡ ok a)
        × ((block api handler s).1.session ≡ (api.commit (handler s).1.session).1)
  unfolding block commit
  block-commits handler s a held h went = (ground arith, ground arith)

  -- what a run comes to, once the block has been entered
  run-entered :
      {A : Type 0} (handler : Action api A) (uow_id : String) (s : State api)
      → api.make_repos (api.begin s.session) ≡ none
      → let r = block api handler (start api committed uow_id s) in
        run api uow_id handler s ≡ leave api r.0 (aexit api (is_err api r.0) r.1)
  unfolding run
  run-entered handler uow_id s e =
      within-entered api (block api handler) (record s { uow = new_uow uow_id }) e

  run-block-ok :
      {A : Type 0} (handler : Action api A) (uow_id : String) (s : State api) (a : A)
      → api.make_repos (api.begin s.session) ≡ none
      → (block api handler (start api committed uow_id s)).0 ≡ ok a
      → (run api uow_id handler s).0 ≡ ok a
  run-block-ok handler uow_id s a e q =
      let r = block api handler (start api committed uow_id s) in
      ground (
        arith,
        run-entered handler uow_id s e,
        aexit-quiet r.1 (block-has_session handler (start api committed uow_id s) a q),
      )

  run-session :
      {A : Type 0} (handler : Action api A) (uow_id : String) (s : State api)
      → api.make_repos (api.begin s.session) ≡ none
      → committed (run api uow_id handler s).1.session
        ≡ committed (block api handler (start api committed uow_id s)).1.session
  run-session handler uow_id s e =
      let r = block api handler (start api committed uow_id s) in
      ap (λ o. committed o.1.session) (run-entered handler uow_id s e)
      ∙ ap (λ (t : State api). committed t.session)
          (leave-state api r.0 (aexit api (is_err api r.0) r.1))
      ∙ aexit-keeps api committed tx (is_err api r.0) r.1

  run-block-err :
      {A : Type 0} (handler : Action api A) (uow_id : String) (s : State api) (x : Exc)
      → api.make_repos (api.begin s.session) ≡ none
      → (block api handler (start api committed uow_id s)).0 ≡ err x
      → is_err api (run api uow_id handler s).0 ≡ true
  run-block-err handler uow_id s x e q =
      let r = block api handler (start api committed uow_id s) in
      elim (Result-cases (aexit api (is_err api r.0) r.1).0) [
        | inl (y, l) ↦ ground (arith, run-entered handler uow_id s e)
        | inr (y, l) ↦ ground (arith, run-entered handler uow_id s e)
      ]

  not_started :
      {A : Type 0} (handler : Action api A) (uow_id : String) (s : State api) (m : String)
      → api.make_repos (api.begin s.session) ≡ some m
      → ((run api uow_id handler s).0 ≡ err (uncaught (foreign m)))
        × (committed (run api uow_id handler s).1.session ≡ committed s.session)
  unfolding run within
  not_started handler uow_id s m e =
      let d : Session = api.begin s.session in
      (
        ground (arith, tx.close_ok d),
        ground (arith, tx.close_ok d, tx.close_keeps d, tx.begin_keeps s.session),
      )

  -- A run that raises leaves what is stored as it was, whatever raised: the start of the block, the
  -- handler, the commit, or the rollback on the way out, if closing a session does not raise, only
  -- commits that go through store anything and the handler does not commit by itself.
  pub run-atomic :
      {A : Type 0} (handler : Action api A) (uow_id : String) (s : State api) (x : Exc)
      → LeavesCommit api committed handler
      → (run api uow_id handler s).0 ≡ err x
      → committed (run api uow_id handler s).1.session ≡ committed s.session
  run-atomic handler uow_id s x leaves h =
      let t : State api = start api committed uow_id s in
      elim (Option-cases (api.make_repos (api.begin s.session))) [
        | inr (m, e) ↦ (not_started handler uow_id s m e).1
        | inl e ↦ elim (Result-cases (block api handler t).0) [
          | inl (a, q) ↦ absurd (ground (arith, run-block-ok handler uow_id s a e q))
          | inr (y, q) ↦
              run-session handler uow_id s e
              ∙ block-keeps handler t y leaves q
              ∙ tx.begin_keeps s.session
        ]
      ]

  -- A handler that returns on the new unit of work, and leaves it in its place, makes the run return
  -- the same value with the handler's work stored, once the block can be entered and the session
  -- commits, if the session is transactional.
  run-stores :
      {A : Type 0} (handler : Action api A) (uow_id : String) (s : State api) (a : A)
      → KeepsSession api handler
      → api.make_repos (api.begin s.session) ≡ none
      → (handler (start api committed uow_id s)).0 ≡ ok a
      → let d : Session = (handler (start api committed uow_id s)).1.session in
        (api.commit d).0 ≡ ok tt
        → ((run api uow_id handler s).0 ≡ ok a)
          × (committed (run api uow_id handler s).1.session ≡ committed (api.commit d).1)
  run-stores handler uow_id s a keeps e h went =
      let t : State api = start api committed uow_id s in
      let (same, q) = block-commits handler t a (keeps t refl) h went in
      (run-block-ok handler uow_id s a e same, run-session handler uow_id s e ∙ ap committed q)

  -- A run that returns has had its handler return that value on the new unit of work, its session
  -- commit, and what that commit stored stays stored.
  pub run-ok :
      {A : Type 0} (handler : Action api A) (uow_id : String) (s : State api) (a : A)
      → (run api uow_id handler s).0 ≡ ok a
      → let t : State api = (handler (start api committed uow_id s)).1 in
        ((handler (start api committed uow_id s)).0 ≡ ok a)
        × ((api.commit t.session).0 ≡ ok tt)
        × (committed (run api uow_id handler s).1.session ≡ committed (api.commit t.session).1)
  run-ok handler uow_id s a h = elim (Option-cases (api.make_repos (api.begin s.session))) [
    | inr (m, e) ↦ absurd (ground (arith, (not_started handler uow_id s m e).0))
    | inl e ↦ elim (Result-cases (block api handler (start api committed uow_id s)).0) [
      | inr (y, q) ↦ absurd (ground (arith, run-block-err handler uow_id s y e q))
      | inl (b, q) ↦
          let (x, y, z) = block-ok handler (start api committed uow_id s) b q in
          let (_, goes, rest) =
            commit-ok api committed tx (handler (start api committed uow_id s)).1 y in
          (
            ground (arith, run-block-ok handler uow_id s b e q),
            goes,
            run-session handler uow_id s e ∙ ap (λ (t : State api). committed t.session) (z ∙ rest),
          )
    ]
  ]
