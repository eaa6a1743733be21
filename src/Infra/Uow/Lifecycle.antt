-- ===== src/Infra/Uow/Lifecycle.antt =====
-- The block around a unit of work of src/pet/infra/sqla/uow.py: its session on the ways out, and the
-- rollback of a failed commit.
use fukawa.Prelude.{
  Bool, true, false, not, ◌&&◌, ◌≡◌, refl, ap, ◌∙◌, none, arith, inl, inr, Bool-cases, Option-cases,
  if◌then◌else◌,
}
use fukawa.Prelude.Result.{Result, ok, err, Result-cases}
use fukawa.Infra.Persistence.{DriverError, determine_exc}
use fukawa.Infra.Session.{SessionApi, SessionError, driver, foreign, Exc, persistence}
use fukawa.Infra.Uow.{State, Action, commit, aexit, within, is_err, leave}

if_self : (b : Bool) → (if b then true else false) ≡ b
if_self true = refl
if_self false = refl

module _ (api : SessionApi) where
  open api use {Session}

  -- What is documented of a session's `close`: it ends the session, and does not raise.
  pub record ClosesCleanly (is_open : Session → Bool) : Type 0 where
    pub no_error : (d : Session) → (api.close d).0 ≡ ok tt
    pub closed : (d : Session) → is_open (api.close d).1 ≡ false

  -- the unit of work and its session as the block finds them
  abbrev pub entered : State api → State api
  entered s = record s {
    session = api.begin s.session;
    uow = record (s.uow) {
      has_session = true;
      has_orgs = true;
      has_users = true;
      has_memberships = true;
    };
  }

  pub within-entered :
      {A : Type 0} (body : Action api A) (s : State api)
      → api.make_repos (api.begin s.session) ≡ none
      → within api body s
        ≡ leave api
            (body (entered s)).0
            (aexit api (is_err api (body (entered s)).0) (body (entered s)).1)
  unfolding within
  within-entered body s e = ground arith

  pub leave-state :
      {A : Type 0} (r : Result Exc A) (o : Result Exc (Unit {0}) × State api)
      → (leave api r o).1 ≡ o.1
  leave-state r (ok _, s) = refl
  leave-state r (err e, s) = refl

  -- A block that leaves the session in its place.
  abbrev pub KeepsSession : {A : Type 0} → Action api A → Type 0
  KeepsSession body = (s : State api) → s.uow.has_session ≡ true → (body s).1.uow.has_session ≡ true

  pub record IsReleased (is_open : Session → Bool) (s : State api) : Type 0 where
    pub session_closed : is_open s.session ≡ false
    pub session_unset : s.uow.has_session ≡ false

  module _ (is_open : Session → Bool) (clean : ClosesCleanly is_open) where
    aexit-IsReleased :
        (failed : Bool) (s : State api)
        → s.uow.has_session ≡ true
        → IsReleased is_open (aexit api failed s).1
    unfolding aexit
    aexit-IsReleased failed s h = elim (Bool-cases (failed && not s.uow.rolled_back)) [
      | inr quiet ↦ ground (arith, clean.no_error s.session, clean.closed s.session)
      | inl undo ↦
          let d : Session = (api.rollback s.session).1 in
          elim (Result-cases (api.rollback s.session).0) [
            | inl (x, e) ↦ ground (arith, clean.no_error d, clean.closed d)
            | inr (driver x, e) ↦ ground (arith, clean.no_error d, clean.closed d)
            | inr (foreign m, e) ↦ ground (arith, clean.no_error d, clean.closed d)
          ]
    ]

    -- Whether the start, the block or the rollback fails, or all goes well, the way out of the block
    -- leaves the session closed and no longer held, if the block leaves the session in its place
    -- and closing is as documented.
    pub within-IsReleased :
        {A : Type 0} (body : Action api A) (s : State api)
        → KeepsSession body
        → IsReleased is_open (within api body s).1
    unfolding within
    within-IsReleased body s keeps = elim (Option-cases (api.make_repos (api.begin s.session))) [
      | inr (m, e) ↦
          let d : Session = api.begin s.session in ground (arith, clean.no_error d, clean.closed d)
      | inl e ↦
          let r = body (entered s) in
          rw (within-entered body s e, leave-state r.0 (aexit api (is_err api r.0) r.1))
            (aexit-IsReleased (is_err api r.0) r.1 (keeps (entered s) refl))
    ]

  -- an error of the database, or none
  abbrev pub IsNotForeign : Result SessionError (Unit {0}) → Type 0
  IsNotForeign (err (foreign _)) = ⊥
  IsNotForeign _ = Unit

  abbrev pub is_ok : Result SessionError (Unit {0}) → Bool
  is_ok (ok _) = true
  is_ok (err _) = false

  -- a failed commit, by how its rollback went
  commit_failed :
      (s : State api) (e : DriverError)
      → s.uow.has_session ≡ true
      → (api.commit s.session).0 ≡ err (driver e)
      → IsNotForeign (api.rollback (api.commit s.session).1).0
      → let (r, d) = api.rollback (api.commit s.session).1 in
        commit api s ≡ (
          err (persistence (determine_exc e)),
          record s {
            session = d;
            uow = record (s.uow) { rolled_back = if is_ok r then true else s.uow.rolled_back };
          },
        )
  unfolding commit
  commit_failed s e h fails native =
      let (r, d) = api.rollback (api.commit s.session).1 in
      elim (Result-cases r) [
        | inl (x, q) ↦ ground arith
        | inr (driver x, q) ↦ ground arith
        | inr (foreign m, q) ↦ absurd (rw q at native)
      ]

  -- the session when a block that raised is left
  aexit-session :
      (s : State api)
      → s.uow.has_session ≡ true
      → (aexit api true s).1.session
        ≡ (api.close (if s.uow.rolled_back then s.session else (api.rollback s.session).1)).1
  unfolding aexit
  aexit-session s h = elim (Bool-cases s.uow.rolled_back) [
    | inl done ↦ elim (Result-cases (api.close s.session).0) [
      | inl (x, q) ↦ ground arith
      | inr (driver x, q) ↦ ground arith
      | inr (foreign m, q) ↦ ground arith
    ]
    | inr undone ↦ elim (Result-cases (api.close (api.rollback s.session).1).0) [
      | inl (x, q) ↦ ground arith
      | inr (driver x, q) ↦ ground arith
      | inr (foreign m, q) ↦ ground arith
    ]
  ]

  -- Take a unit of work with a session that has not rolled back yet, whose commit fails with an error
  -- of the database, and the rollback behind it goes through or meets an error of the database too. The
  -- commit raises the translation of its error; by the time the block has been left, the transaction
  -- has been rolled back once, if that rollback went through, and a second time otherwise, and then the
  -- session has been closed.
  pub failed_commit_rolled_back :
      (s : State api) (e : DriverError)
      → s.uow.has_session ≡ true
      → s.uow.rolled_back ≡ false
      → (api.commit s.session).0 ≡ err (driver e)
      → IsNotForeign (api.rollback (api.commit s.session).1).0
      → let (r, d) = api.rollback (api.commit s.session).1 in
        ((commit api s).0 ≡ err (persistence (determine_exc e)))
        × ((aexit api true (commit api s).1).1.session
            ≡ (api.close (if is_ok r then d else (api.rollback d).1)).1)
  failed_commit_rolled_back s e h quiet fails native =
      let (r, d) = api.rollback (api.commit s.session).1 in
      let t : State api = record s {
        session = d;
        uow = record (s.uow) { rolled_back = if is_ok r then true else s.uow.rolled_back };
      } in
      rw (commit_failed s e h fails native) (
        refl,
        aexit-session t h
            ∙ ap
                (λ (b : Bool).
                  (api.close (if (if is_ok r then true else b) then d else (api.rollback d).1)).1)
                quiet
            ∙ ap (λ (b : Bool). (api.close (if b then d else (api.rollback d).1)).1)
                (if_self (is_ok r)),
      )
