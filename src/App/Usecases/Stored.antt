-- ===== src/App/Usecases/Stored.antt =====
-- Creating an organization under the executor of src/pet/app/transaction_executor.py.
use fukawa.Prelude.{ℕ, String, ◌≡◌, refl, sym, ap, ◌∙◌, [], ◌∷◌}
use fukawa.Prelude.Result.{ok, err}
use fukawa.Domain.Name
use fukawa.Domain.Name.{Unicode, Name}
use fukawa.Infra.Session.{SessionApi, Exc, Reply, users, UserRow}
use fukawa.Infra.Uow.{State}
use fukawa.App.Executor.{run}
use fukawa.App.Executor.Stored.{Transactional, start}
use fukawa.App.Executor.Atomic.{run-atomic, run-ok}
use fukawa.App.Usecases.{CreateOrganizationCmdIn, create_organization_cmd}
use fukawa.App.Usecases.Frame.{cmd-Keeps}
use fukawa.App.Usecases.Organizations.{lookup_reply, insertion, creation-inverts}

module _ (api : SessionApi) (uuid_gen : ℕ → ℕ) {Db : Type 0} (committed : api.Session → Db)
    (tx : Transactional api committed) where
  -- A request to create an organization that raises has stored nothing, if the session is
  -- transactional.
  pub creation-atomic :
      (u : Unicode) (cmd : CreateOrganizationCmdIn) (uow_id : String) (s : State api) (x : Exc)
      → (run api uow_id (create_organization_cmd api uuid_gen u cmd) s).0 ≡ err x
      → committed (run api uow_id (create_organization_cmd api uuid_gen u cmd) s).1.session
        ≡ committed s.session
  creation-atomic u cmd uow_id s x h =
      let frame =
        cmd-Keeps api uuid_gen (λ (t : State api). committed t.session) u cmd (λ n t. refl)
          (λ q t. tx.execute_keeps q t.session) (λ o t. tx.add_keeps o t.session) in
      run-atomic api committed tx (create_organization_cmd api uuid_gen u cmd) uow_id s x
        (λ t. frame.kept t) h

  -- A request to create an organization that returns an identifier returns the first UUID that it
  -- drew, has found the one user of the token and accepted the name, has had the membership inserted, and
  -- has had a commit stored of the organization under that UUID and of that user's membership in it as its owner, if the session is
  -- transactional.
  pub creation-stored :
      (u : Unicode) (cmd : CreateOrganizationCmdIn) (uow_id : String) (s : State api) (id : ℕ)
      → (run api uow_id (create_organization_cmd api uuid_gen u cmd) s).0 ≡ ok id
      → let t : State api = start api committed uow_id s in
        (id ≡ uuid_gen s.uuids)
        × ((row : UserRow) × (name : Name) × (lookup_reply api uuid_gen cmd t
              ≡ ok (users (row ∷ [])))
            × (Name.create u cmd.name ≡ ok name)
            × ((r : Reply) × ((insertion api uuid_gen cmd row name t).0 ≡ ok r))
            × ((api.commit (insertion api uuid_gen cmd row name t).1).0 ≡ ok tt)
            × (committed (run api uow_id (create_organization_cmd api uuid_gen u cmd) s).1.session
                ≡ committed (api.commit (insertion api uuid_gen cmd row name t).1).1))
  creation-stored u cmd uow_id s id h =
      let t : State api = start api committed uow_id s in
      let (did, went, stored) =
        run-ok api committed tx (create_organization_cmd api uuid_gen u cmd) uow_id s id h in
      let (same, (row, name, looked, named, inserted, end)) =
        creation-inverts api uuid_gen u cmd t id
          (record { orgs_set = refl; users_set = refl; memberships_set = refl }) did in
      (
        same,
        (
          row,
          name,
          looked,
          named,
          inserted,
          ap (λ d. (api.commit d).0) (sym end) ∙ went,
          stored ∙ ap (λ d. committed (api.commit d).1) end,
        ),
      )
