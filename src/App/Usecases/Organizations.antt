-- ===== src/App/Usecases/Organizations.antt =====
-- Creating an organization, from the lookup of the user to the membership.
use fukawa.Prelude.{
  ℕ, suc, true, ◌≡◌, refl, ap, ◌∙◌, Option, none, some, [], ◌∷◌, arith, inl, inr, Option-cases,
}
use fukawa.Prelude.Result.{Result, ok, err, Result-cases}
use fukawa.Domain.Name
use fukawa.Domain.Name.{Unicode, Name, ValidationError}
use fukawa.Domain.Models.{owner}
use fukawa.App.Errors.{not_found}
use fukawa.Infra.Persistence.{determine_exc}
use fukawa.Infra.Session.{
  SessionApi, SessionError, driver, foreign, Exc, uncaught, persistence, validation, app,
  insert_membership, select_user, Reply, done, users, upserted, UserRow,
}
use fukawa.Infra.Uow.{State}
use fukawa.Infra.Repos.{create_organization, create_membership, get_by_auth_identity}
use fukawa.App.Usecases.{CreateOrganizationCmdIn, create_organization_cmd}

module _ (api : SessionApi) (uuid_gen : ℕ → ℕ) where
  -- the session once the user has been looked up
  abbrev pub after_lookup : CreateOrganizationCmdIn → State api → api.Session
  after_lookup cmd s =
      (api.execute (select_user cmd.principal.issuer cmd.principal.subject) s.session).1

  abbrev pub lookup_reply : CreateOrganizationCmdIn → State api → Result SessionError Reply
  lookup_reply cmd s =
      (api.execute (select_user cmd.principal.issuer cmd.principal.subject) s.session).0

  -- the insert of the membership, behind that of the organization
  abbrev pub insertion :
      CreateOrganizationCmdIn → UserRow → Name → State api → Result SessionError Reply × api.Session
  insertion cmd row name s =
      api.execute
        (insert_membership (uuid_gen (suc s.uuids)) row.public_id (uuid_gen s.uuids) owner)
        (api.add (record { public_id = uuid_gen s.uuids; name = name.value }) (after_lookup cmd s))

  pub record IsReady (s : State api) : Type 0 where
    pub orgs_set : s.uow.has_orgs ≡ true
    pub users_set : s.uow.has_users ≡ true
    pub memberships_set : s.uow.has_memberships ≡ true

  -- Once the user is found, the name accepted and the membership inserted, the command returns the
  -- first UUID it drew. The session has then been handed, in this order, the lookup, the organization
  -- under that UUID, and the membership of the user in it as its owner under the second.
  creation :
      (u : Unicode) (cmd : CreateOrganizationCmdIn) (s : State api) (row : UserRow) (name : Name)
      (r : Reply)
      → IsReady s
      → lookup_reply cmd s ≡ ok (users (row ∷ []))
      → Name.create u cmd.name ≡ ok name
      → (insertion cmd row name s).0 ≡ ok r
      → create_organization_cmd api uuid_gen u cmd s ≡ (
        ok (uuid_gen s.uuids),
        record s { session = (insertion cmd row name s).1; uuids = suc (suc s.uuids) },
      )
  unfolding create_organization_cmd get_by_auth_identity create_organization create_membership
  creation u cmd s row name r ready looked named inserted =
      ground (arith, ready.orgs_set, ready.users_set, ready.memberships_set)

  -- what the command raises before it writes, by the lookup and the name
  abbrev pub refusal : Reply → Result ValidationError Name → Option Exc
  refusal (users []) _ = some (app (not_found (some "User not found") none))
  refusal (users (row ∷ [])) (err e) = some (validation e)
  refusal (users (row ∷ [])) (ok name) = none
  refusal (users (row ∷ other ∷ rest)) _ = some (uncaught (foreign "MultipleResultsFound"))
  refusal done _ = some (uncaught (foreign "ResourceClosedError"))
  refusal (upserted rows) _ = some (uncaught (foreign "MultipleResultsFound"))

  accepted :
      (r : Reply) (n : Result ValidationError Name)
      → refusal r n ≡ none
      → (row : UserRow) × (name : Name) × (r ≡ users (row ∷ [])) × (n ≡ ok name)
  accepted (users (row ∷ [])) (ok name) h = (row, name, refl, refl)
  accepted (users (row ∷ [])) (err e) h = absurd (ground arith)
  accepted (users []) n h = absurd (ground arith)
  accepted (users (row ∷ other ∷ rest)) n h = absurd (ground arith)
  accepted done n h = absurd (ground arith)
  accepted (upserted rows) n h = absurd (ground arith)

  -- the error of a statement, as the repositories raise it
  abbrev pub statement_error : SessionError → Exc
  statement_error (driver e) = persistence (determine_exc e)
  statement_error (foreign m) = uncaught (foreign m)

  -- An unknown user, an ambiguous one or a refused name makes the command raise with nothing handed to
  -- the session but the lookup: it raises a "not found" for the unknown user, and the error of the
  -- name for a refused name.
  creation-refused :
      (u : Unicode) (cmd : CreateOrganizationCmdIn) (s : State api) (r : Reply) (x : Exc)
      → IsReady s
      → lookup_reply cmd s ≡ ok r
      → refusal r (Name.create u cmd.name) ≡ some x
      → ((create_organization_cmd api uuid_gen u cmd s).0 ≡ err x)
        × ((create_organization_cmd api uuid_gen u cmd s).1.session ≡ after_lookup cmd s)
  unfolding create_organization_cmd get_by_auth_identity not_found
  creation-refused u cmd s (users []) x ready looked why =
      (ground (arith, ready.users_set), ground (arith, ready.users_set))
  creation-refused u cmd s done x ready looked why =
      (ground (arith, ready.users_set), ground (arith, ready.users_set))
  creation-refused u cmd s (upserted rows) x ready looked why =
      (ground (arith, ready.users_set), ground (arith, ready.users_set))
  creation-refused u cmd s (users (row ∷ other ∷ rest)) x ready looked why =
      (ground (arith, ready.users_set), ground (arith, ready.users_set))
  creation-refused u cmd s (users (row ∷ [])) x ready looked why =
      elim (Result-cases (Name.create u cmd.name)) [
        | inl (name, e) ↦ absurd (ground arith)
        | inr (e, q) ↦ (ground (arith, ready.users_set), ground (arith, ready.users_set))
      ]

  lookup-fails :
      (u : Unicode) (cmd : CreateOrganizationCmdIn) (s : State api) (e : SessionError)
      → IsReady s
      → lookup_reply cmd s ≡ err e
      → (create_organization_cmd api uuid_gen u cmd s).0 ≡ err (statement_error e)
  unfolding create_organization_cmd get_by_auth_identity
  lookup-fails u cmd s (driver e) ready looked = ground (arith, ready.users_set)
  lookup-fails u cmd s (foreign e) ready looked = ground (arith, ready.users_set)

  insertion-fails :
      (u : Unicode) (cmd : CreateOrganizationCmdIn) (s : State api) (row : UserRow) (name : Name)
      (e : SessionError)
      → IsReady s
      → lookup_reply cmd s ≡ ok (users (row ∷ []))
      → Name.create u cmd.name ≡ ok name
      → (insertion cmd row name s).0 ≡ err e
      → (create_organization_cmd api uuid_gen u cmd s).0 ≡ err (statement_error e)
  unfolding create_organization_cmd get_by_auth_identity create_organization create_membership
  insertion-fails u cmd s row name (driver e) ready looked named inserted =
      ground (arith, ready.orgs_set, ready.users_set, ready.memberships_set)
  insertion-fails u cmd s row name (foreign e) ready looked named inserted =
      ground (arith, ready.orgs_set, ready.users_set, ready.memberships_set)

  pub creation-inverts :
      (u : Unicode) (cmd : CreateOrganizationCmdIn) (s : State api) (id : ℕ)
      → IsReady s
      → (create_organization_cmd api uuid_gen u cmd s).0 ≡ ok id
      → (id ≡ uuid_gen s.uuids)
        × ((row : UserRow) × (name : Name) × (lookup_reply cmd s ≡ ok (users (row ∷ [])))
            × (Name.create u cmd.name ≡ ok name)
            × ((a : Reply) × ((insertion cmd row name s).0 ≡ ok a))
            × ((create_organization_cmd api uuid_gen u cmd s).1.session
                ≡ (insertion cmd row name s).1))
  creation-inverts u cmd s id ready h = elim (Result-cases (lookup_reply cmd s)) [
    | inr (e, q) ↦ absurd (ground (arith, lookup-fails u cmd s e ready q))
    | inl (r, q) ↦ elim (Option-cases (refusal r (Name.create u cmd.name))) [
      | inr (x, why) ↦ absurd (ground (arith, (creation-refused u cmd s r x ready q why).0))
      | inl none_why ↦
          let (row, name, same, named) = accepted r (Name.create u cmd.name) none_why in
          let looked = q ∙ ap ok same in
          elim (Result-cases (insertion cmd row name s).0) [
            | inr (e, i) ↦
                absurd (ground (arith, insertion-fails u cmd s row name e ready looked named i))
            | inl (a, i) ↦
                let done_it = creation u cmd s row name a ready looked named i in
                (ground arith, (row, name, looked, named, (a, i), ap (λ o. o.1.session) done_it))
          ]
    ]
  ]
