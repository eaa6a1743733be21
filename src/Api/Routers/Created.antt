-- ===== src/Api/Routers/Created.antt =====
-- POST /orgs/ of src/pet/api/routers/organizations.py: what is stored when it answers and when it raises.
use fukawa.Prelude.{
  subst, inl, inr, ℕ, String, true, ◌≡◌, refl, sym, ap, ◌∙◌, Option, List, [], ◌∷◌, arith,
}
use fukawa.Prelude.Result.{Result, ok, err, Result-cases, ok-eq, ok≢err}
use fukawa.Json.{Json}
use fukawa.Domain.Name
use fukawa.Domain.Name.{Unicode, Name}
use fukawa.Domain.Principal.{Principal, has_scope}
use fukawa.Domain.Models.{PublicId}
use fukawa.App.Executor.{run}
use fukawa.App.Executor.Stored.{Transactional, start}
use fukawa.App.Usecases.{CreateOrganizationCmdIn, create_organization_cmd}
use fukawa.App.Usecases.Organizations.{insertion, lookup_reply}
use fukawa.App.Usecases.Stored.{creation-atomic, creation-stored}
use fukawa.Infra.Jwks.{Provider, World}
use fukawa.Infra.Verifier.{Jwt, KeycloakVerifier}
use fukawa.Infra.Session.{
  SessionApi, Exc, persistence, validation, app, uow_not_initialized, uncaught, driver, foreign,
  Reply, UserRow, users,
}
use fukawa.App.Auth.{AuthenticationError, AuthorizationError}
use fukawa.Infra.Uow.{State}
use fukawa.Api.Access.{AccessState, get_current_principal, required_scopes, refuse_or, missing}
use fukawa.Api.Access.Grants.{required_iff}
use fukawa.Api.Failures.{
  Failure, app_error, http_exception, unhandled_error, failure_of, authentication_error,
  authorization_error, request_validation_error,
}
use fukawa.Api.Routers.{
  Answer, CreateOrgDtoIn, create_org_dto_in, ApiState, create_organization, created, with_dto,
  with_scopes, with_principal,
}

refuse_or-eq :
    (kind : String) (ms : List String) (p q : Principal)
    → refuse_or kind ms p ≡ ok q
    → refuse_or kind ms p ≡ ok p
refuse_or-eq kind [] p q h = refl
refuse_or-eq kind (m ∷ ms) p q h = absurd (ground arith)

scope_granted :
    (p q : Principal)
    → required_scopes ("organizations:write" ∷ []) p ≡ ok q
    → has_scope p "organizations:write" ≡ true
unfolding required_scopes
scope_granted p q h =
    let names : List String = "organizations:write" ∷ [] in
    (required_iff names "" p).0.0 (refuse_or-eq "scope(s)" (missing names p.scopes) p q h)
      "organizations:write" refl

-- Any failure but an HTTPException.
abbrev pub IsRaised : Failure → Type 0
IsRaised (http_exception e) = ⊥
IsRaised (app_error e) = Unit
IsRaised (request_validation_error es) = Unit
IsRaised (authentication_error e) = Unit
IsRaised (authorization_error e) = Unit
IsRaised (unhandled_error m) = Unit

abbrev Raises : Result Failure (Answer PublicId) → Type 0
Raises (ok a) = Unit
Raises (err f) = IsRaised f

failure_of-IsRaised : (x : Exc) → IsRaised (failure_of x)
failure_of-IsRaised (app e) = tt
failure_of-IsRaised (persistence e) = tt
failure_of-IsRaised (validation e) = tt
failure_of-IsRaised (uow_not_initialized name) = tt
failure_of-IsRaised (uncaught (driver e)) = tt
failure_of-IsRaised (uncaught (foreign m)) = tt

module _ (jwt : Jwt) (w : World) (wait : Provider → Provider) (v : KeycloakVerifier)
    (api : SessionApi) (uuid_gen : ℕ → ℕ) (u : Unicode) {Db : Type 0} (committed : api.Session → Db)
    (tx : Transactional api committed) (uow_id : String) (credentials : Option String) (body : Json)
    (s : ApiState api) where
  abbrev seen : Result AuthenticationError Principal × AccessState
  seen = get_current_principal jwt w wait v credentials s.access

  abbrev answer : Result Failure (Answer PublicId) × ApiState api
  answer = create_organization jwt w wait v api uuid_gen u uow_id credentials body s

  abbrev cmd_of : Principal → CreateOrgDtoIn → CreateOrganizationCmdIn
  cmd_of principal org = record { name = org.name; principal = principal }

  abbrev ran : Principal → CreateOrgDtoIn → Result Exc PublicId × State api
  ran principal org =
      run api uow_id (create_organization_cmd api uuid_gen u (cmd_of principal org)) s.work

  abbrev stored_after : Result Failure (Answer PublicId) × ApiState api → Db
  stored_after o = committed o.1.work.session

  abbrev later : ApiState api
  later = record { access = seen.1; work = s.work }

  unauthenticated :
      (e : AuthenticationError) → seen.0 ≡ err e → answer ≡ (err (authentication_error e), later)
  unfolding create_organization
  unauthenticated e q =
      ap (with_principal jwt w wait v api uuid_gen u uow_id body s.work) (λ i. (q i, seen.1))

  module _ (p : Principal) (q : seen.0 ≡ ok p) where
    authenticated :
        answer
        ≡ with_scopes jwt w wait v api uuid_gen u uow_id body p later
            (required_scopes ("organizations:write" ∷ []) p)
    unfolding create_organization
    authenticated =
        ap (with_principal jwt w wait v api uuid_gen u uow_id body s.work) (λ i. (q i, seen.1))

    unauthorized :
        (e : AuthorizationError)
        → required_scopes ("organizations:write" ∷ []) p ≡ err e
        → answer ≡ (err (authorization_error e), later)
    unauthorized e k =
        authenticated ∙ ap (with_scopes jwt w wait v api uuid_gen u uow_id body p later) k

    module _ (p' : Principal) (k : required_scopes ("organizations:write" ∷ []) p ≡ ok p') where
      authorized :
          answer ≡ with_dto jwt w wait v api uuid_gen u uow_id p later (create_org_dto_in u body)
      authorized =
          authenticated ∙ ap (with_scopes jwt w wait v api uuid_gen u uow_id body p later) k

      invalid :
          (es : List (Option String))
          → create_org_dto_in u body ≡ err es
          → answer ≡ (err (request_validation_error es), later)
      invalid es d = authorized ∙ ap (with_dto jwt w wait v api uuid_gen u uow_id p later) d

      executed :
          (org : CreateOrgDtoIn) (r : Result Exc PublicId)
          → create_org_dto_in u body ≡ ok org
          → (ran p org).0 ≡ r
          → answer ≡ created jwt w wait v api uuid_gen u seen.1 (r, (ran p org).1)
      executed org r d e =
          authorized
          ∙ ap (with_dto jwt w wait v api uuid_gen u uow_id p later) d
          ∙ ap (created jwt w wait v api uuid_gen u seen.1) (λ i. (e i, (ran p org).1))

  -- A request that is refused or fails, wherever, has stored nothing, if the session is
  -- transactional and its `close` does not raise.
  pub failure_keeps :
      (f : Failure) → answer.0 ≡ err f → committed answer.1.work.session ≡ committed s.work.session
  failure_keeps f h = elim (Result-cases seen.0) [
    | inr (e, q) ↦ ap stored_after (unauthenticated e q)
    | inl (p, q) ↦ elim (Result-cases (required_scopes ("organizations:write" ∷ []) p)) [
      | inr (e, k) ↦ ap stored_after (unauthorized p q e k)
      | inl (p', k) ↦ elim (Result-cases (create_org_dto_in u body)) [
        | inr (es, d) ↦ ap stored_after (invalid p q p' k es d)
        | inl (org, d) ↦ elim (Result-cases (ran p org).0) [
          | inl (id, r) ↦
              absurd (ok≢err (sym (ap (λ o. o.0) (executed p q p' k org (ok id) d r)) ∙ h))
          | inr (x, r) ↦
              ap stored_after (executed p q p' k org (err x) d r)
              ∙ creation-atomic api uuid_gen committed tx u (cmd_of p org) uow_id s.work x r
        ]
      ]
    ]
  ]

  -- A request that is answered is answered with 201 and the first UUID that was drawn. Its token was
  -- verified, grants the scope organizations:write and belongs to the one user that was found; the name in
  -- its body was accepted; and a commit has stored the organization under that UUID, with that user as
  -- its owner, if the session is transactional and its `close` does not raise.
  pub created_stored :
      (a : Answer PublicId)
      → answer.0 ≡ ok a
      → (a.status_code ≡ 201)
        × (a.content ≡ uuid_gen s.work.uuids)
        × ((p : Principal) × (org : CreateOrgDtoIn) × (row : UserRow) × (name : Name) × (seen.0
              ≡ ok p)
            × (has_scope p "organizations:write" ≡ true)
            × (create_org_dto_in u body ≡ ok org)
            × (lookup_reply api uuid_gen (cmd_of p org) (start api committed uow_id s.work)
                ≡ ok (users (row ∷ [])))
            × (Name.create u org.name ≡ ok name)
            × ((r : Reply) × ((insertion api uuid_gen
                    (cmd_of p org)
                    row
                    name
                    (start api committed uow_id s.work)).0
                  ≡ ok r))
            × ((api.commit
                  (insertion api uuid_gen
                    (cmd_of p org)
                    row
                    name
                    (start api committed uow_id s.work)).1).0
                ≡ ok tt)
            × (committed answer.1.work.session
                ≡ committed
                    (api.commit
                      (insertion api uuid_gen
                        (cmd_of p org)
                        row
                        name
                        (start api committed uow_id s.work)).1).1))
  created_stored a h = elim (Result-cases seen.0) [
    | inr (e, q) ↦ absurd (ok≢err (sym h ∙ ap (λ o. o.0) (unauthenticated e q)))
    | inl (p, q) ↦ elim (Result-cases (required_scopes ("organizations:write" ∷ []) p)) [
      | inr (e, k) ↦ absurd (ok≢err (sym h ∙ ap (λ o. o.0) (unauthorized p q e k)))
      | inl (p', k) ↦ elim (Result-cases (create_org_dto_in u body)) [
        | inr (es, d) ↦ absurd (ok≢err (sym h ∙ ap (λ o. o.0) (invalid p q p' k es d)))
        | inl (org, d) ↦ elim (Result-cases (ran p org).0) [
          | inr (x, r) ↦ absurd (ok≢err (sym h ∙ ap (λ o. o.0) (executed p q p' k org (err x) d r)))
          | inl (id, r) ↦
              let end = executed p q p' k org (ok id) d r in
              let is : a ≡ record { status_code = 201; content = id } =
                ok-eq (sym h ∙ ap (λ o. o.0) end) in
              let (same, (row, name, looked, named, inserted, went, stored)) =
                creation-stored api uuid_gen committed tx u (cmd_of p org) uow_id s.work id r in
              (
                ap (λ (b : Answer PublicId). b.status_code) is,
                ap (λ (b : Answer PublicId). b.content) is ∙ same,
                (
                  p,
                  org,
                  row,
                  name,
                  q,
                  scope_granted p p' k,
                  d,
                  looked,
                  named,
                  inserted,
                  went,
                  ap stored_after end ∙ stored,
                ),
              )
        ]
      ]
    ]
  ]

  -- What a request raises is no HTTPException.
  pub failure-IsRaised : (f : Failure) → answer.0 ≡ err f → IsRaised f
  failure-IsRaised f h = elim (Result-cases seen.0) [
    | inr (e, q) ↦ subst Raises (sym (ap (λ o. o.0) (unauthenticated e q)) ∙ h) tt
    | inl (p, q) ↦ elim (Result-cases (required_scopes ("organizations:write" ∷ []) p)) [
      | inr (e, k) ↦ subst Raises (sym (ap (λ o. o.0) (unauthorized p q e k)) ∙ h) tt
      | inl (p', k) ↦ elim (Result-cases (create_org_dto_in u body)) [
        | inr (es, d) ↦ subst Raises (sym (ap (λ o. o.0) (invalid p q p' k es d)) ∙ h) tt
        | inl (org, d) ↦ elim (Result-cases (ran p org).0) [
          | inl (id, r) ↦
              absurd (ok≢err (sym (ap (λ o. o.0) (executed p q p' k org (ok id) d r)) ∙ h))
          | inr (x, r) ↦
              subst Raises (sym (ap (λ o. o.0) (executed p q p' k org (err x) d r)) ∙ h)
                (failure_of-IsRaised x)
        ]
      ]
    ]
  ]
