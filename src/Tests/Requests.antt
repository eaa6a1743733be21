-- ===== src/Tests/Requests.antt =====
-- Requests to the endpoints of src/pet/api/routers, over the sessions of the tests of transactions.
use fukawa.Prelude.{
  List, All, contains, ◌↔◌, arith, String, true, Option, ◌⊎◌, true, ◌≡◌, refl, none, some, [], ◌∷◌,
}
use fukawa.Prelude.Result.{ok, err}
use fukawa.Prelude.Text.{strip, is_space}
use fukawa.Prelude.Text.Split.{IsWord}
use fukawa.Api.Access.Grants.{Covers, scope_claim_iff}
use fukawa.Json.{Json, Fields, str, obj, end, field, dict}
use fukawa.Domain.Name
use fukawa.Domain.Name.{Unicode, Name, validate_org_name}
use fukawa.Domain.Principal.{Principal, has_scope}
use fukawa.Domain.Models.{PublicId}
use fukawa.App.Executor.{run, block}
use fukawa.App.Executor.Stored.{start}
use fukawa.App.Usecases.{CreateOrganizationCmdIn, create_organization_cmd}
use fukawa.App.Usecases.Organizations.{insertion, lookup_reply}
use fukawa.Infra.Jwks.{get_signing_key}
use fukawa.Infra.Verifier.{
  Jwt, find_key, verify, validate_audience, build_principal, extract_scopes, extract_client_roles,
  extract_realm_roles,
}
use fukawa.Infra.Session.{driver, Reply, users, UserRow}
use fukawa.Infra.Uow.{commit, aexit, within, rollback_after_failure}
use fukawa.Infra.Repos.{create_membership, get_by_auth_identity}
use fukawa.Infra.Repos
use fukawa.Api.Access.{AccessState, get_current_principal, required_scopes}
use fukawa.Api.Failures.{failure_of}
use fukawa.Api.Routers.{Answer, CreateOrgDtoIn, create_org_dto_in, ApiState, create_organization}
use fukawa.Api.Routers.Created.{failure_keeps, created_stored}
use fukawa.App.Executor.{translated}
use fukawa.Tests.Keys.{
  world, after_start, world-IsMonotonic, after_start-IsValid, after_start-HasFetched,
  alone-OthersOnly,
}
use fukawa.Tests.Http.{uuids, request, idle}
use fukawa.Infra.Jwks.{Provider}
use fukawa.Infra.Jwks.Parsing.{IsEntry}
use fukawa.Infra.Jwks.Promises.{IsRecent}
use fukawa.Infra.Verifier.Soundness.{IsVerified}
use fukawa.Prelude.Dict.{lookup}
use fukawa.Api.Handlers.{JsonResponse}
use fukawa.Api.HttpLogging.{started}
use fukawa.Api.Server.{parsed, post_orgs}
use fukawa.Api.Server.Statuses.{is_status, post_orgs_answers}
use fukawa.Api.Routers.Trusted.{created_trusted}
use fukawa.Tests.Tokens.{claims, read_header, verifier}
use fukawa.Tests.Transactions.{
  row, outage, healthy, failing, idle_healthy, idle_failing, stored_writes, crash,
  fake-Transactional,
}

abbrev pub ascii : Unicode
ascii = record { nfc = λ s. s; casefold = λ s. s }

abbrev writer_claims : Fields
writer_claims = field "scope" (str "organizations:write") claims

abbrev pub jwt : Jwt
jwt = record { get_unverified_header = read_header; decode = λ args. ok writer_claims }

abbrev writer : Principal
writer = record {
  subject = "u1";
  issuer = "https://id.example";
  username = "ada";
  email = "ada@id.example";
  first_name = none;
  last_name = none;
  scopes = "organizations:write" ∷ [];
  realm_roles = [];
  client_roles = ("pet", "editor" ∷ []) ∷ [];
  raw_claims = dict writer_claims;
}

abbrev pub before : AccessState
before = record { provider = after_start; principal = none }

abbrev body : Json
body = obj (field "name" (str " Acme ") end)

abbrev healthy_state : ApiState healthy
healthy_state = record { access = before; work = idle_healthy }

abbrev failing_state : ApiState failing
failing_state = record { access = before; work = idle_failing }

abbrev created_answer : Answer PublicId
created_answer = record { status_code = 201; content = 70 }

answered_created :
    (create_organization jwt world
      (λ p. p)
      verifier
      healthy
      (λ i. i)
      ascii
      "1"
      (some "token")
      body
      healthy_state).0
    ≡ ok created_answer
unfolding create_organization get_current_principal verify find_key get_signing_key
    validate_audience build_principal extract_scopes extract_client_roles extract_realm_roles
    required_scopes create_org_dto_in validate_org_name strip run block within aexit commit
    create_organization_cmd get_by_auth_identity create_membership Repos.create_organization
    Name.create
answered_created = refl

answered_failed :
    (create_organization jwt world
      (λ p. p)
      verifier
      failing
      (λ i. i)
      ascii
      "1"
      (some "token")
      body
      failing_state).0
    ≡ err (failure_of (translated crash))
unfolding create_organization get_current_principal verify find_key get_signing_key
    validate_audience build_principal extract_scopes extract_client_roles extract_realm_roles
    required_scopes create_org_dto_in validate_org_name strip run block within aexit commit
    create_organization_cmd get_by_auth_identity create_membership Repos.create_organization
    Name.create rollback_after_failure
answered_failed = refl

failure_keeps_example :
    stored_writes
      (create_organization jwt world
        (λ p. p)
        verifier
        failing
        (λ i. i)
        ascii
        "1"
        (some "token")
        body
        failing_state).1.work.session
    ≡ 3
failure_keeps_example =
    failure_keeps jwt world (λ p. p) verifier failing (λ i. i) ascii stored_writes
      (fake-Transactional (some (driver outage)) none (row ∷ [])) "1" (some "token") body
      failing_state (failure_of (translated crash)) answered_failed

abbrev cmd_of : Principal → CreateOrgDtoIn → CreateOrganizationCmdIn
cmd_of principal org = record { name = org.name; principal = principal }

created_stored_example :
    (created_answer.status_code ≡ 201)
    × (created_answer.content ≡ idle_healthy.uuids)
    × ((p : Principal) × (org : CreateOrgDtoIn) × (user : UserRow) × (name : Name)
        × ((get_current_principal jwt world (λ q. q) verifier (some "token") before).0 ≡ ok p)
        × (has_scope p "organizations:write" ≡ true)
        × (create_org_dto_in ascii body ≡ ok org)
        × (lookup_reply healthy
              (λ i. i)
              (cmd_of p org)
              (start healthy stored_writes "1" idle_healthy)
            ≡ ok (users (user ∷ [])))
        × (Name.create ascii org.name ≡ ok name)
        × ((r : Reply) × ((insertion healthy
                (λ i. i)
                (cmd_of p org)
                user
                name
                (start healthy stored_writes "1" idle_healthy)).0
              ≡ ok r))
        × ((healthy.commit
              (insertion healthy
                (λ i. i)
                (cmd_of p org)
                user
                name
                (start healthy stored_writes "1" idle_healthy)).1).0
            ≡ ok tt)
        × (stored_writes
              (create_organization jwt world
                (λ q. q)
                verifier
                healthy
                (λ i. i)
                ascii
                "1"
                (some "token")
                body
                healthy_state).1.work.session
            ≡ stored_writes
                (healthy.commit
                  (insertion healthy
                    (λ i. i)
                    (cmd_of p org)
                    user
                    name
                    (start healthy stored_writes "1" idle_healthy)).1).1))
created_stored_example =
    created_stored jwt world (λ p. p) verifier healthy (λ i. i) ascii stored_writes
      (fake-Transactional none none (row ∷ [])) "1" (some "token") body healthy_state created_answer
      answered_created

post_orgs_answers_example :
    (response : JsonResponse) × ((post_orgs jwt world
        (λ q. q)
        verifier
        failing
        (λ i. i)
        ascii
        uuids
        "1"
        (some "token")
        (parsed body)
        request
        idle
        failing_state).0
      ≡ ok response)
    × (lookup "X-Request-ID" response.headers ≡ some (started uuids "POST" request idle).0)
    × (is_status response.status_code ≡ true)
    × ((response.status_code ≡ 201)
        ⊎ (stored_writes
              (post_orgs jwt world
                (λ q. q)
                verifier
                failing
                (λ i. i)
                ascii
                uuids
                "1"
                (some "token")
                (parsed body)
                request
                idle
                failing_state).1.work.session
            ≡ 3))
post_orgs_answers_example =
    post_orgs_answers jwt world (λ p. p) verifier failing (λ i. i) ascii uuids stored_writes
      (fake-Transactional (some (driver outage)) none (row ∷ [])) "1" (some "token") (parsed body)
      request idle failing_state

created_trusted_example :
    (raw_token : String) × (p : Principal) × (after : Provider) × (◌≡◌ {A = Option String}
      (some "token")
      (some raw_token))
    × (has_scope p "organizations:write" ≡ true)
    × (e : IsVerified jwt world (λ q. q) verifier raw_token after_start p after) × IsEntry
        after_start.policy
        (e.kid, e.key)
    × IsRecent world e.kid e.key after_start after
created_trusted_example =
    created_trusted jwt world (λ p. p) verifier healthy (λ i. i) ascii stored_writes "1"
      (some "token") body healthy_state created_answer (fake-Transactional none none (row ∷ []))
      world-IsMonotonic after_start-IsValid after_start-HasFetched alone-OthersOnly answered_created

abbrev scoped_claims : Fields
scoped_claims = field "scope" (str "openid organizations:write") claims

abbrev both : List String
both = "openid" ∷ "organizations:write" ∷ []

abbrev scoped : Principal
scoped = record writer { scopes = both; raw_claims = dict scoped_claims }

scoped_built : build_principal scoped_claims ≡ ok scoped
unfolding build_principal extract_scopes extract_client_roles extract_realm_roles
scoped_built = refl

both-IsWord : All IsWord both
unfolding is_space
both-IsWord = ((refl, refl), ((refl, refl), tt))

scope_claim_iff_example :
    (required_scopes ("openid" ∷ []) scoped ≡ ok scoped) ↔ Covers (contains both) ("openid" ∷ [])
scope_claim_iff_example =
    scope_claim_iff scoped_claims scoped both ("openid" ∷ []) scoped_built refl both-IsWord
      (λ h. absurd (ground arith))
