-- ===== src/Api/Routers/Directory.antt =====
-- Sequences of requests to POST /orgs/, against a directory that each of them extends or leaves as it is.
use fukawa.Prelude.{
  ℕ, String, ◌≡◌, refl, sym, ap, ◌∙◌, Option, none, suc, subst, List, [], ◌∷◌, ◌++◌, inl, inr,
}
use fukawa.Prelude.Result.{Result, ok, err, Result-cases}
use fukawa.Json.{Json}
use fukawa.Domain.Name.{Unicode, Name}
use fukawa.Domain.Models.{PublicId, MemberRole, owner}
use fukawa.App.Executor.Stored.{Transactional, start}
use fukawa.App.Usecases.{CreateOrganizationCmdIn}
use fukawa.App.Usecases.Organizations.{insertion}
use fukawa.Infra.Jwks.{Provider, World}
use fukawa.Infra.Verifier.{Jwt, KeycloakVerifier}
use fukawa.Infra.Session.{
  SessionApi, SessionError, OrgRow, UserRow, Reply, insert_membership, select_user,
}
use fukawa.Infra.Uow.{State}
use fukawa.Api.Failures.{Failure}
use fukawa.Api.Routers.{Answer, ApiState, create_organization}
use fukawa.Api.Routers.Created.{failure_keeps, created_stored}

-- A row that a transaction writes.
pub data Write : Type 0 where
  organization : OrgRow → Write
  membership : (public_id user_public_id org_public_id : PublicId) (role : MemberRole) → Write

abbrev pub Outcome : Type 0
Outcome = Result Failure (Answer PublicId)

-- The abstract directory: what a sequence of answers has added to it.
pub data Added : List Outcome → List Write → Type 0 where
  start_empty : Added [] []
  refused :
      {os : List Outcome} {ws : List Write} (f : Failure) → Added os ws → Added (err f ∷ os) ws
  created :
      {os : List Outcome} {ws : List Write} (a : Answer PublicId) (name : String)
      (public_id user_public_id : PublicId)
      → Added os ws
      → Added (ok a ∷ os) (
          organization (record { public_id = a.content; name = name })
          ∷ membership public_id user_public_id a.content owner
          ∷ ws)

pub record CreateRequest : Type 0 where
  pub uow_id : String
  pub credentials : Option String
  pub body : Json

module _ (api : SessionApi) (pending committed : api.Session → List Write) where
  open api use {Session}

  -- What is documented of a session, with what it has written and not committed yet.
  pub record IsStoring : Type 0 where
    pub transactional : Transactional api committed
    pub begin_pending : (d : Session) → pending (api.begin d) ≡ []
    pub add_pending :
        (o : OrgRow) (d : Session) → pending (api.add o d) ≡ pending d ++ (organization o ∷ [])
    pub select_pending :
        (issuer subject : String) (d : Session)
        → pending (api.execute (select_user issuer subject) d).1 ≡ pending d
    pub insert_pending :
        (id user org : PublicId) (role : MemberRole) (d : Session) (r : Reply)
        → (api.execute (insert_membership id user org role) d).0 ≡ ok r
        → pending (api.execute (insert_membership id user org role) d).1
          ≡ pending d ++ (membership id user org role ∷ [])
    pub commit_stores :
        (d : Session)
        → (api.commit d).0 ≡ ok tt
        → committed (api.commit d).1 ≡ committed d ++ pending d

  module _ (jwt : Jwt) (w : World) (wait : Provider → Provider) (v : KeycloakVerifier)
      (uuid_gen : ℕ → ℕ) (u : Unicode) where
    -- A request comes with a state of its own, without a principal.
    abbrev received : ApiState api → ApiState api
    received s = record s { access = record s.access { principal = none } }

    abbrev served : CreateRequest → ApiState api → Outcome × ApiState api
    served q s =
        create_organization jwt w wait v api uuid_gen u q.uow_id q.credentials q.body (received s)

    -- the requests, one after the other
    unfoldable pub serve : List CreateRequest → ApiState api → List Outcome × ApiState api
    serve [] s = ([], s)
    serve (q ∷ qs) s = let (o, t) = served q s in let (os, end) = serve qs t in (o ∷ os, end)

    module _ (store : IsStoring) where
      append_assoc : (xs ys zs : List Write) → (xs ++ ys) ++ zs ≡ xs ++ (ys ++ zs)
      append_assoc [] ys zs = refl
      append_assoc (x ∷ xs) ys zs = ap (λ rest. x ∷ rest) (append_assoc xs ys zs)

      module _ (cmd : CreateOrganizationCmdIn) (row : UserRow) (name : Name) (uow_id : String)
          (s : State api) where
        abbrev inserting : Result SessionError Reply × Session
        inserting = insertion api uuid_gen cmd row name (start api committed uow_id s)

        abbrev new_organization : OrgRow
        new_organization = record { public_id = uuid_gen s.uuids; name = name.value }

        abbrev writes : List Write
        writes =
            organization new_organization
            ∷ membership (uuid_gen (suc s.uuids)) row.public_id (uuid_gen s.uuids) owner
            ∷ []

        -- what the command has written when it commits
        inserting-pending : (r : Reply) → inserting.0 ≡ ok r → pending inserting.1 ≡ writes
        inserting-pending r h =
            store.insert_pending _ _ _ owner _ r h
            ∙ ap
                (λ ws.
                  ws
                  ++ (membership (uuid_gen (suc s.uuids)) row.public_id (uuid_gen s.uuids) owner
                      ∷ []))
                (store.add_pending new_organization _
                  ∙ ap (λ ws. ws ++ (organization new_organization ∷ []))
                      (store.select_pending cmd.principal.issuer cmd.principal.subject _
                        ∙ store.begin_pending s.session))

        inserting-committed : committed inserting.1 ≡ committed s.session
        inserting-committed =
            store.transactional.execute_keeps _ _
            ∙ store.transactional.add_keeps new_organization _
            ∙ store.transactional.execute_keeps _ _
            ∙ store.transactional.begin_keeps s.session

      -- one request
      record IsExtended (q : CreateRequest) (s : ApiState api) : Type 0 where
        written : List Write
        stored : committed (served q s).1.work.session ≡ committed s.work.session ++ written
        added :
            (os : List Outcome) (ws : List Write)
            → Added os ws
            → Added ((served q s).0 ∷ os) (written ++ ws)

      append_nil : (xs : List Write) → xs ++ [] ≡ xs
      append_nil [] = refl
      append_nil (x ∷ xs) = ap (λ rest. x ∷ rest) (append_nil xs)

      served-IsExtended : (q : CreateRequest) (s : ApiState api) → IsExtended q s
      served-IsExtended q s = elim (Result-cases (served q s).0) [
        | inr (f, h) ↦ record {
          written = [];
          stored =
              failure_keeps jwt w wait v api uuid_gen u committed store.transactional q.uow_id
                q.credentials q.body (received s) f h
              ∙ sym (append_nil (committed s.work.session));
          added = λ os ws rest. subst (λ o. Added (o ∷ os) ws) (sym h) (refused f rest);
        }
        | inl (a, h) ↦
            let (_, id, (p, org, row, name, _, _, _, _, _, (r, inserted), went, stored)) =
              created_stored jwt w wait v api uuid_gen u committed store.transactional q.uow_id
                q.credentials q.body (received s) a h in
            let cmd : CreateOrganizationCmdIn = record { name = org.name; principal = p } in
            record {
              written = writes cmd row name q.uow_id s.work;
              stored =
                  stored
                  ∙ store.commit_stores _ went
                  ∙ ap (λ ws. ws ++ pending (inserting cmd row name q.uow_id s.work).1)
                      (inserting-committed cmd row name q.uow_id s.work)
                  ∙ ap (λ ws. committed s.work.session ++ ws)
                      (inserting-pending cmd row name q.uow_id s.work r inserted);
              added = λ os ws rest.
                  subst (λ o. Added (o ∷ os) (writes cmd row name q.uow_id s.work ++ ws)) (sym h)
                    (subst
                      (λ n. Added (ok a ∷ os) (
                        organization (record { public_id = n; name = name.value })
                        ∷ membership (uuid_gen (suc s.work.uuids)) row.public_id n owner
                        ∷ ws))
                      id (created a name.value (uuid_gen (suc s.work.uuids)) row.public_id rest));
            }
      ]

      -- Whatever requests to create an organization arrive, one after the other, what is stored at the
      -- end is what was stored before, extended for each request that was answered, in their order, by
      -- the organization under the identifier of the answer and by one membership in it, as its owner;
      -- those that were refused or failed have added nothing. The session stores what was written when a
      -- commit goes through.
      pub serve_refines :
          (qs : List CreateRequest) (s : ApiState api)
          → (ws : List Write) × Added (serve qs s).0 ws
            × (committed (serve qs s).1.work.session ≡ committed s.work.session ++ ws)
      unfolding serve
      serve_refines [] s = ([], start_empty, sym (append_nil (committed s.work.session)))
      serve_refines (q ∷ qs) s =
          let one : IsExtended q s = served-IsExtended q s in
          let (ws, adds, end) = serve_refines qs (served q s).1 in
          (
            one.written ++ ws,
            one.added _ ws adds,
            end
                ∙ ap (λ xs. xs ++ ws) one.stored
                ∙ append_assoc (committed s.work.session) one.written ws,
          )
