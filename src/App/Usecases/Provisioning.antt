-- ===== src/App/Usecases/Provisioning.antt =====
-- Provisioning the user of a token, by src/pet/app/usecases/users.py, over a table of users.
use fukawa.Prelude.{
  ℕ, String, Bool, true, false, not, is_some, ◌≡◌, sym, ap, ◌∙◌, Option, none, some, [], ◌∷◌, arith,
  inl, inr, Bool-cases, Option-cases,
}
use fukawa.Prelude.Result.{ok, Result-cases}
use fukawa.Domain.Principal.{Principal}
use fukawa.Domain.Models.{User, create_user}
use fukawa.Infra.Session.{
  SessionApi, driver, foreign, Stmt, upsert_user, Reply, done, users, upserted, UserRow, UserSet,
}
use fukawa.Infra.Uow.{State}
use fukawa.Infra.Repos.{to_domain, to_row, upsert_stmt, upsert}
use fukawa.App.Usecases.{user_of_claims, provision_user_from_claims}

-- a row with the columns of `set_` set
abbrev pub updated : UserSet → UserRow → UserRow
updated c r = record r {
  username = c.username;
  email = c.email;
  first_name = c.first_name;
  last_name = c.last_name;
  last_login_at = c.last_login_at;
  updated_at = c.updated_at;
}

row-eq : {r q : UserRow} {a b : Bool} → upserted ((r, a) ∷ []) ≡ upserted ((q, b) ∷ []) → r ≡ q
row-eq h = cc

flag-eq : {r q : UserRow} {a b : Bool} → upserted ((r, a) ∷ []) ≡ upserted ((q, b) ∷ []) → a ≡ b
flag-eq h = cc

module _ (api : SessionApi) (find : api.Session → (issuer subject : String) → Option UserRow) where
  open api use {Session}

  -- What is documented of INSERT ... ON CONFLICT DO UPDATE ... RETURNING, when it goes through: with no
  -- conflict it stores and returns the new row, otherwise the old row with the columns set.
  pub record IsUpserting : Type 0 where
    pub unknown :
        (d : Session) (values : UserRow) (c : UserSet) (reply : Reply)
        → find d values.auth_issuer values.auth_subject ≡ none
        → (api.execute (upsert_user values "uq_users_auth_subject_auth_issuer" c) d).0 ≡ ok reply
        → (reply ≡ upserted ((values, true) ∷ []))
          × (find
                (api.execute (upsert_user values "uq_users_auth_subject_auth_issuer" c) d).1
                values.auth_issuer
                values.auth_subject
              ≡ some values)
    pub known :
        (d : Session) (values : UserRow) (c : UserSet) (reply : Reply) (old : UserRow)
        → find d values.auth_issuer values.auth_subject ≡ some old
        → (api.execute (upsert_user values "uq_users_auth_subject_auth_issuer" c) d).0 ≡ ok reply
        → (reply ≡ upserted ((updated c old, false) ∷ []))
          × (find
                (api.execute (upsert_user values "uq_users_auth_subject_auth_issuer" c) d).1
                values.auth_issuer
                values.auth_subject
              ≡ some (updated c old))

  module _ (uuid_gen : ℕ → ℕ) where
    abbrev statement : ℕ → Principal → State api → Stmt
    unfolding create_user
    statement now p s = upsert_stmt (user_of_claims api uuid_gen (uuid_gen s.uuids) now p)

    -- a provisioning that returned
    record IsDone (now : ℕ) (p : Principal) (s : State api) (u : User) (inserted : Bool)
        (t : State api) : Type 0 where
      row : UserRow
      replied : (api.execute (statement now p s) s.session).0 ≡ ok (upserted ((row, inserted) ∷ []))
      user : u ≡ to_domain row
      session : t.session ≡ (api.execute (statement now p s) s.session).1

    provision-IsDone :
        (now : ℕ) (p : Principal) (s : State api) (u : User) (inserted : Bool) (t : State api)
        → provision_user_from_claims api uuid_gen now p s ≡ (ok (u, inserted), t)
        → IsDone now p s u inserted t
    unfolding provision_user_from_claims upsert create_user
    provision-IsDone now p s u inserted t h = elim (Bool-cases s.uow.has_users) [
      | inr unset ↦ absurd (ground arith)
      | inl set ↦ elim (Result-cases (api.execute (statement now p s) s.session).0) [
        | inr (driver e, q) ↦ absurd (ground arith)
        | inr (foreign m, q) ↦ absurd (ground arith)
        | inl (done, q) ↦ absurd (ground arith)
        | inl (users rows, q) ↦ absurd (ground arith)
        | inl (upserted [], q) ↦ absurd (ground arith)
        | inl (upserted (r ∷ r' ∷ rest), q) ↦ absurd (ground arith)
        | inl (upserted ((r, new) ∷ []), q) ↦ record {
          row = r;
          replied = ground arith;
          user = ground arith;
          session = ground arith;
        }
      ]
    ]

    module _ (laws : IsUpserting) where
      -- the row that was returned is the one that is found
      IsDone-find :
          (now : ℕ) (p : Principal) (s : State api) (u : User) (inserted : Bool) (t : State api)
          → (d : IsDone now p s u inserted t) → find t.session p.issuer p.subject ≡ some d.row
      unfolding create_user
      IsDone-find now p s u inserted t d =
          let user : User = user_of_claims api uuid_gen (uuid_gen s.uuids) now p in
          let reply = upserted ((d.row, inserted) ∷ []) in
          elim (Option-cases (find s.session p.issuer p.subject)) [
            | inl new ↦
                let (same, there) = laws.unknown s.session (to_row user) _ reply new d.replied in
                ap (λ e. find e p.issuer p.subject) d.session ∙ there ∙ ap some (sym (row-eq same))
            | inr (old, known) ↦
                let (same, there) =
                  laws.known s.session (to_row user) _ reply old known d.replied in
                ap (λ e. find e p.issuer p.subject) d.session ∙ there ∙ ap some (sym (row-eq same))
          ]

      -- A user who is provisioned again, by claims with the same issuer and subject, is not inserted
      -- again: the public identifier and the time of creation stay, and the profile and the last login
      -- are those of the new claims, if the upsert is as documented and nothing has changed the row in
      -- between.
      pub provisioned_again :
          (now now' : ℕ) (p p' : Principal) (s t s' t' : State api) (u u' : User)
          (inserted inserted' : Bool)
          → p'.issuer ≡ p.issuer
          → p'.subject ≡ p.subject
          → provision_user_from_claims api uuid_gen now p s ≡ (ok (u, inserted), t)
          → find s'.session p.issuer p.subject ≡ find t.session p.issuer p.subject
          → provision_user_from_claims api uuid_gen now' p' s' ≡ (ok (u', inserted'), t')
          → (inserted' ≡ false)
            × (u'.public_id ≡ u.public_id)
            × (u'.created_at ≡ u.created_at)
            × (u'.auth_subject ≡ u.auth_subject)
            × (u'.email ≡ p'.email)
            × (u'.username ≡ p'.username)
            × (u'.first_name ≡ p'.first_name)
            × (u'.last_name ≡ p'.last_name)
            × (u'.last_login_at ≡ now')
      unfolding create_user
      provisioned_again now now' p p' s t s' t' u u' inserted inserted' i j h kept h' =
          let d : IsDone now p s u inserted t = provision-IsDone now p s u inserted t h in
          let d' : IsDone now' p' s' u' inserted' t' =
            provision-IsDone now' p' s' u' inserted' t' h' in
          let user : User = user_of_claims api uuid_gen (uuid_gen s'.uuids) now' p' in
          let there : find s'.session p'.issuer p'.subject ≡ some d.row =
            ap (λ a. find s'.session a p'.subject) i
            ∙ ap (find s'.session p.issuer) j
            ∙ kept
            ∙ IsDone-find now p s u inserted t d in
          let (same, _) =
            laws.known s'.session (to_row user) _ (upserted ((d'.row, inserted') ∷ [])) d.row there
              d'.replied in
          ground (arith, d.user, d'.user, row-eq same, flag-eq same)

      -- What a provisioning that returned has told: whether the user was known before, and the profile
      -- of the claims.
      pub provisioned_first :
          (now : ℕ) (p : Principal) (s t : State api) (u : User) (inserted : Bool)
          → provision_user_from_claims api uuid_gen now p s ≡ (ok (u, inserted), t)
          → (inserted ≡ not (is_some (find s.session p.issuer p.subject)))
            × (u.email ≡ p.email)
            × (u.username ≡ p.username)
            × (u.first_name ≡ p.first_name)
            × (u.last_name ≡ p.last_name)
            × (u.last_login_at ≡ now)
      unfolding create_user
      provisioned_first now p s t u inserted h =
          let d : IsDone now p s u inserted t = provision-IsDone now p s u inserted t h in
          let user : User = user_of_claims api uuid_gen (uuid_gen s.uuids) now p in
          let reply = upserted ((d.row, inserted) ∷ []) in
          elim (Option-cases (find s.session p.issuer p.subject)) [
            | inl new ↦
                let (same, _) = laws.unknown s.session (to_row user) _ reply new d.replied in
                ground (arith, d.user, row-eq same, flag-eq same, new)
            | inr (old, known) ↦
                let (same, _) = laws.known s.session (to_row user) _ reply old known d.replied in
                ground (arith, d.user, row-eq same, flag-eq same, known)
          ]

  module _ (uuid_gen : ℕ → ℕ) {Db : Type 0} (committed : api.Session → Db) where
    pub provision-LeavesCommit :
        (now : ℕ) (p : Principal)
        → ((q : Stmt) (d : Session) → committed (api.execute q d).1 ≡ committed d)
        → (s : State api)
        → committed (provision_user_from_claims api uuid_gen now p s).1.session
          ≡ committed s.session
    unfolding provision_user_from_claims upsert create_user
    provision-LeavesCommit now p keeps s = elim (Bool-cases s.uow.has_users) [
      | inr unset ↦ ground arith
      | inl set ↦ elim (Result-cases (api.execute (statement uuid_gen now p s) s.session).0) [
        | inr (driver e, q) ↦ ground (arith, keeps (statement uuid_gen now p s) s.session)
        | inr (foreign m, q) ↦ ground (arith, keeps (statement uuid_gen now p s) s.session)
        | inl (done, q) ↦ ground (arith, keeps (statement uuid_gen now p s) s.session)
        | inl (users rows, q) ↦ ground (arith, keeps (statement uuid_gen now p s) s.session)
        | inl (upserted [], q) ↦ ground (arith, keeps (statement uuid_gen now p s) s.session)
        | inl (upserted (r ∷ r' ∷ rest), q) ↦
            ground (arith, keeps (statement uuid_gen now p s) s.session)
        | inl (upserted ((r, new) ∷ []), q) ↦
            ground (arith, keeps (statement uuid_gen now p s) s.session)
      ]
    ]
