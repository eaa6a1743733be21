-- ===== src/App/Usecases/Frame.antt =====
-- What creating an organization leaves as it was: whatever its statements, its new object and its
-- drawn UUIDs do not change.
use fukawa.Prelude.{
  ℕ, suc, String, Bool, true, false, ◌≡◌, refl, Option, none, some, [], ◌∷◌, arith, inl, inr,
}
use fukawa.Prelude.Result.{Result, ok, err, Result-cases}
use fukawa.Domain.Name
use fukawa.Domain.Name.{Unicode, Name, ValidationError}
use fukawa.Domain.Models.{owner, User, Membership, Organization}
use fukawa.App.Errors.{not_found}
use fukawa.Infra.Session.{
  SessionApi, driver, foreign, Stmt, insert_membership, select_user, Reply, done, users, upserted,
  OrgRow,
}
use fukawa.Infra.Uow.{Uow, State, Action, ◌>>=◌, require, require_repo, pure, with_session}
use fukawa.Infra.Repos.{
  create_organization, create_membership, get_by_auth_identity, one_or_none, execute,
}
use fukawa.App.Usecases.{
  CreateOrganizationCmdIn, create_organization_cmd, draw, found, or_validation,
}

module _ (api : SessionApi) where
  -- An action after which `f` is what it was.
  pub record Keeps {A V : Type 0} (f : State api → V) (m : Action api A) : Type 0 where
    pub kept : (s : State api) → f (m s).1 ≡ f s

  pure-Keeps : {A V : Type 0} (f : State api → V) (a : A) → Keeps f (pure api a)
  pure-Keeps f a = record { kept = λ s. refl }

  bind-Keeps :
      {A B V : Type 0} (f : State api → V) (m : Action api A) (k : A → Action api B)
      → Keeps f m
      → ((a : A) → Keeps f (k a))
      → Keeps f (◌>>=◌ api m k)
  bind-Keeps f m k first next = record {
    kept = λ s. elim (Result-cases (m s).0) [
      | inl (a, e) ↦ ground (arith, first.kept s, (next a).kept (m s).1)
      | inr (x, e) ↦ ground (arith, first.kept s)
    ];
  }

  require-Keeps :
      {V : Type 0} (f : State api → V) (b : Bool) (name : String) → Keeps f (require api b name)
  require-Keeps f true name = record { kept = λ s. refl }
  require-Keeps f false name = record { kept = λ s. refl }

  repo-Keeps :
      {V : Type 0} (f : State api → V) (has : Uow → Bool) (name : String)
      → Keeps f (require_repo api has name)
  repo-Keeps f has name = record { kept = λ s. (require-Keeps f (has s.uow) name).kept s }

  one_or_none-Keeps : {V : Type 0} (f : State api → V) (r : Reply) → Keeps f (one_or_none api r)
  one_or_none-Keeps f (users []) = record { kept = λ s. refl }
  one_or_none-Keeps f (users (r ∷ [])) = record { kept = λ s. refl }
  one_or_none-Keeps f (users (r ∷ q ∷ rest)) = record { kept = λ s. refl }
  one_or_none-Keeps f done = record { kept = λ s. refl }
  one_or_none-Keeps f (upserted rows) = record { kept = λ s. refl }

  execute-Keeps :
      {V : Type 0} (f : State api → V) (q : Stmt)
      → ((s : State api) → f (with_session api (api.execute q s.session).1 s) ≡ f s)
      → Keeps f (execute api q)
  execute-Keeps f q same = record {
    kept = λ s. elim (Result-cases (api.execute q s.session).0) [
      | inl (a, e) ↦ ground (arith, same s)
      | inr (driver x, e) ↦ ground (arith, same s)
      | inr (foreign m, e) ↦ ground (arith, same s)
    ];
  }

  create-Keeps :
      {V : Type 0} (f : State api → V)
      → ((o : OrgRow) (s : State api) → f (with_session api (api.add o s.session) s) ≡ f s)
      → (org : Organization) → Keeps f (create_organization api org)
  unfolding create_organization
  create-Keeps f adds org = record {
    kept = λ s. adds (record { public_id = org.public_id; name = org.name.value }) s;
  }

  lookup-Keeps :
      {V : Type 0} (f : State api → V)
      → ((q : Stmt) (s : State api) → f (with_session api (api.execute q s.session).1 s) ≡ f s)
      → (issuer subject : String) → Keeps f (get_by_auth_identity api issuer subject)
  unfolding get_by_auth_identity
  lookup-Keeps f executes issuer subject =
      bind-Keeps f _ _
        (execute-Keeps f (select_user issuer subject) (executes (select_user issuer subject)))
        (one_or_none-Keeps f)

  membership-Keeps :
      {V : Type 0} (f : State api → V)
      → ((q : Stmt) (s : State api) → f (with_session api (api.execute q s.session).1 s) ≡ f s)
      → (m : Membership) → Keeps f (create_membership api m)
  unfolding create_membership
  membership-Keeps f executes m =
      let q = insert_membership m.public_id m.user_public_id m.org_public_id m.role in
      bind-Keeps f _ _ (execute-Keeps f q (executes q)) (λ _. pure-Keeps f tt)

  module _ (uuid_gen : ℕ → ℕ) where
    draw-Keeps :
        {V : Type 0} (f : State api → V)
        → ((n : ℕ) (s : State api) → f (record s { uuids = n }) ≡ f s)
        → Keeps f (draw api uuid_gen)
    draw-Keeps f draws = record { kept = λ s. draws (suc s.uuids) s }

    found-Keeps :
        {V : Type 0} (f : State api → V) (u : Option User) → Keeps f (found api uuid_gen u)
    unfolding not_found
    found-Keeps f none = record { kept = λ s. refl }
    found-Keeps f (some u) = record { kept = λ s. refl }

    or_validation-Keeps :
        {V : Type 0} (f : State api → V) (r : Result ValidationError Name)
        → Keeps f (or_validation api uuid_gen r)
    or_validation-Keeps f (ok a) = record { kept = λ s. refl }
    or_validation-Keeps f (err e) = record { kept = λ s. refl }

    -- A view of the state that statements, new objects and drawn UUIDs do not change is not changed by
    -- the command.
    pub cmd-Keeps :
        {V : Type 0} (f : State api → V) (u : Unicode) (cmd : CreateOrganizationCmdIn)
        → ((n : ℕ) (s : State api) → f (record s { uuids = n }) ≡ f s)
        → ((q : Stmt) (s : State api) → f (with_session api (api.execute q s.session).1 s) ≡ f s)
        → ((o : OrgRow) (s : State api) → f (with_session api (api.add o s.session) s) ≡ f s)
        → Keeps f (create_organization_cmd api uuid_gen u cmd)
    unfolding create_organization_cmd
    cmd-Keeps f u cmd draws executes adds =
        let p = cmd.principal in
        bind-Keeps f _ _ (draw-Keeps f draws) (λ org_id.
          bind-Keeps f _ _ (repo-Keeps f (λ uow. uow.has_users) "users") (λ _.
            bind-Keeps f _ _ (lookup-Keeps f executes p.issuer p.subject) (λ maybe_user.
              bind-Keeps f _ _ (found-Keeps f maybe_user) (λ user.
                bind-Keeps f _ _ (or_validation-Keeps f (Name.create u cmd.name)) (λ name.
                  bind-Keeps f _ _ (draw-Keeps f draws) (λ membership_id.
                    bind-Keeps f _ _ (repo-Keeps f (λ uow. uow.has_orgs) "orgs") (λ _.
                      bind-Keeps f _ _
                        (create-Keeps f adds (record { public_id = org_id; name = name }))
                        (λ _.
                          bind-Keeps f _ _ (repo-Keeps f (λ uow. uow.has_memberships) "memberships")
                            (λ _.
                              bind-Keeps f _ _
                                (membership-Keeps f executes (record {
                                  public_id = membership_id;
                                  org_public_id = org_id;
                                  user_public_id = user.public_id;
                                  role = owner;
                                }))
                                (λ _. pure-Keeps f org_id))))))))))
