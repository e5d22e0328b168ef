-- ===== src/Auth/Registration.antt =====
-- What a registration leaves behind.
use developer_platform_backe.Organizations.Founding.{HasKnownOrgs, IsFounded, create-IsFounded}
use developer_platform_backe.Orm.Laws.{find_one-eq-some, get-save_self}
use developer_platform_backe.Users.{find_by_email, User, user_entity}
use developer_platform_backe.Organizations.{
  OrgState, Organization, Member, get_membership_or_throw, organization_entity, member_entity,
}
use developer_platform_backe.Applications.{
  AppsState, Application, find_one_or_throw, is_app, application_entity,
}
use developer_platform_backe.Enums.{OrganizationType, owner, publisher, subscriber}
use developer_platform_backe.Auth.Register.{
  Hashing, RegisterDto, register, RegisterState, enqueue_welcome_email, create_default_app,
  workspace_name, WelcomeEmail,
}
use developer_platform_backe.Auth.{AuthEnv, SafeUser, build_auth_response, login}
use developer_platform_backe.Slug.{Texts}
use developer_platform_backe.Redis.{Redis}
use developer_platform_backe.Prelude.{
  ℕ, ◌≡◌, refl, true, none, some, [], ◌∷◌, ◌++◌, arith, Option-cases, inr, inl, String, ap,
}
use developer_platform_backe.Prelude.Action.{Result, ok, err, conflict}
use developer_platform_backe.Users.{create as create_row}
use developer_platform_backe.Organizations.Creation.{create as create_org}
use developer_platform_backe.Applications.{create as create_app}
use developer_platform_backe.Orm.{Orm}
use text.Mathlib.Text.{◌==◌ as str_eq}
use text.Mathlib.TextEquality.{eq_iff}

module _ {orm : Orm} where
  -- A subscriber has an active application of the organization, and nothing else changed among the
  -- applications; a publisher has none.
  abbrev pub HasDefaultApp : OrganizationType → ℕ → (a a' : AppsState orm) → Type 0
  HasDefaultApp publisher org_id a a' = a' ≡ a
  HasDefaultApp subscriber org_id a a' =
      (app : Application) × (find_one_or_throw org_id app.id a' ≡ (ok app, a'))
      × (app.name ≡ "Default")
      × (app.is_active ≡ true)
      × ((k : ℕ) (x : Application) → orm.get k a.apps ≡ some x → orm.get k a'.apps ≡ some x)

module _ {orm : Orm} {redis : Redis} (texts : Texts) (env : AuthEnv) (hashing : Hashing env)
    (now salt : ℕ) where
  abbrev new_user : RegisterDto → RegisterState orm redis → User
  new_user dto s = record {
    id = orm.fresh s.org_state.users;
    email = dto.email;
    password_hash = hashing.hash salt dto.password;
    first_name = dto.first_name;
    last_name = dto.last_name;
    is_active = true;
  }

  abbrev with_user : RegisterDto → RegisterState orm redis → OrgState orm redis
  with_user dto s = record (s.org_state) { users = orm.save (new_user dto s) s.org_state.users }

  -- What a successful registration wrote and answered.
  pub record IsRegistered (dto : RegisterDto) (s s' : RegisterState orm redis)
      (answer : env.Token × SafeUser) : Type 0 where
    pub newcomer : find_by_email orm dto.email s.org_state.users ≡ none
    pub shown : answer ≡ build_auth_response env now (new_user dto s)
    pub stored : orm.get (new_user dto s).id s'.org_state.users ≡ some (new_user dto s)
    pub accounts :
        (k : ℕ) (u : User)
        → orm.get k s.org_state.users ≡ some u
        → orm.get k s'.org_state.users ≡ some u
    pub org : Organization
    pub org_type : org.type ≡ dto.type
    pub org_stored : orm.get org.id s'.org_state.orgs ≡ some org
    pub membership : Member
    pub membership_role : membership.role ≡ owner
    pub owned :
        get_membership_or_throw org.id (new_user dto s).id s'.org_state
        ≡ (ok membership, s'.org_state)
    pub application : HasDefaultApp dto.type org.id s.apps_state s'.apps_state
    pub mailed : s'.emails ≡ s.emails ++ (record { email = dto.email; name = dto.first_name } ∷ [])
    -- The password lets the user in at any later time.
    pub lets_in :
        (later : ℕ)
        → login {orm = orm} env later dto.email dto.password (record { users = s'.org_state.users })
          ≡ (
            ok (build_auth_response env later (new_user dto s)),
            record { users = s'.org_state.users },
          )

  abbrev pub RegisterOutcome :
      RegisterDto
      → RegisterState orm redis
      → Result (env.Token × SafeUser) × RegisterState orm redis
      → Type 0
  RegisterOutcome dto s (ok answer, s') = IsRegistered dto s s' answer
  RegisterOutcome dto s (err e, s') =
      (e ≡ conflict "Email is already registered")
      × (s' ≡ s)
      × ((u : User) × (u.email ≡ dto.email) × (orm.get u.id s.org_state.users ≡ some u))

  -- The state after the organization `org` was made, in the state `t` of the organizations.
  abbrev finished :
      RegisterDto → ℕ → OrgState orm redis → RegisterState orm redis → RegisterState orm redis
  finished dto org_id t s =
      (enqueue_welcome_email (record { email = dto.email; name = dto.first_name })
        (create_default_app dto.type org_id (record s { org_state = t })).1).1

  register_lem :
      (dto : RegisterDto) (s : RegisterState orm redis) (org : Organization)
      (t : OrgState orm redis)
      → orm.find_one (λ u. str_eq u.email dto.email) s.org_state.users ≡ none
      → create_org texts
          (orm.fresh s.org_state.users)
          (workspace_name dto.first_name dto.email)
          dto.type
          (with_user dto s)
        ≡ (ok org, t)
      → register texts env hashing now salt dto s
        ≡ (ok (build_auth_response env now (new_user dto s)), finished dto org.id t s)
  unfolding register find_by_email create_row create_app
  register_lem dto s org t newcomer made = ground (arith, newcomer, made)

  register_taken :
      (dto : RegisterDto) (s : RegisterState orm redis) (u : User)
      → orm.find_one (λ u. str_eq u.email dto.email) s.org_state.users ≡ some u
      → register texts env hashing now salt dto s
        ≡ (err (conflict "Email is already registered"), s)
  unfolding register find_by_email
  register_taken dto s u taken = rw taken refl

  find_new_user :
      (dto : RegisterDto) (s : RegisterState orm redis)
      → orm.find_one (λ u. str_eq u.email dto.email) s.org_state.users ≡ none
      → orm.find_one (λ u. str_eq u.email dto.email) (with_user dto s).users ≡ some (new_user dto s)
  find_new_user dto s newcomer =
      find_one-eq-some orm (λ u. str_eq u.email dto.email) (with_user dto s).users
        (new_user dto s).id (new_user dto s) (get-save_self orm (new_user dto s) s.org_state.users)
        ((eq_iff dto.email dto.email).1 refl)
        (λ x same stored. ground (
          arith,
          orm.get-save x.id (new_user dto s) s.org_state.users,
          orm.find_one_none (λ u. str_eq u.email dto.email) s.org_state.users x.id x newcomer,
        ))

  log_in_new_user :
      (dto : RegisterDto) (s : RegisterState orm redis) (later : ℕ)
      → orm.find_one (λ u. str_eq u.email dto.email) s.org_state.users ≡ none
      → login {orm = orm} env later dto.email dto.password
          (record { users = (with_user dto s).users })
        ≡ (
          ok (build_auth_response env later (new_user dto s)),
          record { users = (with_user dto s).users },
        )
  unfolding login find_by_email
  log_in_new_user dto s later newcomer =
      rw (find_new_user dto s newcomer, hashing.compare-hash salt dto.password) refl

module _ {orm : Orm} where
  create_app-HasDefaultApp :
      (type : OrganizationType) (org_id : ℕ) {redis : Redis} (s : RegisterState orm redis)
      → HasDefaultApp type org_id s.apps_state (create_default_app type org_id s).1.apps_state
  unfolding create_app find_one_or_throw
  create_app-HasDefaultApp publisher org_id s = refl
  create_app-HasDefaultApp subscriber org_id s =
      let app : Application = record {
        id = orm.fresh s.apps_state.apps;
        name = "Default";
        description = some "Default application for your API keys.";
        organization_id = org_id;
        is_active = true;
      } in
      (
        app,
        rw
            (find_one-eq-some orm (is_app org_id app.id) (orm.save app s.apps_state.apps) app.id app
              (get-save_self orm app s.apps_state.apps) (ground arith) (λ x same _. ground arith))
            refl,
        refl,
        refl,
        λ k x stored.
            ground (arith, orm.get-save k app s.apps_state.apps, orm.get-fresh s.apps_state.apps),
      )

module _ {orm : Orm} {redis : Redis} where
  enqueued_parts :
      (type : OrganizationType) (org_id : ℕ) (mail : WelcomeEmail) (s : RegisterState orm redis)
      → ((enqueue_welcome_email mail (create_default_app type org_id s).1).1.org_state
          ≡ s.org_state)
        × ((enqueue_welcome_email mail (create_default_app type org_id s).1).1.apps_state
            ≡ (create_default_app type org_id s).1.apps_state)
        × ((enqueue_welcome_email mail (create_default_app type org_id s).1).1.emails
            ≡ s.emails ++ (mail ∷ []))
  unfolding create_app
  enqueued_parts publisher org_id mail s = (refl, refl, refl)
  enqueued_parts subscriber org_id mail s = (refl, refl, refl)

module _ {orm : Orm} {redis : Redis} (texts : Texts) (env : AuthEnv) (hashing : Hashing env)
    (now salt : ℕ) where
  finished-IsRegistered :
      (dto : RegisterDto) (s : RegisterState orm redis) (org : Organization)
      (t : OrgState orm redis)
      → orm.find_one (λ u. str_eq u.email dto.email) s.org_state.users ≡ none
      → IsFounded texts
          (new_user texts env hashing now salt dto s).id
          (workspace_name dto.first_name dto.email)
          dto.type
          (with_user texts env hashing now salt dto s)
          t
          org
      → IsRegistered texts env hashing now salt dto s
          (finished texts env hashing now salt dto org.id t s)
          (build_auth_response env now (new_user texts env hashing now salt dto s))
  unfolding find_by_email
  finished-IsRegistered dto s org t newcomer founded =
      let user : User = new_user texts env hashing now salt dto s in
      let (orgs, apps, mails) =
        enqueued_parts dto.type org.id (record { email = dto.email; name = dto.first_name })
          (record s { org_state = t }) in
      record {
        newcomer = newcomer;
        shown = refl;
        stored = rw (orgs, founded.accounts) (get-save_self orm user s.org_state.users);
        accounts = λ k u h.
            rw (orgs, founded.accounts)
              (ground
                (arith, orm.get-save k user s.org_state.users, orm.get-fresh s.org_state.users));
        org = org;
        org_type = rw founded.columns refl;
        org_stored = rw orgs founded.stored;
        membership = record {
          id = orm.fresh s.org_state.members;
          organization_id = org.id;
          user_id = user.id;
          role = owner;
        };
        membership_role = refl;
        owned = rw orgs founded.owned;
        application =
            rw apps (create_app-HasDefaultApp dto.type org.id (record s { org_state = t }));
        mailed = mails;
        lets_in = λ later.
            rw (orgs, founded.accounts)
              (log_in_new_user texts env hashing now salt dto s later newcomer);
      }

  -- A registration with an address that is taken throws a conflict and changes nothing. Any other
  -- makes an account with the hash of the password, an organization of the chosen type that the user
  -- owns, for a subscriber an active application in it, and a job for one welcome mail; the accounts
  -- there were stay as they are, the answer is the one of a login, and with the password the user can
  -- log in at any later time.
  pub register-RegisterOutcome :
      (dto : RegisterDto) (s : RegisterState orm redis)
      → HasKnownOrgs s.org_state
      → RegisterOutcome texts env hashing now salt dto s (register texts env hashing now salt dto s)
  register-RegisterOutcome dto s known =
      elim (Option-cases (orm.find_one (λ u. str_eq u.email dto.email) s.org_state.users)) [
        | inr (u, taken) ↦
            let (same, stored) =
              orm.find_one_sound (λ u. str_eq u.email dto.email) s.org_state.users u taken in
            rw (register_taken texts env hashing now salt dto s u taken)
              (refl, refl, (u, (eq_iff u.email dto.email).0 same, stored))
        | inl newcomer ↦
            let id : ℕ = orm.fresh s.org_state.users in
            let name : String = workspace_name dto.first_name dto.email in
            let before : OrgState orm redis = with_user texts env hashing now salt dto s in
            let (org, run, founded) = create-IsFounded texts id name dto.type before known in
            let t : OrgState orm redis = (create_org texts id name dto.type before).1 in
            rw (register_lem texts env hashing now salt dto s org t newcomer (ap (λ r. (r, t)) run))
              (finished-IsRegistered dto s org t newcomer founded)
      ]
