-- ===== src/Auth/Login.antt =====
-- Who gets a token, whom a token lets in, and what an error tells.
use mathlib.Core.Path.{subst}
use developer_platform_backe.Orm.Laws.{find_one-eq-some}
use developer_platform_backe.Auth.{
  AuthEnv, AuthState, login, SafeUser, authenticate, invalid, sanitize, build_auth_response,
  validate,
}
use developer_platform_backe.Prelude.{
  ℕ, ◌+◌, ◌≤◌, ◌<◌, String, ◌≡◌, refl, ◌∙◌, ◌⊎◌, inl, inr, true, false, some, arith, ◌==◌,
  if◌then◌else◌, Bool-cases, Option-cases,
}
use developer_platform_backe.Prelude.Action.{ok, err, HttpError, unauthorized}
use developer_platform_backe.Orm.{Orm}
use text.Mathlib.Text.{◌==◌ as str_eq}
use text.Mathlib.TextEquality.{eq_iff}
use developer_platform_backe.Users.{User, user_entity}

module _ {orm : Orm} (env : AuthEnv) where
  pub record IsLoggedIn (at : ℕ) (email password : String) (s : AuthState orm)
      (answer : env.Token × SafeUser) : Type 0 where
    pub user : User
    pub stored : orm.get user.id s.users ≡ some user
    pub address : user.email ≡ email
    pub matches : env.compare password user.password_hash ≡ true
    pub active : user.is_active ≡ true
    pub shown : answer.1 ≡ sanitize user
    -- A later request with the token, from a state that still holds the user's row `row`.
    pub lets_in :
        (now : ℕ) (row : User) (later : AuthState orm)
        → at ≤ now
        → now < at + env.lifetime
        → orm.get user.id later.users ≡ some row
        → row.is_active ≡ true
        → authenticate env now answer.0 later ≡ (ok row, later)
    pub keeps_out :
        (now : ℕ) (row : User) (later : AuthState orm)
        → at ≤ now
        → now < at + env.lifetime
        → orm.get user.id later.users ≡ some row
        → row.is_active ≡ false
        → authenticate env now answer.0 later ≡ (err (unauthorized "User no longer active"), later)

  find_user :
      (id : ℕ) (u : User) (s : AuthState orm)
      → orm.get id s.users ≡ some u
      → orm.find_one (λ x. x.id == id) s.users ≡ some u
  find_user id u s h =
      find_one-eq-some orm (λ x. x.id == id) s.users id u h
        (ground (arith, orm.get_key id s.users u h)) (λ x t _. ground arith)

  -- What a token that has not expired comes to.
  token_lets_in :
      (at now : ℕ) (user row : User) (later : AuthState orm)
      → at ≤ now
      → now < at + env.lifetime
      → orm.get user.id later.users ≡ some row
      → authenticate env now (build_auth_response env at user).0 later
        ≡ (if row.is_active then ok row else err (unauthorized "User no longer active"), later)
  unfolding authenticate validate build_auth_response
  token_lets_in at now user row later a b there = elim (Bool-cases row.is_active) [
    | inl on ↦
        rw
          (
            env.verify-sign at now (record { sub = user.id; email = user.email }) a b,
            find_user user.id row later there,
            on,
          )
          refl
    | inr off ↦
        rw
          (
            env.verify-sign at now (record { sub = user.id; email = user.email }) a b,
            find_user user.id row later there,
            off,
          )
          refl
  ]

  -- A login that succeeds was with the password of an active user with the given address; the answer
  -- does not hold the hash, and until the token expires it lets in whoever is stored under that user's
  -- key while that row is active, and nobody while it is not.
  pub login-IsLoggedIn :
      (at : ℕ) (email password : String) (s : AuthState orm) (answer : env.Token × SafeUser)
      → (login env at email password s).0 ≡ ok answer
      → IsLoggedIn at email password s answer
  unfolding login build_auth_response
  login-IsLoggedIn at email password s answer done =
      elim (Option-cases (orm.find_one (λ u. str_eq u.email email) s.users)) [
        | inl unknown ↦ ground (arith, unknown)
        | inr (user, found) ↦
            let (same, stored) =
              orm.find_one_sound (λ u. str_eq u.email email) s.users user found in
            let matches : env.compare password user.password_hash ≡ true = ground (arith, found) in
            let active : user.is_active ≡ true = ground (arith, found) in
            let shown : build_auth_response env at user ≡ answer = ground (arith, found) in
            subst (IsLoggedIn at email password s) shown (record {
              user = user;
              stored = stored;
              address = (eq_iff user.email email).0 same;
              matches = matches;
              active = active;
              shown = refl;
              lets_in = λ now row later a b there on.
                  token_lets_in at now user row later a b there ∙ rw on refl;
              keeps_out = λ now row later a b there off.
                  token_lets_in at now user row later a b there ∙ rw off refl;
            })
      ]

  -- A login that fails says that the credentials are invalid, alike for an unknown address and a wrong
  -- password, unless the password is right and the account is not active.
  pub login-err :
      (at : ℕ) (email password : String) (s : AuthState orm) (e : HttpError)
      → (login env at email password s).0 ≡ err e
      → (e ≡ invalid)
        ⊎ ((u : User) × (orm.find_one (λ x. str_eq x.email email) s.users ≡ some u)
            × (env.compare password u.password_hash ≡ true)
            × (u.is_active ≡ false))
  unfolding login
  login-err at email password s e failed =
      elim (Option-cases (orm.find_one (λ u. str_eq u.email email) s.users)) [
        | inl unknown ↦ inl (ground (arith, unknown))
        | inr (user, found) ↦ elim (Bool-cases (env.compare password user.password_hash)) [
          | inl right ↦ inr (user, found, right, ground (arith, found))
          | inr wrong ↦ inl (ground (arith, found))
        ]
      ]
