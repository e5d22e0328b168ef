-- ===== src/Applications/Tenancy.antt =====
-- An application is changed or removed only for the organization that it belongs to.
use developer_platform_backe.Orm.Laws.{find_one-eq-none}
use developer_platform_backe.Prelude.{
  ℕ, ◌≡◌, refl, sym, ap, ◌∙◌, ◌≢◌, inl, inr, some, arith, Option-cases,
}
use developer_platform_backe.Prelude.Action.{ok, err, not_found}
use developer_platform_backe.Orm.{Orm}
use developer_platform_backe.Applications.{
  application_entity, AppsState, remove, UpdateApplicationDto, update, Application,
  find_one_or_throw, is_app, assign,
}

assign-keys :
    (a : Application) (dto : UpdateApplicationDto)
    → ((assign a dto).id ≡ a.id) × ((assign a dto).organization_id ≡ a.organization_id)
unfolding assign
assign-keys a dto = (refl, refl)

module _ {orm : Orm} where
  find_or_throw_sound :
      (org app : ℕ) (s : AppsState orm) (a : Application)
      → orm.find_one (is_app org app) s.apps ≡ some a
      → (orm.get app s.apps ≡ some a) × (a.id ≡ app) × (a.organization_id ≡ org)
  find_or_throw_sound org app s a found =
      let (same, stored) = orm.find_one_sound (is_app org app) s.apps a found in
      (ground arith, ground arith, ground arith)

  -- What a removal leaves.
  pub record IsRemoved (org app : ℕ) (s s' : AppsState orm) : Type 0 where
    pub row : Application
    pub was : orm.get app s.apps ≡ some row
    pub own : row.organization_id ≡ org
    pub others : (k : ℕ) → k ≢ app → orm.get k s'.apps ≡ orm.get k s.apps
    pub gone :
        (any_org : ℕ)
        → find_one_or_throw any_org app s' ≡ (err (not_found "Application not found"), s')

  -- A removal that succeeds was of an application of the organization of the call; no organization can
  -- reach it afterwards, and every other application is as before.
  pub remove-IsRemoved :
      (org app k : ℕ) (s : AppsState orm)
      → (remove org app s).0 ≡ ok k
      → IsRemoved org app s (remove org app s).1
  unfolding remove find_one_or_throw
  remove-IsRemoved org app k s done = elim (Option-cases (orm.find_one (is_app org app) s.apps)) [
    | inl absent ↦ ground (arith, absent)
    | inr (a, found) ↦
        let (stored, key, own) = find_or_throw_sound org app s a found in
        let after : (remove org app s).1 ≡ record s { apps = orm.remove a s.apps } =
          ground (arith, found) in
        rw after (record {
          row = a;
          was = stored;
          own = own;
          others = λ k ne. ground (arith, orm.get-remove k a s.apps);
          gone = λ any_org.
              let missing =
                find_one-eq-none orm (is_app any_org app) (orm.remove a s.apps)
                  (λ x there. ground (arith, orm.get-remove x.id a s.apps)) in
              ground (arith, missing);
        })
  ]

  -- What an update leaves.
  pub record IsUpdated (org app : ℕ) (dto : UpdateApplicationDto) (new : Application)
      (s s' : AppsState orm) : Type 0 where
    pub old : Application
    pub was : orm.get app s.apps ≡ some old
    pub own : old.organization_id ≡ org
    pub now : orm.get app s'.apps ≡ some new
    pub stays : new.organization_id ≡ org
    pub others : (k : ℕ) → k ≢ app → orm.get k s'.apps ≡ orm.get k s.apps

  -- An update that succeeds was of an application of the organization of the call, which keeps it; the
  -- row that it returns is stored, and every other application is as before.
  pub update-IsUpdated :
      (org app : ℕ) (dto : UpdateApplicationDto) (new : Application) (s : AppsState orm)
      → (update org app dto s).0 ≡ ok new
      → IsUpdated org app dto new s (update org app dto s).1
  unfolding update find_one_or_throw
  update-IsUpdated org app dto new s done =
      elim (Option-cases (orm.find_one (is_app org app) s.apps)) [
        | inl absent ↦ ground (arith, absent)
        | inr (a, found) ↦
            let (stored, key, own) = find_or_throw_sound org app s a found in
            let after : (update org app dto s).1 ≡ record s { apps = orm.save new s.apps } =
              ground (arith, found) in
            let new_is : assign a dto ≡ new = ground (arith, found) in
            let id_is : new.id ≡ app = ap (λ x. x.id) (sym new_is) ∙ (assign-keys a dto).0 ∙ key in
            rw after (record {
              old = a;
              was = stored;
              own = own;
              now = ground (arith, orm.get-save app new s.apps, id_is);
              stays = ap (λ x. x.organization_id) (sym new_is) ∙ (assign-keys a dto).1 ∙ own;
              others = λ k ne. ground (arith, orm.get-save k new s.apps, id_is);
            })
      ]
