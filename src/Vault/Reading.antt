-- ===== src/Vault/Reading.antt =====
-- src/vault.rs: which parts of a database the reading of a secret depends on, and what it reads after
-- the secret has been replaced.
use kpexec.Prelude.{
  ℕ, ◌==◌, ◌≡◌, ◌≢◌, refl, String, true, false, Bool, Option, some, List, [], ◌∷◌, arith, In,
  Bool-cases, inl, inr, ap, sym, ◌∙◌, subst, if◌then◌else◌,
}
use kpexec.Error.{ok, err, >>=-eq-ok, Result-cases}
use kpexec.Secret.{Secret}
use kpexec.Policy.{field_id}
use kpexec.Vault.{
  Keepass, ids_from, entry_id_of, single_id, read_secret, secret_from, secret_of, password_field,
  with_entry_mut, update_secret, is_some_eq, entry_not_found,
}
use kpexec.Vault.Selection.{In-ids_from, single_id-ok}
use kpexec.Machine.Frames.{str_eq-false, str_ne}

-- What the `keepass` crate promises of the setting of a field.
pub record KeepassLaws {Database : Type 0} (kp : Keepass Database) : Type 0 where
  pub iter-set :
      (db : Database) (e : ℕ) (f v : String)
      → kp.iter_all_entries (kp.set db e f v) ≡ kp.iter_all_entries db
  pub get-set :
      (db : Database) (e : ℕ) (f v : String)
      → In e (kp.iter_all_entries db)
      → kp.get (kp.set db e f v) e f ≡ some v
  pub get-set_entry :
      (db : Database) (e x : ℕ) (f g v : String)
      → e ≢ x
      → kp.get (kp.set db e f v) x g ≡ kp.get db x g
  pub get-set_field :
      (db : Database) (e x : ℕ) (f g v : String)
      → f ≢ g
      → kp.get (kp.set db e f v) x g ≡ kp.get db x g

some_inj : {a b : String} → Option.some a ≡ some b → a ≡ b
some_inj h = cc

secret_of-some : (id : String) (s : Secret) → s.expose ≢ "" → secret_of id (some s.expose) ≡ ok s
secret_of-some id s n = rw (str_ne s.expose "" n) (refl)

module _ {Database : Type 0} (kp : Keepass Database) where
  -- The same entries with the same fields.
  abbrev pub SameContent : Database → Database → Type 0
  SameContent db db' =
      (kp.iter_all_entries db ≡ kp.iter_all_entries db')
      × ((e : ℕ) (f : String) → kp.get db e f ≡ kp.get db' e f)

  ids_from-same :
      (db db' : Database) (id : String) (es : List ℕ)
      → ((e : ℕ) → kp.get db e field_id ≡ kp.get db' e field_id)
      → ids_from kp db id es ≡ ids_from kp db' id es
  unfolding ids_from
  ids_from-same db db' id [] g = refl
  ids_from-same db db' id (e ∷ es) g =
      ap (λ o. if is_some_eq o id then e ∷ ids_from kp db id es else ids_from kp db id es) (g e)
      ∙ ap (λ r. if is_some_eq (kp.get db' e field_id) id then e ∷ r else r)
          (ids_from-same db db' id es g)

  entry_id_of-same :
      (db db' : Database) (id : String)
      → kp.iter_all_entries db ≡ kp.iter_all_entries db'
      → ((e : ℕ) → kp.get db e field_id ≡ kp.get db' e field_id)
      → entry_id_of kp db id ≡ entry_id_of kp db' id
  unfolding entry_id_of
  entry_id_of-same db db' id i g =
      ap (single_id id)
        (ids_from-same db db' id (kp.iter_all_entries db) g ∙ ap (ids_from kp db' id) i)

  pub entry_id_of-ok :
      (db : Database) (id : String) (e : ℕ)
      → entry_id_of kp db id ≡ ok e
      → In e (kp.iter_all_entries db) × (kp.get db e field_id ≡ some id)
  unfolding entry_id_of
  entry_id_of-ok db id e h =
      let only = single_id-ok id (ids_from kp db id (kp.iter_all_entries db)) h in
      (In-ids_from kp db id (kp.iter_all_entries db) e).0 (subst (In e) (sym only) (inl refl))

  secret_from-In :
      (db : Database) (id : String) (e : ℕ) (es : List ℕ)
      → In e es
      → secret_from kp db id e es ≡ secret_of id (kp.get db e password_field)
  unfolding secret_from
  secret_from-In db id e (f ∷ es) i = elim (Bool-cases (f == e)) [
    | inl same ↦
        let k : f ≡ e = ground arith in
        rw same (ap (λ x. secret_of id (kp.get db x password_field)) k)
    | inr other ↦
        rw other (secret_from-In db id e es (elim i [ inl q ↦ absurd (ground arith) | inr j ↦ j ]))
  ]
  secret_from-In db id e [] i = elim i [ ]

  read_secret_lem :
      (db : Database) (id : String) (e : ℕ)
      → entry_id_of kp db id ≡ ok e
      → read_secret kp db id ≡ secret_of id (kp.get db e password_field)
  unfolding read_secret
  read_secret_lem db id e h =
      rw h (secret_from-In db id e (kp.iter_all_entries db) (entry_id_of-ok db id e h).0)

  -- The reading depends on the ids and on the password of the entry of the id.
  pub read_secret-same :
      (db db' : Database) (id : String)
      → kp.iter_all_entries db ≡ kp.iter_all_entries db'
      → ((e : ℕ) → kp.get db e field_id ≡ kp.get db' e field_id)
      → ((e : ℕ)
          → kp.get db e field_id ≡ some id
          → kp.get db e password_field ≡ kp.get db' e password_field)
      → read_secret kp db id ≡ read_secret kp db' id
  unfolding read_secret
  read_secret-same db db' id i g p =
      let same = entry_id_of-same db db' id i g in
      elim (Result-cases (entry_id_of kp db id)) [
        | inl (e, h) ↦
            read_secret_lem db id e h
            ∙ ap (secret_of id) (p e (entry_id_of-ok db id e h).1)
            ∙ sym (read_secret_lem db' id e (sym same ∙ h))
        | inr (x, h) ↦ rw (h, sym same ∙ h)
      ]

  -- What changing an entry does: the id has one entry, and the function is applied to it.
  with_entry_mut-ok :
      (db db' : Database) (id : String) (f : ℕ → Database)
      → with_entry_mut kp db id f ≡ ok db'
      → (e : ℕ) × (entry_id_of kp db id ≡ ok e) × (f e ≡ db')
  unfolding with_entry_mut
  with_entry_mut-ok db db' id f h =
      let (e, k, g) =
        >>=-eq-ok (entry_id_of kp db id)
          (λ e. if kp.entry_mut db e then ok (f e) else err (entry_not_found id)) h in
      (e, k, go (kp.entry_mut db e) g)
    where
      go :
          {d : Database} (b : Bool)
          → (if b then ok d else err (entry_not_found id)) ≡ ok db'
          → d ≡ db'
      go true h = cc
      go false h = cc

  -- Let the `keepass` crate keep its promises. After the secret of an entry has been replaced, the new
  -- secret, if it is not empty, is what is read for its id, and what is read for any other id is what
  -- was before.
  pub update_secret-read :
      (laws : KeepassLaws kp) (db db' : Database) (id : String) (secret : Secret)
      → secret.expose ≢ ""
      → update_secret kp db id secret ≡ ok db'
      → (read_secret kp db' id ≡ ok secret)
        × ((other : String) → other ≢ id → read_secret kp db' other ≡ read_secret kp db other)
  unfolding update_secret
  update_secret-read laws db db' id secret n h =
      let set : ℕ → Database = λ e. kp.set db e password_field secret.expose in
      let (e, k, q) = with_entry_mut-ok db db' id set h in
      let (i, own) = entry_id_of-ok db id e k in
      let differ : password_field ≢ field_id = str_eq-false password_field field_id refl in
      let ids : (x : ℕ) → kp.get (set e) x field_id ≡ kp.get db x field_id =
        λ x. laws.get-set_field db e x password_field field_id secret.expose differ in
      let iter = laws.iter-set db e password_field secret.expose in
      subst
        (λ d.
          (read_secret kp d id ≡ ok secret)
          × ((other : String) → other ≢ id → read_secret kp d other ≡ read_secret kp db other))
        q
        (
          read_secret_lem (set e) id e (entry_id_of-same (set e) db id iter ids ∙ k)
              ∙ ap (secret_of id) (laws.get-set db e password_field secret.expose i)
              ∙ secret_of-some id secret n,
          λ other m. read_secret-same (set e) db other iter ids (λ x g.
              laws.get-set_entry db e x password_field password_field secret.expose (λ same.
                m (some_inj (sym g ∙ ids x ∙ ap (λ y. kp.get db y field_id) (sym same) ∙ own)))),
        )
