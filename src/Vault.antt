-- ===== src/Vault.antt =====
-- src/vault.rs: the kpexec entries of an opened vault.
-- The database is that of the `keepass` crate, which is the parameter `Keepass`.
pub mod Open
pub mod Duplicated
pub mod Selection
pub mod Reading
pub mod Save
use kpexec.Prelude.{
  ℕ, String, Bool, true, false, not, ◌||◌, Option, none, some, List, [], ◌∷◌, map, ◌==◌, str_eq,
  if◌then◌else◌, length, ◌++◌,
}
use kpexec.Status.{unlock_failed, config_error, malformed_policy, unknown_entry}
use kpexec.Error.{
  KpexecError, Result, ok, err, fail, internal_err, ◌>>=◌, ◌>>◌, ok_or, Message, Piece, text, debug,
  number,
}
use kpexec.Duplicates.{duplicates}
use kpexec.Secret.{Secret}
use kpexec.Policy.{
  Policy, PolicyJson, Parsed, parsed, rejected, parse, to_json, field_id, field_policy,
}

-- `keepass::Database`, through `iter_all_entries`, the accessors of an entry by its id, and the
-- root group. `set` stands for `set_unprotected` and `set_protected`, which `get` does not tell
-- apart; `entry_mut` is whether `root_mut().entry_mut(id)` is `Some`.
pub record Keepass (Database : Type 0) : Type 0 where
  pub iter_all_entries : Database → List ℕ
  pub get : Database → ℕ → String → Option String
  pub add_entry : Database → ℕ × Database
  pub set : Database → ℕ → String → String → Database
  pub entry_mut : Database → ℕ → Bool
  pub remove : Database → ℕ → Database

abbrev pub title_field : String
title_field = "Title"

abbrev pub password_field : String
password_field = "Password"

pub record EntryView : Type 0 where
  pub id : String
  pub title : Option String
  pub policy : Policy
  pub has_secret : Bool

pub record RawEntry : Type 0 where
  pub id : String
  pub title : Option String
  pub policy_json : Option String
  pub has_secret : Bool

-- The vault beside its database: where it is, and the password of the next save.
pub record Vault (Database : Type 0) : Type 0 where
  pub db : Database
  pub path : String
  pub master : Secret

abbrev pub nonempty : Option String → Bool
nonempty none = false
nonempty (some p) = not (str_eq p "")

abbrev pub is_some_eq : Option String → String → Bool
is_some_eq none id = false
is_some_eq (some s) id = str_eq s id

-- `map_err` of a policy error.
abbrev pub or_malformed : Parsed Policy → Message → Result Policy
or_malformed (parsed p) before = ok p
or_malformed (rejected m) before = fail malformed_policy (before ++ m)

abbrev or_internal : Parsed String → Result String
or_internal (parsed s) = ok s
or_internal (rejected m) = err (internal_err (text "policy serialize: " ∷ m))

abbrev pub no_entry : String → KpexecError
no_entry id = record { status = unknown_entry; message = text "no entry with id " ∷ debug id ∷ [] }

abbrev pub entry_not_found : String → KpexecError
entry_not_found id = record {
  status = unknown_entry;
  message = text "entry " ∷ text id ∷ text " not found" ∷ [];
}

abbrev pub with_id : String → List RawEntry → List RawEntry
with_id id [] = []
with_id id (r ∷ rs) = if str_eq r.id id then r ∷ with_id id rs else with_id id rs

abbrev pub has_id : String → List RawEntry → Bool
has_id id [] = false
has_id id (r ∷ rs) = str_eq r.id id || has_id id rs

unfoldable pub view_of : PolicyJson → String → RawEntry → Result (Option EntryView)
view_of json id raw = do
  s ← ok_or raw.policy_json (record {
    status = malformed_policy;
    message = text "entry " ∷ text id ∷ text " has no kpexec.policy.v1 field" ∷ [];
  })
  policy ← or_malformed (parse json s) (text "entry " ∷ text id ∷ text ": " ∷ [])
  ok (
      some
        (record { id = raw.id; title = raw.title; policy = policy; has_secret = raw.has_secret }))

-- `match matches.len()`.
unfoldable pub found_entries : PolicyJson → String → List RawEntry → Result (Option EntryView)
unfolding view_of
found_entries json id [] = ok none
found_entries json id (raw ∷ []) = view_of json id raw
found_entries json id (raw ∷ other ∷ more) = fail malformed_policy (
    text "duplicate kpexec.id "
    ∷ debug id
    ∷ text " appears "
    ∷ number (length (raw ∷ other ∷ more))
    ∷ text " times; refusing (deny by default)"
    ∷ [])

unfoldable pub single_id : String → List ℕ → Result ℕ
single_id id [] = err (no_entry id)
single_id id (e ∷ []) = ok e
single_id id (e ∷ f ∷ more) = fail malformed_policy (
    text "duplicate kpexec.id "
    ∷ debug id
    ∷ text " appears "
    ∷ number (length (e ∷ f ∷ more))
    ∷ text " times; refusing"
    ∷ [])

abbrev no_secret : String → Result Secret
no_secret id =
    fail malformed_policy
      (text "entry " ∷ text id ∷ text " has no secret in its Password field" ∷ [])

abbrev pub secret_of : String → Option String → Result Secret
secret_of id none = no_secret id
secret_of id (some p) = if not (str_eq p "") then ok (record { expose = p }) else no_secret id

module _ {Database : Type 0} (kp : Keepass Database) where
  abbrev pub raw_entry : Database → ℕ → String → RawEntry
  raw_entry db e id = record {
    id = id;
    title = kp.get db e title_field;
    policy_json = kp.get db e field_policy;
    has_secret = nonempty (kp.get db e password_field);
  }

  -- The loop of `raw_entries`: an entry without an id is passed over.
  unfoldable pub raw_from : Database → List ℕ → List RawEntry
  raw_from db [] = []
  raw_from db (e ∷ es) = elim (kp.get db e field_id) [
    | none ↦ raw_from db es
    | some id ↦ raw_entry db e id ∷ raw_from db es
  ]

  unfoldable pub raw_entries : Database → List RawEntry
  unfolding raw_from
  raw_entries db = raw_from db (kp.iter_all_entries db)

  unfoldable pub duplicate_ids : Database → List String
  unfolding raw_entries duplicates
  duplicate_ids db = duplicates (map (λ r. r.id) (raw_entries db))

  unfoldable pub find_entry : PolicyJson → Database → String → Result (Option EntryView)
  unfolding raw_entries found_entries
  find_entry json db id = found_entries json id (with_id id (raw_entries db))

  -- The loop of `entry_id_of`.
  unfoldable pub ids_from : Database → String → List ℕ → List ℕ
  ids_from db id [] = []
  ids_from db id (e ∷ es) =
      if is_some_eq (kp.get db e field_id) id then e ∷ ids_from db id es else ids_from db id es

  unfoldable pub entry_id_of : Database → String → Result ℕ
  unfolding ids_from single_id
  entry_id_of db id = single_id id (ids_from db id (kp.iter_all_entries db))

  -- The loop of `read_secret`.
  unfoldable pub secret_from : Database → String → ℕ → List ℕ → Result Secret
  secret_from db id entry_id [] = err (entry_not_found id)
  secret_from db id entry_id (e ∷ es) =
      let rest = secret_from db id entry_id es in
      if e == entry_id then secret_of id (kp.get db e password_field) else rest

  unfoldable pub read_secret : Database → String → Result Secret
  unfolding entry_id_of secret_from
  read_secret db id = do
    entry_id ← entry_id_of db id
    secret_from db id entry_id (kp.iter_all_entries db)

  unfoldable pub contains : Database → String → Bool
  unfolding raw_entries
  contains db id = has_id id (raw_entries db)

  -- The four `set` calls on the entry that `add_entry` made.
  unfoldable pub insert_entry :
      PolicyJson → Database → String → String → Secret → Policy → Result Database
  insert_entry json db id title secret policy = do
    s ← or_internal (to_json json policy)
    let (e, db₁) = kp.add_entry db
    let db₂ = kp.set db₁ e title_field title
    let db₃ = kp.set db₂ e password_field secret.expose
    let db₄ = kp.set db₃ e field_id id
    ok (kp.set db₄ e field_policy s)

  unfoldable pub with_entry_mut : Database → String → (ℕ → Database) → Result Database
  unfolding entry_id_of
  with_entry_mut db id f = do
    entry_id ← entry_id_of db id
    if kp.entry_mut db entry_id then ok (f entry_id) else err (entry_not_found id)

  unfoldable pub update_policy : PolicyJson → Database → String → Policy → Result Database
  unfolding with_entry_mut
  update_policy json db id policy = do
    s ← or_internal (to_json json policy)
    with_entry_mut db id (λ e. kp.set db e field_policy s)

  unfoldable pub update_secret : Database → String → Secret → Result Database
  unfolding with_entry_mut
  update_secret db id secret = with_entry_mut db id (λ e. kp.set db e password_field secret.expose)

  unfoldable pub remove_entry : Database → String → Result Database
  unfolding entry_id_of
  remove_entry db id = do
    entry_id ← entry_id_of db id
    if kp.entry_mut db entry_id then ok (kp.remove db entry_id) else err (entry_not_found id)
