-- ===== src/Vault/Open.antt =====
-- src/vault.rs: opening a vault, bound to the path that its Keychain item blesses.
use kpexec.Prelude.{String, Option, none, some, List, [], ◌∷◌, ◌++◌, str_eq, if◌then◌else◌, not}
pub mod Binding
use kpexec.Status.{unlock_failed, config_error}
use kpexec.Error.{Result, ok, fail, ◌>>=◌, ◌>>◌, ok_or, Message, text}
use kpexec.Output.Bytes.{Bytes}
use kpexec.Output.Variants.{Codec}
use kpexec.System.{System, Io, done, failed, Component, cur_dir, parent_dir, other}
use kpexec.Keychain.{VaultCredential, Lookup, unwrap_or, account_for}
use kpexec.Vault.{Vault}

-- `Database::open`: the bytes of the file and the password.
abbrev pub OpenDatabase : Type 0 → Type 0
OpenDatabase Database = Bytes → String → Io Database

module _ (sys : System) where
  normalize_from : String → List Component → String
  normalize_from out [] = out
  normalize_from out (cur_dir ∷ cs) = normalize_from out cs
  normalize_from out (parent_dir ∷ cs) = normalize_from (sys.pop out) cs
  normalize_from out (other c ∷ cs) = normalize_from (sys.push out c) cs

  lexical_normalize : String → String
  unfolding normalize_from
  lexical_normalize path =
      normalize_from (if sys.is_absolute path then "" else unwrap_or sys.current_dir "/")
        (sys.components path)

  unfoldable pub canonical_or_lexical : String → String
  unfolding lexical_normalize
  canonical_or_lexical path = unwrap_or (sys.canonicalize path) (lexical_normalize path)

-- `map_err` to a failed unlock: the message, then the reason.
abbrev or_unlock_failed : {A : Type 0} → Io A → Message → Result A
or_unlock_failed (done a) before = ok a
or_unlock_failed (failed e) before = fail unlock_failed (before ++ (text ": " ∷ text e ∷ []))

module _ {Database : Type 0} (sys : System) (codec : Codec) (open_db : OpenDatabase Database) where
  abbrev agree : String → String → Message → Result (Unit {0})
  agree a b m = if not (str_eq a b) then fail config_error m else ok tt

  -- The hint of the configuration, if there is one, must name the blessed vault.
  abbrev check_hint : Option String → String → Result (Unit {0})
  check_hint none blessed = ok tt
  check_hint (some hint) blessed =
      let hint_canon = canonical_or_lexical sys hint in
      agree hint_canon blessed (
        text "config db_path "
        ∷ text hint_canon
        ∷ text " disagrees with the Keychain-blessed vault "
        ∷ text blessed
        ∷ [])

  abbrev cannot_unlock : Message
  cannot_unlock = text "cannot unlock vault (wrong password or corrupt file)" ∷ []

  -- `Database::open` reads the file, so that a file that opens and cannot be read fails with it.
  abbrev open_failure : String → Message
  open_failure path =
      if sys.opens path then cannot_unlock else text "cannot open vault " ∷ text path ∷ []

  unfoldable pub open_with_credential :
      String → VaultCredential → Option String → Result (Vault Database)
  unfolding canonical_or_lexical
  open_with_credential path cred config_hint = do
    let requested = canonical_or_lexical sys path
    let blessed = canonical_or_lexical sys cred.db_path
    agree requested blessed (
        text "vault identity mismatch: Keychain item blesses "
        ∷ text blessed
        ∷ text " but "
        ∷ text requested
        ∷ text " was requested"
        ∷ [])
    check_hint config_hint blessed
    file ← or_unlock_failed (sys.read path) (open_failure path)
    db ← or_unlock_failed (open_db file cred.password.expose) cannot_unlock
    ok (record { db = db; path = path; master = cred.password })

  unfoldable pub open_vault : Lookup → String → Option String → Result (Vault Database)
  unfolding open_with_credential account_for
  open_vault get path config_hint = do
    found ← get (account_for sys codec path)
    cred ← ok_or found (record {
      status = unlock_failed;
      message =
          text "no Keychain item for vault " ∷ text path ∷ text " — run `kpexec init` first" ∷ [];
    })
    open_with_credential path cred config_hint
