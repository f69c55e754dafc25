-- ===== src/Init.antt =====
-- src/cmd_init.rs: the creation or adoption of a vault, with the Keychain item and the configuration.
pub mod Guard
use Prim.Native.String.{◌++◌ as push_str}
use kpexec.Prelude.{
  ℕ, ◌*◌, String, Bool, true, false, not, ◌&&◌, Option, none, some, List, [], ◌∷◌, ◌++◌,
  if◌then◌else◌,
}
use kpexec.Status.{success, config_error, unlock_failed, Outcome, kpexec_level}
use kpexec.Error.{KpexecError, Result, ok, err, fail, internal_err, config_err, text, Message}
use kpexec.Output.Bytes.{Bytes}
use kpexec.System.{System, Io, done, failed}
use kpexec.Secret.{Secret}
use kpexec.Keychain.{VaultCredential, KeychainStore, account_for}
use kpexec.Config.{Places, default_vault_path, default_timeout}
use kpexec.Cli.{InitArgs}
use kpexec.Kdf.{calibrate_iterations, available_parallelism}
use kpexec.Vault.{Vault}
use kpexec.Vault.Open.{canonical_or_lexical}
use kpexec.Vault.Save.{save_atomic}
use kpexec.Machine.{
  Machine, Act, Call, pure, raise, from_result, ◌>>=◌, ◌>>◌, print, attempt, ignore, recover,
  read_input, used,
}
use kpexec.Machine.Files.{write, sync, remove, look, exists, Found, found, not_found, read_failed}
use kpexec.Db.{open_now}
use kpexec.Db.Restore.{set_now}
use kpexec.Entry.{Setting}
use kpexec.Prompt.{because}

-- `Path::parent` and `Path::file_name`, `Database::new` with the default and with calibrated parameters,
-- the timing of a run with a number of lanes, `thread::available_parallelism`, the text of `{:?}` and of a
-- number, and the system as it answers once the vault is there.
pub record InitWorld (Database : Type 0) : Type 0 where
  pub parent : String → Option String
  pub file_name : String → Option String
  pub new_db : Database
  pub new_db_with_kdf : ℕ → ℕ → ℕ → Database
  pub measure : ℕ → ℕ → Result ℕ
  pub processors : Result ℕ
  pub debug_text : String → String
  pub number_text : ℕ → String
  pub later : System

abbrev memory_bytes : ℕ
memory_bytes = 64 * 1024 * 1024

abbrev pub backup_path : String → String
backup_path path = push_str path ".bak"

abbrev pub refuse : Message → KpexecError
refuse m = config_err m

pub data FileSnapshot : Type 0 where
  missing_file : FileSnapshot
  present : Bytes → FileSnapshot

abbrev snapshot_of : String → Found → Result FileSnapshot
snapshot_of path (found bytes) = ok (present bytes)
snapshot_of path not_found = ok missing_file
snapshot_of path (read_failed e) =
    err (internal_err (text "cannot snapshot " ∷ text path ∷ text " before init: " ∷ text e ∷ []))

abbrev is_some : Option VaultCredential → Bool
is_some none = false
is_some (some _) = true

abbrev pub refuse_if : Bool → KpexecError → Result (Unit {0})
refuse_if occupied e = if occupied then err e else ok tt

module _ {Keys : Type 0} where
  abbrev pub capture : String → Act Keys FileSnapshot
  capture path s = (snapshot_of path (look path s), used s)

  -- Without a snapshot of a file that `init` does not own.
  abbrev pub capture_unless : Bool → String → Act Keys (Option FileSnapshot)
  capture_unless true path = pure none
  capture_unless false path = capture path >>= λ snapshot. pure (some snapshot)

  abbrev pub restore : String → FileSnapshot → Call Keys (Unit {0})
  restore path missing_file = remove path
  restore path (present bytes) = write path bytes

  abbrev pub restore_some : String → Option FileSnapshot → Act Keys (Unit {0})
  restore_some path none = pure tt
  restore_some path (some snapshot) = ignore (restore path snapshot)

  -- `exists()`, and the refusal it leads to.
  abbrev refuse_existing : Bool → String → KpexecError → Act Keys (Unit {0})
  refuse_existing asked path e s = (refuse_if (asked && exists path s) e, s)

module _ {Database Keys : Type 0} (env : Setting Database Keys) (world : InitWorld Database) where
  -- The loop upwards: the names that are left behind, the last one first.
  abbrev pushed : String → List String → String
  pushed path [] = path
  pushed path (name ∷ names) = pushed (env.sys.push path name) names

  abbrev named_or : Option String → (String → String) → String → String
  named_or none f lexical = lexical
  named_or (some name) f lexical = f name

  abbrev found_or : Io String → (String → String) → String → String
  found_or (done canonical) f otherwise = f canonical
  found_or (failed _) f otherwise = otherwise

  unfoldable pub upwards : String → List String → List String → String
  upwards lexical [] missing = lexical
  upwards lexical (candidate ∷ []) missing =
      found_or (env.sys.canonicalize candidate) (λ c. pushed c missing) lexical
  upwards lexical (candidate ∷ parent ∷ parents) missing =
      let above : String → String = λ name. upwards lexical (parent ∷ parents) (name ∷ missing) in
      found_or (env.sys.canonicalize candidate) (λ c. pushed c missing)
        (named_or (world.file_name candidate) above lexical)

  unfoldable pub prospective_canonical : Bool → String → String
  prospective_canonical there path =
      if there
      then canonical_or_lexical env.sys path
      else (let lexical = canonical_or_lexical env.sys path in
          upwards lexical (env.sys.ancestors lexical) [])

  abbrev pub item_exists : KpexecError
  item_exists =
      refuse (text "a Keychain item for this vault already exists; pass --force to replace it" ∷ [])

  abbrev refuse_item : Bool → Option VaultCredential → Result (Option VaultCredential)
  refuse_item force existing =
      if not force && is_some existing then err item_exists else ok existing

  abbrev pub item_checked : Bool → Result (Option VaultCredential) → Result (Option VaultCredential)
  item_checked force (err e) = err e
  item_checked force (ok existing) = refuse_item force existing

  abbrev pub vault_exists : String → KpexecError
  vault_exists path = refuse (
      text "vault "
      ∷ text path
      ∷ text " already exists; pass --force to overwrite or --use-existing to adopt it"
      ∷ [])

  abbrev pub config_exists : String → KpexecError
  config_exists path =
      refuse (text "config " ∷ text path ∷ text " already exists; pass --force to overwrite" ∷ [])

  unfoldable pub guard_clobber :
      InitArgs → String → String → String → Act Keys (Option VaultCredential)
  guard_clobber args vault_path account config_path =
      refuse_existing (not args.force && not args.use_existing) vault_path (vault_exists vault_path)
      >> (refuse_existing (not args.force) config_path (config_exists config_path) >> λ s.
          (item_checked args.force (env.store.get account s.keys), s))

  abbrev new_vault : String → Secret → Database → Vault Database
  new_vault path master db = record { db = db; path = path; master = master }

  abbrev lanes : ℕ
  lanes = available_parallelism world.processors

  -- `calibrate_argon2id`, and the database with what it comes to.
  abbrev fresh_db : Bool → Result Database
  fresh_db false = ok world.new_db
  fresh_db true =
      kpexec.Error.◌>>=◌ (calibrate_iterations (λ n. world.measure n lanes))
        λ n. ok (world.new_db_with_kdf n memory_bytes lanes)

  unfoldable pub create_new : String → Bool → Secret → Act Keys Secret
  create_new vault_path calibrate_kdf generated = from_result (fresh_db calibrate_kdf) >>= λ db.
      (save_atomic env.format (new_vault vault_path generated db) >> pure generated)

  abbrev of_prompt : Io String → Result String
  of_prompt (done s) = ok s
  of_prompt (failed e) = err (because (text "hidden prompt failed" ∷ []) e)

  abbrev existing_password : Bool → Act Keys Secret
  existing_password true =
      attempt read_input (λ e. raise (because (text "reading password from stdin" ∷ []) e))
      >>= λ line. pure (record { expose = env.term.trim_line_end line })
  existing_password false =
      from_result (of_prompt (env.term.prompt_password "Existing vault password: ")) >>= λ raw.
      pure (record { expose = raw })

  abbrev password_if : Result (Vault Database) → Secret → Result Secret
  password_if (ok _) password = ok password
  password_if (err _) password =
      fail unlock_failed (text "the supplied password did not open the existing vault" ∷ [])

  -- The password has to open the file.
  abbrev verify_password : String → Secret → Act Keys Secret
  verify_password vault_path password s =
      let cred : VaultCredential = record {
        password = password;
        db_path = canonical_or_lexical env.sys vault_path;
      } in
      let (r, t) = open_now env.format env.sys env.codec vault_path cred none s in
      (password_if r password, t)

  abbrev no_file : String → KpexecError
  no_file path = record {
    status = config_error;
    message = text "--use-existing given but " ∷ text path ∷ text " does not exist" ∷ [];
  }

  abbrev require_file : String → Act Keys (Unit {0})
  require_file path s = ((if exists path s then ok tt else err (no_file path)), s)

  unfoldable pub adopt_existing : InitArgs → String → Act Keys Secret
  adopt_existing args vault_path =
      require_file vault_path
      >> (existing_password args.password_stdin >>= verify_password vault_path)

  abbrev dir_error : String → String → KpexecError
  dir_error dir e =
      config_err (text "cannot create config dir " ∷ text dir ∷ text ": " ∷ text e ∷ [])

  abbrev make_dir : Option String → Act Keys (Unit {0})
  make_dir none = pure tt
  make_dir (some dir) = attempt sync (λ e. raise (dir_error dir e))

  abbrev config_text : String → String
  config_text canonical =
      push_str "# ~/.config/kpexec/config.toml — untrusted hints only; never secrets\ndb_path = " (
        push_str (world.debug_text canonical)
          (push_str "\ndefault_timeout_sec = " (push_str (world.number_text default_timeout) "\n")))

  abbrev not_written : String → Act Keys (Unit {0})
  not_written e = raise (config_err (text "cannot write config: " ∷ text e ∷ []))

  unfoldable pub write_config : String → String → Act Keys (Unit {0})
  write_config config_path canonical =
      make_dir (world.parent config_path)
      >> attempt (write config_path (env.codec.as_bytes (config_text canonical))) not_written

  abbrev print_all : List Message → Act Keys (Unit {0})
  print_all [] = pure tt
  print_all (line ∷ lines) = print line >> print_all lines

  unfoldable pub print_recovery_key : Secret → String → Act Keys (Unit {0})
  print_recovery_key master vault_path = print_all (
      (text "kpexec initialized vault: " ∷ text vault_path ∷ [])
      ∷ []
      ∷ (text "RECOVERY KEY (shown once — store it OUTSIDE the agent's reach):" ∷ [])
      ∷ []
      ∷ (text "    " ∷ text master.expose ∷ [])
      ∷ []
      ∷ (text "Save this in a personal password manager or on paper. Do NOT put it" ∷ [])
      ∷ (text "in a file under your home directory or any repo the agent can read." ∷ [])
      ∷ (text "`kpexec db show-password` (Touch ID gated) can re-display it while the" ∷ [])
      ∷ (text "Keychain item is intact; without either, a lost Keychain means an" ∷ [])
      ∷ (text "unrecoverable vault." ∷ [])
      ∷ [])

  -- The Keychain as it was: the previous item again, or none.
  abbrev item_back : String → Option VaultCredential → Act Keys (Unit {0})
  item_back account (some credential) s = (ok tt, (set_now env.store account credential s).1)
  item_back account none s = (ok tt, record s { keys = (env.store.delete account s.keys).1 })

  -- What fails here is only noted in the log.
  unfoldable pub rollback_init :
      String
      → Option VaultCredential
      → String
      → Option FileSnapshot
      → String
      → Option FileSnapshot
      → Option FileSnapshot
      → Act Keys (Unit {0})
  rollback_init account previous config_path config vault_path vault backup =
      restore_some config_path config
      >> (item_back account previous
          >> (restore_some vault_path vault >> restore_some (backup_path vault_path) backup))

  abbrev pub obtain : InitArgs → String → Bool → Secret → Act Keys Secret
  obtain args vault_path calibrate_kdf generated =
      if args.use_existing
      then adopt_existing args vault_path
      else create_new vault_path calibrate_kdf generated

  -- What is kept for the rollback.
  pub record Kept : Type 0 where
    pub account : String
    pub previous : Option VaultCredential
    pub vault : Option FileSnapshot
    pub backup : Option FileSnapshot
    pub config : FileSnapshot

  abbrev pub keep : InitArgs → String → String → Option VaultCredential → String → Act Keys Kept
  keep args vault_path account previous config_path =
      capture_unless args.use_existing vault_path >>= λ vault.
      capture_unless args.use_existing (backup_path vault_path) >>= λ backup.
      capture config_path >>= λ config. pure (record {
        account = account;
        previous = previous;
        vault = vault;
        backup = backup;
        config = config;
      })

  -- `init` takes back what it has changed, and returns the error.
  unfoldable pub give_up :
      {A : Type 0} → Kept → String → String → Option FileSnapshot → KpexecError → Act Keys A
  give_up kept config_path vault_path config e =
      rollback_init kept.account kept.previous config_path config vault_path kept.vault kept.backup
      >> raise e

  -- The Keychain item and the configuration, each taken back with the rest where it fails.
  unfoldable pub publish : String → String → Kept → Secret → Act Keys Outcome
  publish config_path vault_path kept master =
      let canonical = canonical_or_lexical world.later vault_path in
      let credential : VaultCredential = record { password = master; db_path = canonical } in
      recover (set_now env.store kept.account credential) (give_up kept config_path vault_path none)
      >> (recover (write_config config_path canonical)
            (give_up kept config_path vault_path (some kept.config))
          >> (print_recovery_key master canonical >> pure (kpexec_level success)))

  abbrev pub chosen : Option Secret → Act Keys Secret → Act Keys Secret
  chosen none otherwise = otherwise
  chosen (some master) otherwise = pure master

  abbrev pub account_of : String → Machine Keys → String
  account_of vault_path s =
      account_for env.sys env.codec (prospective_canonical (exists vault_path s) vault_path)

  unfoldable pub init_at :
      InitArgs → String → Bool → Option Secret → Secret → String → Act Keys Outcome
  init_at args config_path calibrate_kdf master_override generated vault_path s =
      let account = account_of vault_path s in
      (guard_clobber args vault_path account config_path >>= λ previous.
      keep args vault_path account previous config_path >>= λ kept.
      chosen master_override (obtain args vault_path calibrate_kdf generated) >>= λ master.
      publish config_path vault_path kept master)
        s

  abbrev pub vault_path_of : Places → Option String → Result String
  vault_path_of places none = default_vault_path places
  vault_path_of places (some p) = ok p

  unfoldable pub run_internal :
      Places → InitArgs → String → Bool → Option Secret → Secret → Act Keys Outcome
  run_internal places args config_path calibrate_kdf master_override generated =
      from_result (vault_path_of places args.db)
      >>= init_at args config_path calibrate_kdf master_override generated

  unfoldable pub run_with : Places → InitArgs → String → Secret → Act Keys Outcome
  run_with places args config_path = run_internal places args config_path false none
