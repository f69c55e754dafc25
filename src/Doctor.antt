-- ===== src/Doctor.antt =====
-- src/doctor.rs: the diagnostics, up to the boundary of the protected read.
pub mod Signature
pub mod Environment
pub mod Boundary
use kpexec.Prelude.{
  String, Bool, true, false, not, ◌&&◌, ◌||◌, Option, none, some, List, [], ◌∷◌, ◌++◌,
  if◌then◌else◌, map,
}
use kpexec.Error.{KpexecError, Result, ok, err, text, Message}
use kpexec.System.{Io, done, failed}
use kpexec.Keychain.{AclBinding, verified, unverified, account_for, VaultCredential}
use kpexec.Config.{Config, Places, ReadText, load_from}
use kpexec.Report.{Check, check_ok, check_warn, check_fail}
use kpexec.Check.{check_vault}
use kpexec.Vault.{Vault, raw_entries}
use kpexec.Vault.Open.{open_vault}
use kpexec.Machine.{Machine, Call, ◌>=>◌, used}
use kpexec.Machine.Files.{write, sync, remove, exists}
use kpexec.Db.{seeing}
use kpexec.Entry.{Setting}
use kpexec.Doctor.Signature.{CodeSignature, trusted_for_keychain, check_code_signature}
use kpexec.Doctor.Environment.{
  EnvText, Directories, policy_inject_names, check_env_files_for_names, nearby_env_names,
}

abbrev config_check : String → Config → List Check
config_check path cfg =
    if not cfg.file_present
    then check_warn
        (text "config " ∷ text path ∷ text " not found — run `kpexec init` (not initialized)" ∷ [])
      ∷ []
    else check_ok (text "config " ∷ text path ∷ text " parses" ∷ [])
      ∷ map
          (λ key. check_warn (text "config has unknown key `" ∷ text key ∷ text "` (ignored)" ∷ []))
          cfg.unknown_keys

abbrev pub check_config : String → Result Config → List Check
check_config path (ok cfg) = config_check path cfg
check_config path (err e) = check_fail (text "config: " ∷ e.message) ∷ []

abbrev pub db_path_of : Result Config → Option String
db_path_of (ok cfg) = cfg.db_path
db_path_of (err _) = none

abbrev path_check : Bool → String → Check
path_check true db = check_ok (text "db_path " ∷ text db ∷ text " exists" ∷ [])
path_check false db = check_fail (text "db_path " ∷ text db ∷ text " does not exist" ∷ [])

abbrev succeeded : {A : Type 0} → Io A → Bool
succeeded (done _) = true
succeeded (failed _) = false

abbrev log_check : Bool → String → Check
log_check true dir = check_ok (text "log dir " ∷ text dir ∷ text " is writable" ∷ [])
log_check false dir = check_fail (text "log dir " ∷ text dir ∷ text " is not writable" ∷ [])

abbrev pub acl_verified : Result AclBinding → Bool
acl_verified (ok verified) = true
acl_verified (ok unverified) = false
acl_verified (err _) = false

abbrev pub acl_check : Result AclBinding → Check
acl_check (ok verified) = check_ok (
    text
      "Keychain item has the singleton creator Team-ID partition and the current executable has the exact release identity"
    ∷ [])
acl_check (ok unverified) = check_fail (
    text
      "Keychain ACL provenance is absent or is not the singleton release Team-ID partition; protected credential read refused"
    ∷ [])
acl_check (err e) = check_fail (text "Keychain ACL inspection failed: " ∷ e.message)

abbrev no_vault : Check
no_vault = check_warn (
    text "Keychain ACL, vault, pin, and policy-driven .env checks skipped: no vault configured"
    ∷ [])

abbrev boundary : Check
boundary = check_warn (
    text
      "vault open, executable-pin, and policy-driven .env checks skipped because the protected-read boundary is not trusted"
    ∷ [])

module _ {Keys : Type 0} where
  abbrev pub check_db_path : Option String → Machine Keys → List Check
  check_db_path none s =
      check_warn (text "db_path not set in config — vault not initialized" ∷ []) ∷ []
  check_db_path (some db) s = path_check (exists db s) db ∷ []

  -- The directory is created and a probe is written, and then removed, whatever came of it.
  abbrev pub probing : String → Call Keys (Unit {0})
  probing probe = sync >=> write probe (112 ∷ 114 ∷ 111 ∷ 98 ∷ 101 ∷ [])

  unfoldable pub check_log_dir_writable : String → String → Machine Keys → List Check × Machine Keys
  check_log_dir_writable dir probe s =
      let (r, t) = probing probe s in (log_check (succeeded r) dir ∷ [], (remove probe t).1)

abbrev opened_check : Check
opened_check = check_ok (
    text "Keychain item exists, its protected db_path agrees with config, and the vault opens" ∷ [])

abbrev not_opened : Check
not_opened = check_warn (
    text "executable-pin and policy-driven .env checks skipped because the vault did not open" ∷ [])

module _ {Database Keys : Type 0} (env : Setting Database Keys) (places : Places)
    (read_text : String → ReadText) (names : EnvText) (dirs : Directories) where
  abbrev pub after_open : String → Option String → Result (Vault Database) → List Check
  after_open cwd home (ok vault) =
      opened_check ∷ check_vault env.kp env.sys env.json vault.db none
      ++ check_env_files_for_names (policy_inject_names env.json (raw_entries env.kp vault.db))
          (nearby_env_names names dirs cwd home)
  after_open cwd home (err e) =
      check_fail (text "Keychain/vault identity or openability check failed: " ∷ e.message)
      ∷ not_opened
      ∷ []

  -- The part behind the boundary.
  abbrev pub protected : String → Option String → String → Machine Keys → List Check
  protected cwd home vault_path s = after_open cwd home (
      open_vault (seeing env.format env.sys env.codec s) env.codec env.format.open_db
        (λ account. env.store.get account s.keys) vault_path (some vault_path))

  abbrev pub bounded : Bool → String → Option String → String → Machine Keys → List Check
  bounded true cwd home vault_path s = protected cwd home vault_path s
  bounded false cwd home vault_path s = boundary ∷ []

  abbrev pub with_vault :
      CodeSignature → String → Option String → Option String → Machine Keys → List Check
  with_vault signature cwd home none s = no_vault ∷ []
  with_vault signature cwd home (some vault_path) s =
      let acl = env.store.acl_binding (account_for env.sys env.codec vault_path) s.keys in
      acl_check acl
      ∷ bounded (trusted_for_keychain signature && acl_verified acl) cwd home vault_path s

  unfoldable pub run_full_with :
      String
      → String
      → String
      → Option String
      → CodeSignature
      → Machine Keys
      → List Check × Machine Keys
  run_full_with config_path log_dir cwd home signature s =
      let cfg = load_from places read_text config_path in
      let probe = places.join log_dir ".kpexec-doctor-probe" in
      let (log, t) = check_log_dir_writable log_dir probe s in
      (
        check_config config_path cfg
            ++ (check_db_path (db_path_of cfg) s
                ++ (log
                    ++ (check_code_signature signature
                        ++ with_vault signature cwd home (db_path_of cfg) t))),
        t,
      )
