-- ===== src/Db/Rotate.antt =====
-- src/cmd_db.rs: `rotate_password_with_generator` and `show_password_with`.
pub mod Stages
pub mod Safe
pub mod Ends
use kpexec.Prelude.{
  String, Bool, true, false, not, ◌||◌, Option, none, some, List, [], ◌∷◌, ◌++◌, str_eq,
  if◌then◌else◌,
}
use kpexec.Status.{KpexecStatus, success, unlock_failed, Outcome, kpexec_level}
use kpexec.Error.{KpexecError, Result, ok, err, internal_err, text, Message}
use kpexec.Output.Bytes.{Bytes}
use kpexec.System.{System}
use kpexec.Output.Variants.{Codec}
use kpexec.Keychain.{VaultCredential, KeychainStore, account_for}
use kpexec.Secret.{Secret}
use kpexec.Vault.{Vault}
use kpexec.Vault.Save.{Format, save_atomic}
use kpexec.Machine.{Machine, Act, Call, pure, raise, from_result, ◌>>=◌, ◌>>◌, attempt, recover}
use kpexec.Machine.Files.{read}
use kpexec.Db.{get_credential, open_now, restore_file_atomic, write_recovery_key}
use kpexec.Db.Restore.{BackupSnapshot, capture, restore_files, rollback_rotation, set_now}

abbrev gone : KpexecError
gone = record {
  status = unlock_failed;
  message = text "Keychain item disappeared immediately after password rotation" ∷ [];
}

abbrev not_retained : KpexecError
not_retained = record {
  status = unlock_failed;
  message = text "Keychain did not retain the rotated vault credential" ∷ [];
}

abbrev pub retained : VaultCredential → Result (Option VaultCredential) → Result (Unit {0})
retained expected (err e) = err e
retained expected (ok none) = err gone
retained expected (ok (some stored)) =
    if not (str_eq stored.db_path expected.db_path)
      || not (str_eq stored.password.expose expected.password.expose)
    then err not_retained
    else ok tt

abbrev pub no_snapshot : String → String → KpexecError
no_snapshot vault_path e = internal_err (
    text "cannot snapshot vault "
    ∷ text vault_path
    ∷ text " before password rotation: "
    ∷ text e
    ∷ [])

abbrev pub unchanged_password : KpexecError
unchanged_password =
    internal_err (text "password generator returned the existing vault password" ∷ [])

abbrev pub recovery_text : Message
recovery_text = text "); vault recovery may be required" ∷ []

-- The error after a rollback that failed too.
abbrev pub beyond_rollback : Message → KpexecError → Message → KpexecError → KpexecError
beyond_rollback what e rollback rollback_error = internal_err (
    (what ++ text " (" ∷ e.message ++ rollback ++ text " (" ∷ rollback_error.message)
    ++ recovery_text)

-- What is returned after a rollback, by how it ended.
abbrev pub ended :
    {A : Type 0} → Result (Unit {0}) → KpexecError → (KpexecError → KpexecError) → Result A
ended (ok _) e beyond = err e
ended (err x) e beyond = err (beyond x)

module _ {Keys : Type 0} where
  abbrev pub after_rollback :
      {A : Type 0} → Act Keys (Unit {0}) → KpexecError → (KpexecError → KpexecError) → Act Keys A
  after_rollback rollback e beyond s = let (r, t) = rollback s in (ended r e beyond, t)

  unfoldable pub set_and_verify :
      KeychainStore Keys → String → VaultCredential → Act Keys (Unit {0})
  set_and_verify store account expected =
      set_now store account expected >> λ s. (retained expected (store.get account s.keys), s)

  abbrev pub snapshot : String → Act Keys Bytes
  snapshot vault_path = attempt (read vault_path) λ e. raise (no_snapshot vault_path e)

abbrev rolled_text : Message
rolled_text = text "password rotation was rolled back because the Keychain update failed: " ∷ []

abbrev backup_text : Message
backup_text =
    text "password rotation was rolled back because the encrypted backup could not be updated: "
    ∷ []

abbrev rolled : KpexecError → KpexecError
rolled e = record { status = e.status; message = rolled_text ++ e.message }

abbrev backup_rolled : KpexecError → KpexecError
backup_rolled e = internal_err (backup_text ++ e.message)

abbrev also_text : Message
also_text = text "); rollback also failed" ∷ []

abbrev pub not_displayed : KpexecError → KpexecError
not_displayed e = internal_err (
    text
        "vault password was rotated successfully, but the new recovery key could not be fully displayed ("
      ∷ e.message
    ++ (text "); run `kpexec db show-password` to display it" ∷ []))

abbrev pub unreadable : String → String → KpexecError
unreadable vault_path e =
    internal_err
      (text "cannot read newly encrypted vault " ∷ text vault_path ∷ text ": " ∷ text e ∷ [])

-- `Vault::set_master_password`.
abbrev pub set_master_password : {Database : Type 0} → Vault Database → Secret → Vault Database
set_master_password vault password = record vault { master = password }

-- What the rotation has read before it changes anything, and the new password.
pub record Rotation (Database : Type 0) : Type 0 where
  pub vault : Vault Database
  pub account : String
  pub old_credential : VaultCredential
  pub original_vault : Bytes
  pub backup : BackupSnapshot
  pub new_password : Secret

abbrev pub new_credential : {Database : Type 0} → Rotation Database → VaultCredential
new_credential r = record { password = r.new_password; db_path = r.old_credential.db_path }

module _ {Database Keys : Type 0} (store : KeychainStore Keys) (format : Format Database)
    (vault_path : String) where
  abbrev pub files_back : Rotation Database → Act Keys (Unit {0})
  files_back r = restore_files vault_path r.original_vault r.backup

  abbrev pub all_back : Rotation Database → Act Keys (Unit {0})
  all_back r =
      rollback_rotation store vault_path r.original_vault r.backup r.account r.old_credential

  abbrev pub save_new : Rotation Database → Act Keys (Unit {0})
  save_new r = recover (save_atomic format (set_master_password r.vault r.new_password)) λ e.
      after_rollback (files_back r) e (
        beyond_rollback (text "vault re-encryption failed" ∷ []) e
          (text "); file rollback also failed" ∷ []))

  abbrev pub update_keychain : Rotation Database → Act Keys (Unit {0})
  update_keychain r = recover (set_and_verify store r.account (new_credential r)) λ e.
      after_rollback (all_back r) (rolled e)
        (beyond_rollback (text "Keychain update failed" ∷ []) e also_text)

  abbrev pub renew_backup : Rotation Database → Act Keys (Unit {0})
  renew_backup r =
      attempt (read vault_path) (λ e. raise (unreadable vault_path e))
      >>= restore_file_atomic r.backup.path

  abbrev pub update_backup : Rotation Database → Act Keys (Unit {0})
  update_backup r = recover (renew_backup r) λ e.
      after_rollback (all_back r) (backup_rolled e)
        (beyond_rollback (text "encrypted backup update failed" ∷ []) e also_text)

  abbrev pub display_key : Rotation Database → Act Keys (Unit {0})
  display_key r =
      recover (write_recovery_key r.new_password.expose vault_path true)
        λ e. raise (not_displayed e)

  abbrev pub replace_all : Rotation Database → Act Keys (Unit {0})
  replace_all r = save_new r >> (update_keychain r >> update_backup r)

  unfoldable pub commit : Rotation Database → Act Keys Outcome
  commit r = replace_all r >> (display_key r >> pure (kpexec_level success))

  abbrev pub commit_changed : Rotation Database → Act Keys Outcome
  commit_changed r =
      if str_eq r.new_password.expose r.old_credential.password.expose
      then raise unchanged_password
      else commit r

  module _ (sys : System) (codec : Codec) (config_hint : Option String) where
    module _ (new_password : Secret) where
      abbrev pub rotation :
          VaultCredential → Vault Database → Bytes → BackupSnapshot → Rotation Database
      rotation old vault original backup = record {
        vault = vault;
        account = account_for sys codec vault_path;
        old_credential = old;
        original_vault = original;
        backup = backup;
        new_password = new_password;
      }

      abbrev pub with_original : VaultCredential → Vault Database → Bytes → Act Keys Outcome
      with_original old vault original =
          capture vault_path >>= λ backup. commit_changed (rotation old vault original backup)

      abbrev pub with_vault : VaultCredential → Vault Database → Act Keys Outcome
      with_vault old vault = snapshot vault_path >>= with_original old vault

      abbrev pub with_credential : VaultCredential → Act Keys Outcome
      with_credential old = open_now format sys codec vault_path old config_hint >>= with_vault old

      abbrev pub with_lock : Act Keys Outcome
      with_lock = get_credential store sys codec vault_path >>= with_credential

      -- The first argument is what taking the write lock came to; the lock covers all that follows.
      unfoldable pub rotate_password_with_generator : Result (Unit {0}) → Act Keys Outcome
      rotate_password_with_generator lock = from_result lock >> with_lock

    unfoldable pub show_password_with : Act Keys Outcome
    show_password_with = get_credential store sys codec vault_path >>= λ credential.
        open_now format sys codec vault_path credential config_hint >>= λ vault.
        (write_recovery_key credential.password.expose vault_path false
          >> pure (kpexec_level success))
