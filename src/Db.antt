-- ===== src/Db.antt =====
-- src/cmd_db.rs: what the maintenance of the database password does to the files and the Keychain.
pub mod Restore
pub mod Rotate
pub mod Show
use Prim.Native.String.{◌++◌ as push_str}
use kpexec.Prelude.{◌&&◌, String, Bool, true, false, Option, none, some, List, [], ◌∷◌, ◌++◌}
use kpexec.Status.{unlock_failed}
use kpexec.Error.{KpexecError, Result, ok, err, internal_err, text, Message, ok_or}
use kpexec.Output.Bytes.{Bytes}
use kpexec.System.{System, Io, done, failed}
use kpexec.Output.Variants.{Codec}
use kpexec.Keychain.{VaultCredential, KeychainStore, account_for}
use kpexec.Secret.{Secret}
use kpexec.Vault.{Vault}
use kpexec.Vault.Open.{open_with_credential}
use kpexec.Vault.Save.{Format}
use kpexec.Machine.{
  Machine, Act, Call, pure, raise, from_result, ◌>>=◌, ◌>>◌, attempt, ignore, ◌>=>◌, emit, used,
}
use kpexec.Machine.Files.{
  write, sync, rename, remove, read, look, Found, found, not_found, read_failed, as_io, exists,
}

abbrev pub rollback_sibling : String → String
rollback_sibling path = push_str path ".rotate-rollback.tmp"

abbrev pub backup_sibling : String → String
backup_sibling path = push_str path ".bak"

abbrev pub unless_credential : String → Option VaultCredential → Result VaultCredential
unless_credential vault_path item = ok_or item (record {
  status = unlock_failed;
  message =
      text "no Keychain item for vault " ∷ text vault_path ∷ text " — run `kpexec init` first" ∷ [];
})

abbrev pub then_credential : String → Result (Option VaultCredential) → Result VaultCredential
then_credential vault_path (ok item) = unless_credential vault_path item
then_credential vault_path (err e) = err e

-- The lines of the recovery key. What is written to the output is one piece of text per line.
abbrev verb : Bool → String
verb true = "rotated"
verb false = "current"

abbrev heading : Bool → String → Message
heading rotated vault_path =
    text "Vault password (" ∷ text (verb rotated) ∷ text ") for " ∷ text vault_path ∷ text ":" ∷ []

abbrev key_line : String → Message
key_line password = text "    " ∷ text password ∷ []

abbrev pub key_lines : String → String → Bool → List Message
key_lines password vault_path rotated =
    heading rotated vault_path
    ∷ []
    ∷ key_line password
    ∷ []
    ∷ (text "Store this outside the agent's reach (personal password manager or paper)." ∷ [])
    ∷ (text "Do NOT save it in a repository or a file under your home directory." ∷ [])
    ∷ []

abbrev not_restored : String → String → KpexecError
not_restored path e =
    internal_err
      (text "cannot atomically restore original vault " ∷ text path ∷ text ": " ∷ text e ∷ [])

module _ {Keys : Type 0} where
  -- The closure of `restore_file_atomic`.
  abbrev pub restoring : String → Bytes → Call Keys (Unit {0})
  restoring path contents =
      write (rollback_sibling path) []
      >=> write (rollback_sibling path) contents
      >=> sync
      >=> rename (rollback_sibling path) path

  abbrev pub give_up_restore : String → String → Act Keys (Unit {0})
  give_up_restore path e = ignore (remove (rollback_sibling path)) >> raise (not_restored path e)

  unfoldable pub restore_file_atomic : String → Bytes → Act Keys (Unit {0})
  restore_file_atomic path contents = attempt (restoring path contents) (give_up_restore path)

  -- The lines one after another until one fails, and `flush`.
  abbrev pub emit_all : List Message → Call Keys (Unit {0})
  emit_all [] = sync
  emit_all (line ∷ lines) = emit line >=> emit_all lines

  abbrev pub not_written : String → Act Keys (Unit {0})
  not_written e = raise (internal_err (text "writing recovery key to stdout: " ∷ text e ∷ []))

  unfoldable pub write_recovery_key : String → String → Bool → Act Keys (Unit {0})
  write_recovery_key password vault_path rotated =
      attempt (emit_all (key_lines password vault_path rotated)) not_written

module _ {Keys : Type 0} (store : KeychainStore Keys) (sys : System) (codec : Codec) where
  unfoldable pub get_credential : String → Act Keys VaultCredential
  get_credential vault_path s =
      (then_credential vault_path (store.get (account_for sys codec vault_path) s.keys), s)

module _ {Database Keys : Type 0} (format : Format Database) (sys : System) (codec : Codec) where
  -- The library's view with the files of the machine.
  abbrev pub seeing : Machine Keys → System
  seeing s = record sys {
    opens = λ path. exists path s && sys.opens path;
    read = λ path. as_io (look path s);
  }

  unfoldable pub open_now : String → VaultCredential → Option String → Act Keys (Vault Database)
  open_now vault_path credential config_hint s = (
    open_with_credential (seeing s) codec format.open_db vault_path credential config_hint,
    used s,
  )
