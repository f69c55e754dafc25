-- ===== src/Entry.antt =====
-- src/cmd_entry.rs: the handlers that change an entry. Each takes the lock, opens the vault that the
-- Keychain blesses, changes it in memory and saves it.
pub mod Authoring
pub mod Handlers
pub mod Repin
pub mod Show
pub mod Quiet
pub mod Atomic
pub mod Failures
pub mod SetSecret
use kpexec.Prelude.{ℕ, String, Bool, Option, none, some, List, [], ◌∷◌, ◌++◌}
use kpexec.Status.{success, unknown_entry, Outcome, kpexec_level}
use kpexec.Error.{KpexecError, Result, ok, err, ok_or, text, debug, Message}
use kpexec.Output.Variants.{Codec}
use kpexec.System.{System}
use kpexec.Keychain.{KeychainStore}
use kpexec.Policy.{PolicyJson}
use kpexec.Prompt.{Terminal}
use kpexec.Vault.{Keepass, EntryView, Vault, find_entry}
use kpexec.Vault.Open.{open_vault}
use kpexec.Vault.Save.{Format, save_atomic}
use kpexec.Machine.{Machine, Act, pure, from_result, print, used, ◌>>◌}
use kpexec.Db.{seeing}

-- What the handlers are given: the store, the libraries and the terminal.
pub record Setting (Database Keys : Type 0) : Type 0 where
  pub store : KeychainStore Keys
  pub kp : Keepass Database
  pub format : Format Database
  pub json : PolicyJson
  pub sys : System
  pub codec : Codec
  pub term : Terminal

abbrev pub with_db : {Database : Type 0} → Vault Database → Database → Vault Database
with_db vault db = record vault { db = db }

abbrev no_such_entry : String → KpexecError
no_such_entry id = record {
  status = unknown_entry;
  message = text "no entry with id " ∷ debug id ∷ [];
}

abbrev pub entry_or : String → Result (Option EntryView) → Result EntryView
entry_or id (err e) = err e
entry_or id (ok item) = ok_or item (no_such_entry id)

module _ {Database Keys : Type 0} (env : Setting Database Keys) where
  -- `Vault::open` on the files and the Keychain of the machine.
  unfoldable pub open_now : String → Option String → Act Keys (Vault Database)
  open_now vault_path config_hint s = (
    open_vault (seeing env.format env.sys env.codec s) env.codec env.format.open_db
        (λ account. env.store.get account s.keys) vault_path config_hint,
    used s,
  )

  unfoldable pub require_entry : Database → String → Result EntryView
  require_entry db id = entry_or id (find_entry env.kp env.json db id)

  -- The end of every handler that changes the vault.
  unfoldable pub save_and_report : Vault Database → Message → Act Keys Outcome
  save_and_report vault report =
      save_atomic env.format vault >> (print report >> pure (kpexec_level success))
