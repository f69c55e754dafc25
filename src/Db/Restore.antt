-- ===== src/Db/Restore.antt =====
-- src/cmd_db.rs: the snapshot of the backup, and the rollback of files and Keychain.
pub mod Back
use kpexec.Prelude.{String, Option, none, some, List, [], ◌∷◌, ◌++◌}
use kpexec.Error.{KpexecError, Result, ok, err, internal_err, text, Message}
use kpexec.Output.Bytes.{Bytes}
use kpexec.Keychain.{VaultCredential, KeychainStore}
use kpexec.Machine.{Machine, Act, pure, raise, attempt, used}
use kpexec.Machine.Files.{remove, look, Found, found, not_found, read_failed}
use kpexec.Db.{backup_sibling, restore_file_atomic}

pub record BackupSnapshot : Type 0 where
  pub path : String
  pub contents : Option Bytes

abbrev pub snapshot_of : String → Found → Result BackupSnapshot
snapshot_of path (found bytes) = ok (record { path = path; contents = some bytes })
snapshot_of path not_found = ok (record { path = path; contents = none })
snapshot_of path (read_failed e) = err (
    internal_err (
      text "cannot snapshot vault backup "
      ∷ text path
      ∷ text " before password rotation: "
      ∷ text e
      ∷ []))

-- How the two results of a restoration combine.
abbrev pub both_restored : Result (Unit {0}) → Result (Unit {0}) → Result (Unit {0})
both_restored (ok _) (ok _) = ok tt
both_restored (err v) (ok _) = err v
both_restored (ok _) (err b) = err b
both_restored (err v) (err b) = err (
    internal_err (
      text "primary restore failed (" ∷ v.message
      ++ text "); backup restore failed (" ∷ b.message
      ++ (text ")" ∷ [])))

abbrev push_failure : Message → Result (Unit {0}) → List Message → List Message
push_failure label (ok _) failures = failures
push_failure label (err e) failures = failures ++ ((label ++ e.message) ∷ [])

-- `failures.join("; ")`.
abbrev join : List Message → Message
join [] = []
join (m ∷ []) = m
join (m ∷ n ∷ ms) = m ++ (text "; " ∷ join (n ∷ ms))

abbrev unless_failures : List Message → Result (Unit {0})
unless_failures [] = ok tt
unless_failures (m ∷ ms) = err (internal_err (text "could not fully restore " ∷ join (m ∷ ms)))

abbrev pub rolled_back : Result (Unit {0}) → Result (Unit {0}) → Result (Unit {0})
rolled_back keychain_result files_result = unless_failures (
    push_failure (text "vault files: " ∷ []) files_result
      (push_failure (text "Keychain credential: " ∷ []) keychain_result []))

module _ {Keys : Type 0} where
  unfoldable pub capture : String → Act Keys BackupSnapshot
  capture vault_path s =
      let path = backup_sibling vault_path in (snapshot_of path (look path s), used s)

  abbrev pub not_removed : String → String → Act Keys (Unit {0})
  not_removed path e = raise (
      internal_err
        (text "cannot remove rotation-created backup " ∷ text path ∷ text ": " ∷ text e ∷ []))

  abbrev pub restore_to : String → Option Bytes → Act Keys (Unit {0})
  restore_to path (some contents) = restore_file_atomic path contents
  restore_to path none = attempt (remove path) (not_removed path)

  unfoldable pub restore : BackupSnapshot → Act Keys (Unit {0})
  restore snapshot = restore_to snapshot.path snapshot.contents

  unfoldable pub restore_files : String → Bytes → BackupSnapshot → Act Keys (Unit {0})
  restore_files vault_path original_vault backup s =
      let (vault_result, t) = restore_file_atomic vault_path original_vault s in
      let (backup_result, u) = restore backup t in (both_restored vault_result backup_result, u)

  unfoldable pub set_now :
      KeychainStore Keys
      → String
      → VaultCredential
      → Machine Keys
      → Result (Unit {0}) × Machine Keys
  set_now store account credential s =
      let (r, keys) = store.set account credential s.keys in (r, record s { keys = keys })

  unfoldable pub rollback_rotation :
      KeychainStore Keys
      → String
      → Bytes
      → BackupSnapshot
      → String
      → VaultCredential
      → Act Keys (Unit {0})
  rollback_rotation store vault_path original_vault backup account old_credential s =
      let (keychain_result, t) = set_now store account old_credential s in
      let (files_result, u) = restore_files vault_path original_vault backup t in
      (rolled_back keychain_result files_result, u)
