-- ===== src/Db/Restore/Back.antt =====
-- src/cmd_db.rs: what a restoration that succeeds has restored, and what none of them touches.
use Prim.Native.String.{◌++◌ as push_str}
use text.Mathlib.TextLemmas.{append_assoc as push_assoc}
use kpexec.Prelude.{◌≡◌, refl, String, Option, none, some, [], str_eq, ap, sym, ◌∙◌, subst}
use kpexec.Error.{Result, ok, err}
use kpexec.Output.Bytes.{Bytes}
use kpexec.Keychain.{VaultCredential, KeychainStore}
use kpexec.Machine.{Machine, ◌>=>◌}
use kpexec.Machine.Files.{write, sync, rename, remove}
use kpexec.Machine.Frames.{
  Keeps, Blind, file_at, file_at-Blind, keys_of, keys_of-Blind, attempt-Keeps, chain-Keeps,
  write-Keeps, sync-Keeps, rename-Keeps, remove-Keeps, attempt-ok, chain-done, rename-done,
  write-done, Fails, sibling_differs, str_eq-false, remove-done,
}
use kpexec.Db.{rollback_sibling, backup_sibling, restoring, give_up_restore, restore_file_atomic}
use kpexec.Db.Restore.{
  BackupSnapshot, restore, restore_to, not_removed, restore_files, rollback_rotation, set_now,
  both_restored, rolled_back,
}

-- A store whose writing, when it returns `Ok`, is what a later reading gives.
abbrev pub SetReads : {Keys : Type 0} → KeychainStore Keys → Type 0
SetReads {Keys} store =
    (account : String) (c : VaultCredential) (k : Keys)
    → (store.set account c k).0 ≡ ok tt
    → store.get account (store.set account c k).1 ≡ ok (some c)

both_restored-ok : (v b : Result (Unit {0})) → both_restored v b ≡ ok tt → (v ≡ ok tt) × (b ≡ ok tt)
both_restored-ok (ok u) (ok w) h = (refl, refl)
both_restored-ok (err v) (ok u) h = cc
both_restored-ok (ok u) (err b) h = cc
both_restored-ok (err v) (err b) h = cc

rolled_back-ok : (k f : Result (Unit {0})) → rolled_back k f ≡ ok tt → (k ≡ ok tt) × (f ≡ ok tt)
rolled_back-ok (ok u) (ok w) h = (refl, refl)
rolled_back-ok (err v) (ok u) h = cc
rolled_back-ok (ok u) (err b) h = cc
rolled_back-ok (err v) (err b) h = cc

module _ {Keys : Type 0} where
  give_up_restore-Fails : (path e : String) → Fails {Keys = Keys} (give_up_restore path e)
  give_up_restore-Fails path e s a h = cc

  not_removed-Fails : (path e : String) → Fails {Keys = Keys} (not_removed path e)
  not_removed-Fails path e s a h = cc

  pub restore_file_atomic-Keeps :
      {X : Type 0} (g : Machine Keys → X) (path : String) (b : Bytes)
      → Blind g (rollback_sibling path)
      → Blind g path
      → Keeps g (restore_file_atomic path b)
  unfolding restore_file_atomic
  restore_file_atomic-Keeps g path b n m =
      let rb = rollback_sibling path in
      attempt-Keeps g (restoring path b) (give_up_restore path)
        (chain-Keeps g (write rb [] >=> write rb b >=> sync) (rename rb path)
          (chain-Keeps g (write rb [] >=> write rb b) sync
            (chain-Keeps g (write rb []) (write rb b) (write-Keeps g rb [] n)
              (write-Keeps g rb b n))
            (sync-Keeps g n.0))
          (rename-Keeps g rb path n m))
        (λ e. remove-Keeps g rb n)

  pub restore_file_atomic-ok :
      (path : String) (b : Bytes) (s : Machine Keys)
      → (restore_file_atomic path b s).0 ≡ ok tt
      → (restore_file_atomic path b s).1.files path ≡ some b
  unfolding restore_file_atomic
  restore_file_atomic-ok path b s h =
      let rb = rollback_sibling path in
      let (restored, e) =
        attempt-ok (restoring path b) (give_up_restore path) s tt (give_up_restore-Fails path) h in
      let (c, e1) = chain-done (write rb [] >=> write rb b >=> sync) (rename rb path) s restored in
      let (d, e2) = chain-done (write rb [] >=> write rb b) sync s c in
      let (w, e3) = chain-done (write rb []) (write rb b) s d in
      let t = (write rb [] s).1 in
      let u = ((write rb [] >=> write rb b) s).1 in
      ap (file_at path) e
      ∙ ap (λ r. file_at path r.1) e1
      ∙ rename-done rb path ((write rb [] >=> write rb b >=> sync) s).1
          (ap (λ r. r.0) (sym e1) ∙ restored)
      ∙ ap (λ r. file_at rb r.1) e2
      ∙ sync-Keeps (file_at rb) (λ s. refl) u
      ∙ ap (λ r. file_at rb r.1) e3
      ∙ write-done rb b t (ap (λ r. r.0) (sym e3) ∙ d)

  pub restore-ok :
      (snapshot : BackupSnapshot) (s : Machine Keys)
      → (restore snapshot s).0 ≡ ok tt
      → (restore snapshot s).1.files snapshot.path ≡ snapshot.contents
  unfolding restore
  restore-ok snapshot s h = go snapshot.contents h
    where
      go :
          (c : Option Bytes)
          → (restore_to snapshot.path c s).0 ≡ ok tt
          → (restore_to snapshot.path c s).1.files snapshot.path ≡ c
      go (some b) h = restore_file_atomic-ok snapshot.path b s h
      go none h =
          let (removed, e) =
            attempt-ok (remove snapshot.path) (not_removed snapshot.path) s tt
              (not_removed-Fails snapshot.path) h in
          ap (file_at snapshot.path) e ∙ remove-done snapshot.path s removed

  pub restore-Keeps :
      {X : Type 0} (g : Machine Keys → X) (snapshot : BackupSnapshot)
      → Blind g (rollback_sibling snapshot.path)
      → Blind g snapshot.path
      → Keeps g (restore snapshot)
  unfolding restore
  restore-Keeps g snapshot n m s = go snapshot.contents
    where
      go : (c : Option Bytes) → g (restore_to snapshot.path c s).1 ≡ g s
      go (some b) = restore_file_atomic-Keeps g snapshot.path b n m s
      go none =
          attempt-Keeps g (remove snapshot.path) (not_removed snapshot.path)
            (remove-Keeps g snapshot.path m) (λ e s. refl) s

  -- What restoring the backup writes is beside the vault's own file.
  pub vault_beside : (path : String) → Blind {Keys = Keys} (file_at path) (backup_sibling path)
  vault_beside path =
      file_at-Blind path (backup_sibling path)
        (sibling_differs path ".bak" (str_eq-false ".bak" "" refl))

  pub vault_aside :
      (path : String) → Blind {Keys = Keys} (file_at path) (rollback_sibling (backup_sibling path))
  vault_aside path =
      let suffix = push_str ".bak" ".rotate-rollback.tmp" in
      file_at-Blind path (rollback_sibling (backup_sibling path)) (
        ap (λ q. str_eq q path) (push_assoc path ".bak" ".rotate-rollback.tmp")
        ∙ sibling_differs path suffix (str_eq-false suffix "" refl))

  -- The machine has the files of the snapshots again.
  abbrev pub FilesBack : String → Bytes → Option Bytes → Machine Keys → Type 0
  FilesBack path original contents s =
      (s.files path ≡ some original) × (s.files (backup_sibling path) ≡ contents)

  pub restore_files-ok :
      (path : String) (original : Bytes) (backup : BackupSnapshot) (s : Machine Keys)
      → backup.path ≡ backup_sibling path
      → (restore_files path original backup s).0 ≡ ok tt
      → FilesBack path original backup.contents (restore_files path original backup s).1
  unfolding restore_files
  restore_files-ok path original backup s p h =
      let t = (restore_file_atomic path original s).1 in
      let (v, b) =
        both_restored-ok (restore_file_atomic path original s).0 (restore backup t).0 h in
      (
        restore-Keeps (file_at path) backup
              (subst (λ q. Blind {Keys = Keys} (file_at path) (rollback_sibling q)) (sym p)
                (vault_aside path))
              (subst (Blind {Keys = Keys} (file_at path)) (sym p) (vault_beside path)) t
            ∙ restore_file_atomic-ok path original s v,
        ap (λ q. file_at q (restore backup t).1) (sym p) ∙ restore-ok backup t b,
      )

  pub restore_files-Keeps_keys :
      (path : String) (original : Bytes) (backup : BackupSnapshot)
      → Keeps {Keys = Keys} keys_of (restore_files path original backup)
  unfolding restore_files
  restore_files-Keeps_keys path original backup s =
      restore-Keeps keys_of backup (keys_of-Blind (rollback_sibling backup.path))
        (keys_of-Blind backup.path) (restore_file_atomic path original s).1
      ∙ restore_file_atomic-Keeps keys_of path original (keys_of-Blind (rollback_sibling path))
          (keys_of-Blind path) s

module _ {Keys : Type 0} (store : KeychainStore Keys) where
  -- A rollback that succeeds has restored all three, whatever the machine had before it.
  pub rollback_rotation-ok :
      (path : String) (original : Bytes) (backup : BackupSnapshot) (account : String)
      (old : VaultCredential) (s : Machine Keys)
      → SetReads store
      → backup.path ≡ backup_sibling path
      → (rollback_rotation store path original backup account old s).0 ≡ ok tt
      → FilesBack path original backup.contents
          (rollback_rotation store path original backup account old s).1
        × (store.get account (rollback_rotation store path original backup account old s).1.keys
            ≡ ok (some old))
  unfolding rollback_rotation set_now
  rollback_rotation-ok path original backup account old s law p h =
      let t = (set_now store account old s).1 in
      let (k, f) =
        rolled_back-ok (set_now store account old s).0 (restore_files path original backup t).0 h in
      (
        restore_files-ok path original backup t p f,
        ap (store.get account) (restore_files-Keeps_keys path original backup t)
            ∙ law account old s.keys k,
      )
