-- ===== src/Db/Rotate/Stages.antt =====
-- src/cmd_db.rs: what each stage of a rotation leaves behind, where it fails and where it does not.
use kpexec.Prelude.{
  ◌≡◌, refl, String, Bool, true, Option, none, some, List, [], ◌∷◌, ◌++◌, ap, sym, ◌∙◌, subst, ◌⊎◌,
  inl, inr, str_eq_iff, arith,
}
use kpexec.Error.{KpexecError, Result, ok, err, text, Message}
use kpexec.Output.Bytes.{Bytes}
use kpexec.System.{done}
use kpexec.Keychain.{VaultCredential, KeychainStore}
use kpexec.Vault.{Vault}
use kpexec.Vault.Save.{Format, save_atomic, serialized}
use kpexec.Vault.Save.Atomic.{save_atomic-ok, save_atomic-Keeps_keys}
use kpexec.Machine.{Machine, Act, attempt, recover, raise, used, emit}
use kpexec.Machine.Files.{read}
use kpexec.Machine.Frames.{
  Keeps, CallKeeps, sync-Keeps, chain-Keeps, emit-Keeps, attempt-Keeps, recover-Keeps, Blind,
  file_at, keys_of, keys_of-Blind, recover-ok, recover-err, Fails, then-ok, bind-ok, attempt-ok,
  read-done,
}
use kpexec.Db.{
  backup_sibling, rollback_sibling, restore_file_atomic, emit_all, key_lines, not_written,
  write_recovery_key,
}
use kpexec.Db.Restore.{set_now}
use kpexec.Db.Restore.Back.{
  SetReads, FilesBack, restore_files-ok, restore_files-Keeps_keys, restore_file_atomic-Keeps,
  restore_file_atomic-ok, vault_aside, vault_beside, rollback_rotation-ok,
}
use kpexec.Db.Rotate.{
  Rotation, after_rollback, ended, beyond_rollback, recovery_text, files_back, all_back, save_new,
  update_keychain, update_backup, retained, not_displayed, display_key, unreadable, renew_backup,
  set_and_verify, set_master_password, new_credential, rolled, backup_rolled, also_text,
}

retained-ok :
    (c : VaultCredential) (q : Result (Option VaultCredential))
    → retained c q ≡ ok tt
    → q ≡ ok (some c)
retained-ok c (err e) h = cc
retained-ok c (ok none) h = cc
retained-ok c (ok (some d)) h =
    ground (arith, str_eq_iff d.db_path c.db_path, str_eq_iff d.password.expose c.password.expose)

-- The message ends with the advice to recover the vault.
abbrev pub NeedsRecovery : KpexecError → Type 0
NeedsRecovery e = (m : Message) × (e.message ≡ m ++ recovery_text)

ended-err :
    {A : Type 0} (q : Result (Unit {0})) (e : KpexecError) (beyond : KpexecError → KpexecError)
    (a : A)
    → ended q e beyond ≡ ok a
    → ⊥
ended-err (ok u) e beyond a h = cc
ended-err (err x) e beyond a h = cc

module _ {Keys : Type 0} where
  emit_all-Keeps :
      {X : Type 0} (g : Machine Keys → X) (lines : List Message)
      → ((s : Machine Keys) → g (used s) ≡ g s)
      → ((l : List Message) (s : Machine Keys) → g (record s { printed = l }) ≡ g s)
      → CallKeeps g (emit_all lines)
  emit_all-Keeps g [] u w = sync-Keeps g u
  emit_all-Keeps g (line ∷ lines) u w =
      chain-Keeps g (emit line) (emit_all lines) (emit-Keeps g line u w)
        (emit_all-Keeps g lines u w)

  pub write_recovery_key-Keeps :
      {X : Type 0} (g : Machine Keys → X) (password path : String) (rotated : Bool)
      → ((s : Machine Keys) → g (used s) ≡ g s)
      → ((l : List Message) (s : Machine Keys) → g (record s { printed = l }) ≡ g s)
      → Keeps g (write_recovery_key password path rotated)
  unfolding write_recovery_key
  write_recovery_key-Keeps g password path rotated u w =
      attempt-Keeps g (emit_all (key_lines password path rotated)) not_written
        (emit_all-Keeps g (key_lines password path rotated) u w) (λ e s. refl)

  set_and_verify-ok :
      (store : KeychainStore Keys) (account : String) (c : VaultCredential) (s : Machine Keys)
      → (set_and_verify store account c s).0 ≡ ok tt
      → ((set_and_verify store account c s).1.files ≡ s.files)
        × (store.get account (set_and_verify store account c s).1.keys ≡ ok (some c))
  unfolding set_and_verify set_now
  set_and_verify-ok store account c s h =
      let (wrote, e) =
        then-ok (set_now store account c) (λ t. (retained c (store.get account t.keys), t)) s tt
          h in
      let t = (set_now store account c s).1 in
      (
        ap (λ w. w.1.files) e,
        ap (λ w. store.get account w.1.keys) e
            ∙ retained-ok c (store.get account t.keys) (ap (λ w. w.0) (sym e) ∙ h),
      )

  after_rollback-Fails :
      (m : Act Keys (Unit {0})) (e : KpexecError) (beyond : KpexecError → KpexecError)
      → Fails (after_rollback {A = Unit {0}} m e beyond)
  after_rollback-Fails m e beyond s a h = ended-err (m s).0 e beyond a h

module _ {Database Keys : Type 0} (store : KeychainStore Keys) (path : String) where
  -- The vault, its backup and the credential are those from before the rotation.
  abbrev pub Original : Rotation Database → Machine Keys → Type 0
  Original r s =
      FilesBack path r.original_vault r.backup.contents s
      × (store.get r.account s.keys ≡ ok (some r.old_credential))

  -- How a rotation that changes something may fail.
  abbrev pub Safe : Rotation Database → KpexecError → Machine Keys → Type 0
  Safe r e s = Original r s ⊎ NeedsRecovery e

  after_rollback-Safe :
      {A : Type 0} (r : Rotation Database) (m : Act Keys (Unit {0})) (e : KpexecError)
      (what : Message) (cause : KpexecError) (also : Message) (s : Machine Keys) (x : KpexecError)
      → ((m s).0 ≡ ok tt → Original r (m s).1)
      → (after_rollback {A = A} m e (beyond_rollback what cause also) s).0 ≡ err x
      → Safe r x (after_rollback {A = A} m e (beyond_rollback what cause also) s).1
  after_rollback-Safe {A} r m e what cause also s x k h = go (m s).0 k h
    where
      go :
          (q : Result (Unit {0}))
          → (q ≡ ok tt → Original r (m s).1)
          → ended {A = A} q e (beyond_rollback what cause also) ≡ err x
          → Safe r x (m s).1
      go (ok u) k h = inl (k refl)
      go (err y) k h = inr (what ++ text " (" ∷ cause.message ++ also ++ text " (" ∷ y.message, cc)

  recovering :
      (r : Rotation Database) (m n : Act Keys (Unit {0})) (e : KpexecError → KpexecError)
      (what also : Message) (s : Machine Keys) (x : KpexecError)
      → ((e : KpexecError) → (m s).0 ≡ err e → (n (m s).1).0 ≡ ok tt → Original r (n (m s).1).1)
      → (recover m (λ c. after_rollback n (e c) (beyond_rollback what c also)) s).0 ≡ err x
      → Safe r x (recover m (λ c. after_rollback n (e c) (beyond_rollback what c also)) s).1
  recovering r m n e what also s x k h =
      let (c, f, q) =
        recover-err m (λ c. after_rollback n (e c) (beyond_rollback what c also)) s x h in
      subst (λ w. Safe r x w.1) (sym q)
        (after_rollback-Safe {A = Unit {0}} r n (e c) what c also (m s).1 x (k c f)
          (ap (λ w. w.0) (sym q) ∙ h))

module _ {Database Keys : Type 0} (store : KeychainStore Keys) (format : Format Database)
    (path : String) (r : Rotation Database) (at : r.backup.path ≡ backup_sibling path) where
  -- The new vault, as the rotation saves it.
  abbrev pub new_vault : Vault Database
  new_vault = set_master_password r.vault r.new_password

  pub save_new-err :
      (s : Machine Keys) (x : KpexecError)
      → Original store path r s
      → (save_new store format path r s).0 ≡ err x
      → Safe store path r x (save_new store format path r s).1
  save_new-err s x (f, k) h =
      let t = (save_atomic format new_vault s).1 in
      recovering store path r (save_atomic format new_vault) (files_back store format path r)
        (λ e. e) (text "vault re-encryption failed" ∷ []) (text "); file rollback also failed" ∷ [])
        s x
        (λ e q o. (
          restore_files-ok path r.original_vault r.backup t at o,
          ap (store.get r.account) (
                restore_files-Keeps_keys path r.original_vault r.backup t
                ∙ save_atomic-Keeps_keys format new_vault s)
              ∙ k,
        ))
        h

  pub save_new-ok :
      (s : Machine Keys)
      → (save_new store format path r s).0 ≡ ok tt
      → ((save_new store format path r s).1.keys ≡ s.keys)
        × ((b : Bytes) × (serialized format new_vault ≡ done b)
            × ((save_new store format path r s).1.files r.vault.path ≡ some b))
  save_new-ok s h =
      let handle : KpexecError → Act Keys (Unit {0}) = λ e.
        after_rollback (files_back store format path r) e (
          beyond_rollback (text "vault re-encryption failed" ∷ []) e
            (text "); file rollback also failed" ∷ [])) in
      let (saved, e) =
        recover-ok (save_atomic format new_vault) handle s tt
          (λ e. after_rollback-Fails (files_back store format path r) e (
            beyond_rollback (text "vault re-encryption failed" ∷ []) e
              (text "); file rollback also failed" ∷ [])))
          h in
      let (b, c, f) = save_atomic-ok format new_vault s saved in
      (
        ap keys_of e ∙ save_atomic-Keeps_keys format new_vault s,
        (b, c, ap (file_at r.vault.path) e ∙ f),
      )

  pub update_keychain-err :
      (s : Machine Keys) (x : KpexecError)
      → SetReads store
      → (update_keychain store format path r s).0 ≡ err x
      → Safe store path r x (update_keychain store format path r s).1
  update_keychain-err s x law h =
      let m = set_and_verify store r.account (new_credential r) in
      recovering store path r m (all_back store format path r) rolled
        (text "Keychain update failed" ∷ []) also_text s x
        (λ e q o.
          rollback_rotation-ok store path r.original_vault r.backup r.account r.old_credential
            (m s).1 law at o)
        h

  pub update_backup-err :
      (s : Machine Keys) (x : KpexecError)
      → SetReads store
      → (update_backup store format path r s).0 ≡ err x
      → Safe store path r x (update_backup store format path r s).1
  update_backup-err s x law h =
      let m = renew_backup store format path r in
      recovering store path r m (all_back store format path r) backup_rolled
        (text "encrypted backup update failed" ∷ []) also_text s x
        (λ e q o.
          rollback_rotation-ok store path r.original_vault r.backup r.account r.old_credential
            (m s).1 law at o)
        h

  pub update_keychain-ok :
      (s : Machine Keys)
      → (update_keychain store format path r s).0 ≡ ok tt
      → ((update_keychain store format path r s).1.files ≡ s.files)
        × (store.get r.account (update_keychain store format path r s).1.keys
            ≡ ok (some (new_credential r)))
  update_keychain-ok s h =
      let (verified, e) =
        recover-ok (set_and_verify store r.account (new_credential r))
          (λ e.
            after_rollback (all_back store format path r) (rolled e)
              (beyond_rollback (text "Keychain update failed" ∷ []) e also_text))
          s tt
          (λ e.
            after_rollback-Fails (all_back store format path r) (rolled e)
              (beyond_rollback (text "Keychain update failed" ∷ []) e also_text))
          h in
      let (f, k) = set_and_verify-ok store r.account (new_credential r) s verified in
      (ap (λ t. t.files) e ∙ f, ap (λ t. store.get r.account t.keys) e ∙ k)

  renew_backup-ok :
      (s : Machine Keys) (b : Bytes)
      → s.files path ≡ some b
      → (renew_backup store format path r s).0 ≡ ok tt
      → FilesBack path b (some b) (renew_backup store format path r s).1
        × ((renew_backup store format path r s).1.keys ≡ s.keys)
  renew_backup-ok s b v h =
      let bak = r.backup.path in
      let unread : String → Act Keys Bytes = λ e. raise (unreadable path e) in
      let (c, q, e) = bind-ok (attempt (read path) unread) (restore_file_atomic bak) s tt h in
      let (d, u) = attempt-ok (read path) unread s c (λ e s a h. cc) q in
      let t = (attempt (read path) unread s).1 in
      let same : c ≡ b = cc (read-done path c s d, v) in
      (
        (
          ap (λ w. w.1.files path) e
              ∙ restore_file_atomic-Keeps (file_at path) bak c
                  (subst (λ q. Blind {Keys = Keys} (file_at path) (rollback_sibling q)) (sym at)
                    (vault_aside path))
                  (subst (Blind {Keys = Keys} (file_at path)) (sym at) (vault_beside path)) t
              ∙ ap (file_at path) u
              ∙ v,
          ap (λ w. w.1.files (backup_sibling path)) e
              ∙ ap (λ q. file_at q (restore_file_atomic bak c t).1) (sym at)
              ∙ restore_file_atomic-ok bak c t (ap (λ w. w.0) (sym e) ∙ h)
              ∙ ap some same,
        ),
        ap (λ w. w.1.keys) e
            ∙ restore_file_atomic-Keeps keys_of bak c (keys_of-Blind (rollback_sibling bak))
                (keys_of-Blind bak) t
            ∙ ap keys_of u,
      )

  pub update_backup-ok :
      (s : Machine Keys) (b : Bytes)
      → s.files path ≡ some b
      → (update_backup store format path r s).0 ≡ ok tt
      → FilesBack path b (some b) (update_backup store format path r s).1
        × ((update_backup store format path r s).1.keys ≡ s.keys)
  update_backup-ok s b v h =
      let (renewed, e) =
        recover-ok (renew_backup store format path r)
          (λ e.
            after_rollback (all_back store format path r) (backup_rolled e)
              (beyond_rollback (text "encrypted backup update failed" ∷ []) e also_text))
          s tt
          (λ e.
            after_rollback-Fails (all_back store format path r) (backup_rolled e)
              (beyond_rollback (text "encrypted backup update failed" ∷ []) e also_text))
          h in
      let ((f, g), k) = renew_backup-ok s b v renewed in
      ((ap (file_at path) e ∙ f, ap (file_at (backup_sibling path)) e ∙ g), ap keys_of e ∙ k)

  pub display_key-Keeps :
      {X : Type 0} (g : Machine Keys → X)
      → ((s : Machine Keys) → g (used s) ≡ g s)
      → ((l : List Message) (s : Machine Keys) → g (record s { printed = l }) ≡ g s)
      → Keeps g (display_key store format path r)
  display_key-Keeps g u w =
      recover-Keeps g (write_recovery_key r.new_password.expose path true)
        (λ e. raise (not_displayed e))
        (write_recovery_key-Keeps g r.new_password.expose path true u w) (λ e s. refl)

  pub display_key-err :
      (s : Machine Keys) (x : KpexecError)
      → (display_key store format path r s).0 ≡ err x
      → (e : KpexecError) × (x ≡ not_displayed e)
  display_key-err s x h =
      let (e, f, q) =
        recover-err (write_recovery_key r.new_password.expose path true)
          (λ e. raise (not_displayed e)) s x h in
      (e, cc (h, ap (λ w. w.0) q))
