-- ===== src/Db/Rotate/Safe.antt =====
-- src/cmd_db.rs: how a rotation may end.
use kpexec.Prelude.{◌≡◌, refl, String, some, ap, sym, ◌∙◌, subst, ◌⊎◌, inl, inr}
use kpexec.Status.{success, Outcome, kpexec_level}
use kpexec.Error.{KpexecError, Result, ok, err}
use kpexec.Output.Bytes.{Bytes}
use kpexec.System.{done}
use kpexec.Keychain.{KeychainStore}
use kpexec.Vault.Save.{Format, serialized}
use kpexec.Machine.{Machine, ◌>>◌, pure}
use kpexec.Machine.Frames.{file_at, keys_of, bind-cases}
use kpexec.Db.{backup_sibling}
use kpexec.Db.Restore.Back.{SetReads}
use kpexec.Db.Rotate.{
  Rotation, save_new, update_keychain, update_backup, replace_all, display_key, commit,
  new_credential, not_displayed, set_master_password,
}
use kpexec.Db.Rotate.Stages.{
  Original, Safe, save_new-err, save_new-ok, update_keychain-err, update_keychain-ok,
  display_key-Keeps, display_key-err, update_backup-err, update_backup-ok,
}

module _ {Database Keys : Type 0} (store : KeychainStore Keys) (format : Format Database)
    (path : String) where
  -- The vault and its backup are both what the database serializes to under the new password, and
  -- the Keychain gives the new password for the same vault.
  abbrev pub Committed : Rotation Database → Machine Keys → Type 0
  Committed r s =
      (b : Bytes) × (serialized format (set_master_password r.vault r.new_password) ≡ done b)
      × (s.files path ≡ some b)
      × (s.files (backup_sibling path) ≡ some b)
      × (store.get r.account s.keys ≡ ok (some (new_credential r)))

  abbrev Replaced : Rotation Database → Result (Unit {0}) × Machine Keys → Type 0
  Replaced r (ok _, t) = Committed r t
  Replaced r (err e, t) = Safe store path r e t

  module _ (r : Rotation Database) (law : SetReads store) (at : r.backup.path ≡ backup_sibling path)
      (own : r.vault.path ≡ path) where
    replace_backup-Replaced :
        (s : Machine Keys) (b : Bytes)
        → serialized format (set_master_password r.vault r.new_password) ≡ done b
        → s.files path ≡ some b
        → store.get r.account s.keys ≡ ok (some (new_credential r))
        → Replaced r (update_backup store format path r s)
    replace_backup-Replaced s b c f k = go (update_backup store format path r s).0 refl
      where
        go :
            (q : Result (Unit {0}))
            → (update_backup store format path r s).0 ≡ q
            → Replaced r (q, (update_backup store format path r s).1)
        go (ok u) e =
            let ((v, w), x) = update_backup-ok store format path r at s b f e in
            (b, c, v, w, ap (store.get r.account) x ∙ k)
        go (err e) h = update_backup-err store format path r at s e law h

    replace_rest-Replaced :
        (s : Machine Keys) (b : Bytes)
        → serialized format (set_master_password r.vault r.new_password) ≡ done b
        → s.files path ≡ some b
        → Replaced r ((update_keychain store format path r >> update_backup store format path r) s)
    replace_rest-Replaced s b c f =
        elim (bind-cases (update_keychain store format path r)
          (λ _. update_backup store format path r) s) [
            | inl (x, h, e) ↦
                subst (Replaced r) (sym e) (update_keychain-err store format path r at s x law h)
            | inr (u, h, e) ↦
                let (v, w) = update_keychain-ok store format path r at s h in
                subst (Replaced r) (sym e) (
                  replace_backup-Replaced (update_keychain store format path r s).1 b c
                    (ap (λ g. g path) v ∙ f) w)
          ]

    replace_all-Replaced :
        (s : Machine Keys)
        → Original store path r s
        → Replaced r (replace_all store format path r s)
    replace_all-Replaced s o =
        elim (bind-cases (save_new store format path r)
          (λ _. update_keychain store format path r >> update_backup store format path r) s) [
            | inl (x, h, e) ↦
                subst (Replaced r) (sym e) (save_new-err store format path r at s x o h)
            | inr (u, h, e) ↦
                let (k, (b, c, f)) = save_new-ok store format path r at s h in
                subst (Replaced r) (sym e) (
                  replace_rest-Replaced (save_new store format path r s).1 b c
                    (ap (λ q. file_at q (save_new store format path r s).1) (sym own) ∙ f))
          ]

    -- How the part that changes something ends.
    abbrev pub CommitEnds : Result Outcome × Machine Keys → Type 0
    CommitEnds (ok o, t) = (o ≡ kpexec_level success) × Committed r t
    CommitEnds (err e, t) =
        (((x : KpexecError) × (e ≡ not_displayed x)) × Committed r t) ⊎ Safe store path r e t

    display-CommitEnds :
        (s : Machine Keys)
        → Committed r s
        → CommitEnds ((display_key store format path r >> pure (kpexec_level success)) s)
    display-CommitEnds s (b, c, v, w, k) =
        let t = (display_key store format path r s).1 in
        let f =
          display_key-Keeps store format path r at (λ t. t.files) (λ s. refl) (λ l s. refl) s in
        let kept : Committed r t = (
          b,
          c,
          ap (λ g. g path) f ∙ v,
          ap (λ g. g (backup_sibling path)) f ∙ w,
          ap (store.get r.account)
                (display_key-Keeps store format path r at keys_of (λ s. refl) (λ l s. refl) s)
              ∙ k,
        ) in
        elim (bind-cases (display_key store format path r) (λ _. pure (kpexec_level success)) s) [
          | inl (x, h, e) ↦
              subst CommitEnds (sym e) (inl ((display_key-err store format path r at s x h), kept))
          | inr (u, h, e) ↦ subst CommitEnds (sym e) (refl, kept)
        ]

    pub commit-CommitEnds :
        (s : Machine Keys) → Original store path r s → CommitEnds (commit store format path r s)
    unfolding commit
    commit-CommitEnds s o =
        elim (bind-cases (replace_all store format path r)
          (λ _. display_key store format path r >> pure (kpexec_level success)) s) [
            | inl (x, h, e) ↦ subst CommitEnds (sym e) (
                inr (
                  subst (λ q. Replaced r (q, (replace_all store format path r s).1)) h
                    (replace_all-Replaced s o)))
            | inr (u, h, e) ↦ subst CommitEnds (sym e) (
                display-CommitEnds (replace_all store format path r s).1 (
                  subst (λ q. Replaced r (q, (replace_all store format path r s).1)) h
                    (replace_all-Replaced s o)))
          ]
