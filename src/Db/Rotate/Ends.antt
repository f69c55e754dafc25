-- ===== src/Db/Rotate/Ends.antt =====
-- src/cmd_db.rs: the whole of `rotate_password_with_generator`, from its lock to its last message.
use kpexec.Prelude.{
  ◌≡◌, refl, String, Bool, true, false, Option, none, some, ap, sym, ◌∙◌, subst, ◌⊎◌, inl, inr,
  str_eq, if◌then◌else◌,
}
use kpexec.Status.{success, Outcome, kpexec_level}
use kpexec.Error.{KpexecError, Result, ok, err}
use kpexec.Output.Bytes.{Bytes}
use kpexec.Output.Variants.{Codec}
use kpexec.System.{System, done}
use kpexec.Secret.{Secret}
use kpexec.Keychain.{VaultCredential, KeychainStore, account_for}
use kpexec.Vault.{Vault}
use kpexec.Vault.Save.{Format, serialized}
use kpexec.Vault.Open.Binding.{open_with_credential-Bound}
use kpexec.Machine.{Machine, Fault, fine, fault, raise, used, next}
use kpexec.Machine.Files.{read, found_at}
use kpexec.Machine.Frames.{file_at, bind-cases, attempt-same, attempt-ok, read-done}
use kpexec.Db.{backup_sibling, get_credential, open_now, then_credential, seeing}
use kpexec.Db.Restore.{BackupSnapshot, capture, snapshot_of}
use kpexec.Db.Restore.Back.{SetReads}
use kpexec.Db.Rotate.{
  Rotation, commit, commit_changed, snapshot, no_snapshot, unchanged_password, not_displayed,
  set_master_password, rotate_password_with_generator, rotation, with_original, with_vault,
  with_credential, with_lock,
}
use kpexec.Db.Rotate.Stages.{Original, NeedsRecovery}
use kpexec.Db.Rotate.Safe.{Committed, CommitEnds, commit-CommitEnds}

ok_inj : {A : Type 0} {a b : A} → Result.ok a ≡ ok b → a ≡ b
ok_inj h = cc

snapshot_of-ok :
    (path : String) (f : Fault) (v : Option Bytes) (b : BackupSnapshot)
    → snapshot_of path (found_at f v) ≡ ok b
    → (b.path ≡ path) × (v ≡ b.contents)
snapshot_of-ok path fine (some c) b h =
    let e = ok_inj h in (ap (λ b. b.path) (sym e), ap (λ b. b.contents) e)
snapshot_of-ok path fine none b h =
    let e = ok_inj h in (ap (λ b. b.path) (sym e), ap (λ b. b.contents) e)
snapshot_of-ok path (fault e left) v b h = cc

pub then_credential-ok :
    (path : String) (q : Result (Option VaultCredential)) (c : VaultCredential)
    → then_credential path q ≡ ok c
    → q ≡ ok (some c)
then_credential-ok path (ok (some d)) c h = cc
then_credential-ok path (ok none) c h = cc
then_credential-ok path (err e) c h = cc

module _ {Database Keys : Type 0} (store : KeychainStore Keys) (format : Format Database)
    (path : String) (sys : System) (codec : Codec) (hint : Option String)
    (new_password : Secret) where
  -- The machine's vault, backup and credential are those of an earlier machine.
  abbrev pub Unchanged : Machine Keys → Machine Keys → Type 0
  Unchanged s t =
      (t.files path ≡ s.files path)
      × (t.files (backup_sibling path) ≡ s.files (backup_sibling path))
      × (store.get (account_for sys codec path) t.keys
          ≡ store.get (account_for sys codec path) s.keys)

  -- The vault that the old credential opened, saved under the new password as vault and as backup,
  -- and the new password stored for the same path.
  abbrev pub Renewed : Machine Keys → Machine Keys → Type 0
  Renewed s t =
      (old : VaultCredential) × (vault : Vault Database) × (b : Bytes) × (store.get
          (account_for sys codec path) s.keys
        ≡ ok (some old))
      × ((open_now format sys codec path old hint s).0 ≡ ok vault)
      × (str_eq new_password.expose old.password.expose ≡ false)
      × (serialized format (set_master_password vault new_password) ≡ done b)
      × (t.files path ≡ some b)
      × (t.files (backup_sibling path) ≡ some b)
      × (store.get (account_for sys codec path) t.keys
          ≡ ok (some (record { password = new_password; db_path = old.db_path })))

  abbrev pub RotationEnds : Machine Keys → Result Outcome × Machine Keys → Type 0
  RotationEnds s (ok o, t) = (o ≡ kpexec_level success) × Renewed s t
  RotationEnds s (err e, t) =
      Unchanged s t
      ⊎ (NeedsRecovery e ⊎ (((x : KpexecError) × (e ≡ not_displayed x)) × Renewed s t))

  abbrev rotating : VaultCredential → Vault Database → Bytes → BackupSnapshot → Rotation Database
  rotating = rotation store format path sys codec hint new_password

  -- What the rotation has read of the machine, in the order of reading.
  abbrev HasRead : Machine Keys → VaultCredential → Vault Database → Type 0
  HasRead s old vault =
      (store.get (account_for sys codec path) s.keys ≡ ok (some old))
      × ((open_now format sys codec path old hint s).0 ≡ ok vault)

  module _ (law : SetReads store) (s : Machine Keys) (old : VaultCredential)
      (vault : Vault Database) (has_read : HasRead s old vault) where
    renewed :
        (original : Bytes) (backup : BackupSnapshot) (t : Machine Keys)
        → str_eq new_password.expose old.password.expose ≡ false
        → Committed store format path (rotating old vault original backup) t
        → Renewed s t
    renewed original backup t h (b, c, f, g, k) =
        (old, vault, b, has_read.0, has_read.1, h, c, f, g, k)

    commit-Ends :
        (original : Bytes) (backup : BackupSnapshot) (t : Machine Keys)
        (q : Result Outcome × Machine Keys) (law : SetReads store)
        (at : backup.path ≡ backup_sibling path) (own : vault.path ≡ path)
        → str_eq new_password.expose old.password.expose ≡ false
        → Original store path (rotating old vault original backup) t
        → Unchanged s t
        → CommitEnds store format path (rotating old vault original backup) law at own q
        → RotationEnds s q
    commit-Ends original backup t (ok o, u) law at own h orig same (d, c) =
        (d, renewed original backup u h c)
    commit-Ends original backup t (err e, u) law at own h orig same (inl (d, c)) =
        inr (inr (d, renewed original backup u h c))
    commit-Ends original backup t (err e, u) law at own h ((f, g), k) (x, y, z)
          (inr (inl ((f', g'), k'))) =
        inl (f' ∙ sym f ∙ x, g' ∙ sym g ∙ y, k' ∙ sym k ∙ z)
    commit-Ends original backup t (err e, u) law at own h orig same (inr (inr n)) = inr (inl n)

    changed-Ends :
        (original : Bytes) (backup : BackupSnapshot) (t : Machine Keys)
        → backup.path ≡ backup_sibling path
        → vault.path ≡ path
        → Original store path (rotating old vault original backup) t
        → Unchanged s t
        → RotationEnds s (commit_changed store format path (rotating old vault original backup) t)
    changed-Ends original backup t at own orig same =
        go (str_eq new_password.expose old.password.expose) refl
      where
        r : Rotation Database
        r = rotating old vault original backup

        go :
            (q : Bool)
            → str_eq new_password.expose old.password.expose ≡ q
            → RotationEnds s
                ((if q then raise unchanged_password else commit store format path r) t)
        go true h = inl same
        go false h =
            commit-Ends original backup t (commit store format path r t) law at own h orig same
              (commit-CommitEnds store format path r law at own t orig)

    original-Ends :
        (original : Bytes) (t : Machine Keys)
        → vault.path ≡ path
        → t.files path ≡ some original
        → Unchanged s t
        → RotationEnds s
            (with_original store format path sys codec hint new_password old vault original t)
    unfolding capture
    original-Ends original t own f same =
        elim (bind-cases (capture path)
          (λ backup. commit_changed store format path (rotating old vault original backup)) t) [
            | inl (x, h, e) ↦ subst (RotationEnds s) (sym e) (inl same)
            | inr (backup, h, e) ↦
                let (at, c) =
                  snapshot_of-ok (backup_sibling path) (next t.faults)
                    (t.files (backup_sibling path)) backup h in
                subst (RotationEnds s) (sym e)
                  (changed-Ends original backup (used t) at own ((f, c), same.2 ∙ has_read.0) same)
          ]

    vault-Ends :
        (t : Machine Keys)
        → vault.path ≡ path
        → Unchanged s t
        → RotationEnds s (with_vault store format path sys codec hint new_password old vault t)
    vault-Ends t own same =
        elim (bind-cases (snapshot path)
          (with_original store format path sys codec hint new_password old vault) t) [
            | inl (x, h, e) ↦ subst (RotationEnds s) (sym e) (inl still)
            | inr (original, h, e) ↦
                let (d, _) =
                  attempt-ok (read path) (λ e. raise (no_snapshot path e)) t original
                    (λ e s a h. cc) h in
                subst (RotationEnds s) (sym e) (
                  original-Ends original (snapshot path t).1 own
                    (ap (file_at path) moved ∙ read-done path original t d) still)
          ]
      where
        moved : (snapshot path t).1 ≡ used t
        moved = attempt-same (read path) (no_snapshot path) t

        still : Unchanged s (snapshot path t).1
        still = subst (Unchanged s) (sym moved) same

  module _ (law : SetReads store) (s : Machine Keys) where
    credential-Ends :
        (old : VaultCredential)
        → store.get (account_for sys codec path) s.keys ≡ ok (some old)
        → RotationEnds s (with_credential store format path sys codec hint new_password old s)
    unfolding open_now
    credential-Ends old k =
        elim (bind-cases (open_now format sys codec path old hint)
          (with_vault store format path sys codec hint new_password old) s) [
            | inl (x, h, e) ↦ subst (RotationEnds s) (sym e) (inl (refl, refl, refl))
            | inr (vault, h, e) ↦
                let (a, b, c, own, m) =
                  open_with_credential-Bound (seeing format sys codec s) codec format.open_db path
                    old hint vault h in
                subst (RotationEnds s) (sym e)
                  (vault-Ends law s old vault (k, h) (used s) own (refl, refl, refl))
          ]

    lock-Ends : RotationEnds s (with_lock store format path sys codec hint new_password s)
    unfolding get_credential
    lock-Ends =
        elim (bind-cases (get_credential store sys codec path)
          (with_credential store format path sys codec hint new_password) s) [
            | inl (x, h, e) ↦ subst (RotationEnds s) (sym e) (inl (refl, refl, refl))
            | inr (old, h, e) ↦ subst (RotationEnds s) (sym e) (
                credential-Ends old
                  (then_credential-ok path (store.get (account_for sys codec path) s.keys) old h))
          ]

    -- Let the Keychain give back what it said it stored. Whichever file operations, Keychain calls and
    -- lines of output fail, a rotation ends in one of four ways: with `Ok` or with the error that the key
    -- could not be displayed, and then the vault and its backup are both what the database that the old
    -- credential opened serializes to under the new password, which differs from the old one, and the
    -- Keychain gives the new password for the same vault; or with an error, and the vault, its
    -- backup and the credential as they were before; or with an error that says that the vault may have to
    -- be recovered.
    pub rotate_password-RotationEnds :
        (lock : Result (Unit {0}))
        → RotationEnds s
            (rotate_password_with_generator store format path sys codec hint new_password lock s)
    unfolding rotate_password_with_generator
    rotate_password-RotationEnds (ok u) = lock-Ends
    rotate_password-RotationEnds (err e) = inl (refl, refl, refl)
