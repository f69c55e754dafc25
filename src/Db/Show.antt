-- ===== src/Db/Show.antt =====
-- src/cmd_db.rs: what `show_password_with` shows, and when.
use kpexec.Prelude.{◌≡◌, refl, String, false, Option, some, List, ap, sym, subst, ◌⊎◌, inl, inr}
use kpexec.Error.{Result, ok, Message}
use kpexec.Status.{success, Outcome, kpexec_level}
use kpexec.Output.Variants.{Codec}
use kpexec.System.{System}
use kpexec.Keychain.{VaultCredential, KeychainStore, account_for}
use kpexec.Vault.{Vault}
use kpexec.Vault.Save.{Format}
use kpexec.Vault.Open.Binding.{Bound, open_with_credential-Bound}
use kpexec.Machine.{Machine, pure, ◌>>=◌, ◌>>◌, used}
use kpexec.Machine.Frames.{bind-cases, bind-Keeps, then-Keeps, Keeps}
use kpexec.Db.{get_credential, open_now, write_recovery_key, seeing}
use kpexec.Db.Rotate.{show_password_with}
use kpexec.Db.Rotate.Stages.{write_recovery_key-Keeps}
use kpexec.Db.Rotate.Ends.{then_credential-ok}

module _ {Database Keys : Type 0} (store : KeychainStore Keys) (format : Format Database)
    (path : String) (sys : System) (codec : Codec) (hint : Option String) where
  -- The credential that the Keychain has for the path opened the vault.
  abbrev pub Opened : Machine Keys → Type 0
  Opened s =
      (cred : VaultCredential) × (vault : Vault Database) × (store.get (account_for sys codec path)
          s.keys
        ≡ ok (some cred))
      × Bound (seeing format sys codec s) codec format.open_db path cred hint vault

  abbrev Shown : Machine Keys → Result Outcome × Machine Keys → Type 0
  Shown s (r, t) = (t.printed ≡ s.printed) ⊎ Opened s

  opening-Shown :
      (s : Machine Keys) (cred : VaultCredential)
      → store.get (account_for sys codec path) s.keys ≡ ok (some cred)
      → Shown s (
          (open_now format sys codec path cred hint >>= λ vault.
          write_recovery_key cred.password.expose path false >> pure (kpexec_level success))
            s)
  unfolding open_now
  opening-Shown s cred k =
      elim (bind-cases (open_now format sys codec path cred hint)
        (λ vault. write_recovery_key cred.password.expose path false >> pure (kpexec_level success))
        s) [
          | inl (x, h, e) ↦ inl (ap (λ w. w.1.printed) e)
          | inr (vault, h, e) ↦ inr (
            cred,
            vault,
            k,
            open_with_credential-Bound (seeing format sys codec s) codec format.open_db path cred
                hint vault h,
          )
        ]

  -- Showing the password prints something only where the Keychain's credential has opened the vault
  -- at the path, bound to it as for every command.
  pub show_password-Opened :
      (s : Machine Keys)
      → ((show_password_with store format path sys codec hint s).1.printed ≡ s.printed) ⊎ Opened s
  unfolding show_password_with get_credential
  show_password-Opened s =
      elim (bind-cases (get_credential store sys codec path)
        (λ cred. open_now format sys codec path cred hint >>= λ vault.
          write_recovery_key cred.password.expose path false >> pure (kpexec_level success))
        s) [
          | inl (x, h, e) ↦ inl (ap (λ w. w.1.printed) e)
          | inr (cred, h, e) ↦ subst (Shown s) (sym e) (
              opening-Shown s cred
                (then_credential-ok path (store.get (account_for sys codec path) s.keys) cred h))
        ]

  -- Showing the password changes neither files nor the Keychain.
  pub show_password-Keeps :
      {X : Type 0} (g : Machine Keys → X)
      → ((s : Machine Keys) → g (used s) ≡ g s)
      → ((l : List Message) (s : Machine Keys) → g (record s { printed = l }) ≡ g s)
      → Keeps g (show_password_with store format path sys codec hint)
  unfolding show_password_with get_credential open_now
  show_password-Keeps g u w =
      bind-Keeps g (get_credential store sys codec path)
        (λ cred. open_now format sys codec path cred hint >>= λ vault.
          write_recovery_key cred.password.expose path false >> pure (kpexec_level success))
        (λ s. refl)
        (λ cred.
          bind-Keeps g (open_now format sys codec path cred hint)
            (λ vault.
              write_recovery_key cred.password.expose path false >> pure (kpexec_level success))
            u
            (λ vault.
              then-Keeps g (write_recovery_key cred.password.expose path false)
                (pure (kpexec_level success))
                (write_recovery_key-Keeps g cred.password.expose path false u w) (λ s. refl)))
