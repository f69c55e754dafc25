-- ===== src/Init/Guard.antt =====
-- src/cmd_init.rs, `guard_clobber`: what `init` refuses before it has changed anything.
use kpexec.Prelude.{
  ◌≡◌, refl, ap, ◌∙◌, ◌⊎◌, inl, inr, String, Bool, true, false, not, ◌&&◌, Option, some,
}
use kpexec.Error.{KpexecError, Result, ok, err}
use kpexec.Secret.{Secret}
use kpexec.Keychain.{VaultCredential}
use kpexec.Config.{Places}
use kpexec.Cli.{InitArgs}
use kpexec.Machine.{Machine, Act, ◌>>=◌, ◌>>◌, continue}
use kpexec.Machine.Files.{exists}
use kpexec.Entry.{Setting}
use kpexec.Init.{
  InitWorld, guard_clobber, vault_exists, config_exists, item_exists, refuse_if, item_checked,
  account_of, init_at, keep, chosen, obtain, publish, run_internal, vault_path_of,
}

err-after :
    {Keys A B : Type 0} (m : Act Keys A) (f : A → Act Keys B) (s : Machine Keys) (e : KpexecError)
    → m s ≡ (err e, s)
    → (m >>= f) s ≡ (err e, s)
err-after m f s e h = ap (λ w. continue w.0 f w.1) h

module _ {Database Keys : Type 0} (env : Setting Database Keys) (world : InitWorld Database) where
  -- What is there already: a vault that is not to be adopted, a configuration, or a Keychain item.
  pub data Occupied (args : InitArgs) (vault_path config_path : String) (s : Machine Keys)
      : Type 0 where
    vault_there :
        args.use_existing ≡ false
        → exists vault_path s ≡ true
        → Occupied args vault_path config_path s
    config_there : exists config_path s ≡ true → Occupied args vault_path config_path s
    item_there :
        (credential : VaultCredential)
        → env.store.get (account_of env world vault_path s) s.keys ≡ ok (some credential)
        → Occupied args vault_path config_path s

  -- The three tests one after the other.
  abbrev tests :
      Bool
      → (Machine Keys → Bool)
      → (Machine Keys → Bool)
      → KpexecError
      → KpexecError
      → (Machine Keys → Result (Option VaultCredential))
      → Act Keys (Option VaultCredential)
  tests force vault config e e' item =
      (λ s. (refuse_if (vault s) e, s))
      >> ((λ s. (refuse_if (config s) e', s)) >> λ s. (item_checked env world force (item s), s))

  tests-refuse :
      (force v c : Bool) (r : Result (Option VaultCredential)) (vault config : Machine Keys → Bool)
      (e e' : KpexecError) (item : Machine Keys → Result (Option VaultCredential))
      (s : Machine Keys)
      → force ≡ false
      → vault s ≡ v
      → config s ≡ c
      → item s ≡ r
      → ((v ≡ true) ⊎ ((c ≡ true) ⊎ ((credential : VaultCredential) × (r ≡ ok (some credential)))))
      → (refused : KpexecError) × (tests force vault config e e' item s ≡ (err refused, s))
  tests-refuse true v c r vault config e e' item s f a b d h = absurd (cc)
  tests-refuse false true c r vault config e e' item s f a b d h = (e, rw a refl)
  tests-refuse false false true r vault config e e' item s f a b d h = (e', rw (a, b) refl)
  tests-refuse false false false r vault config e e' item s f a b d (inl h) = absurd (cc)
  tests-refuse false false false r vault config e e' item s f a b d (inr (inl h)) = absurd (cc)
  tests-refuse false false false r vault config e e' item s f a b d (inr (inr (credential, h))) =
      (item_exists env world, rw (a, b, d, h) refl)

  Occupied-tests :
      (args : InitArgs) (vault_path config_path : String) (s : Machine Keys)
      → args.force ≡ false
      → Occupied args vault_path config_path s
      → (((not args.force && not args.use_existing) && exists vault_path s) ≡ true)
        ⊎ (((not args.force && exists config_path s) ≡ true)
            ⊎ ((c : VaultCredential) × (env.store.get (account_of env world vault_path s) s.keys
                  ≡ ok (some c))))
  Occupied-tests args vault_path config_path s free (vault_there a v) = inl (rw (free, a, v) refl)
  Occupied-tests args vault_path config_path s free (config_there c) = inr (inl (rw (free, c) refl))
  Occupied-tests args vault_path config_path s free (item_there c h) = inr (inr (c, h))

  guard_clobber-refuses :
      (args : InitArgs) (vault_path config_path : String) (s : Machine Keys)
      → args.force ≡ false
      → Occupied args vault_path config_path s
      → (e : KpexecError) × (guard_clobber env world args vault_path
            (account_of env world vault_path s)
            config_path
            s
          ≡ (err e, s))
  unfolding guard_clobber
  guard_clobber-refuses args vault_path config_path s free there =
      tests-refuse args.force _ _ _
        (λ t. (not args.force && not args.use_existing) && exists vault_path t)
        (λ t. not args.force && exists config_path t) (vault_exists env world vault_path)
        (config_exists env world config_path)
        (λ t. env.store.get (account_of env world vault_path s) t.keys) s free refl refl refl
        (Occupied-tests args vault_path config_path s free there)

  -- Without `--force`, where the vault stands already and is not to be adopted, or the configuration does, or
  -- the Keychain has an item for the account of the vault, `init` returns an error, and the files, the
  -- Keychain, and all else of the machine, are what they were.
  pub run_internal-refused :
      (places : Places) (args : InitArgs) (vault_path config_path : String) (calibrate_kdf : Bool)
      (master_override : Option Secret) (generated : Secret) (s : Machine Keys)
      → vault_path_of env world places args.db ≡ ok vault_path
      → args.force ≡ false
      → Occupied args vault_path config_path s
      → (e : KpexecError) × (run_internal env world places args config_path calibrate_kdf
            master_override generated s
          ≡ (err e, s))
  unfolding run_internal init_at
  run_internal-refused places args vault_path config_path calibrate_kdf master_override generated s
        p free there =
      let (e, refused) = guard_clobber-refuses args vault_path config_path s free there in
      (
        e,
        ap
              (λ r.
                continue r
                  (init_at env world args config_path calibrate_kdf master_override generated) s)
              p
            ∙ err-after
                (guard_clobber env world args vault_path (account_of env world vault_path s)
                  config_path)
                (λ previous.
                  keep env world args vault_path (account_of env world vault_path s) previous
                    config_path
                  >>= λ kept.
                      chosen env world master_override
                        (obtain env world args vault_path calibrate_kdf generated)
                      >>= λ master. publish env world config_path vault_path kept master)
                s e refused,
      )
