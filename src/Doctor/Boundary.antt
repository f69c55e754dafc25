-- ===== src/Doctor/Boundary.antt =====
-- src/doctor.rs: the vault password is not read before both proofs are there, and what a run without
-- failures has established.
use kpexec.Prelude.{
  ◌≡◌, refl, String, Bool, true, false, ◌&&◌, Option, none, some, [], ◌∷◌, ◌++◌, ap, ◌∙◌, subst,
  arith, All,
}
use kpexec.Status.{success}
use kpexec.Error.{Result, ok, err}
use kpexec.Keychain.{AclBinding, verified, unverified, VaultCredential, account_for}
use kpexec.Config.{Places, ReadText, load_from}
use kpexec.Vault.{Vault}
use kpexec.Vault.Open.{open_vault}
use kpexec.Report.{Passes, report_status, report_status-Passes}
use kpexec.Check.{check_vault}
use kpexec.Check.Passed.{All-split}
use kpexec.Machine.{Machine}
use kpexec.Machine.Files.{sync, write}
use kpexec.Machine.Frames.{
  keys_of, keys_of-Blind, chain-Keeps, write-Keeps, remove-Keeps, sync-Keeps,
}
use kpexec.Db.{seeing}
use kpexec.Entry.{Setting}
use kpexec.Doctor.Signature.{CodeSignature, check_code_signature, trusted_for_keychain}
use kpexec.Doctor.Environment.{EnvText, Directories}
use kpexec.Doctor.{
  run_full_with, with_vault, bounded, protected, after_open, acl_check, acl_verified, check_config,
  db_path_of, check_log_dir_writable, check_db_path, probing,
}

-- The setting with another way to read credentials.
abbrev pub reading :
    {Database Keys : Type 0}
    → Setting Database Keys
    → (String → Keys → Result (Option VaultCredential))
    → Setting Database Keys
reading env get = record {
  store = record {
    get = get;
    acl_binding = env.store.acl_binding;
    set = env.store.set;
    delete = env.store.delete;
  };
  kp = env.kp;
  format = env.format;
  json = env.json;
  sys = env.sys;
  codec = env.codec;
  term = env.term;
}

module _ {Keys : Type 0} where
  check_log_dir_writable-Keeps :
      (dir probe : String) (s : Machine Keys) → (check_log_dir_writable dir probe s).1.keys ≡ s.keys
  unfolding check_log_dir_writable
  check_log_dir_writable-Keeps dir probe s =
      let bytes = 112 ∷ 114 ∷ 111 ∷ 98 ∷ 101 ∷ [] in
      remove-Keeps keys_of probe (keys_of-Blind probe) (probing probe s).1
      ∙ chain-Keeps keys_of sync (write probe bytes) (sync-Keeps keys_of (λ s. refl))
          (write-Keeps keys_of probe bytes (keys_of-Blind probe)) s

module _ {Database Keys : Type 0} (env : Setting Database Keys) (places : Places)
    (read_text : String → ReadText) (names : EnvText) (dirs : Directories) where
  closed :
      (b : Bool) (get : String → Keys → Result (Option VaultCredential)) (cwd : String)
      (home : Option String) (vault_path : String) (s : Machine Keys)
      → b ≡ false
      → bounded env places read_text names dirs b cwd home vault_path s
        ≡ bounded (reading env get) places read_text names dirs b cwd home vault_path s
  closed true get cwd home vault_path s h = cc
  closed false get cwd home vault_path s h = refl

  -- The item of this vault is not to be read: the signature is not trusted, or its binding not verified.
  abbrev pub Unproved : CodeSignature → String → Machine Keys → Type 0
  Unproved signature vault_path s =
      trusted_for_keychain signature
        && acl_verified (env.store.acl_binding (account_for env.sys env.codec vault_path) s.keys)
      ≡ false

  with_vault-closed :
      (get : String → Keys → Result (Option VaultCredential)) (cwd : String) (home : Option String)
      (signature : CodeSignature) (db : Option String) (s : Machine Keys)
      → ((vault_path : String) → db ≡ some vault_path → Unproved signature vault_path s)
      → with_vault env places read_text names dirs signature cwd home db s
        ≡ with_vault (reading env get) places read_text names dirs signature cwd home db s
  with_vault-closed get cwd home signature none s h = refl
  with_vault-closed get cwd home signature (some vault_path) s h =
      let acl = env.store.acl_binding (account_for env.sys env.codec vault_path) s.keys in
      ap (λ cs. acl_check acl ∷ cs)
        (closed (trusted_for_keychain signature && acl_verified acl) get cwd home vault_path s
          (h vault_path refl))

  -- If the signature of the executable is not trusted, or the store has not verified the binding of the item
  -- of the vault that the configuration names, the whole run, its report and what it does to the machine, is
  -- the same whatever the Keychain would have answered to a reading of a credential: none is read. So it is
  -- too where the configuration names no vault.
  pub run_full_with-closed :
      (get : String → Keys → Result (Option VaultCredential)) (config_path log_dir cwd : String)
      (home : Option String) (signature : CodeSignature) (s : Machine Keys)
      → ((vault_path : String)
          → db_path_of (load_from places read_text config_path) ≡ some vault_path
          → Unproved signature vault_path s)
      → run_full_with env places read_text names dirs config_path log_dir cwd home signature s
        ≡ run_full_with
            (reading env get)
            places
            read_text
            names
            dirs
            config_path
            log_dir
            cwd
            home
            signature
            s
  unfolding run_full_with
  run_full_with-closed get config_path log_dir cwd home signature s h =
      let cfg = load_from places read_text config_path in
      let (log, t) =
        check_log_dir_writable log_dir (places.join log_dir ".kpexec-doctor-probe") s in
      let keys : t.keys ≡ s.keys =
        check_log_dir_writable-Keeps log_dir (places.join log_dir ".kpexec-doctor-probe") s in
      ap
        (λ cs. (
          check_config config_path cfg
              ++ (check_db_path (db_path_of cfg) s
                  ++ (log ++ (check_code_signature signature ++ cs))),
          t,
        ))
        (with_vault-closed get cwd home signature (db_path_of cfg) t (λ vault_path configured.
          ap
            (λ k.
              trusted_for_keychain signature
              && acl_verified (env.store.acl_binding (account_for env.sys env.codec vault_path) k))
            keys
          ∙ h vault_path configured))

  bounded-Passes :
      (b : Bool) (cwd : String) (home : Option String) (vault_path : String) (s : Machine Keys)
      → b ≡ true
      → All Passes (bounded env places read_text names dirs b cwd home vault_path s)
      → All Passes (protected env places read_text names dirs cwd home vault_path s)
  bounded-Passes true cwd home vault_path s e h = h
  bounded-Passes false cwd home vault_path s e h = cc

  after_open-Passes :
      (cwd : String) (home : Option String) (r : Result (Vault Database))
      → All Passes (after_open env places read_text names dirs cwd home r)
      → (vault : Vault Database) × (r ≡ ok vault)
        × All Passes (check_vault env.kp env.sys env.json vault.db none)
  after_open-Passes cwd home (ok vault) (o, h) =
      (vault, refl, (All-split Passes (check_vault env.kp env.sys env.json vault.db none) _ h).0)
  after_open-Passes cwd home (err e) h = cc (h.0)

  -- What a run without failures has established about the vault at a path.
  abbrev pub Healthy : CodeSignature → String → Machine Keys → Type 0
  Healthy signature vault_path s =
      (trusted_for_keychain signature ≡ true)
      × (env.store.acl_binding (account_for env.sys env.codec vault_path) s.keys ≡ ok verified)
      × ((vault : Vault Database) × (open_vault (seeing env.format env.sys env.codec s) env.codec
              env.format.open_db (λ account. env.store.get account s.keys) vault_path
              (some vault_path)
            ≡ ok vault)
          × All Passes (check_vault env.kp env.sys env.json vault.db none))

  acl-Passes : (r : Result AclBinding) → Passes (acl_check r) → r ≡ ok verified
  acl-Passes (ok verified) h = refl
  acl-Passes (ok unverified) h = cc
  acl-Passes (err e) h = cc

  signature-Passes :
      (signature : CodeSignature)
      → All Passes (check_code_signature signature)
      → trusted_for_keychain signature ≡ true
  unfolding check_code_signature trusted_for_keychain
  signature-Passes sig (a, (b, (c, (d, (e, g))))) = ground arith

  vault-Passes :
      (signature : CodeSignature) (cwd : String) (home : Option String) (vault_path : String)
      (s : Machine Keys)
      → All Passes (check_code_signature signature)
      → All Passes
          (with_vault env places read_text names dirs signature cwd home (some vault_path) s)
      → Healthy signature vault_path s
  vault-Passes signature cwd home vault_path s c (a, h) =
      let acl = env.store.acl_binding (account_for env.sys env.codec vault_path) s.keys in
      let trusted = signature-Passes signature c in
      let bound = acl-Passes acl a in
      let both : trusted_for_keychain signature && acl_verified acl ≡ true = rw (trusted, bound) in
      (
        trusted,
        bound,
        after_open-Passes cwd home _ (
            bounded-Passes (trusted_for_keychain signature && acl_verified acl) cwd home vault_path
              s both h),
      )

  -- A run without failures, where the configuration names a vault: the signature is trusted, the store has
  -- verified the binding of the vault's item, the vault opens, bound to its item, and no check of its
  -- policies and pins fails.
  pub run_full_with-Healthy :
      (config_path log_dir cwd : String) (home : Option String) (signature : CodeSignature)
      (s : Machine Keys) (vault_path : String)
      → db_path_of (load_from places read_text config_path) ≡ some vault_path
      → report_status
          (run_full_with env places read_text names dirs config_path log_dir cwd home signature s).0
        ≡ success
      → Healthy signature vault_path
          (run_full_with env places read_text names dirs config_path log_dir cwd home signature s).1
  unfolding run_full_with
  run_full_with-Healthy config_path log_dir cwd home signature s vault_path d h =
      let cfg = load_from places read_text config_path in
      let (log, t) =
        check_log_dir_writable log_dir (places.join log_dir ".kpexec-doctor-probe") s in
      let (_, r₁) = All-split Passes (check_config config_path cfg) _ (report_status-Passes _ h) in
      let (_, r₂) = All-split Passes (check_db_path (db_path_of cfg) s) _ r₁ in
      let (_, r₃) = All-split Passes log _ r₂ in
      let (c, v) = All-split Passes (check_code_signature signature) _ r₃ in
      vault-Passes signature cwd home vault_path t c (
        subst (λ o. All Passes (with_vault env places read_text names dirs signature cwd home o t))
          d v)
