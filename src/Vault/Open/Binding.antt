-- ===== src/Vault/Open/Binding.antt =====
-- src/vault.rs: an opened vault is the one that its Keychain item names.
use kpexec.Prelude.{◌≡◌, refl, String, Option, none, some, str_eq_iff, arith, ap, subst}
use kpexec.Error.{KpexecError, Result, ok, Message, >>=-eq-ok, ok_or}
use kpexec.Output.Bytes.{Bytes}
use kpexec.Output.Variants.{Codec}
use kpexec.System.{System, Io, done, failed}
use kpexec.Keychain.{VaultCredential, Lookup, account_for}
use kpexec.Vault.{Vault}
use kpexec.Vault.Open.{
  OpenDatabase, canonical_or_lexical, agree, check_hint, or_unlock_failed, open_with_credential,
  open_vault,
}

ok_inj : {A : Type 0} {a b : A} → Result.ok a ≡ ok b → a ≡ b
ok_inj h = cc

or_unlock_failed-ok :
    {A : Type 0} {a : A} (r : Io A) (m : Message) → or_unlock_failed r m ≡ ok a → r ≡ done a
or_unlock_failed-ok (done b) m h = ap done (ok_inj h)
or_unlock_failed-ok (failed e) m h = cc

ok_or-ok : {A : Type 0} {a : A} (o : Option A) (e : KpexecError) → ok_or o e ≡ ok a → o ≡ some a
ok_or-ok (some b) e h = ap some (ok_inj h)
ok_or-ok none e h = cc

module _ {Database : Type 0} (sys : System) (codec : Codec) (open_db : OpenDatabase Database) where
  agree-ok :
      (a b : String) (m : Message) {u : Unit {0}} → agree sys codec open_db a b m ≡ ok u → a ≡ b
  agree-ok a b m h = ground (arith, str_eq_iff a b)

  -- The hint of the configuration, if there is one, leads to the blessed vault.
  abbrev pub Hinted : Option String → String → Type 0
  Hinted none blessed = Unit
  Hinted (some hint) blessed = canonical_or_lexical sys hint ≡ blessed

  check_hint-ok :
      (hint : Option String) (blessed : String) {u : Unit {0}}
      → check_hint sys codec open_db hint blessed ≡ ok u
      → Hinted hint blessed
  check_hint-ok none blessed h = tt
  check_hint-ok (some hint) blessed h = agree-ok (canonical_or_lexical sys hint) blessed _ h

  -- What the vault that was opened has to do with the credential of the Keychain.
  abbrev pub Bound : String → VaultCredential → Option String → Vault Database → Type 0
  Bound path cred hint vault =
      (canonical_or_lexical sys path ≡ canonical_or_lexical sys cred.db_path)
      × Hinted hint (canonical_or_lexical sys cred.db_path)
      × ((file : Bytes) × (sys.read path ≡ done file)
          × (open_db file cred.password.expose ≡ done vault.db))
      × (vault.path ≡ path)
      × (vault.master ≡ cred.password)

  pub open_with_credential-Bound :
      (path : String) (cred : VaultCredential) (hint : Option String) (vault : Vault Database)
      → open_with_credential sys codec open_db path cred hint ≡ ok vault
      → Bound path cred hint vault
  unfolding open_with_credential
  open_with_credential-Bound path cred hint vault h =
      let (_, same, h₁) = >>=-eq-ok (agree sys codec open_db _ _ _) _ h in
      let (_, hinted, h₂) = >>=-eq-ok (check_hint sys codec open_db hint _) _ h₁ in
      let (file, r, h₃) = >>=-eq-ok (or_unlock_failed (sys.read path) _) _ h₂ in
      let (db, d, h₄) = >>=-eq-ok (or_unlock_failed (open_db file cred.password.expose) _) _ h₃ in
      subst (Bound path cred hint) (ok_inj h₄) (
        agree-ok _ _ _ same,
        check_hint-ok hint _ hinted,
        (
          file,
          or_unlock_failed-ok (sys.read path) _ r,
          or_unlock_failed-ok (open_db file cred.password.expose) _ d,
        ),
        refl,
        refl,
      )

  -- A vault is opened only with the credential that the Keychain has under its account; the path of
  -- this credential and, if the configuration names one, the path of the configuration have the
  -- same canonical form as the path that was asked for; and its database is what the file gives with the
  -- password of the credential.
  pub open_vault-Bound :
      (keychain : Lookup) (path : String) (hint : Option String) (vault : Vault Database)
      → open_vault sys codec open_db keychain path hint ≡ ok vault
      → (cred : VaultCredential) × (keychain (account_for sys codec path) ≡ ok (some cred))
        × Bound path cred hint vault
  unfolding open_vault
  open_vault-Bound keychain path hint vault h =
      let (found, k, h₁) = >>=-eq-ok (keychain (account_for sys codec path)) _ h in
      let (cred, s, h₂) = >>=-eq-ok (ok_or found _) _ h₁ in
      (cred, rw (ok_or-ok found _ s) at k, open_with_credential-Bound path cred hint vault h₂)
