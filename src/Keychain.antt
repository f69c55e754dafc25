-- ===== src/Keychain.antt =====
-- src/keychain.rs: credentials and their account names. The store itself, the login Keychain, is a
-- parameter.
use Prim.Native.String.{◌++◌ as push_str}
use kpexec.Prelude.{String, Option, take}
use kpexec.Error.{Result}
use kpexec.Secret.{Secret}
use kpexec.Output.Variants.{Codec}
use kpexec.System.{System, Io, done, failed}
use kpexec.Pin.{hex}

pub record VaultCredential : Type 0 where
  pub password : Secret
  pub db_path : String

-- `KeychainStore::get`.
abbrev pub Lookup : Type 0
Lookup = String → Result (Option VaultCredential)

abbrev pub unwrap_or : Io String → String → String
unwrap_or (done s) d = s
unwrap_or (failed _) d = d

module _ (sys : System) (codec : Codec) where
  unfoldable pub fingerprint : String → String
  unfolding hex
  fingerprint vault_path =
      hex
        (take 6 (sys.sha256 (codec.as_bytes (unwrap_or (sys.canonicalize vault_path) vault_path))))

  unfoldable pub account_for : String → String
  unfolding fingerprint
  account_for vault_path = push_str "db-password:" (fingerprint vault_path)

-- Whether the store has verified the binding of an item against substitution.
pub data AclBinding : Type 0 where
  verified unverified : AclBinding

-- The trait `KeychainStore`, with the state of a store made explicit.
pub record KeychainStore (Keys : Type 0) : Type 0 where
  pub get : String → Keys → Result (Option VaultCredential)
  pub acl_binding : String → Keys → Result AclBinding
  pub set : String → VaultCredential → Keys → Result (Unit {0}) × Keys
  pub delete : String → Keys → Result (Unit {0}) × Keys
