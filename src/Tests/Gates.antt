-- ===== src/Tests/Gates.antt =====
-- Applications of the theorems on src/commands.rs, src/user_presence.rs, src/vault.rs and
-- src/logging.rs.
use Prim.Native.Char.{Char}
use kpexec.Prelude.{ℕ, ◌≡◌, ◌≢◌, ◌↔◌, refl, String, Bool, true, false, some, inl, List, [], ◌∷◌, In}
use kpexec.Status.{success, kpexec_level, user_presence_denied, pos}
use kpexec.Error.{KpexecError, ok, err, text}
use kpexec.Policy.{field_id}
use kpexec.Keychain.{VaultCredential, account_for}
use kpexec.Vault.{
  Keepass, Vault, read_secret, find_entry, update_policy, update_secret, remove_entry,
  duplicate_ids, password_field,
}
use kpexec.Vault.Duplicated.{Refused, duplicate_ids-Refused}
use kpexec.Vault.Selection.{read_secret_sound}
use kpexec.Vault.Open.{open_vault, open_with_credential}
use kpexec.Vault.Open.Binding.{Bound, open_vault-Bound}
use kpexec.UserPresence.{authorize, authorize_iff}
use kpexec.Cli.{db, rotate_password}
use kpexec.Commands.{Handlers, Handler, dispatch_with_user_presence}
use kpexec.Commands.Gate.{dispatch-denied}
use kpexec.Tests.{
  sample_codec, sample_secret, sample_sys, sample_policy, sample_keepass, sample_json, sample_world,
}

-- A handler adds its number to the list of what was run.
abbrev noted : ℕ → Handler (List ℕ)
noted n ran = (n ∷ ran, ok (kpexec_level success))

abbrev sample_handlers : Handlers (List ℕ)
sample_handlers = record {
  run = λ _. noted 0;
  init = λ _. noted 1;
  doctor_cmd = noted 2;
  check = λ _. noted 3;
  add = λ _. noted 4;
  add_command = λ _. noted 5;
  rm_command = λ _. noted 6;
  set_secret = λ _. noted 7;
  edit = λ _. noted 8;
  rm = λ _. noted 9;
  list = λ _. noted 10;
  show = λ _. noted 11;
  repin = λ _. noted 12;
  rotate_password = noted 13;
  show_password = noted 14;
}

abbrev no_letters : Char → Bool
no_letters c = false

abbrev refusal : KpexecError
refusal = record { status = user_presence_denied; message = text "no" ∷ [] }

dispatch-denied_example :
    dispatch_with_user_presence sample_handlers no_letters
      (λ _. err refusal)
      (db rotate_password)
      []
    ≡ ([], err refusal)
dispatch-denied_example =
    dispatch-denied no_letters sample_handlers (λ _. err refusal) (db rotate_password) [] refusal
      refl (λ _. refl)

authorize_iff_example :
    (authorize (λ _. true) (λ _. (pos 1, "cancelled")) "Approve" ≡ ok tt)
    ↔ ((true ≡ true) × (pos 1 ≡ pos 0))
authorize_iff_example = authorize_iff (λ _. true) (λ _. (pos 1, "cancelled")) "Approve"

read_secret_sound_example :
    (e : ℕ) × In e (0 ∷ [])
    × (sample_keepass.get tt e field_id ≡ some "gh")
    × ((f : ℕ) → In f (0 ∷ []) → sample_keepass.get tt f field_id ≡ some "gh" → f ≡ e)
    × (sample_keepass.get tt e password_field ≡ some "ab")
    × (◌≢◌ {A = String} "ab" "")
unfolding read_secret
read_secret_sound_example = read_secret_sound sample_keepass tt "gh" sample_secret refl

-- The vault with its entry twice.
abbrev twice : Keepass (Unit {0})
twice = record {
  iter_all_entries = λ _. 0 ∷ 1 ∷ [];
  get = sample_keepass.get;
  add_entry = sample_keepass.add_entry;
  set = sample_keepass.set;
  entry_mut = sample_keepass.entry_mut;
  remove = sample_keepass.remove;
}

duplicate_ids-Refused_example :
    Refused (find_entry twice sample_json tt "gh")
    × Refused (read_secret twice tt "gh")
    × Refused (update_policy twice sample_json tt "gh" sample_policy)
    × Refused (update_secret twice tt "gh" sample_secret)
    × Refused (remove_entry twice tt "gh")
unfolding duplicate_ids
duplicate_ids-Refused_example =
    duplicate_ids-Refused twice sample_json tt "gh" "{}" sample_policy sample_secret (inl refl) refl

abbrev sample_credential : VaultCredential
sample_credential = record { password = sample_secret; db_path = "/v.kdbx" }

abbrev sample_vault : Vault (Unit {0})
sample_vault = record { db = tt; path = "/v.kdbx"; master = sample_secret }

open_vault-Bound_example :
    (cred : VaultCredential) × (sample_world.keychain
        (account_for sample_sys sample_codec "/v.kdbx")
      ≡ ok (some cred))
    × Bound sample_sys sample_codec sample_world.open_db "/v.kdbx" cred
        (some "/v.kdbx")
        sample_vault
unfolding open_vault open_with_credential
open_vault-Bound_example =
    open_vault-Bound sample_sys sample_codec sample_world.open_db sample_world.keychain "/v.kdbx"
      (some "/v.kdbx") sample_vault refl
