-- ===== src/Tests/Vaults.antt =====
-- A vault with one entry in a file, a Keychain with one item, and applications of the theorems on what
-- changes them: src/vault.rs, src/cmd_db.rs and src/cmd_entry.rs.
use kpexec.Prelude.{
  ℕ, zero, suc, ◌==◌, ◌≡◌, refl, String, Bool, true, false, ◌&&◌, Option, none, some, List, [], ◌∷◌,
  str_eq, str_eq_iff, if◌then◌else◌, arith, ◌⊎◌, ap, sym, subst,
}
use kpexec.Status.{success, kpexec_level}
use kpexec.Error.{ok}
use kpexec.Output.Bytes.{Bytes}
use kpexec.System.{Io, done, failed}
use kpexec.Secret.{Secret}
use kpexec.Policy.{field_id, field_policy, Command, parse}
use kpexec.Keychain.{VaultCredential, KeychainStore, verified}
use kpexec.Cli.{EntryAddArgs, EntryAddCommandArgs, EntrySetSecretArgs, EntryEditArgs}
use kpexec.Prompt.{Terminal, read_secret as prompt_secret, validate_secret}
use kpexec.Vault.{Keepass, Vault, password_field, find_entry, update_secret}
use kpexec.Vault.Open.{open_vault}
use kpexec.Vault.Reading.{KeepassLaws}
use kpexec.Vault.Save.{Format, save_atomic, serialized}
use kpexec.Vault.Save.Atomic.{Saved, save_atomic-Saved}
use kpexec.Machine.{Machine, Act, Fault, fine, fault, read_input}
use kpexec.Machine.Files.{sync, write, rename, copy}
use kpexec.Db.Restore.Back.{SetReads}
use kpexec.Db.Rotate.{rotate_password_with_generator, show_password_with}
use kpexec.Db.Rotate.Ends.{RotationEnds, rotate_password-RotationEnds}
use kpexec.Db.Show.{Opened, show_password-Opened}
use kpexec.Entry.{Setting, open_now, require_entry, save_and_report}
use kpexec.Entry.Atomic.{Tries}
use kpexec.Entry.Failures.{entry_failures}
use kpexec.Entry.Handlers.{
  add_with, add_command_with, rm_command_with, set_secret_with, edit_with, rm_with,
}
use kpexec.Entry.Repin.{repin_with}
use kpexec.Entry.SetSecret.{FormatLaws, Stored, set_secret-Stored}
use kpexec.Entry.Show.{Display, list_render, show_render}
use kpexec.Entry.Show.Masked.{secrets_unseen}
use kpexec.Tests.{sample_codec, sample_sys, sample_json}

-- The fields of the entry 0, the newest value first.
abbrev pub Fields : Type 0
Fields = List (String × String)

abbrev lookup : String → Fields → Option String
lookup f [] = none
lookup f ((g, v) ∷ db) = if str_eq g f then some v else lookup f db

abbrev get_field : Fields → ℕ → String → Option String
get_field db e f = if e == 0 then lookup f db else none

abbrev set_field : Fields → ℕ → String → String → Fields
set_field db e f v = if e == 0 then (f, v) ∷ db else db

abbrev one_entry : Keepass Fields
one_entry = record {
  iter_all_entries = λ _. 0 ∷ [];
  get = get_field;
  add_entry = λ db. (1, db);
  set = set_field;
  entry_mut = λ db e. true;
  remove = λ db e. db;
}

one_entry_laws : KeepassLaws one_entry
one_entry_laws = record {
  iter-set = λ db e f v. refl;
  get-set = λ db e f v i. ground (arith, str_eq_iff f f);
  get-set_entry = λ db e x f g v n. ground arith;
  get-set_field = λ db e x f g v n. ground (arith, str_eq_iff f g);
}

abbrev with_password : String → Fields
with_password password = (field_id, "gh") ∷ (field_policy, "{}") ∷ (password_field, password) ∷ []

abbrev old_fields : Fields
old_fields = with_password "old secret"

abbrev new_fields : Fields
new_fields = (password_field, "new secret") ∷ old_fields

abbrev same_fields : Fields → Fields → Bool
same_fields [] [] = true
same_fields ((f, v) ∷ db) ((g, w) ∷ db') = str_eq f g && (str_eq v w && same_fields db db')
same_fields [] (_ ∷ _) = false
same_fields (_ ∷ _) [] = false

same_fields-eq : (db db' : Fields) → same_fields db db' ≡ true → db ≡ db'
same_fields-eq [] [] h = refl
same_fields-eq ((f, v) ∷ db) ((g, w) ∷ db') h =
    ground (arith, str_eq_iff f g, str_eq_iff v w, same_fields-eq db db')
same_fields-eq [] (_ ∷ _) h = cc
same_fields-eq (_ ∷ _) [] h = cc

-- A format that knows two databases.
abbrev read_fields : Bytes → String → Io Fields
read_fields (zero ∷ []) password = done old_fields
read_fields (suc _ ∷ []) password = done new_fields
read_fields _ password = failed "not a database"

abbrev write_fields : Fields → String → Io Bytes
write_fields db password =
    if same_fields db old_fields
    then done (0 ∷ [])
    else if same_fields db new_fields
    then done (1 ∷ [])
    else failed "not known"

abbrev sample_format : Format Fields
sample_format = record {
  parent = λ _. some "/";
  pin_version = λ db. db;
  save = write_fields;
  open_db = read_fields;
}

abbrev one_item : KeychainStore (Option VaultCredential)
one_item = record {
  get = λ account k. ok k;
  acl_binding = λ account k. ok verified;
  set = λ account c k. (ok tt, some c);
  delete = λ account k. (ok tt, none);
}

one_item-SetReads : SetReads one_item
one_item-SetReads account c k h = refl

abbrev sample_terminal : Terminal
sample_terminal = record {
  is_terminal = false;
  prompt_password = λ _. done "new secret";
  strip_suffix = λ s t. none;
  trim_line_end = λ s. s;
  trim = λ s. s;
  split = λ s. done (s ∷ []);
}

abbrev pub sample_setting : Setting Fields (Option VaultCredential)
sample_setting = record {
  store = one_item;
  kp = one_entry;
  format = sample_format;
  json = sample_json;
  sys = sample_sys;
  codec = sample_codec;
  term = sample_terminal;
}

abbrev old_master : Secret
old_master = record { expose = "master" }

abbrev item : VaultCredential
item = record { password = old_master; db_path = "/v.kdbx" }

-- The vault is there, and the faults are those given.
abbrev pub machine_with : List Fault → Machine (Option VaultCredential)
machine_with faults = record {
  files = λ path. if str_eq path "/v.kdbx" then some (0 ∷ []) else none;
  faults = faults;
  keys = some item;
  printed = [];
  warned = [];
  input = "new secret" ∷ [];
}

-- The renaming fails, after the directory, the temporary file, its writing, its syncing and the backup.
abbrev renaming_fails : List Fault
renaming_fails = fine ∷ fine ∷ fine ∷ fine ∷ fine ∷ fault "full" none ∷ []

abbrev sample_vault : Vault Fields
sample_vault = record { db = old_fields; path = "/v.kdbx"; master = old_master }

save_atomic-Saved_example :
    Saved
      (save_atomic sample_format sample_vault (machine_with renaming_fails)).0
      (some (0 ∷ []))
      ((save_atomic sample_format sample_vault (machine_with renaming_fails)).1.files "/v.kdbx")
      (serialized sample_format sample_vault)
save_atomic-Saved_example =
    save_atomic-Saved sample_format sample_vault (machine_with renaming_fails)

abbrev new_master : Secret
new_master = record { expose = "remade" }

rotate_password-RotationEnds_example :
    RotationEnds one_item sample_format "/v.kdbx" sample_sys sample_codec none new_master
      (machine_with (fine ∷ fine ∷ fine ∷ renaming_fails))
      (rotate_password_with_generator one_item sample_format "/v.kdbx" sample_sys sample_codec none
        new_master
        (ok tt)
        (machine_with (fine ∷ fine ∷ fine ∷ renaming_fails)))
rotate_password-RotationEnds_example =
    rotate_password-RotationEnds one_item sample_format "/v.kdbx" sample_sys sample_codec none
      new_master one_item-SetReads (machine_with (fine ∷ fine ∷ fine ∷ renaming_fails)) (ok tt)

show_password-Opened_example :
    ((show_password_with one_item sample_format "/v.kdbx" sample_sys sample_codec none
        (machine_with [])).1.printed
      ≡ [])
    ⊎ Opened one_item sample_format "/v.kdbx" sample_sys sample_codec none (machine_with [])
show_password-Opened_example =
    show_password-Opened one_item sample_format "/v.kdbx" sample_sys sample_codec none
      (machine_with [])

abbrev no_wizard : Bool → Act (Option VaultCredential) (List Command)
no_wizard no_pin s = (ok [], s)

abbrev add_args : EntryAddArgs
add_args = record {
  id = some "gh";
  no_pin = false;
  secret_stdin = true;
  description = some "";
  title = none;
  inject = some "TOKEN";
  commands = [];
  force = true;
}

abbrev set_secret_args : EntrySetSecretArgs
set_secret_args = record { id = "gh"; secret_stdin = true }

abbrev more_args : EntryAddCommandArgs
more_args = record { id = "gh"; no_pin = false; commands = [] }

abbrev edit_args : EntryEditArgs
edit_args = record { id = "gh"; description = none; title = none; inject = some "TOKEN" }

entry_failures_example :
    Tries "/v.kdbx" (add_with sample_setting "/v.kdbx" none no_wizard (ok tt) add_args)
    × Tries "/v.kdbx" (add_command_with sample_setting "/v.kdbx" none no_wizard (ok tt) more_args)
    × Tries "/v.kdbx" (
        rm_command_with sample_setting "/v.kdbx" none no_wizard
          (ok tt)
          (record { id = "gh"; name = "api" }))
    × Tries "/v.kdbx"
        (set_secret_with sample_setting "/v.kdbx" none no_wizard (ok tt) set_secret_args)
    × Tries "/v.kdbx" (edit_with sample_setting "/v.kdbx" none no_wizard (ok tt) edit_args)
    × Tries "/v.kdbx" (rm_with sample_setting "/v.kdbx" none no_wizard (ok tt) "gh")
    × Tries "/v.kdbx" (
        repin_with sample_setting "/v.kdbx" none no_wizard
          (ok tt)
          (record { id = "gh"; command_name = none }))
entry_failures_example =
    entry_failures sample_setting "/v.kdbx" none no_wizard (λ b s. refl) (ok tt) "gh" add_args
      more_args (record { id = "gh"; name = "api" }) set_secret_args edit_args
      (record { id = "gh"; command_name = none })

written_as :
    (db : Fields) (password : String) (b : Bytes) (p q : Bool)
    → same_fields db old_fields ≡ p
    → same_fields db new_fields ≡ q
    → (if p then done (0 ∷ []) else if q then done (1 ∷ []) else failed "not known") ≡ done b
    → read_fields b password ≡ done db
written_as db password b true q e f h =
    let same = same_fields-eq db old_fields e in
    let bytes : 0 ∷ [] ≡ b = ap (λ r. elim r [ done c ↦ c | failed _ ↦ b ]) h in
    subst (λ c. read_fields c password ≡ done db) bytes (ap done (sym same))
written_as db password b false true e f h =
    let same = same_fields-eq db new_fields f in
    let bytes : 1 ∷ [] ≡ b = ap (λ r. elim r [ done c ↦ c | failed _ ↦ b ]) h in
    subst (λ c. read_fields c password ≡ done db) bytes (ap done (sym same))
written_as db password b false false e f h = cc

sample_format_laws : FormatLaws one_entry sample_format
sample_format_laws = record {
  open-save = λ db password b h. (
    db,
    written_as db password b (same_fields db old_fields) (same_fields db new_fields) refl refl h,
    (refl, λ e f. refl),
  );
  pinned = λ db. (refl, λ e f. refl);
}

set_secret_runs :
    (set_secret_with sample_setting "/v.kdbx" none no_wizard
      (ok tt)
      set_secret_args
      (machine_with [])).0
    ≡ ok (kpexec_level success)
unfolding set_secret_with prompt_secret read_input validate_secret open_now open_vault require_entry
    find_entry parse update_secret save_and_report save_atomic sync write rename copy
set_secret_runs = refl

set_secret-Stored_example :
    (secret : Secret) × (vault : Vault Fields) × ((prompt_secret sample_codec sample_terminal
        "New secret (hidden): " true
        (machine_with [])).0
      ≡ ok secret)
    × ((open_now sample_setting "/v.kdbx" none
          (prompt_secret sample_codec sample_terminal "New secret (hidden): " true
            (machine_with [])).1).0
        ≡ ok vault)
    × Stored sample_setting "/v.kdbx" none no_wizard vault "gh" secret
        (set_secret_with sample_setting "/v.kdbx" none no_wizard
          (ok tt)
          set_secret_args
          (machine_with [])).1
set_secret-Stored_example =
    set_secret-Stored sample_setting "/v.kdbx" none no_wizard one_entry_laws sample_format_laws
      (ok tt) set_secret_args (machine_with []) (kpexec_level success) refl set_secret_runs

abbrev sample_display : Display
sample_display = record { to_string = λ json. done "{}"; pad = λ n s. s; join = λ words. "" }

abbrev other_fields : Fields
other_fields = with_password "another"

secrets_unseen_example :
    (list_render one_entry sample_json sample_display old_fields true
      ≡ list_render one_entry sample_json sample_display other_fields true)
    × (show_render one_entry sample_json sample_display old_fields "gh" true
        ≡ show_render one_entry sample_json sample_display other_fields "gh" true)
secrets_unseen_example =
    secrets_unseen one_entry sample_json sample_display old_fields other_fields "gh" true
      (refl, λ e f n. ground (arith, str_eq_iff password_field f), λ e. ground arith)
