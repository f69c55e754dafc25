-- ===== src/Entry/Handlers.antt =====
-- src/cmd_entry.rs: `entry add`, `add-command`, `rm-command`, `set-secret`, `edit`, `rm` and `repin`.
use kpexec.Prelude.{
  String, Bool, true, false, not, ◌&&◌, Option, none, some, List, [], ◌∷◌, ◌++◌, str_eq,
  if◌then◌else◌, length, ◌==◌,
}
use kpexec.Status.{malformed_policy, config_error, unknown_command, Outcome}
use kpexec.Error.{KpexecError, Result, ok, err, fail, text, debug, number, Message}
use kpexec.Secret.{Secret}
use kpexec.Policy.{Policy, Command, new}
use kpexec.Cli.{
  EntryAddArgs, EntryAddCommandArgs, EntryRmCommandArgs, EntrySetSecretArgs, EntryEditArgs,
}
use kpexec.Prompt.{read_line, read_secret}
use kpexec.Vault.{
  Vault, EntryView, contains, insert_entry, update_policy, update_secret, remove_entry,
}
use kpexec.Machine.{Act, from_result, ◌>>=◌, ◌>>◌}
use kpexec.Entry.{Setting, with_db, open_now, require_entry, save_and_report}
use kpexec.Entry.Authoring.{collect_commands, reject_empty, reject_duplicate_command_names}

abbrev pub or_id : Option String → String → String
or_id none id = id
or_id (some title) id = title

abbrev pub no_commands : Message → List Command → Result (Unit {0})
no_commands m [] = fail malformed_policy m
no_commands m (_ ∷ _) = ok tt

abbrev exists_already : String → KpexecError
exists_already id = record {
  status = config_error;
  message = text "entry " ∷ debug id ∷ text " already exists; pass --force to replace it" ∷ [];
}

abbrev pub no_command : String → String → KpexecError
no_command id name = record {
  status = unknown_command;
  message = text "entry " ∷ debug id ∷ text " has no command " ∷ debug name ∷ [];
}

-- `retain(|c| c.name != name)`.
abbrev pub without : String → List Command → List Command
without name [] = []
without name (c ∷ cs) = let rest = without name cs in if str_eq c.name name then rest else c ∷ rest

abbrev pub with_commands : Policy → List Command → Policy
with_commands policy commands = record policy { commands = commands }

abbrev pub with_description : Policy → Option String → Policy
with_description policy none = policy
with_description policy (some d) = record policy { description = d }

abbrev pub with_inject : Policy → String → Policy
with_inject policy name = record {
  schema = policy.schema;
  description = policy.description;
  secret = record {
    field = policy.secret.field;
    inject = record { kind = policy.secret.inject.kind; name = name };
  };
  env = policy.env;
  commands = policy.commands;
  output = policy.output;
}

module _ {Database Keys : Type 0} (env : Setting Database Keys) (vault_path : String)
    (config_hint : Option String) (wizard : Bool → Act Keys (List Command)) where
  -- The first argument of a handler is what taking the write lock came to; the lock covers all that
  -- follows it.
  abbrev pub replaced : Bool → Vault Database → String → Result Database
  replaced true vault id = remove_entry env.kp vault.db id
  replaced false vault id = ok vault.db

  abbrev pub unless_exists : Bool → Bool → String → Result (Unit {0})
  unless_exists there force id = if there && not force then err (exists_already id) else ok tt

  abbrev pub written : String → List Command → Message
  written id commands =
      text "entry "
      ∷ debug id
      ∷ text " ("
      ∷ number (length commands)
      ∷ text " command(s)) written to "
      ∷ text vault_path
      ∷ []

  -- What `entry add` does once its fields are complete.
  unfoldable pub add_entry :
      Result (Unit {0}) → Bool → String → String → Secret → Policy → Act Keys Outcome
  add_entry lock force id title secret policy =
      from_result lock
      >> (open_now env vault_path config_hint >>= λ vault.
          (from_result (unless_exists (contains env.kp vault.db id) force id)
            >> (from_result (replaced (contains env.kp vault.db id) vault id) >>= λ db.
                from_result (insert_entry env.kp env.json db id title secret policy) >>= λ db.
                save_and_report env (with_db vault db) (written id policy.commands))))

  abbrev pub new_policy : String → String → List Command → Policy
  new_policy description inject commands = with_commands (new description inject none) commands

  abbrev pub need_template : Message
  need_template = text "an entry needs at least one command template" ∷ []

  abbrev pub add_commands :
      Result (Unit {0})
      → EntryAddArgs
      → String
      → String
      → String
      → Secret
      → List Command
      → Act Keys Outcome
  add_commands lock args id description inject secret commands =
      from_result (no_commands need_template commands)
      >> (from_result (reject_duplicate_command_names (new_policy description inject commands))
          >> add_entry lock args.force id (or_id args.title id) secret
              (new_policy description inject commands))

  abbrev pub add_secret :
      Result (Unit {0}) → EntryAddArgs → String → String → String → Act Keys Outcome
  add_secret lock args id description inject =
      read_secret env.codec env.term "Secret (hidden): " args.secret_stdin >>= λ secret.
      collect_commands env.sys env.term wizard args.commands args.no_pin
      >>= add_commands lock args id description inject secret

  abbrev pub add_inject :
      Result (Unit {0}) → EntryAddArgs → String → String → String → Act Keys Outcome
  add_inject lock args id description inject =
      from_result (reject_empty env.term inject "inject env var name")
      >> add_secret lock args id description inject

  abbrev pub add_fields : Result (Unit {0}) → EntryAddArgs → String → Act Keys Outcome
  add_fields lock args id = read_line env.term "Description" args.description >>= λ description.
      read_line env.term "Inject as env var" args.inject >>= add_inject lock args id description

  abbrev pub add_id : Result (Unit {0}) → EntryAddArgs → String → Act Keys Outcome
  add_id lock args id = from_result (reject_empty env.term id "entry id") >> add_fields lock args id

  unfoldable pub add_with : Result (Unit {0}) → EntryAddArgs → Act Keys Outcome
  add_with lock args = read_line env.term "Entry id" args.id >>= add_id lock args

  -- A changed policy of an entry, saved.
  abbrev pub save_policy : Vault Database → String → Policy → Message → Act Keys Outcome
  save_policy vault id policy report =
      from_result (update_policy env.kp env.json vault.db id policy) >>= λ db.
      save_and_report env (with_db vault db) report

  -- The lock, the vault and the entry, and what is done with them.
  abbrev pub on_entry :
      Result (Unit {0})
      → String
      → (Vault Database → EntryView → Act Keys Outcome)
      → Act Keys Outcome
  on_entry lock id change =
      from_result lock
      >> (open_now env vault_path config_hint >>= λ vault.
          from_result (require_entry env vault.db id) >>= λ view. change vault view)

  abbrev pub now_has : String → Policy → Message
  now_has id policy =
      text "entry "
      ∷ debug id
      ∷ text " now has "
      ∷ number (length policy.commands)
      ∷ text " command(s)"
      ∷ []

  abbrev pub extend : String → List Command → Vault Database → EntryView → Act Keys Outcome
  extend id commands vault view =
      let policy = with_commands view.policy (view.policy.commands ++ commands) in
      from_result (reject_duplicate_command_names policy)
      >> save_policy vault id policy (now_has id policy)

  unfoldable pub add_command_with : Result (Unit {0}) → EntryAddCommandArgs → Act Keys Outcome
  add_command_with lock args =
      collect_commands env.sys env.term wizard args.commands args.no_pin >>= λ commands.
      (from_result
          (no_commands (text "add-command needs at least one command template" ∷ []) commands)
        >> on_entry lock args.id (extend args.id commands))

  abbrev pub last_command : Message
  last_command = text "cannot remove the last command; use `entry rm` to delete the entry" ∷ []

  abbrev pub shrink : String → String → Vault Database → EntryView → Act Keys Outcome
  shrink id name vault view =
      let left = without name view.policy.commands in
      from_result
        (if length left == length view.policy.commands then err (no_command id name) else ok tt)
      >> (from_result (no_commands last_command left)
          >> save_policy vault id (with_commands view.policy left)
              (text "removed command " ∷ debug name ∷ text " from entry " ∷ debug id ∷ []))

  unfoldable pub rm_command_with : Result (Unit {0}) → EntryRmCommandArgs → Act Keys Outcome
  rm_command_with lock args = on_entry lock args.id (shrink args.id args.name)

  abbrev pub store_secret : String → Secret → Vault Database → EntryView → Act Keys Outcome
  store_secret id secret vault view =
      from_result (update_secret env.kp vault.db id secret) >>= λ db.
      save_and_report env (with_db vault db) (text "rotated secret for entry " ∷ debug id ∷ [])

  unfoldable pub set_secret_with : Result (Unit {0}) → EntrySetSecretArgs → Act Keys Outcome
  set_secret_with lock args =
      read_secret env.codec env.term "New secret (hidden): " args.secret_stdin >>= λ secret.
      on_entry lock args.id (store_secret args.id secret)

  abbrev pub injected : Policy → Option String → Result Policy
  injected policy none = ok policy
  injected policy (some name) =
      kpexec.Error.◌>>=◌ (reject_empty env.term name "inject env var name")
        λ _. ok (with_inject policy name)

  abbrev pub amend : EntryEditArgs → Vault Database → EntryView → Act Keys Outcome
  amend args vault view =
      from_result (injected (with_description view.policy args.description) args.inject)
      >>= λ policy. save_policy vault args.id policy (text "updated entry " ∷ debug args.id ∷ [])

  unfoldable pub edit_with : Result (Unit {0}) → EntryEditArgs → Act Keys Outcome
  edit_with lock args = on_entry lock args.id (amend args)

  abbrev pub delete : String → Vault Database → EntryView → Act Keys Outcome
  delete id vault view = from_result (remove_entry env.kp vault.db id) >>= λ db.
      save_and_report env (with_db vault db) (text "removed entry " ∷ debug id ∷ [])

  unfoldable pub rm_with : Result (Unit {0}) → String → Act Keys Outcome
  rm_with lock id = on_entry lock id (delete id)
