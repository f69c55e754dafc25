-- ===== src/Entry/Failures.antt =====
-- src/cmd_entry.rs: what an `entry` command that fails has done to the vault's file.
use kpexec.Prelude.{
  ◌≡◌, refl, String, Bool, true, false, not, ◌&&◌, Option, List, [], ◌∷◌, ◌++◌, if◌then◌else◌, ◌==◌,
  length, ℕ, ◌+◌,
}
use kpexec.Status.{success, Outcome, kpexec_level}
use kpexec.Error.{Result, ok, err, Message, text, debug, number}
use kpexec.Secret.{Secret}
use kpexec.Pin.{Pin, compute, require_enforceable}
use kpexec.Policy.{Policy, Command}
use kpexec.Cli.{
  EntryAddArgs, EntryAddCommandArgs, EntryRmCommandArgs, EntrySetSecretArgs, EntryEditArgs,
  EntryRepinArgs,
}
use kpexec.Prompt.{read_line, read_secret}
use kpexec.System.{System}
use kpexec.Vault.{Vault, EntryView, contains, update_secret, remove_entry, insert_entry}
use kpexec.Machine.{Act, pure, from_result, ◌>>=◌, ◌>>◌, print}
use kpexec.Machine.Frames.{Keeps, files_of, bind-Keeps, then-Keeps}
use kpexec.Entry.{Setting, with_db, open_now, save_and_report}
use kpexec.Entry.Authoring.{collect_commands, reject_empty, reject_duplicate_command_names}
use kpexec.Entry.Handlers.{
  on_entry, save_policy, add_entry, add_with, add_command_with, rm_command_with, set_secret_with,
  edit_with, rm_with, add_commands, add_secret, add_inject, add_fields, add_id, new_policy,
  need_template, extend, shrink, amend, delete, store_secret, replaced, unless_exists, written,
  no_commands, no_command, last_command, without, with_commands, with_description, injected, or_id,
  now_has,
}
use kpexec.Entry.Repin.{
  repin_with, repin_entry, repin_all, repin_one, renew, known_command, save_repinned, is_target,
  is_none, same_pin, pinned, repin_line,
}
use kpexec.Entry.Quiet.{read_line-Keeps, read_secret-Keeps, collect_commands-Keeps}
use kpexec.Entry.Atomic.{
  Tries, bind-Tries, quiet-Tries, check-Tries, save_and_report-Tries, save_policy-Tries,
  on_entry-Tries, open_now-path, open_now-Keeps,
}

module _ {Keys : Type 0} (sys : System) (target : Option String) where
  renew-Keeps :
      (cmd : Command) (fresh : Pin) → Keeps {Keys = Keys} files_of (renew sys target cmd fresh)
  renew-Keeps cmd fresh = go (is_none target && same_pin cmd.exe_sha256 fresh.sha256)
    where
      go :
          (b : Bool)
          → Keeps {Keys = Keys} {A = Command × ℕ} files_of (
              if b
              then pure (cmd, 0)
              else (print (repin_line cmd fresh) >> pure (pinned cmd fresh.sha256, 1)))
      go true = λ s. refl
      go false = λ s. refl

  repin_one-Keeps : (cmd : Command) → Keeps {Keys = Keys} files_of (repin_one sys target cmd)
  repin_one-Keeps cmd = go (is_target target cmd.name)
    where
      found : Act Keys (Command × ℕ)
      found = from_result (compute sys cmd.exe) >>= λ fresh.
          (from_result (require_enforceable sys fresh.canonical) >> renew sys target cmd fresh)

      go : (b : Bool) → Keeps {A = Command × ℕ} files_of (if not b then pure (cmd, 0) else found)
      go false = λ s. refl
      go true =
          bind-Keeps files_of (from_result (compute sys cmd.exe))
            (λ fresh.
              from_result (require_enforceable sys fresh.canonical) >> renew sys target cmd fresh)
            (λ s. refl)
            (λ fresh.
              then-Keeps files_of (from_result (require_enforceable sys fresh.canonical))
                (renew sys target cmd fresh) (λ s. refl) (renew-Keeps cmd fresh))

  repin_all-Keeps : (cmds : List Command) → Keeps {Keys = Keys} files_of (repin_all sys target cmds)
  repin_all-Keeps [] = λ s. refl
  repin_all-Keeps (cmd ∷ cmds) =
      let after : Command × ℕ → List Command × ℕ → Act Keys (List Command × ℕ) =
        λ (c, n) (cs, m). pure (c ∷ cs, n + m) in
      bind-Keeps files_of (repin_one sys target cmd) (λ a. repin_all sys target cmds >>= after a)
        (repin_one-Keeps cmd)
        (λ a.
          bind-Keeps files_of (repin_all sys target cmds) (after a) (repin_all-Keeps cmds)
            (λ b s. refl))

module _ {Database Keys : Type 0} (env : Setting Database Keys) (path : String)
    (hint : Option String) (wizard : Bool → Act Keys (List Command))
    (quiet : (b : Bool) → Keeps files_of (wizard b)) where
  add_entry-Tries :
      (lock : Result (Unit {0})) (force : Bool) (id title : String) (secret : Secret)
      (policy : Policy)
      → Tries path (add_entry env path hint wizard lock force id title secret policy)
  unfolding add_entry
  add_entry-Tries lock force id title secret policy =
      let insert : Vault Database → Database → Act Keys Outcome = λ vault db.
        from_result (insert_entry env.kp env.json db id title secret policy) >>= λ db.
        save_and_report env (with_db vault db) (written env path hint wizard id policy.commands) in
      let replace : Vault Database → Act Keys Outcome = λ vault.
        from_result (replaced env path hint wizard (contains env.kp vault.db id) vault id)
        >>= insert vault in
      let exists : Vault Database → Result (Unit {0}) =
        λ vault. unless_exists env path hint wizard (contains env.kp vault.db id) force id in
      let opened : Vault Database → Act Keys Outcome =
        λ vault. from_result (exists vault) >> replace vault in
      check-Tries path lock (λ _. open_now env path hint >>= opened)
        (λ _.
          bind-Tries path (open_now env path hint) opened (λ vault. vault.path ≡ path)
            (open_now-Keeps env path hint wizard) (open_now-path env path hint wizard)
            (λ vault own.
              check-Tries path (exists vault) (λ _. replace vault)
                (λ _.
                  check-Tries path
                    (replaced env path hint wizard (contains env.kp vault.db id) vault id)
                    (insert vault)
                    (λ db.
                      check-Tries path (insert_entry env.kp env.json db id title secret policy)
                        (λ db.
                          save_and_report env (with_db vault db)
                            (written env path hint wizard id policy.commands))
                        (λ db.
                          save_and_report-Tries env path hint wizard (with_db vault db)
                            (written env path hint wizard id policy.commands) own)))))

  add_commands-Tries :
      (lock : Result (Unit {0})) (args : EntryAddArgs) (id description inject : String)
      (secret : Secret) (commands : List Command)
      → Tries path
          (add_commands env path hint wizard lock args id description inject secret commands)
  add_commands-Tries lock args id description inject secret commands =
      let policy = new_policy env path hint wizard description inject commands in
      let add : Act Keys Outcome =
        add_entry env path hint wizard lock args.force id (or_id args.title id) secret policy in
      check-Tries path (no_commands (need_template env path hint wizard) commands)
        (λ _. from_result (reject_duplicate_command_names policy) >> add)
        (λ _.
          check-Tries path (reject_duplicate_command_names policy) (λ _. add)
            (λ _. add_entry-Tries lock args.force id (or_id args.title id) secret policy))

  add_secret-Tries :
      (lock : Result (Unit {0})) (args : EntryAddArgs) (id description inject : String)
      → Tries path (add_secret env path hint wizard lock args id description inject)
  add_secret-Tries lock args id description inject =
      let collect = collect_commands env.sys env.term wizard args.commands args.no_pin in
      quiet-Tries path (read_secret env.codec env.term "Secret (hidden): " args.secret_stdin)
        (λ secret.
          collect >>= add_commands env path hint wizard lock args id description inject secret)
        (read_secret-Keeps env.codec env.term "Secret (hidden): " args.secret_stdin)
        (λ secret.
          quiet-Tries path collect
            (add_commands env path hint wizard lock args id description inject secret)
            (collect_commands-Keeps env.sys env.term wizard args.commands args.no_pin quiet)
            (add_commands-Tries lock args id description inject secret))

  add-Tries :
      (lock : Result (Unit {0})) (args : EntryAddArgs)
      → Tries path (add_with env path hint wizard lock args)
  unfolding add_with
  add-Tries lock args =
      quiet-Tries path (read_line env.term "Entry id" args.id)
        (add_id env path hint wizard lock args) (read_line-Keeps env.term "Entry id" args.id)
        (λ id.
          check-Tries path (reject_empty env.term id "entry id")
            (λ _. add_fields env path hint wizard lock args id)
            (λ _.
              quiet-Tries path (read_line env.term "Description" args.description)
                (λ description.
                  read_line env.term "Inject as env var" args.inject
                  >>= add_inject env path hint wizard lock args id description)
                (read_line-Keeps env.term "Description" args.description)
                (λ description.
                  quiet-Tries path (read_line env.term "Inject as env var" args.inject)
                    (add_inject env path hint wizard lock args id description)
                    (read_line-Keeps env.term "Inject as env var" args.inject)
                    (λ inject.
                      check-Tries path (reject_empty env.term inject "inject env var name")
                        (λ _. add_secret env path hint wizard lock args id description inject)
                        (λ _. add_secret-Tries lock args id description inject)))))

  extend-Tries :
      (id : String) (commands : List Command) (vault : Vault Database) (view : EntryView)
      → vault.path ≡ path
      → Tries path (extend env path hint wizard id commands vault view)
  extend-Tries id commands vault view own =
      let policy = with_commands view.policy (view.policy.commands ++ commands) in
      check-Tries path (reject_duplicate_command_names policy)
        (λ _.
          save_policy env path hint wizard vault id policy (now_has env path hint wizard id policy))
        (λ _.
          save_policy-Tries env path hint wizard vault id policy
            (now_has env path hint wizard id policy) own)

  add_command-Tries :
      (lock : Result (Unit {0})) (args : EntryAddCommandArgs)
      → Tries path (add_command_with env path hint wizard lock args)
  unfolding add_command_with
  add_command-Tries lock args =
      let change : List Command → Act Keys Outcome = λ commands.
        on_entry env path hint wizard lock args.id (extend env path hint wizard args.id commands) in
      let m : Message = text "add-command needs at least one command template" ∷ [] in
      quiet-Tries path (collect_commands env.sys env.term wizard args.commands args.no_pin)
        (λ commands. from_result (no_commands m commands) >> change commands)
        (collect_commands-Keeps env.sys env.term wizard args.commands args.no_pin quiet)
        (λ commands.
          check-Tries path (no_commands m commands) (λ _. change commands)
            (λ _.
              on_entry-Tries env path hint wizard lock args.id
                (extend env path hint wizard args.id commands) (extend-Tries args.id commands)))

  shrink-Tries :
      (id name : String) (vault : Vault Database) (view : EntryView)
      → vault.path ≡ path
      → Tries path (shrink env path hint wizard id name vault view)
  shrink-Tries id name vault view own =
      let left = without name view.policy.commands in
      let report : Message =
        text "removed command " ∷ debug name ∷ text " from entry " ∷ debug id ∷ [] in
      let save : Act Keys Outcome =
        save_policy env path hint wizard vault id (with_commands view.policy left) report in
      check-Tries path
        (if length left == length view.policy.commands then err (no_command id name) else ok tt)
        (λ _. from_result (no_commands (last_command env path hint wizard) left) >> save)
        (λ _.
          check-Tries path (no_commands (last_command env path hint wizard) left) (λ _. save)
            (λ _.
              save_policy-Tries env path hint wizard vault id (with_commands view.policy left)
                report own))

  amend-Tries :
      (args : EntryEditArgs) (vault : Vault Database) (view : EntryView)
      → vault.path ≡ path
      → Tries path (amend env path hint wizard args vault view)
  amend-Tries args vault view own =
      let report : Message = text "updated entry " ∷ debug args.id ∷ [] in
      check-Tries path
        (injected env path hint wizard (with_description view.policy args.description) args.inject)
        (λ policy. save_policy env path hint wizard vault args.id policy report)
        (λ policy. save_policy-Tries env path hint wizard vault args.id policy report own)

  delete-Tries :
      (id : String) (vault : Vault Database) (view : EntryView)
      → vault.path ≡ path
      → Tries path (delete env path hint wizard id vault view)
  delete-Tries id vault view own =
      let report : Message = text "removed entry " ∷ debug id ∷ [] in
      check-Tries path (remove_entry env.kp vault.db id)
        (λ db. save_and_report env (with_db vault db) report)
        (λ db. save_and_report-Tries env path hint wizard (with_db vault db) report own)

  store_secret-Tries :
      (id : String) (secret : Secret) (vault : Vault Database) (view : EntryView)
      → vault.path ≡ path
      → Tries path (store_secret env path hint wizard id secret vault view)
  store_secret-Tries id secret vault view own =
      let report : Message = text "rotated secret for entry " ∷ debug id ∷ [] in
      check-Tries path (update_secret env.kp vault.db id secret)
        (λ db. save_and_report env (with_db vault db) report)
        (λ db. save_and_report-Tries env path hint wizard (with_db vault db) report own)

  set_secret-Tries :
      (lock : Result (Unit {0})) (args : EntrySetSecretArgs)
      → Tries path (set_secret_with env path hint wizard lock args)
  unfolding set_secret_with
  set_secret-Tries lock args =
      quiet-Tries path (read_secret env.codec env.term "New secret (hidden): " args.secret_stdin)
        (λ secret.
          on_entry env path hint wizard lock args.id
            (store_secret env path hint wizard args.id secret))
        (read_secret-Keeps env.codec env.term "New secret (hidden): " args.secret_stdin)
        (λ secret.
          on_entry-Tries env path hint wizard lock args.id
            (store_secret env path hint wizard args.id secret) (store_secret-Tries args.id secret))

  repinned-Tries :
      (vault : Vault Database) (id : String) (policy : Policy) (q : List Command × ℕ)
      → vault.path ≡ path
      → Tries path (save_repinned env path hint wizard vault id policy q)
  repinned-Tries vault id policy (cmds, n) own = go (n == 0)
    where
      report : Message
      report = text "repinned " ∷ number n ∷ text " command(s) in entry " ∷ debug id ∷ []

      nothing : Act Keys Outcome
      nothing =
          print (text "nothing to repin (all pins current)" ∷ []) >> pure (kpexec_level success)

      save : Act Keys Outcome
      save = save_policy env path hint wizard vault id (with_commands policy cmds) report

      go : (b : Bool) → Tries path (if b then nothing else save)
      go true = λ s e h. refl
      go false =
          save_policy-Tries env path hint wizard vault id (with_commands policy cmds) report own

  repin-Tries :
      (args : EntryRepinArgs) (vault : Vault Database) (view : EntryView)
      → vault.path ≡ path
      → Tries path (repin_entry env path hint wizard args vault view)
  repin-Tries args vault view own =
      let save : List Command × ℕ → Act Keys Outcome =
        save_repinned env path hint wizard vault args.id view.policy in
      check-Tries path (known_command view.policy args.id args.command_name)
        (λ _. repin_all env.sys args.command_name view.policy.commands >>= save)
        (λ _.
          quiet-Tries path (repin_all env.sys args.command_name view.policy.commands) save
            (repin_all-Keeps env.sys args.command_name view.policy.commands)
            (λ q. repinned-Tries vault args.id view.policy q own))

  -- Let the wizard's loop touch no file. Then each `entry` command that changes the vault, `add`,
  -- `add-command`, `rm-command`, `set-secret`, `edit`, `rm` and `repin`, leaves the file of the vault exactly
  -- as it was when it returns an error, whichever step has failed: the lock, a prompt, the opening, a
  -- refusal, or a file operation of the save.
  pub entry_failures :
      (lock : Result (Unit {0})) (id : String) (a : EntryAddArgs) (b : EntryAddCommandArgs)
      (c : EntryRmCommandArgs) (d : EntrySetSecretArgs) (f : EntryEditArgs) (g : EntryRepinArgs)
      → Tries path (add_with env path hint wizard lock a)
        × Tries path (add_command_with env path hint wizard lock b)
        × Tries path (rm_command_with env path hint wizard lock c)
        × Tries path (set_secret_with env path hint wizard lock d)
        × Tries path (edit_with env path hint wizard lock f)
        × Tries path (rm_with env path hint wizard lock id)
        × Tries path (repin_with env path hint wizard lock g)
  unfolding rm_command_with edit_with rm_with repin_with
  entry_failures lock id a b c d f g = (
    add-Tries lock a,
    add_command-Tries lock b,
    on_entry-Tries env path hint wizard lock c.id (shrink env path hint wizard c.id c.name)
        (shrink-Tries c.id c.name),
    set_secret-Tries lock d,
    on_entry-Tries env path hint wizard lock f.id (amend env path hint wizard f) (amend-Tries f),
    on_entry-Tries env path hint wizard lock id (delete env path hint wizard id) (delete-Tries id),
    on_entry-Tries env path hint wizard lock g.id (repin_entry env path hint wizard g)
        (repin-Tries g),
  )
