-- ===== src/Entry/Repin.antt =====
-- src/cmd_entry.rs: `entry repin`.
use kpexec.Prelude.{
  ℕ, ◌+◌, String, Bool, true, false, not, ◌&&◌, Option, none, some, List, [], ◌∷◌, ◌++◌, str_eq,
  if◌then◌else◌, ◌==◌,
}
use kpexec.Status.{success, unknown_command, Outcome, kpexec_level}
use kpexec.Error.{Result, ok, fail, text, debug, number, Message}
use kpexec.Pin.{Pin, compute, require_enforceable}
use kpexec.System.{System}
use kpexec.Policy.{Policy, Command, command}
use kpexec.Cli.{EntryRepinArgs}
use kpexec.Vault.{Vault, EntryView}
use kpexec.Machine.{Act, pure, from_result, ◌>>=◌, ◌>>◌, print}
use kpexec.Entry.{Setting}
use kpexec.Entry.Handlers.{on_entry, save_policy, with_commands}

abbrev pub known_command : Policy → String → Option String → Result (Unit {0})
known_command policy id none = ok tt
known_command policy id (some name) = elim (command policy name) [
  | some _ ↦ ok tt
  | none ↦
      fail unknown_command (text "entry " ∷ debug id ∷ text " has no command " ∷ debug name ∷ [])
]

abbrev pub is_target : Option String → String → Bool
is_target none name = true
is_target (some target) name = str_eq name target

abbrev pub is_none : Option String → Bool
is_none none = true
is_none (some _) = false

abbrev pub same_pin : Option String → String → Bool
same_pin none fresh = false
same_pin (some old) fresh = str_eq old fresh

abbrev shown_pin : Option String → String
shown_pin none = "<unpinned>"
shown_pin (some old) = old

abbrev mtime_text : Option ℕ → Message
mtime_text none = []
mtime_text (some t) = text ", mtime " ∷ number t ∷ text "s" ∷ []

abbrev pub pinned : Command → String → Command
pinned cmd sha = record cmd { exe_sha256 = some sha }

abbrev pub repin_line : Command → Pin → Message
repin_line cmd fresh =
    text "repin "
      ∷ text cmd.name
      ∷ text ": "
      ∷ text (shown_pin cmd.exe_sha256)
      ∷ text " -> "
      ∷ text fresh.sha256
      ∷ text " (size "
      ∷ number fresh.size
      ∷ text " B"
      ∷ mtime_text fresh.mtime
    ++ (text ")" ∷ [])

module _ {Keys : Type 0} (sys : System) (target : Option String) where
  -- Without a target name, only stale or missing pins.
  abbrev pub renew : Command → Pin → Act Keys (Command × ℕ)
  renew cmd fresh =
      if is_none target && same_pin cmd.exe_sha256 fresh.sha256
      then pure (cmd, 0)
      else (print (repin_line cmd fresh) >> pure (pinned cmd fresh.sha256, 1))

  abbrev pub repin_one : Command → Act Keys (Command × ℕ)
  repin_one cmd =
      if not (is_target target cmd.name)
      then pure (cmd, 0)
      else (from_result (compute sys cmd.exe) >>= λ fresh.
          (from_result (require_enforceable sys fresh.canonical) >> renew cmd fresh))

  -- The loop over the commands, with the number of those repinned.
  abbrev pub repin_all : List Command → Act Keys (List Command × ℕ)
  repin_all [] = pure ([], 0)
  repin_all (cmd ∷ cmds) =
      repin_one cmd >>= λ (c, n). repin_all cmds >>= λ (cs, m). pure (c ∷ cs, n + m)

module _ {Database Keys : Type 0} (env : Setting Database Keys) (vault_path : String)
    (config_hint : Option String) (wizard : Bool → Act Keys (List Command)) where
  abbrev pub save_repinned : Vault Database → String → Policy → List Command × ℕ → Act Keys Outcome
  save_repinned vault id policy (cmds, n) =
      if n == 0
      then (print (text "nothing to repin (all pins current)" ∷ []) >> pure (kpexec_level success))
      else save_policy env vault_path config_hint wizard vault id (with_commands policy cmds)
          (text "repinned " ∷ number n ∷ text " command(s) in entry " ∷ debug id ∷ [])

  abbrev pub repin_entry : EntryRepinArgs → Vault Database → EntryView → Act Keys Outcome
  repin_entry args vault view =
      from_result (known_command view.policy args.id args.command_name)
      >> (repin_all env.sys args.command_name view.policy.commands
          >>= save_repinned vault args.id view.policy)

  unfoldable pub repin_with : Result (Unit {0}) → EntryRepinArgs → Act Keys Outcome
  repin_with lock args = on_entry env vault_path config_hint wizard lock args.id (repin_entry args)
