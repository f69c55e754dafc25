-- ===== src/Commands.antt =====
-- src/commands.rs: the authorization gate, and the dispatch behind it. The handlers are a parameter:
-- each of them takes the state of the machine to a new one, with its result.
pub mod Gate
pub mod Prompt
use Prim.Native.Char.{Char}
use Prim.Native.String.{◌++◌ as push_str}
use kpexec.Prelude.{
  ℕ, zero, suc, String, Bool, true, false, Option, none, some, ◌||◌, str_eq, if◌then◌else◌, ltb,
}
use kpexec.Status.{Outcome}
use kpexec.Error.{Result, ok, err}
use kpexec.Run.Emit.{RunArgs}
use kpexec.Cli.{
  InitArgs, CheckArgs, EntryAddArgs, EntryAddCommandArgs, EntrySetSecretArgs, EntryEditArgs,
  EntryIdArg, EntryRmCommandArgs, EntryListArgs, EntryShowArgs, EntryRepinArgs, EntryCommand, add,
  add_command, rm_command, set_secret, edit, rm, list, show, repin, DbCommand, rotate_password,
  show_password, Command, run, init, doctor, entry, check, db,
}

abbrev pub max_chars : ℕ
max_chars = 96

abbrev pub one_of : String → Char → Bool
one_of String.[] c = false
one_of (String.◌∷◌ d s) c =
    let rest = one_of s c in
    if str_eq (String.◌∷◌ d String.[]) (String.◌∷◌ c String.[]) then true else rest

unfoldable pub chars_count : String → ℕ
chars_count String.[] = 0
chars_count (String.◌∷◌ c s) = suc (chars_count s)

-- `char::is_alphanumeric` is the parameter.
module _ (is_alphanumeric : Char → Bool) where
  unfoldable pub safe_char : Char → Char
  safe_char c = if is_alphanumeric c || one_of " -_./:@" c then c else "?"

  -- `chars().take(n).map(..)`.
  unfoldable pub take_safe : ℕ → String → String
  unfolding safe_char
  take_safe zero s = String.[]
  take_safe (suc n) String.[] = String.[]
  take_safe (suc n) (String.◌∷◌ c s) = String.◌∷◌ (safe_char c) (take_safe n s)

  unfoldable pub prompt_safe : String → String
  unfolding take_safe chars_count
  prompt_safe value =
      if ltb max_chars (chars_count value)
      then push_str (take_safe max_chars value) "…"
      else take_safe max_chars value

  abbrev quoted : String → String → String
  quoted before value = push_str before (push_str "'" (push_str (prompt_safe value) "'"))

  entry_reason : EntryCommand → Option String
  unfolding prompt_safe
  entry_reason (add args) = some (elim args.id [
    | some id ↦ quoted "Approve creating kpexec entry " id
    | none ↦ "Approve creating a new kpexec entry"
  ])
  entry_reason (add_command args) =
      some (quoted "Approve adding a command to kpexec entry " args.id)
  entry_reason (rm_command args) = some (
      push_str (quoted "Approve removing command " args.name)
        (quoted " from kpexec entry " args.id))
  entry_reason (set_secret args) =
      some (quoted "Approve changing the secret for kpexec entry " args.id)
  entry_reason (edit args) = some (quoted "Approve editing kpexec entry " args.id)
  entry_reason (rm args) = some (quoted "Approve deleting kpexec entry " args.id)
  entry_reason (repin args) = some (elim args.command_name [
    | some name ↦
        push_str (quoted "Approve updating executable pin " name)
          (quoted " for kpexec entry " args.id)
    | none ↦ quoted "Approve updating executable pins for kpexec entry " args.id
  ])
  entry_reason (list _) = none
  entry_reason (show _) = none

  unfoldable pub authorization_reason : Command → Option String
  unfolding entry_reason
  authorization_reason (init args) = some (elim args.db [
    | some path ↦ push_str "Approve initializing the kpexec vault at " (prompt_safe path)
    | none ↦ "Approve initializing the kpexec vault"
  ])
  authorization_reason (entry sub) = entry_reason sub
  authorization_reason (db rotate_password) = some "Approve rotating the kpexec vault password"
  authorization_reason (db show_password) =
      some "Approve displaying the kpexec vault recovery password"
  authorization_reason (run _) = none
  authorization_reason doctor = none
  authorization_reason (check _) = none

-- A handler, over the state that it changes.
abbrev pub Handler : Type 0 → Type 0
Handler State = State → State × Result Outcome

pub record Handlers (State : Type 0) : Type 0 where
  pub run : RunArgs → Handler State
  pub init : InitArgs → Handler State
  pub doctor_cmd : Handler State
  pub check : CheckArgs → Handler State
  pub add : EntryAddArgs → Handler State
  pub add_command : EntryAddCommandArgs → Handler State
  pub rm_command : EntryRmCommandArgs → Handler State
  pub set_secret : EntrySetSecretArgs → Handler State
  pub edit : EntryEditArgs → Handler State
  pub rm : String → Handler State
  pub list : EntryListArgs → Handler State
  pub show : EntryShowArgs → Handler State
  pub repin : EntryRepinArgs → Handler State
  pub rotate_password : Handler State
  pub show_password : Handler State

module _ {State : Type 0} (handlers : Handlers State) where
  dispatch_entry : EntryCommand → Handler State
  dispatch_entry (add args) = handlers.add args
  dispatch_entry (add_command args) = handlers.add_command args
  dispatch_entry (rm_command args) = handlers.rm_command args
  dispatch_entry (set_secret args) = handlers.set_secret args
  dispatch_entry (edit args) = handlers.edit args
  dispatch_entry (rm args) = handlers.rm args.id
  dispatch_entry (list args) = handlers.list args
  dispatch_entry (show args) = handlers.show args
  dispatch_entry (repin args) = handlers.repin args

  dispatch_db : DbCommand → Handler State
  dispatch_db rotate_password = handlers.rotate_password
  dispatch_db show_password = handlers.show_password

  unfoldable pub dispatch_authorized : Command → Handler State
  unfolding dispatch_entry dispatch_db
  dispatch_authorized (run args) = handlers.run args
  dispatch_authorized (init args) = handlers.init args
  dispatch_authorized doctor = handlers.doctor_cmd
  dispatch_authorized (entry sub) = dispatch_entry sub
  dispatch_authorized (check args) = handlers.check args
  dispatch_authorized (db sub) = dispatch_db sub

  -- `user_presence.authorize(&reason)?`, where there is a reason; then the handler.
  abbrev pub after_approval : Result (Unit {0}) → Command → Handler State
  after_approval (ok _) command state = dispatch_authorized command state
  after_approval (err e) command state = (state, err e)

  abbrev pub approve : (String → Result (Unit {0})) → Option String → Command → Handler State
  approve authorize none command state = dispatch_authorized command state
  approve authorize (some reason) command state = after_approval (authorize reason) command state

  unfoldable pub dispatch_with_user_presence :
      (Char → Bool) → (String → Result (Unit {0})) → Command → Handler State
  unfolding authorization_reason dispatch_authorized
  dispatch_with_user_presence is_alphanumeric authorize command =
      approve authorize (authorization_reason is_alphanumeric command) command
