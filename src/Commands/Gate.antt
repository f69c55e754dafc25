-- ===== src/Commands/Gate.antt =====
-- src/commands.rs: no handler that changes anything runs without an approval.
use Prim.Native.Char.{Char}
use kpexec.Prelude.{◌≡◌, refl, String, Bool, true, false, Option, none, some}
use kpexec.Error.{KpexecError, Result, ok, err}
use kpexec.Cli.{
  add, add_command, rm_command, set_secret, edit, rm, list, show, repin, rotate_password,
  show_password, Command, run, init, doctor, entry, check, db,
}
use kpexec.Commands.{
  Handlers, dispatch_authorized, dispatch_with_user_presence, authorization_reason, approve,
}

-- The commands that write, and the one that shows the recovery password.
abbrev pub needs_human : Command → Bool
needs_human (run _) = false
needs_human doctor = false
needs_human (check _) = false
needs_human (entry (list _)) = false
needs_human (entry (show _)) = false
needs_human (entry _) = true
needs_human (init _) = true
needs_human (db _) = true

module _ (is_alphanumeric : Char → Bool) where
  reason_given :
      (command : Command)
      → needs_human command ≡ true
      → (reason : String) × (authorization_reason is_alphanumeric command ≡ some reason)
  unfolding authorization_reason
  reason_given (run _) h = cc
  reason_given doctor h = cc
  reason_given (check _) h = cc
  reason_given (entry (list _)) h = cc
  reason_given (entry (show _)) h = cc
  reason_given (entry (add _)) h = (_, refl)
  reason_given (entry (add_command _)) h = (_, refl)
  reason_given (entry (rm_command _)) h = (_, refl)
  reason_given (entry (set_secret _)) h = (_, refl)
  reason_given (entry (edit _)) h = (_, refl)
  reason_given (entry (rm _)) h = (_, refl)
  reason_given (entry (repin _)) h = (_, refl)
  reason_given (init _) h = (_, refl)
  reason_given (db rotate_password) h = (_, refl)
  reason_given (db show_password) h = (_, refl)

  no_reason :
      (command : Command)
      → needs_human command ≡ false
      → authorization_reason is_alphanumeric command ≡ none
  unfolding authorization_reason
  no_reason (run _) h = refl
  no_reason doctor h = refl
  no_reason (check _) h = refl
  no_reason (entry (list _)) h = refl
  no_reason (entry (show _)) h = refl
  no_reason (entry (add _)) h = cc
  no_reason (entry (add_command _)) h = cc
  no_reason (entry (rm_command _)) h = cc
  no_reason (entry (set_secret _)) h = cc
  no_reason (entry (edit _)) h = cc
  no_reason (entry (rm _)) h = cc
  no_reason (entry (repin _)) h = cc
  no_reason (init _) h = cc
  no_reason (db rotate_password) h = cc
  no_reason (db show_password) h = cc

  module _ {State : Type 0} (handlers : Handlers State)
      (authorize : String → Result (Unit {0})) where
    -- A command that writes, or that shows the recovery password, does nothing if it is not approved:
    -- no handler runs, the state stays as it is, and the result is the error of the authorization.
    pub dispatch-denied :
        (command : Command) (state : State) (e : KpexecError)
        → needs_human command ≡ true
        → ((reason : String) → authorize reason ≡ err e)
        → dispatch_with_user_presence handlers is_alphanumeric authorize command state
          ≡ (state, err e)
    unfolding dispatch_with_user_presence
    dispatch-denied command state e h denied =
        let (reason, given) = reason_given command h in rw given (rw (denied reason))

    -- Once approved, the command runs its own handler, and this is all that happens.
    pub dispatch-approved :
        (command : Command) (state : State)
        → ((reason : String) → authorize reason ≡ ok tt)
        → dispatch_with_user_presence handlers is_alphanumeric authorize command state
          ≡ dispatch_authorized handlers command state
    unfolding dispatch_with_user_presence
    dispatch-approved command state approved = go (authorization_reason is_alphanumeric command)
      where
        go :
            (reason : Option String)
            → approve handlers authorize reason command state
              ≡ dispatch_authorized handlers command state
        go none = refl
        go (some reason) = rw (approved reason)

    -- Every other command runs its handler without an authorization, whatever that would say.
    pub dispatch-ungated :
        (command : Command) (state : State)
        → needs_human command ≡ false
        → dispatch_with_user_presence handlers is_alphanumeric authorize command state
          ≡ dispatch_authorized handlers command state
    unfolding dispatch_with_user_presence
    dispatch-ungated command state h = rw (no_reason command h)
