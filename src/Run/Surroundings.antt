-- ===== src/Run/Surroundings.antt =====
-- What src/cmd_run.rs asks of its surroundings, and what it does to them.
use kpexec.Prelude.{ℕ, String, Bool, Option, List}
use kpexec.Message.{Message}
use kpexec.Status.{KpexecStatus, ℤ, JsonEnvelope}
use kpexec.Policy.{PolicyJson}
use kpexec.Output.Bytes.{Bytes}
use kpexec.Output.Variants.{Codec}
use kpexec.System.{System, Io}
use kpexec.Keychain.{Lookup}
use kpexec.Vault.{Keepass}
use kpexec.Vault.Open.{OpenDatabase}
use kpexec.Run.Build.{Env}

pub data Signal : Type 0 where
  sigterm sigkill : Signal

-- `ExitStatus`, through `signal()` and `code()`.
pub record ExitStatus : Type 0 where
  pub signal : Option ℕ
  pub exit : Option ℤ

-- How the waiter thread ends.
pub data Waited : Type 0 where
  panicked : Waited
  wait_failed : String → Waited
  exited : ExitStatus → Waited

-- A running child. Whether it ends within the timeout, or within the grace period after SIGTERM;
-- and, for the signals that its group was sent, its exit and the chunks that its pipes give.
pub record Child : Type 0 where
  pub exits_within : ℕ → Bool
  pub stops_within : ℕ → Bool
  pub wait : List Signal → Waited
  pub stdout : List Signal → List Bytes
  pub stderr : List Signal → List Bytes

pub record Request : Type 0 where
  pub program : String
  pub args : List String
  pub vars : Env

pub record World (Database : Type 0) : Type 0 where
  pub sys : System
  pub codec : Codec
  pub keepass : Keepass Database
  pub json : PolicyJson
  pub keychain : Lookup
  pub open_db : OpenDatabase Database
  pub spawn : Request → Io Child

-- What a run does, in order. `extracted` is the explicit read of the selected credential.
pub data Event : Type 0 where
  logged : String → String → String → String → KpexecStatus → Event
  extracted : String → Event
  spawned : Request → Event
  signalled : Signal → Event
  wrote_out wrote_err : Message → Event
  wrote_envelope : JsonEnvelope → Event
