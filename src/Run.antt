-- ===== src/Run.antt =====
-- src/cmd_run.rs: `kpexec run`, from the request to the outcome, with what it does on the way.
pub mod Surroundings
pub mod Build
pub mod Capture
pub mod Verify
pub mod Spawn
pub mod Emit
pub mod Cases
pub mod Audit
pub mod Boundary
pub mod Pinning
pub mod Timeout
pub mod Verdict
use kpexec.Prelude.{String, Bool, true, false, Option, List, [], ◌∷◌, ◌++◌, if◌then◌else◌}
use kpexec.Status.{Outcome}
use kpexec.Error.{Result, ok, err, text, debug}
use Surroundings.{World, Event, wrote_err}
use Build.{build_argv}
use Verify.{Resolved, Verified, resolve, verify_exe}
use Spawn.{Run, RunOptions, Spawned, spawn_and_wait}
use Emit.{RunArgs, emit_spawned, emit_dry_run, emit_error}

-- First the events of one part, then those of the next.
infixr 6 ◌before◌
abbrev pub ◌before◌ : {A : Type 0} → List Event → Run A → Run A
events before (later, a) = (events ++ later, a)

module _ {Database : Type 0} (w : World Database) where
  abbrev pub warnings : Verified → Resolved Database → List Event
  warnings verified resolved =
      if verified.unpinned
      then wrote_err (
          text "[kpexec] WARNING: command "
          ∷ debug resolved.command.name
          ∷ text " is unpinned (--no-pin) - executable bytes are not verified"
          ∷ [])
        ∷ []
      else []

  -- `match spawn_and_wait(..)`.
  abbrev pub emit_result : RunArgs → String → List String → Result Spawned → Run (Result Outcome)
  emit_result args exe argv (ok s) = emit_spawned w args exe argv s
  emit_result args exe argv (err e) = emit_error w args exe argv e

  -- The spawn path.
  unfoldable pub run_spawned :
      RunArgs → RunOptions → Resolved Database → Verified → List String → Run (Result Outcome)
  unfolding spawn_and_wait emit_spawned emit_error
  run_spawned args opts resolved verified argv =
      let (events, r) =
        spawn_and_wait w resolved.vault args.entry resolved.policy verified argv opts in
      events before emit_result args verified.canonical argv r

  -- After the pin is verified: a dry run stops here.
  unfoldable pub run_verified :
      RunArgs → RunOptions → Resolved Database → Verified → Run (Result Outcome)
  unfolding run_spawned emit_dry_run build_argv
  run_verified args opts resolved verified =
      let argv = build_argv verified.canonical resolved.command.argv_prefix args.trailing in
      warnings verified resolved
      before (if args.dry_run
          then emit_dry_run w args verified.canonical argv
          else run_spawned args opts resolved verified argv)

  unfoldable pub run_resolved : RunArgs → RunOptions → Resolved Database → Run (Result Outcome)
  unfolding verify_exe emit_error build_argv
  run_resolved args opts resolved = elim (verify_exe w resolved.command) [
    | ok verified ↦ run_verified args opts resolved verified
    | err e ↦
        emit_error w args resolved.command.exe
          (build_argv resolved.command.exe resolved.command.argv_prefix args.trailing) e
  ]

  unfoldable pub run_with : RunArgs → String → Option String → RunOptions → Run (Result Outcome)
  unfolding run_resolved resolve emit_error
  run_with args vault_path config_hint opts =
      elim (resolve w vault_path config_hint args.entry args.command) [
        | ok resolved ↦ run_resolved args opts resolved
        | err e ↦ emit_error w args "" [] e
      ]
