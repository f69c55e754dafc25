-- ===== src/Run/Audit.antt =====
-- src/cmd_run.rs: every run is logged once, under the status that it comes to.
use kpexec.Prelude.{◌≡◌, refl, String, Option, List, [], ◌∷◌, ◌++◌, arith, map}
use kpexec.Status.{KpexecStatus, success, Outcome, kpexec_level, child_exit}
use kpexec.Error.{KpexecError, Result, ok, err}
use kpexec.Run.Surroundings.{
  World, Event, logged, extracted, spawned, signalled, wrote_out, wrote_err, wrote_envelope, Signal,
}
use kpexec.Run.Build.{build_argv}
use kpexec.Run.Verify.{Resolved, Verified}
use kpexec.Run.Spawn.{Run, RunOptions, Spawned, spawn_and_wait, signals}
use kpexec.Run.Emit.{RunArgs, emit_spawned, emit_dry_run, emit_error, dry_run_lines}
use kpexec.Policy.{Policy}
use kpexec.Vault.{Vault}
use kpexec.Run.Cases.{
  SpawnCase, unread, unstarted, driven, spawn_and_wait-SpawnCase, RunCase, unresolved, unverified,
  dry, wet, run_with-RunCase,
}
use kpexec.Run.{emit_result, run_spawned, run_with, ◌before◌, warnings}

-- The statuses that were logged, in order.
pub statuses : List Event → List KpexecStatus
statuses [] = []
statuses (logged _ _ _ _ s ∷ events) = s ∷ statuses events
statuses (_ ∷ events) = statuses events

statuses-append : (xs ys : List Event) → statuses (xs ++ ys) ≡ statuses xs ++ statuses ys
unfolding statuses
statuses-append [] ys = refl
statuses-append (logged _ _ _ _ s ∷ xs) ys = rw (statuses-append xs ys)
statuses-append (extracted _ ∷ xs) ys = statuses-append xs ys
statuses-append (spawned _ ∷ xs) ys = statuses-append xs ys
statuses-append (signalled _ ∷ xs) ys = statuses-append xs ys
statuses-append (wrote_out _ ∷ xs) ys = statuses-append xs ys
statuses-append (wrote_err _ ∷ xs) ys = statuses-append xs ys
statuses-append (wrote_envelope _ ∷ xs) ys = statuses-append xs ys

-- The status that a result stands for; a child that ran to its end is a success.
abbrev pub result_status : Result Outcome → KpexecStatus
result_status (ok (kpexec_level s)) = s
result_status (ok (child_exit _)) = success
result_status (err e) = e.status

-- One record, and it names the status of the result.
abbrev pub LoggedOnce : Run (Result Outcome) → Type 0
LoggedOnce (events, r) = statuses events ≡ result_status r ∷ []

dry_run_lines-statuses : (argv : List String) → statuses (dry_run_lines argv) ≡ []
unfolding statuses dry_run_lines
dry_run_lines-statuses [] = refl
dry_run_lines-statuses (a ∷ argv) = dry_run_lines-statuses argv

signalled-statuses : (sent : List Signal) → statuses (map signalled sent) ≡ []
unfolding statuses
signalled-statuses [] = refl
signalled-statuses (s ∷ sent) = signalled-statuses sent

before-LoggedOnce :
    (events : List Event) (r : Run (Result Outcome))
    → statuses events ≡ []
    → LoggedOnce r
    → LoggedOnce (events before r)
before-LoggedOnce events (later, r) e h = rw (statuses-append events later, e) h

module _ {Database : Type 0} (w : World Database) where
  emit_error-LoggedOnce :
      (args : RunArgs) (exe : String) (argv : List String) (e : KpexecError)
      → LoggedOnce (emit_error w args exe argv e)
  unfolding emit_error statuses
  emit_error-LoggedOnce args exe argv e = ground arith

  emit_spawned-LoggedOnce :
      (args : RunArgs) (exe : String) (argv : List String) (s : Spawned)
      → LoggedOnce (emit_spawned w args exe argv s)
  unfolding emit_spawned statuses
  emit_spawned-LoggedOnce args exe argv s = ground arith

  emit_dry_run-LoggedOnce :
      (args : RunArgs) (exe : String) (argv : List String)
      → LoggedOnce (emit_dry_run w args exe argv)
  unfolding emit_dry_run statuses
  emit_dry_run-LoggedOnce args exe argv = ground (arith, dry_run_lines-statuses argv)

  SpawnCase-statuses :
      {vault : Vault Database} {entry : String} {policy : Policy} {v : Verified}
      {argv : List String} {opts : RunOptions} {run : Run (Result Spawned)}
      → SpawnCase w vault entry policy v argv opts run
      → statuses run.0 ≡ []
  unfolding statuses
  SpawnCase-statuses (unread e h) = refl
  SpawnCase-statuses (unstarted secret e h i) = refl
  SpawnCase-statuses {opts} (driven secret child h k) = signalled-statuses (signals opts child)

  emit_result-LoggedOnce :
      (args : RunArgs) (exe : String) (argv : List String) (s : Result Spawned)
      → LoggedOnce (emit_result w args exe argv s)
  emit_result-LoggedOnce args exe argv (ok s) = emit_spawned-LoggedOnce args exe argv s
  emit_result-LoggedOnce args exe argv (err e) = emit_error-LoggedOnce args exe argv e

  run_spawned-LoggedOnce :
      (args : RunArgs) (opts : RunOptions) (r : Resolved Database) (v : Verified)
      (argv : List String)
      → LoggedOnce (run_spawned w args opts r v argv)
  unfolding run_spawned
  run_spawned-LoggedOnce args opts r v argv =
      let done = spawn_and_wait w r.vault args.entry r.policy v argv opts in
      before-LoggedOnce done.0 (emit_result w args v.canonical argv done.1)
        (SpawnCase-statuses (spawn_and_wait-SpawnCase w r.vault args.entry r.policy v argv opts))
        (emit_result-LoggedOnce args v.canonical argv done.1)

  warnings-statuses : (v : Verified) (r : Resolved Database) → statuses (warnings w v r) ≡ []
  unfolding statuses
  warnings-statuses v r = ground arith

  abbrev final_argv : RunArgs → Resolved Database → Verified → List String
  final_argv args r v = build_argv v.canonical r.command.argv_prefix args.trailing

  RunCase-LoggedOnce :
      {args : RunArgs} {path : String} {hint : Option String} {opts : RunOptions}
      {run : Run (Result Outcome)}
      → RunCase w args path hint opts run
      → LoggedOnce run
  RunCase-LoggedOnce {args} (unresolved e h) = emit_error-LoggedOnce args "" [] e
  RunCase-LoggedOnce {args} (unverified r e h k) = emit_error-LoggedOnce args r.command.exe _ e
  RunCase-LoggedOnce {args} (dry r v h k d) =
      before-LoggedOnce (warnings w v r) (emit_dry_run w args v.canonical (final_argv args r v))
        (warnings-statuses v r) (emit_dry_run-LoggedOnce args v.canonical _)
  RunCase-LoggedOnce {args} {opts} (wet r v h k d) =
      before-LoggedOnce (warnings w v r) (run_spawned w args opts r v (final_argv args r v))
        (warnings-statuses v r) (run_spawned-LoggedOnce args opts r v _)

  -- Every run, whatever comes of it, writes exactly one audit record, under the status of its result.
  pub run_with-logs_once :
      (args : RunArgs) (path : String) (hint : Option String) (opts : RunOptions)
      → statuses (run_with w args path hint opts).0
        ≡ result_status (run_with w args path hint opts).1 ∷ []
  run_with-logs_once args path hint opts =
      RunCase-LoggedOnce (run_with-RunCase w args path hint opts)
