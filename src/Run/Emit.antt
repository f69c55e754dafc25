-- ===== src/Run/Emit.antt =====
-- src/cmd_run.rs: what a run writes, and its one audit record.
use kpexec.Prelude.{ℕ, String, Bool, Option, none, some, List, [], ◌∷◌, if◌then◌else◌}
use kpexec.Status.{
  KpexecStatus, success, redaction_failure, timeout, Outcome, kpexec_level, child_exit,
  kpexec_with_stderr,
}
use kpexec.Error.{KpexecError, Result, ok, err, Message, text}
use kpexec.Logging.{argv_hash}
use kpexec.Run.Surroundings.{World, Event, logged, wrote_out, wrote_err, wrote_envelope}
use kpexec.Run.Spawn.{Run, Spawned}

pub record RunArgs : Type 0 where
  pub entry : String
  pub command : String
  pub dry_run : Bool
  pub timeout : Option ℕ
  pub json : Bool
  pub trailing : List String

-- `argv.join(" ")`.
unfoldable pub render_argv : List String → Message
render_argv [] = []
render_argv (a ∷ []) = text a ∷ []
render_argv (a ∷ b ∷ argv) = text a ∷ text " " ∷ render_argv (b ∷ argv)

-- Redaction failure before timeout before success.
unfoldable pub status_of : Spawned → KpexecStatus
status_of spawned =
    if spawned.processed.redaction_failed
    then redaction_failure
    else if spawned.timed_out
    then timeout
    else success

unfoldable pub outcome_of : Spawned → Outcome
outcome_of spawned =
    if spawned.processed.redaction_failed
    then kpexec_level redaction_failure
    else if spawned.timed_out
    then kpexec_level timeout
    else child_exit spawned.child_exit_code

unfoldable pub dry_run_lines : List String → List Event
dry_run_lines [] = []
dry_run_lines (a ∷ argv) = wrote_out (text "  " ∷ text a ∷ []) ∷ dry_run_lines argv

module _ {Database : Type 0} (w : World Database) where
  abbrev pub log_run_result : RunArgs → String → List String → KpexecStatus → Event
  log_run_result args exe argv status =
      logged args.entry args.command exe (argv_hash w.sys w.codec argv) status

  unfoldable pub emit_spawned : RunArgs → String → List String → Spawned → Run (Result Outcome)
  unfolding status_of outcome_of
  emit_spawned args canonical_exe argv spawned =
      let status = status_of spawned in
      let out = spawned.processed in
      let writes : List Event =
        if args.json
        then wrote_envelope (record {
          kpexec_status = status;
          child_exit_code = some spawned.child_exit_code;
          stdout = text out.stdout ∷ [];
          stderr = text out.stderr ∷ [];
        })
          ∷ []
        else wrote_out (text out.stdout ∷ [])
          ∷ wrote_err (text out.stderr ∷ [])
          ∷ (if spawned.timed_out
              then wrote_err (text "[kpexec] child timed out and was terminated" ∷ []) ∷ []
              else []) in
      (log_run_result args canonical_exe argv status ∷ writes, ok (outcome_of spawned))

  unfoldable pub emit_dry_run : RunArgs → String → List String → Run (Result Outcome)
  unfolding render_argv dry_run_lines
  emit_dry_run args canonical_exe argv =
      let writes : List Event =
        if args.json
        then wrote_envelope (record {
          kpexec_status = success;
          child_exit_code = none;
          stdout = render_argv argv;
          stderr = [];
        })
          ∷ []
        else wrote_err
            (text "[kpexec] entry " ∷ text args.entry ∷ text ", command " ∷ text args.command ∷ [])
          ∷ wrote_out (text "[kpexec] dry-run argv:" ∷ [])
          ∷ dry_run_lines argv in
      (log_run_result args canonical_exe argv success ∷ writes, ok (kpexec_level success))

  unfoldable pub emit_error : RunArgs → String → List String → KpexecError → Run (Result Outcome)
  emit_error args canonical_exe argv e =
      let record_ = log_run_result args canonical_exe argv e.status in
      if args.json
      then (
        record_ ∷ wrote_envelope (kpexec_with_stderr e.status (text "[kpexec] " ∷ e.message)) ∷ [],
        ok (kpexec_level e.status),
      )
      else (record_ ∷ [], err e)
