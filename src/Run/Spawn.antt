-- ===== src/Run/Spawn.antt =====
-- src/cmd_run.rs: starting the child, its timeout, and the processing of what it wrote.
-- The child's standard input is closed, and it leads a process group of its own; signals go to the
-- group. A time is a number of seconds.
use kpexec.Prelude.{
  ℕ, ◌+◌, String, Bool, true, false, none, some, List, [], ◌∷◌, drop, map, if◌then◌else◌,
}
use kpexec.Status.{internal, ℤ, pos}
use kpexec.Error.{Result, ok, err, fail, text}
use kpexec.Secret.{Secret}
use kpexec.Policy.{Policy}
use kpexec.Output.Variants.{max_secret_variant_len}
use kpexec.Output.Process.{Processed, process}
use kpexec.System.{Io, done, failed}
use kpexec.Vault.{Vault, read_secret}
use kpexec.Run.Build.{apply_env}
use kpexec.Run.Capture.{capture_limit, spawn_reader}
use kpexec.Run.Surroundings.{
  World, Event, extracted, spawned, signalled, Request, Child, Signal, sigterm, sigkill, ExitStatus,
  Waited, panicked, wait_failed, exited,
}
use kpexec.Run.Verify.{Verified}

pub record RunOptions : Type 0 where
  pub timeout : ℕ
  pub kill_grace : ℕ

pub record Spawned : Type 0 where
  pub child_exit_code : ℤ
  pub timed_out : Bool
  pub processed : Processed

-- What is done, and what comes of it.
abbrev pub Run : Type 0 → Type 0
Run A = List Event × A

-- Normal exit: the child's code. Killed by signal N: 128 + N.
unfoldable pub exit_code_of : ExitStatus → ℤ
exit_code_of status = elim status.signal [
  | some sig ↦ pos (128 + sig)
  | none ↦ elim status.exit [ some c ↦ c | none ↦ pos 1 ]
]

-- The signals that the timeout sends: SIGTERM, and SIGKILL if the grace period does not suffice.
unfoldable pub signals : RunOptions → Child → List Signal
signals opts child =
    if child.exits_within opts.timeout
    then []
    else if child.stops_within opts.kill_grace
    then sigterm ∷ []
    else sigterm ∷ sigkill ∷ []

abbrev pub not_empty : List Signal → Bool
not_empty [] = false
not_empty (_ ∷ _) = true

module _ {Database : Type 0} (w : World Database) where
  -- The two pipes, read up to the limits that redaction needs.
  unfoldable pub captured_output : Policy → Secret → Child → List Signal → Processed
  captured_output policy secret child sent =
      let variant_len = max_secret_variant_len w.codec (w.codec.as_bytes secret.expose) in
      let stdout_limit = capture_limit policy.output.max_stdout_bytes variant_len in
      let stderr_limit = capture_limit policy.output.max_stderr_bytes variant_len in
      process w.codec
        (record {
          stdout = spawn_reader stdout_limit (child.stdout sent);
          stderr = spawn_reader stderr_limit (child.stderr sent);
        })
        policy.output secret

  unfoldable pub finish : Policy → Secret → Child → List Signal → Waited → Result Spawned
  finish policy secret child sent panicked = fail internal (text "waiter thread panicked" ∷ [])
  finish policy secret child sent (wait_failed e) =
      fail internal (text "wait failed: " ∷ text e ∷ [])
  finish policy secret child sent (exited status) = ok (record {
    child_exit_code = exit_code_of status;
    timed_out = not_empty sent;
    processed = captured_output policy secret child sent;
  })

  unfoldable pub drive : Policy → Secret → RunOptions → Child → Run (Result Spawned)
  unfolding signals finish
  drive policy secret opts child =
      let sent = signals opts child in
      (map signalled sent, finish policy secret child sent (child.wait sent))

  unfoldable pub request : Policy → Verified → List String → Secret → Request
  request policy verified argv secret = record {
    program = verified.canonical;
    args = drop 1 argv;
    vars = apply_env w.sys policy.env policy.secret.inject.name secret;
  }

  abbrev pub started : Policy → Verified → Secret → RunOptions → Io Child → Run (Result Spawned)
  started policy verified secret opts (done child) = drive policy secret opts child
  started policy verified secret opts (failed e) = (
    [],
    fail internal (text "failed to spawn " ∷ text verified.canonical ∷ text ": " ∷ text e ∷ []),
  )

  abbrev pub with_secret :
      Policy → Verified → List String → RunOptions → Secret → Run (Result Spawned)
  with_secret policy verified argv opts secret =
      let req = request policy verified argv secret in
      let (events, r) = started policy verified secret opts (w.spawn req) in
      (spawned req ∷ events, r)

  -- The one read of the secret comes first.
  unfoldable pub spawn_and_wait :
      Vault Database → String → Policy → Verified → List String → RunOptions → Run (Result Spawned)
  unfolding read_secret request drive
  spawn_and_wait vault entry_id policy verified argv opts =
      elim (read_secret w.keepass vault.db entry_id) [
        | err e ↦ (extracted entry_id ∷ [], err e)
        | ok secret ↦
            let (events, r) = with_secret policy verified argv opts secret in
            (extracted entry_id ∷ events, r)
      ]
