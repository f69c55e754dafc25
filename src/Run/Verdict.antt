-- ===== src/Run/Verdict.antt =====
-- src/cmd_run.rs: what a run whose child ends is logged as, and the number that the process exits with.
use kpexec.Prelude.{
  ℕ, ◌≡◌, refl, subst, ◌∙◌, Bool, true, false, ap, String, Option, List, ◌∷◌, [], min, ltb, arith,
  if◌then◌else◌,
}
use kpexec.Status.{KpexecStatus, success, redaction_failure, timeout, Outcome, ℤ, pos, negsuc, code}
use kpexec.Error.{ok}
use kpexec.Secret.{Secret}
use kpexec.Vault.{read_secret}
use kpexec.System.{done}
use kpexec.Run.Surroundings.{World, Child, Signal, ExitStatus, exited}
use kpexec.Run.Build.{build_argv}
use kpexec.Run.Verify.{Resolved, Verified, resolve, verify_exe}
use kpexec.Run.Spawn.{
  RunOptions, Spawned, spawn_and_wait, request, drive, finish, started, captured_output, not_empty,
  exit_code_of,
}
use kpexec.Run.Emit.{RunArgs, outcome_of, emit_spawned}
use kpexec.Run.Audit.{statuses, result_status, run_with-logs_once}
use kpexec.Run.Timeout.{Ending, ExitNumber, Ending-signals, exit_code_of-ExitNumber}
use kpexec.Run.{run_with, run_resolved, run_verified, run_spawned}

-- By whether redaction failed, whether the child was late, and its exit number: the status in the log, and
-- the exit code of the process.
pub data Verdict (leaked late : Bool) (c : ℤ) : KpexecStatus → ℕ → Type 0 where
  withheld : leaked ≡ true → Verdict leaked late c redaction_failure 105
  too_late : leaked ≡ false → late ≡ true → Verdict leaked late c timeout 106
  child_code :
      (n : ℕ)
      → leaked ≡ false
      → late ≡ false
      → c ≡ pos n
      → Verdict leaked late c success (min n 255)
  negative :
      (n : ℕ) → leaked ≡ false → late ≡ false → c ≡ negsuc n → Verdict leaked late c success 255

min_255 : (n : ℕ) → min n 255 ≡ (if ltb n 256 then n else 255)
min_255 n = ground arith

-- The result of a child that ends, from its parts.
abbrev spawned_of : ℤ → Bool → String → String → Bool → Bool → Bool → Spawned
spawned_of c late out err a b leaked = record {
  child_exit_code = c;
  timed_out = late;
  processed = record {
    stdout = out;
    stderr = err;
    stdout_truncated = a;
    stderr_truncated = b;
    redaction_failed = leaked;
  };
}

parts-Verdict :
    (c : ℤ) (late : Bool) (out err : String) (a b leaked : Bool)
    → let s = spawned_of c late out err a b leaked in
      Verdict leaked late c (result_status (ok (outcome_of s))) (code (outcome_of s))
unfolding outcome_of code
parts-Verdict c late out err a b true = withheld refl
parts-Verdict c true out err a b false = too_late refl refl
parts-Verdict (pos n) false out err a b false =
    subst (Verdict false false (pos n) success) (min_255 n) (child_code n refl refl refl)
parts-Verdict (negsuc n) false out err a b false = negative n refl refl refl

spawned-Verdict :
    (s : Spawned)
    → Verdict s.processed.redaction_failed s.timed_out s.child_exit_code
        (result_status (ok (outcome_of s)))
        (code (outcome_of s))
spawned-Verdict s =
    let p = s.processed in
    parts-Verdict s.child_exit_code s.timed_out p.stdout p.stderr p.stdout_truncated
      p.stderr_truncated p.redaction_failed

module _ {Database : Type 0} (w : World Database) where
  abbrev argv_of : RunArgs → Resolved Database → Verified → List String
  argv_of args r v = build_argv v.canonical r.command.argv_prefix args.trailing

  -- The result of driving a child that ends in a given way.
  abbrev ended_as : Resolved Database → Secret → Child → List Signal → Bool → ExitStatus → Spawned
  ended_as r secret child sent late status = record {
    child_exit_code = exit_code_of status;
    timed_out = late;
    processed = captured_output w r.policy secret child sent;
  }

  finish-ended :
      (r : Resolved Database) (secret : Secret) (child : Child) (sent : List Signal) (late : Bool)
      (status : ExitStatus)
      → not_empty sent ≡ late
      → child.wait sent ≡ exited status
      → finish w r.policy secret child sent (child.wait sent)
        ≡ ok (ended_as r secret child sent late status)
  unfolding finish
  finish-ended r secret child sent late status l h = rw (h, l) refl

  run_spawned-ended :
      (args : RunArgs) (opts : RunOptions) (r : Resolved Database) (v : Verified) (secret : Secret)
      (child : Child) (sent : List Signal) (late : Bool) (status : ExitStatus)
      → read_secret w.keepass r.vault.db args.entry ≡ ok secret
      → w.spawn (request w r.policy v (argv_of args r v) secret) ≡ done child
      → Ending opts child sent late
      → child.wait sent ≡ exited status
      → (run_spawned w args opts r v (argv_of args r v)).1
        ≡ ok (outcome_of (ended_as r secret child sent late status))
  unfolding run_spawned spawn_and_wait drive emit_spawned
  run_spawned-ended args opts r v secret child sent late status h k e x =
      let (same, l) = Ending-signals e in
      rw (h, spawn_and_wait)
        (rw (k, started) (rw (same, finish-ended r secret child sent late status l x) refl))

  run_with-ended :
      (args : RunArgs) (path : String) (hint : Option String) (opts : RunOptions)
      (r : Resolved Database) (v : Verified)
      → resolve w path hint args.entry args.command ≡ ok r
      → verify_exe w r.command ≡ ok v
      → args.dry_run ≡ false
      → (run_with w args path hint opts).1 ≡ (run_spawned w args opts r v (argv_of args r v)).1
  unfolding run_with run_resolved run_verified
  run_with-ended args path hint opts r v h k d = rw (h, run_with) (rw (k, run_resolved) (rw d refl))

  -- A run that is resolved and verified, is no dry run, reads the secret and starts a child, which ends in one
  -- of the three ways, has one record in its log and one exit code of the process: if a form of the secret
  -- is left in the output, redaction-failure and 105; or else, if the child was late, timeout and
  -- 106; or else success and the exit number of the child, which is 128 and the number of a signal, or
  -- the code, or 1, and is 255 where that is negative or larger.
  pub run_with-Verdict :
      (args : RunArgs) (path : String) (hint : Option String) (opts : RunOptions)
      (r : Resolved Database) (v : Verified) (secret : Secret) (child : Child) (sent : List Signal)
      (late : Bool) (status : ExitStatus)
      → resolve w path hint args.entry args.command ≡ ok r
      → verify_exe w r.command ≡ ok v
      → args.dry_run ≡ false
      → read_secret w.keepass r.vault.db args.entry ≡ ok secret
      → w.spawn (request w r.policy v (argv_of args r v) secret) ≡ done child
      → Ending opts child sent late
      → child.wait sent ≡ exited status
      → (c : ℤ) × (recorded : KpexecStatus) × (n : ℕ) × (o : Outcome) × ExitNumber status c
        × Verdict (captured_output w r.policy secret child sent).redaction_failed late c recorded n
        × (statuses (run_with w args path hint opts).0 ≡ recorded ∷ [])
        × ((run_with w args path hint opts).1 ≡ ok o)
        × (code o ≡ n)
  run_with-Verdict args path hint opts r v secret child sent late status a b d h k e x =
      let s = ended_as r secret child sent late status in
      let result =
        run_with-ended args path hint opts r v a b d
        ∙ run_spawned-ended args opts r v secret child sent late status h k e x in
      (
        exit_code_of status,
        result_status (ok (outcome_of s)),
        code (outcome_of s),
        outcome_of s,
        exit_code_of-ExitNumber status,
        spawned-Verdict s,
        run_with-logs_once w args path hint opts ∙ ap (λ q. result_status q ∷ []) result,
        result,
        refl,
      )
