-- ===== src/Run/Timeout.antt =====
-- src/cmd_run.rs: the timeout, the signals it sends, and what a run that it ends comes to.
use kpexec.Prelude.{
  ℕ, ◌+◌, ◌≡◌, ◌↔◌, refl, String, Bool, true, false, inl, inr, Option, none, some, List, [], ◌∷◌,
  arith, map, Bool-cases,
}
use kpexec.Status.{ℤ, pos, internal}
use kpexec.Error.{Result, ok, fail, Message}
use kpexec.Secret.{Secret}
use kpexec.Policy.{Policy}
use kpexec.Output.Process.{Processed}
use kpexec.Run.Surroundings.{
  World, signalled, Child, Signal, sigterm, sigkill, ExitStatus, Waited, panicked, wait_failed,
  exited,
}
use kpexec.Run.Spawn.{
  RunOptions, Spawned, signals, drive, exit_code_of, finish, not_empty, captured_output,
}

-- The signals come in one of three sequences: none, exactly if the child ends within the timeout;
-- SIGTERM alone, exactly if it then stops within the grace period; or SIGTERM followed by SIGKILL.
pub signals_escalate :
    (opts : RunOptions) (child : Child)
    → ((signals opts child ≡ []) ↔ (child.exits_within opts.timeout ≡ true))
      × ((signals opts child ≡ sigterm ∷ []) ↔ (
          (child.exits_within opts.timeout ≡ false) × (child.stops_within opts.kill_grace ≡ true)))
      × ((signals opts child ≡ sigterm ∷ sigkill ∷ []) ↔ (
          (child.exits_within opts.timeout ≡ false) × (child.stops_within opts.kill_grace ≡ false)))
unfolding signals
signals_escalate opts child = ground arith

-- How a child ends, by its own times: the signals that its group is sent, and whether it was late.
pub data Ending (opts : RunOptions) (child : Child) : List Signal → Bool → Type 0 where
  in_time : child.exits_within opts.timeout ≡ true → Ending opts child [] false
  stopped :
      child.exits_within opts.timeout ≡ false
      → child.stops_within opts.kill_grace ≡ true
      → Ending opts child (sigterm ∷ []) true
  killed :
      child.exits_within opts.timeout ≡ false
      → child.stops_within opts.kill_grace ≡ false
      → Ending opts child (sigterm ∷ sigkill ∷ []) true

-- The number that stands for an exit: 128 and the signal, or else the child's own code, or else 1.
pub data ExitNumber (status : ExitStatus) : ℤ → Type 0 where
  by_signal : (n : ℕ) → status.signal ≡ some n → ExitNumber status (pos (128 + n))
  by_code : (c : ℤ) → status.signal ≡ none → status.exit ≡ some c → ExitNumber status c
  by_default : status.signal ≡ none → status.exit ≡ none → ExitNumber status (pos 1)

-- What becomes of the wait.
pub data Reported (late : Bool) (processed : Processed) : Waited → Result Spawned → Type 0 where
  seen :
      (status : ExitStatus) (c : ℤ)
      → ExitNumber status c
      → Reported late processed
          (exited status)
          (ok (record { child_exit_code = c; timed_out = late; processed = processed }))
  lost : (e : String) (m : Message) → Reported late processed (wait_failed e) (fail internal m)
  crashed : (m : Message) → Reported late processed panicked (fail internal m)

signals-Ending :
    (opts : RunOptions) (child : Child)
    → Ending opts child (signals opts child) (not_empty (signals opts child))
unfolding signals
signals-Ending opts child = elim (Bool-cases (child.exits_within opts.timeout)) [
  | inl early ↦ rw early (in_time early)
  | inr late ↦ elim (Bool-cases (child.stops_within opts.kill_grace)) [
    | inl stops ↦ rw (late, stops) (stopped late stops)
    | inr stays ↦ rw (late, stays) (killed late stays)
  ]
]

number_of-ExitNumber :
    (signal : Option ℕ) (exit : Option ℤ)
    → ExitNumber
        (record { signal = signal; exit = exit })
        (exit_code_of (record { signal = signal; exit = exit }))
unfolding exit_code_of
number_of-ExitNumber (some n) exit = by_signal n refl
number_of-ExitNumber none (some c) = by_code c refl refl
number_of-ExitNumber none none = by_default refl refl

pub exit_code_of-ExitNumber : (status : ExitStatus) → ExitNumber status (exit_code_of status)
exit_code_of-ExitNumber status = number_of-ExitNumber status.signal status.exit

pub Ending-signals :
    {opts : RunOptions} {child : Child} {sent : List Signal} {late : Bool}
    → Ending opts child sent late
    → (signals opts child ≡ sent) × (not_empty sent ≡ late)
unfolding signals
Ending-signals (in_time early) = (rw early refl, refl)
Ending-signals (stopped late stops) = (rw (late, stops) refl, refl)
Ending-signals (killed late stays) = (rw (late, stays) refl, refl)

module _ {Database : Type 0} (w : World Database) where
  finish-Reported :
      (policy : Policy) (secret : Secret) (child : Child) (sent : List Signal) (waited : Waited)
      → Reported
          (not_empty sent)
          (captured_output w policy secret child sent)
          waited
          (finish w policy secret child sent waited)
  unfolding finish
  finish-Reported policy secret child sent panicked = crashed _
  finish-Reported policy secret child sent (wait_failed e) = lost e _
  finish-Reported policy secret child sent (exited status) =
      seen status _ (exit_code_of-ExitNumber status)

  -- For every started child: its group is sent no signal if it ends within the timeout, SIGTERM alone if it
  -- then ends within the grace period, and otherwise SIGTERM and then SIGKILL. If waiting gives an exit, the
  -- result has 128 and the number of the signal that ended the child, or else the child's own code, or
  -- else 1; it counts as timed out exactly if a signal was sent; and its output is that of the child
  -- that got these signals. A wait that fails is an internal error.
  pub drive-Reported :
      (policy : Policy) (secret : Secret) (opts : RunOptions) (child : Child)
      → (sent : List Signal) × (late : Bool) × Ending opts child sent late
        × ((drive w policy secret opts child).0 ≡ map signalled sent)
        × Reported late
            (captured_output w policy secret child sent)
            (child.wait sent)
            (drive w policy secret opts child).1
  unfolding drive
  drive-Reported policy secret opts child =
      let sent = signals opts child in
      (
        sent,
        not_empty sent,
        signals-Ending opts child,
        refl,
        finish-Reported policy secret child sent (child.wait sent),
      )
