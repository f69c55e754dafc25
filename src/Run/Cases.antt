-- ===== src/Run/Cases.antt =====
-- The ways that a run of src/cmd_run.rs can go, each with all that it does.
use kpexec.Prelude.{
  String, Bool, true, false, Option, List, [], ◌∷◌, map, ◌≡◌, refl, ◌⊎◌, inl, inr, Bool-cases,
  subst, sym, if◌then◌else◌,
}
use kpexec.Status.{Outcome, internal}
use kpexec.Error.{KpexecError, Result, ok, err, Result-cases}
use kpexec.Secret.{Secret}
use kpexec.Policy.{Policy}
use kpexec.System.{Io, done, failed}
use kpexec.Vault.{Vault, read_secret}
use kpexec.Run.Build.{build_argv}
use kpexec.Run.Surroundings.{World, extracted, spawned, signalled, Child}
use kpexec.Run.Verify.{Resolved, Verified, resolve, verify_exe}
use kpexec.Run.Spawn.{Run, RunOptions, Spawned, spawn_and_wait, request, started, signals, finish}
use kpexec.Run.Emit.{RunArgs, emit_dry_run, emit_error}
use kpexec.Run.{run_spawned, run_verified, run_resolved, run_with, ◌before◌, warnings}

Io-cases : {A : Type 0} (r : Io A) → ((a : A) × (r ≡ done a)) ⊎ ((e : String) × (r ≡ failed e))
Io-cases (done a) = inl (a, refl)
Io-cases (failed e) = inr (e, refl)

module _ {Database : Type 0} (w : World Database) where
  -- The secret cannot be read; the child cannot be started; or it runs, and is driven to its end.
  pub data SpawnCase (vault : Vault Database) (entry : String) (policy : Policy) (v : Verified)
      (argv : List String) (opts : RunOptions) : Run (Result Spawned) → Type 0 where
    unread :
        (e : KpexecError)
        → read_secret w.keepass vault.db entry ≡ err e
        → SpawnCase vault entry policy v argv opts (extracted entry ∷ [], err e)
    unstarted :
        (secret : Secret) (e : KpexecError)
        → read_secret w.keepass vault.db entry ≡ ok secret
        → e.status ≡ internal
        → SpawnCase vault entry policy v argv opts
            (extracted entry ∷ spawned (request w policy v argv secret) ∷ [], err e)
    driven :
        (secret : Secret) (child : Child)
        → read_secret w.keepass vault.db entry ≡ ok secret
        → w.spawn (request w policy v argv secret) ≡ done child
        → SpawnCase vault entry policy v argv opts (
          extracted entry
              ∷ spawned (request w policy v argv secret)
              ∷ map signalled (signals opts child),
          finish w policy secret child (signals opts child) (child.wait (signals opts child)),
        )

  pub spawn_and_wait-SpawnCase :
      (vault : Vault Database) (entry : String) (policy : Policy) (v : Verified)
      (argv : List String) (opts : RunOptions)
      → SpawnCase vault entry policy v argv opts (spawn_and_wait w vault entry policy v argv opts)
  unfolding spawn_and_wait
  spawn_and_wait-SpawnCase vault entry policy v argv opts =
      elim (Result-cases (read_secret w.keepass vault.db entry)) [
        | inr (e, h) ↦ rw (h, spawn_and_wait) (unread e h)
        | inl (secret, h) ↦ elim (Io-cases (w.spawn (request w policy v argv secret))) [
          | inl (child, k) ↦ rw (h, spawn_and_wait) (rw (k, started) (driven secret child h k))
          | inr (e, k) ↦ rw (h, spawn_and_wait) (rw (k, started) (unstarted secret _ h refl))
        ]
      ]

  -- The request is refused; the executable is refused; it is a dry run; or the child is spawned.
  pub data RunCase (args : RunArgs) (path : String) (hint : Option String) (opts : RunOptions)
      : Run (Result Outcome) → Type 0 where
    unresolved :
        (e : KpexecError)
        → resolve w path hint args.entry args.command ≡ err e
        → RunCase args path hint opts (emit_error w args "" [] e)
    unverified :
        (r : Resolved Database) (e : KpexecError)
        → resolve w path hint args.entry args.command ≡ ok r
        → verify_exe w r.command ≡ err e
        → RunCase args path hint opts (
            emit_error w args r.command.exe
              (build_argv r.command.exe r.command.argv_prefix args.trailing)
              e)
    dry :
        (r : Resolved Database) (v : Verified)
        → resolve w path hint args.entry args.command ≡ ok r
        → verify_exe w r.command ≡ ok v
        → args.dry_run ≡ true
        → RunCase args path hint opts (
            warnings w v r
            before emit_dry_run w args v.canonical
                (build_argv v.canonical r.command.argv_prefix args.trailing))
    wet :
        (r : Resolved Database) (v : Verified)
        → resolve w path hint args.entry args.command ≡ ok r
        → verify_exe w r.command ≡ ok v
        → args.dry_run ≡ false
        → RunCase args path hint opts (
            warnings w v r
            before run_spawned w args opts r v
                (build_argv v.canonical r.command.argv_prefix args.trailing))

  run_verified-RunCase :
      (args : RunArgs) (path : String) (hint : Option String) (opts : RunOptions)
      (r : Resolved Database) (v : Verified)
      → resolve w path hint args.entry args.command ≡ ok r
      → verify_exe w r.command ≡ ok v
      → RunCase args path hint opts (run_verified w args opts r v)
  unfolding run_verified
  run_verified-RunCase args path hint opts r v h k = elim (Bool-cases args.dry_run) [
    | inl d ↦ subst Branch (sym d) (dry r v h k d)
    | inr d ↦ subst Branch (sym d) (wet r v h k d)
  ]
    where
      argv : List String
      argv = build_argv v.canonical r.command.argv_prefix args.trailing

      Branch : Bool → Type 0
      Branch b = RunCase args path hint opts (
          warnings w v r
          before (if b
              then emit_dry_run w args v.canonical argv
              else run_spawned w args opts r v argv))

  pub run_with-RunCase :
      (args : RunArgs) (path : String) (hint : Option String) (opts : RunOptions)
      → RunCase args path hint opts (run_with w args path hint opts)
  unfolding run_with run_resolved
  run_with-RunCase args path hint opts =
      elim (Result-cases (resolve w path hint args.entry args.command)) [
        | inr (e, h) ↦ rw (h, run_with) (unresolved e h)
        | inl (r, h) ↦ elim (Result-cases (verify_exe w r.command)) [
          | inr (e, k) ↦ rw (h, run_with) (rw (k, run_resolved) (unverified r e h k))
          | inl (v, k) ↦
              rw (h, run_with)
                (rw (k, run_resolved) (run_verified-RunCase args path hint opts r v h k))
        ]
      ]
