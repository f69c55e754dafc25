-- ===== src/Run/Boundary.antt =====
-- src/cmd_run.rs: what has been established when the secret is read or a child is started.
use kpexec.Prelude.{
  ◌≡◌, String, Bool, true, false, Option, List, [], ◌∷◌, ◌++◌, map, ap, In, In-append, All, All-In,
  All-append, inl, inr, Bool-cases, if◌then◌else◌,
}
use kpexec.Status.{Outcome}
use kpexec.Error.{KpexecError, Result, ok, err}
use kpexec.Secret.{Secret}
use kpexec.Policy.{Policy}
use kpexec.Vault.{Vault, read_secret}
use kpexec.Run.Build.{build_argv, apply_env}
use kpexec.Run.Surroundings.{World, Event, extracted, spawned, signalled, Signal, Request}
use kpexec.Run.Verify.{Resolved, Verified, resolve, verify_exe}
use kpexec.Run.Spawn.{Run, RunOptions, Spawned, spawn_and_wait, signals, request}
use kpexec.Run.Emit.{RunArgs, emit_spawned, emit_dry_run, emit_error, dry_run_lines}
use kpexec.Run.Cases.{
  SpawnCase, unread, unstarted, driven, spawn_and_wait-SpawnCase, RunCase, unresolved, unverified,
  dry, wet, run_with-RunCase,
}
use kpexec.Run.{emit_result, run_spawned, run_with, warnings}

-- Neither the secret nor a child is touched.
abbrev pub Quiet : Event → Type 0
Quiet (extracted _) = ⊥
Quiet (spawned _) = ⊥
Quiet (signalled _) = ⊥
Quiet _ = Unit

dry_run_lines-Quiet : (argv : List String) → All Quiet (dry_run_lines argv)
unfolding dry_run_lines
dry_run_lines-Quiet [] = tt
dry_run_lines-Quiet (a ∷ argv) = (tt, dry_run_lines-Quiet argv)

All-if :
    (xs ys : List Event) (b : Bool) → All Quiet xs → All Quiet ys → All Quiet (if b then xs else ys)
All-if xs ys true p q = p
All-if xs ys false p q = q

module _ {Database : Type 0} (w : World Database) where
  emit_error-Quiet :
      (args : RunArgs) (exe : String) (argv : List String) (e : KpexecError)
      → All Quiet (emit_error w args exe argv e).0
  unfolding emit_error
  emit_error-Quiet args exe argv e = elim (Bool-cases args.json) [
    | inl j ↦ simp j (tt, (tt, tt))
    | inr j ↦ simp j (tt, tt)
  ]

  emit_spawned-Quiet :
      (args : RunArgs) (exe : String) (argv : List String) (s : Spawned)
      → All Quiet (emit_spawned w args exe argv s).0
  unfolding emit_spawned
  emit_spawned-Quiet args exe argv s =
      (tt, All-if _ _ args.json (tt, tt) (tt, (tt, All-if _ _ s.timed_out (tt, tt) tt)))

  emit_dry_run-Quiet :
      (args : RunArgs) (exe : String) (argv : List String)
      → All Quiet (emit_dry_run w args exe argv).0
  unfolding emit_dry_run
  emit_dry_run-Quiet args exe argv =
      (tt, All-if _ _ args.json (tt, tt) (tt, (tt, dry_run_lines-Quiet argv)))

  warnings-Quiet : (v : Verified) (r : Resolved Database) → All Quiet (warnings w v r)
  warnings-Quiet v r = All-if _ _ v.unpinned (tt, tt) tt

  emit_result-Quiet :
      (args : RunArgs) (exe : String) (argv : List String) (s : Result Spawned)
      → All Quiet (emit_result w args exe argv s).0
  emit_result-Quiet args exe argv (ok s) = emit_spawned-Quiet args exe argv s
  emit_result-Quiet args exe argv (err e) = emit_error-Quiet args exe argv e

  no_spawn : (events : List Event) (req : Request) → All Quiet events → In (spawned req) events → ⊥
  no_spawn events req q i = All-In Quiet events (spawned req) q i

  -- A dry run neither reads the secret nor starts or signals a child, whatever the request.
  pub run_with-dry_run :
      (args : RunArgs) (path : String) (hint : Option String) (opts : RunOptions)
      → args.dry_run ≡ true
      → All Quiet (run_with w args path hint opts).0
  run_with-dry_run args path hint opts d = quiet (run_with-RunCase w args path hint opts)
    where
      quiet : {run : Run (Result Outcome)} → RunCase w args path hint opts run → All Quiet run.0
      quiet (unresolved e h) = emit_error-Quiet args "" [] e
      quiet (unverified r e h k) = emit_error-Quiet args r.command.exe _ e
      quiet (dry r v h k d') =
          All-append Quiet (warnings w v r) _ (warnings-Quiet v r)
            (emit_dry_run-Quiet args v.canonical _)
      quiet (wet r v h k d') = absurd (cc (d, d'))

  -- The request of a child, as the resolved and verified policy determines it.
  abbrev pub Approved : RunArgs → String → Option String → Request → Type 0
  Approved args path hint req =
      (r : Resolved Database) × (v : Verified) × (secret : Secret) × (resolve w path hint args.entry
          args.command
        ≡ ok r)
      × (verify_exe w r.command ≡ ok v)
      × (args.dry_run ≡ false)
      × (read_secret w.keepass r.vault.db args.entry ≡ ok secret)
      × (req.program ≡ v.canonical)
      × (req.args ≡ r.command.argv_prefix ++ args.trailing)
      × (req.vars ≡ apply_env w.sys r.policy.env r.policy.secret.inject.name secret)

  SpawnCase-spawned :
      {vault : Vault Database} {entry : String} {policy : Policy} {v : Verified}
      {argv : List String} {opts : RunOptions} {run : Run (Result Spawned)}
      → SpawnCase w vault entry policy v argv opts run
      → (req : Request) → In (spawned req) run.0
      → (secret : Secret) × (read_secret w.keepass vault.db entry ≡ ok secret)
        × (req ≡ request w policy v argv secret)
  SpawnCase-spawned (unread e h) req (inl i) = absurd (cc)
  SpawnCase-spawned (unread e h) req (inr i) = elim i [ ]
  SpawnCase-spawned (unstarted secret e h k) req (inl i) = absurd (cc)
  SpawnCase-spawned (unstarted secret e h k) req (inr (inl i)) = (secret, h, cc)
  SpawnCase-spawned (unstarted secret e h k) req (inr (inr i)) = elim i [ ]
  SpawnCase-spawned (driven secret child h k) req (inl i) = absurd (cc)
  SpawnCase-spawned (driven secret child h k) req (inr (inl i)) = (secret, h, cc)
  SpawnCase-spawned {opts} (driven secret child h k) req (inr (inr i)) =
      absurd (never (signals opts child) i)
    where
      never : (sent : List Signal) → In (spawned req) (map signalled sent) → ⊥
      never [] i = i
      never (s ∷ sent) (inl e) = cc
      never (s ∷ sent) (inr i) = never sent i

  run_spawned-spawned :
      (args : RunArgs) (opts : RunOptions) (r : Resolved Database) (v : Verified)
      (argv : List String) (req : Request)
      → In (spawned req) (run_spawned w args opts r v argv).0
      → (secret : Secret) × (read_secret w.keepass r.vault.db args.entry ≡ ok secret)
        × (req ≡ request w r.policy v argv secret)
  unfolding run_spawned
  run_spawned-spawned args opts r v argv req i =
      let done = spawn_and_wait w r.vault args.entry r.policy v argv opts in
      elim (In-append (spawned req) done.0 _ i) [
        | inl j ↦
            SpawnCase-spawned (spawn_and_wait-SpawnCase w r.vault args.entry r.policy v argv opts)
              req j
        | inr j ↦ absurd (no_spawn _ req (emit_result-Quiet args v.canonical argv done.1) j)
      ]

  -- A child is only ever started for a request that was resolved and verified, not for a dry run;
  -- and then with exactly the program, the arguments and the environment that the policy, the
  -- trailing arguments and the secret determine.
  pub run_with-spawns-Approved :
      (args : RunArgs) (path : String) (hint : Option String) (opts : RunOptions) (req : Request)
      → In (spawned req) (run_with w args path hint opts).0
      → Approved args path hint req
  unfolding request build_argv
  run_with-spawns-Approved args path hint opts req = go (run_with-RunCase w args path hint opts)
    where
      from_spawn :
          (r : Resolved Database) (v : Verified)
          → resolve w path hint args.entry args.command ≡ ok r
          → verify_exe w r.command ≡ ok v
          → args.dry_run ≡ false
          → ((secret : Secret) × (read_secret w.keepass r.vault.db args.entry ≡ ok secret)
              × (req
                  ≡ request w r.policy v
                      (build_argv v.canonical r.command.argv_prefix args.trailing)
                      secret))
          → Approved args path hint req
      from_spawn r v h k d (secret, s, e) =
          (r, v, secret, h, k, d, s, ap (λ q. q.program) e, ap (λ q. q.args) e, ap (λ q. q.vars) e)

      go :
          {run : Run (Result Outcome)}
          → RunCase w args path hint opts run
          → In (spawned req) run.0
          → Approved args path hint req
      go (unresolved e h) i = absurd (no_spawn _ req (emit_error-Quiet args "" [] e) i)
      go (unverified r e h k) i =
          absurd (no_spawn _ req (emit_error-Quiet args r.command.exe _ e) i)
      go (dry r v h k d) i = absurd (
          no_spawn _ req
            (All-append Quiet (warnings w v r) _ (warnings-Quiet v r)
              (emit_dry_run-Quiet args v.canonical _))
            i)
      go (wet r v h k d) i = elim (In-append (spawned req) (warnings w v r) _ i) [
        | inl j ↦ absurd (no_spawn _ req (warnings-Quiet v r) j)
        | inr j ↦ from_spawn r v h k d (run_spawned-spawned args opts r v _ req j)
      ]
