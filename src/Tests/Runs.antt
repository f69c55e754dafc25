-- ===== src/Tests/Runs.antt =====
-- Applications of the theorems on src/cmd_run.rs and the modules it uses.
use kpexec.Prelude.{
  ℕ, Bool, List, ◌≡◌, refl, true, false, none, some, inl, inr, [], ◌∷◌, In, All, str_eq,
  if◌then◌else◌, codes, take, map,
}
use kpexec.Status.{KpexecStatus, Outcome, ℤ, code}
use kpexec.Error.{ok}
use kpexec.Policy.{parse, find_command}
use kpexec.Pin.{Pin, compute, eq_ignore_ascii_case, require_enforceable}
use kpexec.Vault.{read_secret, find_entry, raw_entries}
use kpexec.Vault.Open.{open_vault, open_with_credential}
use kpexec.Run.Surroundings.{spawned, Request, Signal, signalled, sigterm}
use kpexec.Run.Build.{
  build_argv, apply_env, getenv, getenv-apply_env, fixed_path, inherited, policy_sets,
}
use kpexec.Run.Capture.{spawn_reader, stream, spawn_reader-take}
use kpexec.Run.Verify.{Resolved, Verified, verify_exe, is_executable, resolve}
use kpexec.Run.Spawn.{spawn_and_wait, request, drive, captured_output}
use kpexec.Run.Audit.{statuses, result_status, run_with-logs_once}
use kpexec.Run.Boundary.{Quiet, run_with-dry_run, Approved, run_with-spawns-Approved}
use kpexec.Run.Pinning.{Hashed, PinChecked, verify_exe_sound}
use kpexec.Run.Timeout.{Ending, stopped, ExitNumber, Reported, drive-Reported}
use kpexec.Run.Verdict.{Verdict, run_with-Verdict}
use kpexec.Run.{run_with, run_resolved, run_verified, run_spawned}
use kpexec.Tests.{
  sample_keepass, sample_secret, sample_sys, sample_command, sample_policy, sample_child,
  sample_world, sample_args, sample_opts,
}

abbrev sample_request : Request
sample_request = record {
  program = "/bin/gh";
  args = "api" ∷ "/user" ∷ [];
  vars = ("HOME", "/home/me") ∷ ("PATH", "/usr/bin:/bin") ∷ ("PAGER", "cat") ∷ ("TOKEN", "ab") ∷ [];
}

is_spawned :
    In
      (spawned sample_request)
      (run_with sample_world (sample_args false) "/v.kdbx" none sample_opts).0
unfolding run_with run_resolved run_verified run_spawned resolve open_vault open_with_credential
    find_entry raw_entries parse find_command verify_exe compute eq_ignore_ascii_case
    require_enforceable spawn_and_wait read_secret request apply_env build_argv
is_spawned = inr (inl refl)

run_with-spawns-Approved_example :
    Approved sample_world (sample_args false) "/v.kdbx" none sample_request
run_with-spawns-Approved_example =
    run_with-spawns-Approved sample_world (sample_args false) "/v.kdbx" none sample_opts
      sample_request is_spawned

run_with-dry_run_example :
    All Quiet (run_with sample_world (sample_args true) "/v.kdbx" none sample_opts).0
run_with-dry_run_example =
    run_with-dry_run sample_world (sample_args true) "/v.kdbx" none sample_opts refl

run_with-logs_once_example :
    statuses (run_with sample_world (sample_args false) "/v.kdbx" none sample_opts).0
    ≡ result_status (run_with sample_world (sample_args false) "/v.kdbx" none sample_opts).1 ∷ []
run_with-logs_once_example =
    run_with-logs_once sample_world (sample_args false) "/v.kdbx" none sample_opts

abbrev sample_pin : Pin
sample_pin = record { canonical = "/bin/gh"; sha256 = "abcd"; size = 2; mtime = none }

verify_exe_sound_example :
    (pin : Pin) × Hashed sample_sys "/bin/gh" pin
    × ("/bin/gh" ≡ pin.canonical)
    × (is_executable sample_world pin.canonical ≡ true)
    × PinChecked sample_world pin.canonical pin.sha256 (some "ABCD") false
unfolding verify_exe compute eq_ignore_ascii_case require_enforceable
verify_exe_sound_example =
    verify_exe_sound sample_world sample_command
      (record { canonical = "/bin/gh"; unpinned = false }) refl

drive-Reported_example :
    (sent : List Signal) × (late : Bool) × Ending sample_opts sample_child sent late
    × ((drive sample_world sample_policy sample_secret sample_opts sample_child).0
        ≡ map signalled sent)
    × Reported late
        (captured_output sample_world sample_policy sample_secret sample_child sent)
        (sample_child.wait sent)
        (drive sample_world sample_policy sample_secret sample_opts sample_child).1
drive-Reported_example =
    drive-Reported sample_world sample_policy sample_secret sample_opts sample_child

abbrev sample_resolved : Resolved (Unit {0})
sample_resolved = record {
  vault = record { db = tt; path = "/v.kdbx"; master = sample_secret };
  policy = sample_policy;
  command = sample_command;
}

abbrev sample_verified : Verified
sample_verified = record { canonical = "/bin/gh"; unpinned = false }

is_resolved : resolve sample_world "/v.kdbx" none "gh" "api" ≡ ok sample_resolved
unfolding resolve open_vault open_with_credential find_entry raw_entries parse find_command
is_resolved = refl

is_verified : verify_exe sample_world sample_command ≡ ok sample_verified
unfolding verify_exe compute eq_ignore_ascii_case require_enforceable
is_verified = refl

is_read : read_secret sample_keepass tt "gh" ≡ ok sample_secret
unfolding read_secret
is_read = refl

run_with-Verdict_example :
    (c : ℤ) × (recorded : KpexecStatus) × (n : ℕ) × (o : Outcome) × ExitNumber
      (record { signal = some 15; exit = none })
      c
    × Verdict
        (captured_output sample_world sample_policy sample_secret sample_child
          (sigterm ∷ [])).redaction_failed
        true
        c
        recorded
        n
    × (statuses (run_with sample_world (sample_args false) "/v.kdbx" none sample_opts).0
        ≡ recorded ∷ [])
    × ((run_with sample_world (sample_args false) "/v.kdbx" none sample_opts).1 ≡ ok o)
    × (code o ≡ n)
run_with-Verdict_example =
    run_with-Verdict sample_world (sample_args false) "/v.kdbx" none sample_opts sample_resolved
      sample_verified sample_secret sample_child (sigterm ∷ []) true
      (record { signal = some 15; exit = none }) is_resolved is_verified refl is_read refl
      (stopped refl refl) refl

getenv-apply_env_example :
    getenv (apply_env sample_sys sample_policy.env "TOKEN" sample_secret) "TOKEN" ≡ (
      if str_eq "TOKEN" "TOKEN"
      then some "ab"
      else policy_sets sample_policy.env "TOKEN"
          (if str_eq "PATH" "TOKEN" then some fixed_path else inherited sample_sys "TOKEN"))
getenv-apply_env_example =
    getenv-apply_env sample_sys sample_policy.env "TOKEN" sample_secret "TOKEN"

spawn_reader-take_example :
    spawn_reader 3 (codes "ab" ∷ codes "cd" ∷ []) ≡ take 3 (stream (codes "ab" ∷ codes "cd" ∷ []))
spawn_reader-take_example = spawn_reader-take 3 (codes "ab" ∷ codes "cd" ∷ [])
