-- ===== src/Run/Verify.antt =====
-- src/cmd_run.rs: resolving the request, and verifying the executable. Neither reads the secret.
use kpexec.Prelude.{
  String, Bool, true, false, not, Option, none, some, [], ◌∷◌, if◌then◌else◌, bit_test,
}
use kpexec.Status.{unknown_entry, unknown_command, malformed_policy, exe_hash_mismatch}
use kpexec.Error.{KpexecError, Result, ok, err, fail, ◌>>=◌, ◌>>◌, ok_or, text, debug}
use kpexec.Policy.{Command, Policy, command}
use kpexec.System.{Io, done, failed, Metadata}
use kpexec.Pin.{compute, require_enforceable, eq_ignore_ascii_case}
use kpexec.Vault.{Vault, find_entry}
use kpexec.Vault.Open.{open_vault}
use kpexec.Run.Surroundings.{World}

pub record Resolved (Database : Type 0) : Type 0 where
  pub vault : Vault Database
  pub policy : Policy
  pub command : Command

pub record Verified : Type 0 where
  pub canonical : String
  pub unpinned : Bool

abbrev pub pin_mismatch : String → KpexecError
pin_mismatch canonical = record {
  status = exe_hash_mismatch;
  message =
      text "executable "
      ∷ text canonical
      ∷ text " has changed since it was pinned; run `kpexec entry repin` to re-approve it"
      ∷ [];
}

-- Any of the bits 0o111: owner, group or other may execute.
abbrev may_execute : Io Metadata → Bool
may_execute (done meta) = bit_test meta.mode 0o111
may_execute (failed _) = false

module _ {Database : Type 0} (w : World Database) where
  -- Entry, then command; the policy is parsed with the entry.
  unfoldable pub resolve : String → Option String → String → String → Result (Resolved Database)
  resolve vault_path config_hint entry_id command_name = do
    vault ← open_vault w.sys w.codec w.open_db w.keychain vault_path config_hint
    found ← find_entry w.keepass w.json vault.db entry_id
    view ← ok_or found (record {
      status = unknown_entry;
      message = text "no entry with id " ∷ debug entry_id ∷ [];
    })
    cmd ← ok_or (command view.policy command_name) (record {
      status = unknown_command;
      message = text "entry " ∷ debug entry_id ∷ text " has no command " ∷ debug command_name ∷ [];
    })
    ok (record { vault = vault; policy = view.policy; command = cmd })

  abbrev pub is_executable : String → Bool
  is_executable path = may_execute (w.sys.metadata path)

  abbrev pub check_pin : String → String → Option String → Result Verified
  check_pin canonical fresh none = ok (record { canonical = canonical; unpinned = true })
  check_pin canonical fresh (some recorded) =
      if not (eq_ignore_ascii_case fresh recorded) then err (pin_mismatch canonical) else do
        require_enforceable w.sys canonical
        ok (record { canonical = canonical; unpinned = false })

  unfoldable pub verify_exe : Command → Result Verified
  verify_exe cmd = do
    fresh ← compute w.sys cmd.exe
    if not (is_executable fresh.canonical)
        then fail malformed_policy (text fresh.canonical ∷ text " is not executable" ∷ [])
        else check_pin fresh.canonical fresh.sha256 cmd.exe_sha256
