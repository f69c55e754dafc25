-- ===== src/Lib.antt =====
-- kpexec runs an approved command with a secret from a KeePass vault in its environment, and masks the
-- secret in what the command prints. This library models its core and proves what keeps the secret in.
--
-- The parts, and the files that model them:
-- - src/status.rs, src/error.rs, `code` of src/main.rs: Status, Error. Message keeps an error's text as
--   pieces, so that formatting is not imitated.
-- - src/secret.rs: Secret. src/policy.rs: Policy, with Duplicates for the count of names that it shares
--   with src/vault.rs.
-- - src/output.rs: Output. Output/Variants has the encodings of the secret that are looked for,
--   Output/Redact the passes and the scan (`redact_bounded`), Output/Truncate the cut to the byte limit
--   (`truncate_no_split_marker`), Output/Process the composition (`process`). Bytes are numbers.
-- - src/pin.rs: Pin. src/keychain.rs: Keychain, the account names and the store as an interface. src/logging.rs: Logging.
-- - src/vault.rs: Vault (the operations on entries) and Vault/Open (`open`, and the binding of a vault to
--   the path that its Keychain item blesses).
-- - src/cmd_run.rs: Run. The parts are Run/Verify (`resolve`, `verify_exe`), Run/Build (`build_argv`,
--   `apply_env`), Run/Capture (the reader threads), Run/Spawn (`spawn_and_wait`), Run/Emit (what is
--   written and logged), and Run itself (`run_with`). A run is the list of its events, in order, with its
--   result.
-- - Prelude has the shared names, tests and list lemmas. Modules below a part hold its proofs and are named
--   for what they prove.
-- - src/cli.rs, src/commands.rs, src/user_presence.rs: Cli, Commands (the gate before every handler that
--   changes something, over the handlers as a parameter), UserPresence. src/lock.rs: Lock.
-- - Machine is the state that the maintenance commands change: the regular files, the Keychain, the input and
--   what was printed, with a schedule of faults; Machine/Files has the calls of `std::fs`. A step
--   takes a machine to a result and the machine it leaves, also after an error.
-- - Vault/Save is `save_atomic`. src/cmd_db.rs: Db, with Db/Restore (snapshots and rollback) and
--   Db/Rotate (`rotate_password_with_generator`, `show_password_with`). src/masterpw.rs: MasterPassword.
--   src/kdf.rs: Kdf.
-- - src/cmd_init.rs: Init (`run_internal`, `guard_clobber`, `rollback_init`), with what it refuses in
--   Init/Guard.
-- - src/prompt.rs: Prompt. src/cmd_entry.rs: Entry, with Entry/Authoring (command templates),
--   Entry/Handlers and Entry/Repin (what changes the vault), and Entry/Show (`list` and `show`).
-- - src/config.rs, src/vaultctx.rs, src/paths.rs: Config. src/cmd_check.rs: Check. src/doctor.rs: Report
--   (which `check` shares), Doctor, Doctor/Signature and Doctor/Environment.
-- - Tests has one vault, policy and child, at which the theorems are applied.
--
-- How they interact: `run_with` opens the vault, which asks the Keychain; finds the entry and its
-- policy; verifies the pin of the command; and, unless it is a dry run, reads the secret once, starts the
-- child with the environment of the policy, captures a bounded part of its output and has `process` mask
-- it. Every end of a run goes through the one audit record.
-- The maintenance commands take the write lock, ask the Keychain for the credential, open the vault that it
-- blesses, change it and save it: `entry` through Entry/Handlers, the rotation of the password
-- through Db/Rotate, which also restores what it changed. `doctor` runs `check_vault` on the vault it opened.
-- The result of taking the lock is an argument of these steps; Lock models how it comes about.
--
-- What is a parameter: the operating system and the file system (System), text encoding and JSON strings
-- (Codec), the JSON of a policy (PolicyJson), the KeePass database (Keepass) and its file format (Format), the
-- Keychain (Lookup, KeychainStore), the terminal (Terminal), and the child process (World, Child). Laws of
-- these that a theorem needs are its hypotheses (KeepassLaws, FormatLaws, SetReads). The file system answers as it stands at one
-- moment: that a file changes between two calls of one run is not modelled.
--
-- Bounds and fuel: `replace_from` has the length of the input as its fuel, and each round drops a byte at
-- least; that this is enough is what its relation Scan shows (Output/Redact/Scan). The passes
-- of `redact_bounded` have the bound of the code, which is 4 in `process`. `scan_cut` has one round for
-- each offset of the code's loop. Sizes are natural numbers; where the code saturates at 2^64 - 1
-- (`capture_limit`), so does the model.
--
-- Not modelled: the wiping of memory, the Keychain's own calls, JSON and TOML text, argument parsing,
-- the interactive loop that asks for command templates (a parameter), the entry points
-- that load the configuration and pass it on, the processes that doctor starts, the encoding of a
-- Keychain item, and the rotation of the log.
--
-- Faults: each file operation and each line of output takes the next fault of the schedule, and a theorem
-- holds for every schedule. `generate_from` has no result when the draws run out; that enough of them give
-- one is proved.
pub mod Prelude
pub mod Message
pub mod Status
pub mod Error
pub mod Duplicates
pub mod Vault
pub mod Secret
pub mod System
pub mod Pin
pub mod Keychain
pub mod Policy
pub mod Output
pub mod Logging
pub mod Run
pub mod Cli
pub mod Commands
pub mod UserPresence
pub mod Lock
pub mod Machine
pub mod Db
pub mod Config
pub mod MasterPassword
pub mod Kdf
pub mod Report
pub mod Check
pub mod Prompt
pub mod Entry
pub mod Doctor
pub mod Init
pub mod Tests
