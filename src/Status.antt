-- ===== src/Status.antt =====
-- src/status.rs and `code` of src/main.rs: result codes, outcomes and the envelope.
pub mod Codes
use kpexec.Prelude.{ℕ, String, Option, none, List, [], ltb, if◌then◌else◌}
use kpexec.Message.{Message}

pub data KpexecStatus : Type 0 where
  success unknown_entry unknown_command malformed_policy exe_hash_mismatch : KpexecStatus
  unlock_failed redaction_failure timeout config_error not_implemented : KpexecStatus
  user_presence_denied user_presence_unavailable internal : KpexecStatus

unfoldable pub as_str : KpexecStatus → String
as_str success = "success"
as_str unknown_entry = "unknown-entry"
as_str unknown_command = "unknown-command"
as_str malformed_policy = "malformed-policy"
as_str exe_hash_mismatch = "exe-hash-mismatch"
as_str unlock_failed = "unlock-failed"
as_str redaction_failure = "redaction-failure"
as_str timeout = "timeout"
as_str config_error = "config-error"
as_str not_implemented = "not-implemented"
as_str user_presence_denied = "user-presence-denied"
as_str user_presence_unavailable = "user-presence-unavailable"
as_str internal = "internal"

-- An `i32`; `negsuc n` is -(n + 1).
pub data ℤ : Type 0 where
  pos : ℕ → ℤ
  negsuc : ℕ → ℤ

unfoldable pub status_exit_code : KpexecStatus → ℤ
status_exit_code success = pos 0
status_exit_code unknown_entry = pos 100
status_exit_code unknown_command = pos 101
status_exit_code malformed_policy = pos 102
status_exit_code exe_hash_mismatch = pos 103
status_exit_code unlock_failed = pos 104
status_exit_code redaction_failure = pos 105
status_exit_code timeout = pos 106
status_exit_code config_error = pos 107
status_exit_code not_implemented = pos 108
status_exit_code internal = pos 109
status_exit_code user_presence_denied = pos 110
status_exit_code user_presence_unavailable = pos 111

pub data Outcome : Type 0 where
  kpexec_level : KpexecStatus → Outcome
  child_exit : ℤ → Outcome

unfoldable pub exit_code : Outcome → ℤ
unfolding status_exit_code
exit_code (kpexec_level status) = status_exit_code status
exit_code (child_exit code) = code

-- `u8::try_from(raw).unwrap_or(u8::MAX)`.
abbrev clamp_u8 : ℤ → ℕ
clamp_u8 (pos n) = if ltb n 256 then n else 255
clamp_u8 (negsuc _) = 255

-- The number that the process exits with.
unfoldable pub code : Outcome → ℕ
unfolding exit_code
code outcome = clamp_u8 (exit_code outcome)

pub record JsonEnvelope : Type 0 where
  pub kpexec_status : KpexecStatus
  pub child_exit_code : Option ℤ
  pub stdout : Message
  pub stderr : Message

abbrev pub kpexec_with_stderr : KpexecStatus → Message → JsonEnvelope
kpexec_with_stderr status stderr = record {
  kpexec_status = status;
  child_exit_code = none;
  stdout = [];
  stderr = stderr;
}
