-- ===== src/Output/Process.antt =====
-- src/output.rs: `process`, from the captured bytes to the emitted strings.
pub mod Safe
use Prim.Native.String.{◌++◌ as push_str}
use kpexec.Prelude.{ℕ, String, Bool, true, false, not, ◌||◌, if◌then◌else◌}
use kpexec.Policy.{OutputSpec}
use kpexec.Secret.{Secret}
use kpexec.Output.Bytes.{Bytes}
use kpexec.Output.Variants.{Codec, secret_variants}
use kpexec.Output.Redact.{redact_bounded, max_redaction_passes}
use kpexec.Output.Truncate.{truncate_no_split_marker}

abbrev pub suppression_line : String
suppression_line = "[kpexec] output suppressed: secret material detected in subprocess output"

abbrev pub truncation_marker : String
truncation_marker = "\n[kpexec] ...output truncated (byte limit reached)...\n"

pub record Captured : Type 0 where
  pub stdout : Bytes
  pub stderr : Bytes

pub record Processed : Type 0 where
  pub stdout : String
  pub stderr : String
  pub stdout_truncated : Bool
  pub stderr_truncated : Bool
  pub redaction_failed : Bool

abbrev pub suppressed : Processed
suppressed = record {
  stdout = suppression_line;
  stderr = suppression_line;
  stdout_truncated = false;
  stderr_truncated = false;
  redaction_failed = true;
}

module _ (codec : Codec) where
  -- The lossy decoding of a limited stream, with the marker of a truncation.
  abbrev pub decoded : Bytes → Bool → String
  decoded bytes truncated =
      if truncated
      then push_str (codec.from_utf8_lossy bytes) truncation_marker
      else codec.from_utf8_lossy bytes

  abbrev pub limited : Bytes → Bytes → OutputSpec → Processed
  limited out err limits =
      let (stdout_bytes, stdout_truncated) = truncate_no_split_marker out limits.max_stdout_bytes in
      let (stderr_bytes, stderr_truncated) = truncate_no_split_marker err limits.max_stderr_bytes in
      record {
        stdout = decoded stdout_bytes stdout_truncated;
        stderr = decoded stderr_bytes stderr_truncated;
        stdout_truncated = stdout_truncated;
        stderr_truncated = stderr_truncated;
        redaction_failed = false;
      }

  unfoldable pub process_with_bound : Captured → OutputSpec → Secret → ℕ → Processed
  process_with_bound captured limits secret bound =
      let variants = secret_variants codec (codec.as_bytes secret.expose) in
      let (stdout_bytes, out_clean) = redact_bounded captured.stdout variants bound in
      let (stderr_bytes, err_clean) = redact_bounded captured.stderr variants bound in
      if not out_clean || not err_clean
      then suppressed
      else limited stdout_bytes stderr_bytes limits

  unfoldable pub process : Captured → OutputSpec → Secret → Processed
  unfolding process_with_bound
  process captured limits secret = process_with_bound captured limits secret max_redaction_passes
