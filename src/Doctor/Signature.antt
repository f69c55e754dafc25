-- ===== src/Doctor/Signature.antt =====
-- src/doctor.rs: the assessment of the executable's signature.
use kpexec.Prelude.{String, Bool, true, false, ◌&&◌, ◌||◌, List, [], ◌∷◌, str_eq, if◌then◌else◌}
use kpexec.Message.{Message, text}
use kpexec.Report.{Check, check_ok, check_warn, check_fail}

pub data GatekeeperAssessment : Type 0 where
  notarized_developer_id not_applicable_to_bare_cli rejected unknown : GatekeeperAssessment

pub record CodeSignature : Type 0 where
  pub integrity_valid : Bool
  pub developer_id : Bool
  pub identifier_valid : Bool
  pub team_id_valid : Bool
  pub hardened_runtime : Bool
  pub gatekeeper : GatekeeperAssessment

unfoldable pub trusted_for_keychain : CodeSignature → Bool
trusted_for_keychain sig =
    sig.integrity_valid
    && (sig.developer_id && (sig.identifier_valid && (sig.team_id_valid && sig.hardened_runtime)))

-- `str::lines`, `str::starts_with`, `str::contains` and `to_ascii_lowercase`.
pub record OutputText : Type 0 where
  pub lines : String → List String
  pub starts_with : String → String → Bool
  pub contains : String → String → Bool
  pub to_ascii_lowercase : String → String

abbrev any_line : (String → Bool) → List String → Bool
any_line p [] = false
any_line p (l ∷ ls) = p l || any_line p ls

module _ (t : OutputText) where
  unfoldable pub parse_gatekeeper_assessment : Bool → String → GatekeeperAssessment
  parse_gatekeeper_assessment success output =
      if success && t.contains output "source=Notarized Developer ID"
      then notarized_developer_id
      else if t.contains (t.to_ascii_lowercase output)
          "code is valid but does not seem to be an app"
      then not_applicable_to_bare_cli
      else if t.contains (t.to_ascii_lowercase output) "rejected"
      then rejected
      else unknown

  unfoldable pub parse_signature_outputs : Bool → String → Bool → String → CodeSignature
  parse_signature_outputs verify_ok display gatekeeper_ok gatekeeper = record {
    integrity_valid = verify_ok;
    developer_id =
        any_line (λ l. t.starts_with l "Authority=Developer ID Application:") (t.lines display);
    identifier_valid = any_line (λ l. str_eq l "Identifier=dev.crazytan.kpexec") (t.lines display);
    team_id_valid = any_line (λ l. str_eq l "TeamIdentifier=V82M9YX8BR") (t.lines display);
    hardened_runtime =
        any_line (λ l. t.starts_with l "CodeDirectory " && t.contains l "(runtime)")
          (t.lines display);
    gatekeeper = parse_gatekeeper_assessment gatekeeper_ok gatekeeper;
  }

abbrev signature_check : Bool → Message → Message → Check
signature_check true passed otherwise = check_ok passed
signature_check false passed otherwise = check_fail otherwise

abbrev gatekeeper_check : GatekeeperAssessment → Check
gatekeeper_check notarized_developer_id =
    check_ok (text "Gatekeeper identifies the executable as Notarized Developer ID" ∷ [])
gatekeeper_check not_applicable_to_bare_cli = check_warn (
    text
      "Gatekeeper executable assessment is not applicable to this bare CLI; the installed executable cannot prove installer notarization, so verify the distributed package"
    ∷ [])
gatekeeper_check rejected = check_fail (
    text
      "Gatekeeper rejected the executable; verify the distributed installer package and installed payload"
    ∷ [])
gatekeeper_check unknown = check_warn (
    text
      "Gatekeeper executable assessment was unavailable or unrecognized; notarization must be verified on the distributed installer package"
    ∷ [])

unfoldable pub check_code_signature : CodeSignature → List Check
check_code_signature sig =
    signature_check sig.integrity_valid
      (text "code signature passes strict integrity verification" ∷ [])
      (text "code signature is absent or fails strict integrity verification" ∷ [])
    ∷ signature_check sig.developer_id
        (text "code signature uses a Developer ID Application identity" ∷ [])
        (text "code signature is not a Developer ID Application signature" ∷ [])
    ∷ signature_check sig.identifier_valid
        (text "code-signing identifier is dev.crazytan.kpexec" ∷ [])
        (text "code-signing identifier is not dev.crazytan.kpexec" ∷ [])
    ∷ signature_check sig.team_id_valid (text "code-signing Team ID is V82M9YX8BR" ∷ [])
        (text "code-signing Team ID is not V82M9YX8BR" ∷ [])
    ∷ signature_check sig.hardened_runtime (text "hardened runtime is enabled" ∷ [])
        (text "hardened runtime is not enabled" ∷ [])
    ∷ gatekeeper_check sig.gatekeeper
    ∷ []
