-- ===== src/Check.antt =====
-- src/cmd_check.rs: the validation of every policy and pin of an opened vault.
pub mod Passed
use kpexec.Prelude.{
  String, Bool, true, false, not, ◌||◌, Option, none, some, List, [], ◌∷◌, ◌++◌, str_eq,
  if◌then◌else◌, map,
}
use kpexec.Error.{KpexecError, Result, ok, err, text, debug, Message}
use kpexec.System.{System}
use kpexec.Pin.{Pin, compute, require_enforceable, eq_ignore_ascii_case}
use kpexec.Policy.{Policy, PolicyJson, Command, command, duplicate_command_names}
use kpexec.Vault.{Keepass, EntryView, RawEntry, duplicate_ids, raw_entries, find_entry, contains}
use kpexec.Report.{Check, check_ok, check_warn, check_fail}

abbrev about_entry : String → Message
about_entry id = text "entry " ∷ text id ∷ []

abbrev about_command : String → String → Message
about_command id name = about_entry id ++ (text " command " ∷ text name ∷ text ": " ∷ [])

abbrev pub pin_current : String → String → Bool → Check
pin_current id name true = check_ok (about_command id name ++ (text "pin current" ∷ []))
pin_current id name false = check_warn (
    about_command id name
    ++ (text "pin STALE (binary changed since authoring) — run `kpexec entry repin "
        ∷ text id
        ∷ text " "
        ∷ text name
        ∷ text "`"
        ∷ []))

abbrev pub pin_enforced : String → String → String → String → Result (Unit {0}) → Check
pin_enforced id name recorded fresh (err e) = check_fail (about_command id name ++ e.message)
pin_enforced id name recorded fresh (ok _) =
    pin_current id name (eq_ignore_ascii_case recorded fresh)

module _ (sys : System) where
  abbrev pub check_recorded : String → String → Option String → Pin → Check
  check_recorded id name none fresh = check_warn (
      about_command id name
      ++ (text "unpinned (--no-pin); repin to close the tampered-binary hole" ∷ []))
  check_recorded id name (some recorded) fresh =
      pin_enforced id name recorded fresh.sha256 (require_enforceable sys fresh.canonical)

  abbrev pub check_pin : String → String → Option String → Result Pin → Check
  check_pin id name recorded (err e) = check_fail (about_command id name ++ e.message)
  check_pin id name recorded (ok fresh) = check_recorded id name recorded fresh

  abbrev pub check_command : String → String → Option Command → List Check
  check_command id name none = []
  check_command id name (some cmd) = check_pin id name cmd.exe_sha256 (compute sys cmd.exe) ∷ []

  unfoldable pub check_command_pin : String → Policy → String → List Check
  check_command_pin id policy name = check_command id name (command policy name)

  abbrev pub check_commands : String → Policy → List Command → List Check
  check_commands id policy [] = []
  check_commands id policy (cmd ∷ cmds) =
      check_command_pin id policy cmd.name ++ check_commands id policy cmds

  abbrev pub check_names : String → List String → List Check
  check_names id [] = []
  check_names id (name ∷ names) =
      check_fail (about_entry id ++ (text ": duplicate command name " ∷ debug name ∷ []))
      ∷ check_names id names

  abbrev pub check_secret : String → Bool → List Check
  check_secret id true = []
  check_secret id false =
      check_warn (about_entry id ++ (text ": no secret stored (Password field empty)" ∷ [])) ∷ []

  abbrev pub check_view : String → EntryView → List Check
  check_view id view =
      check_ok (about_entry id ++ (text ": policy parses (schema known)" ∷ []))
        ∷ check_secret id view.has_secret
      ++ (check_names id (duplicate_command_names view.policy)
          ++ check_commands id view.policy view.policy.commands)

  abbrev pub check_found : String → Result (Option EntryView) → List Check
  check_found id (ok none) = []
  check_found id (ok (some view)) = check_view id view
  check_found id (err e) = check_fail (about_entry id ++ (text ": " ∷ e.message)) ∷ []

-- `dups.contains(&raw.id)`.
abbrev pub member : String → List String → Bool
member id [] = false
member id (d ∷ ds) = str_eq d id || member id ds

abbrev pub skipped_by : Option String → String → Bool
skipped_by none id = false
skipped_by (some target) id = not (str_eq id target)

abbrev pub duplicate_checks : List String → List Check
duplicate_checks [] = []
duplicate_checks (id ∷ ids) =
    check_fail (text "duplicate kpexec.id " ∷ debug id ∷ text " across the vault" ∷ [])
    ∷ duplicate_checks ids

abbrev pub uniqueness : List String → List Check
uniqueness [] = check_ok (text "all kpexec.id values are unique" ∷ []) ∷ []
uniqueness (id ∷ ids) = duplicate_checks (id ∷ ids)

abbrev pub emptiness : List RawEntry → List Check
emptiness [] = check_warn (text "vault has no kpexec entries" ∷ []) ∷ []
emptiness (_ ∷ _) = []

module _ {Database : Type 0} (kp : Keepass Database) (sys : System) (json : PolicyJson)
    (db : Database) where
  unfoldable pub check_one_entry : String → List Check
  check_one_entry id = check_found sys id (find_entry kp json db id)

  -- The loop over the entries.
  abbrev pub check_entries : Option String → List String → List RawEntry → List Check
  check_entries only dups [] = []
  check_entries only dups (raw ∷ raws) =
      let rest = check_entries only dups raws in
      if skipped_by only raw.id || member raw.id dups then rest else check_one_entry raw.id ++ rest

  abbrev pub check_target : Option String → List Check
  check_target none = []
  check_target (some target) =
      if contains kp db target
      then []
      else check_fail (text "no entry with id " ∷ debug target ∷ []) ∷ []

  unfoldable pub check_vault : Option String → List Check
  check_vault only =
      uniqueness (duplicate_ids kp db)
      ++ (emptiness (raw_entries kp db)
          ++ (check_entries only (duplicate_ids kp db) (raw_entries kp db) ++ check_target only))
