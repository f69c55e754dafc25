-- ===== src/Entry/Show.antt =====
-- src/cmd_entry.rs: `entry list` and `entry show`.
pub mod Masked
use kpexec.Prelude.{
  ℕ, String, Bool, true, false, Option, none, some, List, [], ◌∷◌, ◌++◌, map, if◌then◌else◌,
}
use kpexec.Status.{success, malformed_policy, Outcome, kpexec_level}
use kpexec.Error.{KpexecError, Result, ok, err, fail, text, number, Message}
use kpexec.System.{Io, done, failed}
use kpexec.Policy.{Command, PolicyJson}
use kpexec.Vault.{Keepass, EntryView, RawEntry, duplicate_ids, raw_entries, find_entry}
use kpexec.Machine.{Act, pure, from_result, ◌>>=◌, ◌>>◌, print}
use kpexec.Entry.{entry_or}
use kpexec.Entry.Authoring.{commas}

-- A `serde_json::Value`, as `json!` builds it, in the order of the source.
mutual
  pub data Json : Type 0 where
    json_text : String → Json
    json_null : Json
    json_bool : Bool → Json
    json_number : ℕ → Json
    json_texts : List String → Json
    json_array : Values → Json
    json_object : Fields → Json

  pub data Values : Type 0 where
    no_values : Values
    value : Json → Values → Values

  pub data Fields : Type 0 where
    no_fields : Fields
    field : String → Json → Fields → Fields

abbrev values : {A : Type 0} → (A → Json) → List A → Values
values f [] = no_values
values f (a ∷ rest) = value (f a) (values f rest)

-- `serde_json::to_string`, the padding of `{:<n}`, and `join(" ")`.
pub record Display : Type 0 where
  pub to_string : Json → Io String
  pub pad : ℕ → String → String
  pub join : List String → String

abbrev mask : String
mask = "********"

abbrev has_pin : Option String → Bool
has_pin none = false
has_pin (some _) = true

abbrev pin_json : Option String → Json
pin_json none = json_null
pin_json (some sha) = json_text sha

abbrev listed_command : Command → Json
listed_command c = json_object (
    field "name" (json_text c.name) (
      field "exe" (json_text c.exe) (
        field "argv_prefix" (json_texts c.argv_prefix)
          (field "pinned" (json_bool (has_pin c.exe_sha256)) no_fields))))

abbrev listed_entry : EntryView → Json
listed_entry v = json_object (
    field "id" (json_text v.id) (
      field "description" (json_text v.policy.description) (
        field "inject" (json_text v.policy.secret.inject.name)
          (field "commands" (json_array (values listed_command v.policy.commands)) no_fields))))

abbrev pub or_text : Io String → String → String
or_text (done s) d = s
or_text (failed _) d = d

abbrev shown_command : Command → Json
shown_command c = json_object (
    field "name" (json_text c.name) (
      field "exe" (json_text c.exe) (
        field "exe_sha256" (pin_json c.exe_sha256)
          (field "argv_prefix" (json_texts c.argv_prefix) no_fields))))

abbrev shown_output : EntryView → Json
shown_output v = json_object (
    field "max_stdout_bytes" (json_number v.policy.output.max_stdout_bytes)
      (field "max_stderr_bytes" (json_number v.policy.output.max_stderr_bytes) no_fields))

abbrev shown_entry : EntryView → Json
shown_entry v = json_object (
    field "id" (json_text v.id) (
      field "description" (json_text v.policy.description) (
        field "secret" (json_text mask) (
          field "inject" (json_text v.policy.secret.inject.name) (
            field "commands" (json_array (values shown_command v.policy.commands))
              (field "output" (shown_output v) no_fields))))))

abbrev pin_word : Option String → String
pin_word none = "UNPINNED"
pin_word (some _) = "pinned"

module _ (display : Display) where
  unfoldable pub list_json : List EntryView → String
  list_json views =
      or_text
        (display.to_string
          (json_object (field "entries" (json_array (values listed_entry views)) no_fields)))
        "{\"entries\":[]}"

  unfoldable pub show_json : EntryView → String
  show_json view = or_text (display.to_string (shown_entry view)) "{}"

  abbrev row : String → Command → Message
  row id c =
      text (display.pad 12 id)
      ∷ text " "
      ∷ text (display.pad 16 c.name)
      ∷ text " "
      ∷ text (display.pad 24 c.exe)
      ∷ text " "
      ∷ text (display.join c.argv_prefix)
      ∷ []

  abbrev rows : List EntryView → List Message
  rows [] = []
  rows (v ∷ vs) = map (row v.id) v.policy.commands ++ rows vs

  unfoldable pub table : List EntryView → List Message
  table [] = (text "(no entries)" ∷ []) ∷ []
  table (v ∷ vs) =
      (text (display.pad 12 "ENTRY")
        ∷ text " "
        ∷ text (display.pad 16 "COMMAND")
        ∷ text " "
        ∷ text (display.pad 24 "EXECUTABLE")
        ∷ text " PREFIX"
        ∷ [])
      ∷ rows (v ∷ vs)

  abbrev shown_line : Command → Message
  shown_line c =
      text "  "
      ∷ text c.name
      ∷ text " -> "
      ∷ text c.exe
      ∷ text " "
      ∷ text (display.join c.argv_prefix)
      ∷ text " [trailing args...] ("
      ∷ text (pin_word c.exe_sha256)
      ∷ text ")"
      ∷ []

  unfoldable pub show_lines : EntryView → List Message
  show_lines view =
      (text "id:          " ∷ text view.id ∷ [])
        ∷ (text "description: " ∷ text view.policy.description ∷ [])
        ∷ (text "secret:      " ∷ text mask ∷ text " (Password field)" ∷ [])
        ∷ (text "inject:      env " ∷ text view.policy.secret.inject.name ∷ [])
        ∷ (text "commands:" ∷ [])
        ∷ map shown_line view.policy.commands
      ++ ((text "output:      stdout <= "
            ∷ number view.policy.output.max_stdout_bytes
            ∷ text " B, stderr <= "
            ∷ number view.policy.output.max_stderr_bytes
            ∷ text " B"
            ∷ [])
          ∷ [])

  abbrev pub shown : Bool → EntryView → List Message
  shown true view = (text (show_json view) ∷ []) ∷ []
  shown false view = show_lines view

  abbrev pub listed : Bool → List EntryView → List Message
  listed true views = (text (list_json views) ∷ []) ∷ []
  listed false views = table views

abbrev pub keep_view : Result (Option EntryView) → List EntryView → List EntryView
keep_view (ok (some view)) views = view ∷ views
keep_view (ok none) views = views
keep_view (err _) views = views

abbrev pub unless_duplicates : List String → Result (Unit {0})
unless_duplicates [] = ok tt
unless_duplicates (id ∷ ids) =
    fail malformed_policy
      (text "duplicate kpexec.id(s): " ∷ commas (id ∷ ids) ++ (text "; refusing to list" ∷ []))

module _ {Database : Type 0} (kp : Keepass Database) (json : PolicyJson) (display : Display)
    (db : Database) where
  -- The loop over the entries.
  unfoldable pub views_of : List RawEntry → List EntryView
  views_of [] = []
  views_of (raw ∷ raws) = keep_view (find_entry kp json db raw.id) (views_of raws)

  abbrev pub lines_or : Result (Unit {0}) → List Message → Result (List Message)
  lines_or (ok _) lines = ok lines
  lines_or (err e) lines = err e

  -- The lines that `list_render` and `show_render` print, before they return success.
  unfoldable pub list_render : Bool → Result (List Message)
  list_render as_json =
      lines_or (unless_duplicates (duplicate_ids kp db))
        (listed display as_json (views_of (raw_entries kp db)))

  abbrev pub lines_of : Bool → Result EntryView → Result (List Message)
  lines_of as_json (ok view) = ok (shown display as_json view)
  lines_of as_json (err e) = err e

  unfoldable pub show_render : String → Bool → Result (List Message)
  show_render id as_json = lines_of as_json (entry_or id (find_entry kp json db id))
