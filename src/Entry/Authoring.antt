-- ===== src/Entry/Authoring.antt =====
-- src/cmd_entry.rs: the command templates of a new entry, and what a policy may not be.
use kpexec.Prelude.{
  String, Bool, true, false, not, Option, none, some, List, [], ◌∷◌, str_eq, if◌then◌else◌,
}
use kpexec.Status.{malformed_policy, config_error}
use kpexec.Error.{KpexecError, Result, ok, fail, text, debug, Message}
use kpexec.Pin.{Pin, compute, require_enforceable}
use kpexec.System.{System}
use kpexec.Policy.{Policy, Command, duplicate_command_names}
use kpexec.Cli.{CommandSpec}
use kpexec.Prompt.{Terminal, PrefixWarning, warning_message, parse_prefix}
use kpexec.Machine.{Act, pure, raise, from_result, ◌>>=◌, ◌>>◌, warn}

unfoldable pub reject_empty : Terminal → String → String → Result (Unit {0})
reject_empty term value what =
    if str_eq (term.trim value) ""
    then fail malformed_policy (text what ∷ text " must not be empty" ∷ [])
    else ok tt

-- `dups.join(", ")`.
abbrev pub commas : List String → Message
commas [] = []
commas (name ∷ []) = text name ∷ []
commas (name ∷ other ∷ names) = text name ∷ text ", " ∷ commas (other ∷ names)

abbrev pub refuse_names : List String → Result (Unit {0})
refuse_names [] = ok tt
refuse_names (name ∷ names) =
    fail malformed_policy (text "duplicate command name(s): " ∷ commas (name ∷ names))

unfoldable pub reject_duplicate_command_names : Policy → Result (Unit {0})
reject_duplicate_command_names policy = refuse_names (duplicate_command_names policy)

abbrev pub no_specs : KpexecError
no_specs = record {
  status = config_error;
  message =
      text
        "no --command specs supplied and stdin is not a terminal; pass --command name=..;exe=..;prefix=.."
      ∷ [];
}

module _ {Keys : Type 0} (sys : System) (term : Terminal) where
  abbrev pub warn_prefix : Option PrefixWarning → Act Keys (Unit {0})
  warn_prefix none = pure tt
  warn_prefix (some w) = warn (warning_message w)

  abbrev pub enforceable : Pin → Act Keys (Option String)
  enforceable fresh =
      from_result (require_enforceable sys fresh.canonical) >> pure (some fresh.sha256)

  abbrev pub pin_of : String → String → Bool → Act Keys (Option String)
  pin_of name exe true =
      warn (
        text "[kpexec] WARNING: command "
        ∷ debug name
        ∷ text " authored with --no-pin (flagged by check/doctor)"
        ∷ [])
      >> pure none
  pin_of name exe false = from_result (compute sys exe) >>= enforceable

  abbrev pub author : String → String → Bool → List String × Option PrefixWarning → Act Keys Command
  author name exe no_pin (prefix, warning) =
      warn_prefix warning
      >> (pin_of name exe no_pin >>= λ exe_sha256.
          pure (record { name = name; exe = exe; exe_sha256 = exe_sha256; argv_prefix = prefix }))

  unfoldable pub build_command : String → String → String → Bool → Act Keys Command
  build_command name exe prefix_raw no_pin =
      from_result (reject_empty term name "command name")
      >> (from_result (reject_empty term exe "command executable")
          >> (from_result (parse_prefix term prefix_raw) >>= author name exe no_pin))

  abbrev pub build_all : List CommandSpec → Bool → Act Keys (List Command)
  build_all [] no_pin = pure []
  build_all (spec ∷ specs) no_pin = build_command spec.name spec.exe spec.prefix no_pin >>= λ cmd.
      build_all specs no_pin >>= λ cmds. pure (cmd ∷ cmds)

  -- The loop that asks for the templates at a terminal is the argument `wizard`.
  unfoldable pub collect_commands :
      (Bool → Act Keys (List Command)) → List CommandSpec → Bool → Act Keys (List Command)
  collect_commands wizard [] no_pin = if not term.is_terminal then raise no_specs else wizard no_pin
  collect_commands wizard (spec ∷ specs) no_pin = build_all (spec ∷ specs) no_pin
