-- ===== src/Entry/Quiet.antt =====
-- src/prompt.rs and src/cmd_entry.rs: asking and authoring touch no file.
use kpexec.Prelude.{
  refl, String, Bool, true, false, not, Option, none, some, List, [], ◌∷◌, if◌then◌else◌,
}
use kpexec.Error.{text}
use kpexec.Pin.{compute, require_enforceable}
use kpexec.System.{System}
use kpexec.Output.Variants.{Codec}
use kpexec.Policy.{Command}
use kpexec.Cli.{CommandSpec}
use kpexec.Prompt.{
  Terminal, PrefixWarning, parse_prefix, read_line, read_secret, raw_secret, ask, because, trimmed,
  validate_secret, missing,
}
use kpexec.Machine.{Act, pure, raise, from_result, ◌>>=◌, ◌>>◌, print, attempt, read_input}
use kpexec.Machine.Files.{sync}
use kpexec.Machine.Frames.{
  Keeps, files_of, bind-Keeps, then-Keeps, attempt-Keeps, read_input-Keeps, sync-Keeps,
}
use kpexec.Entry.Authoring.{
  reject_empty, author, warn_prefix, pin_of, enforceable, build_command, build_all,
  collect_commands, no_specs,
}

module _ {Keys : Type 0} where
  ask-Keeps : (term : Terminal) (prompt : String) → Keeps {Keys = Keys} files_of (ask term prompt)
  ask-Keeps term prompt = go term.is_terminal
    where
      line : Act Keys String
      line = attempt read_input (λ e. raise (because (text "read line" ∷ []) e)) >>= λ line.
          pure (term.trim_line_end line)

      flush : Act Keys (Unit {0})
      flush = attempt sync (λ e. raise (because (text "stdout flush" ∷ []) e))

      go :
          (b : Bool)
          → Keeps files_of (
              if not b
              then raise (missing prompt)
              else (print (text prompt ∷ text ": " ∷ []) >> (flush >> line)))
      go false = λ s. refl
      go true =
          then-Keeps files_of (print (text prompt ∷ text ": " ∷ [])) (flush >> line) (λ s. refl)
            (then-Keeps files_of flush line
              (attempt-Keeps files_of sync (λ e. raise (because (text "stdout flush" ∷ []) e))
                (sync-Keeps files_of (λ s. refl)) (λ e s. refl))
              (bind-Keeps files_of
                (attempt read_input (λ e. raise (because (text "read line" ∷ []) e)))
                (λ line. pure (term.trim_line_end line))
                (attempt-Keeps files_of read_input (λ e. raise (because (text "read line" ∷ []) e))
                  read_input-Keeps (λ e s. refl))
                (λ l s. refl)))

  pub read_line-Keeps :
      (term : Terminal) (prompt : String) (flag : Option String)
      → Keeps {Keys = Keys} files_of (read_line term prompt flag)
  unfolding read_line
  read_line-Keeps term prompt (some v) = λ s. refl
  read_line-Keeps term prompt none = ask-Keeps term prompt

  pub read_secret-Keeps :
      (codec : Codec) (term : Terminal) (prompt : String) (from_stdin : Bool)
      → Keeps {Keys = Keys} files_of (read_secret codec term prompt from_stdin)
  unfolding read_secret
  read_secret-Keeps codec term prompt from_stdin =
      bind-Keeps files_of (raw_secret codec term prompt from_stdin)
        (λ raw. from_result (validate_secret codec raw)) (go from_stdin) (λ raw s. refl)
    where
      go : (b : Bool) → Keeps {Keys = Keys} files_of (raw_secret codec term prompt b)
      go true =
          bind-Keeps files_of
            (attempt read_input (λ e. raise (because (text "reading secret from stdin" ∷ []) e)))
            (λ line. pure (trimmed term line))
            (attempt-Keeps files_of read_input
              (λ e. raise (because (text "reading secret from stdin" ∷ []) e)) read_input-Keeps
              (λ e s. refl))
            (λ l s. refl)
      go false = λ s. refl

  pin_of-Keeps :
      (sys : System) (term : Terminal) (name exe : String) (no_pin : Bool)
      → Keeps {Keys = Keys} files_of (pin_of sys term name exe no_pin)
  pin_of-Keeps sys term name exe true = λ s. refl
  pin_of-Keeps sys term name exe false =
      bind-Keeps files_of (from_result (compute sys exe)) (enforceable sys term) (λ s. refl)
        (λ fresh.
          then-Keeps files_of (from_result (require_enforceable sys fresh.canonical))
            (pure (some fresh.sha256)) (λ s. refl) (λ s. refl))

  warn_prefix-Keeps :
      (sys : System) (term : Terminal) (w : Option PrefixWarning)
      → Keeps {Keys = Keys} files_of (warn_prefix sys term w)
  warn_prefix-Keeps sys term none = λ s. refl
  warn_prefix-Keeps sys term (some w) = λ s. refl

  author-Keeps :
      (sys : System) (term : Terminal) (name exe : String) (no_pin : Bool)
      (words : List String × Option PrefixWarning)
      → Keeps {Keys = Keys} files_of (author sys term name exe no_pin words)
  author-Keeps sys term name exe no_pin (prefix, w) =
      let finish : Option String → Act Keys Command =
        λ sha. pure (record { name = name; exe = exe; exe_sha256 = sha; argv_prefix = prefix }) in
      then-Keeps files_of (warn_prefix sys term w) (pin_of sys term name exe no_pin >>= finish)
        (warn_prefix-Keeps sys term w)
        (bind-Keeps files_of (pin_of sys term name exe no_pin) finish
          (pin_of-Keeps sys term name exe no_pin) (λ sha s. refl))

  build_command-Keeps :
      (sys : System) (term : Terminal) (name exe prefix_raw : String) (no_pin : Bool)
      → Keeps {Keys = Keys} files_of (build_command sys term name exe prefix_raw no_pin)
  unfolding build_command
  build_command-Keeps sys term name exe prefix_raw no_pin =
      let parsing =
        from_result (parse_prefix term prefix_raw) >>= author sys term name exe no_pin in
      then-Keeps files_of (from_result (reject_empty term name "command name"))
        (from_result (reject_empty term exe "command executable") >> parsing) (λ s. refl)
        (then-Keeps files_of (from_result (reject_empty term exe "command executable")) parsing
          (λ s. refl)
          (bind-Keeps files_of (from_result (parse_prefix term prefix_raw))
            (author sys term name exe no_pin) (λ s. refl) (author-Keeps sys term name exe no_pin)))

  build_all-Keeps :
      (sys : System) (term : Terminal) (specs : List CommandSpec) (no_pin : Bool)
      → Keeps {Keys = Keys} files_of (build_all sys term specs no_pin)
  build_all-Keeps sys term [] no_pin = λ s. refl
  build_all-Keeps sys term (spec ∷ specs) no_pin =
      bind-Keeps files_of (build_command sys term spec.name spec.exe spec.prefix no_pin)
        (λ cmd. build_all sys term specs no_pin >>= λ cmds. pure (cmd ∷ cmds))
        (build_command-Keeps sys term spec.name spec.exe spec.prefix no_pin)
        (λ cmd.
          bind-Keeps files_of (build_all sys term specs no_pin) (λ cmds. pure (cmd ∷ cmds))
            (build_all-Keeps sys term specs no_pin) (λ cmds s. refl))

  pub collect_commands-Keeps :
      (sys : System) (term : Terminal) (wizard : Bool → Act Keys (List Command))
      (specs : List CommandSpec) (no_pin : Bool)
      → ((b : Bool) → Keeps files_of (wizard b))
      → Keeps files_of (collect_commands sys term wizard specs no_pin)
  unfolding collect_commands
  collect_commands-Keeps sys term wizard [] no_pin h = go term.is_terminal
    where
      go : (b : Bool) → Keeps files_of (if not b then raise no_specs else wizard no_pin)
      go true = h no_pin
      go false = λ s. refl
  collect_commands-Keeps sys term wizard (spec ∷ specs) no_pin h =
      build_all-Keeps sys term (spec ∷ specs) no_pin
