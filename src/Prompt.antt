-- ===== src/Prompt.antt =====
-- src/prompt.rs: the fields of the wizards, given by flags or read from the terminal.
use kpexec.Prelude.{
  ℕ, String, Bool, true, false, not, Option, none, some, List, [], ◌∷◌, ◌++◌, ltb, length,
  if◌then◌else◌,
}
use kpexec.Status.{malformed_policy, config_error}
use kpexec.Error.{KpexecError, Result, ok, err, fail, internal_err, text, Message}
use kpexec.Secret.{Secret}
use kpexec.Output.Variants.{Codec}
use kpexec.System.{Io, done, failed}
use kpexec.Machine.{Act, pure, raise, from_result, ◌>>=◌, ◌>>◌, attempt, print, read_input}
use kpexec.Machine.Files.{sync}

-- Whether the standard input is a terminal, the hidden prompt of `rpassword`, `str::strip_suffix`,
-- `trim_end_matches` of the line ends, `str::trim`, and `shell_words::split`.
pub record Terminal : Type 0 where
  pub is_terminal : Bool
  pub prompt_password : String → Io String
  pub strip_suffix : String → String → Option String
  pub trim_line_end : String → String
  pub trim : String → String
  pub split : String → Io (List String)

abbrev pub min_secret_len : ℕ
min_secret_len = 8

-- `Secret::len` is that of the bytes of the text.
unfoldable pub validate_secret : Codec → String → Result Secret
validate_secret codec raw =
    if ltb (length (codec.as_bytes raw)) min_secret_len
    then fail malformed_policy
        (text "secret must be at least 8 characters (shorter secrets redact unreliably)" ∷ [])
    else ok (record { expose = raw })

abbrev or_whole : Option String → String → String
or_whole none s = s
or_whole (some t) s = t

abbrev pub trimmed : Terminal → String → String
trimmed term line =
    let t = or_whole (term.strip_suffix "\n" line) line in or_whole (term.strip_suffix "\r" t) t

abbrev pub because : Message → String → KpexecError
because m e = internal_err (m ++ (text ": " ∷ text e ∷ []))

abbrev of_prompt : Io String → Result String
of_prompt (done s) = ok s
of_prompt (failed e) = err (because (text "hidden prompt failed" ∷ []) e)

abbrev pub missing : String → KpexecError
missing prompt = record {
  status = config_error;
  message =
      text "missing required input ("
      ∷ text prompt
      ∷ text ") and stdin is not a terminal; pass the corresponding flag"
      ∷ [];
}

-- A warning on a prefix of at most one word.
pub data PrefixWarning : Type 0 where
  empty_prefix single_word : PrefixWarning

abbrev pub warning_message : PrefixWarning → Message
warning_message empty_prefix =
    text "[kpexec] WARNING: empty argument prefix — the agent controls the entire argv" ∷ []
warning_message single_word =
    text "[kpexec] WARNING: single-word prefix — grants a broad surface; consider a longer prefix"
    ∷ []

abbrev warning_of : List String → Option PrefixWarning
warning_of [] = some empty_prefix
warning_of (_ ∷ []) = some single_word
warning_of (_ ∷ _ ∷ _) = none

abbrev parsed_words : Io (List String) → Result (List String × Option PrefixWarning)
parsed_words (done words) = ok (words, warning_of words)
parsed_words (failed e) =
    fail malformed_policy
      (text "could not parse argument prefix (unbalanced quotes?): " ∷ text e ∷ [])

unfoldable pub parse_prefix : Terminal → String → Result (List String × Option PrefixWarning)
parse_prefix term input = parsed_words (term.split input)

module _ {Keys : Type 0} (codec : Codec) (term : Terminal) where
  abbrev pub raw_secret : String → Bool → Act Keys String
  raw_secret prompt true =
      attempt read_input (λ e. raise (because (text "reading secret from stdin" ∷ []) e))
      >>= λ line. pure (trimmed term line)
  raw_secret prompt false = from_result (of_prompt (term.prompt_password prompt))

  unfoldable pub read_secret : String → Bool → Act Keys Secret
  read_secret prompt from_stdin =
      raw_secret prompt from_stdin >>= λ raw. from_result (validate_secret codec raw)

module _ {Keys : Type 0} (term : Terminal) where
  abbrev pub ask : String → Act Keys String
  ask prompt =
      if not term.is_terminal
      then raise (missing prompt)
      else (print (text prompt ∷ text ": " ∷ [])
          >> (attempt sync (λ e. raise (because (text "stdout flush" ∷ []) e))
              >> (attempt read_input (λ e. raise (because (text "read line" ∷ []) e)) >>= λ line.
                  pure (term.trim_line_end line))))

  unfoldable pub read_line : String → Option String → Act Keys String
  read_line prompt (some v) = pure v
  read_line prompt none = ask prompt
