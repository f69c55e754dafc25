-- ===== src/Config.antt =====
-- src/config.rs, src/vaultctx.rs and src/paths.rs: the configuration, which is a hint, and the places
-- of the files.
use kpexec.Prelude.{ℕ, String, Bool, true, false, Option, none, some, List, [], ◌∷◌}
use kpexec.Status.{config_error}
use kpexec.Error.{Result, ok, err, fail, config_err, internal_err, text, ◌>>=◌}
use kpexec.System.{Io, done, failed}

-- The fields of `RawConfig`, the last one by its keys.
pub record RawConfig : Type 0 where
  pub db_path : Option String
  pub default_timeout_sec : Option ℕ
  pub extra : List String

-- `toml::from_str`, `Path::join` and `dirs::home_dir`.
pub record Places : Type 0 where
  pub from_str : String → Io RawConfig
  pub join : String → String → String
  pub home_dir : Option String

-- `std::fs::read_to_string`.
pub data ReadText : Type 0 where
  contents : String → ReadText
  missing : ReadText
  unread : String → ReadText

pub record Config : Type 0 where
  pub db_path : Option String
  pub default_timeout_sec : ℕ
  pub file_present : Bool
  pub unknown_keys : List String

abbrev pub default_timeout : ℕ
default_timeout = 300

abbrev pub defaults_absent : Config
defaults_absent = record {
  db_path = none;
  default_timeout_sec = default_timeout;
  file_present = false;
  unknown_keys = [];
}

abbrev or_default : Option ℕ → ℕ
or_default none = default_timeout
or_default (some n) = n

abbrev pub config_of : Io RawConfig → Result Config
config_of (failed e) = err (config_err (text "malformed config.toml: " ∷ text e ∷ []))
config_of (done raw) = ok (record {
  db_path = raw.db_path;
  default_timeout_sec = or_default raw.default_timeout_sec;
  file_present = true;
  unknown_keys = raw.extra;
})

-- `resolve_vault_path`.
unfoldable pub resolve_vault_path : Config → Result String
resolve_vault_path cfg = elim cfg.db_path [
  | some p ↦ ok p
  | none ↦
      fail config_error
        (text "no vault configured — run `kpexec init` (config.toml has no db_path)" ∷ [])
]

module _ (places : Places) where
  unfoldable pub parse_config : String → Result Config
  parse_config toml = config_of (places.from_str toml)

  unfoldable pub load_from : (String → ReadText) → String → Result Config
  load_from read path = elim (read path) [
    | contents c ↦ parse_config c
    | missing ↦ ok defaults_absent
    | unread e ↦
        err (config_err (text "could not read config file " ∷ text path ∷ text ": " ∷ text e ∷ []))
  ]

  abbrev home_or : Option String → Result String
  home_or none = err (internal_err (text "could not determine home directory" ∷ []))
  home_or (some h) = ok h

  unfoldable pub home : Result String
  home = home_or places.home_dir

  unfoldable pub config_dir : Result String
  config_dir = home >>= λ h. ok (places.join (places.join h ".config") "kpexec")

  unfoldable pub config_file : Result String
  config_file = config_dir >>= λ d. ok (places.join d "config.toml")

  unfoldable pub log_dir : Result String
  log_dir = home >>= λ h. ok (places.join (places.join (places.join h "Library") "Logs") "kpexec")

  unfoldable pub log_file : Result String
  log_file = log_dir >>= λ d. ok (places.join d "kpexec.log")

  unfoldable pub default_vault_path : Result String
  default_vault_path = home >>= λ h. ok (places.join (places.join h "Secrets") "kpexec-agent.kdbx")

  unfoldable pub load : (String → ReadText) → Result Config
  load read = config_file >>= load_from read
