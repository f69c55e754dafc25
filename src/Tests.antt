-- ===== src/Tests.antt =====
-- A vault with one entry, a policy with one pinned command, and surroundings in which it runs.
pub mod Redaction
pub mod Runs
pub mod Gates
pub mod Locks
pub mod Setup
pub mod Vaults
pub mod Diagnostics
use Prim.Native.Char.{Char}
use kpexec.Prelude.{
  ℕ, zero, suc, ◌-◌, String, Bool, true, false, Option, none, some, List, [], ◌∷◌, str_eq,
  if◌then◌else◌, codes, take,
}
use kpexec.Status.{pos}
use kpexec.Error.{Result, ok, err}
use kpexec.Secret.{Secret}
use kpexec.Policy.{
  Policy, PolicyJson, Command, EnvSpec, parsed, policy_schema, output_default, field_id,
  field_policy,
}
use kpexec.Output.Bytes.{Bytes}
use kpexec.Output.Variants.{Codec}
use kpexec.System.{System, Metadata, Io, done, failed, other}
use kpexec.Vault.{Keepass, password_field}
use kpexec.Run.Surroundings.{World, Child, Signal, Waited, exited, sigterm}
use kpexec.Run.Spawn.{RunOptions}
use kpexec.Run.Emit.{RunArgs}

abbrev printable : String
printable =
    " !\"#$%&'()*+,-./0123456789:;<=>?@ABCDEFGHIJKLMNOPQRSTUVWXYZ[\\]^_`abcdefghijklmnopqrstuvwxyz{|}~"

abbrev char_at : String → ℕ → Char
char_at String.[] n = "?"
char_at (String.◌∷◌ c s) zero = c
char_at (String.◌∷◌ c s) (suc n) = char_at s n

abbrev ascii : Bytes → String
ascii [] = String.[]
ascii (b ∷ bytes) = String.◌∷◌ (char_at printable (b - 32)) (ascii bytes)

-- Of ASCII text; a JSON string that fails to serialize.
abbrev pub sample_codec : Codec
sample_codec = record {
  as_bytes = codes;
  from_utf8 = λ _. true;
  from_utf8_lossy = ascii;
  to_string = λ _. none;
}

abbrev pub sample_secret : Secret
sample_secret = record { expose = "ab" }

-- Owned by root, and executable.
abbrev root_owned : Metadata
root_owned = record { is_file = true; len = 2; mtime = none; mode = 0o755; uid = 0 }

abbrev pub sample_sys : System
sample_sys = record {
  is_absolute = λ _. true;
  canonicalize = λ path. done path;
  current_dir = done "/";
  components = λ path. other path ∷ [];
  push = λ out c. c;
  pop = λ out. "/";
  metadata = λ _. done root_owned;
  opens = λ _. true;
  read = λ _. done (171 ∷ 205 ∷ 1 ∷ []);
  ancestors = λ path. path ∷ "/" ∷ [];
  is_c_string = λ _. true;
  access_w = λ _. false;
  getuid = 501;
  env_var = λ name. if str_eq name "HOME" then some "/home/me" else none;
  sha256 = take 2;
}

-- Pinned to the digest of the file above, in capitals.
abbrev pub sample_command : Command
sample_command = record {
  name = "api";
  exe = "/bin/gh";
  exe_sha256 = some "ABCD";
  argv_prefix = "api" ∷ [];
}

abbrev pub sample_policy : Policy
sample_policy = record {
  schema = policy_schema;
  description = "";
  secret = record { field = "password"; inject = record { kind = "env"; name = "TOKEN" } };
  env = some (record { set = ("PAGER", "cat") ∷ [] });
  commands = sample_command ∷ [];
  output = output_default;
}

-- One entry, numbered 0.
abbrev entry_field : String → Option String
entry_field name =
    if str_eq name field_id
    then some "gh"
    else if str_eq name field_policy
    then some "{}"
    else if str_eq name password_field
    then some "ab"
    else none

abbrev pub sample_keepass : Keepass (Unit {0})
sample_keepass = record {
  iter_all_entries = λ _. 0 ∷ [];
  get = λ _ e name. entry_field name;
  add_entry = λ db. (1, db);
  set = λ db e name value. db;
  entry_mut = λ db e. true;
  remove = λ db e. db;
}

abbrev pub sample_json : PolicyJson
sample_json = record { from_str = λ _. parsed sample_policy; to_string = λ _. parsed "{}" }

-- It prints the secret, and goes on until SIGTERM.
abbrev pub sample_child : Child
sample_child = record {
  exits_within = λ _. false;
  stops_within = λ _. true;
  wait = λ _. exited (record { signal = some 15; exit = none });
  stdout = λ _. codes "xa" ∷ codes "by" ∷ [];
  stderr = λ _. [];
}

abbrev pub sample_world : World (Unit {0})
sample_world = record {
  sys = sample_sys;
  codec = sample_codec;
  keepass = sample_keepass;
  json = sample_json;
  keychain = λ _. ok (some (record { password = sample_secret; db_path = "/v.kdbx" }));
  open_db = λ bytes password. done tt;
  spawn = λ req. done sample_child;
}

abbrev pub sample_args : Bool → RunArgs
sample_args dry = record {
  entry = "gh";
  command = "api";
  dry_run = dry;
  timeout = none;
  json = false;
  trailing = "/user" ∷ [];
}

abbrev pub sample_opts : RunOptions
sample_opts = record { timeout = 60; kill_grace = 5 }
