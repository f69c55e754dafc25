-- ===== src/Policy.antt =====
-- src/policy.rs: the policy document of an entry.
use kpexec.Prelude.{ℕ, String, Option, none, some, List, [], ◌∷◌, map, str_eq, if◌then◌else◌, not}
use kpexec.Error.{Message, text, debug}
use kpexec.Duplicates.{duplicates}

abbrev pub policy_schema : String
policy_schema = "kpexec.policy.v1"

abbrev pub field_id : String
field_id = "kpexec.id"

abbrev pub field_policy : String
field_policy = "kpexec.policy.v1"

abbrev pub default_max_stdout_bytes : ℕ
default_max_stdout_bytes = 200000

abbrev pub default_max_stderr_bytes : ℕ
default_max_stderr_bytes = 50000

pub record InjectSpec : Type 0 where
  pub kind : String
  pub name : String

pub record SecretSpec : Type 0 where
  pub field : String
  pub inject : InjectSpec

-- The map in key order, without a key twice.
pub record EnvSpec : Type 0 where
  pub set : List (String × String)

pub record Command : Type 0 where
  pub name : String
  pub exe : String
  pub exe_sha256 : Option String
  pub argv_prefix : List String

pub record OutputSpec : Type 0 where
  pub max_stdout_bytes : ℕ
  pub max_stderr_bytes : ℕ

pub record Policy : Type 0 where
  pub schema : String
  pub description : String
  pub secret : SecretSpec
  pub env : Option EnvSpec
  pub commands : List Command
  pub output : OutputSpec

-- A value, or the message of a `PolicyError`.
pub data Parsed (A : Type 0) : Type 0 where
  parsed : A → Parsed A
  rejected : Message → Parsed A

-- `serde_json` over the derived (de)serializers of `Policy`.
pub record PolicyJson : Type 0 where
  pub from_str : String → Parsed Policy
  pub to_string : Policy → Parsed String

unfoldable pub output_default : OutputSpec
output_default = record {
  max_stdout_bytes = default_max_stdout_bytes;
  max_stderr_bytes = default_max_stderr_bytes;
}

unfoldable pub new : String → String → Option EnvSpec → Policy
unfolding output_default
new description inject_name env = record {
  schema = policy_schema;
  description = description;
  secret = record { field = "password"; inject = record { kind = "env"; name = inject_name } };
  env = env;
  commands = [];
  output = output_default;
}

unfoldable pub validate_schema : Policy → Parsed (Unit {0})
validate_schema policy =
    if not (str_eq policy.schema policy_schema)
    then rejected (
        text "unknown policy schema "
        ∷ debug policy.schema
        ∷ text " (expected kpexec.policy.v1)"
        ∷ [])
    else parsed tt

abbrev and_then : {A B : Type 0} → Parsed A → (A → Parsed B) → Parsed B
and_then (parsed a) f = f a
and_then (rejected m) f = rejected m

unfoldable pub parse : PolicyJson → String → Parsed Policy
unfolding validate_schema
parse json s =
    and_then (json.from_str s) λ policy. and_then (validate_schema policy) λ _. parsed policy

abbrev pub to_json : PolicyJson → Policy → Parsed String
to_json json policy = json.to_string policy

unfoldable pub find_command : List Command → String → Option Command
find_command [] name = none
find_command (c ∷ cs) name = if str_eq c.name name then some c else find_command cs name

abbrev pub command : Policy → String → Option Command
command policy name = find_command policy.commands name

unfoldable pub duplicate_command_names : Policy → List String
unfolding duplicates
duplicate_command_names policy = duplicates (map (λ c. c.name) policy.commands)
