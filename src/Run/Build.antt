-- ===== src/Run/Build.antt =====
-- src/cmd_run.rs: the argument vector and the environment of the child.
use kpexec.Prelude.{
  String, true, false, Option, none, some, List, [], ◌∷◌, ◌++◌, str_eq, if◌then◌else◌, ◌≡◌, refl,
  arith, str_eq_iff,
}
use kpexec.Policy.{EnvSpec}
use kpexec.Secret.{Secret}
use kpexec.System.{System}

abbrev pub fixed_path : String
fixed_path = "/usr/bin:/bin"

abbrev pub passthrough_env : List String
passthrough_env = "HOME" ∷ "TMPDIR" ∷ "LANG" ∷ []

unfoldable pub build_argv : String → List String → List String → List String
build_argv canonical_exe argv_prefix trailing = (canonical_exe ∷ argv_prefix) ++ trailing

-- The variables of a `Command` after `env_clear`.
abbrev pub Env : Type 0
Env = List (String × String)

-- `Command::env`: a later value replaces an earlier one.
unfoldable pub env : Env → String → String → Env
env [] k v = (k, v) ∷ []
env ((j, w) ∷ vars) k v = if str_eq j k then (k, v) ∷ vars else (j, w) ∷ env vars k v

-- The value that the child sees.
unfoldable pub getenv : Env → String → Option String
getenv [] k = none
getenv ((j, w) ∷ vars) k = if str_eq j k then some w else getenv vars k

abbrev env_if : Env → String → Option String → Env
env_if vars name none = vars
env_if vars name (some value) = env vars name value

pass_through : System → Env → List String → Env
pass_through sys vars [] = vars
pass_through sys vars (name ∷ names) = pass_through sys (env_if vars name (sys.env_var name)) names

set_all : Env → List (String × String) → Env
set_all vars [] = vars
set_all vars ((k, v) ∷ set) = set_all (env vars k v) set

abbrev set_policy : Env → Option EnvSpec → Env
set_policy vars none = vars
set_policy vars (some spec) = set_all vars spec.set

unfoldable pub apply_env : System → Option EnvSpec → String → Secret → Env
unfolding env pass_through set_all
apply_env sys spec inject_name secret =
    let passed = pass_through sys [] passthrough_env in
    let with_path = env passed "PATH" fixed_path in
    env (set_policy with_path spec) inject_name secret.expose

pub getenv-env :
    (vars : Env) (k v j : String)
    → getenv (env vars k v) j ≡ (if str_eq k j then some v else getenv vars j)
unfolding getenv env
getenv-env [] k v j = refl
getenv-env ((i, w) ∷ vars) k v j =
    ground (arith, str_eq_iff k j, str_eq_iff i k, str_eq_iff i j, getenv-env vars k v j)

-- The last value that the policy sets for a variable, or else the given one.
pub policy_value : List (String × String) → String → Option String → Option String
policy_value [] j before = before
policy_value ((k, v) ∷ set) j before = policy_value set j (if str_eq k j then some v else before)

abbrev pub policy_sets : Option EnvSpec → String → Option String → Option String
policy_sets none j before = before
policy_sets (some spec) j before = policy_value spec.set j before

getenv-set_all :
    (vars : Env) (set : List (String × String)) (j : String)
    → getenv (set_all vars set) j ≡ policy_value set j (getenv vars j)
unfolding set_all policy_value
getenv-set_all vars [] j = refl
getenv-set_all vars ((k, v) ∷ set) j =
    rw (getenv-set_all (env vars k v) set j, getenv-env vars k v j)

getenv-set_policy :
    (vars : Env) (spec : Option EnvSpec) (j : String)
    → getenv (set_policy vars spec) j ≡ policy_sets spec j (getenv vars j)
getenv-set_policy vars none j = refl
getenv-set_policy vars (some spec) j = getenv-set_all vars spec.set j

-- What is inherited: the three variables of the list, if the parent has them.
abbrev pub inherited : System → String → Option String
inherited sys j =
    if str_eq "LANG" j
    then sys.env_var "LANG"
    else if str_eq "TMPDIR" j
    then sys.env_var "TMPDIR"
    else if str_eq "HOME" j
    then sys.env_var "HOME"
    else none

differ : (s t j : String) → str_eq s t ≡ false → str_eq s j ≡ true → str_eq t j ≡ false
differ s t j d h = ground (arith, str_eq_iff s t, str_eq_iff s j, str_eq_iff t j)

getenv-three :
    (a b c : Option String) (j : String)
    → getenv (env_if (env_if (env_if [] "HOME" a) "TMPDIR" b) "LANG" c) j ≡ (
        if str_eq "LANG" j
        then c
        else if str_eq "TMPDIR" j
        then b
        else if str_eq "HOME" j
        then a
        else none)
unfolding getenv env
getenv-three a b c j = ground (
  arith,
  differ "HOME" "LANG" j refl,
  differ "HOME" "TMPDIR" j refl,
  differ "TMPDIR" "LANG" j refl,
)

getenv-passed :
    (sys : System) (j : String) → getenv (pass_through sys [] passthrough_env) j ≡ inherited sys j
unfolding pass_through
getenv-passed sys j =
    getenv-three (sys.env_var "HOME") (sys.env_var "TMPDIR") (sys.env_var "LANG") j

-- The whole environment of the child: the injected name has the secret, whatever else sets it; then
-- come the policy's variables, the fixed PATH, and the three inherited ones. Nothing else is set.
pub getenv-apply_env :
    (sys : System) (spec : Option EnvSpec) (inject_name : String) (secret : Secret) (j : String)
    → getenv (apply_env sys spec inject_name secret) j ≡ (
        if str_eq inject_name j
        then some secret.expose
        else policy_sets spec j (if str_eq "PATH" j then some fixed_path else inherited sys j))
unfolding apply_env
getenv-apply_env sys spec inject_name secret j =
    rw (getenv-env (set_policy _ spec) inject_name secret.expose j, getenv-set_policy _ spec j)
      (rw
        (getenv-env (pass_through sys [] passthrough_env) "PATH" fixed_path j, getenv-passed sys j)
        refl)
