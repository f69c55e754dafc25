-- ===== src/Doctor/Environment.antt =====
-- src/doctor.rs: the names of variables in the `.env` files near the working directory.
use kpexec.Prelude.{
  String, Bool, false, not, ◌||◌, Option, none, some, List, [], ◌∷◌, ◌++◌, str_eq, if◌then◌else◌,
}
use kpexec.Message.{text}
use kpexec.System.{Io, done, failed}
use kpexec.Policy.{parsed, rejected, PolicyJson, parse}
use kpexec.Vault.{RawEntry}
use kpexec.Report.{Check, check_ok, check_warn}

-- `str::lines`, `trim`, `starts_with`, `split_once` and `trim_start_matches`.
pub record EnvText : Type 0 where
  pub lines : String → List String
  pub trim : String → String
  pub starts_with : String → String → Bool
  pub split_once : String → String → Option (String × String)
  pub trim_start_matches : String → String → String

-- `read_dir` with the name and the path of each entry, `is_file`, `read_to_string`, whether the
-- directory has a `.git`, and `Path::ancestors`, the path itself first.
pub record Directories : Type 0 where
  pub read_dir : String → Io (List (String × String))
  pub is_file : String → Bool
  pub read_to_string : String → Io String
  pub has_git : String → Bool
  pub ancestors : String → List String

module _ (t : EnvText) where
  abbrev named : Option (String × String) → List String
  named none = []
  named (some (name, value)) =
      let n = t.trim (t.trim_start_matches (t.trim name) "export ") in
      if str_eq n "" then [] else n ∷ []

  abbrev name_of : String → List String
  name_of l = if str_eq l "" || t.starts_with l "#" then [] else named (t.split_once l "=")

  abbrev names_of : List String → List String
  names_of [] = []
  names_of (l ∷ ls) = name_of (t.trim l) ++ names_of ls

  unfoldable pub env_var_names : String → List String
  env_var_names contents = names_of (t.lines contents)

  module _ (d : Directories) where
    abbrev found_in : String → List String → List (String × String)
    found_in path [] = []
    found_in path (v ∷ vs) = (path, v) ∷ found_in path vs

    abbrev in_file : String → Io String → List (String × String)
    in_file path (failed _) = []
    in_file path (done c) = found_in path (env_var_names c)

    abbrev in_entries : List (String × String) → List (String × String)
    in_entries [] = []
    in_entries ((name, path) ∷ entries) =
        let rest = in_entries entries in
        if not (t.starts_with name ".env") || not (d.is_file path)
        then rest
        else in_file path (d.read_to_string path) ++ rest

    abbrev in_dir : Io (List (String × String)) → List (String × String)
    in_dir (failed _) = []
    in_dir (done entries) = in_entries entries

    unfoldable pub scan_dir_all_env_names : String → List (String × String)
    scan_dir_all_env_names dir = in_dir (d.read_dir dir)

    abbrev is_home : Option String → String → Bool
    is_home none dir = false
    is_home (some h) dir = str_eq dir h

    -- The loop upwards, which ends at a repository, at the home directory or at the root.
    abbrev upwards : Option String → List String → List (String × String)
    upwards home [] = []
    upwards home (dir ∷ parents) =
        let rest = upwards home parents in
        scan_dir_all_env_names dir ++ (if d.has_git dir || is_home home dir then [] else rest)

    unfoldable pub nearby_env_names : String → Option String → List (String × String)
    nearby_env_names cwd home = upwards home (d.ancestors cwd)

abbrev policy_name : PolicyJson → Option String → List String
policy_name json none = []
policy_name json (some s) = elim (parse json s) [
  | parsed policy ↦ policy.secret.inject.name ∷ []
  | rejected _ ↦ []
]

-- The set as a list, which is only asked for its members.
unfoldable pub policy_inject_names : PolicyJson → List RawEntry → List String
policy_inject_names json [] = []
policy_inject_names json (raw ∷ raws) =
    policy_name json raw.policy_json ++ policy_inject_names json raws

abbrev one_of : String → List String → Bool
one_of v [] = false
one_of v (n ∷ ns) = str_eq n v || one_of v ns

abbrev hits : List String → List (String × String) → List (String × String)
hits names [] = []
hits names ((file, v) ∷ found) =
    let rest = hits names found in if one_of v names then (file, v) ∷ rest else rest

abbrev hit_checks : List (String × String) → List Check
hit_checks [] = []
hit_checks ((file, v) ∷ found) =
    check_warn (text file ∷ text " defines policy-injected variable `" ∷ text v ∷ text "`" ∷ [])
    ∷ hit_checks found

abbrev report_hits : List (String × String) → List Check
report_hits [] =
    check_ok (text "no policy-injected variable names found in nearby .env* files" ∷ []) ∷ []
report_hits (h ∷ hs) = hit_checks (h ∷ hs)

unfoldable pub check_env_files_for_names : List String → List (String × String) → List Check
check_env_files_for_names names nearby = report_hits (hits names nearby)
