-- ===== src/Tests/Diagnostics.antt =====
-- Applications of the theorems on src/cmd_check.rs, src/doctor.rs, src/masterpw.rs and src/kdf.rs.
use kpexec.Prelude.{
  ℕ, zero, suc, ◌+◌, ◌*◌, ◌%◌, ◌≤◌, ◌<◌, ◌≡◌, ◌↔◌, refl, String, Bool, true, false, none, some,
  List, [], ◌∷◌, In, All, arith, take, str_eq, if◌then◌else◌, subst, Option,
}
use kpexec.Status.{success}
use kpexec.Error.{Result, ok}
use kpexec.System.{done, failed}
use kpexec.Policy.{parse, duplicate_command_names, find_command}
use kpexec.Keychain.{VaultCredential, AclBinding, verified, unverified, account_for, fingerprint}
use kpexec.Entry.{Setting}
use kpexec.Config.{Places, ReadText, contents, load_from, parse_config}
use kpexec.Vault.{RawEntry, EntryView, duplicate_ids, raw_entries, find_entry}
use kpexec.Vault.Open.{open_vault}
use kpexec.Check.{check_vault, check_one_entry, check_command_pin}
use kpexec.Pin.{compute, require_enforceable, eq_ignore_ascii_case}
use kpexec.Machine.Files.{sync, write, remove}
use kpexec.Check.Passed.{Sound, check_vault-Sound}
use kpexec.Report.{report_status}
use kpexec.Doctor.{acl_verified, run_full_with, check_log_dir_writable}
use kpexec.Doctor.Signature.{
  CodeSignature, notarized_developer_id, check_code_signature, trusted_for_keychain,
}
use kpexec.Doctor.Environment.{
  EnvText, Directories, check_env_files_for_names, nearby_env_names, policy_inject_names,
  scan_dir_all_env_names,
}
use kpexec.Doctor.Boundary.{reading, Unproved, run_full_with-closed, run_full_with-Healthy, Healthy}
use kpexec.MasterPassword.{generate, secret_of, alpha_len, limit, password_length}
use kpexec.MasterPassword.Draws.{indices, generate-indices, accepted_uniform}
use kpexec.Kdf.{calibrate_iterations, scale_iterations, max_iterations, target_duration}
use kpexec.Kdf.Bounds.{calibrate_iterations_bounds, scale_iterations_nearest}
use kpexec.Tests.{sample_keepass, sample_codec, sample_sys, sample_json}
use kpexec.Tests.Vaults.{Fields, sample_setting, machine_with}

check_runs : report_status (check_vault sample_keepass sample_sys sample_json tt none) ≡ success
unfolding report_status check_vault duplicate_ids check_one_entry find_entry parse
    duplicate_command_names check_command_pin find_command compute require_enforceable
    eq_ignore_ascii_case
check_runs = refl

check_vault-Sound_example :
    (duplicate_ids sample_keepass tt ≡ [])
    × ((raw : RawEntry)
        → In raw (raw_entries sample_keepass tt)
        → (view : EntryView) × (find_entry sample_keepass sample_json tt raw.id ≡ ok (some view))
          × All (Sound sample_sys) view.policy.commands)
check_vault-Sound_example = check_vault-Sound sample_keepass sample_sys sample_json tt check_runs

abbrev signed : Bool → CodeSignature
signed integrity = record {
  integrity_valid = integrity;
  developer_id = true;
  identifier_valid = true;
  team_id_valid = true;
  hardened_runtime = true;
  gatekeeper = notarized_developer_id;
}

abbrev sample_places : Places
sample_places = record {
  from_str =
      λ text. done (record { db_path = some "/v.kdbx"; default_timeout_sec = none; extra = [] });
  join = λ dir name. name;
  home_dir = some "/home/me";
}

abbrev sample_read : String → ReadText
sample_read path = contents ""

abbrev no_names : EnvText
no_names = record {
  lines = λ s. [];
  trim = λ s. s;
  starts_with = λ s t. false;
  split_once = λ s t. none;
  trim_start_matches = λ s t. s;
}

abbrev no_files : Directories
no_files = record {
  read_dir = λ dir. done [];
  is_file = λ path. false;
  read_to_string = λ path. failed "no file";
  has_git = λ dir. true;
  ancestors = λ dir. dir ∷ [];
}

abbrev no_item : String → Option VaultCredential → Result (Option VaultCredential)
no_item account k = ok none

-- The store has not verified the binding of the vault that is configured, but those of other accounts.
abbrev binding_of : String → Result AclBinding
binding_of account =
    if str_eq account (account_for sample_sys sample_codec "/v.kdbx")
    then ok unverified
    else ok verified

abbrev unproved_setting : Setting Fields (Option VaultCredential)
unproved_setting = record sample_setting {
  store = record {
    get = sample_setting.store.get;
    acl_binding = λ account k. binding_of account;
    set = sample_setting.store.set;
    delete = sample_setting.store.delete;
  };
}

configured :
    (vault_path : String)
    → kpexec.Doctor.db_path_of (load_from sample_places sample_read "/c") ≡ some vault_path
    → Unproved unproved_setting sample_places sample_read no_names no_files
        (signed true)
        vault_path
        (machine_with [])
unfolding load_from parse_config trusted_for_keychain account_for fingerprint
configured vault_path h =
    let same : "/v.kdbx" ≡ vault_path = cc in
    subst (λ path. acl_verified (binding_of (account_for sample_sys sample_codec path)) ≡ false)
      same refl

run_full_with-closed_example :
    run_full_with unproved_setting sample_places sample_read no_names no_files "/c" "/l" "/w" none
      (signed true)
      (machine_with [])
    ≡ run_full_with
        (reading unproved_setting no_item)
        sample_places
        sample_read
        no_names
        no_files
        "/c"
        "/l"
        "/w"
        none
        (signed true)
        (machine_with [])
run_full_with-closed_example =
    run_full_with-closed unproved_setting sample_places sample_read no_names no_files no_item "/c"
      "/l" "/w" none (signed true) (machine_with []) configured

sample_db_path :
    kpexec.Doctor.db_path_of (load_from sample_places sample_read "/c") ≡ some "/v.kdbx"
unfolding load_from parse_config
sample_db_path = refl

doctor_runs :
    report_status
      (run_full_with sample_setting sample_places sample_read no_names no_files "/c" "/l" "/w" none
        (signed true)
        (machine_with [])).0
    ≡ success
unfolding report_status run_full_with load_from parse_config check_log_dir_writable sync write
    remove check_code_signature trusted_for_keychain open_vault check_env_files_for_names
    nearby_env_names policy_inject_names scan_dir_all_env_names check_vault duplicate_ids
    check_one_entry find_entry parse duplicate_command_names check_command_pin find_command compute
    require_enforceable eq_ignore_ascii_case
doctor_runs = refl

run_full_with-Healthy_example :
    Healthy sample_setting sample_places sample_read no_names no_files
      (signed true)
      "/v.kdbx"
      (run_full_with sample_setting sample_places sample_read no_names no_files "/c" "/l" "/w" none
        (signed true)
        (machine_with [])).1
run_full_with-Healthy_example =
    run_full_with-Healthy sample_setting sample_places sample_read no_names no_files "/c" "/l" "/w"
      none (signed true) (machine_with []) "/v.kdbx" sample_db_path doctor_runs

-- Every other draw is above the limit.
abbrev alternating : ℕ → List ℕ
alternating zero = []
alternating (suc n) = 4294967295 ∷ n ∷ alternating n

generate-indices_example :
    generate (alternating 40) ≡ some (secret_of (take password_length (indices (alternating 40))))
unfolding limit alpha_len
generate-indices_example = generate-indices (alternating 40) (omega arith)

accepted_uniform_example :
    ((4294967270 < limit) × (4294967270 % alpha_len ≡ 56))
    ↔ ((k : ℕ) × (k < 75350303) × (4294967270 ≡ 56 + alpha_len * k))
unfolding alpha_len
accepted_uniform_example = accepted_uniform 56 4294967270 (omega arith)

-- A tenth of a second for each pass.
abbrev measured : ℕ → Result ℕ
measured passes = ok (passes * 100000000)

calibration_runs : calibrate_iterations measured ≡ ok 5
unfolding calibrate_iterations
calibration_runs = refl

calibrate_iterations_bounds_example : (1 ≤ 5) × (5 ≤ max_iterations)
calibrate_iterations_bounds_example = calibrate_iterations_bounds measured 5 calibration_runs

scale_iterations_nearest_example :
    (2 * (scale_iterations 1 120000000 * 120000000) ≤ 2 * (1 * target_duration) + 120000000)
    × (2 * (1 * target_duration) ≤ 2 * (scale_iterations 1 120000000 * 120000000) + 120000000)
unfolding scale_iterations
scale_iterations_nearest_example =
    scale_iterations_nearest 1 120000000 (omega arith) (omega arith) (omega arith) (omega arith)
