-- ===== src/Tests/Setup.antt =====
-- Applications of the theorems on src/cmd_init.rs.
use kpexec.Prelude.{◌≡◌, refl, [], false, none, some}
use kpexec.Error.{KpexecError, ok, err}
use kpexec.System.{failed}
use kpexec.Config.{Places}
use kpexec.Cli.{InitArgs}
use kpexec.Init.{InitWorld, run_internal}
use kpexec.Init.Guard.{run_internal-refused, vault_there}
use kpexec.Tests.{sample_sys}
use kpexec.Tests.Vaults.{Fields, sample_setting, machine_with}

abbrev sample_world : InitWorld Fields
sample_world = record {
  parent = λ path. none;
  file_name = λ path. none;
  new_db = [];
  new_db_with_kdf = λ iterations memory lanes. [];
  measure = λ iterations lanes. ok iterations;
  processors = ok 1;
  debug_text = λ s. s;
  number_text = λ n. "60";
  later = sample_sys;
}

abbrev no_places : Places
no_places = record { from_str = λ s. failed "toml"; join = λ a b. b; home_dir = none }

abbrev plain_init : InitArgs
plain_init = record {
  db = some "/v.kdbx";
  use_existing = false;
  force = false;
  password_stdin = false;
}

run_internal-refused_example :
    (e : KpexecError) × (run_internal sample_setting sample_world no_places plain_init "/c.toml"
        false none
        (record { expose = "generated" })
        (machine_with [])
      ≡ (err e, machine_with []))
run_internal-refused_example =
    run_internal-refused sample_setting sample_world no_places plain_init "/v.kdbx" "/c.toml" false
      none (record { expose = "generated" }) (machine_with []) refl refl (vault_there refl refl)
