-- ===== src/Machine/Files.antt =====
-- `std::fs`, as far as the maintenance commands use it.
use kpexec.Prelude.{String, Bool, true, false, Option, none, some, str_eq, if◌then◌else◌}
use kpexec.Output.Bytes.{Bytes}
use kpexec.System.{Io, done, failed}
use kpexec.Machine.{Fault, fine, fault, Machine, Call, next, used}

-- What `fs::read` finds.
pub data Found : Type 0 where
  found : Bytes → Found
  not_found : Found
  read_failed : String → Found

abbrev pub found_at : Fault → Option Bytes → Found
found_at (fault e _) _ = read_failed e
found_at fine none = not_found
found_at fine (some b) = found b

-- `fs::read` where a missing file is one more error.
abbrev pub as_io : Found → Io Bytes
as_io (found b) = done b
as_io not_found = failed "No such file or directory"
as_io (read_failed e) = failed e

abbrev is_some : Option Bytes → Bool
is_some none = false
is_some (some _) = true

module _ {Keys : Type 0} where
  abbrev pub put : String → Option Bytes → Machine Keys → Machine Keys
  put path v s = record s { files = λ q. if str_eq path q then v else s.files q }

  -- Reading takes a fault too, and changes nothing else.
  abbrev pub look : String → Machine Keys → Found
  look path s = found_at (next s.faults) (s.files path)

  abbrev pub read : String → Call Keys Bytes
  read path s = (as_io (look path s), used s)

  abbrev pub exists : String → Machine Keys → Bool
  exists path s = is_some (s.files path)

  -- `File::create`, which empties the file, and the writing of all its bytes.
  abbrev pub write_at : Fault → String → Bytes → Call Keys (Unit {0})
  write_at fine path b s = (done tt, put path (some b) s)
  write_at (fault e left) path b s = (failed e, put path left s)

  unfoldable pub write : String → Bytes → Call Keys (Unit {0})
  write path b s = write_at (next s.faults) path b (used s)

  -- A call that changes no file: `create_dir_all`, `flush`, `sync_all`.
  abbrev pub sync_at : Fault → Call Keys (Unit {0})
  sync_at fine s = (done tt, s)
  sync_at (fault e _) s = (failed e, s)

  unfoldable pub sync : Call Keys (Unit {0})
  sync s = sync_at (next s.faults) (used s)

  abbrev pub rename_at : Fault → Option Bytes → String → String → Call Keys (Unit {0})
  rename_at fine (some b) from to s = (done tt, put to (some b) (put from none s))
  rename_at fine none from to s = (failed "No such file or directory", s)
  rename_at (fault e _) _ from to s = (failed e, s)

  unfoldable pub rename : String → String → Call Keys (Unit {0})
  rename from to s = rename_at (next s.faults) (s.files from) from to (used s)

  abbrev pub copy_at : Fault → Option Bytes → String → Call Keys (Unit {0})
  copy_at fine (some b) to s = (done tt, put to (some b) s)
  copy_at fine none to s = (failed "No such file or directory", s)
  copy_at (fault e left) _ to s = (failed e, put to left s)

  unfoldable pub copy : String → String → Call Keys (Unit {0})
  copy from to s = copy_at (next s.faults) (s.files from) to (used s)

  -- A missing file is no failure, as every caller treats it: none of them asks which it was.
  abbrev pub remove_at : Fault → String → Call Keys (Unit {0})
  remove_at fine path s = (done tt, put path none s)
  remove_at (fault e _) path s = (failed e, s)

  unfoldable pub remove : String → Call Keys (Unit {0})
  remove path s = remove_at (next s.faults) path (used s)
