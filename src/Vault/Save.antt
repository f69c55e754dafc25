-- ===== src/Vault/Save.antt =====
-- src/vault.rs: `save_atomic`, over the files of the machine.
pub mod Atomic
use Prim.Native.String.{◌++◌ as push_str}
use kpexec.Prelude.{String, Bool, true, false, Option, none, some, List, [], ◌∷◌, ◌++◌}
use kpexec.Error.{KpexecError, internal_err, text, Message}
use kpexec.Output.Bytes.{Bytes}
use kpexec.System.{Io, done, failed}
use kpexec.Secret.{Secret}
use kpexec.Machine.{Machine, Act, Call, pure, raise, ◌>>◌, attempt, ignore}
use kpexec.Machine.Files.{write, sync, rename, copy, remove, exists}
use kpexec.Vault.{Vault}

-- `Path::parent`, the version that `save_atomic` sets in the database, and `Database::save` and
-- `Database::open` with a password.
pub record Format (Database : Type 0) : Type 0 where
  pub parent : String → Option String
  pub pin_version : Database → Database
  pub save : Database → String → Io Bytes
  pub open_db : Bytes → String → Io Database

abbrev pub tmp_suffix : String
tmp_suffix = ".tmp"

abbrev pub bak_suffix : String
bak_suffix = ".bak"

abbrev pub tmp_sibling : String → String
tmp_sibling path = push_str path tmp_suffix

abbrev pub bak_sibling : String → String
bak_sibling path = push_str path bak_suffix

abbrev failure : Message → String → KpexecError
failure m e = internal_err (m ++ (text ": " ∷ text e ∷ []))

abbrev dir_of : Option String → String
dir_of none = "."
dir_of (some d) = d

abbrev pub save_text : Message
save_text = text "save failed, original vault untouched" ∷ []

abbrev pub fsync_text : Message
fsync_text = text "fsync temp vault" ∷ []

abbrev pub rename_text : Message
rename_text = text "rename temp over vault" ∷ []

module _ {Keys : Type 0} where
  -- `let _ = fs::remove_file(&tmp_path)`, and the error.
  abbrev pub give_up : String → Message → String → Act Keys (Unit {0})
  give_up tmp m e = ignore (remove tmp) >> raise (failure m e)

  abbrev pub no_tmp : String → Act Keys (Unit {0})
  no_tmp e = raise (failure (text "cannot create temp file" ∷ []) e)

  abbrev pub create_tmp : String → Act Keys (Unit {0})
  create_tmp tmp = attempt (write tmp []) no_tmp

  abbrev pub save_tmp : String → Bytes → Act Keys (Unit {0})
  save_tmp tmp bytes = attempt (write tmp bytes) (give_up tmp save_text)

  -- `flush` and `sync_all`.
  abbrev pub fsync_tmp : String → Act Keys (Unit {0})
  fsync_tmp tmp = attempt sync (give_up tmp fsync_text)

  -- `self.db.save(&mut tmp, key)`, which writes what it serializes.
  abbrev pub write_tmp : String → Io Bytes → Act Keys (Unit {0})
  write_tmp tmp (failed e) = give_up tmp save_text e
  write_tmp tmp (done bytes) = save_tmp tmp bytes >> fsync_tmp tmp

  -- Keep a backup of the previous file, if one exists.
  abbrev pub backup_if : Bool → String → Act Keys (Unit {0})
  backup_if true path = ignore (copy path (bak_sibling path))
  backup_if false path = pure tt

  abbrev pub backup : String → Act Keys (Unit {0})
  backup path s = backup_if (exists path s) path s

  abbrev pub replace : String → Act Keys (Unit {0})
  replace path = attempt (rename (tmp_sibling path) path) (give_up (tmp_sibling path) rename_text)

  abbrev pub no_dir : Option String → String → Act Keys (Unit {0})
  no_dir dir e = raise (failure (text "cannot create vault dir " ∷ text (dir_of dir) ∷ []) e)

  abbrev pub make_dir : Option String → Act Keys (Unit {0})
  make_dir dir = attempt sync (no_dir dir)

  abbrev pub begin : Option String → String → Act Keys (Unit {0})
  begin dir path = make_dir dir >> create_tmp (tmp_sibling path)

  abbrev pub fill : String → Io Bytes → Act Keys (Unit {0})
  fill path content = write_tmp (tmp_sibling path) content >> backup path

  -- All that comes before the renaming.
  abbrev pub prepare : Option String → String → Io Bytes → Act Keys (Unit {0})
  prepare dir path content = begin dir path >> fill path content

module _ {Database : Type 0} (format : Format Database) where
  -- What the database serializes to, in the pinned version.
  abbrev pub serialized : Vault Database → Io Bytes
  serialized vault = format.save (format.pin_version vault.db) vault.master.expose

  unfoldable pub save_atomic : {Keys : Type 0} → Vault Database → Act Keys (Unit {0})
  save_atomic vault =
      prepare (format.parent vault.path) vault.path (serialized vault) >> replace vault.path
