-- ===== src/Cli.antt =====
-- src/cli.rs: the commands of the command line and their arguments.
use kpexec.Prelude.{String, Bool, Option, List}
use kpexec.Run.Emit.{RunArgs}

pub record InitArgs : Type 0 where
  pub db : Option String
  pub use_existing : Bool
  pub force : Bool
  pub password_stdin : Bool

pub record CheckArgs : Type 0 where
  pub entry : Option String

pub record CommandSpec : Type 0 where
  pub name : String
  pub exe : String
  pub prefix : String

pub record EntryAddArgs : Type 0 where
  pub id : Option String
  pub no_pin : Bool
  pub secret_stdin : Bool
  pub description : Option String
  pub title : Option String
  pub inject : Option String
  pub commands : List CommandSpec
  pub force : Bool

pub record EntryAddCommandArgs : Type 0 where
  pub id : String
  pub no_pin : Bool
  pub commands : List CommandSpec

pub record EntrySetSecretArgs : Type 0 where
  pub id : String
  pub secret_stdin : Bool

pub record EntryEditArgs : Type 0 where
  pub id : String
  pub description : Option String
  pub title : Option String
  pub inject : Option String

pub record EntryIdArg : Type 0 where
  pub id : String

pub record EntryRmCommandArgs : Type 0 where
  pub id : String
  pub name : String

pub record EntryListArgs : Type 0 where
  pub json : Bool

pub record EntryShowArgs : Type 0 where
  pub id : String
  pub json : Bool

pub record EntryRepinArgs : Type 0 where
  pub id : String
  pub command_name : Option String

pub data EntryCommand : Type 0 where
  add : EntryAddArgs → EntryCommand
  add_command : EntryAddCommandArgs → EntryCommand
  rm_command : EntryRmCommandArgs → EntryCommand
  set_secret : EntrySetSecretArgs → EntryCommand
  edit : EntryEditArgs → EntryCommand
  rm : EntryIdArg → EntryCommand
  list : EntryListArgs → EntryCommand
  show : EntryShowArgs → EntryCommand
  repin : EntryRepinArgs → EntryCommand

pub data DbCommand : Type 0 where
  rotate_password show_password : DbCommand

pub data Command : Type 0 where
  run : RunArgs → Command
  init : InitArgs → Command
  doctor : Command
  entry : EntryCommand → Command
  check : CheckArgs → Command
  db : DbCommand → Command
