-- ===== src/Machine.antt =====
-- The state that the maintenance commands change: the regular files, the Keychain, and what has been
-- printed. A file operation of the standard library takes the next fault of the machine's schedule,
-- which is empty where none is left; a failed one says what it leaves of the file that it was to
-- write. A renaming happens as a whole or not at all.
pub mod Files
pub mod Frames
use kpexec.Prelude.{
  String, Bool, true, false, Option, none, some, List, [], ◌∷◌, ◌++◌, str_eq, if◌then◌else◌,
}
use kpexec.Error.{KpexecError, Result, ok, err, Message}
use kpexec.Output.Bytes.{Bytes}
use kpexec.System.{Io, done, failed}

pub data Fault : Type 0 where
  fine : Fault
  fault : String → Option Bytes → Fault

pub record Machine (Keys : Type 0) : Type 0 where
  pub files : String → Option Bytes
  pub faults : List Fault
  pub keys : Keys
  pub printed : List Message
  -- What went to the standard error, and the lines that the standard input still has.
  pub warned : List Message
  pub input : List String

-- A library call, and a step of the code, on the machine. What was done stays done after an error.
abbrev pub Call : Type 0 → Type 0 → Type 0
Call Keys A = Machine Keys → Io A × Machine Keys

abbrev pub Act : Type 0 → Type 0 → Type 0
Act Keys A = Machine Keys → Result A × Machine Keys

abbrev pub next : List Fault → Fault
next [] = fine
next (f ∷ _) = f

abbrev pub later : List Fault → List Fault
later [] = []
later (_ ∷ faults) = faults

module _ {Keys : Type 0} where
  abbrev pub used : Machine Keys → Machine Keys
  used s = record s { faults = later s.faults }

  abbrev pub pure : {A : Type 0} → A → Act Keys A
  pure a s = (ok a, s)

  abbrev pub raise : {A : Type 0} → KpexecError → Act Keys A
  raise e s = (err e, s)

  abbrev pub from_result : {A : Type 0} → Result A → Act Keys A
  from_result r s = (r, s)

  abbrev pub continue : {A B : Type 0} → Result A → (A → Act Keys B) → Act Keys B
  continue (ok a) f s = f a s
  continue (err e) f s = (err e, s)

  infixl 5 ◌>>=◌ ◌>>◌
  abbrev pub ◌>>=◌ : {A B : Type 0} → Act Keys A → (A → Act Keys B) → Act Keys B
  ◌>>=◌ m f s = let (r, t) = m s in continue r f t

  abbrev pub ◌>>◌ : {B : Type 0} → Act Keys (Unit {0}) → Act Keys B → Act Keys B
  m >> k = m >>= λ _. k

  abbrev pub print : Message → Act Keys (Unit {0})
  print m s = (ok tt, record s { printed = s.printed ++ (m ∷ []) })

  abbrev pub warn : Message → Act Keys (Unit {0})
  warn m s = (ok tt, record s { warned = s.warned ++ (m ∷ []) })

  abbrev pub or_else : {A : Type 0} → Io A → (String → Act Keys A) → Act Keys A
  or_else (done a) f s = (ok a, s)
  or_else (failed e) f s = f e s

  -- `map_err(..)?`, with what is done before the error is returned.
  abbrev pub attempt : {A : Type 0} → Call Keys A → (String → Act Keys A) → Act Keys A
  attempt c f s = let (r, t) = c s in or_else r f t

  -- `let _ = ..`.
  abbrev pub ignore : {A : Type 0} → Call Keys A → Act Keys (Unit {0})
  ignore c s = (ok tt, (c s).1)

  -- `and_then` of two calls.
  abbrev pub go_on : Io (Unit {0}) → Call Keys (Unit {0}) → Call Keys (Unit {0})
  go_on (done _) d t = d t
  go_on (failed e) d t = (failed e, t)

  infixl 5 ◌>=>◌
  abbrev pub ◌>=>◌ : Call Keys (Unit {0}) → Call Keys (Unit {0}) → Call Keys (Unit {0})
  (c >=> d) s = let (r, t) = c s in go_on r d t

  -- `if let Err(e) = step { return .. }`.
  abbrev pub or_handle : {A : Type 0} → Result A → (KpexecError → Act Keys A) → Act Keys A
  or_handle (ok a) f t = (ok a, t)
  or_handle (err e) f t = f e t

  abbrev pub recover : {A : Type 0} → Act Keys A → (KpexecError → Act Keys A) → Act Keys A
  recover m f s = let (r, t) = m s in or_handle r f t

  -- `writeln!` to the standard output. Of a line that fails nothing is counted as printed.
  abbrev pub emit_at : Fault → Message → Call Keys (Unit {0})
  emit_at fine m s = (done tt, record s { printed = s.printed ++ (m ∷ []) })
  emit_at (fault e _) m s = (failed e, s)

  unfoldable pub emit : Message → Call Keys (Unit {0})
  emit m s = emit_at (next s.faults) m (used s)

  -- `stdin().read_line`; at the end of the input the line is empty.
  abbrev pub line_at : Fault → List String → Call Keys String
  line_at fine [] s = (done "", s)
  line_at fine (l ∷ ls) s = (done l, record s { input = ls })
  line_at (fault e _) ls s = (failed e, s)

  unfoldable pub read_input : Call Keys String
  read_input s = line_at (next s.faults) s.input (used s)
