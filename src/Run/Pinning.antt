-- ===== src/Run/Pinning.antt =====
-- src/cmd_run.rs and src/pin.rs: what a verified executable has been checked for.
use kpexec.Prelude.{
  ◌≡◌, refl, String, Bool, true, false, Option, none, some, arith, Bool-cases, inl, inr, ap, sym,
  subst,
}
use kpexec.Error.{Result, ok, Message, >>=-eq-ok}
use kpexec.Policy.{Command}
use kpexec.Output.Bytes.{Bytes}
use kpexec.System.{System, Metadata, Io, done, failed}
use kpexec.Pin.{
  Pin, hex, compute, is_mutable_by_current_user, require_enforceable, eq_ignore_ascii_case,
  or_reject, guard,
}
use kpexec.Run.Surroundings.{World}
use kpexec.Run.Verify.{Verified, verify_exe, is_executable, check_pin}

ok_inj : {A : Type 0} {a b : A} → Result.ok a ≡ ok b → a ≡ b
ok_inj h = cc

guard-ok : (b : Bool) (m : Message) {u : Unit {0}} → guard b m ≡ ok u → b ≡ true
guard-ok true m h = refl
guard-ok false m h = cc

or_reject-ok : {A : Type 0} {a : A} (r : Io A) (m : Message) → or_reject r m ≡ ok a → r ≡ done a
or_reject-ok (done b) m h = ap done (ok_inj h)
or_reject-ok (failed e) m h = cc

module _ (sys : System) where
  -- The path is absolute and leads to a readable regular file, whose bytes the hash is of.
  abbrev pub Hashed : String → Pin → Type 0
  Hashed exe pin =
      (sys.is_absolute exe ≡ true)
      × (sys.canonicalize exe ≡ done pin.canonical)
      × ((meta : Metadata) × (sys.metadata pin.canonical ≡ done meta) × (meta.is_file ≡ true))
      × ((bytes : Bytes) × (sys.read pin.canonical ≡ done bytes)
          × (pin.sha256 ≡ hex (sys.sha256 bytes)))

  -- A pin is computed only for an absolute path to a regular file that can be read, and its hash is
  -- that of the bytes of this file.
  pub compute_sound : (exe : String) (pin : Pin) → compute sys exe ≡ ok pin → Hashed exe pin
  unfolding compute
  compute_sound exe pin h =
      let (_, absolute, h₁) = >>=-eq-ok (guard (sys.is_absolute exe) _) _ h in
      let (canonical, c, h₂) = >>=-eq-ok (or_reject (sys.canonicalize exe) _) _ h₁ in
      let (meta, m, h₃) = >>=-eq-ok (or_reject (sys.metadata canonical) _) _ h₂ in
      let (_, file, h₄) = >>=-eq-ok (guard meta.is_file _) _ h₃ in
      let (bytes, r, h₅) = >>=-eq-ok (or_reject (sys.read canonical) _) _ h₄ in
      subst (Hashed exe) (ok_inj h₅) (
        guard-ok _ _ absolute,
        or_reject-ok (sys.canonicalize exe) _ c,
        (meta, or_reject-ok (sys.metadata canonical) _ m, guard-ok _ _ file),
        (bytes, or_reject-ok (sys.read canonical) _ r, refl),
      )

  require_enforceable_sound :
      (path : String) {u : Unit {0}}
      → require_enforceable sys path ≡ ok u
      → is_mutable_by_current_user sys path ≡ false
  unfolding require_enforceable
  require_enforceable_sound path h = ground arith

module _ {Database : Type 0} (w : World Database) where
  -- What the recorded hash of a command asks for: without one the command is unpinned; with one,
  -- the fresh hash is the same, up to case, and the user cannot change the file.
  abbrev pub PinChecked : String → String → Option String → Bool → Type 0
  PinChecked canonical fresh none unpinned = unpinned ≡ true
  PinChecked canonical fresh (some recorded) unpinned =
      (unpinned ≡ false)
      × (eq_ignore_ascii_case fresh recorded ≡ true)
      × (is_mutable_by_current_user w.sys canonical ≡ false)

  check_pin_sound :
      (canonical fresh : String) (recorded : Option String) (v : Verified)
      → check_pin w canonical fresh recorded ≡ ok v
      → (v.canonical ≡ canonical) × PinChecked canonical fresh recorded v.unpinned
  check_pin_sound canonical fresh none v h =
      (ap (λ x. x.canonical) (sym (ok_inj h)), ap (λ x. x.unpinned) (sym (ok_inj h)))
  check_pin_sound canonical fresh (some recorded) v h =
      elim (Bool-cases (eq_ignore_ascii_case fresh recorded)) [
        | inr differs ↦ absurd (cc (rw differs at h))
        | inl same ↦
            let (_, immutable, h₁) =
              >>=-eq-ok (require_enforceable w.sys canonical) _ (rw same at h) in
            (
              ap (λ x. x.canonical) (sym (ok_inj h₁)),
              (
                ap (λ x. x.unpinned) (sym (ok_inj h₁)),
                same,
                require_enforceable_sound w.sys canonical immutable,
              ),
            )
      ]

  -- A command is verified only if its path is absolute and leads to a regular file that may be
  -- executed; and, if the policy has recorded a hash, only if the bytes of this file have this hash
  -- now and the current user can neither write nor replace the file. The program that is verified is
  -- the canonical path, and it counts as unpinned exactly if no hash was recorded.
  pub verify_exe_sound :
      (cmd : Command) (v : Verified)
      → verify_exe w cmd ≡ ok v
      → (pin : Pin) × Hashed w.sys cmd.exe pin
        × (v.canonical ≡ pin.canonical)
        × (is_executable w pin.canonical ≡ true)
        × PinChecked pin.canonical pin.sha256 cmd.exe_sha256 v.unpinned
  unfolding verify_exe
  verify_exe_sound cmd v h =
      let (pin, fresh, h₁) = >>=-eq-ok (compute w.sys cmd.exe) _ h in
      elim (Bool-cases (is_executable w pin.canonical)) [
        | inr bad ↦ absurd (cc (rw bad at h₁))
        | inl may ↦
            let (same, checked) =
              check_pin_sound pin.canonical pin.sha256 cmd.exe_sha256 v (rw may at h₁) in
            (pin, compute_sound w.sys cmd.exe pin fresh, same, may, checked)
      ]
