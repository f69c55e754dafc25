-- ===== src/Lock/Exclusion.antt =====
-- src/lock.rs: who gets the lock, and that two living processes do not both have it.
use Prim.Native.String.{◌++◌ as push_str}
use kpexec.Prelude.{
  ℕ, ◌≡◌, ◌≢◌, ◌↔◌, refl, sym, String, true, false, Option, none, some, List, [], ◌∷◌, ◌==◌, arith,
  Bool-cases, Option-cases, inl, inr, ◌⊎◌, ◌∙◌,
}
use kpexec.Status.{config_error}
use kpexec.Error.{KpexecError, ok, err}
use kpexec.Lock.{
  LockText, LockInfo, encode, parse, parse_lines, Write, written, write_failed, Process, LockFiles,
  current, holder, live_holder, acquire, reclaimed, locked_by,
}

-- What the two lines of a lock file give back of its numbers.
abbrev pub Readable : LockText → LockInfo → Type 0
Readable t info =
    let first = push_str "pid=" (t.to_string info.pid) in
    let second = push_str "start_epoch=" (t.to_string info.start_epoch) in
    (t.lines (encode t info) ≡ first ∷ second ∷ [])
    × (t.strip_prefix "pid=" first ≡ some (t.to_string info.pid))
    × (t.strip_prefix "pid=" second ≡ none)
    × (t.strip_prefix "start_epoch=" second ≡ some (t.to_string info.start_epoch))
    × (t.parse_u32 (t.trim (t.to_string info.pid)) ≡ some info.pid)
    × (t.parse_u64 (t.trim (t.to_string info.start_epoch)) ≡ some info.start_epoch)

differ : (a b : ℕ) → b ≢ a → (a == b) ≡ false
differ a b h = ground arith

Write-cases :
    (w : Write)
    → (w ≡ written) ⊎ ((e : String) × (left : Option String) × (w ≡ write_failed e left))
Write-cases written = inl refl
Write-cases (write_failed e left) = inr (e, left, refl)

module _ (t : LockText) where
  pid_line :
      (line v : String) (rest : List String) (pid start : Option ℕ)
      → t.strip_prefix "pid=" line ≡ some v
      → parse_lines t (line ∷ rest) pid start ≡ parse_lines t rest (t.parse_u32 (t.trim v)) start
  unfolding parse_lines
  pid_line line v rest pid start f = rw (f, parse_lines)

  start_line :
      (line v : String) (rest : List String) (pid start : Option ℕ)
      → t.strip_prefix "pid=" line ≡ none
      → t.strip_prefix "start_epoch=" line ≡ some v
      → parse_lines t (line ∷ rest) pid start ≡ parse_lines t rest pid (t.parse_u64 (t.trim v))
  unfolding parse_lines
  start_line line v rest pid start n s = rw (n, s, parse_lines)

  parse-encode : (info : LockInfo) → Readable t info → parse t (encode t info) ≡ some info
  unfolding parse
  parse-encode info (l, f, n, s, p, e) =
      let second = push_str "start_epoch=" (t.to_string info.start_epoch) in
      let read = t.parse_u32 (t.trim (t.to_string info.pid)) in
      rw l (
        pid_line _ _ (second ∷ []) none none f
        ∙ (start_line second _ [] read none n s ∙ rw (p, e) refl))

  keepassxc-reclaimed :
      (p : Process) (files : LockFiles) (lock : Option String)
      → (reclaimed t p files lock).keepassxc ≡ files.keepassxc
  keepassxc-reclaimed p files none = refl
  keepassxc-reclaimed p files (some _) = ground arith

  -- What a success shows, and the state that it leaves.
  acquire-ok :
      (p : Process) (vault : String) (files : LockFiles)
      → (acquire t p vault files).1 ≡ ok tt
      → (files.keepassxc ≡ false)
        × (holder t p files.lock ≡ none)
        × (p.write ≡ written)
        × ((acquire t p vault files).0.keepassxc ≡ false)
        × ((acquire t p vault files).0.lock ≡ some (encode t (current p)))
  unfolding acquire
  acquire-ok p vault files h = elim (Bool-cases files.keepassxc) [
    | inl busy ↦ absurd (cc (rw busy at h))
    | inr free ↦ elim (Option-cases (holder t p files.lock)) [
      | inr (pid, held) ↦ absurd (cc (rw (free, held) at h))
      | inl unheld ↦ elim (Write-cases p.write) [
        | inr (e, left, bad) ↦ absurd (cc (rw (free, unheld, bad) at h))
        | inl good ↦ (
          free,
          unheld,
          good,
          simp (free, unheld, good) (keepassxc-reclaimed p files files.lock ∙ free),
          simp (free, unheld, good),
        )
      ]
    ]
  ]

  -- The lock file names a process that lives, other than the one that asks.
  abbrev pub HeldByOther : Process → Option String → Type 0
  HeldByOther p lock =
      (contents : String) × (info : LockInfo) × (lock ≡ some contents)
      × (parse t contents ≡ some info)
      × (info.pid ≢ p.id)
      × (p.alive info.pid ≡ true)

  live_holder-HeldByOther :
      (p : Process) (contents : String) (r : Option LockInfo) (pid : ℕ)
      → parse t contents ≡ r
      → live_holder t p r ≡ some pid
      → HeldByOther p (some contents)
  live_holder-HeldByOther p contents none pid e h = absurd (cc)
  live_holder-HeldByOther p contents (some info) pid e h =
      (contents, info, refl, e, (λ same. ground (arith, same)), ground arith)

  holder-HeldByOther :
      (p : Process) (lock : Option String) (pid : ℕ)
      → holder t p lock ≡ some pid
      → HeldByOther p lock
  unfolding holder
  holder-HeldByOther p none pid h = absurd (cc)
  holder-HeldByOther p (some contents) pid h =
      live_holder-HeldByOther p contents (parse t contents) pid refl h

  HeldByOther-holder :
      (p : Process) (lock : Option String) → holder t p lock ≡ none → HeldByOther p lock → ⊥
  unfolding holder
  HeldByOther-holder p lock h (contents, info, e, r, other, lives) =
      cc (rw (e, holder, r, differ info.pid p.id (λ same. other (sym same)), lives) at h)

  unheld_lem :
      (p : Process) (lock : Option String) → (HeldByOther p lock → ⊥) → holder t p lock ≡ none
  unheld_lem p lock free = elim (Option-cases (holder t p lock)) [
    | inl unheld ↦ unheld
    | inr (pid, held) ↦ absurd (free (holder-HeldByOther p lock pid held))
  ]

  -- The lock is got exactly if KeePassXC does not hold the vault, the lock file names no living process
  -- other than the one that asks, and the file can be written.
  pub acquire_iff :
      (p : Process) (vault : String) (files : LockFiles)
      → ((acquire t p vault files).1 ≡ ok tt)
        ↔ ((files.keepassxc ≡ false) × (HeldByOther p files.lock → ⊥) × (p.write ≡ written))
  unfolding acquire
  acquire_iff p vault files = (
    λ h.
        let (a, b, c, _, _) = acquire-ok p vault files h in
        (a, HeldByOther-holder p files.lock b, c),
    λ (a, b, c). rw (a, unheld_lem p files.lock b, c) refl,
  )

  -- While the process that got the lock lives, another one that sees the lock file does not get it
  -- and leaves the files as they are.
  pub acquire_excludes :
      (p q : Process) (vault : String) (files : LockFiles)
      → Readable t (current p)
      → (acquire t p vault files).1 ≡ ok tt
      → q.id ≢ p.id
      → q.alive p.id ≡ true
      → (e : KpexecError) × (acquire t q vault (acquire t p vault files).0
          ≡ ((acquire t p vault files).0, err e))
        × (e.status ≡ config_error)
  unfolding acquire
  acquire_excludes p q vault files r got other lives =
      let (_, _, _, free, recorded) = acquire-ok p vault files got in
      refused q vault (acquire t p vault files).0 p.id free
        (held_by q (current p) recorded r other lives)
    where
      held_by :
          (q : Process) (info : LockInfo) {lock : Option String}
          → lock ≡ some (encode t info)
          → Readable t info
          → q.id ≢ info.pid
          → q.alive info.pid ≡ true
          → holder t q lock ≡ some info.pid
      held_by q info recorded r other lives =
          simp (recorded, parse-encode info r, differ (info.pid) q.id other, lives)

      refused :
          (q : Process) (vault : String) (files : LockFiles) (pid : ℕ)
          → files.keepassxc ≡ false
          → holder t q files.lock ≡ some pid
          → (e : KpexecError) × (acquire t q vault files ≡ (files, err e))
            × (e.status ≡ config_error)
      refused q vault files pid free held = (locked_by pid, simp (free, held), refl)
