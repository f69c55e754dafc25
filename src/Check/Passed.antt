-- ===== src/Check/Passed.antt =====
-- src/cmd_check.rs: what a vault that passes the check has.
use kpexec.Prelude.{
  ◌≡◌, refl, String, true, false, Option, none, some, List, [], ◌∷◌, ◌++◌, map, In, All, inl, inr,
  str_eq, str_eq_iff, arith, ◌<◌, subst, sym, ap, ◌∙◌, Bool-cases, dec_lt, All-of, ◌≢◌,
}
use kpexec.Status.{success}
use kpexec.Error.{Result, ok, err, >>=-eq-ok, ok_or}
use kpexec.System.{System}
use kpexec.Pin.{Pin, compute, require_enforceable}
use kpexec.Policy.{
  parse, Policy, PolicyJson, Command, command, find_command, duplicate_command_names,
}
use kpexec.Duplicates.{count, duplicates-In}
use kpexec.Vault.{
  Keepass, EntryView, RawEntry, with_id, found_entries, or_malformed, view_of, duplicate_ids,
  raw_entries, find_entry,
}
use kpexec.Report.{Check, Passes, report_status, report_status-Passes}
use kpexec.Check.{
  check_recorded, check_pin, check_command, check_command_pin, check_commands, check_names,
  check_view, check_found, uniqueness, check_secret, emptiness, check_entries, check_one_entry,
  check_vault, pin_enforced,
}

pub All-split : (P : Check → Type 0) (xs ys : List Check) → All P (xs ++ ys) → All P xs × All P ys
All-split P [] ys h = (tt, h)
All-split P (x ∷ xs) ys (p, h) = let (q, r) = All-split P xs ys h in ((p, q), r)

module _ (sys : System) where
  -- The command's executable can be pinned, and where it is pinned, it is nobody's to replace who runs
  -- kpexec.
  abbrev pub Sound : Command → Type 0
  Sound cmd =
      (fresh : Pin) × (compute sys cmd.exe ≡ ok fresh)
      × ((recorded : String)
          → cmd.exe_sha256 ≡ some recorded
          → require_enforceable sys fresh.canonical ≡ ok tt)

  pinned-Passes :
      (id name recorded : String) (fresh : Pin) (r : Result (Unit {0}))
      → Passes (pin_enforced id name recorded fresh.sha256 r)
      → r ≡ ok tt
  pinned-Passes id name recorded fresh (ok u) h = refl
  pinned-Passes id name recorded fresh (err e) h = cc

  recorded-Passes :
      (id name : String) (o : Option String) (fresh : Pin)
      → Passes (check_recorded sys id name o fresh)
      → (recorded : String) → o ≡ some recorded
      → require_enforceable sys fresh.canonical ≡ ok tt
  recorded-Passes id name none fresh h recorded e = cc
  recorded-Passes id name (some r) fresh h recorded e =
      pinned-Passes id name r fresh (require_enforceable sys fresh.canonical) h

  pin-Passes :
      (id name : String) (o : Option String) (r : Result Pin)
      → Passes (check_pin sys id name o r)
      → (fresh : Pin) × (r ≡ ok fresh)
        × ((recorded : String)
            → o ≡ some recorded
            → require_enforceable sys fresh.canonical ≡ ok tt)
  pin-Passes id name o (ok fresh) h = (fresh, refl, recorded-Passes id name o fresh h)
  pin-Passes id name o (err e) h = cc

  commands-Passes :
      (id : String) (policy : Policy) (cmds : List Command)
      → All Passes (check_commands sys id policy cmds)
      → (cmd c : Command) → In cmd cmds
      → command policy cmd.name ≡ some c
      → Sound c
  unfolding check_command_pin
  commands-Passes id policy (d ∷ ds) h cmd c (inl e) f =
      let (p, _) =
        All-split Passes (check_command_pin sys id policy d.name) (check_commands sys id policy ds)
          h in
      let q =
        subst (λ o. All Passes (check_command sys id d.name o))
          (ap (λ x. command policy x.name) (sym e) ∙ f) p in
      pin-Passes id d.name c.exe_sha256 (compute sys c.exe) q.0
  commands-Passes id policy (d ∷ ds) h cmd c (inr i) f =
      let (_, p) =
        All-split Passes (check_command_pin sys id policy d.name) (check_commands sys id policy ds)
          h in
      commands-Passes id policy ds p cmd c i f
  commands-Passes id policy [] h cmd c i f = elim i [ ]

names-Passes :
    (sys : System) (id : String) (names : List String)
    → All Passes (check_names sys id names)
    → names ≡ []
names-Passes sys id [] h = refl
names-Passes sys id (n ∷ ns) h = cc (h.0)

In-count :
    (cmd : Command) (cmds : List Command)
    → In cmd cmds
    → 0 < count cmd.name (map (λ c. c.name) cmds)
unfolding count
In-count cmd (d ∷ ds) (inl e) =
    let n = ap (λ (c : Command). c.name) e in ground (arith, str_eq_iff d.name cmd.name)
In-count cmd (d ∷ ds) (inr i) = ground (arith, In-count cmd ds i)
In-count cmd [] i = elim i [ ]

-- Where no name occurs twice, every command is found by its own name.
find_command-In :
    (cmd : Command) (cmds : List Command)
    → (count cmd.name (map (λ c. c.name) cmds) < 2)
    → In cmd cmds
    → find_command cmds cmd.name ≡ some cmd
unfolding find_command count
find_command-In cmd (d ∷ ds) h (inl e) =
    let n = ap (λ (c : Command). c.name) e in
    let s : str_eq d.name cmd.name ≡ true = (str_eq_iff d.name cmd.name).1 (sym n) in
    rw s (ap some (sym e))
find_command-In cmd (d ∷ ds) h (inr i) =
    let pos = In-count cmd ds i in
    let s : str_eq d.name cmd.name ≡ false = ground (arith, str_eq_iff d.name cmd.name) in
    rw s (find_command-In cmd ds (ground (arith, str_eq_iff d.name cmd.name)) i)
find_command-In cmd [] h i = elim i [ ]

unique_names :
    (policy : Policy) (name : String)
    → duplicate_command_names policy ≡ []
    → count name (map (λ c. c.name) policy.commands) < 2
unfolding duplicate_command_names
unique_names policy name h =
    let (_, back) = duplicates-In name (map (λ c. c.name) policy.commands) in
    elim (dec_lt 1 (count name (map (λ c. c.name) policy.commands))) [
      | yes p ↦ absurd (subst (λ ds. In name ds) h (back p))
      | no p ↦ omega arith
    ]

module _ (sys : System) where
  view-Passes :
      (id : String) (view : EntryView)
      → All Passes (check_view sys id view)
      → All (Sound sys) view.policy.commands
  view-Passes id view (p, h) =
      let (_, h₁) = All-split Passes (check_secret sys id view.has_secret) _ h in
      let (n, c) =
        All-split Passes (check_names sys id (duplicate_command_names view.policy)) _ h₁ in
      let none_twice = names-Passes sys id (duplicate_command_names view.policy) n in
      All-of (Sound sys) view.policy.commands (λ cmd i.
        commands-Passes sys id view.policy view.policy.commands c cmd cmd i (
          find_command-In cmd view.policy.commands (unique_names view.policy cmd.name none_twice)
            i))

  found-Passes :
      (id : String) (r : Result (Option EntryView))
      → r ≢ ok none
      → All Passes (check_found sys id r)
      → (view : EntryView) × (r ≡ ok (some view)) × All (Sound sys) view.policy.commands
  found-Passes id (ok none) n h = absurd (n refl)
  found-Passes id (ok (some view)) n h = (view, refl, view-Passes id view h)
  found-Passes id (err e) n h = cc (h.0)

duplicates-Passes : (ids : List String) → All Passes (uniqueness ids) → ids ≡ []
duplicates-Passes [] h = refl
duplicates-Passes (i ∷ is) h = cc (h.0)

-- A selection that has an entry does not come to nothing.
view_of-some : (json : PolicyJson) (id : String) (raw : RawEntry) → view_of json id raw ≢ ok none
unfolding view_of
view_of-some json id raw h =
    let (s, e, h₁) = >>=-eq-ok (ok_or raw.policy_json _) _ h in
    let (p, f, h₂) = >>=-eq-ok (or_malformed (parse json s) _) _ h₁ in cc

found_entries-some :
    (json : PolicyJson) (id : String) (r : RawEntry) (rs : List RawEntry)
    → found_entries json id (r ∷ rs) ≢ ok none
unfolding found_entries
found_entries-some json id r [] h = view_of-some json id r h
found_entries-some json id r (s ∷ rs) h = cc

with_id-In :
    (raws : List RawEntry) (raw : RawEntry)
    → In raw raws
    → (r : RawEntry) × (rs : List RawEntry) × (with_id raw.id raws ≡ r ∷ rs)
with_id-In (r ∷ raws) raw (inl e) =
    let s : str_eq r.id raw.id ≡ true =
      (str_eq_iff r.id raw.id).1 (ap (λ (r : RawEntry). r.id) (sym e)) in
    (r, with_id raw.id raws, rw s)
with_id-In (r ∷ raws) raw (inr i) = elim (Bool-cases (str_eq r.id raw.id)) [
  | inl s ↦ (r, with_id raw.id raws, rw s)
  | inr s ↦ let (q, qs, e) = with_id-In raws raw i in (q, qs, rw s e)
]
with_id-In [] raw i = elim i [ ]

found_none :
    (json : PolicyJson) (raws : List RawEntry) (raw : RawEntry)
    → In raw raws
    → found_entries json raw.id (with_id raw.id raws) ≢ ok none
found_none json raws raw i h =
    let (r, rs, e) = with_id-In raws raw i in
    found_entries-some json raw.id r rs (ap (found_entries json raw.id) (sym e) ∙ h)

module _ {Database : Type 0} (kp : Keepass Database) (sys : System) (json : PolicyJson)
    (db : Database) where
  entries-Passes :
      (raws : List RawEntry) (raw : RawEntry)
      → All Passes (check_entries kp sys json db none [] raws)
      → In raw raws
      → All Passes (check_one_entry kp sys json db raw.id)
  entries-Passes (r ∷ raws) raw h (inl e) =
      subst (λ x. All Passes (check_one_entry kp sys json db x))
        (ap (λ (r : RawEntry). r.id) (sym e))
        (All-split Passes (check_one_entry kp sys json db r.id) _ h).0
  entries-Passes (r ∷ raws) raw h (inr i) =
      entries-Passes raws raw (All-split Passes (check_one_entry kp sys json db r.id) _ h).1 i
  entries-Passes [] raw h i = elim i [ ]

  -- A vault that passes the check, whatever the check's warnings: no id occurs twice, and for every
  -- entry with an id, the entry is found, its policy parses, and the executable of each of its commands is a
  -- regular file that can be hashed, and where it is pinned, one whose pin can be enforced.
  pub check_vault-Sound :
      report_status (check_vault kp sys json db none) ≡ success
      → (duplicate_ids kp db ≡ [])
        × ((raw : RawEntry)
            → In raw (raw_entries kp db)
            → (view : EntryView) × (find_entry kp json db raw.id ≡ ok (some view))
              × All (Sound sys) view.policy.commands)
  unfolding check_vault check_one_entry find_entry
  check_vault-Sound h =
      let all = report_status-Passes (check_vault kp sys json db none) h in
      let (u, rest) = All-split Passes (uniqueness (duplicate_ids kp db)) _ all in
      let (_, rest₁) = All-split Passes (emptiness (raw_entries kp db)) _ rest in
      let (es, _) =
        All-split Passes
          (check_entries kp sys json db none (duplicate_ids kp db) (raw_entries kp db)) _ rest₁ in
      let d = duplicates-Passes (duplicate_ids kp db) u in
      (
        d,
        λ raw i.
            found-Passes sys raw.id (find_entry kp json db raw.id)
              (found_none json (raw_entries kp db) raw i)
              (entries-Passes (raw_entries kp db) raw
                (subst (λ ds. All Passes (check_entries kp sys json db none ds (raw_entries kp db)))
                  d es)
                i),
      )
