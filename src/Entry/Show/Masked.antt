-- ===== src/Entry/Show/Masked.antt =====
-- src/cmd_entry.rs: the stored secrets have no influence on what is listed and shown.
use kpexec.Prelude.{ℕ, ◌≡◌, ◌≢◌, refl, String, Bool, List, [], ◌∷◌, ap, ◌∙◌, Option-cases, inl, inr}
use kpexec.Policy.{PolicyJson, field_id, field_policy}
use kpexec.Vault.{
  Keepass, RawEntry, raw_from, raw_entries, duplicate_ids, find_entry, nonempty, password_field,
  title_field,
}
use kpexec.Machine.Frames.{str_eq-false}
use kpexec.Entry.Show.{Display, list_render, show_render, views_of}

module _ {Database : Type 0} (kp : Keepass Database) where
  -- Two databases with the same entries, which have a secret at the same places and differ in nothing but
  -- what the secrets are.
  abbrev pub SameButSecrets : Database → Database → Type 0
  SameButSecrets db db' =
      (kp.iter_all_entries db ≡ kp.iter_all_entries db')
      × ((e : ℕ) (f : String) → f ≢ password_field → kp.get db e f ≡ kp.get db' e f)
      × ((e : ℕ) → nonempty (kp.get db e password_field) ≡ nonempty (kp.get db' e password_field))

  raw_from-same :
      (db db' : Database) (es : List ℕ)
      → SameButSecrets db db'
      → raw_from kp db es ≡ raw_from kp db' es
  unfolding raw_from
  raw_from-same db db' [] same = refl
  raw_from-same db db' (e ∷ es) (i, g, n) =
      let a = g e field_id (str_eq-false field_id password_field refl) in
      let t = g e title_field (str_eq-false title_field password_field refl) in
      let p = g e field_policy (str_eq-false field_policy password_field refl) in
      let ih = raw_from-same db db' es (i, g, n) in
      elim (Option-cases (kp.get db' e field_id)) [
        | inl missing ↦ rw (a ∙ missing, missing, raw_from) ih
        | inr (id, h) ↦ rw (a ∙ h, h, raw_from) (rw (t, p, n e, ih))
      ]

  raw_entries-same :
      (db db' : Database) → SameButSecrets db db' → raw_entries kp db ≡ raw_entries kp db'
  unfolding raw_entries
  raw_entries-same db db' (i, g, n) =
      raw_from-same db db' (kp.iter_all_entries db) (i, g, n) ∙ ap (raw_from kp db') i

  find_entry-same :
      (json : PolicyJson) (db db' : Database) (id : String)
      → SameButSecrets db db'
      → find_entry kp json db id ≡ find_entry kp json db' id
  unfolding find_entry
  find_entry-same json db db' id same = rw (raw_entries-same db db' same)

  views_of-same :
      (json : PolicyJson) (display : Display) (db db' : Database) (raws : List RawEntry)
      → SameButSecrets db db'
      → views_of kp json display db raws ≡ views_of kp json display db' raws
  unfolding views_of
  views_of-same json display db db' [] same = refl
  views_of-same json display db db' (raw ∷ raws) same =
      rw (find_entry-same json db db' raw.id same, views_of-same json display db db' raws same)

  -- Let two databases differ only in the values of the secrets that they have. Then `entry list` and
  -- `entry show` come to the same for both, errors included: what they print tells nothing of a secret but
  -- that there is one.
  pub secrets_unseen :
      (json : PolicyJson) (display : Display) (db db' : Database) (id : String) (as_json : Bool)
      → SameButSecrets db db'
      → (list_render kp json display db as_json ≡ list_render kp json display db' as_json)
        × (show_render kp json display db id as_json ≡ show_render kp json display db' id as_json)
  unfolding list_render show_render duplicate_ids
  secrets_unseen json display db db' id as_json same = (
    rw (raw_entries-same db db' same, views_of-same json display db db' (raw_entries kp db') same),
    rw (find_entry-same json db db' id same),
  )
