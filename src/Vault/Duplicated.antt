-- ===== src/Vault/Duplicated.antt =====
-- src/vault.rs: the operations on an entry agree on which ids they refuse and what they select.
use kpexec.Prelude.{
  ℕ, ◌<◌, ◌≡◌, refl, String, List, [], ◌∷◌, map, arith, length, In, inl, inr, Option-cases,
}
use kpexec.Status.{malformed_policy}
use kpexec.Error.{KpexecError, Result, err}
use kpexec.Duplicates.{count, duplicates-In}
use kpexec.Secret.{Secret}
use kpexec.Policy.{Policy, PolicyJson, parsed, field_id, to_json}
use kpexec.Vault.{
  Keepass, RawEntry, raw_from, raw_entries, duplicate_ids, with_id, found_entries, find_entry,
  ids_from, entry_id_of, single_id, read_secret, with_entry_mut, update_policy, update_secret,
  remove_entry,
}

-- An operation that fails with a malformed policy.
abbrev pub Refused {ℓ} : {A : Type ℓ} → Result A → Type ℓ
Refused r = (e : KpexecError) × (r ≡ err e) × (e.status ≡ malformed_policy)

length-with_id :
    (id : String) (rs : List RawEntry) → length (with_id id rs) ≡ count id (map (λ r. r.id) rs)
unfolding count
length-with_id id [] = refl
length-with_id id (r ∷ rs) = ground (arith, length-with_id id rs)

module _ {Database : Type 0} (kp : Keepass Database) where
  length-ids_from :
      (db : Database) (id : String) (es : List ℕ)
      → length (ids_from kp db id es) ≡ count id (map (λ r. r.id) (raw_from kp db es))
  unfolding ids_from raw_from count
  length-ids_from db id [] = refl
  length-ids_from db id (e ∷ es) = elim (Option-cases (kp.get db e field_id)) [
    | inl missing ↦ rw (missing, raw_from) (length-ids_from db id es)
    | inr (found, h) ↦ rw (h, raw_from) (ground (arith, length-ids_from db id es))
  ]

  found_entries-Refused :
      (json : PolicyJson) (id : String) (rs : List RawEntry)
      → 1 < length rs
      → Refused (found_entries json id rs)
  unfolding found_entries
  found_entries-Refused json id [] h = absurd (omega arith)
  found_entries-Refused json id (r ∷ []) h = absurd (omega arith)
  found_entries-Refused json id (r ∷ s ∷ rs) h = (_, refl, refl)

  single_id-Refused : (id : String) (es : List ℕ) → 1 < length es → Refused (single_id id es)
  unfolding single_id
  single_id-Refused id [] h = absurd (omega arith)
  single_id-Refused id (e ∷ []) h = absurd (omega arith)
  single_id-Refused id (e ∷ f ∷ es) h = (_, refl, refl)

  -- An id that the vault reports as duplicated is refused as a malformed policy by every operation
  -- on an entry: it is not found, its secret is not read, and nothing of it is changed or removed.
  pub duplicate_ids-Refused :
      (json : PolicyJson) (db : Database) (id s : String) (policy : Policy) (secret : Secret)
      → In id (duplicate_ids kp db)
      → to_json json policy ≡ parsed s
      → Refused (find_entry kp json db id)
        × Refused (read_secret kp db id)
        × Refused (update_policy kp json db id policy)
        × Refused (update_secret kp db id secret)
        × Refused (remove_entry kp db id)
  unfolding duplicate_ids raw_entries find_entry entry_id_of with_entry_mut read_secret
      update_policy update_secret remove_entry
  duplicate_ids-Refused json db id s policy secret dup j =
      let twice = (duplicates-In id (map (λ r. r.id) (raw_entries kp db))).0 dup in
      let ids = ids_from kp db id (kp.iter_all_entries db) in
      let entries = with_id id (raw_entries kp db) in
      let (e, refused, m) =
        single_id-Refused id ids
          (omega (arith, twice, length-ids_from db id (kp.iter_all_entries db))) in
      (
        found_entries-Refused json id entries
            (omega (arith, twice, length-with_id id (raw_entries kp db))),
        (e, rw refused refl, m),
        (e, rw (j, refused) refl, m),
        (e, rw refused refl, m),
        (e, rw refused refl, m),
      )
