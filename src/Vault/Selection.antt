-- ===== src/Vault/Selection.antt =====
-- src/vault.rs: which secret is read for an id.
use kpexec.Prelude.{
  ℕ, ◌==◌, ◌≡◌, ◌≢◌, refl, String, true, Option, none, some, List, [], ◌∷◌, arith, ◌↔◌, str_eq,
  str_eq_iff, In, Bool-cases, inl, inr, ap, sym, subst,
}
use kpexec.Error.{ok, err, >>=-eq-ok}
use kpexec.Secret.{Secret}
use kpexec.Policy.{field_id}
use kpexec.Vault.{
  Keepass, ids_from, entry_id_of, single_id, read_secret, secret_from, secret_of, password_field,
  is_some_eq,
}

is_some_eq_iff : (o : Option String) (id : String) → (is_some_eq o id ≡ true) ↔ (o ≡ some id)
is_some_eq_iff none id = (λ h. cc, λ h. cc)
is_some_eq_iff (some s) id = (λ h. ap some ((str_eq_iff s id).0 h), λ h. (str_eq_iff s id).1 (cc))

pub single_id-ok : (id : String) (es : List ℕ) {e : ℕ} → single_id id es ≡ ok e → es ≡ e ∷ []
unfolding single_id
single_id-ok id [] h = cc
single_id-ok id (e ∷ []) h = cc
single_id-ok id (e ∷ f ∷ es) h = cc

secret_of-ok :
    (id : String) (o : Option String) (s : Secret)
    → secret_of id o ≡ ok s
    → (o ≡ some s.expose) × (s.expose ≢ "")
secret_of-ok id none s h = cc
secret_of-ok id (some p) s h = elim (Bool-cases (str_eq p "")) [
  | inl empty ↦ absurd (cc (rw empty at h))
  | inr full ↦
      let same : p ≡ s.expose = ap (λ r. elim r [ ok t ↦ t.expose | err e ↦ p ]) (rw full at h) in
      (ap some same, λ e. cc ((str_eq_iff p "").1 (cc), full))
]

module _ {Database : Type 0} (kp : Keepass Database) where
  pub In-ids_from :
      (db : Database) (id : String) (es : List ℕ) (e : ℕ)
      → In e (ids_from kp db id es) ↔ (In e es × (kp.get db e field_id ≡ some id))
  unfolding ids_from
  In-ids_from db id [] e = (λ i. elim i [ ], λ (i, _). elim i [ ])
  In-ids_from db id (f ∷ es) e = elim (Bool-cases (is_some_eq (kp.get db f field_id) id)) [
    | inl same ↦ rw same (
      λ i. elim i [
        | inl q ↦ (inl q, cc (q, (is_some_eq_iff (kp.get db f field_id) id).0 same))
        | inr j ↦ let (k, g) = (In-ids_from db id es e).0 j in (inr k, g)
      ],
      λ (i, g). elim i [ inl q ↦ inl q | inr j ↦ inr ((In-ids_from db id es e).1 (j, g)) ],
    )
    | inr other ↦ rw other (
      λ i. let (k, g) = (In-ids_from db id es e).0 i in (inr k, g),
      λ (i, g). elim i [
        | inl q ↦ absurd (cc ((is_some_eq_iff (kp.get db f field_id) id).1 (cc (q, g)), other))
        | inr j ↦ (In-ids_from db id es e).1 (j, g)
      ],
    )
  ]

  secret_from-ok :
      (db : Database) (id : String) (e : ℕ) (es : List ℕ) (s : Secret)
      → secret_from kp db id e es ≡ ok s
      → (kp.get db e password_field ≡ some s.expose) × (s.expose ≢ "")
  unfolding secret_from
  secret_from-ok db id e [] s h = cc
  secret_from-ok db id e (f ∷ es) s h = elim (Bool-cases (f == e)) [
    | inr other ↦ secret_from-ok db id e es s (rw other at h)
    | inl same ↦
        let k : f ≡ e = ground arith in
        rw k at (secret_of-ok id (kp.get db f password_field) s (rw same at h))
  ]

  -- The secret that is read for an id is the nonempty password of the one entry that has this id.
  pub read_secret_sound :
      (db : Database) (id : String) (s : Secret)
      → read_secret kp db id ≡ ok s
      → (e : ℕ) × In e (kp.iter_all_entries db)
        × (kp.get db e field_id ≡ some id)
        × ((f : ℕ) → In f (kp.iter_all_entries db) → kp.get db f field_id ≡ some id → f ≡ e)
        × (kp.get db e password_field ≡ some s.expose)
        × (s.expose ≢ "")
  unfolding read_secret entry_id_of
  read_secret_sound db id s h =
      let all = kp.iter_all_entries db in
      let (e, one, h₁) = >>=-eq-ok (single_id id (ids_from kp db id all)) _ h in
      let only = single_id-ok id (ids_from kp db id all) one in
      let (i, k) = (In-ids_from db id all e).0 (subst (In e) (sym only) (inl refl)) in
      let (p, n) = secret_from-ok db id e all s h₁ in
      (e, i, k, λ f j g. single (rw only at ((In-ids_from db id all f).1 (j, g))), p, n)
    where
      single : {f e : ℕ} → In f (e ∷ []) → f ≡ e
      single (inl q) = q
      single (inr i) = elim i [ ]
