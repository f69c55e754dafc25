-- ===== src/Entry/SetSecret.antt =====
-- src/cmd_entry.rs: from `entry set-secret` to the reading of the secret by a later command.
use kpexec.Prelude.{
  ◌≡◌, ◌≢◌, String, Bool, true, Option, some, List, [], ◌∷◌, ap, sym, ◌∙◌, subst, ltb, length,
  Bool-cases, inl, inr,
}
use kpexec.Status.{success, Outcome, kpexec_level}
use kpexec.Error.{Result, ok, err, text, debug, Message}
use kpexec.Output.Bytes.{Bytes}
use kpexec.Output.Variants.{Codec}
use kpexec.System.{done}
use kpexec.Secret.{Secret}
use kpexec.Policy.{Command, field_id}
use kpexec.Cli.{EntrySetSecretArgs}
use kpexec.Prompt.{read_secret as prompt_secret, raw_secret, validate_secret, min_secret_len}
use kpexec.Vault.{Keepass, Vault, EntryView, read_secret, update_secret, password_field}
use kpexec.Vault.Reading.{KeepassLaws, SameContent, update_secret-read, read_secret-same}
use kpexec.Vault.Save.{Format, save_atomic}
use kpexec.Vault.Save.Atomic.{save_atomic-ok}
use kpexec.Machine.{Act, Machine, pure, from_result, ◌>>=◌, ◌>>◌, print}
use kpexec.Machine.Frames.{bind-ok, then-ok}
use kpexec.Entry.{Setting, with_db, open_now, require_entry, save_and_report}
use kpexec.Entry.Handlers.{on_entry, set_secret_with, store_secret}
use kpexec.Entry.Atomic.{open_now-path}

-- What the `keepass` crate promises of its files: what was saved with a password is opened with it,
-- with the same content, and the version of the file format is no part of the content.
pub record FormatLaws {Database : Type 0} (kp : Keepass Database) (format : Format Database)
    : Type 0 where
  pub open-save :
      (db : Database) (password : String) (b : Bytes)
      → format.save db password ≡ done b
      → (db' : Database) × (format.open_db b password ≡ done db') × SameContent kp db db'
  pub pinned : (db : Database) → SameContent kp (format.pin_version db) db

validate_secret-nonempty :
    (codec : Codec) (raw : String) (secret : Secret)
    → codec.as_bytes "" ≡ []
    → validate_secret codec raw ≡ ok secret
    → secret.expose ≢ ""
unfolding validate_secret
validate_secret-nonempty codec raw secret empty h e =
    elim (Bool-cases (ltb (length (codec.as_bytes raw)) min_secret_len)) [
      | inl short ↦ cc (rw short at h)
      | inr long ↦
          let same : raw ≡ "" =
            ap (λ r. elim r [ ok t ↦ t.expose | err x ↦ raw ]) (rw long at h) ∙ e in
          let none : codec.as_bytes raw ≡ [] = ap codec.as_bytes same ∙ empty in
          let short : ltb (length (codec.as_bytes raw)) min_secret_len ≡ true = rw none in
          cc (short, long)
    ]

module _ {Database Keys : Type 0} (env : Setting Database Keys) (path : String)
    (hint : Option String) (wizard : Bool → Act Keys (List Command)) where
  save_and_report-ok :
      (vault : Vault Database) (report : Message) (s : Machine Keys) (o : Outcome)
      → (save_and_report env vault report s).0 ≡ ok o
      → ((save_atomic env.format vault s).0 ≡ ok tt)
        × ((save_and_report env vault report s).1.files ≡ (save_atomic env.format vault s).1.files)
  unfolding save_and_report
  save_and_report-ok vault report s o h =
      let (saved, e) =
        then-ok (save_atomic env.format vault) (print report >> pure (kpexec_level success)) s o
          h in
      (saved, ap (λ w. w.1.files) e)

  -- The vault's file gives, with the vault's password, a database where the secret is read for the
  -- id, and for every other id what was read before.
  abbrev pub Stored : Vault Database → String → Secret → Machine Keys → Type 0
  Stored vault id secret t =
      (b : Bytes) × (db : Database) × (t.files path ≡ some b)
      × (env.format.open_db b vault.master.expose ≡ done db)
      × (read_secret env.kp db id ≡ ok secret)
      × ((other : String)
          → other ≢ id
          → read_secret env.kp db other ≡ read_secret env.kp vault.db other)

  same_reading :
      (db db' : Database) (id : String)
      → SameContent env.kp db db'
      → read_secret env.kp db id ≡ read_secret env.kp db' id
  same_reading db db' id (i, g) =
      read_secret-same env.kp db db' id i (λ e. g e field_id) (λ e _. g e password_field)

  module _ (laws : KeepassLaws env.kp) (files : FormatLaws env.kp env.format) where
    store_secret-Stored :
        (id : String) (secret : Secret) (vault : Vault Database) (view : EntryView)
        (s : Machine Keys) (o : Outcome)
        → vault.path ≡ path
        → secret.expose ≢ ""
        → (store_secret env path hint wizard id secret vault view s).0 ≡ ok o
        → Stored vault id secret (store_secret env path hint wizard id secret vault view s).1
    store_secret-Stored id secret vault view s o own n h =
        let report : Message = text "rotated secret for entry " ∷ debug id ∷ [] in
        let (db, u, e) =
          bind-ok (from_result (update_secret env.kp vault.db id secret))
            (λ db. save_and_report env (with_db vault db) report) s o h in
        let (saved, f) =
          save_and_report-ok (with_db vault db) report s o (ap (λ w. w.0) (sym e) ∙ h) in
        let (b, c, g) = save_atomic-ok env.format (with_db vault db) s saved in
        let (db', opened, content) =
          files.open-save (env.format.pin_version db) vault.master.expose b c in
        let (read, others) = update_secret-read env.kp laws vault.db db id secret n u in
        let back : (x : String) → read_secret env.kp db' x ≡ read_secret env.kp db x = λ x.
          sym (same_reading (env.format.pin_version db) db' x content)
          ∙ same_reading (env.format.pin_version db) db x (files.pinned db) in
        (
          b,
          db',
          ap (λ w. w.1.files path) e
              ∙ ap (λ w. w path) f
              ∙ subst (λ p. (save_atomic env.format (with_db vault db) s).1.files p ≡ some b) own g,
          opened,
          back id ∙ read,
          λ x m. back x ∙ others x m,
        )

    -- Let the `keepass` crate keep its promises, and the empty text have no bytes. When `entry set-secret`
    -- returns `Ok`, the file of the vault, opened with the vault's password, gives for the id the secret that
    -- was entered, and for every other id what the vault that was opened gave.
    pub set_secret-Stored :
        (lock : Result (Unit {0})) (args : EntrySetSecretArgs) (s : Machine Keys) (o : Outcome)
        → env.codec.as_bytes "" ≡ []
        → (set_secret_with env path hint wizard lock args s).0 ≡ ok o
        → (secret : Secret) × (vault : Vault Database) × ((prompt_secret env.codec env.term
              "New secret (hidden): " args.secret_stdin s).0
            ≡ ok secret)
          × ((open_now env path hint
                (prompt_secret env.codec env.term "New secret (hidden): " args.secret_stdin s).1).0
              ≡ ok vault)
          × Stored vault args.id secret (set_secret_with env path hint wizard lock args s).1
    unfolding set_secret_with prompt_secret
    set_secret-Stored lock args s o empty h =
        let prompt : Act Keys Secret =
          prompt_secret env.codec env.term "New secret (hidden): " args.secret_stdin in
        let change : Secret → Vault Database → EntryView → Act Keys Outcome =
          store_secret env path hint wizard args.id in
        let on_vault : Secret → Vault Database → Act Keys Outcome = λ secret vault.
          from_result (require_entry env vault.db args.id) >>= change secret vault in
        let (secret, a, e₀) =
          bind-ok prompt (λ secret. on_entry env path hint wizard lock args.id (change secret)) s o
            h in
        let t = (prompt s).1 in
        let (locked, e₁) =
          then-ok (from_result lock) (open_now env path hint >>= on_vault secret) t o
            (ap (λ w. w.0) (sym e₀) ∙ h) in
        let (vault, v, e₂) =
          bind-ok (open_now env path hint) (on_vault secret) t o
            (ap (λ w. w.0) (sym e₁ ∙ sym e₀) ∙ h) in
        let u = (open_now env path hint t).1 in
        let (view, r, e₃) =
          bind-ok (from_result (require_entry env vault.db args.id)) (change secret vault) u o
            (ap (λ w. w.0) (sym e₂ ∙ sym e₁ ∙ sym e₀) ∙ h) in
        let (raw, d, e₄) =
          bind-ok (raw_secret env.codec env.term "New secret (hidden): " args.secret_stdin)
            (λ raw. from_result (validate_secret env.codec raw)) s secret a in
        let n = validate_secret-nonempty env.codec raw secret empty (ap (λ w. w.0) (sym e₄) ∙ a) in
        let all = e₀ ∙ e₁ ∙ e₂ ∙ e₃ in
        (
          secret,
          vault,
          a,
          v,
          subst (λ w. Stored vault args.id secret w.1) (sym all)
              (store_secret-Stored args.id secret vault view u o
                (open_now-path env path hint wizard t vault v) n (ap (λ w. w.0) (sym all) ∙ h)),
        )
