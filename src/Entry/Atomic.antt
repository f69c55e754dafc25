-- ===== src/Entry/Atomic.antt =====
-- src/cmd_entry.rs: a change of an entry that fails has changed nothing.
use kpexec.Prelude.{◌≡◌, refl, String, Bool, Option, List, ap, sym, ◌∙◌, subst, inl, inr}
use kpexec.Status.{success, Outcome, kpexec_level}
use kpexec.Error.{KpexecError, Result, ok, err, Message}
use kpexec.Policy.{Policy, Command}
use kpexec.Vault.{Vault, EntryView, update_policy}
use kpexec.Vault.Open.Binding.{open_vault-Bound}
use kpexec.Vault.Save.{save_atomic}
use kpexec.Vault.Save.Atomic.{save_atomic-err}
use kpexec.Machine.{Act, Machine, pure, from_result, ◌>>=◌, ◌>>◌, print}
use kpexec.Machine.Frames.{Keeps, files_of, bind-cases}
use kpexec.Db.{seeing}
use kpexec.Entry.{Setting, with_db, open_now, require_entry, save_and_report}
use kpexec.Entry.Handlers.{on_entry, save_policy}

module _ {Keys : Type 0} (path : String) where
  -- A step that leaves the file at the path as it was when it fails.
  abbrev pub Tries : {A : Type 0} → Act Keys A → Type 0
  Tries m =
      (s : Machine Keys) (e : KpexecError) → (m s).0 ≡ err e → (m s).1.files path ≡ s.files path

  -- First a step that touches no file, and then, with what it has found, one that leaves the file when it
  -- fails.
  pub bind-Tries :
      {A B : Type 0} (m : Act Keys A) (f : A → Act Keys B) (P : A → Type 0)
      → Keeps files_of m
      → ((s : Machine Keys) (a : A) → (m s).0 ≡ ok a → P a)
      → ((a : A) → P a → Tries (f a))
      → Tries (m >>= f)
  bind-Tries m f P k p t s e h = elim (bind-cases m f s) [
    | inl (x, g, q) ↦ ap (λ w. w.1.files path) q ∙ ap (λ w. w path) (k s)
    | inr (a, g, q) ↦
        ap (λ w. w.1.files path) q
        ∙ t a (p s a g) (m s).1 e (ap (λ w. w.0) (sym q) ∙ h)
        ∙ ap (λ w. w path) (k s)
  ]

  pub quiet-Tries :
      {A B : Type 0} (m : Act Keys A) (f : A → Act Keys B)
      → Keeps files_of m
      → ((a : A) → Tries (f a))
      → Tries (m >>= f)
  quiet-Tries m f k t = bind-Tries m f (λ _. Unit) k (λ s a h. tt) (λ a _. t a)

  pub check-Tries :
      {A B : Type 0} (r : Result A) (f : A → Act Keys B)
      → ((a : A) → Tries (f a))
      → Tries (from_result r >>= f)
  check-Tries r f t = quiet-Tries (from_result r) f (λ s. refl) t

module _ {Database Keys : Type 0} (env : Setting Database Keys) (path : String)
    (hint : Option String) (wizard : Bool → Act Keys (List Command)) where
  pub open_now-path :
      (s : Machine Keys) (vault : Vault Database)
      → (open_now env path hint s).0 ≡ ok vault
      → vault.path ≡ path
  unfolding open_now
  open_now-path s vault h =
      let (cred, k, (a, b, c, own, m)) =
        open_vault-Bound (seeing env.format env.sys env.codec s) env.codec env.format.open_db
          (λ account. env.store.get account s.keys) path hint vault h in
      own

  pub open_now-Keeps : Keeps files_of (open_now env path hint)
  unfolding open_now
  open_now-Keeps s = refl

  pub save_and_report-Tries :
      (vault : Vault Database) (report : Message)
      → vault.path ≡ path
      → Tries path (save_and_report env vault report)
  unfolding save_and_report
  save_and_report-Tries vault report own s e h =
      elim (bind-cases (save_atomic env.format vault)
        (λ _. print report >> pure (kpexec_level success)) s) [
          | inl (x, g, q) ↦
              ap (λ w. w.1.files path) q
              ∙ subst (λ p. (save_atomic env.format vault s).1.files p ≡ s.files p) own
                  (save_atomic-err env.format vault s x g)
          | inr (u, g, q) ↦ absurd (cc (ap (λ w. w.0) q, h))
        ]

  pub save_policy-Tries :
      (vault : Vault Database) (id : String) (policy : Policy) (report : Message)
      → vault.path ≡ path
      → Tries path (save_policy env path hint wizard vault id policy report)
  save_policy-Tries vault id policy report own =
      check-Tries path (update_policy env.kp env.json vault.db id policy)
        (λ db. save_and_report env (with_db vault db) report)
        (λ db. save_and_report-Tries (with_db vault db) report own)

  pub on_entry-Tries :
      (lock : Result (Unit {0})) (id : String)
      (change : Vault Database → EntryView → Act Keys Outcome)
      → ((vault : Vault Database) (view : EntryView)
          → vault.path ≡ path
          → Tries path (change vault view))
      → Tries path (on_entry env path hint wizard lock id change)
  on_entry-Tries lock id change t =
      check-Tries path lock
        (λ _. open_now env path hint >>= λ vault.
          from_result (require_entry env vault.db id) >>= λ view. change vault view)
        (λ _.
          bind-Tries path (open_now env path hint)
            (λ vault. from_result (require_entry env vault.db id) >>= λ view. change vault view)
            (λ vault. vault.path ≡ path) open_now-Keeps open_now-path
            (λ vault own.
              check-Tries path (require_entry env vault.db id) (change vault)
                (λ view. t vault view own)))
