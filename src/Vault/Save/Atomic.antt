-- ===== src/Vault/Save/Atomic.antt =====
-- src/vault.rs: what a save leaves, whatever fails.
use kpexec.Prelude.{[], ◌≡◌, refl, String, Bool, true, false, ap, sym, ◌∙◌, some, Option}
use kpexec.Error.{KpexecError, Result, ok, err, Message}
use kpexec.Output.Bytes.{Bytes}
use kpexec.System.{Io, done, failed}
use kpexec.Machine.{Machine}
use kpexec.Machine.Files.{write, sync, rename, exists}
use kpexec.Machine.Frames.{
  Keeps, Blind, file_at, file_at-Blind, keys_of, keys_of-Blind, then-Keeps, attempt-Keeps,
  write-Keeps, sync-Keeps, rename-Keeps, copy-Keeps, remove-Keeps, str_eq-false, rename-failed,
  rename-done, attempt-err, then-err, write-done, siblings_differ, sibling_differs, Fails, then-ok,
  attempt-ok,
}
use kpexec.Vault.{Vault}
use kpexec.Vault.Save.{
  Format, tmp_sibling, bak_sibling, tmp_suffix, bak_suffix, give_up, no_dir, no_tmp, save_text,
  fsync_text, rename_text, begin, fill, make_dir, create_tmp, save_tmp, fsync_tmp, write_tmp,
  backup_if, backup, replace, prepare, serialized, save_atomic,
}

module _ {Keys : Type 0} where
  -- What is observed is none of the files that a save of the vault writes before its renaming.
  abbrev pub Aside : {X : Type 0} → String → (Machine Keys → X) → Type 0
  Aside path g = Blind g (tmp_sibling path) × Blind g (bak_sibling path)

  pub vault-Aside : (path : String) → Aside path (file_at path)
  vault-Aside path = (
    file_at-Blind path (tmp_sibling path)
        (sibling_differs path tmp_suffix (str_eq-false tmp_suffix "" refl)),
    file_at-Blind path (bak_sibling path)
        (sibling_differs path bak_suffix (str_eq-false bak_suffix "" refl)),
  )

  bak_tmp : (path : String) → Blind {Keys = Keys} (file_at (tmp_sibling path)) (bak_sibling path)
  bak_tmp path =
      file_at-Blind (tmp_sibling path) (bak_sibling path)
        (siblings_differ path bak_suffix tmp_suffix (str_eq-false bak_suffix tmp_suffix refl))

  write_tmp-Keeps :
      {X : Type 0} (tmp : String) (g : Machine Keys → X) (content : Io Bytes)
      → Blind g tmp
      → Keeps g (write_tmp tmp content)
  write_tmp-Keeps tmp g (failed e) n = remove-Keeps g tmp n
  write_tmp-Keeps tmp g (done b) n =
      then-Keeps g (save_tmp tmp b) (fsync_tmp tmp)
        (attempt-Keeps g (write tmp b) (give_up tmp save_text) (write-Keeps g tmp b n)
          (λ e. remove-Keeps g tmp n))
        (attempt-Keeps g sync (give_up tmp fsync_text) (sync-Keeps g n.0)
          (λ e. remove-Keeps g tmp n))

  backup-Keeps :
      {X : Type 0} (path : String) (g : Machine Keys → X)
      → Blind g (bak_sibling path)
      → Keeps g (backup path)
  backup-Keeps path g n s = go (exists path s)
    where
      go : (b : Bool) → g (backup_if b path s).1 ≡ g s
      go true = copy-Keeps g path (bak_sibling path) n s
      go false = refl

  begin-Keeps :
      {X : Type 0} (dir : Option String) (path : String) (g : Machine Keys → X)
      → Blind g (tmp_sibling path)
      → Keeps g (begin dir path)
  begin-Keeps dir path g n =
      then-Keeps g (make_dir dir) (create_tmp (tmp_sibling path))
        (attempt-Keeps g sync (no_dir dir) (sync-Keeps g n.0) (λ e s. refl))
        (attempt-Keeps g (write (tmp_sibling path) []) no_tmp
          (write-Keeps g (tmp_sibling path) [] n) (λ e s. refl))

  prepare-Keeps :
      {X : Type 0} (dir : Option String) (path : String) (g : Machine Keys → X) (content : Io Bytes)
      → Aside path g
      → Keeps g (prepare dir path content)
  prepare-Keeps dir path g content (n, m) =
      then-Keeps g (begin dir path) (fill path content) (begin-Keeps dir path g n) (
        then-Keeps g (write_tmp (tmp_sibling path) content) (backup path)
          (write_tmp-Keeps (tmp_sibling path) g content n) (backup-Keeps path g m))

  -- After a preparation that succeeds, the temporary file has what was serialized.
  give_up-Fails : (tmp : String) (m : Message) (e : String) → Fails {Keys = Keys} (give_up tmp m e)
  give_up-Fails tmp m e s a h = cc

  write_tmp-ok :
      (tmp : String) (content : Io Bytes) (s : Machine Keys)
      → (write_tmp tmp content s).0 ≡ ok tt
      → (b : Bytes) × (content ≡ done b) × ((write_tmp tmp content s).1.files tmp ≡ some b)
  write_tmp-ok tmp (failed e) s h = absurd (give_up-Fails tmp save_text e s tt h)
  write_tmp-ok tmp (done b) s h =
      let (saved, e) = then-ok (save_tmp tmp b) (fsync_tmp tmp) s tt h in
      let (wrote, e') =
        attempt-ok (write tmp b) (give_up tmp save_text) s tt (give_up-Fails tmp save_text) saved in
      let synced =
        attempt-ok sync (give_up tmp fsync_text) (save_tmp tmp b s).1 tt
          (give_up-Fails tmp fsync_text) (rw e at h) in
      (
        b,
        refl,
        ap (λ r. r.1.files tmp) e
            ∙ ap (λ t. t.files tmp) synced.1
            ∙ sync-Keeps (file_at tmp) (λ s. refl) (save_tmp tmp b s).1
            ∙ ap (λ t. t.files tmp) e'
            ∙ write-done tmp b s wrote,
      )

  prepare-ok :
      (dir : Option String) (path : String) (content : Io Bytes) (s : Machine Keys)
      → (prepare dir path content s).0 ≡ ok tt
      → (b : Bytes) × (content ≡ done b)
        × ((prepare dir path content s).1.files (tmp_sibling path) ≡ some b)
  prepare-ok dir path content s h =
      let tmp = tmp_sibling path in
      let (begun, e) = then-ok (begin dir path) (fill path content) s tt h in
      let t = (begin dir path s).1 in
      let (wrote, e') =
        then-ok (write_tmp tmp content) (backup path) t tt (ap (λ r. r.0) (sym e) ∙ h) in
      let (b, c, f) = write_tmp-ok tmp content t wrote in
      (
        b,
        c,
        ap (λ r. r.1.files tmp) e
            ∙ ap (λ r. r.1.files tmp) e'
            ∙ backup-Keeps path (file_at tmp) (bak_tmp path) (write_tmp tmp content t).1
            ∙ f,
      )

  -- The renaming that fails leaves the vault file, and then only the temporary file is removed.
  replace-failed :
      (path : String) (s : Machine Keys) (e : KpexecError)
      → (replace path s).0 ≡ err e
      → (replace path s).1.files path ≡ s.files path
  replace-failed path s e h =
      let tmp = tmp_sibling path in
      attempt-err path (rename tmp path) (give_up tmp rename_text) s e
        (λ x. rename-failed tmp path path x s)
        (λ x. remove-Keeps (file_at path) tmp (vault-Aside path).0) h

  replace-Keeps :
      {X : Type 0} (path : String) (g : Machine Keys → X)
      → Blind g (tmp_sibling path)
      → Blind g path
      → Keeps g (replace path)
  replace-Keeps path g n p =
      let tmp = tmp_sibling path in
      attempt-Keeps g (rename tmp path) (give_up tmp rename_text) (rename-Keeps g tmp path n p)
        (λ x. remove-Keeps g tmp n)

  replace-ok :
      (path : String) (s : Machine Keys)
      → (replace path s).0 ≡ ok tt
      → (replace path s).1.files path ≡ s.files (tmp_sibling path)
  replace-ok path s h =
      let tmp = tmp_sibling path in
      let (renamed, e) =
        attempt-ok (rename tmp path) (give_up tmp rename_text) s tt (give_up-Fails tmp rename_text)
          h in
      ap (λ t. t.files path) e ∙ rename-done tmp path s renamed

-- What a save does to the vault's file: nothing where it fails, else it is the new content.
abbrev pub Saved : Result (Unit {0}) → Option Bytes → Option Bytes → Io Bytes → Type 0
Saved (err e) before after content = after ≡ before
Saved (ok _) before after content = (b : Bytes) × (content ≡ done b) × (after ≡ some b)

module _ {Database : Type 0} (format : Format Database) {Keys : Type 0} where
  pub save_atomic-err :
      (vault : Vault Database) (s : Machine Keys) (e : KpexecError)
      → (save_atomic format vault s).0 ≡ err e
      → (save_atomic format vault s).1.files vault.path ≡ s.files vault.path
  unfolding save_atomic
  save_atomic-err vault s e h =
      then-err vault.path (prepare (format.parent vault.path) vault.path (serialized format vault))
        (replace vault.path) s e
        (prepare-Keeps (format.parent vault.path) vault.path (file_at vault.path)
          (serialized format vault) (vault-Aside vault.path))
        (λ t. replace-failed vault.path t e) h

  pub save_atomic-ok :
      (vault : Vault Database) (s : Machine Keys)
      → (save_atomic format vault s).0 ≡ ok tt
      → (b : Bytes) × (serialized format vault ≡ done b)
        × ((save_atomic format vault s).1.files vault.path ≡ some b)
  unfolding save_atomic
  save_atomic-ok vault s h =
      let prep = prepare (format.parent vault.path) vault.path (serialized format vault) in
      let (prepared, e) = then-ok prep (replace vault.path) s tt h in
      let (b, c, f) =
        prepare-ok (format.parent vault.path) vault.path (serialized format vault) s prepared in
      (
        b,
        c,
        ap (λ r. r.1.files vault.path) e
            ∙ replace-ok vault.path (prep s).1 (ap (λ r. r.0) (sym e) ∙ h)
            ∙ f,
      )

  -- A save, failed or not, changes nothing but the vault's file and the two beside it.
  pub save_atomic-Keeps :
      {X : Type 0} (vault : Vault Database) (g : Machine Keys → X)
      → Aside vault.path g
      → Blind g vault.path
      → Keeps g (save_atomic format vault)
  unfolding save_atomic
  save_atomic-Keeps vault g a p =
      then-Keeps g (prepare (format.parent vault.path) vault.path (serialized format vault))
        (replace vault.path)
        (prepare-Keeps (format.parent vault.path) vault.path g (serialized format vault) a)
        (replace-Keeps vault.path g a.0 p)

  -- Whichever file operations fail, and wherever they stop: a save that returns an error leaves the
  -- file at the vault's path exactly as it was, and one that returns `Ok` leaves there exactly what
  -- the database serialized to, in the pinned version and under the vault's password.
  pub save_atomic-Saved :
      (vault : Vault Database) (s : Machine Keys)
      → Saved
          (save_atomic format vault s).0
          (s.files vault.path)
          ((save_atomic format vault s).1.files vault.path)
          (serialized format vault)
  save_atomic-Saved vault s = go (save_atomic format vault s).0 refl
    where
      go :
          (r : Result (Unit {0}))
          → (save_atomic format vault s).0 ≡ r
          → Saved r
              (s.files vault.path)
              ((save_atomic format vault s).1.files vault.path)
              (serialized format vault)
      go (ok tt) e = save_atomic-ok vault s e
      go (err x) e = save_atomic-err vault s x e

  pub save_atomic-Keeps_keys :
      (vault : Vault Database) → Keeps {Keys = Keys} keys_of (save_atomic format vault)
  save_atomic-Keeps_keys vault =
      save_atomic-Keeps vault keys_of
        (keys_of-Blind (tmp_sibling vault.path), keys_of-Blind (bak_sibling vault.path))
        (keys_of-Blind vault.path)
