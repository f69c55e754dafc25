-- ===== src/Machine/Frames.antt =====
-- Which files a step leaves as they are, and what a successful one writes.
use text.Mathlib.TextLemmas.{append_cancel_left, append-nil as push-nil}
use Prim.Native.String.{◌++◌ as push_str}
use kpexec.Prelude.{
  ◌≡◌, ◌≢◌, refl, String, true, false, Option, none, some, List, [], ◌∷◌, ◌++◌, str_eq, str_eq_iff,
  inl, inr, ◌⊎◌, ap, sym, ◌∙◌, arith,
}
use kpexec.Error.{KpexecError, Result, ok, err, Message}
use kpexec.Output.Bytes.{Bytes}
use kpexec.System.{Io, done, failed}
use kpexec.Machine.{
  Fault, fine, fault, Machine, Call, Act, used, next, raise, ◌>>=◌, ◌>>◌, continue, attempt, ◌>=>◌,
  go_on, recover, or_handle, emit, emit_at, read_input, line_at, or_else,
}
use kpexec.Machine.Files.{
  read, as_io, found_at, put, write_at, write, sync_at, sync, rename_at, rename, copy_at, copy,
  remove_at, remove,
}

pub str_ne : (s t : String) → s ≢ t → str_eq s t ≡ false
str_ne s t n = ground (arith, str_eq_iff s t)

pub str_eq-false : (s t : String) → str_eq s t ≡ false → s ≢ t
str_eq-false s t h = ground (arith, str_eq_iff s t)

-- Two siblings of a path with different suffixes are different.
pub siblings_differ :
    (path s t : String) → s ≢ t → str_eq (push_str path s) (push_str path t) ≡ false
siblings_differ path s t n = str_ne _ _ (λ e. n (append_cancel_left path s t e))

pub sibling_differs : (path s : String) → s ≢ "" → str_eq (push_str path s) path ≡ false
sibling_differs path s n =
    str_ne _ _ (λ e. n (append_cancel_left path s "" (e ∙ sym (push-nil path))))

module _ {Keys : Type 0} where
  -- What is observed of the machine is as it was, whatever the step comes to.
  abbrev pub CallKeeps : {A X : Type 0} → (Machine Keys → X) → Call Keys A → Type 0
  CallKeeps g c = (s : Machine Keys) → g (c s).1 ≡ g s

  abbrev pub Keeps : {A X : Type 0} → (Machine Keys → X) → Act Keys A → Type 0
  Keeps g m = (s : Machine Keys) → g (m s).1 ≡ g s

  abbrev pub file_at : String → Machine Keys → Option Bytes
  file_at q s = s.files q

  abbrev pub keys_of : Machine Keys → Keys
  keys_of s = s.keys

  -- An observation that sees neither the faults that are used nor the file at the path.
  abbrev pub Blind : {X : Type 0} → (Machine Keys → X) → String → Type 0
  Blind g p =
      ((s : Machine Keys) → g (used s) ≡ g s)
      × ((v : Option Bytes) (s : Machine Keys) → g (put p v s) ≡ g s)

  pub file_at-Blind : (q p : String) → str_eq p q ≡ false → Blind (file_at q) p
  file_at-Blind q p n = (λ s. refl, λ v s. rw n)

  pub keys_of-Blind : (p : String) → Blind keys_of p
  keys_of-Blind p = (λ s. refl, λ v s. refl)

  pub write-Keeps :
      {X : Type 0} (g : Machine Keys → X) (p : String) (b : Bytes)
      → Blind g p
      → CallKeeps g (write p b)
  unfolding write
  write-Keeps g p b (u, w) s = go (next s.faults)
    where
      go : (f : Fault) → g (write_at f p b (used s)).1 ≡ g s
      go fine = w (some b) (used s) ∙ u s
      go (fault e left) = w left (used s) ∙ u s

  pub sync-Keeps :
      {X : Type 0} (g : Machine Keys → X)
      → ((s : Machine Keys) → g (used s) ≡ g s)
      → CallKeeps g sync
  unfolding sync
  sync-Keeps g u s = go (next s.faults)
    where
      go : (f : Fault) → g (sync_at f (used s)).1 ≡ g s
      go fine = u s
      go (fault e left) = u s

  pub rename-Keeps :
      {X : Type 0} (g : Machine Keys → X) (a b : String)
      → Blind g a
      → Blind g b
      → CallKeeps g (rename a b)
  unfolding rename
  rename-Keeps g a b (u, w) (u', w') s = go (next s.faults) (s.files a)
    where
      go : (f : Fault) (v : Option Bytes) → g (rename_at f v a b (used s)).1 ≡ g s
      go fine (some v) = w' (some v) (put a none (used s)) ∙ w none (used s) ∙ u s
      go fine none = u s
      go (fault e left) v = u s

  pub copy-Keeps :
      {X : Type 0} (g : Machine Keys → X) (a b : String) → Blind g b → CallKeeps g (copy a b)
  unfolding copy
  copy-Keeps g a b (u, w) s = go (next s.faults) (s.files a)
    where
      go : (f : Fault) (v : Option Bytes) → g (copy_at f v b (used s)).1 ≡ g s
      go fine (some v) = w (some v) (used s) ∙ u s
      go fine none = u s
      go (fault e left) v = w left (used s) ∙ u s

  pub remove-Keeps :
      {X : Type 0} (g : Machine Keys → X) (p : String) → Blind g p → CallKeeps g (remove p)
  unfolding remove
  remove-Keeps g p (u, w) s = go (next s.faults)
    where
      go : (f : Fault) → g (remove_at f p (used s)).1 ≡ g s
      go fine = w none (used s) ∙ u s
      go (fault e left) = u s

  pub bind-Keeps :
      {A B X : Type 0} (g : Machine Keys → X) (m : Act Keys A) (f : A → Act Keys B)
      → Keeps g m
      → ((a : A) → Keeps g (f a))
      → Keeps g (m >>= f)
  bind-Keeps {A} {B} g m f k h s = go (m s).0 ∙ k s
    where
      go : (r : Result A) → g (continue r f (m s).1).1 ≡ g (m s).1
      go (ok a) = h a (m s).1
      go (err e) = refl

  pub then-Keeps :
      {B X : Type 0} (g : Machine Keys → X) (m : Act Keys (Unit {0})) (k : Act Keys B)
      → Keeps g m
      → Keeps g k
      → Keeps g (m >> k)
  then-Keeps g m k h i = bind-Keeps g m (λ _. k) h (λ _. i)

  pub attempt-Keeps :
      {A X : Type 0} (g : Machine Keys → X) (c : Call Keys A) (f : String → Act Keys A)
      → CallKeeps g c
      → ((e : String) → Keeps g (f e))
      → Keeps g (attempt c f)
  attempt-Keeps {A} g c f k h s = go (c s).0 ∙ k s
    where
      go : (r : Io A) → g (or_else r f (c s).1).1 ≡ g (c s).1
      go (done a) = refl
      go (failed e) = h e (c s).1

  pub chain-Keeps :
      {X : Type 0} (g : Machine Keys → X) (c d : Call Keys (Unit {0}))
      → CallKeeps g c
      → CallKeeps g d
      → CallKeeps g (c >=> d)
  chain-Keeps g c d h i s = go (c s).0 ∙ h s
    where
      go : (r : Io (Unit {0})) → g (go_on r d (c s).1).1 ≡ g (c s).1
      go (done a) = i (c s).1
      go (failed e) = refl

  pub recover-Keeps :
      {A X : Type 0} (g : Machine Keys → X) (m : Act Keys A) (f : KpexecError → Act Keys A)
      → Keeps g m
      → ((e : KpexecError) → Keeps g (f e))
      → Keeps g (recover m f)
  recover-Keeps {A} g m f k h s = go (m s).0 ∙ k s
    where
      go : (r : Result A) → g (or_handle r f (m s).1).1 ≡ g (m s).1
      go (ok a) = refl
      go (err e) = h e (m s).1

  -- A renaming that fails changes nothing; one that succeeds moves the file.
  pub rename-failed :
      (a b q e : String) (s : Machine Keys)
      → (rename a b s).0 ≡ failed e
      → (rename a b s).1.files q ≡ s.files q
  unfolding rename
  rename-failed a b q e s h = go (next s.faults) (s.files a) h
    where
      go :
          (f : Fault) (v : Option Bytes)
          → (rename_at f v a b (used s)).0 ≡ failed e
          → (rename_at f v a b (used s)).1.files q ≡ s.files q
      go fine (some v) h = cc
      go fine none h = refl
      go (fault e left) v h = refl

  pub rename-done :
      (a b : String) (s : Machine Keys)
      → (rename a b s).0 ≡ done tt
      → (rename a b s).1.files b ≡ s.files a
  unfolding rename
  rename-done a b s h = go (next s.faults) (s.files a) h
    where
      same : str_eq b b ≡ true
      same = (str_eq_iff b b).1 refl

      go :
          (f : Fault) (v : Option Bytes)
          → (rename_at f v a b (used s)).0 ≡ done tt
          → (rename_at f v a b (used s)).1.files b ≡ v
      go fine (some v) h = rw same
      go fine none h = cc
      go (fault e left) v h = cc

  pub write-done :
      (p : String) (b : Bytes) (s : Machine Keys)
      → (write p b s).0 ≡ done tt
      → (write p b s).1.files p ≡ some b
  unfolding write
  write-done p b s h = go (next s.faults) h
    where
      same : str_eq p p ≡ true
      same = (str_eq_iff p p).1 refl

      go :
          (f : Fault)
          → (write_at f p b (used s)).0 ≡ done tt
          → (write_at f p b (used s)).1.files p ≡ some b
      go fine h = rw same
      go (fault e left) h = cc

  -- A step that never succeeds.
  abbrev pub Fails : {A : Type 0} → Act Keys A → Type 0
  Fails {A} m = (s : Machine Keys) (a : A) → (m s).0 ≡ ok a → ⊥

  pub bind-ok :
      {A B : Type 0} (m : Act Keys A) (f : A → Act Keys B) (s : Machine Keys) (b : B)
      → ((m >>= f) s).0 ≡ ok b
      → (a : A) × ((m s).0 ≡ ok a) × ((m >>= f) s ≡ f a (m s).1)
  bind-ok {A} {B} m f s b h = go (m s).0 h
    where
      go :
          (r : Result A)
          → (continue r f (m s).1).0 ≡ ok b
          → (a : A) × (r ≡ ok a) × (continue r f (m s).1 ≡ f a (m s).1)
      go (ok a) h = (a, refl, refl)
      go (err e) h = cc

  pub then-ok :
      {B : Type 0} (m : Act Keys (Unit {0})) (k : Act Keys B) (s : Machine Keys) (b : B)
      → ((m >> k) s).0 ≡ ok b
      → ((m s).0 ≡ ok tt) × ((m >> k) s ≡ k (m s).1)
  then-ok m k s b h = let (u, d, e) = bind-ok m (λ _. k) s b h in (d, e)

  pub attempt-ok :
      {A : Type 0} (c : Call Keys A) (f : String → Act Keys A) (s : Machine Keys) (a : A)
      → ((e : String) → Fails (f e))
      → (attempt c f s).0 ≡ ok a
      → ((c s).0 ≡ done a) × ((attempt c f s).1 ≡ (c s).1)
  attempt-ok {A} c f s a fails h = go (c s).0 h
    where
      go :
          (r : Io A)
          → (or_else r f (c s).1).0 ≡ ok a
          → (r ≡ done a) × ((or_else r f (c s).1).1 ≡ (c s).1)
      go (done b) h = (ap (λ r. elim r [ ok x ↦ done x | err _ ↦ done b ]) h, refl)
      go (failed e) h = absurd (fails e (c s).1 a h)

  -- A call that changes the file only when it succeeds.
  pub attempt-err :
      {A : Type 0} (q : String) (c : Call Keys A) (f : String → Act Keys A) (s : Machine Keys)
      (x : KpexecError)
      → ((e : String) → (c s).0 ≡ failed e → (c s).1.files q ≡ s.files q)
      → ((e : String) → Keeps (file_at q) (f e))
      → (attempt c f s).0 ≡ err x
      → (attempt c f s).1.files q ≡ s.files q
  attempt-err {A} q c f s x k i h = go (c s).0 (k) h
    where
      go :
          (r : Io A)
          → ((e : String) → r ≡ failed e → (c s).1.files q ≡ s.files q)
          → (or_else r f (c s).1).0 ≡ err x
          → (or_else r f (c s).1).1.files q ≡ s.files q
      go (done a) k h = cc
      go (failed e) k h = i e (c s).1 ∙ k e refl

  -- A sequence whose first part keeps the file, and whose second part does when it fails.
  pub then-err :
      {B : Type 0} (q : String) (m : Act Keys (Unit {0})) (k : Act Keys B) (s : Machine Keys)
      (x : KpexecError)
      → Keeps (file_at q) m
      → ((t : Machine Keys) → (k t).0 ≡ err x → (k t).1.files q ≡ t.files q)
      → ((m >> k) s).0 ≡ err x
      → ((m >> k) s).1.files q ≡ s.files q
  then-err {B} q m k s x h i f = go (m s).0 f ∙ h s
    where
      go :
          (r : Result (Unit {0}))
          → (continue r (λ _. k) (m s).1).0 ≡ err x
          → (continue r (λ _. k) (m s).1).1.files q ≡ (m s).1.files q
      go (ok a) f = i (m s).1 f
      go (err e) f = refl

  pub chain-done :
      (c d : Call Keys (Unit {0})) (s : Machine Keys)
      → ((c >=> d) s).0 ≡ done tt
      → ((c s).0 ≡ done tt) × ((c >=> d) s ≡ d (c s).1)
  chain-done c d s h = go (c s).0 h
    where
      go :
          (r : Io (Unit {0}))
          → (go_on r d (c s).1).0 ≡ done tt
          → (r ≡ done tt) × (go_on r d (c s).1 ≡ d (c s).1)
      go (done tt) h = (refl, refl)
      go (failed e) h = cc

  pub recover-ok :
      {A : Type 0} (m : Act Keys A) (f : KpexecError → Act Keys A) (s : Machine Keys) (a : A)
      → ((e : KpexecError) → Fails (f e))
      → (recover m f s).0 ≡ ok a
      → ((m s).0 ≡ ok a) × ((recover m f s).1 ≡ (m s).1)
  recover-ok {A} m f s a fails h = go (m s).0 h
    where
      go :
          (r : Result A)
          → (or_handle r f (m s).1).0 ≡ ok a
          → (r ≡ ok a) × ((or_handle r f (m s).1).1 ≡ (m s).1)
      go (ok b) h = (h, refl)
      go (err e) h = absurd (fails e (m s).1 a h)

  pub recover-err :
      {A : Type 0} (m : Act Keys A) (f : KpexecError → Act Keys A) (s : Machine Keys)
      (x : KpexecError)
      → (recover m f s).0 ≡ err x
      → (e : KpexecError) × ((m s).0 ≡ err e) × (recover m f s ≡ f e (m s).1)
  recover-err {A} m f s x h = go (m s).0 h
    where
      go :
          (r : Result A)
          → (or_handle r f (m s).1).0 ≡ err x
          → (e : KpexecError) × (r ≡ err e) × (or_handle r f (m s).1 ≡ f e (m s).1)
      go (ok b) h = cc
      go (err e) h = (e, refl, refl)

  pub emit-Keeps :
      {X : Type 0} (g : Machine Keys → X) (m : Message)
      → ((s : Machine Keys) → g (used s) ≡ g s)
      → ((l : List Message) (s : Machine Keys) → g (record s { printed = l }) ≡ g s)
      → CallKeeps g (emit m)
  unfolding emit
  emit-Keeps g m u w s = go (next s.faults)
    where
      go : (f : Fault) → g (emit_at f m (used s)).1 ≡ g s
      go fine = w ((used s).printed ++ (m ∷ [])) (used s) ∙ u s
      go (fault e left) = u s

  pub remove-done :
      (p : String) (s : Machine Keys) → (remove p s).0 ≡ done tt → (remove p s).1.files p ≡ none
  unfolding remove
  remove-done p s h = go (next s.faults) h
    where
      same : str_eq p p ≡ true
      same = (str_eq_iff p p).1 refl

      go :
          (f : Fault)
          → (remove_at f p (used s)).0 ≡ done tt
          → (remove_at f p (used s)).1.files p ≡ none
      go fine h = rw same
      go (fault e left) h = cc

  pub read-done :
      (p : String) (b : Bytes) (s : Machine Keys) → (read p s).0 ≡ done b → s.files p ≡ some b
  read-done p b s h = go (next s.faults) (s.files p) h
    where
      go : (f : Fault) (v : Option Bytes) → as_io (found_at f v) ≡ done b → v ≡ some b
      go fine (some c) h = cc
      go fine none h = cc
      go (fault e left) v h = cc

  -- A sequence stops at its first part, or goes on to the second.
  pub bind-cases :
      {A B : Type 0} (m : Act Keys A) (f : A → Act Keys B) (s : Machine Keys)
      → ((x : KpexecError) × ((m s).0 ≡ err x) × ((m >>= f) s ≡ (err x, (m s).1)))
        ⊎ ((a : A) × ((m s).0 ≡ ok a) × ((m >>= f) s ≡ f a (m s).1))
  bind-cases {A} {B} m f s = go (m s).0
    where
      go :
          (r : Result A)
          → ((x : KpexecError) × (r ≡ err x) × (continue r f (m s).1 ≡ (err x, (m s).1)))
            ⊎ ((a : A) × (r ≡ ok a) × (continue r f (m s).1 ≡ f a (m s).1))
      go (ok a) = inr (a, refl, refl)
      go (err e) = inl (e, refl, refl)

  -- A call with its error: the state is the call's where the handler changes none.
  pub attempt-same :
      {A : Type 0} (c : Call Keys A) (f : String → KpexecError) (s : Machine Keys)
      → (attempt c (λ e. raise (f e)) s).1 ≡ (c s).1
  attempt-same {A} c f s = go (c s).0
    where
      go : (r : Io A) → (or_else r (λ e. raise (f e)) (c s).1).1 ≡ (c s).1
      go (done a) = refl
      go (failed e) = refl

  abbrev pub files_of : Machine Keys → String → Option Bytes
  files_of s = s.files

  pub read_input-Keeps : CallKeeps files_of read_input
  unfolding read_input
  read_input-Keeps s = go (next s.faults) s.input
    where
      go : (f : Fault) (ls : List String) → (line_at f ls (used s)).1.files ≡ s.files
      go fine [] = refl
      go fine (l ∷ ls) = refl
      go (fault e left) ls = refl
