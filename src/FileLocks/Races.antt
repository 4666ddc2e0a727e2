-- ===== src/FileLocks/Races.antt =====
-- What tasks get that ask for the same lock file.
use fileloft.Base.{
  ℕ, ◌≡◌, ◌≢◌, refl, ap, sym, ◌∙◌, inl, inr, ◌⊎◌, Bool, true, false, ◌||◌, Option, none, some, List,
  [], ◌∷◌, leb, if◌then◌else◌, Bool-cases,
}
use fileloft.Error.{TusError, ok, err}
use fileloft.Exec.{pure, ◌>>=◌, ◌>>◌}
use fileloft.Info.Id.{UploadId}
use fileloft.Disk.{FilePath}
use fileloft.Files.Store.{io_result}
use fileloft.FileLocks.{
  LockFiles, FileLocker, FileLock, Action, lock_path, lock_name, try_file, attempt, wait_for,
  release,
}
use fileloft.FileLocks.Laws.{IsLockFiles}

-- Whether some reading of the clock is past the deadline.
abbrev pub reached : ℕ → List ℕ → Bool
reached deadline [] = false
reached deadline (now ∷ later) = leb deadline now || reached deadline later

module _ (d : LockFiles) (l : IsLockFiles d) (locker : FileLocker) (id : UploadId) where
  abbrev path : FilePath
  path = lock_path locker id

  -- The guard of an open file.
  abbrev pub guard : d.Handle → FileLock d
  guard f = record { file = some f; path = path }

  -- An open file holds the lock of the file `n`, which is at the path.
  pub record Held (s : d.State) (n : l.Node) (g : d.Handle) : Type 0 where
    pub opened : l.folder s locker.lock_dir ≡ true
    pub there : l.at s path ≡ some n
    pub held : l.holder s n ≡ some g

  -- An attempt fails and leaves all as it was.
  attempt-Held :
      (s : d.State) (n : l.Node) (g : d.Handle)
      → Held s n g
      → (s' : d.State) × (attempt d path s ≡ (ok none, s'))
        × Held s' n g
        × ((m : l.Node) → l.holder s' m ≡ l.holder s m)
  unfolding attempt try_file
  attempt-Held s n g h =
      let (f, s1, done, there1, same, fresh, new, kept, folders) =
        l.open_file_lem locker.lock_dir (lock_name id) s h.opened in
      let node_eq = same n h.there in
      let held1 : l.holder s1 (l.node f) ≡ some g =
        kept (l.node f) ∙ (ap (l.holder s) (sym node_eq) ∙ h.held) in
      let apart : g ≢ f = λ e. new n (h.held ∙ ap some e) in
      let (kept2, at2, folders2) = l.close_lem f s1 (λ m e. new m (sym (kept m) ∙ e)) in
      (
        d.close f s1,
        rw done (rw (l.try_lock_exclusive_held f g s1 held1 apart) refl),
        record {
          opened = folders2 locker.lock_dir ∙ (folders locker.lock_dir ∙ h.opened);
          there = at2 path ∙ (there1 ∙ ap some (sym node_eq));
          held = kept2 n ∙ (kept n ∙ h.held);
        },
        λ m. kept2 m ∙ kept m,
      )

  -- An attempt succeeds.
  attempt-free :
      (s : d.State)
      → l.folder s locker.lock_dir ≡ true
      → (l.at s path ≡ none) ⊎ ((n : l.Node) × (l.at s path ≡ some n) × (l.holder s n ≡ none))
      → (f : d.Handle) × (s' : d.State) × (attempt d path s ≡ (ok (some (guard f)), s'))
        × Held s' (l.node f) f
        × (l.holder s (l.node f) ≡ none)
        × ((m : l.Node) → l.node f ≢ m → l.holder s' m ≡ l.holder s m)
  unfolding attempt try_file
  attempt-free s opened free =
      let (f, s1, done, there1, same, fresh, new, kept, folders) =
        l.open_file_lem locker.lock_dir (lock_name id) s opened in
      let nobody : l.holder s (l.node f) ≡ none = elim free [
        | inl missing ↦ fresh missing
        | inr (n, there, bare) ↦ ap (l.holder s) (sym (same n there)) ∙ bare
      ] in
      let (s2, locked, mine, others, paths, folders2) =
        l.try_lock_exclusive_free f s1 (kept (l.node f) ∙ nobody) in
      (
        f,
        s2,
        rw done (rw locked refl),
        record {
          opened = folders2 locker.lock_dir ∙ (folders locker.lock_dir ∙ opened);
          there = paths path ∙ there1;
          held = mine;
        },
        nobody,
        λ m other. others m other ∙ kept m,
      )

  -- A guard on the file at the path is given up.
  release-Held :
      (s : d.State) (f : d.Handle)
      → Held s (l.node f) f
      → (s' : d.State) × (release d (guard f) s ≡ (ok tt, s'))
        × (l.at s' path ≡ none)
        × (l.holder s' (l.node f) ≡ none)
        × (l.folder s' locker.lock_dir ≡ true)
  unfolding release
  release-Held s f h =
      let (s1, done, free, others, paths, folders) = l.unlock_lem f s h.held in
      let (s2, removed, missing, elsewhere, kept, folders2) =
        l.remove_file_lem path (l.node f) s1 (paths path ∙ h.there) in
      let no_lock : (m : l.Node) → l.holder s2 m ≢ some f = λ m e.
        (let bare = ap (l.holder s2) (l.holder-node s2 m f e) ∙ (kept (l.node f) ∙ free) in cc) in
      let (kept3, at3, folders3) = l.close_lem f s2 no_lock in
      (
        d.close f s2,
        rw done (rw removed refl),
        at3 path ∙ missing,
        kept3 (l.node f) ∙ (kept (l.node f) ∙ free),
        folders3 locker.lock_dir
            ∙ (folders2 locker.lock_dir ∙ (folders locker.lock_dir ∙ h.opened)),
      )

  -- With lock files that keep their laws: while an open file holds the lock of the file at the
  -- path, waiting for it gives the timeout exactly if some reading of the clock is past the
  -- deadline, and else nothing. In either case the lock is still held, and so is every other.
  pub wait_for-Held :
      (deadline : ℕ) (clock : List ℕ) (s : d.State) (n : l.Node) (g : d.Handle)
      → Held s n g
      → ((wait_for d deadline id path clock s).0
          ≡ (if reached deadline clock then some (err (TusError.lock_timeout id)) else none))
        × Held (wait_for d deadline id path clock s).1 n g
        × ((m : l.Node) → l.holder (wait_for d deadline id path clock s).1 m ≡ l.holder s m)
  unfolding wait_for
  wait_for-Held deadline [] s n g h =
      let (s1, failed, h1, kept) = attempt-Held s n g h in rw failed (refl, h1, kept)
  wait_for-Held deadline (now ∷ later) s n g h =
      let (s1, failed, h1, kept) = attempt-Held s n g h in
      let (answer, h2, kept2) = wait_for-Held deadline later s1 n g h1 in
      rw failed (elim (Bool-cases (leb deadline now)) [
        | inl past ↦ rw past (refl, h1, kept)
        | inr before ↦ rw before (answer, h2, λ m. kept2 m ∙ kept m)
      ])

  -- With lock files that keep their laws: when the guard on the file at the path is released, that
  -- succeeds and leaves no file at the path; the next attempt succeeds with the file that it makes
  -- there, of which it holds the lock.
  pub release-attempt :
      (s : d.State) (f : d.Handle)
      → Held s (l.node f) f
      → (s1 : d.State) × (release d (guard f) s ≡ (ok tt, s1))
        × (l.at s1 path ≡ none)
        × (g : d.Handle) × (s' : d.State) × (attempt d path s1 ≡ (ok (some (guard g)), s'))
        × Held s' (l.node g) g
  release-attempt s f h =
      let (s1, released, missing, free, opened) = release-Held s f h in
      let (g, s2, got, h2, nobody, others) = attempt-free s1 opened (inl missing) in
      (s1, released, missing, g, s2, got, h2)

  -- One task opens the file; then the guard `lock` is released; then the first task goes on with
  -- its attempt, and another one makes its own.
  abbrev pub overtaken : FileLock d → Action d (Option (FileLock d) × Option (FileLock d))
  overtaken lock = do
    f ← λ s. let (r, s') = d.open_file path s in (io_result r, s')
    release d lock
    first ← λ s. let (got, s') = try_file d path f s in (ok got, s')
    second ← attempt d path
    pure (first, second)

  -- With lock files that keep their laws: from any state in which a guard holds the file at the
  -- path, a task that has opened the file before the guard is released, and one that comes after,
  -- both get a guard on the same upload, and both hold the locks of their files.
  pub overtaken-both :
      (s : d.State) (f : d.Handle)
      → Held s (l.node f) f
      → (g h : d.Handle) × (s' : d.State) × (overtaken (guard f) s
          ≡ (ok (some (guard g), some (guard h)), s'))
        × (l.holder s' (l.node g) ≡ some g)
        × (l.holder s' (l.node h) ≡ some h)
        × (l.node g ≢ l.node h)
  unfolding try_file
  overtaken-both s f held =
      let (g, s1, done, there1, same, fresh, new, kept, folders) =
        l.open_file_lem locker.lock_dir (lock_name id) s held.opened in
      let node_eq = same (l.node f) held.there in
      let held1 : Held s1 (l.node f) f = record {
        opened = folders locker.lock_dir ∙ held.opened;
        there = there1 ∙ ap some (sym node_eq);
        held = kept (l.node f) ∙ held.held;
      } in
      let (s2, released, missing, free, opened2) = release-Held s1 f held1 in
      let (s3, locked, mine, others3, paths3, folders3) =
        l.try_lock_exclusive_free g s2 (ap (l.holder s2) (sym node_eq) ∙ free) in
      let (h, s4, got, held4, nobody, others4) =
        attempt-free s3 (folders3 locker.lock_dir ∙ opened2) (inl (paths3 path ∙ missing)) in
      let apart : l.node g ≢ l.node h = λ e. (let bare = ap (l.holder s3) e ∙ nobody in cc) in
      (
        g,
        h,
        s4,
        rw done (rw released (rw locked (rw got refl))),
        others4 (l.node g) (λ e. apart (sym e)) ∙ mine,
        held4.held,
        apart,
      )
