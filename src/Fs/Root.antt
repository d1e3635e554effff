-- ===== src/Fs/Root.antt =====
-- fs_root.cpp: the host directory under which SPIFFS paths are resolved. The module's state is
-- the root, empty while none is set. `none` as a result is the exception of create_directories.
use bit_magic_zi_modem.Base.{
  ℕ, ◌≡◌, refl, Bool, true, false, ◌||◌, Option, none, some, List, [], ◌∷◌, ◌++◌, codes, ◌==◌,
  if◌then◌else◌, Bool-cases, inl, inr, All,
}
use bit_magic_zi_modem.Fs.{Stdio}

abbrev pub is_separator : ℕ → Bool
is_separator c = c == 47 || c == 92

-- `while (!rel.empty() && (rel.front() == '/' || rel.front() == '\\')) rel.erase(rel.begin());`
unfoldable pub strip : List ℕ → List ℕ
strip [] = []
strip (c ∷ rel) = let rest = strip rel in if is_separator c then rest else c ∷ rel

module _ (io : Stdio) where
  -- The root is set before the directory is made.
  unfoldable pub set_root : io.World → List ℕ → Bool × List ℕ × io.World
  set_root w path = let (made, w') = io.create_directories w path in (made, path, w')

  abbrev pub made_dir : List ℕ → Bool × io.World → Option (List ℕ) × io.World
  made_dir dir (true, w) = (some dir, w)
  made_dir dir (false, w) = (none, w)

  -- `random_name` is what std::random_device prints.
  unfoldable pub make_fresh_temp_dir : io.World → Option (List ℕ) × io.World
  make_fresh_temp_dir w =
      let (name, w') = io.random_name w in
      let dir = io.join (io.temp_directory_path w') (codes "zimodem-host-" ++ name) in
      made_dir dir (io.create_directories w' dir)

  -- root(): the directory, and the root behind the call.
  unfoldable pub root : List ℕ → io.World → Option (List ℕ) × io.World
  unfolding make_fresh_temp_dir
  root [] w = make_fresh_temp_dir w
  root (c ∷ cs) w = (some (c ∷ cs), w)

  -- The answer is the new root as well; an exception leaves the old one.
  unfoldable pub reset_to_fresh_temp_dir_for_testing : io.World → Option (List ℕ) × io.World
  unfolding make_fresh_temp_dir
  reset_to_fresh_temp_dir_for_testing w = make_fresh_temp_dir w

  abbrev pub resolved : List ℕ → Option (List ℕ) × io.World → Option (List ℕ) × io.World
  resolved path (none, w) = (none, w)
  resolved path (some dir, w) = (some (io.join dir (strip path)), w)

  unfoldable pub resolve : List ℕ → List ℕ → io.World → Option (List ℕ) × io.World
  unfolding root
  resolve g path w = resolved path (root g w)

-- What is left does not begin with a separator, so that joining it to the root cannot replace the
-- root by an absolute path.
pub data IsRelative : List ℕ → Type 0 where
  empty : IsRelative []
  begins : (c : ℕ) (rel : List ℕ) → is_separator c ≡ false → IsRelative (c ∷ rel)

strip-IsRelative : (path : List ℕ) → IsRelative (strip path)
unfolding strip
strip-IsRelative [] = empty
strip-IsRelative (c ∷ rel) = elim (Bool-cases (is_separator c)) [
  | inl e ↦ rw e (strip-IsRelative rel)
  | inr e ↦ rw e (begins c rel e)
]

strip_of_relative : (rel : List ℕ) → IsRelative rel → strip rel ≡ rel
unfolding strip
strip_of_relative path empty = refl
strip_of_relative path (begins c rel e) = rw e refl

strip-append :
    (seps rel : List ℕ) → All (λ c. is_separator c ≡ true) seps → strip (seps ++ rel) ≡ strip rel
unfolding strip
strip-append [] rel h = refl
strip-append (c ∷ seps) rel h = rw h.0 (strip-append seps rel h.1)

-- With the root set, a path is resolved to the root joined with a relative path, the same for any
-- number of leading separators, of either kind; a path that is relative already is taken as it is.
pub resolve-relative :
    (io : Stdio) (c : ℕ) (cs seps rel : List ℕ) (w : io.World)
    → All (λ s. is_separator s ≡ true) seps
    → IsRelative rel
    → resolve io (c ∷ cs) (seps ++ rel) w ≡ (some (io.join (c ∷ cs) rel), w)
unfolding resolve
resolve-relative io c cs seps rel w h r = rw (strip-append seps rel h, strip_of_relative rel r) refl
