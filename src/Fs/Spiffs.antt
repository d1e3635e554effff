-- ===== src/Fs/Spiffs.antt =====
-- The class SPIFFSClass of FS.h and arduino_fs.cpp. `g` is the root; a result `none` is the
-- exception that resolve lets through.
use bit_magic_zi_modem.Base.{
  ℕ, ◌+◌, ◌*◌, ◌%◌, ◌^◌, ◌≡◌, refl, ap, ◌∙◌, Bool, true, false, ◌||◌, Option, none, some, List, [],
  ◌∷◌, ◌++◌, codes, ◌==◌, if◌then◌else◌,
}
use bit_magic_zi_modem.WString.{CStr, or_empty}
use bit_magic_zi_modem.Fs.{Stdio, DirEntry}
use bit_magic_zi_modem.Fs.Root.{root, resolve}
use bit_magic_zi_modem.Fs.File.{File}

unfoldable pub contains : ℕ → List ℕ → Bool
contains c [] = false
contains c (x ∷ xs) = x == c || contains c xs

abbrev pub or_read : CStr → List ℕ
or_read none = codes "r"
or_read (some mode) = mode

-- `if (m.find('b') == std::string::npos) m += "b";`
unfoldable pub to_binary_fopen_mode : CStr → List ℕ
unfolding contains
to_binary_fopen_mode mode =
    if contains 98 (or_read mode) then or_read mode else or_read mode ++ codes "b"

-- A fixed capacity.
unfoldable pub total_bytes : ℕ
total_bytes = 4 * 1024 * 1024

pub record FsInfo : Type 0 where
  pub total : ℕ
  pub used : ℕ

module _ (io : Stdio) where
  abbrev pub begun : Option (List ℕ) × io.World → Option Bool × io.World
  begun (none, w) = (none, w)
  begun (some dir, w) = (some true, w)

  unfoldable pub begin : List ℕ → io.World → Option Bool × io.World
  unfolding root
  begin g w = begun (root io g w)

  -- The loop over the entries: each removal writes its own outcome into `ec`, here `ok`.
  unfoldable pub remove_entries : List DirEntry → Bool → io.World → Bool × io.World
  remove_entries [] ok w = (ok, w)
  remove_entries (e ∷ es) ok w = let (ok', w') = io.remove_all w e.path in remove_entries es ok' w'

  abbrev pub format_entries : Option (List DirEntry) → io.World → Bool × io.World
  format_entries none w = (false, w)
  format_entries (some es) w = remove_entries es true w

  abbrev pub format_in : Option (List ℕ) × io.World → Option Bool × io.World
  format_in (none, w) = (none, w)
  format_in (some dir, w) =
      let (ok, w') = format_entries (io.directory_entries w dir) w in (some ok, w')

  unfoldable pub format : List ℕ → io.World → Option Bool × io.World
  unfolding root remove_entries
  format g w = format_in (root io g w)

  abbrev pub open_at : List ℕ → CStr → Option (List ℕ) × io.World → Option File × io.World
  open_at path mode (none, w) = (none, w)
  open_at path mode (some host_path, w) =
      let (handle, w') = io.fopen w host_path (to_binary_fopen_mode mode) in
      (some (record { handle = handle; path = path }), w')

  unfoldable pub open_file : List ℕ → io.World → CStr → CStr → Option File × io.World
  unfolding resolve to_binary_fopen_mode
  open_file g w path mode = open_at (or_empty path) mode (resolve io g (or_empty path) w)

  abbrev pub exists_at : Option (List ℕ) × io.World → Option Bool × io.World
  exists_at (none, w) = (none, w)
  exists_at (some host_path, w) = (some (io.exists w host_path), w)

  unfoldable pub exists : List ℕ → io.World → CStr → Option Bool × io.World
  unfolding resolve
  exists g w path = exists_at (resolve io g (or_empty path) w)

  abbrev pub remove_at : Option (List ℕ) × io.World → Option Bool × io.World
  remove_at (none, w) = (none, w)
  remove_at (some host_path, w) = let (b, w') = io.remove w host_path in (some b, w')

  unfoldable pub remove : List ℕ → io.World → CStr → Option Bool × io.World
  unfolding resolve
  remove g w path = remove_at (resolve io g (or_empty path) w)

  -- `out.usedBytes += entry.file_size()` of the regular files, in size_t.
  unfoldable pub used_bytes : List DirEntry → ℕ → ℕ
  used_bytes [] used = used
  used_bytes (e ∷ es) used = used_bytes es (if e.is_regular then (used + e.size) % 2 ^ 64 else used)

  -- An iterator that fails throws, since this one has no error code.
  abbrev pub summed : Option (List DirEntry) → Option FsInfo
  summed none = none
  summed (some es) = some (record { total = total_bytes; used = used_bytes es 0 })

  abbrev pub info_in : Option (List ℕ) × io.World → Option FsInfo × io.World
  info_in (none, w) = (none, w)
  info_in (some dir, w) = (summed (io.all_entries w dir), w)

  unfoldable pub info : List ℕ → io.World → Option FsInfo × io.World
  unfolding root used_bytes total_bytes
  info g w = info_in (root io g w)

  append_entries :
      (es : List DirEntry) (e : DirEntry) (ok : Bool) (w : io.World)
      → remove_entries (es ++ e ∷ []) ok w ≡ io.remove_all (remove_entries es ok w).1 e.path
  unfolding remove_entries
  append_entries [] e ok w = refl
  append_entries (x ∷ es) e ok w =
      append_entries es e (io.remove_all w x.path).0 (io.remove_all w x.path).1

  -- With the root set and its entries listed, format answers what the removal of the last entry
  -- did, whatever became of the others before it.
  pub format_last :
      (c : ℕ) (cs : List ℕ) (w : io.World) (es : List DirEntry) (e : DirEntry)
      → io.directory_entries w (c ∷ cs) ≡ some (es ++ e ∷ [])
      → let r = io.remove_all (remove_entries es true w).1 e.path in
        format (c ∷ cs) w ≡ (some r.0, r.1)
  unfolding format root
  format_last c cs w es e h =
      ap (λ o. format_in_entries (format_entries o w)) h
      ∙ ap format_in_entries (append_entries es e true w)
    where
      format_in_entries : Bool × io.World → Option Bool × io.World
      format_in_entries (ok, v) = (some ok, v)
