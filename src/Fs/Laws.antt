-- ===== src/Fs/Laws.antt =====
-- What the theorems take of the C streams: a stream that is open has a path, bytes and a position;
-- a stream opened for writing is empty, one opened for reading has what is stored under its path;
-- a close that succeeds stores the bytes. No read of an open stream fails but at its end.
use bit_magic_zi_modem.Base.{
  ℕ, ◌+◌, ◌≤◌, ◌≡◌, true, false, Option, none, some, List, [], ◌∷◌, ◌++◌, codes, length, drop,
}
use bit_magic_zi_modem.Fs.{Stdio, from_start, at_end}

pub record Opened : Type 0 where
  pub path : List ℕ
  pub bytes : List ℕ
  pub at : ℕ

pub record StreamLaws (io : Stdio) : Type 0 where
  pub opened : io.World → ℕ → Option Opened
  pub stored : io.World → List ℕ → Option (List ℕ)
  pub tells : (w : io.World) (h : ℕ) (o : Opened) → opened w h ≡ some o → io.ftell w h ≡ o.at
  pub seeks :
      (w : io.World) (h k : ℕ) (o : Opened)
      → opened w h ≡ some o
      → k ≤ length o.bytes
      → opened (io.fseek w h (from_start k)) h ≡ some (record o { at = k })
  pub seeks_end :
      (w : io.World) (h : ℕ) (o : Opened)
      → opened w h ≡ some o
      → opened (io.fseek w h at_end) h ≡ some (record o { at = length o.bytes })
  pub gets :
      (w : io.World) (h c : ℕ) (rest : List ℕ) (o : Opened)
      → opened w h ≡ some o
      → drop o.at o.bytes ≡ c ∷ rest
      → ((io.fgetc w h).0 ≡ some c)
        × (opened (io.fgetc w h).1 h ≡ some (record o { at = o.at + 1 }))
  pub gets_eof :
      (w : io.World) (h : ℕ) (o : Opened)
      → opened w h ≡ some o
      → drop o.at o.bytes ≡ []
      → ((io.fgetc w h).0 ≡ none) × (opened (io.fgetc w h).1 h ≡ some o)
  pub puts :
      (w : io.World) (h b : ℕ) (o : Opened)
      → opened w h ≡ some o
      → o.at ≡ length o.bytes
      → (io.fputc w h b).0 ≡ true
      → opened (io.fputc w h b).1 h ≡ some (record o { bytes = o.bytes ++ (b ∷ []); at = o.at + 1 })
  pub puts_fails :
      (w : io.World) (h b : ℕ) (o : Opened)
      → opened w h ≡ some o
      → (io.fputc w h b).0 ≡ false
      → opened (io.fputc w h b).1 h ≡ some o
  pub opens_new :
      (w : io.World) (path : List ℕ) (h : ℕ)
      → (io.fopen w path (codes "wb")).0 ≡ some h
      → opened (io.fopen w path (codes "wb")).1 h
        ≡ some (record { path = path; bytes = []; at = 0 })
  pub opens_old :
      (w : io.World) (path bs : List ℕ) (h : ℕ)
      → stored w path ≡ some bs
      → (io.fopen w path (codes "rb")).0 ≡ some h
      → opened (io.fopen w path (codes "rb")).1 h
        ≡ some (record { path = path; bytes = bs; at = 0 })
  pub closes :
      (w : io.World) (h : ℕ) (o : Opened)
      → opened w h ≡ some o
      → (io.fclose w h).0 ≡ true
      → stored (io.fclose w h).1 o.path ≡ some o.bytes
