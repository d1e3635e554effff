-- ===== src/Fs/Reading.antt =====
-- File's reading side on an open stream.
use mathlib.Core.List.{append_assoc, append-nil}
use bit_magic_zi_modem.Base.{
  ℕ, zero, suc, ◌+◌, ◌-◌, ◌^◌, ◌≤◌, ◌<◌, ◌≡◌, refl, sym, ap, ◌∙◌, Option, some, List, [], ◌∷◌, ◌++◌,
  arith, length, drop, length-drop, drop-drop,
}
use bit_magic_zi_modem.Base.Int.{ℤ, pos, minus_one, to_int_small}
use bit_magic_zi_modem.WString.{String}
use bit_magic_zi_modem.Fs.{Stdio, from_start, at_end}
use bit_magic_zi_modem.Fs.File.{
  File, or_eof, read, peek, available, read_loop, read_string, total_size_at,
}
use bit_magic_zi_modem.Fs.Laws.{Opened, StreamLaws}

-- The bytes that a stream has still to give.
abbrev pub unread : Opened → List ℕ
unread o = drop o.at o.bytes

-- The next of them, or -1.
abbrev pub first : List ℕ → ℤ
first [] = minus_one
first (c ∷ cs) = pos c

-- A File with a stream.
abbrev pub file_at : ℕ → List ℕ → File
file_at h path = record { handle = some h; path = path }

module _ (io : Stdio) (laws : StreamLaws io) where
  open laws use {opened, tells, seeks, seeks_end, gets, gets_eof}

  -- The stream is open, with its position inside its bytes.
  abbrev pub IsOpen : ℕ → io.World → Opened → Type 0
  IsOpen h w o = (opened w h ≡ some o) × (o.at ≤ length o.bytes)

  back-IsOpen :
      (h : ℕ) (w : io.World) (o : Opened) (k : ℕ)
      → opened w h ≡ some (record o { at = k })
      → o.at ≤ length o.bytes
      → IsOpen h (io.fseek w h (from_start o.at)) o
  back-IsOpen h w o k p b = (seeks w h o.at (record o { at = k }) p b, b)

  -- peek answers the next byte, or -1 at the end, and the stream is as it was.
  pub peek-IsOpen :
      (h : ℕ) (path : List ℕ) (w : io.World) (o : Opened)
      → IsOpen h w o
      → let r = peek io (file_at h path) w in (r.0 ≡ first (unread o)) × IsOpen h r.1 o
  unfolding peek
  peek-IsOpen h path w o v = rw (tells w h o v.0) (go (unread o) refl)
    where
      go :
          (rest : List ℕ)
          → unread o ≡ rest
          → (or_eof (io.fgetc w h).0 ≡ first rest)
            × IsOpen h (io.fseek (io.fgetc w h).1 h (from_start o.at)) o
      go [] e =
          let g = gets_eof w h o v.0 e in
          (ap or_eof g.0, back-IsOpen h (io.fgetc w h).1 o o.at g.1 v.1)
      go (c ∷ rest) e =
          let g = gets w h c rest o v.0 e in
          (ap or_eof g.0, back-IsOpen h (io.fgetc w h).1 o (o.at + 1) g.1 v.1)

  -- available counts the bytes not yet read, of a file below 2 GiB, and the stream is as it was.
  pub available-IsOpen :
      (h : ℕ) (path : List ℕ) (w : io.World) (o : Opened)
      → IsOpen h w o
      → length o.bytes < 2 ^ 31
      → let r = available io (file_at h path) w in (r.0 ≡ pos (length (unread o))) × IsOpen h r.1 o
  unfolding available total_size_at
  available-IsOpen h path w o v small =
      let end : io.World = io.fseek w h at_end in
      let e = seeks_end w h o v.0 in
      let b = back-IsOpen h end o (length o.bytes) e v.1 in
      rw
        (
          tells w h o v.0,
          tells end h (record o { at = length o.bytes }) e,
          tells (io.fseek end h (from_start o.at)) h o b.0,
        )
        (
          to_int_small (length o.bytes - o.at) (omega (arith, small))
              ∙ ap pos (sym (length-drop o.at o.bytes)),
          b,
        )

  abbrev pub AllRead : ℕ → Opened → List ℕ → Option (String × io.World) → Type 0
  AllRead h o text r =
      (w : io.World) × (r ≡ some (record { value = text }, w))
      × IsOpen h w (record o { at = length o.bytes })

  read_loop-AllRead :
      (fuel h : ℕ) (path : List ℕ) (w : io.World) (o : Opened) (taken : List ℕ)
      → IsOpen h w o
      → length (unread o) < fuel
      → AllRead h o
          (taken ++ unread o)
          (read_loop io fuel (file_at h path) w (record { value = taken }))
  unfolding read_loop read
  read_loop-AllRead zero h path w o taken v k = absurd (omega (arith, k))
  read_loop-AllRead (suc fuel) h path w o taken v k =
      go (unread o) refl
        (λ o' taken' v' k'. read_loop-AllRead fuel h path (io.fgetc w h).1 o' taken' v' k')
    where
      go :
          (rest : List ℕ)
          → unread o ≡ rest
          → ((o' : Opened) (taken' : List ℕ)
              → IsOpen h (io.fgetc w h).1 o'
              → length (unread o') < fuel
              → AllRead h o'
                  (taken' ++ unread o')
                  (read_loop io fuel (file_at h path) (io.fgetc w h).1 (record { value = taken' })))
          → AllRead h o
              (taken ++ rest)
              (read_loop io (suc fuel) (file_at h path) w (record { value = taken }))
      go [] e again =
          let g = gets_eof w h o v.0 e in
          let at_last : o.at ≡ length o.bytes =
            omega (arith, v.1, length-drop o.at o.bytes, ap length e) in
          rw (g.0, read_loop)
            (
              (io.fgetc w h).1,
              ap (λ xs. some (record { value = xs }, (io.fgetc w h).1)) (sym (append-nil taken)),
              (g.1 ∙ ap (λ n. some (record o { at = n })) at_last, omega arith),
            )
      go (c ∷ rest) e again =
          let g = gets w h c rest o v.0 e in
          let o' : Opened = record o { at = o.at + 1 } in
          let left : unread o' ≡ rest = sym (drop-drop 1 o.at o.bytes) ∙ ap (drop 1) e in
          let ih =
            again o' (taken ++ (c ∷ [])) (g.1, omega (arith, length-drop o.at o.bytes, ap length e))
              (omega (arith, k, ap length e, ap length left)) in
          rw (g.0, read_loop)
            (
              ih.0,
              ih.1
                  ∙ ap (λ xs. some (record { value = xs }, ih.0))
                      (append_assoc taken (c ∷ []) (unread o') ∙ ap (λ xs. taken ++ (c ∷ xs)) left),
              ih.2,
            )

  -- readString ends, with more fuel than there are bytes not yet read, and its text is those bytes;
  -- the stream is at its end.
  pub read_string-AllRead :
      (fuel h : ℕ) (path : List ℕ) (w : io.World) (o : Opened)
      → IsOpen h w o
      → length (unread o) < fuel
      → AllRead h o (unread o) (read_string io fuel (file_at h path) w)
  unfolding read_string
  read_string-AllRead fuel h path w o v k = read_loop-AllRead fuel h path w o [] v k
