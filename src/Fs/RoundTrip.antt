-- ===== src/Fs/RoundTrip.antt =====
-- What was printed to a file of SPIFFS and closed is what a later reader gets.
use mathlib.Core.List.{append_assoc, append-nil}
use bit_magic_zi_modem.Base.{
  ℕ, suc, ◌+◌, ◌≤◌, ◌≡◌, refl, sym, ap, subst, ◌∙◌, Bool, true, false, Option, none, some, List, [],
  ◌∷◌, ◌++◌, codes, arith, length, take, take_all, length-append, if◌then◌else◌,
}
use bit_magic_zi_modem.WString.{String, until_nul}
use bit_magic_zi_modem.Print.{onward, write, write_cstr, print}
use bit_magic_zi_modem.Fs.{Stdio}
use bit_magic_zi_modem.Fs.Root.{strip, resolve, root}
use bit_magic_zi_modem.Fs.File.{File, write_byte, writer, close, read_string}
use bit_magic_zi_modem.Fs.Spiffs.{open_file, to_binary_fopen_mode, contains}
use bit_magic_zi_modem.Fs.Laws.{Opened, StreamLaws}
use bit_magic_zi_modem.Fs.Reading.{file_at, read_string-AllRead}

module _ (io : Stdio) (laws : StreamLaws io) where
  open laws use {opened, stored, puts, puts_fails, opens_new, opens_old, closes}

  -- The stream at its end behind a write that took the first bytes of a text.
  abbrev Wrote : ℕ → List ℕ → Opened → List ℕ → ℕ × (File × io.World) → Type 0
  Wrote h path o bs r =
      (r.0 ≤ length bs)
      × (r.1.0 ≡ file_at h path)
      × (opened r.1.1 h
          ≡ some
              (record o { bytes = o.bytes ++ take r.0 bs; at = length (o.bytes ++ take r.0 bs) }))

  unchanged :
      (h : ℕ) (w : io.World) (o : Opened)
      → opened w h ≡ some o
      → o.at ≡ length o.bytes
      → opened w h ≡ some (record o { bytes = o.bytes ++ []; at = length (o.bytes ++ []) })
  unchanged h w o v e = v ∙ (λ i. some (record o {
    bytes = sym (append-nil o.bytes) i;
    at = (e ∙ ap length (sym (append-nil o.bytes))) i;
  }))

  write-Wrote :
      (h : ℕ) (path : List ℕ) (w : io.World) (o : Opened) (bs : List ℕ)
      → opened w h ≡ some o
      → o.at ≡ length o.bytes
      → Wrote h path o bs (write (writer io) (file_at h path, w) bs)
  unfolding write write_byte
  write-Wrote h path w o [] v e = (omega arith, refl, unchanged h w o v e)
  write-Wrote h path w o (b ∷ bs) v e =
      go (io.fputc w h b).0 refl (λ o' v' e'. write-Wrote h path (io.fputc w h b).1 o' bs v' e')
    where
      u : io.World
      u = (io.fputc w h b).1

      go :
          (x : Bool)
          → (io.fputc w h b).0 ≡ x
          → ((o' : Opened)
              → opened u h ≡ some o'
              → o'.at ≡ length o'.bytes
              → Wrote h path o' bs (write (writer io) (file_at h path, u) bs))
          → Wrote h path o
              (b ∷ bs)
              (onward (if x then 1 else 0, (file_at h path, u)) (λ t. write (writer io) t bs))
      go false p again = (omega arith, refl, unchanged h u o (puts_fails w h b o v p) e)
      go true p again =
          let o' : Opened = record o { bytes = o.bytes ++ (b ∷ []); at = o.at + 1 } in
          let d =
            again o' (puts w h b o v e p) (omega (arith, e, length-append o.bytes (b ∷ []))) in
          let n = (write (writer io) (file_at h path, u) bs).0 in
          let q = append_assoc o.bytes (b ∷ []) (take n bs) in
          (omega (arith, d.0), d.1, d.2 ∙ (λ i. some (record o { bytes = q i; at = length (q i) })))

  handle_of : Option File × io.World → Option ℕ
  handle_of (none, w) = none
  handle_of (some f, w) = f.handle

  -- What an open of a file tells of the call of fopen below it.
  opened_file :
      (c : ℕ) (cs : List ℕ) (w w' : io.World) (path mode : List ℕ) (h : ℕ)
      → open_file io (c ∷ cs) w (some path) (some mode) ≡ (some (file_at h path), w')
      → let r = io.fopen w (io.join (c ∷ cs) (strip path)) (to_binary_fopen_mode (some mode)) in
        (r.0 ≡ some h) × (r.1 ≡ w')
  unfolding open_file resolve root handle_of
  opened_file c cs w w' path mode h e = (ap handle_of e, ap (λ r. r.1) e)

  -- Where SPIFFS opens a path for writing, takes every byte of a text that is printed, and the C
  -- library's close succeeds, and SPIFFS then opens the same path for reading, readString ends and
  -- gives the text back, for a text without NUL bytes and a root that is set.
  pub read_string-print :
      (c : ℕ) (cs : List ℕ) (w w1 w2 v : io.World) (path : List ℕ) (h k : ℕ) (text : String)
      (f : File)
      → open_file io (c ∷ cs) w (some path) (some (codes "w")) ≡ (some (file_at h path), w1)
      → until_nul text.value ≡ text.value
      → print (write (writer io)) (file_at h path, w1) text ≡ (length text.value, (f, w2))
      → (io.fclose w2 h).0 ≡ true
      → open_file io (c ∷ cs) (close io f w2).1 (some path) (some (codes "r"))
        ≡ (some (file_at k path), v)
      → (u : io.World) × (read_string io (suc (length text.value)) (file_at k path) v
          ≡ some (text, u))
  unfolding print write_cstr close to_binary_fopen_mode contains
  read_string-print c cs w w1 w2 v path h k text f a nul n z b =
      let host = io.join (c ∷ cs) (strip path) in
      let new : Opened = record { path = host; bytes = []; at = 0 } in
      let old : Opened = record { path = host; bytes = text.value; at = 0 } in
      let written = record new { bytes = text.value; at = length text.value } in
      let x = opened_file c cs w w1 path (codes "w") h a in
      let is_new = subst (λ u. opened u h ≡ some new) x.1 (opens_new w host h x.0) in
      let wrote =
        subst (λ r. Wrote h path new text.value r)
          (ap (write (writer io) (file_at h path, w1)) (sym nul) ∙ n)
          (write-Wrote h path w1 new text.value is_new refl) in
      let all = take_all (length text.value) text.value (omega arith) in
      let is_written : opened w2 h ≡ some written =
        wrote.2 ∙ (λ i. some (record { path = host; bytes = all i; at = length (all i) })) in
      let is_stored : stored (close io f w2).1 host ≡ some text.value =
        ap (λ (g : File). stored (close io g w2).1 host) wrote.1
        ∙ closes w2 h written is_written z in
      let y = opened_file c cs (close io f w2).1 v path (codes "r") k b in
      let is_old =
        subst (λ u. opened u k ≡ some old) y.1
          (opens_old (close io f w2).1 host text.value k is_stored y.0) in
      let r =
        read_string-AllRead io laws (suc (length text.value)) k path v old (is_old, omega arith)
          (omega arith) in
      (r.0, r.1)
