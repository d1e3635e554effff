-- ===== src/Fs/File.antt =====
-- The class File of FS.h: a FILE*, and the path that it was opened with.
use bit_magic_zi_modem.Base.{
  ℕ, zero, suc, ◌-◌, Bool, true, false, Option, none, some, List, [], if◌then◌else◌, length,
}
use bit_magic_zi_modem.Base.Int.{ℤ, pos, minus_one, to_int}
use bit_magic_zi_modem.WString.{String, empty_string, append_char, of_cstr, until_nul}
use bit_magic_zi_modem.Fs.{Stdio, from_start, at_end}

pub record File : Type 0 where
  pub handle : Option ℕ
  pub path : List ℕ

abbrev pub no_file : File
no_file = record { handle = none; path = [] }

-- `explicit operator bool`
abbrev pub is_valid : File → Bool
is_valid f = elim f.handle [ none ↦ false | some h ↦ true ]

-- `String(path_.c_str())`
unfoldable pub name : File → String
name f = of_cstr (some (until_nul f.path))

-- EOF is -1.
abbrev pub or_eof : Option ℕ → ℤ
or_eof none = minus_one
or_eof (some c) = pos c

module _ (io : Stdio) where
  unfoldable pub close : File → io.World → File × io.World
  close f w = (record f { handle = none }, elim f.handle [ none ↦ w | some h ↦ (io.fclose w h).1 ])

  -- The move assignment between two files: the target, the source left behind, the world.
  unfoldable pub move_assign : File → File → io.World → File × File × io.World
  unfolding close
  move_assign f other w = (other, record other { handle = none; path = [] }, (close f w).1)

  -- total_size: to the end, and back to where it was.
  unfoldable pub total_size_at : io.World → ℕ → ℕ × io.World
  total_size_at w h =
      let cur = io.ftell w h in
      let w' = io.fseek w h at_end in (io.ftell w' h, io.fseek w' h (from_start cur))

  unfoldable pub size : File → io.World → ℕ × io.World
  unfolding total_size_at
  size f w = elim f.handle [ none ↦ (0, w) | some h ↦ total_size_at w h ]

  -- `static_cast<int>(total_size() - current_pos())`
  abbrev pub available_at : io.World → ℕ → ℤ × io.World
  available_at w h = let t = total_size_at w h in (to_int (t.0 - io.ftell t.1 h), t.1)

  unfoldable pub available : File → io.World → ℤ × io.World
  unfolding total_size_at
  available f w = elim f.handle [ none ↦ (pos 0, w) | some h ↦ available_at w h ]

  abbrev pub read_at : io.World → ℕ → ℤ × io.World
  read_at w h = let r = io.fgetc w h in (or_eof r.0, r.1)

  unfoldable pub read : File → io.World → ℤ × io.World
  read f w = elim f.handle [ none ↦ (minus_one, w) | some h ↦ read_at w h ]

  abbrev pub peek_at : io.World → ℕ → ℤ × io.World
  peek_at w h =
      let cur = io.ftell w h in
      let r = io.fgetc w h in (or_eof r.0, io.fseek r.1 h (from_start cur))

  unfoldable pub peek : File → io.World → ℤ × io.World
  peek f w = elim f.handle [ none ↦ (minus_one, w) | some h ↦ peek_at w h ]

  abbrev pub put_done : Bool × io.World → ℕ × io.World
  put_done (done, w) = (if done then 1 else 0, w)

  unfoldable pub write_byte : File → io.World → ℕ → ℕ × io.World
  write_byte f w b = elim f.handle [ none ↦ (0, w) | some h ↦ put_done (io.fputc w h b) ]

  unfoldable pub flush : File → io.World → io.World
  flush f w = elim f.handle [ none ↦ w | some h ↦ io.fflush w h ]

  -- The count is the number of the bytes, cut to an int.
  unfoldable pub read_buffer : File → io.World → ℕ → ℤ × List ℕ × io.World
  read_buffer f w size = elim f.handle [
    | none ↦ (pos 0, [], w)
    | some h ↦ let r = io.fread w h size in (to_int (length r.0), r.0, r.1)
  ]

  -- `while ((c = read()) >= 0) result += static_cast<char>(c);` on fuel; `none`: it ran out.
  unfoldable pub read_loop : ℕ → File → io.World → String → Option (String × io.World)
  unfolding read
  read_loop zero f w result = none
  read_loop (suc fuel) f w result =
      let r = read f w in
      elim r.0 [
        | ℤ.pos c ↦ read_loop fuel f r.1 (append_char result c)
        | ℤ.negsuc n ↦ some (result, r.1)
      ]

  unfoldable pub read_string : ℕ → File → io.World → Option (String × io.World)
  unfolding read_loop
  read_string fuel f w = read_loop fuel f w empty_string

  -- File as the concrete class of Print.
  abbrev pub writer : File × io.World → ℕ → ℕ × (File × io.World)
  writer (f, w) b = let r = write_byte f w b in (r.0, (f, r.1))
