-- ===== src/Fs/Tests.antt =====
-- The theorems of the file classes over a C library that keeps its files in memory.
use bit_magic_zi_modem.Base.{ℕ, ◌≡◌, refl, true, Option, none, some, [], ◌∷◌, codes, arith}
use bit_magic_zi_modem.WString.{String}
use bit_magic_zi_modem.Print.{write, write_cstr, print}
use bit_magic_zi_modem.Fs.{DirEntry}
use bit_magic_zi_modem.Fs.Root.{resolve, resolve-relative, begins, strip, root}
use bit_magic_zi_modem.Fs.File.{File, read_string, writer, write_byte, close}
use bit_magic_zi_modem.Fs.Spiffs.{
  open_file, to_binary_fopen_mode, contains, format, format_last, remove_entries,
}
use bit_magic_zi_modem.Fs.Laws.{Opened}
use bit_magic_zi_modem.Fs.Reading.{file_at, IsOpen, AllRead, unread, read_string-AllRead}
use bit_magic_zi_modem.Fs.RoundTrip.{read_string-print}
use bit_magic_zi_modem.Fs.Toy.{Memory, update, memory, memory_laws}

abbrev blank : Memory
blank = record { disk = λ p. none; streams = λ h. none; next = 5 }

-- A stream open on four bytes, of which one is read.
abbrev four : Opened
four = record { path = codes "/r/d"; bytes = codes "ABCD"; at = 1 }

abbrev reading : Memory
reading = record { disk = λ p. none; streams = update (λ h. none) 3 (some four); next = 5 }

is_open : IsOpen memory memory_laws 3 reading four
is_open = (refl, omega arith)

read_string-AllRead_example :
    AllRead memory memory_laws 3 four
      (unread four)
      (read_string memory 4 (file_at 3 (codes "/d")) reading)
read_string-AllRead_example =
    read_string-AllRead memory memory_laws 4 3 (codes "/d") reading four is_open (omega arith)

resolve-relative_example :
    resolve memory (codes "/r") (codes "//a") blank
    ≡ (some (memory.join (codes "/r") (codes "a")), blank)
resolve-relative_example =
    resolve-relative memory 47 (codes "r") (codes "//") (codes "a") blank (refl, (refl, tt))
      (begins 97 [] refl)

abbrev entry_a : DirEntry
entry_a = record { path = codes "/r/a"; is_regular = true; size = 3 }

abbrev entry_b : DirEntry
entry_b = record { path = codes "/r/b"; is_regular = true; size = 4 }

-- The removal of the first entry fails, and format answers true.
format_hides : (format memory (codes "/r") blank).0 ≡ some true
unfolding format root remove_entries
format_hides = refl

format_last_example :
    let r = memory.remove_all (remove_entries memory (entry_a ∷ []) true blank).1 entry_b.path in
    format memory (codes "/r") blank ≡ (some r.0, r.1)
format_last_example = format_last memory 47 (codes "r") blank (entry_a ∷ []) entry_b refl

abbrev text : String
text = record { value = codes "AB" }

abbrev opened_w : Option File × Memory
opened_w = open_file memory (codes "/r") blank (some (codes "/t")) (some (codes "w"))

abbrev file5 : File
file5 = file_at 5 (codes "/t")

abbrev file6 : File
file6 = file_at 6 (codes "/t")

abbrev printed : ℕ × (File × Memory)
printed = print (write (writer memory)) (file5, opened_w.1) text

abbrev opened_r : Option File × Memory
opened_r =
    open_file memory (codes "/r") (close memory printed.1.0 printed.1.1).1 (some (codes "/t"))
      (some (codes "r"))

opens : opened_w ≡ (some file5, opened_w.1)
unfolding open_file resolve root strip to_binary_fopen_mode contains
opens = refl

prints : printed ≡ (2, (printed.1.0, printed.1.1))
unfolding print write_cstr write write_byte open_file resolve root strip to_binary_fopen_mode
    contains
prints = refl

fcloses : (memory.fclose printed.1.1 5).0 ≡ true
unfolding print write_cstr write write_byte open_file resolve root strip to_binary_fopen_mode
    contains
fcloses = refl

reopens : opened_r ≡ (some file6, opened_r.1)
unfolding close print write_cstr write write_byte open_file resolve root strip to_binary_fopen_mode
    contains
reopens = refl

read_string-print_example : (u : Memory) × (read_string memory 3 file6 opened_r.1 ≡ some (text, u))
read_string-print_example =
    read_string-print memory memory_laws 47 (codes "r") blank opened_w.1 printed.1.1 opened_r.1
      (codes "/t") 5 6 text printed.1.0 opens refl prints fcloses reopens
