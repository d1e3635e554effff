-- ===== src/Fs.antt =====
-- fs_root.cpp, FS.h and arduino_fs.cpp. The C streams and std::filesystem are a parameter: a
-- FILE* is a number, `none` the null one, and an int below zero for "nothing" is `none` too.
pub mod Root
pub mod File
pub mod Spiffs
pub mod Laws
pub mod Reading
pub mod RoundTrip
mod Toy
mod Tests
use bit_magic_zi_modem.Base.{ℕ, Bool, Option, List}

pub data Whence : Type 0 where
  from_start : ℕ → Whence
  at_end : Whence

-- What a directory iterator gives for one entry: its path, whether it is a regular file, its size.
pub record DirEntry : Type 0 where
  pub path : List ℕ
  pub is_regular : Bool
  pub size : ℕ

pub record Stdio : Type 1 where
  pub World : Type 0
  pub fopen : World → List ℕ → List ℕ → Option ℕ × World
  pub fclose : World → ℕ → Bool × World
  pub fgetc : World → ℕ → Option ℕ × World
  pub fputc : World → ℕ → ℕ → Bool × World
  pub fread : World → ℕ → ℕ → List ℕ × World
  pub ftell : World → ℕ → ℕ
  pub fseek : World → ℕ → Whence → World
  pub fflush : World → ℕ → World
  -- `operator/` of two paths, and the calls on whole files; `none` is an error that throws.
  pub join : List ℕ → List ℕ → List ℕ
  pub create_directories : World → List ℕ → Bool × World
  pub temp_directory_path : World → List ℕ
  pub random_name : World → List ℕ × World
  pub exists : World → List ℕ → Bool
  pub remove : World → List ℕ → Bool × World
  pub remove_all : World → List ℕ → Bool × World
  pub directory_entries : World → List ℕ → Option (List DirEntry)
  pub all_entries : World → List ℕ → Option (List DirEntry)
