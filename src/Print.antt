-- ===== src/Print.antt =====
-- Print of Print.h. `write` is the default of the virtual write of a buffer, over the write of one
-- byte that a concrete class supplies; what prints goes through the virtual one, `write_buffer`.
pub mod Written
mod Tests
use bit_magic_zi_modem.Base.{
  ℕ, zero, suc, ◌+◌, Option, none, some, List, [], ◌∷◌, length, take, min,
}
use bit_magic_zi_modem.WString.{String, until_nul}

-- `if (write(*buffer++)) n++; else break;`
abbrev pub onward {ℓ} : {S : Type ℓ} → ℕ × S → (S → ℕ × S) → ℕ × S
onward (zero, s) rest = (0, s)
onward (suc k, s) rest = let t = rest s in (suc t.0, t.1)

module _ {S : Type 0} (write_byte : S → ℕ → ℕ × S) where
  unfoldable pub write : S → List ℕ → ℕ × S
  write s [] = (0, s)
  write s (b ∷ bs) = onward (write_byte s b) (λ t. write t bs)

module _ {S : Type 0} (write_buffer : S → List ℕ → ℕ × S) where
  -- `none` is a null pointer.
  unfoldable pub write_cstr : S → Option (List ℕ) → ℕ × S
  write_cstr s none = (0, s)
  write_cstr s (some text) = write_buffer s (until_nul text)

  unfoldable pub print : S → String → ℕ × S
  unfolding write_cstr
  print s text = write_cstr s (some text.value)

  unfoldable pub end_line : S → ℕ × S
  unfolding write_cstr
  end_line s = write_cstr s (some (13 ∷ 10 ∷ []))

  unfoldable pub println : S → String → ℕ × S
  unfolding print end_line
  println s text = let r = print s text in let e = end_line r.1 in (r.0 + e.0, e.1)

  -- The overloads for a C string.
  unfoldable pub print_cstr : S → Option (List ℕ) → ℕ × S
  unfolding write_cstr
  print_cstr s text = write_cstr s text

  unfoldable pub println_cstr : S → Option (List ℕ) → ℕ × S
  unfolding print_cstr end_line
  println_cstr s text = let r = print_cstr s text in let e = end_line r.1 in (r.0 + e.0, e.1)

  -- `formatted` is the whole text that vsnprintf would write, `none` its error; the buffer takes
  -- 255 characters of it.
  unfoldable pub printf : S → Option (List ℕ) → ℕ × S
  printf s none = (0, s)
  printf s (some formatted) = write_buffer s (take (min (length formatted) 255) formatted)

-- What a Print does that overrides nothing: it has no room and nothing to flush.
abbrev pub available_for_write : ℕ
available_for_write = 0

unfoldable pub flush : {S : Type 0} → S → S
flush s = s
