-- ===== src/Print/Tests.antt =====
-- println to a buffer of limited room.
use bit_magic_zi_modem.Base.{ℕ, zero, suc, ◌≡◌, refl, List, [], ◌∷◌, ◌++◌, codes, arith}
use bit_magic_zi_modem.WString.{String}
use bit_magic_zi_modem.Print.{write, write_cstr, print, end_line, println}
use bit_magic_zi_modem.Print.Written.{WriterLaws}

record Buffer : Type 0 where
  room : ℕ
  held : List ℕ

abbrev put : ℕ → List ℕ → ℕ → ℕ × Buffer
put zero held b = (0, record { room = 0; held = held })
put (suc room) held b = (1, record { room = room; held = held ++ b ∷ [] })

abbrev put_byte : Buffer → ℕ → ℕ × Buffer
put_byte s b = put s.room s.held b

put_refuses : (r : ℕ) (h : List ℕ) (b : ℕ) → (put r h b).0 ≡ 0 → (put r h b).1.held ≡ h
put_refuses zero h b e = refl
put_refuses (suc r) h b e = absurd (omega (arith, e))

put_writes :
    (r : ℕ) (h : List ℕ) (b n : ℕ) → (put r h b).0 ≡ suc n → (put r h b).1.held ≡ h ++ b ∷ []
put_writes zero h b n e = absurd (omega (arith, e))
put_writes (suc r) h b n e = refl

abbrev put_laws : WriterLaws put_byte
put_laws = record {
  out = λ s. s.held;
  refuses = λ s b e. put_refuses s.room s.held b e;
  writes = λ s b n e. put_writes s.room s.held b n e;
}

abbrev buffer : Buffer
buffer = record { room = 3; held = [] }

abbrev greeting : String
greeting = record { value = codes "OK" }

cut_short : (println (write put_byte) buffer greeting).1.held ≡ codes "OK" ++ 13 ∷ []
unfolding println print end_line write_cstr write
cut_short = refl
