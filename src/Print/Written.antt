-- ===== src/Print/Written.antt =====
-- What the counts of print and println say of the bytes written.
use mathlib.Core.List.{append-nil, append_assoc}
use bit_magic_zi_modem.Base.{
  ℕ, zero, suc, ◌+◌, ◌≤◌, ◌≡◌, refl, sym, ap, ◌∙◌, List, [], ◌∷◌, ◌++◌, arith, length, take,
}
use bit_magic_zi_modem.WString.{String, until_nul}
use bit_magic_zi_modem.Print.{onward, write, write_cstr, print, end_line, println}

-- A class that writes a byte or refuses it.
pub record WriterLaws {S : Type 0} (write_byte : S → ℕ → ℕ × S) : Type 0 where
  pub out : S → List ℕ
  pub refuses : (s : S) (b : ℕ) → (write_byte s b).0 ≡ 0 → out (write_byte s b).1 ≡ out s
  pub writes :
      (s : S) (b n : ℕ) → (write_byte s b).0 ≡ suc n → out (write_byte s b).1 ≡ out s ++ b ∷ []

module _ {S : Type 0} (write_byte : S → ℕ → ℕ × S) (laws : WriterLaws write_byte) where
  open laws use {out, refuses, writes}

  -- The first bytes of a text, as many as the count says.
  abbrev Counted : S → List ℕ → ℕ × S → Type 0
  Counted s text r = (r.0 ≤ length text) × (out r.1 ≡ out s ++ take r.0 text)

  onward-Counted :
      (s : S) (b : ℕ) (bs : List ℕ) (rest : S → ℕ × S) (r : ℕ × S)
      → (r.0 ≡ 0 → out r.1 ≡ out s)
      → ((n : ℕ) → r.0 ≡ suc n → out r.1 ≡ out s ++ b ∷ [])
      → ((t : S) → Counted t bs (rest t))
      → Counted s (b ∷ bs) (onward r rest)
  onward-Counted s b bs rest (zero, t) h k c = (omega arith, h refl ∙ sym (append-nil (out s)))
  onward-Counted s b bs rest (suc n, t) h k c =
      let d = c t in
      (
        omega (arith, d.0),
        d.1
            ∙ ap (λ xs. xs ++ take (rest t).0 bs) (k n refl)
            ∙ append_assoc (out s) (b ∷ []) (take (rest t).0 bs),
      )

  write-Counted : (s : S) (text : List ℕ) → Counted s text (write write_byte s text)
  unfolding write
  write-Counted s [] = (omega arith, sym (append-nil (out s)))
  write-Counted s (b ∷ bs) =
      onward-Counted s b bs (λ t. write write_byte t bs) (write_byte s b) (λ e. refuses s b e)
        (λ n e. writes s b n e) (λ t. write-Counted t bs)

  -- Over such a class println writes the first m bytes of the text up to its first NUL, and behind them the first n
  -- of CR and LF, and its count is m + n, whichever bytes the class refuses.
  pub println-Counted :
      (s : S) (text : String)
      → let r = println (write write_byte) s text in
        (m : ℕ) × (n : ℕ) × (r.0 ≡ m + n)
        × (m ≤ length (until_nul text.value))
        × (n ≤ 2)
        × (out r.1 ≡ out s ++ (take m (until_nul text.value) ++ take n (13 ∷ 10 ∷ [])))
  unfolding println print end_line write_cstr
  println-Counted s text =
      let p = write write_byte s (until_nul text.value) in
      let e = write write_byte p.1 (13 ∷ 10 ∷ []) in
      let c = write-Counted s (until_nul text.value) in
      let d = write-Counted p.1 (13 ∷ 10 ∷ []) in
      (
        p.0,
        e.0,
        refl,
        c.0,
        omega (arith, d.0),
        d.1 ∙ ap (λ xs. xs ++ take e.0 (13 ∷ 10 ∷ [])) c.1 ∙ append_assoc (out s) _ _,
      )
