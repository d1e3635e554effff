-- ===== src/WString/Compare.antt =====
-- The comparisons of WString.h: what each Boolean answer means.
use bit_magic_zi_modem.Base.{
  ℕ, ◌-◌, ◌≡◌, refl, sym, ap, ◌∙◌, ◌↔◌, Bool, true, false, ◌&&◌, List, [], ◌∷◌, ◌++◌, map, arith,
  leb, leb→le, le→leb, ◌==◌, if◌then◌else◌, length, take, drop, length-append, take-append-drop,
  take-append_self, drop-append_self, bytes_eq, bytes_eq→eq, bytes_eq_refl, take_all, length-drop,
}
use bit_magic_zi_modem.WString.{
  String, equals, equals_ignore_case, lower_loop, tolower, to_lower_case, starts_with, ends_with,
}

-- equals and operator== hold exactly of equal strings.
pub equals_iff : (s t : String) → (equals s t ≡ true) ↔ (s ≡ t)
unfolding equals
equals_iff s t = (
  λ h. ap (λ v. record { value = v }) (bytes_eq→eq s.value t.value h),
  λ e. rw e (bytes_eq_refl t.value),
)

&&-true : (a b : Bool) → (a && b) ≡ true → (a ≡ true) × (b ≡ true)
&&-true a b h = ground arith

-- startsWith(prefix) holds exactly if the string is the prefix followed by some rest.
pub starts_with_iff :
    (s p : String) → (starts_with s p ≡ true) ↔ ((rest : List ℕ) × (s.value ≡ p.value ++ rest))
unfolding starts_with
starts_with_iff s p = (there, back)
  where
    there : starts_with s p ≡ true → (rest : List ℕ) × (s.value ≡ p.value ++ rest)
    there h =
        let e : take (length p.value) s.value ≡ p.value =
          bytes_eq→eq (take (length p.value) s.value) p.value
            (&&-true (leb (length p.value) (length s.value)) _ h).1 in
        (
          drop (length p.value) s.value,
          sym (take-append-drop (length p.value) s.value)
              ∙ ap (λ v. v ++ drop (length p.value) s.value) e,
        )

    back : (rest : List ℕ) × (s.value ≡ p.value ++ rest) → starts_with s p ≡ true
    back (rest, e) = rw (
      e,
      take-append_self p.value rest,
      bytes_eq_refl p.value,
      le→leb (length p.value) (length (p.value ++ rest))
          (omega (arith, length-append p.value rest)),
    )

-- endsWith(suffix) holds exactly if the string is some rest followed by the suffix.
pub ends_with_iff :
    (s p : String) → (ends_with s p ≡ true) ↔ ((rest : List ℕ) × (s.value ≡ rest ++ p.value))
unfolding ends_with
ends_with_iff s p = (there, back)
  where
    there : ends_with s p ≡ true → (rest : List ℕ) × (s.value ≡ rest ++ p.value)
    there h =
        let k : ℕ = length s.value - length p.value in
        let parts =
          &&-true (leb (length p.value) (length s.value))
            (bytes_eq (take (length p.value) (drop k s.value)) p.value) h in
        let e = bytes_eq→eq (take (length p.value) (drop k s.value)) p.value parts.1 in
        let whole : take (length p.value) (drop k s.value) ≡ drop k s.value =
          take_all (length p.value) (drop k s.value) (
            omega
              (arith, length-drop k s.value, leb→le (length p.value) (length s.value) parts.0)) in
        (
          take k s.value,
          sym (take-append-drop k s.value) ∙ ap (λ v. take k s.value ++ v) (sym whole ∙ e),
        )

    back : (rest : List ℕ) × (s.value ≡ rest ++ p.value) → ends_with s p ≡ true
    back (rest, e) =
        let k : length (rest ++ p.value) - length p.value ≡ length rest =
          omega (arith, length-append rest p.value) in
        rw (
          e,
          k,
          drop-append_self rest p.value,
          take_all (length p.value) p.value (omega arith),
          bytes_eq_refl p.value,
          le→leb (length p.value) (length (rest ++ p.value))
              (omega (arith, length-append rest p.value)),
        )

lower_loop-map :
    (xs ys : List ℕ)
    → (if length xs == length ys then lower_loop xs ys else false)
      ≡ bytes_eq (map tolower xs) (map tolower ys)
unfolding lower_loop
lower_loop-map [] [] = refl
lower_loop-map [] (y ∷ ys) = ground arith
lower_loop-map (x ∷ xs) [] = ground arith
lower_loop-map (x ∷ xs) (y ∷ ys) = ground (arith, lower_loop-map xs ys)

-- equalsIgnoreCase answers as equals does of the two strings after toLowerCase.
pub equals_ignore_case-to_lower_case :
    (s t : String) → equals_ignore_case s t ≡ equals (to_lower_case s) (to_lower_case t)
unfolding equals_ignore_case equals to_lower_case
equals_ignore_case-to_lower_case s t = lower_loop-map s.value t.value
