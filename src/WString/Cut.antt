-- ===== src/WString/Cut.antt =====
-- substring, remove, trim and the indexing of WString.h.
use bit_magic_zi_modem.Base.{
  ℕ, zero, suc, ◌+◌, ◌-◌, ◌%◌, ◌^◌, ◌≤◌, ◌<◌, ◌≡◌, refl, sym, ap, ◌∙◌, ◌≢◌, inl, inr, Bool, true,
  false, ◌&&◌, none, some, List, [], ◌∷◌, ◌++◌, arith, ltb, leb, ◌==◌, leb→le, ltb→lt, Bool-cases,
  Option-cases, if◌then◌else◌, length, get_or, set, take, drop, take_all, drop_all,
  take-append-drop, length-take, length-drop, drop-drop, All,
}
use mathlib.Core.List.{append_assoc}
use bit_magic_zi_modem.WString.{
  String, plus, char_at, set_char_at, substring, substring_from, until_nul, remove, trim, is_blank,
  first_not_blank, last_not_blank,
}

take-nil : (n : ℕ) → take {A = ℕ} n [] ≡ []
take-nil zero = refl
take-nil (suc n) = refl

-- substring(left, right) is the bytes from `left` up to `right`, as far as the string goes, and
-- cut again at the first NUL byte among them.
pub substring_lem :
    (s : String) (left right : ℕ)
    → length s.value < 2 ^ 32
    → left < 2 ^ 32
    → right < 2 ^ 32
    → (substring s left right).value ≡ until_nul (take (right - left) (drop left s.value))
unfolding substring
substring_lem s left right hs hl hr = elim (Bool-cases (leb (length s.value) left)) [
  | inl e ↦ rw (e, drop_all left s.value (leb→le (length s.value) left e), take-nil (right - left))
  | inr e ↦ elim (Bool-cases (leb right left)) [
    | inl f ↦ let z : right - left ≡ 0 = ground arith in rw (e, f, z)
    | inr f ↦ elim (Bool-cases (ltb (length s.value) right)) [
      | inl g ↦
          let c : (length s.value % 2 ^ 32 + 2 ^ 32 - left) % 2 ^ 32 ≡ length s.value - left =
            ground arith in
          rw (e, f, g, c)
            (ap until_nul (
              take_all (length s.value - left) (drop left s.value)
                (omega (arith, length-drop left s.value))
              ∙ sym (
                  take_all (right - left) (drop left s.value)
                    (omega (arith, length-drop left s.value, ltb→lt (length s.value) right g)))))
      | inr g ↦
          let c : (right + 2 ^ 32 - left) % 2 ^ 32 ≡ right - left = ground arith in rw (e, f, g, c)
    ]
  ]
]

abbrev pub IsNulFree : List ℕ → Type 0
IsNulFree = All (λ c. c ≢ 0)

until_nul-IsNulFree : (xs : List ℕ) → IsNulFree xs → until_nul xs ≡ xs
until_nul-IsNulFree [] h = refl
until_nul-IsNulFree (x ∷ xs) h = ground (arith, until_nul-IsNulFree xs h.1)

take-IsNulFree : (n : ℕ) (xs : List ℕ) → IsNulFree xs → IsNulFree (take n xs)
take-IsNulFree zero xs h = tt
take-IsNulFree (suc n) [] h = tt
take-IsNulFree (suc n) (x ∷ xs) h = (h.0, take-IsNulFree n xs h.1)

drop-IsNulFree : (n : ℕ) (xs : List ℕ) → IsNulFree xs → IsNulFree (drop n xs)
drop-IsNulFree zero xs h = h
drop-IsNulFree (suc n) [] h = tt
drop-IsNulFree (suc n) (x ∷ xs) h = drop-IsNulFree n xs h.1

-- Without NUL bytes substring loses nothing.
substring-exact :
    (s : String) (left right : ℕ)
    → length s.value < 2 ^ 32
    → left < 2 ^ 32
    → right < 2 ^ 32
    → IsNulFree s.value
    → (substring s left right).value ≡ take (right - left) (drop left s.value)
substring-exact s left right hs hl hr f =
    substring_lem s left right hs hl hr
    ∙ until_nul-IsNulFree _ (take-IsNulFree (right - left) _ (drop-IsNulFree left s.value f))

substring_from-exact :
    (s : String) (left : ℕ)
    → length s.value < 2 ^ 32
    → left < 2 ^ 32
    → IsNulFree s.value
    → (substring_from s left).value ≡ drop left s.value
unfolding substring_from
substring_from-exact s left hs hl f =
    let e : length s.value % 2 ^ 32 ≡ length s.value = omega arith in
    ap (λ k. (substring s left k).value) e
    ∙ substring-exact s left (length s.value) hs hl hs f
    ∙ (take_all (length s.value - left) (drop left s.value)
        (omega (arith, length-drop left s.value)))

-- A string without NUL bytes is put together again from the substrings before and after an index.
pub plus-substring :
    (s : String) (k : ℕ)
    → length s.value < 2 ^ 32
    → k < 2 ^ 32
    → IsNulFree s.value
    → plus (substring s 0 k) (substring_from s k) ≡ s
unfolding plus
plus-substring s k hs hk f =
    let z : k - 0 ≡ k = omega arith in
    rw (substring-exact s 0 k hs (omega arith) hk f, substring_from-exact s k hs hk f, z)
      (ap (λ v. record { value = v }) (take-append-drop k s.value))

-- remove(index, count) leaves the substrings before `index` and from `index + count` on, and
-- leaves the string alone where `index` is past its end.
pub remove-substring :
    (s : String) (index count : ℕ)
    → length s.value < 2 ^ 32
    → index + count < 2 ^ 32
    → IsNulFree s.value
    → remove s index count ≡ plus (substring s 0 index) (substring_from s (index + count))
unfolding remove plus
remove-substring s index count hs hk f =
    let z : index - 0 ≡ index = omega arith in
    rw
      (
        substring-exact s 0 index hs (omega arith) (omega arith) f,
        substring_from-exact s (index + count) hs hk f,
        z,
      )
      (elim (Bool-cases (ltb index (length s.value))) [
        | inl e ↦ rw e
        | inr e ↦
            let past : length s.value ≤ index = ground arith in
            rw (e, take_all index s.value past, drop_all (index + count) s.value (omega arith))
              (ap (λ v. record { value = v }) (nil-right s.value))
      ])
  where
    nil-right : (xs : List ℕ) → xs ≡ xs ++ []
    nil-right [] = refl
    nil-right (x ∷ xs) = ap (◌∷◌ x) (nil-right xs)

get_or-set :
    (xs : List ℕ) (i j v : ℕ)
    → i < length xs
    → get_or (set xs i v) j 0 ≡ (if i == j then v else get_or xs j 0)
get_or-set [] i j v h = absurd (omega arith)
get_or-set (x ∷ xs) zero zero v h = refl
get_or-set (x ∷ xs) zero (suc j) v h = ground arith
get_or-set (x ∷ xs) (suc i) zero v h = ground arith
get_or-set (x ∷ xs) (suc i) (suc j) v h = ground (arith, get_or-set xs i j v)

length-set : (xs : List ℕ) (i v : ℕ) → length (set xs i v) ≡ length xs
length-set [] i v = refl
length-set (x ∷ xs) zero v = refl
length-set (x ∷ xs) (suc i) v = ap suc (length-set xs i v)

-- A write through operator[] shows at its index alone, and out of range it shows nowhere.
pub char_at-set_char_at :
    (s : String) (i j c : ℕ)
    → char_at (set_char_at s i c) j ≡ (if i == j && ltb i (length s.value) then c else char_at s j)
unfolding char_at set_char_at
char_at-set_char_at s i j c = elim (Bool-cases (ltb i (length s.value))) [
  | inl e ↦
      rw (e, length-set s.value i c, get_or-set s.value i j c (ltb→lt i (length s.value) e))
        (ground arith)
  | inr e ↦ rw e (ground arith)
]

-- What trim leaves: the text between the first and the last byte that is no blank.
pub data Trimmed (v t : List ℕ) : Type 0 where
  blank : All (λ c. is_blank c ≡ true) v → t ≡ [] → Trimmed v t
  between :
      (pre post : List ℕ)
      → v ≡ pre ++ t ++ post
      → All (λ c. is_blank c ≡ true) pre
      → All (λ c. is_blank c ≡ true) post
      → 0 < length t
      → is_blank (get_or t 0 0) ≡ false
      → is_blank (get_or t (length t - 1) 0) ≡ false
      → Trimmed v t

abbrev AllBlank : List ℕ → Type 0
AllBlank = All (λ c. is_blank c ≡ true)

first_not_blank-some :
    (xs : List ℕ) (i : ℕ) {p : ℕ}
    → first_not_blank xs i ≡ some p
    → (k : ℕ) × (p ≡ i + k)
      × (k < length xs)
      × (is_blank (get_or xs k 0) ≡ false)
      × AllBlank (take k xs)
unfolding first_not_blank
first_not_blank-some [] i h = cc
first_not_blank-some (x ∷ xs) i {p} h = elim (Bool-cases (is_blank x)) [
  | inl e ↦
      let r = first_not_blank-some xs (i + 1) {p = p} (rw e at h) in
      (suc r.0, omega (arith, r.1), omega (arith, r.2), r.3, (e, r.4))
  | inr e ↦ (0, ground arith, omega arith, e, tt)
]

first_not_blank-none : (xs : List ℕ) (i : ℕ) → first_not_blank xs i ≡ none → AllBlank xs
unfolding first_not_blank
first_not_blank-none [] i h = tt
first_not_blank-none (x ∷ xs) i h = elim (Bool-cases (is_blank x)) [
  | inl e ↦ (e, first_not_blank-none xs (i + 1) (rw e at h))
  | inr e ↦ ground arith
]

data Last (xs : List ℕ) (i best r : ℕ) : Type 0 where
  kept : AllBlank xs → r ≡ best → Last xs i best r
  found :
      (k : ℕ)
      → r ≡ i + k
      → k < length xs
      → is_blank (get_or xs k 0) ≡ false
      → AllBlank (drop (suc k) xs)
      → Last xs i best r

last_not_blank-Last : (xs : List ℕ) (i best : ℕ) → Last xs i best (last_not_blank xs i best)
unfolding last_not_blank
last_not_blank-Last [] i best = kept tt refl
last_not_blank-Last (x ∷ xs) i best = elim (Bool-cases (is_blank x)) [
  | inl e ↦ rw e (old e (last_not_blank-Last xs (i + 1) best))
  | inr e ↦ rw e (new e (last_not_blank-Last xs (i + 1) i))
]
  where
    old : is_blank x ≡ true → {r : ℕ} → Last xs (i + 1) best r → Last (x ∷ xs) i best r
    old e (kept a q) = kept (e, a) q
    old e (found k q w n a) = found (suc k) (omega arith) (omega arith) n a

    new : is_blank x ≡ false → {r : ℕ} → Last xs (i + 1) i r → Last (x ∷ xs) i best r
    new e (kept a q) = found 0 (omega arith) (omega arith) e a
    new e (found k q w n a) = found (suc k) (omega arith) (omega arith) n a

-- A byte past a blank tail's start is blank.
blank_in_tail :
    (xs : List ℕ) (n j : ℕ)
    → AllBlank (drop n xs)
    → n ≤ j
    → j < length xs
    → is_blank (get_or xs j 0) ≡ true
blank_in_tail [] n j a l h = absurd (omega arith)
blank_in_tail (x ∷ xs) zero zero a l h = a.0
blank_in_tail (x ∷ xs) zero (suc j) a l h = blank_in_tail xs zero j a.1 (omega arith) (omega arith)
blank_in_tail (x ∷ xs) (suc n) zero a l h = absurd (omega arith)
blank_in_tail (x ∷ xs) (suc n) (suc j) a l h = blank_in_tail xs n j a (omega arith) (omega arith)

get_or-take : (xs : List ℕ) (n j : ℕ) → j < n → get_or (take n xs) j 0 ≡ get_or xs j 0
get_or-take xs zero j h = absurd (omega arith)
get_or-take [] (suc n) j h = refl
get_or-take (x ∷ xs) (suc n) zero h = refl
get_or-take (x ∷ xs) (suc n) (suc j) h = get_or-take xs n j (omega arith)

get_or-drop : (xs : List ℕ) (n j : ℕ) → get_or (drop n xs) j 0 ≡ get_or xs (n + j) 0
get_or-drop xs zero j = ap (λ k. get_or xs k 0) (omega arith)
get_or-drop [] (suc n) j = refl
get_or-drop (x ∷ xs) (suc n) j =
    let e : suc n + j ≡ suc (n + j) = omega arith in rw e (get_or-drop xs n j)

window-Trimmed :
    (v : List ℕ) (s e : ℕ)
    → s < length v
    → e < length v
    → AllBlank (take s v)
    → AllBlank (drop (suc e) v)
    → is_blank (get_or v s 0) ≡ false
    → is_blank (get_or v e 0) ≡ false
    → Trimmed v (take (e - s + 1) (drop s v))
window-Trimmed v s e hs he a b x y =
    let order : s ≤ e = elim (Bool-cases (leb s e)) [
      | inl f ↦ leb→le s e f
      | inr f ↦ absurd (clash (blank_in_tail v (suc e) s b (ground arith) hs) x)
    ] in
    let n : length (take (e - s + 1) (drop s v)) ≡ e - s + 1 =
      omega (arith, length-take (e - s + 1) (drop s v), length-drop s v) in
    let tail : s + (e - s + 1) ≡ suc e = omega arith in
    let z : s + 0 ≡ s = omega arith in
    let last : s + (e - s + 1 - 1) ≡ e = omega arith in
    between (take s v) (drop (suc e) v)
      (sym (take-append-drop s v)
        ∙ ap (λ w. take s v ++ w)
            (sym (take-append-drop (e - s + 1) (drop s v))
              ∙ ap (λ w. take (e - s + 1) (drop s v) ++ w)
                  (drop-drop (e - s + 1) s v ∙ ap (λ k. drop k v) tail))
        ∙ sym (append_assoc (take s v) (take (e - s + 1) (drop s v)) (drop (suc e) v)))
      a b (omega (arith, n))
      (rw (get_or-take (drop s v) (e - s + 1) 0 (omega arith), get_or-drop v s 0, z) x)
      (rw
        (
          n,
          get_or-take (drop s v) (e - s + 1) (e - s + 1 - 1) (omega arith),
          get_or-drop v s (e - s + 1 - 1),
          last,
        )
        y)
  where
    clash : {b : Bool} → b ≡ true → b ≡ false → ⊥
    clash p q = cc

-- trim drops the blanks (space, tab, CR, LF) at both ends and nothing else: what is left begins
-- and ends with a byte that is no blank, or is empty where all bytes are blank.
pub trim-Trimmed : (s : String) → Trimmed s.value (trim s).value
unfolding trim
trim-Trimmed s = elim (Option-cases (first_not_blank s.value 0)) [
  | inl n ↦ rw (n, trim) (blank (first_not_blank-none s.value 0 n) refl)
  | inr (p, q) ↦
      let r = first_not_blank-some s.value 0 {p = p} q in
      let e : p ≡ r.0 = omega (arith, r.1) in
      rw (q, trim, e) (finish r.0 r.2 r.3 r.4 (last_not_blank-Last s.value 0 0))
]
  where
    finish :
        (k : ℕ)
        → k < length s.value
        → is_blank (get_or s.value k 0) ≡ false
        → AllBlank (take k s.value)
        → {e : ℕ} → Last s.value 0 0 e
        → Trimmed s.value (take (e - k + 1) (drop k s.value))
    finish k w x a (kept b q) = absurd (contra (blank_in_tail s.value 0 k b (omega arith) w) x)
      where
        contra : {b : Bool} → b ≡ true → b ≡ false → ⊥
        contra p q = cc
    finish k w x a {e} (found m q v y b) =
        let f : e ≡ m = omega arith in rw f (window-Trimmed s.value k m w v a b x y)
