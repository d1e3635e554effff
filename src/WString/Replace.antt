-- ===== src/WString/Replace.antt =====
-- The loop of String::replace(find, rep) against a relation between the text and its replacement.
use bit_magic_zi_modem.Base.{
  ℕ, zero, suc, ◌+◌, ◌≤◌, ◌<◌, ◌≡◌, refl, ap, ◌∙◌, ◌≢◌, inl, inr, false, some, List, [], ◌∷◌, ◌++◌,
  arith, le→leb, Option-cases, length, take, drop, length-append, length-take, length-drop,
  drop-append_self,
}
use mathlib.Core.List.{append_assoc}
use bit_magic_zi_modem.WString.{String, is_empty, find_at, find, replace_loop, replace}
use bit_magic_zi_modem.WString.Search.{Matches, Found, find_at-some, find_at-none}

-- `ys` is `xs` with each match of `pat`, found from left to right without overlap, replaced.
pub data Replaced (pat rep : List ℕ) : List ℕ → List ℕ → Type 0 where
  rest : (xs : List ℕ) → ((j : ℕ) → j ≤ length xs → ¬ Matches pat xs j) → Replaced pat rep xs xs
  next :
      (xs ys : List ℕ) (k : ℕ)
      → Matches pat xs k
      → ((j : ℕ) → j < k → ¬ Matches pat xs j)
      → Replaced pat rep (drop (k + length pat) xs) ys
      → Replaced pat rep xs (take k xs ++ rep ++ ys)

find_after :
    (done tail pat : List ℕ)
    → find (done ++ tail) pat (length done) ≡ find_at pat tail (length done)
unfolding find
find_after done tail pat = rw (
  le→leb (length done) (length (done ++ tail)) (omega (arith, length-append done tail)),
  drop-append_self done tail,
)

take-append_more : (xs ys : List ℕ) (k : ℕ) → take (length xs + k) (xs ++ ys) ≡ xs ++ take k ys
take-append_more [] ys k = ap (λ n. take n ys) (omega arith)
take-append_more (x ∷ xs) ys k =
    let e : suc (length xs) + k ≡ suc (length xs + k) = omega arith in
    rw e (ap (◌∷◌ x) (take-append_more xs ys k))

drop-append_more : (xs ys : List ℕ) (k : ℕ) → drop (length xs + k) (xs ++ ys) ≡ drop k ys
drop-append_more [] ys k = ap (λ n. drop n ys) (omega arith)
drop-append_more (x ∷ xs) ys k =
    let e : suc (length xs) + k ≡ suc (length xs + k) = omega arith in
    rw e (drop-append_more xs ys k)

Matches-fits :
    (pat xs : List ℕ) (k : ℕ) → Matches pat xs k → is_empty pat ≡ false → k + length pat ≤ length xs
Matches-fits [] xs k m e = ground arith
Matches-fits (p ∷ ps) xs k m e =
    omega (arith, ap length m, length-take (length (p ∷ ps)) (drop k xs), length-drop k xs)

is_empty→pos : (pat : List ℕ) → is_empty pat ≡ false → 0 < length pat
is_empty→pos [] e = ground arith
is_empty→pos (p ∷ ps) e = omega arith

-- One round of the loop, with the text split at the position that it has reached.
loop_hit :
    (fuel : ℕ) (done tail pat rep : List ℕ) (k : ℕ)
    → find_at pat tail (length done) ≡ some (length done + k)
    → k ≤ length tail
    → replace_loop (suc fuel) (done ++ tail) pat rep (length done)
      ≡ replace_loop fuel
          ((done ++ take k tail ++ rep) ++ drop (k + length pat) tail)
          pat
          rep
          (length (done ++ take k tail ++ rep))
unfolding replace_loop
loop_hit fuel done tail pat rep k h w =
    let e : length done + k + length pat ≡ length done + (k + length pat) = omega arith in
    let l : length done + k + length rep ≡ length (done ++ take k tail ++ rep) = omega (
      arith,
      length-append (done ++ take k tail) rep,
      length-append done (take k tail),
      length-take k tail,
    ) in
    rw (find_after done tail pat, h, replace_loop)
      (rw (take-append_more done tail k, e, drop-append_more done tail (k + length pat), l)
        (ap (λ v. replace_loop fuel v pat rep (length (done ++ take k tail ++ rep)))
          (simp append_assoc)))

replace_loop-Replaced :
    (fuel : ℕ) (done tail pat rep : List ℕ)
    → is_empty pat ≡ false
    → length tail < fuel
    → (ys : List ℕ) × Replaced pat rep tail ys
      × (replace_loop fuel (done ++ tail) pat rep (length done) ≡ some (done ++ ys))
unfolding replace_loop
replace_loop-Replaced zero done tail pat rep ne h = absurd (omega arith)
replace_loop-Replaced (suc fuel) done tail pat rep ne h =
    elim (Option-cases (find_at pat tail (length done))) [
      | inl n ↦ (
        tail,
        rest tail (find_at-none pat tail (length done) n),
        rw (find_after done tail pat, n, replace_loop),
      )
      | inr (p, q) ↦
          let r : (k : ℕ) × (p ≡ length done + k) × Found pat tail k =
            find_at-some pat tail (length done) q in
          let fits = Matches-fits pat tail r.0 r.2.here ne in
          let ih =
            replace_loop-Replaced fuel (done ++ take r.0 tail ++ rep) (drop (r.0 + length pat) tail)
              pat rep ne
              (omega (arith, length-drop (r.0 + length pat) tail, is_empty→pos pat ne)) in
          (
            take r.0 tail ++ rep ++ ih.0,
            next tail ih.0 r.0 r.2.here r.2.before ih.1,
            loop_hit fuel done tail pat rep r.0 (q ∙ ap some r.1) r.2.within
                ∙ ih.2
                ∙ ap some (simp append_assoc),
          )
    ]

-- replace(find, rep) with a non-empty `find` always ends, and its result is the text with each
-- match of `find`, taken from left to right without overlap, replaced by `rep`.
pub replace-Replaced :
    (s find rep : String)
    → find.value ≢ []
    → (t : String) × (replace s find rep ≡ some t) × Replaced find.value rep.value s.value t.value
unfolding replace
replace-Replaced s pat rep ne =
    let e : is_empty pat.value ≡ false = not_empty pat.value ne in
    let r =
      replace_loop-Replaced (suc (length s.value)) [] s.value pat.value rep.value e (omega arith) in
    (record { value = r.0 }, rw (e, r.2), r.1)
  where
    not_empty : (xs : List ℕ) → xs ≢ [] → is_empty xs ≡ false
    not_empty [] n = absurd (n refl)
    not_empty (x ∷ xs) n = refl

-- With an empty `find` the string is left as it is.
replace_empty : (s rep : String) → replace s (record { value = [] }) rep ≡ some s
unfolding replace
replace_empty s rep = refl
