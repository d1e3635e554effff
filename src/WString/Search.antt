-- ===== src/WString/Search.antt =====
-- indexOf and lastIndexOf of WString.h against an independent description of a match.
use bit_magic_zi_modem.Base.{
  ℕ, zero, suc, ◌+◌, ◌-◌, ◌^◌, ◌≤◌, ◌<◌, ◌≡◌, refl, ap, ◌∙◌, inl, inr, true, false, Option, none,
  some, List, [], ◌∷◌, arith, leb, Bool-cases, Option-cases, length, take, drop, drop-drop,
  length-drop, leb→le,
}
use bit_magic_zi_modem.Base.Int.{ℤ, pos, minus_one, to_int_small}
use bit_magic_zi_modem.WString.{
  String, is_prefix, is_empty, find_at, find, rfind_at, index_of, last_index_of, find_to_int,
}

-- The pattern stands in the text at index `i`.
abbrev pub Matches : List ℕ → List ℕ → ℕ → Type 0
Matches pat v i = take (length pat) (drop i v) ≡ pat

is_prefix→take : (pat xs : List ℕ) → is_prefix pat xs ≡ true → take (length pat) xs ≡ pat
is_prefix→take [] xs h = refl
is_prefix→take (p ∷ ps) [] h = ground arith
is_prefix→take (p ∷ ps) (x ∷ xs) h = ground (arith, is_prefix→take ps xs)

take→is_prefix : (pat xs : List ℕ) → take (length pat) xs ≡ pat → is_prefix pat xs ≡ true
take→is_prefix [] xs h = refl
take→is_prefix (p ∷ ps) [] h = cc
take→is_prefix (p ∷ ps) (x ∷ xs) h = ground (arith, take→is_prefix ps xs)

is_empty→eq : (pat : List ℕ) → is_empty pat ≡ true → pat ≡ []
is_empty→eq [] h = refl
is_empty→eq (p ∷ ps) h = ground arith

-- What a search that starts at the bytes `xs` finds: the least index of a match.
pub record Found (pat xs : List ℕ) (k : ℕ) : Type 0 where
  pub within : k ≤ length xs
  pub here : Matches pat xs k
  pub before : (j : ℕ) → j < k → ¬ Matches pat xs j

pub find_at-some :
    (pat xs : List ℕ) (i : ℕ) {p : ℕ}
    → find_at pat xs i ≡ some p
    → (k : ℕ) × (p ≡ i + k) × Found pat xs k
unfolding find_at
find_at-some pat [] i {p} h = elim (Bool-cases (is_empty pat)) [
  | inl e ↦ (
    0,
    ground arith,
    record {
      within = omega arith;
      here = rw (is_empty→eq pat e);
      before = λ j l. absurd (omega arith);
    },
  )
  | inr e ↦ ground arith
]
find_at-some pat (x ∷ xs) i {p} h = elim (Bool-cases (is_prefix pat (x ∷ xs))) [
  | inl e ↦ (
    0,
    ground arith,
    record {
      within = omega arith;
      here = is_prefix→take pat (x ∷ xs) e;
      before = λ j l. absurd (omega arith);
    },
  )
  | inr e ↦
      let r : (k : ℕ) × (p ≡ (i + 1) + k) × Found pat xs k =
        find_at-some pat xs (i + 1) (rw e at h) in
      (
        suc r.0,
        omega arith,
        record { within = omega (arith, r.2.within); here = r.2.here; before = later e r.2.before },
      )
]
  where
    later :
        is_prefix pat (x ∷ xs) ≡ false
        → {k : ℕ} → ((j : ℕ) → j < k → ¬ Matches pat xs j)
        → (j : ℕ) → j < suc k
        → ¬ Matches pat (x ∷ xs) j
    later e b zero l m = ground (arith, take→is_prefix pat (x ∷ xs) m)
    later e b (suc j) l m = b j (omega arith) m

pub find_at-none :
    (pat xs : List ℕ) (i : ℕ)
    → find_at pat xs i ≡ none
    → (j : ℕ) → j ≤ length xs
    → ¬ Matches pat xs j
unfolding find_at
find_at-none [] [] i h j l m = ground arith
find_at-none (p ∷ ps) [] i h zero l m = cc
find_at-none (p ∷ ps) [] i h (suc j) l m = absurd (omega arith)
find_at-none pat (x ∷ xs) i h zero l m = ground (arith, take→is_prefix pat (x ∷ xs) m)
find_at-none pat (x ∷ xs) i h (suc j) l m = elim (Bool-cases (is_prefix pat (x ∷ xs))) [
  | inl e ↦ ground arith
  | inr e ↦ find_at-none pat xs (i + 1) (rw e at h) j (omega arith) m
]

-- What `find` from `from` on returns.
data Sought (pat v : List ℕ) (from : ℕ) : Option ℕ → Type 0 where
  hit :
      (p : ℕ)
      → from ≤ p
      → p ≤ length v
      → Matches pat v p
      → ((j : ℕ) → from ≤ j → j < p → ¬ Matches pat v j)
      → Sought pat v from (some p)
  miss : ((j : ℕ) → from ≤ j → j ≤ length v → ¬ Matches pat v j) → Sought pat v from none

Matches-shift :
    (pat v : List ℕ) {from j : ℕ}
    → from ≤ j
    → Matches pat v j
    → Matches pat (drop from v) (j - from)
Matches-shift pat v {from} {j} h m =
    let e : from + (j - from) ≡ j = omega arith in rw (drop-drop (j - from) from v, e) m

find-Sought : (pat v : List ℕ) (from : ℕ) → Sought pat v from (find v pat from)
unfolding find
find-Sought pat v from = elim (Bool-cases (leb from (length v))) [
  | inr e ↦ rw e (miss (λ j l b m. ground arith))
  | inl e ↦ rw e (elim (Option-cases (find_at pat (drop from v) from)) [
    | inl n ↦ rw n (
        miss (λ j l b m.
          find_at-none pat (drop from v) from n (j - from) (omega (arith, length-drop from v))
            (Matches-shift pat v l m)))
    | inr (p, q) ↦
        let r : (k : ℕ) × (p ≡ from + k) × Found pat (drop from v) k = find_at-some pat _ from q in
        let m : Matches pat v (from + r.0) = rw drop-drop at r.2.here in
        rw (q, r.1)
          (hit (from + r.0) (omega arith)
            (omega (arith, r.2.within, length-drop from v, leb→le from (length v) e)) m
            (λ j l b n. r.2.before (j - from) (omega arith) (Matches-shift pat v l n)))
  ])
]

-- What indexOf(s, from) answers, seen as a search for the bytes of `s`.
pub data IndexOf (pat v : List ℕ) (from : ℕ) (answer : ℤ) : Type 0 where
  at :
      (p : ℕ)
      → answer ≡ pos p
      → from ≤ p
      → p ≤ length v
      → Matches pat v p
      → ((j : ℕ) → from ≤ j → j < p → ¬ Matches pat v j)
      → IndexOf pat v from answer
  nowhere :
      answer ≡ minus_one
      → ((j : ℕ) → from ≤ j → j ≤ length v → ¬ Matches pat v j)
      → IndexOf pat v from answer

Sought-IndexOf :
    (pat v : List ℕ) (from : ℕ) {o : Option ℕ}
    → length v < 2 ^ 31
    → Sought pat v from o
    → IndexOf pat v from (find_to_int o)
Sought-IndexOf pat v from small (hit p a b m k) = at p (to_int_small p (omega arith)) a b m k
Sought-IndexOf pat v from small (miss k) = nowhere refl k

-- indexOf(s, fromIndex) is the first index from `fromIndex` on at which `s` stands in the string,
-- and -1 exactly if there is none, for a string shorter than 2^31 bytes.
pub index_of-IndexOf :
    (s t : String) (from : ℕ)
    → length s.value < 2 ^ 31
    → IndexOf t.value s.value from (index_of s t from)
unfolding index_of
index_of-IndexOf s t from small =
    Sought-IndexOf t.value s.value from small (find-Sought t.value s.value from)

-- What the scan of `rfind` over the bytes `xs` leaves.
data LastFound (pat xs : List ℕ) (i : ℕ) (best : Option ℕ) (answer : Option ℕ) : Type 0 where
  found :
      (k : ℕ)
      → answer ≡ some (i + k)
      → k ≤ length xs
      → Matches pat xs k
      → ((j : ℕ) → k < j → j ≤ length xs → ¬ Matches pat xs j)
      → LastFound pat xs i best answer
  kept :
      answer ≡ best
      → ((j : ℕ) → j ≤ length xs → ¬ Matches pat xs j)
      → LastFound pat xs i best answer

no-match-nil : (pat : List ℕ) → is_empty pat ≡ false → (j : ℕ) → ¬ Matches pat [] j
no-match-nil [] e j m = ground arith
no-match-nil (p ∷ ps) e zero m = cc
no-match-nil (p ∷ ps) e (suc j) m = cc

rfind_at-LastFound :
    (pat xs : List ℕ) (i : ℕ) (best : Option ℕ) → LastFound pat xs i best (rfind_at pat xs i best)
unfolding rfind_at
rfind_at-LastFound pat [] i best = elim (Bool-cases (is_empty pat)) [
  | inl e ↦
      found 0 (ground arith) (omega arith) (rw (is_empty→eq pat e))
        (λ j a b m. absurd (omega arith))
  | inr e ↦ kept (rw e) (λ j l m. no-match-nil pat e j m)
]
rfind_at-LastFound pat (x ∷ xs) i best = elim (Bool-cases (is_prefix pat (x ∷ xs))) [
  | inl e ↦ rw e (head_hit e (rfind_at-LastFound pat xs (i + 1) (some i)))
  | inr e ↦ rw e (head_miss e (rfind_at-LastFound pat xs (i + 1) best))
]
  where
    after :
        (k : ℕ)
        → ((j : ℕ) → k < j → j ≤ length xs → ¬ Matches pat xs j)
        → (j : ℕ) → suc k < j
        → j ≤ length (x ∷ xs)
        → ¬ Matches pat (x ∷ xs) j
    after k f zero a b m = absurd (omega arith)
    after k f (suc j) a b m = f j (omega arith) (omega arith) m

    head_hit :
        is_prefix pat (x ∷ xs) ≡ true
        → {r : Option ℕ} → LastFound pat xs (i + 1) (some i) r
        → LastFound pat (x ∷ xs) i best r
    head_hit e (found k a w m f) =
        found (suc k) (a ∙ ap some (omega arith)) (omega arith) m (after k f)
    head_hit e {r} (kept a f) =
        found 0 (a ∙ ap some (omega arith)) (omega arith) (is_prefix→take pat (x ∷ xs) e)
          (elim [ zero ↦ λ p q m. absurd (omega arith) | suc j ↦ λ p q m. f j (omega arith) m ])

    head_miss :
        is_prefix pat (x ∷ xs) ≡ false
        → {r : Option ℕ} → LastFound pat xs (i + 1) best r
        → LastFound pat (x ∷ xs) i best r
    head_miss e (found k a w m f) =
        found (suc k) (a ∙ ap some (omega arith)) (omega arith) m (after k f)
    head_miss e (kept a f) = kept a (elim [
      | zero ↦ λ q m. ground (arith, take→is_prefix pat (x ∷ xs) m)
      | suc j ↦ λ q m. f j (omega arith) m
    ])

-- What lastIndexOf(s) answers.
pub data LastIndexOf (pat v : List ℕ) (answer : ℤ) : Type 0 where
  at :
      (p : ℕ)
      → answer ≡ pos p
      → p ≤ length v
      → Matches pat v p
      → ((j : ℕ) → p < j → j ≤ length v → ¬ Matches pat v j)
      → LastIndexOf pat v answer
  nowhere :
      answer ≡ minus_one → ((j : ℕ) → j ≤ length v → ¬ Matches pat v j) → LastIndexOf pat v answer

-- lastIndexOf(s) is the last index at which `s` stands in the string, and -1 exactly if there is
-- none, for a string shorter than 2^31 bytes.
pub last_index_of-LastIndexOf :
    (s t : String) → length s.value < 2 ^ 31 → LastIndexOf t.value s.value (last_index_of s t)
unfolding last_index_of
last_index_of-LastIndexOf s t small = answer (rfind_at-LastFound t.value s.value 0 none)
  where
    answer :
        {r : Option ℕ}
        → LastFound t.value s.value 0 none r
        → LastIndexOf t.value s.value (find_to_int r)
    answer (found k a w m f) =
        rw a (at k (to_int_small (0 + k) (omega arith) ∙ ap pos (omega arith)) w m f)
    answer (kept a f) = rw a (nowhere refl f)
