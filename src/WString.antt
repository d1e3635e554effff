-- ===== src/WString.antt =====
-- WString.h: the Arduino `String` over std::string.
-- A `std::string` is the list of its bytes. A `const char*` is `none` for a null pointer, and
-- otherwise the bytes before the terminating NUL. Operations that change the string return it.
-- `npos` is `none`. The search and cut functions of std::string are written out from their
-- standard definitions.
pub mod Search
pub mod Cut
pub mod Compare
pub mod Replace
pub mod Numbers
mod Tests
use bit_magic_zi_modem.Base.{
  ℕ, zero, suc, ◌+◌, ◌-◌, ◌%◌, ◌^◌, Bool, true, false, not, ◌&&◌, ◌||◌, Option, none, some, List,
  [], ◌∷◌, ◌++◌, map, ltb, leb, ◌==◌, if◌then◌else◌, length, get_or, set, take, drop, bytes_eq,
}
use bit_magic_zi_modem.Base.Int.{ℤ, to_int, minus_one}

abbrev pub CStr : Type 0
CStr = Option (List ℕ)

pub record String : Type 0 where
  pub value : List ℕ

-- The bytes that `value_(cstr ? cstr : "")` and `value_ = cstr ? cstr : ""` store.
abbrev pub or_empty : CStr → List ℕ
or_empty none = []
or_empty (some s) = s

abbrev pub empty_string : String
empty_string = record { value = [] }

abbrev pub of_cstr : CStr → String
of_cstr s = record { value = or_empty s }

abbrev pub of_char : ℕ → String
of_char c = record { value = c ∷ [] }

-- operator+= of a String, a const char* and a char; concat is the same and returns true.
abbrev pub append : String → String → String
append s other = record { value = s.value ++ other.value }

abbrev pub append_cstr : String → CStr → String
append_cstr s none = s
append_cstr s (some t) = record { value = s.value ++ t }

abbrev pub append_char : String → ℕ → String
append_char s c = record { value = s.value ++ (c ∷ []) }

unfoldable pub concat : String → String → String × Bool
concat s other = (append s other, true)

-- The free operator+ copies its left side and appends.
unfoldable pub plus : String → String → String
plus a b = append a b

-- `static_cast<unsigned int>(value_.size())`
unfoldable pub size : String → ℕ
size s = length s.value % 2 ^ 32

-- `char operator[](unsigned int) const`
unfoldable pub char_at : String → ℕ → ℕ
char_at s index = if ltb index (length s.value) then get_or s.value index 0 else 0

-- An assignment through `char& operator[](unsigned int)`: out of range it goes to the scratch cell.
unfoldable pub set_char_at : String → ℕ → ℕ → String
set_char_at s index c =
    if ltb index (length s.value) then record { value = set s.value index c } else s

unfoldable pub equals : String → String → Bool
equals s other = bytes_eq s.value other.value

unfoldable pub equals_cstr : String → CStr → Bool
equals_cstr s cstr = bytes_eq s.value (or_empty cstr)

-- std::tolower and std::toupper of the "C" locale, on an unsigned char.
abbrev pub tolower : ℕ → ℕ
tolower c = if leb 65 c && leb c 90 then c + 32 else c

abbrev pub toupper : ℕ → ℕ
toupper c = if leb 97 c && leb c 122 then c - 32 else c

unfoldable lower_loop : List ℕ → List ℕ → Bool
lower_loop [] ys = true
lower_loop (x ∷ xs) [] = true
lower_loop (x ∷ xs) (y ∷ ys) = if tolower x == tolower y then lower_loop xs ys else false

unfoldable pub case_insensitive_equal : List ℕ → List ℕ → Bool
unfolding lower_loop
case_insensitive_equal a b = if length a == length b then lower_loop a b else false

unfoldable pub equals_ignore_case : String → String → Bool
unfolding case_insensitive_equal
equals_ignore_case s other = case_insensitive_equal s.value other.value

unfoldable pub starts_with : String → String → Bool
starts_with s prefix =
    leb (length prefix.value) (length s.value)
    && bytes_eq (take (length prefix.value) s.value) prefix.value

unfoldable pub ends_with : String → String → Bool
ends_with s suffix =
    leb (length suffix.value) (length s.value)
    && bytes_eq (take (length suffix.value) (drop (length s.value - length suffix.value) s.value))
        suffix.value

unfoldable pub to_lower_case : String → String
to_lower_case s = record { value = map tolower s.value }

unfoldable pub to_upper_case : String → String
to_upper_case s = record { value = map toupper s.value }

-- Whether the bytes begin with the pattern.
abbrev pub is_prefix : List ℕ → List ℕ → Bool
is_prefix [] xs = true
is_prefix (p ∷ ps) [] = false
is_prefix (p ∷ ps) (x ∷ xs) = p == x && is_prefix ps xs

abbrev pub is_empty : List ℕ → Bool
is_empty [] = true
is_empty (x ∷ xs) = false

-- std::string::find on the bytes from index `i` on.
unfoldable pub find_at : List ℕ → List ℕ → ℕ → Option ℕ
find_at pat [] i = if is_empty pat then some i else none
find_at pat (x ∷ xs) i =
    let rest = find_at pat xs (i + 1) in if is_prefix pat (x ∷ xs) then some i else rest

unfoldable pub find : List ℕ → List ℕ → ℕ → Option ℕ
unfolding find_at
find v pat from = if leb from (length v) then find_at pat (drop from v) from else none

-- std::string::rfind: the last match, `best` being the last one seen.
unfoldable rfind_at : List ℕ → List ℕ → ℕ → Option ℕ → Option ℕ
rfind_at pat [] i best = if is_empty pat then some i else best
rfind_at pat (x ∷ xs) i best =
    rfind_at pat xs (i + 1) (if is_prefix pat (x ∷ xs) then some i else best)

unfoldable pub rfind : List ℕ → List ℕ → Option ℕ
unfolding rfind_at
rfind v pat = rfind_at pat v 0 none

abbrev pub find_to_int : Option ℕ → ℤ
find_to_int none = minus_one
find_to_int (some p) = to_int p

unfoldable pub index_of : String → String → ℕ → ℤ
unfolding find
index_of s t from = find_to_int (find s.value t.value from)

unfoldable pub index_of_char : String → ℕ → ℕ → ℤ
unfolding find
index_of_char s c from = find_to_int (find s.value (c ∷ []) from)

unfoldable pub last_index_of : String → String → ℤ
unfolding rfind
last_index_of s t = find_to_int (rfind s.value t.value)

unfoldable pub last_index_of_char : String → ℕ → ℤ
unfolding rfind
last_index_of_char s c = find_to_int (rfind s.value (c ∷ []))

-- The bytes before the first NUL, which are what `String(const char*)` reads.
abbrev pub until_nul : List ℕ → List ℕ
until_nul [] = []
until_nul (x ∷ xs) = if x == 0 then [] else x ∷ until_nul xs

unfoldable pub substring : String → ℕ → ℕ → String
substring s left right =
    if leb (length s.value) left || leb right left
    then empty_string
    else let r = if ltb (length s.value) right then length s.value % 2 ^ 32 else right in
      let count = (r + 2 ^ 32 - left) % 2 ^ 32 in
      record { value = until_nul (take count (drop left s.value)) }

unfoldable pub substring_from : String → ℕ → String
unfolding substring
substring_from s left = substring s left (length s.value % 2 ^ 32)

unfoldable pub remove_from : String → ℕ → String
remove_from s index =
    if ltb index (length s.value) then record { value = take index s.value } else s

unfoldable pub remove : String → ℕ → ℕ → String
remove s index count =
    if ltb index (length s.value)
    then record { value = take index s.value ++ drop (index + count) s.value }
    else s

abbrev pub replace_one : ℕ → ℕ → ℕ → ℕ
replace_one find rep ch = if ch == find then rep else ch

unfoldable pub replace_char : String → ℕ → ℕ → String
replace_char s find rep = record { value = map (replace_one find rep) s.value }

-- The loop of `replace`, from position `at` on. `none` means that the fuel ran out.
unfoldable replace_loop : ℕ → List ℕ → List ℕ → List ℕ → ℕ → Option (List ℕ)
unfolding find
replace_loop zero v pat rep at = none
replace_loop (suc fuel) v pat rep at = elim (find v pat at) [
  | none ↦ some v
  | some p ↦ replace_loop fuel (take p v ++ rep ++ drop (p + length pat) v) pat rep (p + length rep)
]

unfoldable pub replace : String → String → String → Option String
unfolding replace_loop
replace s pat rep =
    if is_empty pat.value
    then some s
    else elim (replace_loop (suc (length s.value)) s.value pat.value rep.value 0) [
      | none ↦ none
      | some v ↦ some (record { value = v })
    ]

abbrev pub is_blank : ℕ → Bool
is_blank c = c == 32 || (c == 9 || (c == 13 || c == 10))

-- find_first_not_of and find_last_not_of of the blanks.
unfoldable first_not_blank : List ℕ → ℕ → Option ℕ
first_not_blank [] i = none
first_not_blank (x ∷ xs) i =
    let rest = first_not_blank xs (i + 1) in if is_blank x then rest else some i

unfoldable last_not_blank : List ℕ → ℕ → ℕ → ℕ
last_not_blank [] i best = best
last_not_blank (x ∷ xs) i best = last_not_blank xs (i + 1) (if is_blank x then best else i)

-- Where `start` exists, `end` does too: it is the last index that is not blank.
unfoldable pub trim : String → String
unfolding first_not_blank last_not_blank
trim s = elim (first_not_blank s.value 0) [
  | none ↦ empty_string
  | some start ↦ record {
    value = take (last_not_blank s.value 0 0 - start + 1) (drop start s.value);
  }
]
