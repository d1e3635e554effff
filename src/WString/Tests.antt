-- ===== src/WString/Tests.antt =====
-- WString.h on concrete strings, and its theorems there.
use bit_magic_zi_modem.Base.{◌≡◌, refl, ◌≢◌, some, [], arith, codes}
use bit_magic_zi_modem.Base.Int.{pos, minus_one}
use bit_magic_zi_modem.WString.{String, index_of, last_index_of, replace, trim}
use bit_magic_zi_modem.WString.Replace.{Replaced, replace-Replaced}
use bit_magic_zi_modem.WString.Cut.{IsNulFree}

abbrev dial : String
dial = record { value = codes "atdt host:23" }

abbrev colon : String
colon = record { value = codes ":" }

abbrev at_sign : String
at_sign = record { value = codes "t" }

index_of_runs : index_of dial colon 0 ≡ pos 9
unfolding index_of
index_of_runs = refl

index_of_past : index_of dial colon 10 ≡ minus_one
unfolding index_of
index_of_past = refl

last_index_of_runs : last_index_of dial at_sign ≡ pos 8
unfolding last_index_of
last_index_of_runs = refl

replace_runs :
    replace dial at_sign (record { value = codes "tt" })
    ≡ some (record { value = codes "attdtt hostt:23" })
unfolding replace
replace_runs = refl

trim_runs : (trim (record { value = codes "  ok \n" })).value ≡ codes "ok"
unfolding trim
trim_runs = refl

not_nil : codes "t" ≢ []
not_nil e = cc

replace-Replaced_example :
    (t : String) × (replace dial at_sign colon ≡ some t)
    × Replaced (codes "t") (codes ":") (codes "atdt host:23") t.value
replace-Replaced_example = replace-Replaced dial at_sign colon not_nil

nul_free : IsNulFree (codes "atdt host:23")
nul_free = omega arith
