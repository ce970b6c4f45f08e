-- ===== src/Util/JsonScan/Tests.antt =====
-- Runs of the scanner: {"a": "\"b", "c": 12} and texts that are cut off.
use distributed_search_engin.Base.{ℕ, ◌⊎◌, ◌≡◌, refl, none, some, List, [], ◌∷◌, arith}
use distributed_search_engin.Util.JsonScan.{scan_object, scan_fields, skip_value}
use distributed_search_engin.Util.JsonScan.Print.{Value, print_object, Reads}
use distributed_search_engin.Util.JsonScan.RoundTrip.{scan_object-print}
use distributed_search_engin.Util.JsonScan.Ends.{Found, Leaves, scan_fields_ends, skip_value_leaves}

abbrev fields : List (List ℕ × Value)
fields = (97 ∷ [], Value.text (34 ∷ 98 ∷ [])) ∷ (99 ∷ [], Value.token (49 ∷ 50 ∷ [])) ∷ []

scan_object-print_example :
    (results : List (List ℕ × List ℕ)) × (scan_object (print_object fields) ≡ some results)
    × Reads 64 fields results
scan_object-print_example =
    scan_object-print 64 fields (omega arith)
      (((refl, tt), omega arith), (((refl, tt), (refl, (refl, (refl, tt)))), tt))

-- "a":1}
abbrev line : List ℕ
line = 34 ∷ 97 ∷ 34 ∷ 58 ∷ 49 ∷ 125 ∷ []

scan_fields_ends_example : Found line (scan_fields 7 line) ⊎ Leaves line
scan_fields_ends_example = scan_fields_ends 7 line (omega arith)

skip_value_leaves_example :
    (skip_value (34 ∷ 97 ∷ 92 ∷ []) ≡ none) × (skip_value (91 ∷ 34 ∷ 97 ∷ []) ≡ none)
skip_value_leaves_example = skip_value_leaves (97 ∷ []) ((refl, refl), tt)
