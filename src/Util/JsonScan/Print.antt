-- ===== src/Util/JsonScan/Print.antt =====
-- A printer of flat JSON objects, such as the lines that the scanner is meant to read.
use distributed_search_engin.Base.{
  ℕ, length, ◌<◌, ◌||◌, Bool, true, false, List, [], ◌∷◌, ◌++◌, ◌==◌, ◌≡◌, if◌then◌else◌, All,
}
use distributed_search_engin.Util.JsonScan.{quote, backslash, is_delimiter, parse_string}

-- A value: a string, or the text of a number, a truth value or null.
pub data Value : Type 0 where
  text token : List ℕ → Value

-- a string with its quotes and backslashes escaped
abbrev pub escape : List ℕ → List ℕ
escape [] = []
escape (c ∷ cs) =
    let rest = escape cs in if c == quote || c == backslash then backslash ∷ c ∷ rest else c ∷ rest

abbrev pub print_value : Value → List ℕ → List ℕ
print_value (Value.text cs) rest = quote ∷ (escape cs ++ (quote ∷ rest))
print_value (Value.token cs) rest = cs ++ rest

-- a field, `"key": value`, before the rest of the object
abbrev pub print_field : List ℕ × Value → List ℕ → List ℕ
print_field field rest = quote ∷ (field.0 ++ (quote ∷ 58 ∷ 32 ∷ print_value field.1 rest))

-- the fields after the first, each after a comma and a space, and the closing brace
abbrev pub print_more : List (List ℕ × Value) → List ℕ
print_more [] = 125 ∷ []
print_more (field ∷ fields) = 44 ∷ 32 ∷ print_field field (print_more fields)

abbrev pub print_object : List (List ℕ × Value) → List ℕ
print_object [] = 123 ∷ 125 ∷ []
print_object (field ∷ fields) = 123 ∷ print_field field (print_more fields)

-- no character of a token ends it, and its first one opens nothing and is no space or colon
abbrev pub opens : ℕ → Bool
opens c = c == quote || c == 91 || c == 123 || c == 32 || c == 58

abbrev pub IsToken : List ℕ → Type 0
IsToken [] = ⊥
IsToken (c ∷ cs) = (opens c ≡ false) × All (λ x. is_delimiter x ≡ false) (c ∷ cs)

-- What the format allows, for strings of less than `max_len` characters. A key has no quotes, since the
-- scanner does not unescape it.
abbrev pub IsValid : ℕ → List ℕ × Value → Type 0
IsValid max_len (key, Value.text cs) = All (λ x. (x == quote) ≡ false) key × (length cs < max_len)
IsValid max_len (key, Value.token cs) = All (λ x. (x == quote) ≡ false) key × IsToken cs

-- the pointer `p` is at the value `v`: a string is read back from it
abbrev pub Says : ℕ → Value → List ℕ → Type 0
Says max_len (Value.text cs) p = parse_string p max_len ≡ cs
Says max_len (Value.token cs) p =
    (d : ℕ) × (rest : List ℕ) × (p ≡ cs ++ (d ∷ rest)) × (is_delimiter d ≡ true)

-- the calls of the callback are those for the fields
abbrev pub Reads : ℕ → List (List ℕ × Value) → List (List ℕ × List ℕ) → Type 0
Reads max_len [] [] = Unit
Reads max_len [] (r ∷ rs) = ⊥
Reads max_len (f ∷ fs) [] = ⊥
Reads max_len (f ∷ fs) (r ∷ rs) = (r.0 ≡ f.0) × Says max_len f.1 r.1 × Reads max_len fs rs
