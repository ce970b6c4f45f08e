-- ===== src/Util/JsonScan/RoundTrip.antt =====
-- What the scanner reads of a printed object.
use distributed_search_engin.Base.{
  ℕ, zero, suc, ◌+◌, ◌-◌, ◌%◌, ◌^◌, ◌≤◌, ◌<◌, ◌≡◌, refl, ap, ◌∙◌, true, false, not, some, ◌>>=◌,
  List, [], ◌∷◌, ◌++◌, ◌==◌, length, length-append, All, Bool-cases, inl, inr, arith,
}
use distributed_search_engin.Util.JsonScan.{
  quote, backslash, is_delimiter, is_colon, skip_while, skip_string, skip_value, skip_token,
  past_quote, key_at, scan_field, scan_fields, scan_object, parse_chars, parse_string,
}
use distributed_search_engin.Util.JsonScan.Print.{
  Value, escape, print_value, print_field, print_more, print_object, opens, IsValid, Says, Reads,
}

-- a key is read up to its quote
key_at_key :
    (key rest : List ℕ)
    → All (λ x. (x == quote) ≡ false) key
    → key_at (key ++ (quote ∷ rest)) ≡ (key, quote ∷ rest)
unfolding key_at
key_at_key [] rest plain = refl
key_at_key (c ∷ cs) rest plain = rw (plain.0, key_at_key cs rest plain.1) refl

-- an escaped string is passed up to its closing quote
skip_string-escape :
    (cs rest : List ℕ) → skip_string false (escape cs ++ (quote ∷ rest)) ≡ some (quote ∷ rest)
unfolding skip_string
skip_string-escape [] rest = refl
skip_string-escape (c ∷ cs) rest = elim (Bool-cases (c == quote)) [
  | inl e ↦ rw e (skip_string-escape cs rest)
  | inr e ↦ elim (Bool-cases (c == backslash)) [
    | inl b ↦ rw (e, b) (skip_string-escape cs rest)
    | inr b ↦ rw (e, b) (rw (e, b) (skip_string-escape cs rest))
  ]
]

-- and read back
parse_chars-escape :
    (cs rest : List ℕ) (room : ℕ)
    → length cs ≤ room
    → parse_chars room false (escape cs ++ (quote ∷ rest)) ≡ cs
unfolding parse_chars
parse_chars-escape [] rest room fits = refl
parse_chars-escape (c ∷ cs) rest room fits =
    let some_room : (room == 0) ≡ false = ground (arith, fits) in
    let back = parse_chars-escape cs rest (room - 1) (omega (arith, fits)) in
    elim (Bool-cases (c == quote)) [
      | inl e ↦ rw e (rw some_room (ap (◌∷◌ c) back))
      | inr e ↦ elim (Bool-cases (c == backslash)) [
        | inl b ↦ rw (e, b) (rw some_room (ap (◌∷◌ c) back))
        | inr b ↦ rw (e, b) (rw (e, b, some_room) (ap (◌∷◌ c) back))
      ]
    ]

-- a token is passed up to the delimiter after it
skip_while-token :
    (cs : List ℕ) (d : ℕ) (rest : List ℕ)
    → is_delimiter d ≡ true
    → All (λ x. is_delimiter x ≡ false) cs
    → skip_while (λ x. not (is_delimiter x)) (cs ++ (d ∷ rest)) ≡ d ∷ rest
unfolding skip_while
skip_while-token [] d rest stop plain = rw stop refl
skip_while-token (c ∷ cs) d rest stop plain = rw plain.0 (skip_while-token cs d rest stop plain.1)

not_opens :
    (c : ℕ)
    → opens c ≡ false
    → ((c == quote) ≡ false)
      × ((c == 91) ≡ false)
      × ((c == 123) ≡ false)
      × ((c == 32) ≡ false)
      × ((c == 58) ≡ false)
not_opens c h = (ground arith, ground arith, ground arith, ground arith, ground arith)

skip_value-print :
    (max_len : ℕ) (key : List ℕ) (v : Value) (d : ℕ) (rest : List ℕ)
    → IsValid max_len (key, v)
    → is_delimiter d ≡ true
    → skip_value (print_value v (d ∷ rest)) ≡ some (d ∷ rest)
unfolding skip_value skip_token skip_while
skip_value-print max_len key (Value.text cs) d rest valid stop =
    rw (skip_string-escape cs (d ∷ rest)) refl
skip_value-print max_len key (Value.token []) d rest valid stop = absurd valid.1
skip_value-print max_len key (Value.token (c ∷ cs)) d rest valid stop =
    let (q, a, o, s, k) = not_opens c valid.1.0 in
    rw (s, q, a, o) (ap some (skip_while-token (c ∷ cs) d rest stop valid.1.1))

-- after its key and the colon a value is found
value_at :
    (max_len : ℕ) (key : List ℕ) (v : Value) (rest : List ℕ)
    → IsValid max_len (key, v)
    → skip_while is_colon (past_quote (quote ∷ 58 ∷ 32 ∷ print_value v rest)) ≡ print_value v rest
unfolding skip_while
value_at max_len key (Value.text cs) rest valid = refl
value_at max_len key (Value.token []) rest valid = absurd valid.1
value_at max_len key (Value.token (c ∷ cs)) rest valid =
    let (q, a, o, s, k) = not_opens c valid.1.0 in rw (s, k) refl

key_valid :
    (max_len : ℕ) (key : List ℕ) (v : Value)
    → IsValid max_len (key, v)
    → All (λ x. (x == quote) ≡ false) key
key_valid max_len key (Value.text cs) valid = valid.0
key_valid max_len key (Value.token cs) valid = valid.0

Says-print_value :
    (max_len : ℕ) (key : List ℕ) (v : Value) (d : ℕ) (rest : List ℕ)
    → max_len < 2 ^ 64
    → IsValid max_len (key, v)
    → is_delimiter d ≡ true
    → Says max_len v (print_value v (d ∷ rest))
unfolding parse_string
Says-print_value max_len key (Value.text cs) d rest small valid stop =
    let room : (max_len + 2 ^ 64 - 1) % 2 ^ 64 ≡ max_len - 1 = omega (arith, valid.1) in
    rw room (parse_chars-escape cs (d ∷ rest) (max_len - 1) (omega (arith, valid.1)))
Says-print_value max_len key (Value.token cs) d rest small valid stop = (d, rest, refl, stop)

-- one field before what follows it
scan_field-print :
    (max_len : ℕ) (key : List ℕ) (v : Value) (d : ℕ) (rest : List ℕ) (n : ℕ)
    → IsValid max_len (key, v)
    → is_delimiter d ≡ true
    → scan_fields (suc n) (print_field (key, v) (d ∷ rest))
      ≡ (scan_fields n (d ∷ rest) >>= λ fields. some ((key, print_value v (d ∷ rest)) ∷ fields))
unfolding scan_fields scan_field skip_while
scan_field-print max_len key v d rest n valid stop =
    let tail = 58 ∷ 32 ∷ print_value v (d ∷ rest) in
    rw (key_at_key key tail (key_valid max_len key v valid)) (
      rw (value_at max_len key v (d ∷ rest) valid)
        (rw (skip_value-print max_len key v d rest valid stop) refl))

past_comma :
    (n : ℕ) (field : List ℕ × Value) (rest : List ℕ)
    → scan_fields n (44 ∷ 32 ∷ print_field field rest) ≡ scan_fields n (print_field field rest)
unfolding scan_fields skip_while
past_comma zero field rest = refl
past_comma (suc n) field rest = refl

scan_more :
    (max_len : ℕ) (field : List ℕ × Value) (fields : List (List ℕ × Value)) (n : ℕ)
    → max_len < 2 ^ 64
    → All (IsValid max_len) (field ∷ fields)
    → suc (length fields) < n
    → (results : List (List ℕ × List ℕ)) × (scan_fields n (print_field field (print_more fields))
        ≡ some results)
      × Reads max_len (field ∷ fields) results
unfolding scan_fields scan_field skip_while
scan_more max_len field fields zero small valid fuel = absurd (omega (arith, fuel))
scan_more max_len field [] (suc zero) small valid fuel = absurd (omega (arith, fuel))
scan_more max_len (key, v) [] (suc (suc n)) small valid fuel = (
  (key, print_value v (125 ∷ [])) ∷ [],
  scan_field-print max_len key v 125 [] (suc n) valid.0 refl,
  (refl, Says-print_value max_len key v 125 [] small valid.0 refl, tt),
)
scan_more max_len (key, v) (next ∷ fields) (suc n) small valid fuel =
    let rest = 32 ∷ print_field next (print_more fields) in
    let (results, scanned, reads) =
      scan_more max_len next fields n small valid.1 (omega (arith, fuel)) in
    let printed = print_value v (44 ∷ rest) in
    (
      (key, printed) ∷ results,
      scan_field-print max_len key v 44 rest n valid.0 refl
          ∙ rw (past_comma n next (print_more fields), scanned) refl,
      (refl, Says-print_value max_len key v 44 rest small valid.0 refl, reads),
    )

length-print_field :
    (field : List ℕ × Value) (rest : List ℕ) → length rest + 4 ≤ length (print_field field rest)
length-print_field (key, Value.text cs) rest = omega (
  arith,
  length-append key (quote ∷ 58 ∷ 32 ∷ print_value (Value.text cs) rest),
  length-append (escape cs) (quote ∷ rest),
)
length-print_field (key, Value.token cs) rest = omega (
  arith,
  length-append key (quote ∷ 58 ∷ 32 ∷ print_value (Value.token cs) rest),
  length-append cs rest,
)

length-print :
    (field : List ℕ × Value) (fields : List (List ℕ × Value))
    → suc (length fields) < length (print_field field (print_more fields))
length-print field [] = omega (arith, length-print_field field (125 ∷ []))
length-print field (next ∷ fields) =
    let more = length-print next fields in
    omega (arith, more, length-print_field field (44 ∷ 32 ∷ print_field next (print_more fields)))

-- The scanner reads back a printed object: it finds exactly its fields, in their order, each with its
-- key and with a pointer to its value, and json_parse_string there gives back the characters of a
-- string. The keys have no quotes, the strings have less than `max_len` characters, and numbers, truth
-- values and null are tokens that end at the next delimiter.
pub scan_object-print :
    (max_len : ℕ) (fields : List (List ℕ × Value))
    → max_len < 2 ^ 64
    → All (IsValid max_len) fields
    → (results : List (List ℕ × List ℕ)) × (scan_object (print_object fields) ≡ some results)
      × Reads max_len fields results
unfolding scan_object skip_while scan_fields scan_field
scan_object-print max_len [] small valid = ([], refl, tt)
scan_object-print max_len (field ∷ fields) small valid =
    let line = print_field field (print_more fields) in
    let (results, scanned, reads) =
      scan_more max_len field fields (suc (length line) + 1) small valid
        (omega (arith, length-print field fields)) in
    (results, scanned, reads)
