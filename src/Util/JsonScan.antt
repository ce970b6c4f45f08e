-- ===== src/Util/JsonScan.antt =====
-- include/util/json_scan.h, src/util/json_scan.c: the scanner of flat JSON objects. A pointer into a
-- text is the rest of the text, whose end stands for the character NUL; `none` is a pointer beyond it,
-- whose first read is out of the text. strtod and strtol are parameters.
pub mod Print
pub mod RoundTrip
pub mod Ends
mod Tests
use distributed_search_engin.Base.{
  ℕ, zero, suc, ◌+◌, ◌-◌, ◌%◌, ◌^◌, Bool, true, false, not, ◌||◌, Option, none, some, ◌>>=◌, List,
  [], ◌∷◌, ◌==◌, if◌then◌else◌, length, ℤ,
}

-- what the code tests a character for
abbrev pub quote : ℕ
quote = 34

abbrev pub backslash : ℕ
backslash = 92

abbrev pub is_delimiter : ℕ → Bool
is_delimiter c = c == 44 || c == 125 || c == 93

-- a space, a comma or the end of a line
abbrev pub is_separator : ℕ → Bool
is_separator c = c == 32 || c == 44 || c == 10 || c == 13

-- a space or a colon
abbrev pub is_colon : ℕ → Bool
is_colon c = c == 32 || c == 58

abbrev pub is_space : ℕ → Bool
is_space c = c == 32

-- whether a pointer is at a closing bracket, or at that or the end
abbrev pub closes : List ℕ → Bool
closes [] = false
closes (c ∷ cs) = c == 93

abbrev pub at_end : List ℕ → Bool
at_end [] = true
at_end (c ∷ cs) = c == 93

abbrev pub at_nul : List ℕ → Bool
at_nul [] = true
at_nul (c ∷ cs) = false

-- `while (test(*p)) p++`
unfoldable pub skip_while : (ℕ → Bool) → List ℕ → List ℕ
skip_while test [] = []
skip_while test (c ∷ cs) = let rest = skip_while test cs in if test c then rest else c ∷ cs

-- The loop over the characters of a string, up to its closing quote; `escaped` says that a backslash
-- was passed, after which the code passes one character more, be it NUL.
unfoldable pub skip_string : Bool → List ℕ → Option (List ℕ)
skip_string true [] = none
skip_string false [] = some []
skip_string true (c ∷ cs) = skip_string false cs
skip_string false (c ∷ cs) =
    let rest = skip_string (c == backslash) cs in if c == quote then some (c ∷ cs) else rest

-- where the loop over an array or an object stands
pub data Place : Type 0 where
  outside in_string in_escape : Place

-- the place after a character
abbrev pub next_place : Place → ℕ → Place
next_place Place.outside c = if c == quote then Place.in_string else Place.outside
next_place Place.in_string c =
    if c == quote
    then Place.outside
    else if c == backslash
    then Place.in_escape
    else Place.in_string
next_place Place.in_escape c = Place.in_string

-- the depth after a character
abbrev pub next_depth : (opening closing : ℕ) → Place → ℕ → ℕ → ℕ
next_depth opening closing Place.outside c depth =
    if c == opening then depth + 1 else if c == closing then depth - 1 else depth
next_depth opening closing _ c depth = depth

-- The loop over an array or an object, with the loop over a string in it, which leaves the text when
-- the string has no closing quote.
unfoldable pub skip_nested : (opening closing : ℕ) → Place → ℕ → List ℕ → Option (List ℕ)
skip_nested opening closing Place.outside depth [] = some []
skip_nested opening closing _ depth [] = none
skip_nested opening closing Place.outside depth (c ∷ cs) =
    let rest =
      skip_nested opening closing (next_place Place.outside c)
        (next_depth opening closing Place.outside c depth) cs in
    if depth == 0 then some (c ∷ cs) else rest
skip_nested opening closing place depth (c ∷ cs) =
    skip_nested opening closing (next_place place c) depth cs

-- one character further, if it is a quote
abbrev pub past_quote : List ℕ → List ℕ
past_quote [] = []
past_quote (c ∷ cs) = if c == quote then cs else c ∷ cs

-- the rest of `skip_value` after the spaces
unfoldable pub skip_token : List ℕ → Option (List ℕ)
unfolding skip_string skip_nested skip_while
skip_token [] = some []
skip_token (c ∷ cs) =
    if c == quote
    then (skip_string false cs >>= λ rest. some (past_quote rest))
    else if c == 91
    then skip_nested 91 93 Place.outside 1 cs
    else if c == 123
    then skip_nested 123 125 Place.outside 1 cs
    else some (skip_while (λ x. not (is_delimiter x)) (c ∷ cs))

-- `skip_value`
unfoldable pub skip_value : List ℕ → Option (List ℕ)
skip_value p = skip_token (skip_while is_space p)

-- the key up to its quote, and the text from there
unfoldable pub key_at : List ℕ → List ℕ × List ℕ
key_at [] = ([], [])
key_at (c ∷ cs) = let rest = key_at cs in if c == quote then ([], c ∷ cs) else (c ∷ rest.0, rest.1)

abbrev pub Fields : Type 0
Fields = Option (List (List ℕ × List ℕ))

-- one round of the loop of `json_scan_object`, after the separators, before the `next` rounds
unfoldable pub scan_field : (List ℕ → Fields) → List ℕ → Fields
scan_field next [] = some []
scan_field next (c ∷ cs) =
    let key = key_at cs in
    let value = skip_while is_colon (past_quote key.1) in
    let rest = skip_value value >>= next >>= λ fields. some ((key.0, value) ∷ fields) in
    if c == quote then rest else some []

-- The calls of the callback, with the key and the pointer to the value, in their order: the loop of
-- `json_scan_object`, with a bound on its rounds.
unfoldable pub scan_fields : ℕ → List ℕ → Fields
scan_fields zero p = none
scan_fields (suc n) p = scan_field (scan_fields n) (skip_while is_separator p)

-- what follows the opening brace
abbrev pub past_first : List ℕ → List ℕ
past_first [] = []
past_first (c ∷ cs) = cs

-- `json_scan_object`; each round passes a character, so that the length of the line is enough
unfoldable pub scan_object : List ℕ → Fields
scan_object line =
    let opened = skip_while (λ c. not (c == 123)) line in
    if at_nul opened then some [] else scan_fields (length line + 1) (past_first opened)

-- the loop of `json_parse_string`, with room for so many characters
unfoldable pub parse_chars : ℕ → Bool → List ℕ → List ℕ
parse_chars room escaped [] = []
parse_chars room true (c ∷ cs) = let rest = parse_chars (room - 1) false cs in c ∷ rest
parse_chars room false (c ∷ cs) =
    let opens = c == backslash in
    let rest = parse_chars (if opens then room else room - 1) opens cs in
    if c == quote || room == 0 then [] else if opens then rest else c ∷ rest

-- `json_parse_string`: the characters that it writes; `max_len - 1` is a difference of the type size_t
unfoldable pub parse_string : List ℕ → ℕ → List ℕ
unfolding parse_chars
parse_string [] max_len = []
parse_string (c ∷ cs) max_len =
    if c == quote then parse_chars ((max_len + 2 ^ 64 - 1) % 2 ^ 64) false cs else []

module _ (strtol : List ℕ → ℤ × List ℕ) where
  -- the loop of `json_parse_int_array`, with room for so many items
  unfoldable pub parse_items : ℕ → List ℕ → List ℤ
  unfolding skip_while
  parse_items zero p = []
  parse_items (suc n) p =
      let q = skip_while (λ c. c == 32 || c == 44) p in
      let rest = parse_items n (strtol q).1 in
      if at_end p then [] else if closes q then [] else (strtol q).0 ∷ rest

  -- `json_parse_int_array`
  unfoldable pub parse_int_array : List ℕ → ℕ → List ℤ
  unfolding parse_items
  parse_int_array [] max_items = []
  parse_int_array (c ∷ cs) max_items = if c == 91 then parse_items max_items cs else []

-- `json_is_empty_array`
unfoldable pub is_empty_array : List ℕ → Bool
unfolding skip_while
is_empty_array [] = false
is_empty_array (c ∷ cs) = if c == 91 then closes (skip_while is_space cs) else false
