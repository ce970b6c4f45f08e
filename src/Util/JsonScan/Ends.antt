-- ===== src/Util/JsonScan/Ends.antt =====
-- Where the scanner ends, and where it leaves the text.
use distributed_search_engin.Base.{
  ℕ, zero, suc, ◌+◌, ◌≤◌, ◌<◌, ◌≡◌, refl, sym, ap, ◌∙◌, ◌⊎◌, append_assoc, length-append, Bool,
  true, false, not, Option, none, some, ◌>>=◌, List, [], ◌∷◌, ◌++◌, ◌==◌, length, All, Bool-cases,
  Option-cases, inl, inr, arith,
}
use distributed_search_engin.Util.JsonScan.{
  quote, backslash, is_delimiter, is_space, is_separator, is_colon, Place, next_place, next_depth,
  skip_while, skip_string, skip_nested, skip_value, skip_token, past_quote, key_at, Fields,
  scan_field, scan_fields,
}

-- `q` stands at the end of the text `p`
abbrev pub Tail : List ℕ → List ℕ → Type 0
Tail p q = (front : List ℕ) × (p ≡ front ++ q)

Tail-refl : (p : List ℕ) → Tail p p
Tail-refl p = ([], refl)

Tail-cons : (c : ℕ) (p q : List ℕ) → Tail p q → Tail (c ∷ p) q
Tail-cons c p q (front, e) = (c ∷ front, ap (λ t. c ∷ t) e)

Tail-trans : (p q r : List ℕ) → Tail p q → Tail q r → Tail p r
Tail-trans p q r (front, e) (front', e') =
    (front ++ front', e ∙ ap (λ t. front ++ t) e' ∙ sym (append_assoc front front' r))

Tail-length : (p q : List ℕ) → Tail p q → length q ≤ length p
Tail-length p q (front, e) =
    let total : length p ≡ length front + length q = ap length e ∙ length-append front q in
    omega (arith, total)

skip_while-Tail : (test : ℕ → Bool) (p : List ℕ) → Tail p (skip_while test p)
unfolding skip_while
skip_while-Tail test [] = Tail-refl []
skip_while-Tail test (c ∷ cs) =
    let rest = Tail-cons c cs (skip_while test cs) (skip_while-Tail test cs) in
    elim (Bool-cases (test c)) [ inl e ↦ rw e rest | inr e ↦ rw e (Tail-refl (c ∷ cs)) ]

key_at-Tail : (p : List ℕ) → Tail p (key_at p).1
unfolding key_at
key_at-Tail [] = Tail-refl []
key_at-Tail (c ∷ cs) =
    let rest = Tail-cons c cs (key_at cs).1 (key_at-Tail cs) in
    elim (Bool-cases (c == quote)) [ inl e ↦ rw e (Tail-refl (c ∷ cs)) | inr e ↦ rw e rest ]

past_quote-Tail : (p : List ℕ) → Tail p (past_quote p)
past_quote-Tail [] = Tail-refl []
past_quote-Tail (c ∷ cs) = elim (Bool-cases (c == quote)) [
  | inl e ↦ rw e (Tail-cons c cs cs (Tail-refl cs))
  | inr e ↦ rw e (Tail-refl (c ∷ cs))
]

-- the end of the text, or beyond it
abbrev After : List ℕ → Option (List ℕ) → Type 0
After p none = Unit
After p (some q) = Tail p q

After-cons : (c : ℕ) (p : List ℕ) (o : Option (List ℕ)) → After p o → After (c ∷ p) o
After-cons c p none a = tt
After-cons c p (some q) a = Tail-cons c p q a

After-trans : (p q : List ℕ) (o : Option (List ℕ)) → Tail p q → After q o → After p o
After-trans p q none t a = tt
After-trans p q (some r) t a = Tail-trans p q r t a

skip_string-After : (escaped : Bool) (p : List ℕ) → After p (skip_string escaped p)
unfolding skip_string
skip_string-After true [] = tt
skip_string-After false [] = Tail-refl []
skip_string-After true (c ∷ cs) = After-cons c cs _ (skip_string-After false cs)
skip_string-After false (c ∷ cs) =
    let rest = After-cons c cs _ (skip_string-After (c == backslash) cs) in
    elim (Bool-cases (c == quote)) [ inl e ↦ rw e (Tail-refl (c ∷ cs)) | inr e ↦ rw e rest ]

skip_nested-After :
    (opening closing : ℕ) (place : Place) (depth : ℕ) (p : List ℕ)
    → After p (skip_nested opening closing place depth p)
unfolding skip_nested
skip_nested-After o k Place.outside depth [] = Tail-refl []
skip_nested-After o k Place.in_string depth [] = tt
skip_nested-After o k Place.in_escape depth [] = tt
skip_nested-After o k Place.outside depth (c ∷ cs) =
    let rest = After-cons c cs _ (
      skip_nested-After o k (next_place Place.outside c) (next_depth o k Place.outside c depth)
        cs) in
    elim (Bool-cases (depth == 0)) [ inl e ↦ rw e (Tail-refl (c ∷ cs)) | inr e ↦ rw e rest ]
skip_nested-After o k Place.in_string depth (c ∷ cs) =
    After-cons c cs _ (skip_nested-After o k (next_place Place.in_string c) depth cs)
skip_nested-After o k Place.in_escape depth (c ∷ cs) =
    After-cons c cs _ (skip_nested-After o k (next_place Place.in_escape c) depth cs)

closed-After :
    (p : List ℕ) (o : Option (List ℕ)) → After p o → After p (o >>= λ rest. some (past_quote rest))
closed-After p none a = tt
closed-After p (some q) a = Tail-trans p q (past_quote q) a (past_quote-Tail q)

skip_token-After : (p : List ℕ) → After p (skip_token p)
unfolding skip_token
skip_token-After [] = Tail-refl []
skip_token-After (c ∷ cs) =
    let inside = λ (o : Option (List ℕ)) (a : After cs o). After-cons c cs o a in
    elim (Bool-cases (c == quote)) [
      | inl e ↦ rw e (closed-After (c ∷ cs) _ (inside _ (skip_string-After false cs)))
      | inr e ↦ elim (Bool-cases (c == 91)) [
        | inl a ↦ rw (e, a) (inside _ (skip_nested-After 91 93 Place.outside 1 cs))
        | inr a ↦ elim (Bool-cases (c == 123)) [
          | inl b ↦ rw (e, a, b) (inside _ (skip_nested-After 123 125 Place.outside 1 cs))
          | inr b ↦ rw (e, a, b) (skip_while-Tail (λ x. not (is_delimiter x)) (c ∷ cs))
        ]
      ]
    ]

skip_value-After : (p : List ℕ) → After p (skip_value p)
unfolding skip_value
skip_value-After p =
    After-trans p (skip_while is_space p) _ (skip_while-Tail is_space p)
      (skip_token-After (skip_while is_space p))

-- what a round calls the value of the key in `cs`
abbrev value_of : List ℕ → List ℕ
value_of cs = skip_while is_colon (past_quote (key_at cs).1)

value_of-Tail : (cs : List ℕ) → Tail cs (value_of cs)
value_of-Tail cs =
    let key = (key_at cs).1 in
    Tail-trans cs key (value_of cs) (key_at-Tail cs) (
      Tail-trans key (past_quote key) (value_of cs) (past_quote-Tail key)
        (skip_while-Tail is_colon (past_quote key)))

-- an end of the text from which `skip_value` leaves it
abbrev pub Leaves : List ℕ → Type 0
Leaves p = (q : List ℕ) × Tail p q × (skip_value q ≡ none)

-- fields that were found, not more than the text has characters
abbrev pub Found : List ℕ → Fields → Type 0
Found p result =
    (fields : List (List ℕ × List ℕ)) × (result ≡ some fields) × (length fields ≤ length p)

Leaves-Tail : (p q : List ℕ) → Tail p q → Leaves q → Leaves p
Leaves-Tail p q t (r, u, e) = (r, Tail-trans p q r t u, e)

scan_field_ends :
    (next : List ℕ → Fields) (q : List ℕ)
    → ((p : List ℕ) → length p < length q → Found p (next p) ⊎ Leaves p)
    → Found q (scan_field next q) ⊎ Leaves q
unfolding scan_field
scan_field_ends next [] ends = inl ([], refl, omega arith)
scan_field_ends next (c ∷ cs) ends = elim (Bool-cases (c == quote)) [
  | inr other ↦ inl ([], rw other refl, omega arith)
  | inl quoted ↦
      let at = Tail-cons c cs (value_of cs) (value_of-Tail cs) in
      let after = skip_value-After (value_of cs) in
      elim (Option-cases (skip_value (value_of cs))) [
        | inl left ↦ inr (value_of cs, at, left)
        | inr (p, e) ↦
            let behind : Tail (value_of cs) p = rw e at after in
            let shorter : length p ≤ length cs = omega (
              arith,
              Tail-length cs (value_of cs) (value_of-Tail cs),
              Tail-length (value_of cs) p behind,
            ) in
            elim (ends p (omega (arith, shorter))) [
              | inl (fields, found, few) ↦ inl (
                ((key_at cs).0, value_of cs) ∷ fields,
                rw (quoted, e, found) refl,
                omega (arith, few, shorter),
              )
              | inr leaves ↦
                  inr
                    (Leaves-Tail (c ∷ cs) p (Tail-trans (c ∷ cs) (value_of cs) p at behind) leaves)
            ]
      ]
]

-- The loop of json_scan_object ends: on a text with fewer characters than the bound on its rounds it
-- gives its fields, at most one for each character, unless `skip_value` leaves the text from an end of
-- it.
pub scan_fields_ends : (n : ℕ) (p : List ℕ) → length p < n → Found p (scan_fields n p) ⊎ Leaves p
unfolding scan_fields
scan_fields_ends zero p h = absurd (omega arith)
scan_fields_ends (suc n) p h =
    let q = skip_while is_separator p in
    let t = skip_while-Tail is_separator p in
    let shorter = Tail-length p q t in
    elim (scan_field_ends (scan_fields n) q
      (λ r less. scan_fields_ends n r (omega (arith, less, shorter, h)))) [
        | inl (fields, found, few) ↦ inl (fields, found, omega (arith, few, shorter))
        | inr leaves ↦ inr (Leaves-Tail p q t leaves)
      ]

-- no quote and no backslash
abbrev pub IsPlain : List ℕ → Type 0
IsPlain cs = All (λ c. ((c == quote) ≡ false) × ((c == backslash) ≡ false)) cs

skip_string_escape_at_end :
    (cs : List ℕ) → IsPlain cs → skip_string false (cs ++ (backslash ∷ [])) ≡ none
unfolding skip_string
skip_string_escape_at_end [] plain = refl
skip_string_escape_at_end (c ∷ cs) plain =
    rw (plain.0.0, plain.0.1) (skip_string_escape_at_end cs plain.1)

in_string_to_end :
    (opening closing depth : ℕ) (cs : List ℕ)
    → IsPlain cs
    → skip_nested opening closing Place.in_string depth cs ≡ none
unfolding skip_nested
in_string_to_end opening closing depth [] plain = refl
in_string_to_end opening closing depth (c ∷ cs) plain =
    rw (plain.0.0, plain.0.1) (in_string_to_end opening closing depth cs plain.1)

-- The scanner leaves a text that is cut off: in a string that ends with a backslash, and in a string
-- without a closing quote that stands in an array, the loop passes the NUL and reads on.
pub skip_value_leaves :
    (cs : List ℕ)
    → IsPlain cs
    → (skip_value (quote ∷ (cs ++ (backslash ∷ []))) ≡ none) × (skip_value (91 ∷ quote ∷ cs) ≡ none)
unfolding skip_value skip_token skip_while skip_nested
skip_value_leaves cs plain =
    (rw (skip_string_escape_at_end cs plain) refl, in_string_to_end 91 93 1 cs plain)
