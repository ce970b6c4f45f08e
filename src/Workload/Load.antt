-- ===== src/Workload/Load.antt =====
-- src/generator/workload.c: how a line of a workload file becomes a request.
use distributed_search_engin.Base.{
  ℕ, Bool, true, false, Option, none, some, ◌>>=◌, List, [], ◌∷◌, ◌++◌, ◌==◌, if◌then◌else◌, ℤ,
}
use distributed_search_engin.Double.{Double}
use distributed_search_engin.Types.{RequestType}
use distributed_search_engin.Util.JsonScan.{
  quote, scan_object, parse_string, parse_int_array, is_empty_array,
}
use distributed_search_engin.Collection.{same_name}
use distributed_search_engin.Workload.{RequestDescriptor, LoadedWorkloadGenerator, blank}

abbrev type_text : List ℕ
type_text = 116 ∷ 121 ∷ 112 ∷ 101 ∷ []

abbrev time_text : List ℕ
time_text = 116 ∷ 105 ∷ 109 ∷ 101 ∷ []

abbrev index_text : List ℕ
index_text = 105 ∷ 110 ∷ 100 ∷ 101 ∷ 120 ∷ []

abbrev document_id_text : List ℕ
document_id_text = 100 ∷ 111 ∷ 99 ∷ 117 ∷ 109 ∷ 101 ∷ 110 ∷ 116 ∷ 95 ∷ 105 ∷ 100 ∷ []

abbrev cpu_size_text : List ℕ
cpu_size_text = 99 ∷ 112 ∷ 117 ∷ 95 ∷ 115 ∷ 105 ∷ 122 ∷ 101 ∷ []

abbrev mem_size_text : List ℕ
mem_size_text = 109 ∷ 101 ∷ 109 ∷ 95 ∷ 115 ∷ 105 ∷ 122 ∷ 101 ∷ []

abbrev query_text : List ℕ
query_text = 95 ∷ 113 ∷ 117 ∷ 101 ∷ 114 ∷ 121 ∷ []

abbrev response_text : List ℕ
response_text = 95 ∷ 114 ∷ 101 ∷ 115 ∷ 112 ∷ 111 ∷ 110 ∷ 115 ∷ 101 ∷ []

abbrev collate_text : List ℕ
collate_text = 95 ∷ 99 ∷ 111 ∷ 108 ∷ 108 ∷ 97 ∷ 116 ∷ 101 ∷ []

abbrev given_hash_text : List ℕ
given_hash_text = 103 ∷ 105 ∷ 118 ∷ 101 ∷ 110 ∷ 95 ∷ 104 ∷ 97 ∷ 115 ∷ 104 ∷ []

-- whether a value is a string
abbrev pub is_string : List ℕ → Bool
is_string [] = false
is_string (c ∷ cs) = c == quote

-- the type for the first character of its name; another one leaves the type as it is
abbrev pub type_of : ℕ → RequestType → RequestType
type_of c old =
    if c == 71
    then RequestType.get
    else if c == 80
    then RequestType.put
    else if c == 83
    then RequestType.search_request
    else old

-- `buf[0]`, which is 0 after an empty string
abbrev pub first_char : List ℕ → ℕ
first_char [] = 0
first_char (c ∷ cs) = c

module _ {F : Type 0} ⦃d : Double F⦄ (strtod : List ℕ → F) (strtol : List ℕ → ℤ × List ℕ)
    (to_int : F → ℤ) where
  -- the field `given_hash`, the first item of an array
  abbrev given : List ℤ → RequestDescriptor F → RequestDescriptor F
  given [] rd = rd
  given (h ∷ hs) rd = record rd { given_hash = h; has_given_hash = true }

  -- the field `given_hashes`; an array without items leaves it as it is
  abbrev several : List ℤ → RequestDescriptor F → RequestDescriptor F
  several [] rd = rd
  several (h ∷ hs) rd = record rd { given_hashes = h ∷ hs }

  -- `parse_request_field`; of a type that is no string the code reads a buffer that is not set
  unfoldable pub parse_request_field :
      RequestDescriptor F → List ℕ × List ℕ → Option (RequestDescriptor F)
  parse_request_field rd (key, val) =
      let number = strtod val in
      let ints = parse_int_array strtol val in
      let typed =
        if is_string val
        then some (record rd { type = type_of (first_char (parse_string val 8)) rd.type })
        else none in
      let hashed = if is_empty_array val then rd else given (ints 1) rd in
      let many = if is_empty_array val then rd else several (ints 256) rd in
      if same_name key type_text
      then typed
      else if same_name key time_text
      then some (record rd { time = number })
      else if same_name key index_text
      then some (if is_string val then record rd { index_name = parse_string val 64 } else rd)
      else if same_name key document_id_text
      then some (record rd { document_id = to_int number })
      else if same_name key cpu_size_text
      then some (record rd { cpu_size = number })
      else if same_name key (cpu_size_text ++ query_text)
      then some (record rd { cpu_size_query = number })
      else if same_name key (cpu_size_text ++ response_text)
      then some (record rd { cpu_size_response = number })
      else if same_name key (cpu_size_text ++ collate_text)
      then some (record rd { cpu_size_collate = number })
      else if same_name key mem_size_text
      then some (record rd { mem_size = number })
      else if same_name key (mem_size_text ++ query_text)
      then some (record rd { mem_size_query = number })
      else if same_name key (mem_size_text ++ response_text)
      then some (record rd { mem_size_response = number })
      else if same_name key given_hash_text
      then some hashed
      else if same_name key (given_hash_text ++ (101 ∷ 115 ∷ []))
      then some many
      else some rd

  -- the calls of the callback, one after the other
  unfoldable pub parse_fields :
      RequestDescriptor F → List (List ℕ × List ℕ) → Option (RequestDescriptor F)
  unfolding parse_request_field
  parse_fields rd [] = some rd
  parse_fields rd (field ∷ fields) = parse_request_field rd field >>= λ rd'. parse_fields rd' fields

  -- a line that is skipped
  abbrev pub is_blank : List ℕ → Bool
  is_blank [] = true
  is_blank (c ∷ cs) = c == 10

  -- The loop of `workload_load`. Its test of the type holds for each of the three types, so that every
  -- line counts.
  unfoldable pub load_lines : List (List ℕ) → Option (List (RequestDescriptor F))
  unfolding parse_fields
  load_lines [] = some []
  load_lines (line ∷ lines) =
      let rest = load_lines lines in
      let loaded = do
        fields ← scan_object line
        rd ← parse_fields blank fields
        rds ← rest
        some (rd ∷ rds)
      in if is_blank line then rest else loaded

  -- `workload_load`, on the lines of the file
  unfoldable pub load : List (List ℕ) → Option (LoadedWorkloadGenerator F)
  unfolding load_lines
  load lines = do
    requests ← load_lines lines
    some (record { requests = requests; current = 0; active = true })
