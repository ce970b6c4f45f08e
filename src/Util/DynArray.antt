-- ===== src/Util/DynArray.antt =====
-- include/util/dynarray.h: a growing array of pointers. A pointer is the number of its object.
-- The list is the slots below `size`; `malloc` and `realloc` are taken to succeed.
pub mod Remove
use distributed_search_engin.Base.{
  ℕ, zero, suc, ◌+◌, ◌-◌, ◌*◌, ◌%◌, ◌^◌, Bool, true, false, ◌||◌, Option, none, some, List, [], ◌∷◌,
  ◌++◌, ◌==◌, ltb, if◌then◌else◌, get_elem?, get_or, set, take, drop, length,
}

-- `DynArray`
pub record DynArray : Type 0 where
  pub items : List ℕ
  pub capacity : ℕ

-- the field `size`
abbrev pub size : DynArray → ℕ
size a = length a.items

-- `dynarray_init`
unfoldable pub init : ℕ → DynArray
init initial_capacity = record {
  items = [];
  capacity = if ltb 0 initial_capacity then initial_capacity else 8;
}

-- `dynarray_push`; the product of `size_t` wraps
unfoldable pub push : DynArray → ℕ → DynArray
push a item = record {
  items = a.items ++ (item ∷ []);
  capacity = if size a == a.capacity then (a.capacity * 2) % 2 ^ 64 else a.capacity;
}

-- `dynarray_pop`
unfoldable pub pop : DynArray → Option ℕ × DynArray
pop a =
    if size a == 0
    then (none, a)
    else (get_elem? a.items (size a - 1), record a { items = take (size a - 1) a.items })

-- `dynarray_get`; `none` for a read out of range
abbrev pub get : DynArray → ℕ → Option ℕ
get a i = get_elem? a.items i

-- The scan for `item` that three functions share: the first index from `i` on.
unfoldable pub scan : List ℕ → ℕ → ℕ → Option ℕ
scan [] item i = none
scan (x ∷ xs) item i = if x == item then some i else scan xs item (i + 1)

-- `dynarray_remove`: the last item fills the gap
unfoldable pub remove : DynArray → ℕ → Bool × DynArray
unfolding scan
remove a item = elim (scan a.items item 0) [
  | none ↦ (false, a)
  | some i ↦
      (true, record a { items = take (size a - 1) (set a.items i (get_or a.items (size a - 1) 0)) })
]

-- `dynarray_remove_ordered`: the items behind the gap move up
unfoldable pub remove_ordered : DynArray → ℕ → Bool × DynArray
unfolding scan
remove_ordered a item = elim (scan a.items item 0) [
  | none ↦ (false, a)
  | some i ↦ (true, record a { items = take i a.items ++ drop (suc i) a.items })
]

-- `dynarray_contains`
unfoldable pub contains_loop : List ℕ → ℕ → Bool
contains_loop [] item = false
contains_loop (x ∷ xs) item = x == item || contains_loop xs item

unfoldable pub contains : DynArray → ℕ → Bool
unfolding contains_loop
contains a item = contains_loop a.items item
