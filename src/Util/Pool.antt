-- ===== src/Util/Pool.antt =====
-- include/util/pool.h: a free list of blocks of one size. A pointer is the number of its block;
-- `malloc` is a parameter, the block that it would give.
use distributed_search_engin.Base.{ℕ, ◌≡◌, refl, List, [], ◌∷◌, ltb, if◌then◌else◌}

-- `Pool`; the links of the free list make it a list
pub record Pool : Type 0 where
  pub free_list : List ℕ
  pub obj_size : ℕ

-- `pool_init`; a node of the free list is a pointer of 8 bytes
unfoldable pub init : ℕ → Pool
init obj_size = record { free_list = []; obj_size = if ltb 8 obj_size then obj_size else 8 }

-- `pool_alloc`
unfoldable pub alloc : (malloc : ℕ) → Pool → ℕ × Pool
alloc malloc p = elim p.free_list [
  | [] ↦ (malloc, p)
  | node ∷ next ↦ (node, record p { free_list = next })
]

-- `pool_release`
unfoldable pub release : Pool → ℕ → Pool
release p ptr = record p { free_list = ptr ∷ p.free_list }

-- `pool_free_all`: the blocks that it frees, and the empty pool
unfoldable pub free_all : Pool → List ℕ × Pool
free_all p = (p.free_list, record p { free_list = [] })

-- The block released last is the next one to be given out, and the pool is as before then; every
-- block of the pool goes to `free` at the end.
pub alloc-release :
    (p : Pool) (ptr malloc : ℕ)
    → (alloc malloc (release p ptr) ≡ (ptr, p))
      × ((free_all (release p ptr)).0 ≡ ptr ∷ (free_all p).0)
      × ((alloc malloc (free_all p).1).0 ≡ malloc)
unfolding alloc release free_all
alloc-release p ptr malloc = (refl, refl, refl)
