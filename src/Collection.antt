-- ===== src/Collection.antt =====
-- include/collection/actor.h, src/collection/actor.c, and the actors and indices of
-- include/collection/collection.h, src/collection/collection.c. A pointer is the number of its object.
-- Every actor here has a collection. The counters of ids are the global array of actor.c.
mod Tests
pub mod Actors
pub mod Scaling
use distributed_search_engin.Base.{
  ℕ, zero, suc, ◌+◌, Bool, true, false, ◌&&◌, Option, none, some, List, [], ◌∷◌, ◌++◌, ◌==◌, ltb,
  if◌then◌else◌, get_or, set, replicate, take, length,
}
use distributed_search_engin.Double.{Double}
use distributed_search_engin.Types.{ActorType, actor_type_count}
use distributed_search_engin.Actor.{Actor}
use distributed_search_engin.Util.DynArray
use distributed_search_engin.Util.DynArray.{DynArray}

-- the number of an enumerator, by which the code indexes its arrays
abbrev pub type_index : ActorType → ℕ
type_index ActorType.cpu = 0
type_index ActorType.cpu_pool = 1
type_index ActorType.ram = 2
type_index ActorType.disk = 3
type_index ActorType.worker = 4
type_index ActorType.shard = 5
type_index ActorType.index = 6
type_index ActorType.profiler = 7
type_index ActorType.agent = 8

-- `IndexEntry`; a name is a list of characters
pub record IndexEntry : Type 0 where
  pub name : List ℕ
  pub index : ℕ

-- The counters of `actor_next_id`, and of `struct DSECollection` the actors and the entries below
-- `num_indices`.
pub record Registry : Type 0 where
  pub counters : List ℕ
  pub actors : DynArray
  pub actors_by_type : List DynArray
  pub index_entries : List IndexEntry

-- what an access out of range would read
abbrev pub no_array : DynArray
no_array = record { items = []; capacity = 8 }

-- the part of `collection_init` that makes these, with the counters reset
unfoldable pub init : Registry
unfolding DynArray.init
init = record {
  counters = replicate actor_type_count 0;
  actors = DynArray.init 64;
  actors_by_type = replicate actor_type_count (DynArray.init 16);
  index_entries = [];
}

-- `actor_next_id`
unfoldable pub next_id : ActorType → Registry → ℕ × Registry
next_id t r =
    let id = get_or r.counters (type_index t) 0 + 1 in
    (id, record r { counters = set r.counters (type_index t) id })

-- `actor_id_counters_reset`
unfoldable pub id_counters_reset : Registry → Registry
id_counters_reset r = record r { counters = replicate actor_type_count 0 }

-- `collection_get_by_type`
abbrev pub get_by_type : Registry → ActorType → DynArray
get_by_type r t = get_or r.actors_by_type (type_index t) no_array

-- `collection_register`
unfoldable pub register : ℕ → ActorType → Registry → Registry
register actor t r = if DynArray.contains r.actors actor then r else record r {
  actors = DynArray.push r.actors actor;
  actors_by_type = set r.actors_by_type (type_index t) (DynArray.push (get_by_type r t) actor);
}

-- `collection_unregister`
unfoldable pub unregister : ℕ → ActorType → Registry → Registry
unregister actor t r = record r {
  actors = (DynArray.remove r.actors actor).1;
  actors_by_type = set r.actors_by_type (type_index t) (DynArray.remove (get_by_type r t) actor).1;
}

module _ {F : Type 0} ⦃d : Double F⦄ where
  -- `actor_init` of the actor at a pointer; `profiled` says whether there is a profiler
  unfoldable pub actor_init : ℕ → ActorType → Bool → Registry → Actor F × Registry
  unfolding next_id register
  actor_init actor t profiled r =
      let (id, r') = next_id t r in
      (
        record { id = id; type = t; profiled = profiled; last_profiled = d.of_ℕ 0; generation = 0 },
        register actor t r',
      )

  -- `actor_delete`
  unfoldable pub actor_delete : ℕ → Actor F → Registry → Actor F × Registry
  unfolding unregister
  actor_delete actor a r = (record a { generation = a.generation + 1 }, unregister actor a.type r)

-- `strcmp` for equality
abbrev pub same_name : List ℕ → List ℕ → Bool
same_name [] [] = true
same_name [] (y ∷ ys) = false
same_name (x ∷ xs) [] = false
same_name (x ∷ xs) (y ∷ ys) = x == y && same_name xs ys

-- the loop of `collection_get_index`; `none` is the null pointer
unfoldable pub find_index : List IndexEntry → List ℕ → Option ℕ
find_index [] name = none
find_index (e ∷ entries) name =
    if same_name e.name name then some e.index else find_index entries name

-- `collection_get_index`
unfoldable pub get_index : Registry → List ℕ → Option ℕ
unfolding find_index
get_index r name = find_index r.index_entries name

-- `collection_add_index_entry`; DSE_MAX_INDICES is 16, and a name has room for 63 characters
unfoldable pub add_index_entry : Registry → List ℕ → ℕ → Option Registry
add_index_entry r name index =
    if ltb (length r.index_entries) 16
    then some (record r {
      index_entries = r.index_entries ++ (record { name = take 63 name; index = index } ∷ []);
    })
    else none
