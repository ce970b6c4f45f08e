-- ===== src/Collection/Tests.antt =====
-- A run of the registration of actors, and an instance of its theorem.
use distributed_search_engin.Base.{ℕ, ◌≡◌, refl, true, List, [], ◌∷◌, Perm, arith}
use distributed_search_engin.Double.Sample.{Sample, sample}
use distributed_search_engin.Types.{ActorType}
use distributed_search_engin.Util.DynArray
use distributed_search_engin.Collection.{
  init, next_id, actor_init, get_by_type, register, unregister,
}
use distributed_search_engin.Collection.Actors.{unregister-register}

-- Two workers and a shard: the ids count by type.
abbrev three_ids : List ℕ
unfolding init actor_init next_id register
three_ids =
    let a = actor_init {F = Sample} 100 ActorType.worker true init in
    let b = actor_init {F = Sample} 101 ActorType.shard true a.1 in
    let c = actor_init {F = Sample} 102 ActorType.worker true b.1 in a.0.id ∷ b.0.id ∷ c.0.id ∷ []

ids_by_type : three_ids ≡ 1 ∷ 1 ∷ 2 ∷ []
unfolding three_ids DynArray.contains DynArray.push
ids_by_type = refl

unregister-register_example :
    let r' = unregister 100 ActorType.worker (register 100 ActorType.worker init) in
    Perm r'.actors.items init.actors.items
    × Perm (get_by_type r' ActorType.worker).items (get_by_type init ActorType.worker).items
unfolding init DynArray.contains DynArray.contains_loop DynArray.init
unregister-register_example = unregister-register 100 ActorType.worker init refl (omega arith)
