-- ===== src/Collection/Actors.antt =====
-- What registration keeps.
use mathlib.Core.List.Perm
use distributed_search_engin.Base.{
  ℕ, ◌<◌, ◌≡◌, refl, ◌∙◌, true, false, List, [], ◌∷◌, ◌++◌, ◌==◌, get_or, set, length, get_or-set,
  length-set, Perm, concat-perm, arith,
}
use distributed_search_engin.Types.{ActorType}
use distributed_search_engin.Util.DynArray
use distributed_search_engin.Util.DynArray.{DynArray}
use distributed_search_engin.Util.DynArray.Remove.{remove-perm, contains-remove}
use distributed_search_engin.Collection.{
  Registry, type_index, no_array, get_by_type, register, unregister,
}

contains_last : (xs : List ℕ) (x : ℕ) → DynArray.contains_loop (xs ++ (x ∷ [])) x ≡ true
unfolding DynArray.contains_loop
contains_last [] x = ground arith
contains_last (y ∷ xs) x = ground (arith, contains_last xs x)

remove-push : (a : DynArray) (x : ℕ) → Perm (DynArray.remove (DynArray.push a x) x).1.items a.items
unfolding DynArray.push DynArray.contains
remove-push a x =
    let b = DynArray.push a x in
    let there : (DynArray.remove b x).0 ≡ true =
      (contains-remove b x).0 ∙ contains_last a.items x in
    Perm.cons_inv (Perm.trans (remove-perm b x there) (concat-perm a.items x))

array_at :
    (l : List DynArray) (i : ℕ) (a : DynArray) → i < length l → get_or (set l i a) i no_array ≡ a
array_at l i a h =
    let same : (i == i) ≡ true = ground arith in get_or-set l i i a no_array h ∙ rw same refl

-- An actor that is not registered and is registered and then unregistered, under one type, leaves
-- both the array of all actors and the array of its type with what they had, up to order.
pub unregister-register :
    (actor : ℕ) (t : ActorType) (r : Registry)
    → DynArray.contains r.actors actor ≡ false
    → type_index t < length r.actors_by_type
    → let r' = unregister actor t (register actor t r) in
      Perm r'.actors.items r.actors.items × Perm (get_by_type r' t).items (get_by_type r t).items
unfolding register unregister
unregister-register actor t r absent h =
    let pushed = DynArray.push (get_by_type r t) actor in
    let kept = set r.actors_by_type (type_index t) pushed in
    let at = array_at r.actors_by_type (type_index t) pushed h in
    let long : type_index t < length kept =
      omega (arith, length-set r.actors_by_type (type_index t) pushed) in
    rw absent (
      remove-push r.actors actor,
      rw
          (
            array_at kept (type_index t)
                (DynArray.remove (get_or kept (type_index t) no_array) actor).1 long,
            at,
          )
          (remove-push (get_by_type r t) actor),
    )
