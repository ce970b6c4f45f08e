-- ===== src/Profiler/History.antt =====
-- The history of a profiler: what a profile adds to it, and the room of its array.
use distributed_search_engin.Base.{
  ℕ, ◌≤◌, ◌<◌, ◌≡◌, refl, sym, ap, ◌∙◌, Option, none, some, List, [], ◌∷◌, ◌++◌, All, All-append,
  length, take, length-append, append_assoc, append-nil, arith,
}
use distributed_search_engin.Double.{Double}
use distributed_search_engin.Actor.{ProfileKv}
use distributed_search_engin.Agent.{ProfileEntry}
use distributed_search_engin.Profiler.{
  Profiler, View, Key, print, print_all, profile_collection, printed, profile_actor, profile_actors,
  profile_types, profile,
}

-- an entry of a time
unfoldable pub IsAt : {F : Type 0} → F → ProfileEntry F → Type 0
IsAt time e = e.time ≡ time

module _ {F G : Type 0} where
  -- the array has room for the history, and is not empty
  unfoldable pub Fits : Profiler F G → Type 0
  Fits p = (0 < p.history_capacity) × (length p.history ≤ p.history_capacity)

  -- the history of `q` is that of `p` and entries of the given time after it, and fits
  unfoldable pub Adds : F → Profiler F G → Profiler F G → Type 0
  Adds time p q =
      Fits q
      × (rows : List (ProfileEntry F)) × (q.history ≡ p.history ++ rows)
      × All (IsAt time) rows

  Adds-trans : (time : F) (p q r : Profiler F G) → Adds time p q → Adds time q r → Adds time p r
  unfolding Adds
  Adds-trans time p q r (_, xs, e, at) (f, ys, e', at') = (
    f,
    xs ++ ys,
    (e' ∙ ap (λ h. h ++ ys) e) ∙ append_assoc p.history xs ys,
    All-append (IsAt time) xs ys at at',
  )

module _ {F G : Type 0} ⦃d : Double F⦄ where
  print-Fits :
      (p : Profiler F G) (time : F) (actor key : List ℕ) (value : F)
      → Fits p
      → Fits (print p time actor key value)
  unfolding print Fits
  print-Fits p time actor key value f =
      let e : ProfileEntry F = record {
        time = time;
        actor = take 63 actor;
        key = take 95 key;
        value = value;
      } in
      let l = length-append p.history (e ∷ []) in ground arith

  print-Adds :
      (p : Profiler F G) (time : F) (actor key : List ℕ) (value : F)
      → Fits p
      → Adds time p (print p time actor key value)
  unfolding print Adds IsAt
  print-Adds p time actor key value f = (print-Fits p time actor key value f, _, refl, (refl, tt))

  Adds-Fits : (time : F) (p q : Profiler F G) → Adds time p q → Fits q
  unfolding Adds
  Adds-Fits time p q a = a.0

  Adds-refl : (time : F) (p : Profiler F G) → Fits p → Adds time p p
  unfolding Adds
  Adds-refl time p f = (f, [], sym (append-nil p.history), tt)

module _ {F G : Type 0} ⦃d : Double F⦄ (text : Key → List ℕ) where
  print_all-Adds :
      (time : F) (actor : List ℕ) (kvs : List (ProfileKv F)) (p : Profiler F G)
      → Fits p
      → Adds time p (print_all text time actor kvs p)
  unfolding print_all
  print_all-Adds time actor [] p f = Adds-refl time p f
  print_all-Adds time actor (kv ∷ kvs) p f =
      let q = print p time actor (text (Key.metric kv.key)) kv.value in
      let first = print-Adds p time actor (text (Key.metric kv.key)) kv.value f in
      Adds-trans time p q (print_all text time actor kvs q) first
        (print_all-Adds time actor kvs q (Adds-Fits time p q first))

  -- one more entry
  then-print :
      (time : F) (p q : Profiler F G) (actor key : List ℕ) (value : F)
      → Adds time p q
      → Adds time p (print q time actor key value)
  then-print time p q actor key value a =
      Adds-trans time p q (print q time actor key value) a
        (print-Adds q time actor key value (Adds-Fits time p q a))

  profile_collection-Adds :
      {A : Type 0} (time : F) (c : View A) (p : Profiler F G)
      → Fits p
      → Adds time p (profile_collection text time c p)
  unfolding profile_collection
  profile_collection-Adds time c p f = then-print time p _ _ _ _ (
      then-print time p _ _ _ _ (
        then-print time p _ _ _ _
          (then-print time p _ _ _ _ (then-print time p p _ _ _ (Adds-refl time p f)))))

module _ {F G A W : Type 0} ⦃d : Double F⦄ (text : Key → List ℕ) (repr : A → List ℕ)
    (view : W → View A) (run_profiler : A → W → Option (List (ProfileKv F) × W))
    (profiled_at : A → F → W → W) (act : G → List (ProfileEntry F) → W → W) where
  printed-Adds :
      (time : F) (a : A) (s : Profiler F G × W) (result : Option (List (ProfileKv F) × W))
      → Fits s.0
      → Adds time s.0 (printed text repr view run_profiler profiled_at act time a s result).0
  unfolding printed
  printed-Adds time a (p, w) none f = Adds-refl time p f
  printed-Adds time a (p, w) (some (kvs, w')) f = print_all-Adds text time (repr a) kvs p f

  profile_actors-Adds :
      (time : F) (actors : List A) (s : Profiler F G × W)
      → Fits s.0
      → Adds time s.0 (profile_actors text repr view run_profiler profiled_at act time actors s).0
  unfolding profile_actors profile_actor
  profile_actors-Adds time [] s f = Adds-refl time s.0 f
  profile_actors-Adds time (a ∷ actors) s f =
      let s' = profile_actor text repr view run_profiler profiled_at act time a s in
      let first = printed-Adds time a s (run_profiler a s.1) f in
      let end = profile_actors text repr view run_profiler profiled_at act time actors s' in
      Adds-trans time s.0 s'.0 end.0 first
        (profile_actors-Adds time actors s' (Adds-Fits time s.0 s'.0 first))

  profile_types-Adds :
      (time : F) (types : List (List A)) (s : Profiler F G × W)
      → Fits s.0
      → Adds time s.0 (profile_types text repr view run_profiler profiled_at act time types s).0
  unfolding profile_types
  profile_types-Adds time [] s f = Adds-refl time s.0 f
  profile_types-Adds time (actors ∷ types) s f =
      let s' = profile_actors text repr view run_profiler profiled_at act time actors s in
      let first = profile_actors-Adds time actors s f in
      let end = profile_types text repr view run_profiler profiled_at act time types s' in
      Adds-trans time s.0 s'.0 end.0 first
        (profile_types-Adds time types s' (Adds-Fits time s.0 s'.0 first))

  -- A profile of a collection, whatever its actors give and its agents do, keeps the history before
  -- it, adds entries of the time of the clock only, and the array of the history has room for them,
  -- when it had room before and was not empty.
  pub profile-Adds :
      (time : F) (p : Profiler F G) (w : W)
      → Fits p
      → Adds time p (profile text repr view run_profiler profiled_at act time (p, w)).0
  unfolding profile
  profile-Adds time p w f =
      let q = profile_collection text time (view w) p in
      let first = profile_collection-Adds text time (view w) p f in
      let s =
        profile_types text repr view run_profiler profiled_at act time (view w).actors_by_type
          (q, w) in
      Adds-trans time p q s.0 first
        (profile_types-Adds time (view w).actors_by_type (q, w) (Adds-Fits time p q first))
