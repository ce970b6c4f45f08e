-- ===== src/Index.antt =====
-- include/collection/index.h, src/collection/index.c: an index, and the shard that a document goes to.
-- A shard is known by its pointer. The number of shards is below 2^31, so its conversion to `int`
-- keeps it.
mod Tests
pub mod Routing
pub mod Transfer
use distributed_search_engin.Base.{
  ℕ, zero, suc, ◌+◌, ◌-◌, ◌%◌, ◌^◌, Bool, true, false, Option, none, some, ◌>>=◌, List, [], ◌∷◌,
  ◌==◌, ltb, if◌then◌else◌, get_elem?, take, ℤ, pos, negsuc, ◌+ℤ◌, scale, rem,
}
use distributed_search_engin.Double.{Double}
use distributed_search_engin.Types.{DseResult, code}
use distributed_search_engin.Actor.{Actor, MetricKey, ProfileKv}
use distributed_search_engin.Util.DynArray
use distributed_search_engin.Util.DynArray.{DynArray, size}
use distributed_search_engin.Util.Rng
use distributed_search_engin.Util.Rng.{Rng}

-- `INDEX_HASH_P`
abbrev pub hash_p : ℕ
hash_p = 1610612741

-- `struct Index`; the name is a list of characters
pub record Index (F : Type 0) : Type 0 where
  pub base : Actor F
  pub name : List ℕ
  pub shards : DynArray
  pub hash_a : ℕ
  pub hash_b : ℕ
  pub total_requests : ℕ
  pub total_latency : F
  pub results_4xx : ℕ
  pub results_5xx : ℕ
  pub num_replicas : ℕ

-- `index_init`, on an actor that `actor_init` has made
unfoldable pub init : {F : Type 0} ⦃d : Double F⦄ → Actor F → Rng F → List ℕ → Index F × Rng F
unfolding Rng.int DynArray.init
init ⦃d⦄ base rng name =
    let (a, rng') = Rng.int rng 1 (hash_p - 1) in
    let (b, rng'') = Rng.int rng' 0 (hash_p - 1) in
    (
      record {
        base = base;
        name = take 63 name;
        shards = DynArray.init 16;
        hash_a = a;
        hash_b = b;
        total_requests = 0;
        total_latency = d.of_ℕ 0;
        results_4xx = 0;
        results_5xx = 0;
        num_replicas = 0;
      },
      rng'',
    )

module _ {F : Type 0} where
  -- `index_hash`
  unfoldable pub hash : Index F → ℤ → ℤ
  hash x document_id =
      rem (rem (scale x.hash_a document_id +ℤ pos x.hash_b) hash_p +ℤ pos hash_p) hash_p

  -- the read `shards.items[shard_idx]`; `none` out of range
  abbrev pub shard_at : Index F → ℤ → Option ℕ
  shard_at x (pos i) = get_elem? x.shards.items i
  shard_at x (negsuc i) = none

  -- `index_get_shard_from_hash`; without shards the remainder is undefined
  unfoldable pub get_shard_from_hash : Index F → ℤ → Option ℕ
  get_shard_from_hash x h = if size x.shards == 0 then none else shard_at x (rem h (size x.shards))

  -- `index_get_shard_for`
  unfoldable pub get_shard_for : Index F → ℤ → Option ℕ
  unfolding hash get_shard_from_hash
  get_shard_for x document_id =
      let h = hash x document_id in
      if size x.shards == 0 then none else shard_at x (rem h (size x.shards))

  -- the branch of `index_compute_shard` for a negative hash, which is `- k - 1`; the least `int`
  -- cannot be negated
  unfoldable pub get_shard_direct : Index F → ℕ → Option ℕ
  get_shard_direct x k =
      if k == 2 ^ 31 - 1
      then none
      else if size x.shards == 0
      then none
      else get_elem? x.shards.items (k % size x.shards)

  -- `index_compute_shard`; `has_given_hash` and `given_hash` are an `Option`
  unfoldable pub compute_shard : Index F → ℤ → Option ℤ → Option ℕ
  unfolding get_shard_for get_shard_direct get_shard_from_hash hash
  compute_shard x document_id none = get_shard_for x document_id
  compute_shard x document_id (some (negsuc k)) = get_shard_direct x k
  compute_shard x document_id (some (pos n)) = get_shard_from_hash x (hash x (pos n))

module _ {F : Type 0} ⦃d : Double F⦄ where
  -- `index_log_result`
  unfoldable pub log_result : Index F → DseResult → F → Index F
  log_result x result latency =
      let logged = record x {
        total_requests = x.total_requests + 1;
        total_latency = d.add x.total_latency latency;
      } in
      if code result == 1
      then record logged { results_4xx = x.results_4xx + 1 }
      else record logged { results_5xx = x.results_5xx + 1 }

  -- `index_run_profiler`
  unfoldable pub run_profiler : Index F → List (ProfileKv F) × Index F
  run_profiler x =
      let total = d.of_ℕ x.total_requests in
      let avg_latency = if ltb 0 x.total_requests then d.div x.total_latency total else d.of_ℕ 0 in
      (
        record { key = MetricKey.total_requests; value = total }
            ∷ record { key = MetricKey.latency; value = avg_latency }
            ∷ record { key = MetricKey.num_shards; value = d.of_ℕ (size x.shards) }
            ∷ record { key = MetricKey.metric_4xx; value = d.of_ℕ x.results_4xx }
            ∷ record { key = MetricKey.metric_5xx; value = d.of_ℕ x.results_5xx }
            ∷ [],
        record x { total_requests = 0; total_latency = d.of_ℕ 0; results_4xx = 0; results_5xx = 0 },
      )
