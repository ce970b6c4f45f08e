-- ===== src/Util/Rng/Draws.antt =====
-- src/util/rng.c: the draws that call sqrt and log and repeat until a draw is in range. The loops run
-- on fuel, since how long they run is up to the generator; sqrt and log are parameters.
use distributed_search_engin.Base.{
  ℕ, zero, suc, true, false, ◌||◌, Option, none, some, ◌>>=◌, if◌then◌else◌,
}
use distributed_search_engin.Double.{Double}
use distributed_search_engin.Util.Rng.{Rng, double}

module _ {F : Type 0} ⦃d : Double F⦄ where
  -- a draw between -1 and 1: one of the two lines in the loop of `rng_gauss`
  unfoldable pub coordinate : Rng F → F × Rng F
  unfolding double
  coordinate r = (d.sub (d.mul (double r).0 (d.of_ℕ 2)) (d.of_ℕ 1), (double r).1)

  -- `s`, the square of the distance from the origin
  abbrev pub radius : F → F → F
  radius u v = d.add (d.mul u u) (d.mul v v)

  -- the loop of `rng_gauss`: the two coordinates of a point within the unit circle
  unfoldable pub point : ℕ → Rng F → Option (F × F × Rng F)
  unfolding coordinate
  point zero r = none
  point (suc n) r =
      let (u, r1) = coordinate r in
      let (v, r2) = coordinate r1 in
      let s = radius u v in
      let again = point n r2 in
      if d.le (d.of_ℕ 1) s || d.eq s (d.of_ℕ 0) then again else some (u, v, r2)

  -- the loop of `rng_expovariate`: a draw that is not zero
  unfoldable pub nonzero : ℕ → Rng F → Option (F × Rng F)
  unfolding double
  nonzero zero r = none
  nonzero (suc n) r =
      let (u, r') = double r in
      let again = nonzero n r' in if d.eq u (d.of_ℕ 0) then again else some (u, r')

module _ {F : Type 0} ⦃d : Double F⦄ (sqrt log : F → F) where
  -- `mul`, the factor of both coordinates
  abbrev pub scale : F → F
  scale s = sqrt (d.div (d.mul (d.neg (d.of_ℕ 2)) (log s)) s)

  -- `rng_gauss`
  unfoldable pub gauss : ℕ → Rng F → F → F → Option (F × Rng F)
  unfolding point
  gauss n r mu sigma =
      let rested : Rng F = record r { has_spare = false } in
      let drawn = do
        (u, v, r') ← point n r
        let mul = scale (radius u v)
        let keeping : Rng F = record r' { spare = d.mul v mul; has_spare = true }
        some (d.add mu (d.mul (d.mul sigma u) mul), keeping)
      in if r.has_spare then some (d.add mu (d.mul sigma r.spare), rested) else drawn

  -- `rng_expovariate`
  unfoldable pub expovariate : ℕ → Rng F → F → Option (F × Rng F)
  unfolding nonzero
  expovariate n r lambda = do (u, r') ← nonzero n r; some (d.div (d.neg (log u)) lambda, r')
