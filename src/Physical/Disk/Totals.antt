-- ===== src/Physical/Disk/Totals.antt =====
-- What a disk counts over any interleaving of operations that overlap.
use distributed_search_engin.Base.{
  ℕ, zero, suc, ◌≡◌, refl, ap, Option, none, some, List, [], ◌∷◌, ◌++◌, map,
}
use distributed_search_engin.Double.{Double}
use distributed_search_engin.Types.{DiskOp, DseResult}
use distributed_search_engin.Physical.Disk.{Disk, DiskReserveCtx, reserve_done, reserve_op}

-- What happens to a disk: an operation starts, at a time, with its bytes and its caller, or the
-- operation of a number among those under way is done.
pub data Event (F K : Type 0) : Type 0 where
  start : F → F → DiskOp → Option K → Event F K
  done : ℕ → Event F K

-- an operation that was asked for: its kind, its bytes and its caller
pub record Asked (F K : Type 0) : Type 0 where
  pub op : DiskOp
  pub bytes : F
  pub caller : Option K

-- what is left of a list without the item of a number, and that item
abbrev pub take_out : {A : Type 0} → ℕ → List A → Option A × List A
take_out n [] = (none, [])
take_out zero (x ∷ xs) = (some x, xs)
take_out (suc n) (x ∷ xs) = let rest = take_out n xs in (rest.0, x ∷ rest.1)

-- The disk, the contexts of the operations under way, and the answers given so far.
pub record Running (F K : Type 0) : Type 0 where
  pub disk : Disk F
  pub under_way : List (DiskReserveCtx F K)
  pub answers : List (Option K × DseResult)

-- What is expected: the bytes read and written, the operations under way as they were asked for, and
-- the answers given so far.
pub record Expected (F K : Type 0) : Type 0 where
  pub read : F
  pub written : F
  pub under_way : List (Asked F K)
  pub answers : List (Option K × DseResult)

module _ {F K : Type 0} ⦃d : Double F⦄ where
  abbrev pub complete :
      Option (DiskReserveCtx F K) → List (DiskReserveCtx F K) → Running F K → Running F K
  complete none left s = s
  complete (some ctx) left s =
      let r = reserve_done ctx s.disk in
      record { disk = r.0; under_way = left; answers = s.answers ++ ((r.1, r.2) ∷ []) }

  -- the operations of the code, on the contexts that they make
  abbrev pub history : List (Event F K) → Running F K → Running F K
  history [] s = s
  history (Event.start now bytes op cont ∷ es) s =
      let r = reserve_op now s.disk bytes op cont in
      history es (record s { disk = r.0; under_way = r.2 ∷ s.under_way })
  history (Event.done n ∷ es) s =
      let out = take_out n s.under_way in history es (complete out.0 out.1 s)

  abbrev pub count : Option (Asked F K) → List (Asked F K) → Expected F K → Expected F K
  count none left x = x
  count (some a) left x = record {
    read = elim a.op [ DiskOp.read ↦ d.add x.read a.bytes | DiskOp.write ↦ x.read ];
    written = elim a.op [ DiskOp.read ↦ x.written | DiskOp.write ↦ d.add x.written a.bytes ];
    under_way = left;
    answers = x.answers ++ ((a.caller, DseResult.res_4xx) ∷ []);
  }

  -- an operation that is done counts the bytes that were asked for when it started
  abbrev pub expected : List (Event F K) → Expected F K → Expected F K
  expected [] x = x
  expected (Event.start now bytes op cont ∷ es) x =
      expected es
        (record x { under_way = record { op = op; bytes = bytes; caller = cont } ∷ x.under_way })
  expected (Event.done n ∷ es) x =
      let out = take_out n x.under_way in expected es (count out.0 out.1 x)

  abbrev pub context : Asked F K → DiskReserveCtx F K
  context a = record { bytes = a.bytes; op = a.op; caller = a.caller }

  abbrev context_of : Option (Asked F K) → Option (DiskReserveCtx F K)
  context_of none = none
  context_of (some a) = some (context a)

  take_out-map :
      (n : ℕ) (xs : List (Asked F K))
      → take_out n (map context xs) ≡ (context_of (take_out n xs).0, map context (take_out n xs).1)
  take_out-map n [] = refl
  take_out-map zero (x ∷ xs) = refl
  take_out-map (suc n) (x ∷ xs) = ap (λ t. (t.0, context x ∷ t.1)) (take_out-map n xs)

  -- the disk of `s` has counted what is expected, its speeds are those of `k`, and the contexts and the
  -- answers are the expected ones
  Matches : Disk F → Running F K → Expected F K → Type 0
  Matches k s x =
      (s.disk.total_read ≡ x.read)
      × (s.disk.total_write ≡ x.written)
      × (s.under_way ≡ map context x.under_way)
      × (s.answers ≡ x.answers)
      × (s.disk.read_speed ≡ k.read_speed)
      × (s.disk.write_speed ≡ k.write_speed)

  start-Matches :
      (k : Disk F) (now bytes : F) (op : DiskOp) (cont : Option K) (s : Running F K)
      (x : Expected F K)
      → Matches k s x
      → let r = reserve_op now s.disk bytes op cont in
        Matches k
          (record s { disk = r.0; under_way = r.2 ∷ s.under_way })
          (record x { under_way = record { op = op; bytes = bytes; caller = cont } ∷ x.under_way })
  unfolding reserve_op Matches
  start-Matches k now bytes DiskOp.read cont s x (read, written, under, told, fast, slow) = (
    read,
    written,
    ap (λ l. record { bytes = bytes; op = DiskOp.read; caller = cont } ∷ l) under,
    told,
    fast,
    slow,
  )
  start-Matches k now bytes DiskOp.write cont s x (read, written, under, told, fast, slow) = (
    read,
    written,
    ap (λ l. record { bytes = bytes; op = DiskOp.write; caller = cont } ∷ l) under,
    told,
    fast,
    slow,
  )

  done-Matches :
      (k : Disk F) (op : DiskOp) (bytes : F) (cont : Option K) (left : List (Asked F K))
      (s : Running F K) (x : Expected F K)
      → Matches k s x
      → Matches k
          (complete (some (record { bytes = bytes; op = op; caller = cont })) (map context left) s)
          (count (some (record { op = op; bytes = bytes; caller = cont })) left x)
  unfolding reserve_done Matches
  done-Matches k DiskOp.read bytes cont left s x (read, written, under, told, fast, slow) = (
    ap (λ t. d.add t bytes) read,
    written,
    refl,
    ap (λ l. l ++ ((cont, DseResult.res_4xx) ∷ [])) told,
    fast,
    slow,
  )
  done-Matches k DiskOp.write bytes cont left s x (read, written, under, told, fast, slow) = (
    read,
    ap (λ t. d.add t bytes) written,
    refl,
    ap (λ l. l ++ ((cont, DseResult.res_4xx) ∷ [])) told,
    fast,
    slow,
  )

  complete-Matches :
      (k : Disk F) (o : Option (Asked F K)) (left : List (Asked F K)) (s : Running F K)
      (x : Expected F K)
      → Matches k s x
      → Matches k (complete (context_of o) (map context left) s) (count o left x)
  complete-Matches k none left s x m = m
  complete-Matches k (some a) left s x m = done-Matches k a.op a.bytes a.caller left s x m

  finish-Matches :
      (k : Disk F) (n : ℕ) (s : Running F K) (x : Expected F K)
      → Matches k s x
      → Matches k
          (complete (take_out n s.under_way).0 (take_out n s.under_way).1 s)
          (count (take_out n x.under_way).0 (take_out n x.under_way).1 x)
  unfolding Matches
  finish-Matches k n s x m =
      let (read, written, under, told, fast, slow) = m in
      rw (under, take_out-map n x.under_way)
        (complete-Matches k (take_out n x.under_way).0 (take_out n x.under_way).1
          (record s { under_way = map context x.under_way }) x
          (read, written, refl, told, fast, slow))

  history-Matches :
      (es : List (Event F K)) (k : Disk F) (s : Running F K) (x : Expected F K)
      → Matches k s x
      → Matches k (history es s) (expected es x)
  history-Matches [] k s x m = m
  history-Matches (Event.start now bytes op cont ∷ es) k s x m =
      history-Matches es k _ _ (start-Matches k now bytes op cont s x m)
  history-Matches (Event.done n ∷ es) k s x m = history-Matches es k _ _ (finish-Matches k n s x m)

  -- However the operations of an idle disk overlap, `total_read` is what it was with the bytes of the
  -- reads that are done, as they were asked for, added in the order of completion, `total_write` the
  -- same for the writes; each operation that is done answers its own caller DSE_4XX, once and in that
  -- order, and the contexts of the others are as they were asked for. The speeds stay.
  pub history_totals :
      (es : List (Event F K)) (k : Disk F)
      → let s = history es (record { disk = k; under_way = []; answers = [] }) in
        let x =
          expected es (record {
            read = k.total_read;
            written = k.total_write;
            under_way = [];
            answers = [];
          }) in
        (s.disk.total_read ≡ x.read)
        × (s.disk.total_write ≡ x.written)
        × (s.under_way ≡ map context x.under_way)
        × (s.answers ≡ x.answers)
        × (s.disk.read_speed ≡ k.read_speed)
        × (s.disk.write_speed ≡ k.write_speed)
  unfolding Matches
  history_totals es k = history-Matches es k _ _ (refl, refl, refl, refl, refl, refl)
