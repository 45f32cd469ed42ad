-- ===== src/Drivers/Lmdb/Handles.antt =====
-- Which handles src/drivers/ia_lmdb.c passes to the engine, over the calls that a doer makes.
use ioarena.Base.{◌≡◌, ◌≢◌, inl, inr, ◌||◌, not, Bool, true, false, Bool-cases, arith}
use ioarena.Bench.{Benchmark}
use ioarena.Kv.Gen.{IaKv}
use ioarena.Doer.Driver.{success}
use ioarena.Drivers.Handle.{null, valid}
use ioarena.Drivers.Lmdb.{
  MdbEngine, LmdbContext, ia_lmdb_begin, ia_lmdb_done, ia_lmdb_next, ia_lmdb_thread_dispose,
}
use ioarena.Drivers.Lmdb.Owned.{
  Phase, idle, begun, Owned, InPhase, Asks, begin-InPhase, next-InPhase, done_well, done-Owned,
  dispose-Owned,
}
use ioarena.Drivers.Lmdb.Misuse.{
  begin-stays, next-stays, done-stays, dispose-stays, done-fails, begin-null, done-null, set-null,
}

-- A set, delete or get is one operation with its `begin` and `done`.
abbrev pub is_single : Benchmark → Bool
is_single Benchmark.ia_set = true
is_single Benchmark.ia_delete = true
is_single Benchmark.ia_get = true
is_single Benchmark.ia_batch = false
is_single Benchmark.ia_crud = false
is_single Benchmark.ia_iterate = false

-- A crud or iterate that does not begin calls the driver no more.
abbrev pub stops_at_once : Benchmark → Bool
stops_at_once Benchmark.ia_crud = true
stops_at_once Benchmark.ia_iterate = true
stops_at_once Benchmark.ia_set = false
stops_at_once Benchmark.ia_delete = false
stops_at_once Benchmark.ia_get = false
stops_at_once Benchmark.ia_batch = false

module _ {S : Type 0} (e : MdbEngine S) where
  -- The states of a context from `thread_new` on, as `ia_run_benchmark` uses it, with whether some commit,
  -- or some `begin` of a set, delete, get or batch, has failed. A benchmark begins while the driver is
  -- idle, asks for operations once it has begun, and is done, or stops for an error. Where `begin` fails,
  -- a set, delete or get calls `done` all the same, a batch goes on to its first operation, and a crud or
  -- iterate stops.
  pub data Session : LmdbContext S → Phase → (failed : Bool) → Type 0 where
    opens :
        (s : S)
        → Session (record { txn = null; cursor = null; misused = false; engine = s }) idle false
    begins :
        (c : LmdbContext S) (b : Benchmark) (failed : Bool)
        → Session c idle failed
        → (ia_lmdb_begin e c b).0 ≡ success
        → Session (ia_lmdb_begin e c b).1 (begun b) failed
    begins_not :
        (c : LmdbContext S) (b : Benchmark) (failed : Bool)
        → Session c idle failed
        → (ia_lmdb_begin e c b).0 ≢ success
        → stops_at_once b ≡ true
        → Session (ia_lmdb_begin e c b).1 idle failed
    ends_unbegun :
        (c : LmdbContext S) (b : Benchmark) (failed : Bool)
        → Session c idle failed
        → (ia_lmdb_begin e c b).0 ≢ success
        → is_single b ≡ true
        → Session (ia_lmdb_done e (ia_lmdb_begin e c b).1 b).1 idle true
    asks_unbegun :
        (c : LmdbContext S) (kv : IaKv) (failed : Bool)
        → Session c idle failed
        → (ia_lmdb_begin e c Benchmark.ia_batch).0 ≢ success
        → Session
            (ia_lmdb_next e (ia_lmdb_begin e c Benchmark.ia_batch).1 Benchmark.ia_set kv).2
            (begun Benchmark.ia_batch)
            true
    asks :
        (c : LmdbContext S) (b op : Benchmark) (kv : IaKv) (failed : Bool)
        → Session c (begun b) failed
        → Asks e b op
        → Session (ia_lmdb_next e c op kv).2 (begun b) failed
    ends :
        (c : LmdbContext S) (b : Benchmark) (failed : Bool)
        → Session c (begun b) failed
        → Session (ia_lmdb_done e c b).1 idle (failed || not (done_well e c b))
    stops :
        (c : LmdbContext S) (b : Benchmark) (failed : Bool)
        → Session c (begun b) failed
        → Session c idle failed

  -- What is so once a handle has been misused, and before.
  abbrev Told : LmdbContext S → Phase → Bool → Type 0
  Told c p true = c.misused ≡ true
  Told c p false = InPhase e c p

  single-no_iterate : (b : Benchmark) → is_single b ≡ true → b ≢ Benchmark.ia_iterate
  single-no_iterate b h e' = ground arith

  -- The misuse is told by the failures.
  Session-Told :
      {c : LmdbContext S} {p : Phase} {failed : Bool} → Session c p failed → Told c p failed
  Session-Told (opens s) = ground arith
  Session-Told (begins c b true r ok) = begin-stays e c b (Session-Told r)
  Session-Told (begins c b false r ok) = (begin-InPhase e c b (Session-Told r)).1 ok
  Session-Told (begins_not c b true r fails at_once) = begin-stays e c b (Session-Told r)
  Session-Told (begins_not c b false r fails at_once) = (begin-InPhase e c b (Session-Told r)).0
  Session-Told (ends_unbegun c b true r fails one) =
      done-stays e _ b (begin-stays e c b (Session-Told r))
  Session-Told (ends_unbegun c b false r fails one) =
      done-null e _ b (begin-null e c b (Session-Told r) (single-no_iterate b one) fails)
  Session-Told (asks_unbegun c kv true r fails) =
      next-stays e _ Benchmark.ia_set kv (begin-stays e c Benchmark.ia_batch (Session-Told r))
  Session-Told (asks_unbegun c kv false r fails) =
      set-null e _ kv
        (begin-null e c Benchmark.ia_batch (Session-Told r) (λ e'. ground arith) fails)
  Session-Told (asks c b op kv true r a) = next-stays e c op kv (Session-Told r)
  Session-Told (asks c b op kv false r a) = next-InPhase e c b op kv a (Session-Told r)
  Session-Told (ends c b true r) = done-stays e c b (Session-Told r)
  Session-Told (ends c b false r) = elim (Bool-cases (done_well e c b)) [
    | inl well ↦ rw well (done-Owned e c b well (Session-Told r))
    | inr fails ↦ rw fails (done-fails e c b fails)
  ]
  Session-Told (stops c b true r) = Session-Told r
  Session-Told (stops c b false r) = (Session-Told r).0

  -- With any engine, whatever its calls answer, over any sequence of benchmarks that `ia_run_benchmark`
  -- runs with a context, also where they fail to begin or stop for an error: a null or freed handle has
  -- been passed to the engine, or a live one overwritten, exactly where some commit has failed, or some
  -- `begin` of a set, delete, get or batch. `ia_lmdb_thread_dispose` at any point adds no such misuse,
  -- and where there has been none, it leaves no transaction and no cursor behind.
  pub lmdb_handles :
      (c : LmdbContext S) (p : Phase) (failed : Bool)
      → Session c p failed
      → (c.misused ≡ failed)
        × ((ia_lmdb_thread_dispose e c).misused ≡ failed)
        × (failed ≡ false
            → ((ia_lmdb_thread_dispose e c).txn ≢ valid)
              × ((ia_lmdb_thread_dispose e c).cursor ≢ valid))
  lmdb_handles c p true r =
      let m : c.misused ≡ true = Session-Told r in
      (m, dispose-stays e c m, λ none_failed. absurd (ground arith))
  lmdb_handles c idle false r =
      let o : Owned e c = Session-Told r in
      let (harmless, txn, cursor) = dispose-Owned e c o in
      (o.unharmed, harmless, λ none_failed. (txn, cursor))
  lmdb_handles c (begun b) false r =
      let o : InPhase e c (begun b) = Session-Told r in
      let (harmless, txn, cursor) = dispose-Owned e c o.0 in
      (o.0.unharmed, harmless, λ none_failed. (txn, cursor))
