-- ===== src/Drivers/Rocksdb.antt =====
-- The benchmark's part of src/drivers/ia_rocksdb.c, whose context and whose calls of the engine are
-- those of src/drivers/ia_leveldb.c. The settings that `open` gives the engine are left out.
use ioarena.Base.{◌≡◌, refl, false, none, if◌then◌else◌}
use ioarena.Bench.{Benchmark}
use ioarena.Kv.Gen.{IaKv}
use ioarena.Doer.Driver.{Rc, success, not_found, Driver}
use ioarena.Doer.Turn.{minus_one}
use ioarena.Drivers.Leveldb.{
  LevelEngine, LevelContext, ia_leveldb, ia_leveldb_begin, ia_leveldb_next, ia_leveldb_done,
  level_begin_iterate, level_begin_batch, level_write, level_set, level_delete, level_get,
}

module _ {S B : Type 0} (e : LevelEngine S B) where
  -- `ia_rocksdb_thread_dispose`, with the engine's state after it
  abbrev pub ia_rocksdb_thread_dispose : LevelContext S B → S
  ia_rocksdb_thread_dispose c = if c.it then e.iter_destroy c.engine else c.engine

  unfoldable pub ia_rocksdb_begin : LevelContext S B → Benchmark → Rc × LevelContext S B
  ia_rocksdb_begin c Benchmark.ia_get = (success, c)
  ia_rocksdb_begin c Benchmark.ia_set = (success, c)
  ia_rocksdb_begin c Benchmark.ia_delete = (success, c)
  ia_rocksdb_begin c Benchmark.ia_iterate = level_begin_iterate e c
  ia_rocksdb_begin c Benchmark.ia_batch = level_begin_batch e e.writebatch_create c
  ia_rocksdb_begin c Benchmark.ia_crud = level_begin_batch e e.writebatch_create c

  unfoldable pub ia_rocksdb_done : LevelContext S B → Benchmark → Rc × LevelContext S B
  ia_rocksdb_done c Benchmark.ia_get = (success, record c { result = none })
  ia_rocksdb_done c Benchmark.ia_set = (success, c)
  ia_rocksdb_done c Benchmark.ia_delete = (success, c)
  ia_rocksdb_done c Benchmark.ia_iterate =
      if c.it
      then (success, record c { it = false; engine = e.iter_destroy c.engine })
      else (success, c)
  ia_rocksdb_done c Benchmark.ia_crud = level_write e c.batch c
  ia_rocksdb_done c Benchmark.ia_batch = level_write e c.batch c

  unfoldable pub ia_rocksdb_next :
      LevelContext S B → Benchmark → IaKv → Rc × IaKv × LevelContext S B
  ia_rocksdb_next c Benchmark.ia_set kv = level_set e c.batch c kv
  ia_rocksdb_next c Benchmark.ia_delete kv = level_delete e c.batch c kv
  ia_rocksdb_next c Benchmark.ia_get kv = level_get e c kv
  ia_rocksdb_next c Benchmark.ia_iterate kv =
      let key = e.iter_key c.engine in
      if e.iter_valid c.engine
      then (
        success,
        record kv { ksize = key.0; k = key.1 },
        record c { engine = e.iter_next c.engine },
      )
      else (not_found, kv, c)
  ia_rocksdb_next c Benchmark.ia_batch kv = (minus_one, kv, c)
  ia_rocksdb_next c Benchmark.ia_crud kv = (minus_one, kv, c)

  -- iadriver ia_rocksdb
  abbrev pub ia_rocksdb : Driver (LevelContext S B)
  ia_rocksdb = record { begin = ia_rocksdb_begin; next = ia_rocksdb_next; finish = ia_rocksdb_done }

  begin-same :
      (c : LevelContext S B) (b : Benchmark) → ia_rocksdb_begin c b ≡ ia_leveldb_begin e c b
  unfolding ia_rocksdb_begin ia_leveldb_begin
  begin-same c Benchmark.ia_get = refl
  begin-same c Benchmark.ia_set = refl
  begin-same c Benchmark.ia_delete = refl
  begin-same c Benchmark.ia_iterate = refl
  begin-same c Benchmark.ia_batch = refl
  begin-same c Benchmark.ia_crud = refl

  done-same : (c : LevelContext S B) (b : Benchmark) → ia_rocksdb_done c b ≡ ia_leveldb_done e c b
  unfolding ia_rocksdb_done ia_leveldb_done
  done-same c Benchmark.ia_get = refl
  done-same c Benchmark.ia_set = refl
  done-same c Benchmark.ia_delete = refl
  done-same c Benchmark.ia_iterate = refl
  done-same c Benchmark.ia_batch = refl
  done-same c Benchmark.ia_crud = refl

  next-same :
      (c : LevelContext S B) (op : Benchmark) (kv : IaKv)
      → ia_rocksdb_next c op kv ≡ ia_leveldb_next e c op kv
  unfolding ia_rocksdb_next ia_leveldb_next
  next-same c Benchmark.ia_get kv = refl
  next-same c Benchmark.ia_set kv = refl
  next-same c Benchmark.ia_delete kv = refl
  next-same c Benchmark.ia_iterate kv = refl
  next-same c Benchmark.ia_batch kv = refl
  next-same c Benchmark.ia_crud kv = refl

  -- The two drivers are the same one.
  pub rocksdb-leveldb : ia_rocksdb ≡ ia_leveldb e
  rocksdb-leveldb = λ i. record {
    begin = λ c b. begin-same c b i;
    next = λ c op kv. next-same c op kv i;
    finish = λ c b. done-same c b i;
  }
