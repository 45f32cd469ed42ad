-- ===== src/Drivers/Leveldb.antt =====
-- The benchmark's part of src/drivers/ia_leveldb.c, over any engine with the interface of LevelDB's C
-- library. What is logged is left out, and so are the settings that `open` gives the engine.
pub mod Crud
pub mod Iterate
pub mod Open
use ioarena.Base.{ℕ, Bool, true, false, Option, none, some, List, if◌then◌else◌}
use ioarena.Bench.{Benchmark}
use ioarena.Kv.Gen.{IaKv}
use ioarena.Doer.Driver.{Rc, success, not_found, Driver}
use ioarena.Doer.Turn.{minus_one}
use ioarena.Drivers.Lmdb.{value_bytes}

-- The engine's functions, on its state and on batches: whether there is no error, the results, and the
-- state. `get` gives the value, if the key is there, and what it stores as its length.
pub record LevelEngine (S B : Type 0) : Type 0 where
  pub create_iterator : S → Bool × S
  pub iter_seek_to_first : S → S
  pub iter_valid : S → Bool
  pub iter_key : S → ℕ × List ℕ
  pub iter_next : S → S
  pub iter_destroy : S → S
  pub writebatch_create : Option B
  pub writebatch_put : (k v : List ℕ) → B → B
  pub writebatch_delete : (k : List ℕ) → B → B
  pub write : B → S → Bool × S
  pub put : (k v : List ℕ) → S → Bool × S
  pub delete : (k : List ℕ) → S → Bool × S
  pub get : (k : List ℕ) → S → Bool × Option (List ℕ) × ℕ × S

-- `struct iacontext`, with the engine's state: whether `it` is set, the batch, and the result.
pub record LevelContext (S B : Type 0) : Type 0 where
  pub it : Bool
  pub batch : Option B
  pub result : Option (List ℕ)
  pub engine : S

-- 0, or -1 from `bailout`
abbrev pub zero_if : Bool → Rc
zero_if true = success
zero_if false = minus_one

module _ {S B : Type 0} (e : LevelEngine S B) where
  -- `ia_leveldb_thread_new`: `none` is NULL.
  abbrev pub ia_leveldb_thread_new : (allocated : Bool) → S → Option (LevelContext S B)
  ia_leveldb_thread_new false s = none
  ia_leveldb_thread_new true s =
      some (record { it = false; batch = none; result = none; engine = s })

  -- `ia_leveldb_thread_dispose`, with the engine's state after it
  abbrev pub ia_leveldb_thread_dispose : LevelContext S B → S
  ia_leveldb_thread_dispose c = if c.it then e.iter_destroy c.engine else c.engine

  -- case IA_ITERATE: of `ia_leveldb_begin`
  unfoldable pub level_begin_iterate : LevelContext S B → Rc × LevelContext S B
  level_begin_iterate c =
      let r = e.create_iterator c.engine in
      if r.0
      then (success, record c { it = true; engine = e.iter_seek_to_first r.1 })
      else (minus_one, record c { it = false; engine = r.1 })

  -- case IA_CRUD: case IA_BATCH: with what leveldb_writebatch_create returns
  abbrev pub level_begin_batch : Option B → LevelContext S B → Rc × LevelContext S B
  level_begin_batch none c = (minus_one, record c { batch = none })
  level_begin_batch (some b) c = (success, record c { batch = some b })

  unfoldable pub ia_leveldb_begin : LevelContext S B → Benchmark → Rc × LevelContext S B
  ia_leveldb_begin c Benchmark.ia_get = (success, c)
  ia_leveldb_begin c Benchmark.ia_set = (success, c)
  ia_leveldb_begin c Benchmark.ia_delete = (success, c)
  ia_leveldb_begin c Benchmark.ia_iterate = level_begin_iterate c
  ia_leveldb_begin c Benchmark.ia_crud = level_begin_batch e.writebatch_create c
  ia_leveldb_begin c Benchmark.ia_batch = level_begin_batch e.writebatch_create c

  -- if (ctx->batch) { leveldb_write(...); ... }, which keeps the batch where the write fails
  abbrev pub level_write : Option B → LevelContext S B → Rc × LevelContext S B
  level_write none c = (success, c)
  level_write (some b) c =
      let r = e.write b c.engine in
      if r.0
      then (success, record c { batch = none; engine = r.1 })
      else (minus_one, record c { engine = r.1 })

  unfoldable pub ia_leveldb_done : LevelContext S B → Benchmark → Rc × LevelContext S B
  ia_leveldb_done c Benchmark.ia_get = (success, record c { result = none })
  ia_leveldb_done c Benchmark.ia_set = (success, c)
  ia_leveldb_done c Benchmark.ia_delete = (success, c)
  ia_leveldb_done c Benchmark.ia_iterate =
      if c.it
      then (success, record c { it = false; engine = e.iter_destroy c.engine })
      else (success, c)
  ia_leveldb_done c Benchmark.ia_crud = level_write c.batch c
  ia_leveldb_done c Benchmark.ia_batch = level_write c.batch c

  -- The three operations, with the batch or without one.
  abbrev pub level_set : Option B → LevelContext S B → IaKv → Rc × IaKv × LevelContext S B
  level_set (some b) c kv =
      (success, kv, record c { batch = some (e.writebatch_put kv.k (value_bytes kv.v) b) })
  level_set none c kv =
      let r = e.put kv.k (value_bytes kv.v) c.engine in (zero_if r.0, kv, record c { engine = r.1 })

  abbrev pub level_delete : Option B → LevelContext S B → IaKv → Rc × IaKv × LevelContext S B
  level_delete (some b) c kv = (success, kv, record c { batch = some (e.writebatch_delete kv.k b) })
  level_delete none c kv =
      let r = e.delete kv.k c.engine in (zero_if r.0, kv, record c { engine = r.1 })

  -- A key that is not there is no error within a batch.
  abbrev pub level_got :
      Option B → Bool → Option (List ℕ) → IaKv → LevelContext S B → Rc × IaKv × LevelContext S B
  level_got batch false result kv c = (minus_one, kv, c)
  level_got batch true (some v) kv c = (success, record kv { v = some v }, c)
  level_got (some b) true none kv c = (success, record kv { v = none }, c)
  level_got none true none kv c = (not_found, kv, c)

  abbrev pub level_get : LevelContext S B → IaKv → Rc × IaKv × LevelContext S B
  level_get c kv =
      let r = e.get kv.k c.engine in
      level_got c.batch r.0 r.1 (record kv { vsize = r.2 })
        (record c { result = r.1; engine = r.3 })

  unfoldable pub ia_leveldb_next :
      LevelContext S B → Benchmark → IaKv → Rc × IaKv × LevelContext S B
  ia_leveldb_next c Benchmark.ia_set kv = level_set c.batch c kv
  ia_leveldb_next c Benchmark.ia_delete kv = level_delete c.batch c kv
  ia_leveldb_next c Benchmark.ia_get kv = level_get c kv
  ia_leveldb_next c Benchmark.ia_iterate kv =
      let key = e.iter_key c.engine in
      if e.iter_valid c.engine
      then (
        success,
        record kv { ksize = key.0; k = key.1 },
        record c { engine = e.iter_next c.engine },
      )
      else (not_found, kv, c)
  ia_leveldb_next c Benchmark.ia_batch kv = (minus_one, kv, c)
  ia_leveldb_next c Benchmark.ia_crud kv = (minus_one, kv, c)

  -- iadriver ia_leveldb
  abbrev pub ia_leveldb : Driver (LevelContext S B)
  ia_leveldb = record { begin = ia_leveldb_begin; next = ia_leveldb_next; finish = ia_leveldb_done }
