-- ===== src/Drivers/Forestdb.antt =====
-- src/drivers/ia_forestdb.c with MANUAL_COMPACT, over any engine with the interface of ForestDB. What
-- is logged is left out.
use ioarena.Base.{ℕ, Bool, true, false, Option, none, some, List, ◌++◌, if◌then◌else◌}
use ioarena.Base.Text.{codes}
use ioarena.Bench.{Benchmark}
use ioarena.Config.Names.{SyncMode, WalMode}
use ioarena.Kv.Gen.{IaKv}
use ioarena.Doer.Driver.{Rc, success, not_found, Driver}
use ioarena.Doer.Turn.{minus_one}
use ioarena.Drivers.Lmdb.{value_bytes}

-- FDB_RESULT_SUCCESS, FDB_RESULT_KEY_NOT_FOUND, FDB_RESULT_ITERATOR_FAIL or another status.
pub data Fdb : Type 0 where
  fdb_success fdb_key_not_found fdb_iterator_fail : Fdb
  fdb_error : ℕ → Fdb

-- What the sync and wal modes set of `fdb_config`: whether the write-ahead log is flushed before a
-- commit and writes are asynchronous (else O_DIRECT), and `wal_threshold` if it is set.
pub record FdbConfig : Type 0 where
  pub wal_flush_before_commit : Bool
  pub async : Bool
  pub wal_threshold : Option ℕ

-- The engine's functions on its state. `get_kv` gives the block that it leaves in `result`, if any, and
-- the size; `iterator_get` whether it leaves a document.
pub record FdbEngine (S : Type 0) : Type 0 where
  pub init : FdbConfig → S → Fdb × S
  pub shutdown : S → S
  pub open_file : (filename : List ℕ) → S → Fdb × S
  pub kvs_open : S → Fdb × S
  pub close_file : S → S
  pub kvs_close : S → S
  pub compact : S → Fdb × S
  pub begin_transaction : S → Fdb × S
  pub end_transaction : S → Fdb × S
  pub abort_transaction : S → S
  pub commit : S → Fdb × S
  pub iterator_init : S → Fdb × Bool × S
  pub seek_to_min : S → Fdb × S
  pub iterator_get : S → Fdb × Bool × S
  pub iterator_next : S → Fdb × S
  pub iterator_close : S → Fdb × S
  pub doc_free : S → S
  pub free_block : S → S
  pub set_kv : (k v : List ℕ) → S → Fdb × S
  pub del_kv : (k : List ℕ) → S → Fdb × S
  pub get_kv : (k : List ℕ) → S → Fdb × Option (List ℕ) × ℕ × S

-- `struct iacontext`, with the engine's state and `needsCompact` of `struct iaprivate`: whether `it`,
-- `doc` and `transaction` are set, and the block of `result`. The two handles are set.
pub record FdbContext (S : Type 0) : Type 0 where
  pub result : Option (List ℕ)
  pub it : Bool
  pub doc : Bool
  pub transaction : Bool
  pub needs_compact : Bool
  pub engine : S

abbrev pub is_fdb_success : Fdb → Bool
is_fdb_success fdb_success = true
is_fdb_success fdb_key_not_found = false
is_fdb_success fdb_iterator_fail = false
is_fdb_success (fdb_error code) = false

-- if (status != FDB_RESULT_SUCCESS) goto bailout;
abbrev pub fdb_rc : Fdb → Rc
fdb_rc status = if is_fdb_success status then success else minus_one

abbrev pub fdb_config : SyncMode → WalMode → FdbConfig
fdb_config sync wal = record {
  wal_flush_before_commit = elim sync [
    | SyncMode.ia_sync ↦ true
    | SyncMode.ia_lazy ↦ true
    | SyncMode.ia_nosync ↦ false
  ];
  async = elim sync [
    | SyncMode.ia_sync ↦ false
    | SyncMode.ia_lazy ↦ true
    | SyncMode.ia_nosync ↦ true
  ];
  wal_threshold = elim wal [
    | WalMode.ia_wal_indef ↦ none
    | WalMode.ia_wal_on ↦ none
    | WalMode.ia_wal_off ↦ some 0
  ];
}

module _ {S : Type 0} (e : FdbEngine S) where
  -- `ia_forestdb_open`: whether it returns 0, whether there is private data, and the engine's state;
  -- `named` tells whether asprintf gives a name.
  unfoldable pub ia_forestdb_open :
      (allocated named : Bool) → SyncMode → WalMode → S → Bool × Bool × S
  ia_forestdb_open false named sync wal s = (false, false, s)
  ia_forestdb_open true false sync wal s = (false, true, s)
  ia_forestdb_open true true sync wal s =
      let r = e.init (fdb_config sync wal) s in
      if is_fdb_success r.0 then (true, true, r.1) else (false, true, e.shutdown r.1)

  -- `ia_forestdb_close`
  abbrev pub ia_forestdb_close : (priv : Bool) → S → S
  ia_forestdb_close priv s = if priv then e.shutdown s else s

  -- `ia_forestdb_thread_new`: `none` is NULL; what fails is left open.
  unfoldable pub ia_forestdb_thread_new :
      (allocated : Bool) (datadir : List ℕ) (needs_compact : Bool) → S → Option (FdbContext S) × S
  ia_forestdb_thread_new false datadir needs_compact s = (none, s)
  ia_forestdb_thread_new true datadir needs_compact s =
      let r = e.open_file (datadir ++ codes "/io.arena") s in
      let kvs = e.kvs_open r.1 in
      if is_fdb_success r.0
      then (if is_fdb_success kvs.0
          then (
            some (record {
              result = none;
              it = false;
              doc = false;
              transaction = false;
              needs_compact = needs_compact;
              engine = kvs.1;
            }),
            kvs.1,
          )
          else (none, kvs.1))
      else (none, r.1)

  -- if (ctx->result) fdb_free_block(ctx->result);
  abbrev pub free_result : Option (List ℕ) → S → S
  free_result none s = s
  free_result (some v) s = e.free_block s

  -- `ia_forestdb_thread_dispose`, with the engine's state after it
  unfoldable pub ia_forestdb_thread_dispose : FdbContext S → S
  ia_forestdb_thread_dispose c =
      let s = free_result c.result c.engine in
      let s1 = if c.it then (e.iterator_close s).1 else s in
      let s2 = if c.transaction then e.abort_transaction s1 else s1 in
      let s3 = if c.doc then e.doc_free s2 else s2 in e.close_file (e.kvs_close s3)

  -- The cases of `ia_forestdb_begin`
  abbrev pub fdb_begin_txn : FdbContext S → Rc × FdbContext S
  fdb_begin_txn c =
      let r = e.begin_transaction c.engine in
      if is_fdb_success r.0
      then (success, record c { transaction = true; engine = r.1 })
      else (minus_one, record c { engine = r.1 })

  abbrev pub fdb_begin_iterate : FdbContext S → Rc × FdbContext S
  fdb_begin_iterate c =
      let r = e.iterator_init c.engine in
      let sought = e.seek_to_min r.2 in
      if is_fdb_success r.0
      then (fdb_rc sought.0, record c { it = r.1; engine = sought.1 })
      else (minus_one, record c { it = r.1; engine = r.2 })

  unfoldable pub fdb_begin_step : FdbContext S → Benchmark → Rc × FdbContext S
  fdb_begin_step c Benchmark.ia_crud = fdb_begin_txn c
  fdb_begin_step c Benchmark.ia_batch = (success, c)
  fdb_begin_step c Benchmark.ia_set = (success, c)
  fdb_begin_step c Benchmark.ia_delete = (success, c)
  fdb_begin_step c Benchmark.ia_get = (success, c)
  fdb_begin_step c Benchmark.ia_iterate = fdb_begin_iterate c

  -- Once the file has been compacted.
  abbrev pub fdb_compacted : FdbContext S → Benchmark → Fdb × S → Rc × FdbContext S
  fdb_compacted c b (status, s) =
      if is_fdb_success status
      then fdb_begin_step (record c { needs_compact = false; engine = s }) b
      else (minus_one, record c { needs_compact = false; engine = s })

  unfoldable pub ia_forestdb_begin : FdbContext S → Benchmark → Rc × FdbContext S
  ia_forestdb_begin c b =
      if c.needs_compact then fdb_compacted c b (e.compact c.engine) else fdb_begin_step c b

  -- The cases of `ia_forestdb_done`
  abbrev pub fdb_end_txn : FdbContext S → Rc × FdbContext S
  fdb_end_txn c =
      let r = e.end_transaction c.engine in
      if c.transaction
      then (fdb_rc r.0, record c { transaction = false; engine = r.1 })
      else (success, c)

  abbrev pub fdb_commit : FdbContext S → Rc × FdbContext S
  fdb_commit c = let r = e.commit c.engine in (fdb_rc r.0, record c { engine = r.1 })

  abbrev pub fdb_end_iterate : FdbContext S → Rc × FdbContext S
  fdb_end_iterate c =
      let s = if c.doc then e.doc_free c.engine else c.engine in
      let r = e.iterator_close s in
      if c.it
      then (fdb_rc r.0, record c { it = false; doc = false; engine = r.1 })
      else (success, record c { doc = false; engine = s })

  unfoldable pub ia_forestdb_done : FdbContext S → Benchmark → Rc × FdbContext S
  ia_forestdb_done c Benchmark.ia_crud = fdb_end_txn c
  ia_forestdb_done c Benchmark.ia_batch = fdb_commit c
  ia_forestdb_done c Benchmark.ia_delete = fdb_commit c
  ia_forestdb_done c Benchmark.ia_set = fdb_commit c
  ia_forestdb_done c Benchmark.ia_get =
      (success, record c { result = none; engine = free_result c.result c.engine })
  ia_forestdb_done c Benchmark.ia_iterate = fdb_end_iterate c

  -- if (!ctx->transaction) { rc = ENOENT; break; }
  abbrev pub fdb_missing : (transaction : Bool) → IaKv → FdbContext S → Rc × IaKv × FdbContext S
  fdb_missing true kv c = (success, record kv { v = c.result }, c)
  fdb_missing false kv c = (not_found, kv, c)

  -- case IA_GET: of `ia_forestdb_next`; `c` has the block and the state that fdb_get_kv leaves.
  abbrev pub fdb_got : Fdb → IaKv → FdbContext S → Rc × IaKv × FdbContext S
  fdb_got fdb_success kv c = (success, record kv { v = c.result }, c)
  fdb_got fdb_key_not_found kv c = fdb_missing c.transaction kv c
  fdb_got fdb_iterator_fail kv c = (minus_one, kv, c)
  fdb_got (fdb_error code) kv c = (minus_one, kv, c)

  -- case IA_ITERATE: a document that has been read counts as the end where no other follows it.
  abbrev pub fdb_moved : Fdb → Rc
  fdb_moved fdb_success = success
  fdb_moved fdb_key_not_found = minus_one
  fdb_moved fdb_iterator_fail = not_found
  fdb_moved (fdb_error code) = minus_one

  abbrev pub fdb_iterate : IaKv → FdbContext S → Rc × IaKv × FdbContext S
  fdb_iterate kv c =
      let r = e.iterator_get c.engine in
      let moved = e.iterator_next r.2 in
      if is_fdb_success r.0
      then (fdb_moved moved.0, kv, record c { doc = r.1; engine = moved.1 })
      else (minus_one, kv, record c { doc = r.1; engine = r.2 })

  unfoldable pub ia_forestdb_next : FdbContext S → Benchmark → IaKv → Rc × IaKv × FdbContext S
  ia_forestdb_next c Benchmark.ia_set kv =
      let r = e.set_kv kv.k (value_bytes kv.v) c.engine in
      (fdb_rc r.0, kv, record c { engine = r.1 })
  ia_forestdb_next c Benchmark.ia_delete kv =
      let r = e.del_kv kv.k c.engine in (fdb_rc r.0, kv, record c { engine = r.1 })
  ia_forestdb_next c Benchmark.ia_get kv =
      let r = e.get_kv kv.k (free_result c.result c.engine) in
      fdb_got r.0 (record kv { vsize = r.2 }) (record c { result = r.1; engine = r.3 })
  ia_forestdb_next c Benchmark.ia_iterate kv = fdb_iterate kv c
  ia_forestdb_next c Benchmark.ia_batch kv = (minus_one, kv, c)
  ia_forestdb_next c Benchmark.ia_crud kv = (minus_one, kv, c)

  -- iadriver ia_forestdb
  abbrev pub ia_forestdb : Driver (FdbContext S)
  ia_forestdb = record {
    begin = ia_forestdb_begin;
    next = ia_forestdb_next;
    finish = ia_forestdb_done;
  }
