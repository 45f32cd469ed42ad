-- ===== src/Drivers/Iowow.antt =====
-- src/drivers/ia_iowow.c, over any engine with the interface of IOWOW. What is logged is left out.
use ioarena.Base.{ℕ, Bool, true, false, Option, none, some, List, ◌++◌, if◌then◌else◌, length}
use ioarena.Base.Text.{codes}
use ioarena.Bench.{Benchmark}
use ioarena.Config.Names.{SyncMode, WalMode}
use ioarena.Kv.Gen.{IaKv}
use ioarena.Doer.Driver.{Rc, success, not_found, Driver}
use ioarena.Doer.Turn.{minus_one, no_kv}
use ioarena.Drivers.Lmdb.{value_bytes}

-- 0, IWKV_ERROR_NOTFOUND or another code.
pub data Iw : Type 0 where
  iw_ok iw_notfound : Iw
  iw_error : ℕ → Iw

-- The engine's functions on its state; `sync` is IWKV_SYNC. `none` of a wal setting is the default.
pub record IwEngine (S : Type 0) : Type 0 where
  pub open_store : (path : List ℕ) → (wal : Option Bool) → S → Iw × S
  pub open_db : S → Iw × S
  pub close_store : S → Iw × S
  pub cursor_open : S → Iw × S
  pub cursor_close : S → Iw × S
  pub cursor_next : S → Iw × S
  pub cursor_get : S → Iw × List ℕ × List ℕ × S
  pub put : (sync : Bool) (k v : List ℕ) → S → Iw × S
  pub del : (sync : Bool) (k : List ℕ) → S → Iw × S
  pub get : (k : List ℕ) → S → Iw × List ℕ × S

-- `struct iacontext`, with the engine's state: whether `cursor` is set, which iwkv_cursor_close undoes.
pub record IwContext (S : Type 0) : Type 0 where
  pub cursor : Bool
  pub engine : S

abbrev pub is_iw_ok : Iw → Bool
is_iw_ok iw_ok = true
is_iw_ok iw_notfound = false
is_iw_ok (iw_error code) = false

-- if (rc) return -1; return rci;
abbrev pub iw_rc : Iw → Rc
iw_rc iw_ok = success
iw_rc iw_notfound = minus_one
iw_rc (iw_error code) = minus_one

-- if (rc == IWKV_ERROR_NOTFOUND) { rci = ENOENT; rc = 0; }
abbrev pub iw_enoent : Iw → Rc
iw_enoent iw_ok = success
iw_enoent iw_notfound = not_found
iw_enoent (iw_error code) = minus_one

abbrev pub iw_wal : WalMode → Option Bool
iw_wal WalMode.ia_wal_on = some true
iw_wal WalMode.ia_wal_off = some false
iw_wal WalMode.ia_wal_indef = none

-- ioarena.conf.syncmode == IA_SYNC
abbrev pub iw_sync : SyncMode → Bool
iw_sync SyncMode.ia_sync = true
iw_sync SyncMode.ia_lazy = false
iw_sync SyncMode.ia_nosync = false

module _ {S : Type 0} (e : IwEngine S) where
  -- `ia_iowow_open`, where there is memory for the private data: whether it returns 0. Without memory it
  -- goes on with a null pointer, which is left out.
  unfoldable pub ia_iowow_open : (datadir : List ℕ) → WalMode → S → Bool × S
  ia_iowow_open datadir wal s =
      let r = e.open_store (datadir ++ codes "/test.iowow") (iw_wal wal) s in
      let made = e.open_db r.1 in if is_iw_ok r.0 then (is_iw_ok made.0, made.1) else (false, r.1)

  -- `ia_iowow_close`, with whether there is private data
  unfoldable pub ia_iowow_close : (priv : Bool) → S → Rc × S
  ia_iowow_close false s = (success, s)
  ia_iowow_close true s = let r = e.close_store s in (iw_rc r.0, r.1)

  -- `ia_iowow_thread_new`: `none` is NULL.
  abbrev pub ia_iowow_thread_new : (allocated : Bool) → S → Option (IwContext S)
  ia_iowow_thread_new false s = none
  ia_iowow_thread_new true s = some (record { cursor = false; engine = s })

  unfoldable pub ia_iowow_begin : IwContext S → Benchmark → Rc × IwContext S
  ia_iowow_begin c Benchmark.ia_iterate =
      let r = e.cursor_open c.engine in
      (iw_rc r.0, record { cursor = if is_iw_ok r.0 then true else c.cursor; engine = r.1 })
  ia_iowow_begin c Benchmark.ia_set = (success, c)
  ia_iowow_begin c Benchmark.ia_batch = (success, c)
  ia_iowow_begin c Benchmark.ia_crud = (success, c)
  ia_iowow_begin c Benchmark.ia_delete = (success, c)
  ia_iowow_begin c Benchmark.ia_get = (success, c)

  unfoldable pub ia_iowow_done : IwContext S → Benchmark → Rc × IwContext S
  ia_iowow_done c Benchmark.ia_iterate =
      let r = e.cursor_close c.engine in
      if c.cursor then (iw_rc r.0, record { cursor = false; engine = r.1 }) else (success, c)
  ia_iowow_done c Benchmark.ia_set = (success, c)
  ia_iowow_done c Benchmark.ia_batch = (success, c)
  ia_iowow_done c Benchmark.ia_crud = (success, c)
  ia_iowow_done c Benchmark.ia_delete = (success, c)
  ia_iowow_done c Benchmark.ia_get = (success, c)

  -- case IA_GET: of `ia_iowow_next` and case IA_ITERATE: once the key is found or the cursor has moved
  abbrev pub iw_found : IaKv → IwContext S → Iw × List ℕ × S → Rc × IaKv × IwContext S
  iw_found kv c (iw_ok, v, s) = (success, record kv { vsize = length v }, record c { engine = s })
  iw_found kv c (iw_notfound, v, s) = (not_found, kv, record c { engine = s })
  iw_found kv c (iw_error code, v, s) = (minus_one, kv, record c { engine = s })

  abbrev pub iw_pair : IaKv → IwContext S → Iw × List ℕ × List ℕ × S → Rc × IaKv × IwContext S
  iw_pair kv c (iw_ok, k, v, s) =
      (success, record kv { ksize = length k; vsize = length v }, record c { engine = s })
  iw_pair kv c (iw_notfound, k, v, s) = (minus_one, kv, record c { engine = s })
  iw_pair kv c (iw_error code, k, v, s) = (minus_one, kv, record c { engine = s })

  abbrev pub iw_moved : IaKv → IwContext S → Iw × S → Rc × IaKv × IwContext S
  iw_moved kv c (iw_ok, s) = iw_pair kv c (e.cursor_get s)
  iw_moved kv c (iw_notfound, s) = (not_found, no_kv, record c { engine = s })
  iw_moved kv c (iw_error code, s) = (minus_one, kv, record c { engine = s })

  module _ (mode : SyncMode) where
    unfoldable pub ia_iowow_next : IwContext S → Benchmark → IaKv → Rc × IaKv × IwContext S
    ia_iowow_next c Benchmark.ia_set kv =
        let r = e.put (iw_sync mode) kv.k (value_bytes kv.v) c.engine in
        (iw_rc r.0, kv, record c { engine = r.1 })
    ia_iowow_next c Benchmark.ia_delete kv =
        let r = e.del (iw_sync mode) kv.k c.engine in (iw_enoent r.0, kv, record c { engine = r.1 })
    ia_iowow_next c Benchmark.ia_get kv = iw_found kv c (e.get kv.k c.engine)
    ia_iowow_next c Benchmark.ia_iterate kv = iw_moved kv c (e.cursor_next c.engine)
    ia_iowow_next c Benchmark.ia_batch kv = (minus_one, kv, c)
    ia_iowow_next c Benchmark.ia_crud kv = (minus_one, kv, c)

    -- iadriver ia_iowow
    abbrev pub ia_iowow : Driver (IwContext S)
    ia_iowow = record { begin = ia_iowow_begin; next = ia_iowow_next; finish = ia_iowow_done }
