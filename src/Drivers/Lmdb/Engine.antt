-- ===== src/Drivers/Lmdb/Engine.antt =====
-- The engine that src/drivers/ia_lmdb.c calls, and the flags that it opens it with.
use ioarena.Base.{ℕ, Bool, true, false, List}
use ioarena.Config.Names.{SyncMode}
use ioarena.Kv.Gen.{IaKv}

-- MDB_SUCCESS, MDB_NOTFOUND or another code.
pub data Mdb : Type 0 where
  mdb_success mdb_notfound : Mdb
  mdb_error : ℕ → Mdb

-- The flags of mdb_env_open that the driver uses.
pub data MdbFlag : Type 0 where
  mdb_nosync mdb_nometasync mdb_writemap mdb_mapasync mdb_nordahead : MdbFlag

-- The engine's functions on an environment, and those on transactions and cursors, on what one thread
-- sees of its state.
pub record MdbEnv (S : Type 0) : Type 0 where
  pub env_create : S → Mdb × S
  pub env_set_mapsize : ℕ → S → Mdb × S
  pub env_open : (datadir : List ℕ) → (MdbFlag → Bool) → S → Mdb × S
  pub env_close : S → S
  pub dbi_close : S → S

pub record MdbEngine (S : Type 0) : Type 0 where
  pub dbi_open : S → Mdb × S
  pub txn_begin : (rdonly : Bool) → S → Mdb × S
  pub txn_abort : S → S
  pub txn_commit : S → Mdb × S
  pub txn_renew : S → Mdb × S
  pub txn_reset : S → S
  pub cursor_open : S → Mdb × S
  pub cursor_renew : S → Mdb × S
  pub cursor_close : S → S
  pub cursor_get : S → Mdb × IaKv × S
  pub put : (k v : List ℕ) → S → Mdb × S
  pub del : (k : List ℕ) → S → Mdb × S
  pub get : (k : List ℕ) → S → Mdb × S

abbrev pub is_success : Mdb → Bool
is_success mdb_success = true
is_success mdb_notfound = false
is_success (mdb_error code) = false

-- The flags of a sync mode.
unfoldable pub lmdb_modeflags : SyncMode → MdbFlag → Bool
lmdb_modeflags SyncMode.ia_sync f = false
lmdb_modeflags SyncMode.ia_lazy MdbFlag.mdb_nosync = true
lmdb_modeflags SyncMode.ia_lazy MdbFlag.mdb_nometasync = true
lmdb_modeflags SyncMode.ia_lazy f = false
lmdb_modeflags SyncMode.ia_nosync MdbFlag.mdb_writemap = true
lmdb_modeflags SyncMode.ia_nosync MdbFlag.mdb_mapasync = true
lmdb_modeflags SyncMode.ia_nosync f = false

abbrev pub with_nordahead : (MdbFlag → Bool) → MdbFlag → Bool
with_nordahead flags MdbFlag.mdb_nordahead = true
with_nordahead flags f = flags f

-- 4 * 1024 * 1024 * 1024ULL
abbrev pub lmdb_mapsize : ℕ
lmdb_mapsize = 4294967296
