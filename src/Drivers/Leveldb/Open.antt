-- ===== src/Drivers/Leveldb/Open.antt =====
-- `open` and `close` of src/drivers/ia_leveldb.c and src/drivers/ia_rocksdb.c, whose engines have the
-- same interface but for the settings. What is logged is left out.
use ioarena.Base.{ℕ, Bool, true, false, Option, none, some, List, if◌then◌else◌}
use ioarena.Config.Names.{SyncMode, WalMode}

-- The settings that the drivers make, as options of the engine; `none` is one that is left alone.
pub record LevelSettings : Type 0 where
  pub compression : Bool
  pub create_if_missing : Bool
  pub fill_cache : Bool
  pub sync : Bool
  pub use_fsync : Option Bool
  pub disable_wal : Option Bool

-- The engine's `open`, with whether it reports no error and whether it gives a database, and `close`.
pub record LevelEnv (S : Type 0) : Type 0 where
  pub open_db : LevelSettings → (datadir : List ℕ) → S → Bool × Bool × S
  pub close_db : S → S

-- `struct iaprivate`: whether the database and the three objects with options are set.
pub record LevelPrivate : Type 0 where
  pub db : Bool
  pub options : Bool

-- The switches on the sync and wal modes.
abbrev pub is_sync : SyncMode → Bool
is_sync SyncMode.ia_sync = true
is_sync SyncMode.ia_lazy = false
is_sync SyncMode.ia_nosync = false

abbrev pub level_settings : SyncMode → LevelSettings
level_settings sync = record {
  compression = false;
  create_if_missing = true;
  fill_cache = true;
  sync = is_sync sync;
  use_fsync = none;
  disable_wal = none;
}

abbrev pub rocksdb_wal : WalMode → Option Bool
rocksdb_wal WalMode.ia_wal_indef = none
rocksdb_wal WalMode.ia_wal_on = some false
rocksdb_wal WalMode.ia_wal_off = some true

abbrev pub rocksdb_settings : SyncMode → WalMode → LevelSettings
rocksdb_settings sync wal = record {
  compression = false;
  create_if_missing = true;
  fill_cache = false;
  sync = is_sync sync;
  use_fsync = some (is_sync sync);
  disable_wal = rocksdb_wal wal;
}

module _ {S : Type 0} (e : LevelEnv S) where
  -- From the call of the engine on: whether it returns 0, the private data and the engine's state
  unfoldable pub level_open_db :
      LevelSettings → (datadir : List ℕ) → S → Bool × Option LevelPrivate × S
  level_open_db settings datadir s =
      let r = e.open_db settings datadir s in (r.0, some (record { db = r.1; options = true }), r.2)

  -- `ia_leveldb_open`
  unfoldable pub ia_leveldb_open :
      (allocated : Bool) (datadir : List ℕ)
      → SyncMode
      → WalMode
      → S
      → Bool × Option LevelPrivate × S
  ia_leveldb_open false datadir sync wal s = (false, none, s)
  ia_leveldb_open true datadir sync WalMode.ia_wal_indef s =
      level_open_db (level_settings sync) datadir s
  ia_leveldb_open true datadir sync WalMode.ia_wal_on s =
      level_open_db (level_settings sync) datadir s
  ia_leveldb_open true datadir sync WalMode.ia_wal_off s =
      (false, some (record { db = false; options = true }), s)

  -- `ia_rocksdb_open`
  unfoldable pub ia_rocksdb_open :
      (allocated : Bool) (datadir : List ℕ)
      → SyncMode
      → WalMode
      → S
      → Bool × Option LevelPrivate × S
  ia_rocksdb_open false datadir sync wal s = (false, none, s)
  ia_rocksdb_open true datadir sync wal s = level_open_db (rocksdb_settings sync wal) datadir s

  -- `ia_leveldb_close` and `ia_rocksdb_close`, with the private data that is left
  unfoldable pub ia_leveldb_close : Option LevelPrivate → S → Option LevelPrivate × S
  ia_leveldb_close none s = (none, s)
  ia_leveldb_close (some self) s = (none, if self.db then e.close_db s else s)

  abbrev pub ia_rocksdb_close : Option LevelPrivate → S → Option LevelPrivate × S
  ia_rocksdb_close = ia_leveldb_close
