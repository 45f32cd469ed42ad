-- ===== src/Drivers/Sophia.antt =====
-- src/drivers/ia_sophia.c, over any engine with the interface of Sophia. What is logged is left out.
use ioarena.Base.{
  ℕ, Bool, true, false, not, Option, none, some, List, [], ◌∷◌, ◌++◌, if◌then◌else◌, ◌==◌, ◌^◌, ◌-◌,
}
use ioarena.Base.Text.{codes}
use ioarena.Bench.{Benchmark}
use ioarena.Config.Names.{SyncMode, WalMode}
use ioarena.Kv.Gen.{IaKv}
use ioarena.Doer.Driver.{Rc, success, not_found, failure, Driver, and_then}
use ioarena.Doer.Turn.{minus_one}
use ioarena.Drivers.Lmdb.{value_bytes}

-- What sp_get gives: an object, NULL with no error pending, or NULL with one.
pub data SpGot : Type 0 where
  sp_object sp_null sp_error : SpGot

-- What sp_getstring gives for a field of the object: its bytes, or NULL with no error pending or one.
pub data SpString : Type 0 where
  sp_bytes : List ℕ → (size : ℕ) → SpString
  sp_no_bytes sp_no_string : SpString

-- A setting of the environment.
pub data SpSetting : Type 0 where
  sp_setstring : (name value : List ℕ) → SpSetting
  sp_setint : (name : List ℕ) (value : ℕ) → SpSetting

-- The engine's functions on its state. A set or delete goes through the database or a transaction; what
-- those and `commit` return is an int.
pub record SophiaEngine (S : Type 0) : Type 0 where
  pub env : S → Bool × S
  pub set_option : SpSetting → S → S
  pub open_env : S → Rc × S
  pub destroy_env : S → Rc × S
  pub begin_txn : S → Bool × S
  pub cursor : S → Bool × S
  pub document : S → S
  pub destroy_object : S → S
  pub destroy_txn : S → S
  pub destroy_cursor : S → S
  pub commit : S → Rc × S
  pub set : (within : Bool) (k v : List ℕ) → S → Rc × S
  pub delete : (within : Bool) (k : List ℕ) → S → Rc × S
  pub get : (k : List ℕ) → S → SpGot × S
  pub next_of : S → SpGot × S
  pub string_of : (field : List ℕ) → S → SpString × S

-- `ctx->txn`: NULL, the database, or a transaction.
pub data SpTxn : Type 0 where
  no_txn the_database a_txn : SpTxn

-- `struct iacontext`, with the engine's state: whether `cursor` and `entry` are set, and `txn`.
pub record SophiaContext (S : Type 0) : Type 0 where
  pub cursor : Bool
  pub entry : Bool
  pub txn : SpTxn
  pub engine : S

-- The settings that `ia_sophia_open` makes, but for the function that logs.
abbrev pub scheme_settings : (datadir : List ℕ) → List SpSetting
scheme_settings datadir =
    sp_setstring (codes "sophia.path") datadir
    ∷ sp_setstring (codes "db") (codes "test")
    ∷ sp_setstring (codes "db.test.scheme") (codes "key")
    ∷ sp_setstring (codes "db.test.scheme.key") (codes "string, key(0)")
    ∷ sp_setstring (codes "db.test.scheme") (codes "value")
    ∷ sp_setstring (codes "db.test.scheme.value") (codes "string")
    ∷ []

abbrev pub sophia_sync : SyncMode → List SpSetting
sophia_sync SyncMode.ia_sync =
    sp_setint (codes "log.sync") 1 ∷ sp_setint (codes "db.test.sync") 1 ∷ []
sophia_sync SyncMode.ia_lazy =
    sp_setint (codes "log.sync") 0
    ∷ sp_setint (codes "log.rotate_sync") 0
    ∷ sp_setint (codes "db.test.sync") 1
    ∷ []
sophia_sync SyncMode.ia_nosync =
    sp_setint (codes "log.sync") 0
    ∷ sp_setint (codes "log.rotate_sync") 0
    ∷ sp_setint (codes "db.test.sync") 0
    ∷ []

abbrev pub sophia_wal : WalMode → List SpSetting
sophia_wal WalMode.ia_wal_indef = []
sophia_wal WalMode.ia_wal_on = sp_setint (codes "log.enable") 1 ∷ []
sophia_wal WalMode.ia_wal_off = sp_setint (codes "log.enable") 0 ∷ []

-- rc == -1, which nothing but `failure` of it is
abbrev pub is_minus : Rc → Bool
is_minus success = false
is_minus not_found = false
is_minus (failure code) = code == 2 ^ 32 - 1

module _ {S : Type 0} (e : SophiaEngine S) where
  unfoldable pub set_all : List SpSetting → S → S
  set_all [] s = s
  set_all (o ∷ os) s = set_all os (e.set_option o s)

  -- `ia_sophia_open`: whether it returns 0, whether `env` is set if there is private data, and the
  -- engine's state
  unfoldable pub ia_sophia_open :
      (allocated : Bool) (datadir : List ℕ) → SyncMode → WalMode → S → Bool × Option Bool × S
  ia_sophia_open false datadir sync wal s = (false, none, s)
  ia_sophia_open true datadir sync wal s =
      let made = e.env s in
      let settings = scheme_settings datadir ++ (sophia_sync sync ++ sophia_wal wal) in
      let r = e.open_env (set_all settings made.1) in
      if made.0 then (not (is_minus r.0), some true, r.1) else (false, some false, made.1)

  -- `ia_sophia_close`
  unfoldable pub ia_sophia_close : Option Bool → S → Rc × S
  ia_sophia_close none s = (success, s)
  ia_sophia_close (some false) s = (success, s)
  ia_sophia_close (some true) s = e.destroy_env s

  -- `ia_sophia_thread_new`: `none` is NULL.
  abbrev pub ia_sophia_thread_new : (allocated : Bool) → S → Option (SophiaContext S)
  ia_sophia_thread_new false s = none
  ia_sophia_thread_new true s =
      some (record { cursor = false; entry = false; txn = no_txn; engine = s })

  -- sp_destroy of an object that is set
  abbrev pub destroy_if : Bool → (S → S) → S → S
  destroy_if true f s = f s
  destroy_if false f s = s

  -- sp_destroy(ctx->txn): whether it is the database that goes, and the engine's state
  abbrev pub drop_sp_txn : SpTxn → S → Bool × S
  drop_sp_txn no_txn s = (false, s)
  drop_sp_txn the_database s = (true, s)
  drop_sp_txn a_txn s = (false, e.destroy_txn s)

  -- `ia_sophia_thread_dispose`: whether it destroys the database, and the engine's state
  unfoldable pub ia_sophia_thread_dispose : SophiaContext S → Bool × S
  ia_sophia_thread_dispose c =
      let r = drop_sp_txn c.txn (destroy_if c.cursor e.destroy_cursor c.engine) in
      (r.0, destroy_if c.entry e.destroy_object r.1)

  -- case IA_BATCH: case IA_CRUD: and case IA_ITERATE: of `ia_sophia_begin`
  abbrev pub sophia_begin_txn : SophiaContext S → Rc × SophiaContext S
  sophia_begin_txn c =
      let r = e.begin_txn c.engine in
      if r.0
      then (success, record c { txn = a_txn; engine = r.1 })
      else (minus_one, record c { txn = no_txn; engine = r.1 })

  abbrev pub sophia_begin_cursor : SophiaContext S → Rc × SophiaContext S
  sophia_begin_cursor c =
      let r = e.cursor c.engine in
      if r.0
      then (success, record c { cursor = true; entry = true; engine = e.document r.1 })
      else (minus_one, record c { cursor = false; engine = r.1 })

  unfoldable pub ia_sophia_begin : SophiaContext S → Benchmark → Rc × SophiaContext S
  ia_sophia_begin c Benchmark.ia_set = (success, record c { txn = the_database })
  ia_sophia_begin c Benchmark.ia_delete = (success, record c { txn = the_database })
  ia_sophia_begin c Benchmark.ia_get = (success, record c { txn = the_database })
  ia_sophia_begin c Benchmark.ia_batch = sophia_begin_txn c
  ia_sophia_begin c Benchmark.ia_crud = sophia_begin_txn c
  ia_sophia_begin c Benchmark.ia_iterate = sophia_begin_cursor c

  -- if (ctx->txn) rc = sp_commit(ctx->txn); ... with what sp_commit returns
  abbrev pub sophia_committed : SophiaContext S → Rc × S → Rc × SophiaContext S
  sophia_committed c (rc, s) =
      and_then rc (success, record c { txn = no_txn; engine = s })
        (λ code. (minus_one, record c { txn = no_txn; engine = e.destroy_txn s }))

  abbrev pub sophia_commit : SpTxn → SophiaContext S → Rc × SophiaContext S
  sophia_commit no_txn c = (success, c)
  sophia_commit the_database c = sophia_committed c (e.commit c.engine)
  sophia_commit a_txn c = sophia_committed c (e.commit c.engine)

  unfoldable pub ia_sophia_done : SophiaContext S → Benchmark → Rc × SophiaContext S
  ia_sophia_done c Benchmark.ia_set = (success, record c { txn = no_txn })
  ia_sophia_done c Benchmark.ia_delete = (success, record c { txn = no_txn })
  ia_sophia_done c Benchmark.ia_get = (success, record c { txn = no_txn })
  ia_sophia_done c Benchmark.ia_batch = sophia_commit c.txn c
  ia_sophia_done c Benchmark.ia_crud = sophia_commit c.txn c
  ia_sophia_done c Benchmark.ia_iterate = (
    success,
    record {
      cursor = false;
      entry = false;
      txn = no_txn;
      engine = destroy_if c.cursor e.destroy_cursor (destroy_if c.entry e.destroy_object c.engine);
    },
  )

  -- Whether a set or delete is part of a transaction.
  abbrev pub within : SpTxn → Bool
  within no_txn = false
  within the_database = false
  within a_txn = true

  -- if (rc == -1) goto bailout; ctx->entry = NULL;
  abbrev pub sophia_wrote : SophiaContext S → Rc × S → Rc × SophiaContext S
  sophia_wrote c (rc, s) = (rc, record c { entry = is_minus rc; engine = s })

  -- rc = ctx->txn ? 0 : ENOENT;
  abbrev pub sophia_missing : SpTxn → Rc
  sophia_missing no_txn = not_found
  sophia_missing the_database = success
  sophia_missing a_txn = success

  -- The value of the object that has been found.
  abbrev pub sophia_value : IaKv → SophiaContext S → SpString × S → Rc × IaKv × SophiaContext S
  sophia_value kv c (sp_bytes v size, s) =
      (success, record kv { v = some v; vsize = size }, record c { engine = s })
  sophia_value kv c (sp_no_bytes, s) =
      (success, record kv { v = none; vsize = 0 }, record c { engine = s })
  sophia_value kv c (sp_no_string, s) = (minus_one, record kv { v = none }, record c { engine = s })

  abbrev pub sophia_got : IaKv → SophiaContext S → SpGot × S → Rc × IaKv × SophiaContext S
  sophia_got kv c (sp_object, s) =
      sophia_value kv (record c { entry = true; engine = s }) (e.string_of (codes "value") s)
  sophia_got kv c (sp_null, s) = (sophia_missing c.txn, kv, record c { entry = false; engine = s })
  sophia_got kv c (sp_error, s) = (minus_one, kv, record c { entry = false; engine = s })

  -- case IA_ITERATE: once the cursor has moved
  abbrev pub sophia_key : IaKv → SophiaContext S → SpString × S → Rc × IaKv × SophiaContext S
  sophia_key kv c (sp_bytes k size, s) =
      sophia_value (record kv { k = k; ksize = size }) (record c { engine = s })
        (e.string_of (codes "value") s)
  sophia_key kv c (sp_no_bytes, s) = (minus_one, record kv { k = [] }, record c { engine = s })
  sophia_key kv c (sp_no_string, s) = (minus_one, record kv { k = [] }, record c { engine = s })

  abbrev pub sophia_moved : IaKv → SophiaContext S → SpGot × S → Rc × IaKv × SophiaContext S
  sophia_moved kv c (sp_object, s) =
      sophia_key kv (record c { entry = true; engine = s }) (e.string_of (codes "key") s)
  sophia_moved kv c (sp_null, s) = (not_found, kv, record c { entry = false; engine = s })
  sophia_moved kv c (sp_error, s) = (minus_one, kv, record c { entry = false; engine = s })

  unfoldable pub ia_sophia_next : SophiaContext S → Benchmark → IaKv → Rc × IaKv × SophiaContext S
  ia_sophia_next c Benchmark.ia_set kv =
      let r = sophia_wrote c (e.set (within c.txn) kv.k (value_bytes kv.v) (e.document c.engine)) in
      (r.0, kv, r.1)
  ia_sophia_next c Benchmark.ia_delete kv =
      let r = sophia_wrote c (e.delete (within c.txn) kv.k (e.document c.engine)) in (r.0, kv, r.1)
  ia_sophia_next c Benchmark.ia_get kv =
      sophia_got kv c (e.get kv.k (e.document (destroy_if c.entry e.destroy_object c.engine)))
  ia_sophia_next c Benchmark.ia_iterate kv = sophia_moved kv c (e.next_of c.engine)
  ia_sophia_next c Benchmark.ia_batch kv = (minus_one, kv, c)
  ia_sophia_next c Benchmark.ia_crud kv = (minus_one, kv, c)

  -- iadriver ia_sophia
  abbrev pub ia_sophia : Driver (SophiaContext S)
  ia_sophia = record { begin = ia_sophia_begin; next = ia_sophia_next; finish = ia_sophia_done }
