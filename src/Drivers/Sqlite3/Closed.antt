-- ===== src/Drivers/Sqlite3/Closed.antt =====
-- Which connections src/drivers/ia_sqlite3.c closes twice.
use ioarena.Base.{
  ℕ, ◌≡◌, inl, inr, ◌⊎◌, ◌∙◌, refl, arith, Bool, true, false, Bool-cases, not, ◌&&◌, ◌==◌, ◌≢◌,
  some, List, [], ◌∷◌, ◌++◌,
}
use ioarena.Base.Text.{codes}
use ioarena.Bench.{Benchmark}
use ioarena.Config.Names.{SyncMode, WalMode}
use ioarena.Kv.Gen.{IaKv}
use ioarena.Doer.Driver.{success}
use ioarena.Doer.Turn.{minus_one}
use ioarena.Drivers.Handle.{Handle, null, valid, freed}
use ioarena.Drivers.Sqlite3.{
  Connecting, connected, failed_open, no_memory, SqliteEngine, SqliteState, sq_exec, close_unless,
  run_all, pragma_sync, pragma_wal, create_table, ia_sqlite3_open, ia_sqlite3_close,
  ia_sqlite3_next, sq_run, sql_delete, sql_select,
}

-- The operations that run their statement with sqlite3_exec.
abbrev pub RunsSql : Benchmark → Type 0
RunsSql Benchmark.ia_delete = Unit
RunsSql Benchmark.ia_get = Unit
RunsSql b = ⊥

-- The statement of an operation.
abbrev pub sql_of : (text : List ℕ → List ℕ) → Benchmark → (k : List ℕ) → List ℕ
sql_of text Benchmark.ia_get k = sql_select text k
sql_of text b k = sql_delete text k

Connecting-cases : (x : Connecting) → (x ≡ connected) ⊎ (x ≡ failed_open) ⊎ (x ≡ no_memory)
Connecting-cases connected = inl refl
Connecting-cases failed_open = inr (inl refl)
Connecting-cases no_memory = inr (inr refl)

-- Whether sqlite3_open gives a connection.
abbrev pub gives_connection : Connecting → Bool
gives_connection connected = true
gives_connection failed_open = true
gives_connection no_memory = false

module _ {S : Type 0} (e : SqliteEngine S) where
  -- A connection is used well so far, and is open, or has just been closed by a failure.
  abbrev OpenUnless : Bool × SqliteState S → Type 0
  OpenUnless (ok, c) =
      (c.misused ≡ false)
      × (c.statements ≡ 0)
      × (ok ≡ true → c.db ≡ valid)
      × (ok ≡ false → c.db ≡ freed)

  exec-OpenUnless :
      (sql : List ℕ) (c : SqliteState S)
      → c.db ≡ valid
      → c.misused ≡ false
      → c.statements ≡ 0
      → OpenUnless (close_unless e (sq_exec e sql c))
  exec-OpenUnless sql c open_db well none_left = elim (Bool-cases (e.exec sql c.engine).0) [
    | inl ok ↦ rw ok (ground arith)
    | inr fails ↦ rw fails (ground arith)
  ]

  run_all-OpenUnless :
      (sqls : List (List ℕ)) (c : SqliteState S)
      → c.db ≡ valid
      → c.misused ≡ false
      → c.statements ≡ 0
      → OpenUnless (run_all e sqls c)
  unfolding run_all
  run_all-OpenUnless [] c open_db well none_left =
      (well, none_left, λ ok. open_db, λ fails. absurd (ground arith))
  run_all-OpenUnless (sql ∷ rest) c open_db well none_left =
      let r = close_unless e (sq_exec e sql c) in
      let (well', left', stays, closes) = exec-OpenUnless sql c open_db well none_left in
      elim (Bool-cases r.0) [
        | inl ok ↦ rw ok (run_all-OpenUnless rest r.1 (stays ok) well' left')
        | inr fails ↦ rw fails (well', left', λ ok. absurd (ground arith), λ never. closes fails)
      ]

  close-twice : (c : SqliteState S) → c.db ≡ freed → (ia_sqlite3_close e c).misused ≡ true
  unfolding ia_sqlite3_close
  close-twice c gone = ground arith

  close-well :
      (c : SqliteState S)
      → c.misused ≡ false
      → c.db ≢ freed
      → (ia_sqlite3_close e c).misused ≡ false
  unfolding ia_sqlite3_close
  close-well c well not_gone = ground arith

  -- What closing tells of what came before it.
  closing : (r : Bool × SqliteState S) → OpenUnless r → (ia_sqlite3_close e r.1).misused ≡ not r.0
  closing (true, c) (well, none_left, stays, closes) =
      close-well c well (λ gone. still_open (stays refl) gone)
    where
      still_open : c.db ≡ valid → c.db ≡ freed → ⊥
      still_open v f = ground arith
  closing (false, c) (well, none_left, stays, closes) = close-twice c (closes refl)

  -- Once `ia_sqlite3_open` has got memory, `ia_sqlite3_close` closes a connection that is closed already
  -- exactly where `ia_sqlite3_open` has returned -1 and sqlite3_open had given a connection. Where it had
  -- not, for want of memory, `ia_sqlite3_open` returns -1 and nothing is closed.
  pub sqlite_open-closes :
      (datadir : List ℕ) (sync : SyncMode) (wal : WalMode) (s : S)
      → let r = ia_sqlite3_open e true datadir sync wal s in
        let given = gives_connection (e.open_db (datadir ++ codes "/test.sqlite") s).0 in
        (c : SqliteState S) × (r.1 ≡ some c)
        × (c.misused ≡ false)
        × ((ia_sqlite3_close e c).misused ≡ not r.0 && given)
        × (given ≡ false → (r.0 ≡ false) × ((ia_sqlite3_close e c).db ≡ null))
  unfolding ia_sqlite3_open ia_sqlite3_close
  sqlite_open-closes datadir sync wal s =
      let r = e.open_db (datadir ++ codes "/test.sqlite") s in
      elim (Connecting-cases r.0) [
        | inl opens ↦
            let c = fresh valid r.1 in
            let sqls = pragma_sync sync ∷ pragma_wal wal ∷ create_table ∷ [] in
            let opened = run_all-OpenUnless sqls c refl refl refl in
            rw opens (
              (run_all e sqls c).1,
              refl,
              opened.0,
              closing (run_all e sqls c) opened ∙ and_true (run_all e sqls c).0,
              λ none_given. absurd (ground arith),
            )
        | inr (inl fails) ↦ rw fails (
          record (fresh valid r.1) { db = freed; engine = e.close_db r.1 },
          refl,
          refl,
          close-twice (record (fresh valid r.1) { db = freed; engine = e.close_db r.1 }) refl,
          λ none_given. absurd (ground arith),
        )
        | inr (inr nothing) ↦ rw nothing (fresh null r.1, refl, refl, refl, λ given. (refl, refl))
      ]
    where
      fresh : Handle → S → SqliteState S
      fresh db s' = record { db = db; misused = false; statements = 0; engine = s' }

      and_true : (ok : Bool) → not ok ≡ (not ok && true)
      and_true ok = ground arith

  sq_run-closes :
      (sql : List ℕ) (c : SqliteState S)
      → c.db ≡ valid
      → c.misused ≡ false
      → let r = sq_run e sql c in
        ((e.exec sql c.engine).0 ≡ true → (r.0 ≡ success) × (r.1.db ≡ valid))
        × ((e.exec sql c.engine).0 ≡ false → r.0 ≡ minus_one)
        × ((ia_sqlite3_close e r.1).misused ≡ not (e.exec sql c.engine).0 && c.statements == 0)
  unfolding sq_run ia_sqlite3_close
  sq_run-closes sql c open_db well = elim (Bool-cases (e.exec sql c.engine).0) [
    | inl ok ↦ rw ok (ground arith)
    | inr fails ↦ rw fails (ground arith)
  ]

  module _ (text : List ℕ → List ℕ) where
    -- With an open connection, a get or delete of `ia_sqlite3_next` returns 0 where its statement
    -- succeeds and -1 where it fails. `ia_sqlite3_close` then closes a connection that is closed already
    -- exactly in the second case, and if no prepared statement was left: while one is, sqlite3_close
    -- closes nothing.
    pub sqlite_next-closes :
        (b : Benchmark) (c : SqliteState S) (kv : IaKv)
        → RunsSql b
        → c.db ≡ valid
        → c.misused ≡ false
        → let r = ia_sqlite3_next e text c b kv in
          let ok = (e.exec (sql_of text b kv.k) c.engine).0 in
          (ok ≡ true → (r.0 ≡ success) × ((r.2).db ≡ valid))
          × (ok ≡ false → r.0 ≡ minus_one)
          × ((ia_sqlite3_close e r.2).misused ≡ not ok && c.statements == 0)
    unfolding ia_sqlite3_next
    sqlite_next-closes Benchmark.ia_delete c kv w open_db well =
        sq_run-closes (sql_delete text kv.k) c open_db well
    sqlite_next-closes Benchmark.ia_get c kv w open_db well =
        sq_run-closes (sql_select text kv.k) c open_db well
    sqlite_next-closes Benchmark.ia_set c kv w open_db well = elim w [ ]
    sqlite_next-closes Benchmark.ia_iterate c kv w open_db well = elim w [ ]
    sqlite_next-closes Benchmark.ia_batch c kv w open_db well = elim w [ ]
    sqlite_next-closes Benchmark.ia_crud c kv w open_db well = elim w [ ]
