-- ===== src/Drivers/Wiredtiger/Durable.antt =====
-- What src/drivers/ia_wiredtiger.c makes durable.
use ioarena.Base.{
  ℕ, ◌≡◌, ◌≢◌, refl, sym, ap, ◌∙◌, arith, Bool, true, false, Option, none, some, List,
  if◌then◌else◌,
}
use ioarena.Bench.{Benchmark}
use ioarena.Config.Names.{SyncMode, WalMode}
use ioarena.Doer.Driver.{Rc, success}
use ioarena.Drivers.Store.{Store}
use ioarena.Drivers.Wiredtiger.{
  Wt, wt_ok, wt_notfound, wt_error, is_wt_ok, WtEngine, WtPrivate, WtContext, needs_checkpoints,
  wt_config, ia_wt_open, wt_checkpoint, wt_committed, wt_commit, ia_wiredtiger_done,
}

-- The table that the engine holds and the one that a crash leaves; a checkpoint that succeeds makes
-- them equal.
pub record Checkpoints {S : Type 0} (e : WtEngine S) : Type 0 where
  pub contents : S → Store
  pub durable : S → Store
  pub saves :
      (s : S)
      → (e.checkpoint s).0 ≡ success
      → durable (e.checkpoint s).1 ≡ contents (e.checkpoint s).1

abbrev pub Writes : Benchmark → Type 0
Writes Benchmark.ia_set = Unit
Writes Benchmark.ia_delete = Unit
Writes Benchmark.ia_batch = Unit
Writes Benchmark.ia_crud = Unit
Writes b = ⊥

-- A property of either branch.
if_cases :
    {A : Type 0} (P : A → Type 0) (t : Bool) (a b : A)
    → (t ≡ true → P a)
    → (t ≡ false → P b)
    → P (if t then a else b)
if_cases P true a b f g = f refl
if_cases P false a b f g = g refl

module _ {S : Type 0} (e : WtEngine S) (l : Checkpoints e) where
  -- All that the engine holds is durable.
  abbrev IsSaved : Rc × WtContext S → Type 0
  IsSaved r = l.durable r.1.engine ≡ l.contents r.1.engine

  checkpoint-IsSaved :
      (self : WtPrivate) (c : WtContext S)
      → self.need_checkpoints ≡ true
      → (wt_checkpoint e self c).0 ≡ success
      → IsSaved (wt_checkpoint e self c) × ((wt_checkpoint e self c).1.transaction ≡ c.transaction)
  unfolding wt_checkpoint
  checkpoint-IsSaved self c needs ok =
      let did : (e.checkpoint c.engine).0 ≡ success = rw (needs, wt_checkpoint) at ok in
      rw needs (l.saves c.engine did, refl)

  committed-IsSaved :
      (self : WtPrivate) (c : WtContext S) (r : Wt × S)
      → self.need_checkpoints ≡ true
      → (wt_committed e self c r).0 ≡ success
      → IsSaved (wt_committed e self c r) × ((wt_committed e self c r).1.transaction ≡ false)
  committed-IsSaved self c (wt_ok, s) needs ok =
      checkpoint-IsSaved self (record c { transaction = false; engine = s }) needs ok
  committed-IsSaved self c (wt_notfound, s) needs ok = absurd (ground arith)
  committed-IsSaved self c (wt_error code, s) needs ok = absurd (ground arith)

  commit-IsSaved :
      (self : WtPrivate) (c : WtContext S)
      → self.need_checkpoints ≡ true
      → (wt_commit e self c).0 ≡ success
      → IsSaved (wt_commit e self c) × ((wt_commit e self c).1.transaction ≡ false)
  unfolding wt_commit
  commit-IsSaved self c needs =
      if_cases (λ (r : Rc × WtContext S). r.0 ≡ success → IsSaved r × (r.1.transaction ≡ false))
        c.transaction _ _ (λ within. committed-IsSaved self c (e.commit_transaction c.engine) needs)
        (λ outside ok.
          let (saved, same) = checkpoint-IsSaved self c needs ok in (saved, same ∙ outside))

  done-IsSaved :
      (self : WtPrivate) (c : WtContext S) (b : Benchmark)
      → Writes b
      → self.need_checkpoints ≡ true
      → (ia_wiredtiger_done e self c b).0 ≡ success
      → IsSaved (ia_wiredtiger_done e self c b)
  unfolding ia_wiredtiger_done
  done-IsSaved self c Benchmark.ia_set w needs ok = (checkpoint-IsSaved self c needs ok).0
  done-IsSaved self c Benchmark.ia_delete w needs ok = (checkpoint-IsSaved self c needs ok).0
  done-IsSaved self c Benchmark.ia_batch w needs ok = (commit-IsSaved self c needs ok).0
  done-IsSaved self c Benchmark.ia_crud w needs ok = (commit-IsSaved self c needs ok).0
  done-IsSaved self c Benchmark.ia_iterate w needs ok = elim w [ ]
  done-IsSaved self c Benchmark.ia_get w needs ok = elim w [ ]

  sync_needs :
      (wal : WalMode) → wal ≢ WalMode.ia_wal_on → needs_checkpoints SyncMode.ia_sync wal ≡ true
  sync_needs wal ne = ground arith

  open-needs :
      (datadir : List ℕ) (sync : SyncMode) (wal : WalMode) (s : S) (self : WtPrivate)
      → (ia_wt_open e true datadir sync wal s).1 ≡ some self
      → self.need_checkpoints ≡ needs_checkpoints sync wal
  unfolding ia_wt_open
  open-needs datadir sync wal s self =
      if_cases
        (λ (r : Bool × Option WtPrivate × S).
          r.1 ≡ some self → self.need_checkpoints ≡ needs_checkpoints sync wal)
        (is_wt_ok (e.open_connection datadir (wt_config sync wal) s).0) _ _
        (λ connected opened. sym (ap (needs_of self) opened))
        (λ refused opened. sym (ap (needs_of self) opened))
    where
      needs_of : WtPrivate → Option WtPrivate → Bool
      needs_of other none = other.need_checkpoints
      needs_of other (some self') = self'.need_checkpoints

  -- After `ia_wt_open` in the sync mode without a log, each `ia_wiredtiger_done` of a set, delete, crud or batch that
  -- returns 0 leaves everything that the engine holds durable, where a checkpoint that succeeds makes it so.
  pub wt_open-done_durable :
      (datadir : List ℕ) (wal : WalMode) (s : S) (self : WtPrivate) (c : WtContext S)
      (b : Benchmark)
      → wal ≢ WalMode.ia_wal_on
      → (ia_wt_open e true datadir SyncMode.ia_sync wal s).1 ≡ some self
      → Writes b
      → (ia_wiredtiger_done e self c b).0 ≡ success
      → l.durable (ia_wiredtiger_done e self c b).1.engine
        ≡ l.contents (ia_wiredtiger_done e self c b).1.engine
  wt_open-done_durable datadir wal s self c b ne opened w ok =
      done-IsSaved self c b w
        (open-needs datadir SyncMode.ia_sync wal s self opened ∙ sync_needs wal ne) ok
