-- ===== src/Drivers/Leveldb/Crud.antt =====
-- What a round of crud does to a table that src/drivers/ia_leveldb.c keeps.
use ioarena.Base.{
  ℕ, ◌+◌, ◌≡◌, ◌≢◌, refl, sym, ap, ◌∙◌, arith, Bool, true, false, Option, none, some, List,
}
use mathlib.Core.Path.{subst}
use ioarena.Bench.{Benchmark}
use ioarena.Kv.Gen.{IaKv}
use ioarena.Kv.Fill.{Globals}
use ioarena.Doer.Driver.{
  Rc, success, Conf, Doer, begin, next, finish, forgive, note, Call, and_then,
}
use ioarena.Doer.Quadruple.{ia_quadruple, Quad}
use ioarena.Doer.Turn.{again, crud_ops, step_or_leave}
use ioarena.Drivers.Lmdb.{value_bytes}
use ioarena.Drivers.Store.{Store, assign, unassign}
use ioarena.Drivers.Store.Crud.{assign-same, assign-other, unassign-same, unassign-other}
use ioarena.Drivers.Leveldb.{
  LevelEngine, LevelContext, ia_leveldb, ia_leveldb_begin, ia_leveldb_next, ia_leveldb_done,
  level_got, level_write, level_begin_batch,
}

-- An engine that holds a table, meets no errors, and writes a batch as its operations in order.
pub record IsTable {S B : Type 0} (e : LevelEngine S B) : Type 0 where
  pub contents : S → Store
  pub effect : B → Store → Store
  pub fresh : B
  pub creates : e.writebatch_create ≡ some fresh
  pub fresh_effect : (m : Store) → effect fresh m ≡ m
  pub put_effect :
      (k v : List ℕ) (b : B) (m : Store)
      → effect (e.writebatch_put k v b) m ≡ assign k v (effect b m)
  pub delete_effect :
      (k : List ℕ) (b : B) (m : Store)
      → effect (e.writebatch_delete k b) m ≡ unassign k (effect b m)
  pub writes :
      (b : B) (s : S)
      → ((e.write b s).0 ≡ true) × (contents (e.write b s).1 ≡ effect b (contents s))
  pub gets : (k : List ℕ) (s : S) → ((e.get k s).0 ≡ true) × (contents (e.get k s).3 ≡ contents s)

-- The table after the three writes.
table-first :
    (a b : IaKv) (m : Store)
    → a.k ≢ b.k
    → unassign b.k (assign a.k (value_bytes a.v) (assign b.k (value_bytes b.v) m)) a.k
      ≡ some (value_bytes a.v)
table-first a b m ne = unassign-other b.k a.k _ (λ e. ne (sym e)) ∙ assign-same a.k _ _

table-others :
    (a b : IaKv) (m : Store) (key : List ℕ)
    → a.k ≢ key
    → b.k ≢ key
    → unassign b.k (assign a.k (value_bytes a.v) (assign b.k (value_bytes b.v) m)) key ≡ m key
table-others a b m key na nb =
    unassign-other b.k key _ nb ∙ assign-other a.k _ key _ na ∙ assign-other b.k _ key _ nb

module _ {S B : Type 0} (e : LevelEngine S B) (l : IsTable e) where
  -- Within a batch `get` succeeds, whether or not the key is there.
  got_within :
      (b : B) (ok : Bool) (result : Option (List ℕ)) (kv : IaKv) (c : LevelContext S B)
      → ok ≡ true
      → ((level_got e (some b) ok result kv c).0 ≡ success)
        × ((level_got e (some b) ok result kv c).2 ≡ c)
  got_within b true none kv c ok = (refl, refl)
  got_within b true (some v) kv c ok = (refl, refl)
  got_within b false result kv c ok = absurd (ground arith)

  -- The batch after the three writes.
  abbrev written : (a b : IaKv) → B
  written a b =
      e.writebatch_delete b.k
        (e.writebatch_put a.k (value_bytes a.v) (e.writebatch_put b.k (value_bytes b.v) l.fresh))

  written-effect :
      (a b : IaKv) (m : Store)
      → l.effect (written a b) m
        ≡ unassign b.k (assign a.k (value_bytes a.v) (assign b.k (value_bytes b.v) m))
  written-effect a b m =
      l.delete_effect b.k _ m
      ∙ ap (unassign b.k) (
          l.put_effect a.k (value_bytes a.v) _ m
          ∙ ap (assign a.k (value_bytes a.v)) (
              l.put_effect b.k (value_bytes b.v) l.fresh m
              ∙ ap (assign b.k (value_bytes b.v)) (l.fresh_effect m)))

  begin_crud :
      (c : LevelContext S B)
      → ia_leveldb_begin e c Benchmark.ia_crud ≡ (success, record c { batch = some l.fresh })
  unfolding ia_leveldb_begin
  begin_crud c = ap (λ o. level_begin_batch e o c) l.creates

  quadruple_batch :
      (conf : Conf) (a b : IaKv) (d : Doer (LevelContext S B)) (c : LevelContext S B)
      → let q =
          ia_quadruple
            (ia_leveldb e)
            conf
            a
            b
            (record d { ctx = record c { batch = some l.fresh } }) in
        (q.rc ≡ success)
        × ((q.doer.ctx).batch ≡ some (written a b))
        × ((q.doer.ctx).engine ≡ (e.get a.k c.engine).3)
  unfolding ia_quadruple next ia_leveldb_next
  quadruple_batch conf a b d c =
      let g = e.get a.k c.engine in
      let in_batch : LevelContext S B = record {
        it = c.it;
        batch = some (written a b);
        result = g.1;
        engine = g.3;
      } in
      let (ok, same) =
        got_within (written a b) g.0 g.1 (record a { vsize = g.2 }) in_batch
          (l.gets a.k c.engine).0 in
      (
        ap (forgive conf) ok,
        ap (λ (x : LevelContext S B). x.batch) same,
        ap (λ (x : LevelContext S B). x.engine) same,
      )

  done_crud :
      (c : LevelContext S B) (o : Option B) (b : B)
      → o ≡ some b
      → let r = level_write e o c in
        (r.0 ≡ success)
        × (r.1.batch ≡ none)
        × (l.contents r.1.engine ≡ l.effect b (l.contents c.engine))
  done_crud c o b same =
      subst
        (λ x.
          let r = level_write e x c in
          (r.0 ≡ success)
          × (r.1.batch ≡ none)
          × (l.contents r.1.engine ≡ l.effect b (l.contents c.engine)))
        (sym same) (ground (arith, l.writes b c.engine))

  -- What follows the four operations of a round.
  closing :
      (i : ℕ) (b : B) (q : Quad (LevelContext S B))
      → q.rc ≡ success
      → (q.doer.ctx).batch ≡ some b
      → let ended =
          and_then q.rc (finish (ia_leveldb e) Benchmark.ia_crud q.doer) (λ rc. (rc, q.doer)) in
        (step_or_leave ended.0 i ≡ again success (i + 1))
        × ((ended.1.ctx).batch ≡ none)
        × (l.contents (ended.1.ctx).engine ≡ l.effect b (l.contents (q.doer.ctx).engine))
  unfolding finish ia_leveldb_done
  closing i b q ok batch =
      let done = done_crud q.doer.ctx (q.doer.ctx).batch b batch in
      subst
        (λ t.
          let ended : Rc × Doer (LevelContext S B) =
            and_then t (finish (ia_leveldb e) Benchmark.ia_crud q.doer) (λ rc. (rc, q.doer)) in
          (step_or_leave ended.0 i ≡ again success (i + 1))
          × ((ended.1.ctx).batch ≡ none)
          × (l.contents (ended.1.ctx).engine ≡ l.effect b (l.contents (q.doer.ctx).engine)))
        (sym ok) (ap (λ rc. step_or_leave rc i) done.0, done.1, done.2)

  -- For two pairs with different keys, over an engine without errors that writes a batch as its
  -- operations in order, a round of crud with src/drivers/ia_leveldb.c goes on with the next one and leaves no batch
  -- open: the table then holds the first key with its value, no value for the second, and every
  -- other key as before, whatever it held and whether or not missing keys are ignored.
  pub leveldb_crud-table :
      (conf : Conf) (g : Globals) (i : ℕ) (a b : IaKv) (d : Doer (LevelContext S B))
      → a.k ≢ b.k
      → let r = crud_ops (ia_leveldb e) conf g i a b d in
        let m = l.contents (r.1.ctx).engine in
        (r.0 ≡ again success (i + 1))
        × ((r.1.ctx).batch ≡ none)
        × (m a.k ≡ some (value_bytes a.v))
        × (m b.k ≡ none)
        × ((key : List ℕ) → a.k ≢ key → b.k ≢ key → m key ≡ l.contents (d.ctx).engine key)
  unfolding crud_ops begin
  leveldb_crud-table conf g i a b d ne =
      let start = note (Call.call_begin Benchmark.ia_crud) d in
      let quad =
        ia_quadruple (ia_leveldb e) conf a b
          (record start { ctx = record d.ctx { batch = some l.fresh } }) in
      let (ok, batch, engine) = quadruple_batch conf a b start d.ctx in
      let (goes, closed, held) = closing i (written a b) quad ok batch in
      let s = (d.ctx).engine in
      let m =
        unassign b.k (assign a.k (value_bytes a.v) (assign b.k (value_bytes b.v) (l.contents s))) in
      let table =
        held
        ∙ ap (λ t. l.effect (written a b) (l.contents t)) engine
        ∙ ap (l.effect (written a b)) (l.gets a.k s).1
        ∙ written-effect a b (l.contents s) in
      rw (begin_crud d.ctx) (
        goes,
        closed,
        ap (λ t. t a.k) table ∙ table-first a b (l.contents s) ne,
        ap (λ t. t b.k) table ∙ unassign-same b.k _,
        λ key na nb. ap (λ t. t key) table ∙ table-others a b (l.contents s) key na nb,
      )
