-- ===== src/Drivers/Missing.antt =====
-- What the drivers of src/drivers make of a key that is not there.
use ioarena.Base.{ℕ, ◌+◌, ◌≡◌, refl, sym, ap, ◌∙◌, List}
use mathlib.Core.Path.{subst}
use ioarena.Bench.{Benchmark}
use ioarena.Kv.Gen.{IaKv}
use ioarena.Kv.Fill.{Globals}
use ioarena.Doer.Driver.{Rc, success, Conf, Driver, Doer, begin, next, finish, forgive, and_then}
use ioarena.Doer.Turn.{bailout, again, minus_one, step_or_leave, single_ops}
use ioarena.Drivers.Wiredtiger.{
  WtEngine, WtPrivate, WtContext, wt_notfound, wt_rc, ia_wt, ia_wiredtiger_begin,
  ia_wiredtiger_next,
}
use ioarena.Drivers.Vedisdb.{
  VedisEngine, ved_notfound, ved_delete_rc, ia_vedisdb, ia_vedisdb_begin, ia_vedisdb_next,
}
use ioarena.Drivers.Sophia.{
  SophiaEngine, SophiaContext, sp_null, SpGot, the_database, sophia_got, destroy_if, ia_sophia,
  ia_sophia_begin, ia_sophia_next, ia_sophia_done,
}
use ioarena.Drivers.Upscaledb.{
  UpsEngine, UpsContext, Ups, ups_key_not_found, ups_found, ia_upscaledb, ia_upscaledb_begin,
  ia_upscaledb_next, ia_upscaledb_done,
}

begun_well : {A : Type 0} (rc : Rc) (a : A) (f : Rc → A) → rc ≡ success → and_then rc a f ≡ a
begun_well rc a f ok = rw ok refl

module _ (conf : Conf) (g : Globals) (i : ℕ) (a : IaKv) where
  -- A delete that the driver answers with -1 ends the loop, whatever `done` returns.
  delete_failed :
      {Ctx : Type 0} (driver : Driver Ctx) (d : Doer Ctx)
      → (driver.begin d.ctx Benchmark.ia_delete).0 ≡ success
      → (driver.next (driver.begin d.ctx Benchmark.ia_delete).1 Benchmark.ia_delete a).0 ≡ minus_one
      → (single_ops driver conf g Benchmark.ia_delete i a d).0 ≡ bailout minus_one
  unfolding single_ops begin next finish
  delete_failed {Ctx} driver d begun fails =
      leaves _ _ (ap (λ (x : Rc × IaKv × Doer Ctx). x.0) (begun_well _ _ _ begun) ∙ fails)
    where
      leaves :
          (rc ended : Rc)
          → rc ≡ minus_one
          → step_or_leave (and_then (forgive conf rc) ended (λ code. code)) i ≡ bailout minus_one
      leaves rc ended h = rw h refl

  -- A get that the driver answers with 0 counts as one that has found its key.
  get_counted :
      {Ctx : Type 0} (driver : Driver Ctx) (d : Doer Ctx)
      → (driver.begin d.ctx Benchmark.ia_get).0 ≡ success
      → (driver.next (driver.begin d.ctx Benchmark.ia_get).1 Benchmark.ia_get a).0 ≡ success
      → ((c : Ctx) → (driver.finish c Benchmark.ia_get).0 ≡ success)
      → (single_ops driver conf g Benchmark.ia_get i a d).0 ≡ again success (i + 1)
  unfolding single_ops begin next finish
  get_counted {Ctx} driver d begun found done =
      goes _ _ (ap (λ (x : Rc × IaKv × Doer Ctx). x.0) (begun_well _ _ _ begun) ∙ found) (done _)
    where
      goes :
          (rc ended : Rc)
          → rc ≡ success
          → ended ≡ success
          → step_or_leave (and_then (forgive conf rc) ended (λ code. code)) i
            ≡ again success (i + 1)
      goes rc ended h h' = rw (h, h') refl

  module _ {W V P U : Type 0} (wt : WtEngine W) (vedis : VedisEngine V) (sophia : SophiaEngine P)
      (ups : UpsEngine U) where
    wt_delete :
        (self : WtPrivate) (d : Doer (WtContext W))
        → (wt.remove a.k (d.ctx).engine).0 ≡ wt_notfound
        → (single_ops (ia_wt wt self) conf g Benchmark.ia_delete i a d).0 ≡ bailout minus_one
    unfolding ia_wiredtiger_begin ia_wiredtiger_next
    wt_delete self d missing = delete_failed (ia_wt wt self) d refl (ap wt_rc missing)

    vedis_delete :
        (d : Doer V)
        → (vedis.kv_delete a.k d.ctx).0 ≡ ved_notfound
        → (single_ops (ia_vedisdb vedis) conf g Benchmark.ia_delete i a d).0 ≡ bailout minus_one
    unfolding ia_vedisdb_begin ia_vedisdb_next
    vedis_delete d missing = delete_failed (ia_vedisdb vedis) d refl (ap ved_delete_rc missing)

    sophia_get :
        (d : Doer (SophiaContext P))
        → (sophia.get a.k (
            sophia.document
              (destroy_if sophia (d.ctx).entry sophia.destroy_object (d.ctx).engine))).0
          ≡ sp_null
        → (single_ops (ia_sophia sophia) conf g Benchmark.ia_get i a d).0 ≡ again success (i + 1)
    unfolding ia_sophia_begin ia_sophia_next ia_sophia_done
    sophia_get d missing =
        get_counted (ia_sophia sophia) d refl (not_reported _ _ missing) (λ c. refl)
      where
        not_reported :
            (got : SpGot) (s : P)
            → got ≡ sp_null
            → (sophia_got sophia a (record d.ctx { txn = the_database }) (got, s)).0 ≡ success
        not_reported got s h =
            subst
              (λ x. (sophia_got sophia a (record d.ctx { txn = the_database }) (x, s)).0 ≡ success)
              (sym h) refl

    ups_get :
        (d : Doer (UpsContext U))
        → (ups.db_find a.k (d.ctx).engine).0 ≡ ups_key_not_found
        → (single_ops (ia_upscaledb ups) conf g Benchmark.ia_get i a d).0 ≡ again success (i + 1)
    unfolding ia_upscaledb_begin ia_upscaledb_next ia_upscaledb_done
    ups_get d missing =
        get_counted (ia_upscaledb ups) d refl (not_reported _ _ _ missing) (λ c. refl)
      where
        not_reported :
            (st : Ups) (v : List ℕ) (s : U)
            → st ≡ ups_key_not_found
            → (ups_found ups a d.ctx (st, v, s)).0 ≡ success
        not_reported st v s h =
            subst (λ x. (ups_found ups a d.ctx (x, v, s)).0 ≡ success) (sym h) refl

    -- Where the engine finds no key, the drivers differ: a delete benchmark ends with -1 on
    -- src/drivers/ia_wiredtiger.c and src/drivers/ia_vedisdb.c, also where missing keys are to be
    -- ignored, and a get benchmark goes on without an error on src/drivers/ia_sophia.c and
    -- src/drivers/ia_upscaledb.c, also where they are not.
    pub missing_key-results :
        (self : WtPrivate) (dw : Doer (WtContext W)) (dv : Doer V) (ds : Doer (SophiaContext P))
        (du : Doer (UpsContext U))
        → (wt.remove a.k (dw.ctx).engine).0 ≡ wt_notfound
        → (vedis.kv_delete a.k dv.ctx).0 ≡ ved_notfound
        → (sophia.get a.k (
            sophia.document
              (destroy_if sophia (ds.ctx).entry sophia.destroy_object (ds.ctx).engine))).0
          ≡ sp_null
        → (ups.db_find a.k (du.ctx).engine).0 ≡ ups_key_not_found
        → ((single_ops (ia_wt wt self) conf g Benchmark.ia_delete i a dw).0 ≡ bailout minus_one)
          × ((single_ops (ia_vedisdb vedis) conf g Benchmark.ia_delete i a dv).0
              ≡ bailout minus_one)
          × ((single_ops (ia_sophia sophia) conf g Benchmark.ia_get i a ds).0
              ≡ again success (i + 1))
          × ((single_ops (ia_upscaledb ups) conf g Benchmark.ia_get i a du).0
              ≡ again success (i + 1))
    missing_key-results self dw dv ds du hw hv hs hu =
        (wt_delete self dw hw, vedis_delete dv hv, sophia_get ds hs, ups_get du hu)
