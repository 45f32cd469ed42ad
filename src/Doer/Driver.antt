-- ===== src/Doer/Driver.antt =====
-- `struct iadriver` of src/ia_driver.h, as far as a benchmark calls it, and what a doer keeps while
-- it runs one.
use ioarena.Base.{ℕ, Bool, true, false, List, ◌∷◌}
use ioarena.Bench.{Benchmark}
use ioarena.Kv.Gen.{IaKv, KvGen}

-- An `int rc`: 0, ENOENT, or another code, as a 32-bit word.
pub data Rc : Type 0 where
  success not_found : Rc
  failure : ℕ → Rc

-- The driver's functions on a context: each returns the new context, and `next` also the pair, which
-- it may have filled in.
pub record Driver (Ctx : Type 0) : Type 0 where
  pub begin : Ctx → Benchmark → Rc × Ctx
  pub next : Ctx → Benchmark → IaKv → Rc × IaKv × Ctx
  pub finish : Ctx → Benchmark → Rc × Ctx

-- The settings of `iaconfig` that a benchmark reads.
pub record Conf : Type 0 where
  pub count : ℕ
  pub batch_length : ℕ
  pub ignore_keynotfound : Bool

-- The calls that a doer makes of the driver and of the histogram.
pub data Call : Type 0 where
  call_reset call_begin call_next call_done : Benchmark → Call
  call_add : (volume : ℕ) → Call
  call_merge : Call

-- `struct iadoer` but for its histogram, with the calls made so far, the last one first.
pub record Doer (Ctx : Type 0) : Type 0 where
  pub ctx : Ctx
  pub gen_a : KvGen
  pub gen_b : KvGen
  pub calls : List Call

module _ {Ctx : Type 0} where
  abbrev pub note : Call → Doer Ctx → Doer Ctx
  note c d = record d { calls = c ∷ d.calls }

  module _ (driver : Driver Ctx) where
    -- ioarena.driver->begin(doer->ctx, bench)
    unfoldable pub begin : Benchmark → Doer Ctx → Rc × Doer Ctx
    begin b d =
        let r = driver.begin d.ctx b in (r.0, note (Call.call_begin b) (record d { ctx = r.1 }))

    -- ioarena.driver->next(doer->ctx, bench, kv)
    unfoldable pub next : Benchmark → IaKv → Doer Ctx → Rc × IaKv × Doer Ctx
    next b kv d =
        let r = driver.next d.ctx b kv in
        (r.0, r.1, note (Call.call_next b) (record d { ctx = r.2 }))

    -- ioarena.driver->done(doer->ctx, bench)
    unfoldable pub finish : Benchmark → Doer Ctx → Rc × Doer Ctx
    finish b d =
        let r = driver.finish d.ctx b in (r.0, note (Call.call_done b) (record d { ctx = r.1 }))

-- if (rc == ENOENT) ... if (ioarena.conf.ignore_keynotfound) rc = 0
abbrev pub forgive : Conf → Rc → Rc
forgive conf success = success
forgive conf not_found = elim conf.ignore_keynotfound [ true ↦ success | false ↦ not_found ]
forgive conf (failure code) = failure code

-- `if (!rc) rc = ...`
abbrev pub and_then {ℓ} : {A : Type ℓ} → Rc → A → (Rc → A) → A
and_then success ok other = ok
and_then not_found ok other = other not_found
and_then (failure code) ok other = other (failure code)
