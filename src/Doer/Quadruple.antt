-- ===== src/Doer/Quadruple.antt =====
-- `ia_quadruple` of src/ia_benchmark.c: set b, set a, delete b, get a, up to the first error.
use ioarena.Bench.{Benchmark}
use ioarena.Kv.Gen.{IaKv}
use ioarena.Doer.Driver.{Rc, success, Driver, Conf, Doer, next, forgive, and_then}

-- The result code, and a, b and the doer as they are left.
pub record Quad (Ctx : Type 0) : Type 0 where
  pub rc : Rc
  pub a : IaKv
  pub b : IaKv
  pub doer : Doer Ctx

module _ {Ctx : Type 0} (driver : Driver Ctx) (conf : Conf) where
  -- One call on b, unless the code so far is an error, and one on a.
  abbrev pub on_b : Benchmark → (Rc → Rc) → Quad Ctx → Quad Ctx
  on_b op judge q =
      and_then q.rc
        (let r = next driver op q.b q.doer in record q { rc = judge r.0; b = r.1; doer = r.2 })
        (λ rc. record q { rc = rc })

  abbrev pub on_a : Benchmark → (Rc → Rc) → Quad Ctx → Quad Ctx
  on_a op judge q =
      and_then q.rc
        (let r = next driver op q.a q.doer in record q { rc = judge r.0; a = r.1; doer = r.2 })
        (λ rc. record q { rc = rc })

  unfoldable pub ia_quadruple : IaKv → IaKv → Doer Ctx → Quad Ctx
  ia_quadruple a b d =
      let start : Quad Ctx = record { rc = success; a = a; b = b; doer = d } in
      on_a Benchmark.ia_get (forgive conf) (
        on_b Benchmark.ia_delete (forgive conf)
          (on_a Benchmark.ia_set (λ rc. rc) (on_b Benchmark.ia_set (λ rc. rc) start)))
