-- ===== src/Doer/Simulate/Parts.antt =====
-- The calls of the driver and `ia_quadruple`, of src/ia_benchmark.c, on two drivers that simulate one
-- another.
use mathlib.Core.Path.{subst}
use ioarena.Base.{◌≡◌, refl, ap, ◌∷◌}
use ioarena.Bench.{Benchmark}
use ioarena.Kv.Gen.{IaKv}
use ioarena.Doer.Driver.{Rc, success, Driver, Conf, Call, Doer, begin, next, finish, forgive}
use ioarena.Doer.Quadruple.{Quad, on_a, on_b, ia_quadruple}
use ioarena.Doer.Simulate.{Does, Simulation, Agree, and_then-agree}

-- The benchmarks that call `ia_quadruple`.
abbrev pub IsQuad : Benchmark → Type 0
IsQuad Benchmark.ia_crud = Unit
IsQuad Benchmark.ia_batch = Unit
IsQuad Benchmark.ia_set = ⊥
IsQuad Benchmark.ia_delete = ⊥
IsQuad Benchmark.ia_get = ⊥
IsQuad Benchmark.ia_iterate = ⊥

quad-Does :
    (b : Benchmark)
    → IsQuad b
    → Does b Benchmark.ia_set × Does b Benchmark.ia_delete × Does b Benchmark.ia_get
quad-Does Benchmark.ia_crud q = (tt, tt, tt)
quad-Does Benchmark.ia_batch q = (tt, tt, tt)
quad-Does Benchmark.ia_set q = elim q [ ]
quad-Does Benchmark.ia_delete q = elim q [ ]
quad-Does Benchmark.ia_get q = elim q [ ]
quad-Does Benchmark.ia_iterate q = elim q [ ]

module _ {C D : Type 0} {x : Driver C} {y : Driver D} {b : Benchmark} (s : Simulation x y b) where
  pub begin-Agree :
      (c : Doer C) (d : Doer D)
      → Agree s.Idle c d
      → ((begin x b c).0 ≡ success)
        × ((begin y b d).0 ≡ success)
        × Agree s.Open (begin x b c).1 (begin y b d).1
  unfolding begin
  begin-Agree c d g =
      let (ok, ok', o) = s.begins c.ctx d.ctx g.contexts in
      (
        ok,
        ok',
        record {
          contexts = o;
          gen_a = g.gen_a;
          gen_b = g.gen_b;
          calls = ap (λ t. Call.call_begin b ∷ t) g.calls;
        },
      )

  pub next-Agree :
      (c : Doer C) (d : Doer D) (op : Benchmark) (kv kv' : IaKv)
      → Does b op
      → kv ≡ kv'
      → Agree s.Open c d
      → ((next x op kv c).0 ≡ (next y op kv' d).0)
        × ((next x op kv c).1 ≡ (next y op kv' d).1)
        × Agree s.Open (next x op kv c).2 (next y op kv' d).2
  unfolding next
  next-Agree c d op kv kv' does same g =
      let (rc, out, o) = s.nexts c.ctx d.ctx op kv does g.contexts in
      subst
        (λ k.
          ((next x op kv c).0 ≡ (next y op k d).0)
          × ((next x op kv c).1 ≡ (next y op k d).1)
          × Agree s.Open (next x op kv c).2 (next y op k d).2)
        same
        (
          rc,
          out,
          record {
            contexts = o;
            gen_a = g.gen_a;
            gen_b = g.gen_b;
            calls = ap (λ t. Call.call_next op ∷ t) g.calls;
          },
        )

  pub finish-Agree :
      (c : Doer C) (d : Doer D)
      → Agree s.Open c d
      → ((finish x b c).0 ≡ (finish y b d).0) × Agree s.Idle (finish x b c).1 (finish y b d).1
  unfolding finish
  finish-Agree c d g =
      let (rc, o) = s.finishes c.ctx d.ctx g.contexts in
      (
        rc,
        record {
          contexts = o;
          gen_a = g.gen_a;
          gen_b = g.gen_b;
          calls = ap (λ t. Call.call_done b ∷ t) g.calls;
        },
      )

  -- What `ia_quadruple` returns of both.
  pub record QuadAgree (p : Quad C) (q : Quad D) : Type 0 where
    pub rc : p.rc ≡ q.rc
    pub kv_a : p.a ≡ q.a
    pub kv_b : p.b ≡ q.b
    pub doers : Agree s.Open p.doer q.doer

  on_b-Agree :
      (conf : Conf) (op : Benchmark) (judge : Rc → Rc) (p : Quad C) (q : Quad D)
      → Does b op
      → QuadAgree p q
      → QuadAgree (on_b x conf op judge p) (on_b y conf op judge q)
  on_b-Agree conf op judge p q does g =
      let (rc, kv, doers) = next-Agree p.doer q.doer op p.b q.b does g.kv_b g.doers in
      and_then-agree QuadAgree p.rc q.rc _ _ _ _ g.rc
        (λ ok. record { rc = ap judge rc; kv_a = g.kv_a; kv_b = kv; doers = doers })
        (λ r failed. record { rc = refl; kv_a = g.kv_a; kv_b = g.kv_b; doers = g.doers })

  on_a-Agree :
      (conf : Conf) (op : Benchmark) (judge : Rc → Rc) (p : Quad C) (q : Quad D)
      → Does b op
      → QuadAgree p q
      → QuadAgree (on_a x conf op judge p) (on_a y conf op judge q)
  on_a-Agree conf op judge p q does g =
      let (rc, kv, doers) = next-Agree p.doer q.doer op p.a q.a does g.kv_a g.doers in
      and_then-agree QuadAgree p.rc q.rc _ _ _ _ g.rc
        (λ ok. record { rc = ap judge rc; kv_a = kv; kv_b = g.kv_b; doers = doers })
        (λ r failed. record { rc = refl; kv_a = g.kv_a; kv_b = g.kv_b; doers = g.doers })

  pub quadruple-Agree :
      (conf : Conf) (k l k' l' : IaKv) (c : Doer C) (d : Doer D)
      → IsQuad b
      → k ≡ k'
      → l ≡ l'
      → Agree s.Open c d
      → QuadAgree (ia_quadruple x conf k l c) (ia_quadruple y conf k' l' d)
  unfolding ia_quadruple
  quadruple-Agree conf k l k' l' c d quad same_k same_l g =
      let (sets, deletes, gets) = quad-Does b quad in
      let p : Quad C = record { rc = success; a = k; b = l; doer = c } in
      let q : Quad D = record { rc = success; a = k'; b = l'; doer = d } in
      let start : QuadAgree p q = record { rc = refl; kv_a = same_k; kv_b = same_l; doers = g } in
      on_a-Agree conf Benchmark.ia_get (forgive conf) _ _ gets (
        on_b-Agree conf Benchmark.ia_delete (forgive conf) _ _ deletes (
          on_a-Agree conf Benchmark.ia_set (λ rc. rc) _ _ sets
            (on_b-Agree conf Benchmark.ia_set (λ rc. rc) p q sets start)))
