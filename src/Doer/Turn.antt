-- ===== src/Doer/Turn.antt =====
-- One round of the loop of `ia_run_benchmark` of src/ia_benchmark.c, for each kind of benchmark.
use ioarena.Base.{
  ℕ, zero, suc, ◌+◌, ◌*◌, ◌-◌, ◌^◌, ◌==◌, Bool, true, false, Option, none, some, [], not, u64,
}
use ioarena.Bench.{Benchmark}
use ioarena.Kv.Fill.{Globals, Run, done, running, ◌>>=◌}
use ioarena.Kv.Gen.{IaKv, KvGen, kvgen_get}
use ioarena.Kv.Pool.{KvPool, kvpool_init, kvpool_pull}
use ioarena.Doer.Driver.{
  Rc, success, not_found, failure, Driver, Conf, Call, Doer, note, begin, next, finish, forgive,
  and_then,
}
use ioarena.Doer.Quadruple.{Quad, ia_quadruple}

-- How a round ends: by `goto bailout`, or with `rc` and `i` at the loop's test.
pub data Turn : Type 0 where
  bailout : Rc → Turn
  again : Rc → (i : ℕ) → Turn

-- if (rc) goto bailout; ++i;
abbrev pub step_or_leave : Rc → (i : ℕ) → Turn
step_or_leave rc i = and_then rc (again success (i + 1)) bailout

abbrev pub is_set : Benchmark → Bool
is_set Benchmark.ia_set = true
is_set b = false

abbrev pub single_volume : Benchmark → IaKv → ℕ
single_volume Benchmark.ia_delete a = a.ksize
single_volume b a = u64 (a.ksize + a.vsize)

abbrev pub quad_volume : IaKv → IaKv → ℕ
quad_volume a b = u64 (a.ksize + a.vsize + b.ksize + b.vsize + a.ksize + b.ksize + b.vsize)

abbrev pub no_kv : IaKv
no_kv = record { ksize = 0; vsize = 0; k = []; v = none }

-- -1, of `ia_kvpool_init`
abbrev pub minus_one : Rc
minus_one = failure (2 ^ 32 - 1)

module _ {Ctx : Type 0} (driver : Driver Ctx) (conf : Conf) (g : Globals) where
  -- case IA_SET: case IA_DELETE: case IA_GET: once the pair is there
  unfoldable pub single_ops : Benchmark → (i : ℕ) → IaKv → Doer Ctx → Turn × Doer Ctx
  single_ops b i a d =
      let begun = begin driver b d in
      let nexted : Rc × IaKv × Doer Ctx =
        and_then begun.0 (next driver b a begun.1) (λ rc. (rc, a, begun.1)) in
      let ended = finish driver b nexted.2 in
      (
        step_or_leave (and_then (forgive conf nexted.0) ended.0 (λ rc. rc)) i,
        note (Call.call_add (single_volume b nexted.1)) ended.1,
      )

  unfoldable pub turn_single : Benchmark → (i : ℕ) → Doer Ctx → Run (Turn × Doer Ctx)
  turn_single b i d = kvgen_get g d.gen_a (not (is_set b)) >>= λ r.
      done (single_ops b i r.0 (record d { gen_a = r.1 }))

  -- case IA_CRUD: once the pairs are there
  unfoldable pub crud_ops : (i : ℕ) → (a b : IaKv) → Doer Ctx → Turn × Doer Ctx
  crud_ops i a b d =
      let begun = begin driver Benchmark.ia_crud d in
      let q : Quad Ctx =
        and_then begun.0 (ia_quadruple driver conf a b begun.1)
          (λ rc. record { rc = rc; a = a; b = b; doer = begun.1 }) in
      let ended : Rc × Doer Ctx =
        and_then q.rc (finish driver Benchmark.ia_crud q.doer) (λ rc. (rc, q.doer)) in
      (step_or_leave ended.0 i, note (Call.call_add (quad_volume q.a q.b)) ended.1)

  unfoldable pub turn_crud : (i : ℕ) → Doer Ctx → Run (Turn × Doer Ctx)
  turn_crud i d = kvgen_get g d.gen_a false >>= λ ra. kvgen_get g d.gen_b false >>= λ rb.
      done (crud_ops i ra.0 rb.0 (record d { gen_a = ra.1; gen_b = rb.1 }))

  -- for (j = 0; j < batch_length; ++j), with the rounds that are left; `none` is `goto bailout` out of
  -- it.
  unfoldable pub batch_loop :
      (rounds : ℕ) → (i : ℕ) → KvPool → KvPool → Quad Ctx → Option (ℕ × Quad Ctx) × Quad Ctx
  batch_loop zero i pool_a pool_b q = (some (i, q), q)
  batch_loop (suc rounds) i pool_a pool_b q = elim (kvpool_pull g pool_a) [
    | none ↦ (none, q)
    | some pa ↦ elim (kvpool_pull g pool_b) [
      | none ↦ (none, q)
      | some pb ↦
          let q' = ia_quadruple driver conf pa.0 pb.0 q.doer in
          and_then q'.rc
            (elim (i + 1 == conf.count) [
              | true ↦ (some (i + 1, q'), q')
              | false ↦ batch_loop rounds (i + 1) pa.1 pb.1 q'
            ])
            (λ rc. (some (i, q'), q'))
    ]
  ]

  -- What follows the loop.
  unfoldable pub batch_close : Option (ℕ × Quad Ctx) × Quad Ctx → Turn × Doer Ctx
  batch_close (none, q) = (bailout q.rc, q.doer)
  batch_close (some (i, q), _) =
      let ended : Rc × Doer Ctx =
        and_then q.rc (finish driver Benchmark.ia_batch q.doer) (λ rc. (rc, q.doer)) in
      (
        and_then ended.0 (again success i) bailout,
        note (Call.call_add (u64 (quad_volume q.a q.b * conf.batch_length))) ended.1,
      )

  -- case IA_BATCH: once the pools are there
  unfoldable pub batch_ops : (i : ℕ) → KvPool → KvPool → Doer Ctx → Turn × Doer Ctx
  batch_ops i pool_a pool_b d =
      let begun = begin driver Benchmark.ia_batch d in
      let start : Quad Ctx = record { rc = begun.0; a = no_kv; b = no_kv; doer = begun.1 } in
      batch_close (batch_loop conf.batch_length i pool_a pool_b start)

  -- Once the pool of `gen_b` has been asked for, and before it has: `none` is -1.
  unfoldable pub batch_with_b :
      (i : ℕ) → KvPool × KvGen → Doer Ctx → Option (KvPool × KvGen) → Run (Turn × Doer Ctx)
  batch_with_b i a d none = done (bailout minus_one, record d { gen_a = a.1 })
  batch_with_b i a d (some b) = done (batch_ops i a.0 b.0 (record d { gen_a = a.1; gen_b = b.1 }))

  unfoldable pub batch_with_a :
      (allocated : Bool) (i : ℕ) → Doer Ctx → Option (KvPool × KvGen) → Run (Turn × Doer Ctx)
  batch_with_a allocated i d none = done (bailout minus_one, d)
  batch_with_a allocated i d (some a) =
      kvpool_init g allocated d.gen_b conf.batch_length >>= batch_with_b i a d

  -- `allocated` tells whether the pools get their memory.
  unfoldable pub turn_batch : (allocated : Bool) (i : ℕ) → Doer Ctx → Run (Turn × Doer Ctx)
  turn_batch allocated i d =
      kvpool_init g allocated d.gen_a conf.batch_length >>= batch_with_a allocated i d

  -- while (rc == 0), with the rounds that are left: a round raises `i`, so `count - i` are enough.
  unfoldable pub iterate_loop : (fuel : ℕ) → Rc → (i : ℕ) → Doer Ctx → Run (Rc × ℕ × Doer Ctx)
  iterate_loop fuel not_found i d = done (not_found, i, d)
  iterate_loop fuel (failure code) i d = done (failure code, i, d)
  iterate_loop zero success i d = running
  iterate_loop (suc fuel) success i d =
      let r = next driver Benchmark.ia_iterate no_kv d in
      let d' = note (Call.call_add (single_volume Benchmark.ia_iterate r.1)) r.2 in
      elim (i + 1 == conf.count) [
        | true ↦ done (r.0, i + 1, d')
        | false ↦ iterate_loop fuel r.0 (i + 1) d'
      ]

  -- case IA_ITERATE:
  unfoldable pub turn_iterate : (i : ℕ) → Doer Ctx → Run (Turn × Doer Ctx)
  turn_iterate i d =
      let begun = begin driver Benchmark.ia_iterate d in
      iterate_loop (conf.count - i) begun.0 i begun.1 >>= λ r.
      let rc : Rc = elim r.0 [
        | success ↦ success
        | not_found ↦ success
        | failure code ↦ failure code
      ] in
      let ended : Rc × Doer Ctx =
        and_then rc (finish driver Benchmark.ia_iterate r.2) (λ rc. (rc, r.2)) in
      done (again ended.0 r.1, ended.1)
