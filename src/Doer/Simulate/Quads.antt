-- ===== src/Doer/Simulate/Quads.antt =====
-- Rounds of crud and batch, of src/ia_benchmark.c, on two drivers that simulate one another.
use mathlib.Core.Path.{subst}
use ioarena.Base.{
  ℕ, zero, suc, ◌+◌, ◌*◌, ◌==◌, ◌≡◌, inl, inr, refl, sym, ap, ap₂, ◌∙◌, Bool, false, Bool-cases,
  Option, none, some, Option-cases, u64,
}
use ioarena.Bench.{Benchmark}
use ioarena.Kv.Gen.{IaKv, KvGen, kvgen_get}
use ioarena.Kv.Pool.{KvPool, kvpool_init, kvpool_pull}
use ioarena.Kv.Fill.{Globals}
use ioarena.Doer.Driver.{Rc, success, not_found, failure, Driver, Conf, Doer, begin, and_then}
use ioarena.Doer.Quadruple.{Quad}
use ioarena.Doer.Turn.{
  bailout, again, step_or_leave, quad_volume, minus_one, crud_ops, turn_crud, batch_loop,
  batch_close, batch_ops, batch_with_a, batch_with_b, turn_batch,
}
use ioarena.Doer.Simulate.{Simulation, Agree, BothRun, BothRun-same, BothRun-bind, and_then-agree}
use ioarena.Doer.Simulate.Parts.{begin-Agree, QuadAgree, quadruple-Agree}
use ioarena.Doer.Simulate.Turns.{
  IsAgain, Loose, TurnAgree, loosen_idle, loosen_open, note-Agree, moved, closing, again_ok,
}

module _ {C D : Type 0} {x : Driver C} {y : Driver D} (s : Simulation x y Benchmark.ia_crud)
    (conf : Conf) (g : Globals) where
  crud_ops-Agree :
      (i : ℕ) (k l k' l' : IaKv) (c : Doer C) (d : Doer D)
      → k ≡ k'
      → l ≡ l'
      → Agree s.Idle c d
      → TurnAgree s conf g (crud_ops x conf g i k l c) (crud_ops y conf g i k' l' d)
  unfolding crud_ops
  crud_ops-Agree i k l k' l' c d same_k same_l h =
      let (ok, ok', o) = begin-Agree s c d h in
      let quads =
        and_then-agree (QuadAgree s) (begin x Benchmark.ia_crud c).0 (begin y Benchmark.ia_crud d).0
          _ _ (λ rc. record { rc = rc; a = k; b = l; doer = (begin x Benchmark.ia_crud c).1 })
          (λ rc. record { rc = rc; a = k'; b = l'; doer = (begin y Benchmark.ia_crud d).1 })
          (ok ∙ sym ok') (λ fine. quadruple-Agree s conf k l k' l' _ _ tt same_k same_l o)
          (λ r failed. record { rc = refl; kv_a = same_k; kv_b = same_l; doers = o }) in
      let (rc, loose, idle) = closing s conf g _ _ quads in
      let volume = ap₂ quad_volume quads.kv_a quads.kv_b in
      (
        ap (λ r. step_or_leave r i) rc,
        note-Agree s conf g (Loose s conf g) _ _ _ _ volume loose,
        λ more. note-Agree s conf g s.Idle _ _ _ _ volume (idle (again_ok s conf g _ i more)),
      )

  pub turn_crud-Agree :
      (i : ℕ) (c : Doer C) (d : Doer D)
      → Agree s.Idle c d
      → BothRun (TurnAgree s conf g) (turn_crud x conf g i c) (turn_crud y conf g i d)
  unfolding turn_crud
  turn_crud-Agree i c d h =
      BothRun-bind ◌≡◌ (TurnAgree s conf g) _ _ _ _
        (BothRun-same _ _ (ap (λ n. kvgen_get g n false) h.gen_a))
        (λ ra ra' ea.
          BothRun-bind ◌≡◌ (TurnAgree s conf g) _ _ _ _
            (BothRun-same _ _ (ap (λ n. kvgen_get g n false) h.gen_b))
            (λ rb rb' eb.
              crud_ops-Agree i ra.0 rb.0 ra'.0 rb'.0 _ _ (ap (λ t. t.0) ea) (ap (λ t. t.0) eb) (
                moved s conf g s.Idle c d ra.1 ra'.1 rb.1 rb'.1 (ap (λ t. t.1) ea)
                  (ap (λ t. t.1) eb) h)))

module _ {C D : Type 0} {x : Driver C} {y : Driver D} (s : Simulation x y Benchmark.ia_batch)
    (conf : Conf) (g : Globals) where
  -- Both loops are left for the bailout, or both come to their end in the same round.
  abbrev LoopAgree : Option (ℕ × Quad C) × Quad C → Option (ℕ × Quad D) × Quad D → Type 0
  LoopAgree (none, p) (none, q) = QuadAgree s p q
  LoopAgree (some (i, p), _) (some (j, q), _) = (i ≡ j) × QuadAgree s p q
  LoopAgree (none, p) (some r, q) = ⊥
  LoopAgree (some r, p) (none, q) = ⊥

  batch_loop-Agree :
      (rounds i : ℕ) (pool_a pool_b : KvPool) (p : Quad C) (q : Quad D)
      → QuadAgree s p q
      → LoopAgree
          (batch_loop x conf g rounds i pool_a pool_b p)
          (batch_loop y conf g rounds i pool_a pool_b q)
  unfolding batch_loop
  batch_loop-Agree zero i pool_a pool_b p q h = (refl, h)
  batch_loop-Agree (suc rounds) i pool_a pool_b p q h = elim (Option-cases (kvpool_pull g pool_a)) [
    | inl e ↦ rw (e, batch_loop) h
    | inr (pa, ea) ↦ elim (Option-cases (kvpool_pull g pool_b)) [
      | inl e ↦ rw (ea, batch_loop) (rw e h)
      | inr (pb, eb) ↦
          let quads =
            quadruple-Agree s conf pa.0 pb.0 pa.0 pb.0 p.doer q.doer tt refl refl h.doers in
          rw (ea, batch_loop)
            (rw eb (
              and_then-agree LoopAgree _ _ _ _ _ _ quads.rc
                (λ ok. elim (Bool-cases (i + 1 == conf.count)) [
                  | inl full ↦ rw full (refl, quads)
                  | inr more ↦ rw more (batch_loop-Agree rounds (i + 1) pa.1 pb.1 _ _ quads)
                ])
                (λ r failed. (refl, quads))))
    ]
  ]

  batch_close-Agree :
      (r : Option (ℕ × Quad C) × Quad C) (t : Option (ℕ × Quad D) × Quad D)
      → LoopAgree r t
      → TurnAgree s conf g (batch_close x conf g r) (batch_close y conf g t)
  unfolding batch_close
  batch_close-Agree (none, p) (none, q) h =
      (ap bailout h.rc, loosen_open s conf g _ _ h.doers, λ more. elim more [ ])
  batch_close-Agree (some (i, p), _) (some (j, q), _) (same, h) =
      let (rc, loose, idle) = closing s conf g _ _ h in
      let volume = ap₂ (λ k l. u64 (quad_volume k l * conf.batch_length)) h.kv_a h.kv_b in
      (
        ap₂ (λ r n. and_then r (again success n) bailout) rc same,
        note-Agree s conf g (Loose s conf g) _ _ _ _ volume loose,
        λ more. note-Agree s conf g s.Idle _ _ _ _ volume (idle (again_closed _ i more)),
      )
    where
      again_closed :
          (rc : Rc) (i : ℕ) → IsAgain (and_then rc (again success i) bailout) → rc ≡ success
      again_closed success i more = refl
      again_closed not_found i more = elim more [ ]
      again_closed (failure code) i more = elim more [ ]
  batch_close-Agree (none, p) (some r, q) h = elim h [ ]
  batch_close-Agree (some r, p) (none, q) h = elim h [ ]

  batch_ops-Agree :
      (i : ℕ) (pool_a pool_b : KvPool) (c : Doer C) (d : Doer D)
      → Agree s.Idle c d
      → TurnAgree s conf g
          (batch_ops x conf g i pool_a pool_b c)
          (batch_ops y conf g i pool_a pool_b d)
  unfolding batch_ops
  batch_ops-Agree i pool_a pool_b c d h =
      let (ok, ok', o) = begin-Agree s c d h in
      batch_close-Agree _ _ (
        batch_loop-Agree conf.batch_length i pool_a pool_b _ _
          record { rc = ok ∙ sym ok'; kv_a = refl; kv_b = refl; doers = o })

  no_pool :
      (c : Doer C) (d : Doer D)
      → Agree s.Idle c d
      → TurnAgree s conf g (bailout minus_one, c) (bailout minus_one, d)
  no_pool c d h = (refl, loosen_idle s conf g c d h, λ more. elim more [ ])

  with_b-Agree :
      (i : ℕ) (a : KvPool × KvGen) (c : Doer C) (d : Doer D) (r : Option (KvPool × KvGen))
      → Agree s.Idle c d
      → BothRun (TurnAgree s conf g) (batch_with_b x conf g i a c r) (batch_with_b y conf g i a d r)
  unfolding batch_with_b
  with_b-Agree i a c d none h =
      no_pool _ _ (moved s conf g s.Idle c d a.1 a.1 c.gen_b d.gen_b refl h.gen_b h)
  with_b-Agree i a c d (some b) h =
      batch_ops-Agree i a.0 b.0 _ _ (moved s conf g s.Idle c d a.1 a.1 b.1 b.1 refl refl h)

  with_a-Agree :
      (allocated : Bool) (i : ℕ) (c : Doer C) (d : Doer D) (r : Option (KvPool × KvGen))
      → Agree s.Idle c d
      → BothRun
          (TurnAgree s conf g)
          (batch_with_a x conf g allocated i c r)
          (batch_with_a y conf g allocated i d r)
  unfolding batch_with_a
  with_a-Agree allocated i c d none h = no_pool c d h
  with_a-Agree allocated i c d (some a) h =
      BothRun-bind ◌≡◌ (TurnAgree s conf g) _ _ _ _
        (BothRun-same _ _ (ap (λ n. kvpool_init g allocated n conf.batch_length) h.gen_b))
        (λ r r' e.
          subst
            (λ t.
              BothRun (TurnAgree s conf g) (batch_with_b x conf g i a c r)
                (batch_with_b y conf g i a d t))
            e (with_b-Agree i a c d r h))

  pub turn_batch-Agree :
      (allocated : Bool) (i : ℕ) (c : Doer C) (d : Doer D)
      → Agree s.Idle c d
      → BothRun
          (TurnAgree s conf g)
          (turn_batch x conf g allocated i c)
          (turn_batch y conf g allocated i d)
  unfolding turn_batch
  turn_batch-Agree allocated i c d h =
      BothRun-bind ◌≡◌ (TurnAgree s conf g) _ _ _ _
        (BothRun-same _ _ (ap (λ n. kvpool_init g allocated n conf.batch_length) h.gen_a))
        (λ r r' e.
          subst
            (λ t.
              BothRun (TurnAgree s conf g) (batch_with_a x conf g allocated i c r)
                (batch_with_a y conf g allocated i d t))
            e (with_a-Agree allocated i c d r h))
