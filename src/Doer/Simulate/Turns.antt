-- ===== src/Doer/Simulate/Turns.antt =====
-- A round of each kind of benchmark of src/ia_benchmark.c, on two drivers that simulate one another.
use ioarena.Base.{ℕ, ◌≡◌, ◌⊎◌, inl, inr, refl, sym, ap, ap₂, ◌∙◌, not, ◌∷◌}
use ioarena.Bench.{Benchmark}
use ioarena.Kv.Gen.{IaKv, KvGen, kvgen_get}
use ioarena.Kv.Fill.{Globals}
use ioarena.Doer.Driver.{
  Rc, success, not_found, failure, Driver, Conf, Call, Doer, note, begin, next, finish, forgive,
  and_then,
}
use ioarena.Doer.Quadruple.{Quad}
use ioarena.Doer.Turn.{
  Turn, bailout, again, is_set, step_or_leave, single_volume, single_ops, turn_single,
}
use ioarena.Doer.Simulate.{
  Does, Simulation, Agree, BothRun, BothRun-same, BothRun-bind, and_then-agree,
}
use ioarena.Doer.Simulate.Parts.{begin-Agree, next-Agree, finish-Agree, QuadAgree}

abbrev pub IsAgain : Turn → Type 0
IsAgain (bailout rc) = ⊥
IsAgain (again rc i) = Unit

module _ {C D : Type 0} {x : Driver C} {y : Driver D} {b : Benchmark} (s : Simulation x y b)
    (conf : Conf) (g : Globals) where
  -- Contexts after a round, which may have been left with a transaction open.
  abbrev pub Loose : C → D → Type 0
  Loose c d = s.Idle c d ⊎ s.Open c d

  abbrev pub TurnAgree : Turn × Doer C → Turn × Doer D → Type 0
  TurnAgree p q = (p.0 ≡ q.0) × Agree Loose p.1 q.1 × (IsAgain p.0 → Agree s.Idle p.1 q.1)

  pub loosen_idle : (c : Doer C) (d : Doer D) → Agree s.Idle c d → Agree Loose c d
  loosen_idle c d h = record {
    contexts = inl h.contexts;
    gen_a = h.gen_a;
    gen_b = h.gen_b;
    calls = h.calls;
  }

  pub loosen_open : (c : Doer C) (d : Doer D) → Agree s.Open c d → Agree Loose c d
  loosen_open c d h = record {
    contexts = inr h.contexts;
    gen_a = h.gen_a;
    gen_b = h.gen_b;
    calls = h.calls;
  }

  pub note-Agree :
      (P : C → D → Type 0) (v v' : ℕ) (c : Doer C) (d : Doer D)
      → v ≡ v'
      → Agree P c d
      → Agree P (note (Call.call_add v) c) (note (Call.call_add v') d)
  note-Agree P v v' c d e h = record {
    contexts = h.contexts;
    gen_a = h.gen_a;
    gen_b = h.gen_b;
    calls = ap₂ (λ v cs. Call.call_add v ∷ cs) e h.calls;
  }

  single_ops-Agree :
      (i : ℕ) (kv kv' : IaKv) (c : Doer C) (d : Doer D)
      → Does b b
      → kv ≡ kv'
      → Agree s.Idle c d
      → TurnAgree (single_ops x conf g b i kv c) (single_ops y conf g b i kv' d)
  unfolding single_ops
  single_ops-Agree i kv kv' c d does same h =
      let (ok, ok', o) = begin-Agree s c d h in
      let nexts =
        and_then-agree
          (λ (p : Rc × IaKv × Doer C) (q : Rc × IaKv × Doer D).
            (p.0 ≡ q.0) × (p.1 ≡ q.1) × Agree s.Open p.2 q.2)
          (begin x b c).0 (begin y b d).0 (next x b kv (begin x b c).1)
          (next y b kv' (begin y b d).1) (λ rc. (rc, kv, (begin x b c).1))
          (λ rc. (rc, kv', (begin y b d).1)) (ok ∙ sym ok')
          (λ fine. next-Agree s _ _ b kv kv' does same o) (λ r failed. (refl, same, o)) in
      let (rc2, idle) = finish-Agree s _ _ nexts.2 in
      let noted = note-Agree s.Idle _ _ _ _ (ap (single_volume b) nexts.1) idle in
      (
        ap₂ (λ r t. step_or_leave (and_then (forgive conf r) t (λ rc. rc)) i) nexts.0 rc2,
        loosen_idle _ _ noted,
        λ more. noted,
      )

  -- Both doers get the same from their generators, and go on with the same.
  pub moved :
      (P : C → D → Type 0) (c : Doer C) (d : Doer D) (ga ga' gb gb' : KvGen)
      → ga ≡ ga'
      → gb ≡ gb'
      → Agree P c d
      → Agree P (record c { gen_a = ga; gen_b = gb }) (record d { gen_a = ga'; gen_b = gb' })
  moved P c d ga ga' gb gb' ea eb h = record {
    contexts = h.contexts;
    gen_a = ea;
    gen_b = eb;
    calls = h.calls;
  }

  pub turn_single-Agree :
      (i : ℕ) (c : Doer C) (d : Doer D)
      → Does b b
      → Agree s.Idle c d
      → BothRun TurnAgree (turn_single x conf g b i c) (turn_single y conf g b i d)
  unfolding turn_single
  turn_single-Agree i c d does h =
      BothRun-bind ◌≡◌ TurnAgree _ _ _ _
        (BothRun-same _ _ (ap (λ n. kvgen_get g n (not (is_set b))) h.gen_a))
        (λ r r' e.
          single_ops-Agree i r.0 r'.0 _ _ does (ap (λ t. t.0) e)
            (moved s.Idle c d r.1 r'.1 c.gen_b d.gen_b (ap (λ t. t.1) e) h.gen_b h))

  -- What is done unless the operations have failed.
  pub closing :
      (p : Quad C) (q : Quad D)
      → QuadAgree s p q
      → ((and_then p.rc (finish x b p.doer) (λ rc. (rc, p.doer))).0
          ≡ (and_then q.rc (finish y b q.doer) (λ rc. (rc, q.doer))).0)
        × Agree Loose
            (and_then p.rc (finish x b p.doer) (λ rc. (rc, p.doer))).1
            (and_then q.rc (finish y b q.doer) (λ rc. (rc, q.doer))).1
        × ((and_then p.rc (finish x b p.doer) (λ rc. (rc, p.doer))).0 ≡ success
            → Agree s.Idle
                (and_then p.rc (finish x b p.doer) (λ rc. (rc, p.doer))).1
                (and_then q.rc (finish y b q.doer) (λ rc. (rc, q.doer))).1)
  closing p q h =
      let (rc, idle) = finish-Agree s p.doer q.doer h.doers in
      and_then-agree
        (λ (t : Rc × Doer C) (u : Rc × Doer D).
          (t.0 ≡ u.0) × Agree Loose t.1 u.1 × (t.0 ≡ success → Agree s.Idle t.1 u.1))
        p.rc q.rc _ _ _ _ h.rc (λ ok. (rc, loosen_idle _ _ idle, λ fine. idle))
        (λ r failed. (refl, loosen_open _ _ h.doers, λ fine. absurd (failed fine)))

  pub again_ok : (rc : Rc) (i : ℕ) → IsAgain (step_or_leave rc i) → rc ≡ success
  again_ok success i more = refl
  again_ok not_found i more = elim more [ ]
  again_ok (failure code) i more = elim more [ ]
