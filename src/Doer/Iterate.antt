-- ===== src/Doer/Iterate.antt =====
-- The loop of iterate of src/ia_benchmark.c, over a driver with a cursor.
use ioarena.Base.{
  ℕ, zero, suc, ◌+◌, ◌≤◌, ◌<◌, ◌≡◌, refl, sym, ap, inl, inr, arith, true, false, Bool-cases, ◌==◌,
}
use mathlib.Core.Path.{subst}
use ioarena.Bench.{Benchmark}
use ioarena.Kv.Fill.{Globals, Run, done}
use ioarena.Doer.Driver.{Rc, success, not_found, Conf, Driver, Doer, note, Call, next}
use ioarena.Doer.Turn.{iterate_loop, no_kv, single_volume}

-- How many pairs a cursor still has before it: each `next` takes one, and says so when there is none.
pub record HasCursor {Ctx : Type 0} (driver : Driver Ctx) : Type 0 where
  pub left : Ctx → ℕ
  pub moves :
      (c : Ctx) (n : ℕ)
      → left c ≡ suc n
      → ((driver.next c Benchmark.ia_iterate no_kv).0 ≡ success)
        × (left (driver.next c Benchmark.ia_iterate no_kv).2 ≡ n)
  pub ends : (c : Ctx) → left c ≡ 0 → (driver.next c Benchmark.ia_iterate no_kv).0 ≡ not_found

module _ {Ctx : Type 0} (driver : Driver Ctx) (h : HasCursor driver) (conf : Conf)
    (g : Globals) where
  -- What the loop comes to from i on, with `left` pairs to go.
  abbrev pub Visited : (left i : ℕ) → Run (Rc × ℕ × Doer Ctx) → Type 0
  Visited left i r =
      (rc : Rc) × (i' : ℕ) × (d : Doer Ctx) × (r ≡ done (rc, i', d))
      × (i + left < conf.count → (rc ≡ not_found) × (i' ≡ i + left + 1))
      × (conf.count ≤ i + left → (rc ≡ success) × (i' ≡ conf.count))

  ended-Visited :
      (fuel i left : ℕ) (rc : Rc) (d : Doer Ctx)
      → rc ≡ not_found
      → left ≡ 0
      → i + 1 < conf.count
      → Visited left i (iterate_loop driver conf g fuel rc (i + 1) d)
  unfolding iterate_loop
  ended-Visited fuel i left rc d over none_left more = (
    not_found,
    i + 1,
    d,
    ap (λ x. iterate_loop driver conf g fuel x (i + 1) d) over,
    λ lt. (refl, omega (arith, none_left)),
    λ le. absurd (omega (arith, le, none_left, more)),
  )

  -- One call, at the loop's `next`.
  abbrev taken : Doer Ctx → Rc × Doer Ctx
  taken d =
      let r = next driver Benchmark.ia_iterate no_kv d in
      (r.0, note (Call.call_add (single_volume Benchmark.ia_iterate r.1)) r.2)

  taken-moves :
      (d : Doer Ctx) (n : ℕ)
      → h.left d.ctx ≡ suc n
      → ((taken d).0 ≡ success) × (h.left (taken d).1.ctx ≡ n)
  unfolding next
  taken-moves d n some_left = h.moves d.ctx n some_left

  taken-ends : (d : Doer Ctx) → h.left d.ctx ≡ 0 → (taken d).0 ≡ not_found
  unfolding next
  taken-ends d none_left = h.ends d.ctx none_left

  last_call : (i count : ℕ) → (i + 1 == count) ≡ true → i + 1 ≡ count
  last_call i count e = ground arith

  more_calls : (i count : ℕ) → (i + 1 == count) ≡ false → i < count → i + 1 < count
  more_calls i count e lt = ground arith

  earlier-Visited :
      (n i : ℕ) (r : Run (Rc × ℕ × Doer Ctx)) → Visited n (i + 1) r → Visited (suc n) i r
  earlier-Visited n i r (rc, i', d, same, short, long) = (
    rc,
    i',
    d,
    same,
    λ lt. (let q = short (omega (arith, lt)) in (q.0, omega (arith, q.1))),
    λ le. long (omega (arith, le)),
  )

  last_round :
      (fuel i : ℕ) (d : Doer Ctx)
      → h.left d.ctx ≡ 0
      → i + suc fuel ≡ conf.count
      → Visited 0 i (iterate_loop driver conf g (suc fuel) success i d)
  unfolding iterate_loop
  last_round fuel i d has rounds = elim (Bool-cases (i + 1 == conf.count)) [
    | inl last ↦
        rw (last, iterate_loop)
          (
            (taken d).0,
            i + 1,
            (taken d).1,
            refl,
            λ lt. (taken-ends d has, omega arith),
            λ le. absurd (omega (arith, le, rounds)),
          )
    | inr more ↦
        rw (more, iterate_loop)
          (ended-Visited fuel i 0 (taken d).0 (taken d).1 (taken-ends d has) refl
            (more_calls i conf.count more (omega (arith, rounds))))
  ]

  one_round :
      (fuel i n : ℕ) (d : Doer Ctx)
      → h.left d.ctx ≡ suc n
      → i + suc fuel ≡ conf.count
      → (i + 1 < conf.count
          → h.left (taken d).1.ctx ≡ n
          → Visited n (i + 1) (iterate_loop driver conf g fuel success (i + 1) (taken d).1))
      → Visited (suc n) i (iterate_loop driver conf g (suc fuel) success i d)
  unfolding iterate_loop
  one_round fuel i n d has rounds rest =
      let (moved, then_left) = taken-moves d n has in
      elim (Bool-cases (i + 1 == conf.count)) [
        | inl last ↦
            let at_end = last_call i conf.count last in
            rw (last, iterate_loop)
              (
                (taken d).0,
                i + 1,
                (taken d).1,
                refl,
                λ lt. absurd (omega (arith, lt, at_end)),
                λ le. (moved, at_end),
              )
        | inr more ↦
            rw (more, iterate_loop)
              (subst
                (λ rc. Visited (suc n) i (iterate_loop driver conf g fuel rc (i + 1) (taken d).1))
                (sym moved)
                (earlier-Visited n i _
                  (rest (more_calls i conf.count more (omega (arith, rounds))) then_left)))
      ]

  -- Over a driver whose cursor has `left` pairs to go, the loop of iterate, from below `count` operations
  -- on and with as many rounds as are left, returns: where the pairs end first, each has been taken
  -- once and one more call has answered ENOENT, and where the count is reached first, it has stopped
  -- there with the code 0.
  pub iterate_loop-visits :
      (fuel i left : ℕ) (d : Doer Ctx)
      → h.left d.ctx ≡ left
      → i + suc fuel ≡ conf.count
      → (rc : Rc) × (i' : ℕ) × (d' : Doer Ctx) × (iterate_loop driver conf g (suc fuel) success i d
          ≡ done (rc, i', d'))
        × (i + left < conf.count → (rc ≡ not_found) × (i' ≡ i + left + 1))
        × (conf.count ≤ i + left → (rc ≡ success) × (i' ≡ conf.count))
  iterate_loop-visits fuel i zero d has rounds = last_round fuel i d has rounds
  iterate_loop-visits zero i (suc n) d has rounds =
      one_round zero i n d has rounds (λ more then_left. absurd (omega (arith, more, rounds)))
  iterate_loop-visits (suc fuel) i (suc n) d has rounds =
      one_round (suc fuel) i n d has rounds (λ more then_left.
        iterate_loop-visits fuel (i + 1) n (taken d).1 then_left (omega (arith, rounds)))
