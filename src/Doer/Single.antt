-- ===== src/Doer/Single.antt =====
-- A round of a benchmark of one operation, of src/ia_benchmark.c, and the calls that it makes.
use ioarena.Base.{ℕ, suc, ◌+◌, ◌≡◌, ◌≢◌, ◌⊎◌, inl, inr, refl, ◌∙◌, not, List, [], ◌∷◌, arith}
use ioarena.Bench.{Benchmark}
use ioarena.Kv.Fill.{Globals, done}
use ioarena.Kv.Gen.{IaKv, advance}
use ioarena.Kv.Pool.Serve.{IsServable, kvgen_get_returns}
use ioarena.Doer.Driver.{
  Rc, success, not_found, failure, Driver, Conf, Call, Doer, begin, next, finish, and_then,
}
use ioarena.Doer.Turn.{Turn, bailout, again, is_set, step_or_leave, single_ops, turn_single}

-- How often a driver's `begin` and `done` and `ia_histogram_add` were called.
abbrev pub begins : List Call → ℕ
begins [] = 0
begins (Call.call_begin b ∷ cs) = suc (begins cs)
begins (Call.call_reset b ∷ cs) = begins cs
begins (Call.call_next b ∷ cs) = begins cs
begins (Call.call_done b ∷ cs) = begins cs
begins (Call.call_add v ∷ cs) = begins cs
begins (Call.call_merge ∷ cs) = begins cs

abbrev pub dones : List Call → ℕ
dones [] = 0
dones (Call.call_begin b ∷ cs) = dones cs
dones (Call.call_reset b ∷ cs) = dones cs
dones (Call.call_next b ∷ cs) = dones cs
dones (Call.call_done b ∷ cs) = suc (dones cs)
dones (Call.call_add v ∷ cs) = dones cs
dones (Call.call_merge ∷ cs) = dones cs

abbrev pub adds : List Call → ℕ
adds [] = 0
adds (Call.call_begin b ∷ cs) = adds cs
adds (Call.call_reset b ∷ cs) = adds cs
adds (Call.call_next b ∷ cs) = adds cs
adds (Call.call_done b ∷ cs) = adds cs
adds (Call.call_add v ∷ cs) = suc (adds cs)
adds (Call.call_merge ∷ cs) = adds cs

-- The benchmarks of one operation.
abbrev pub IsSingle : Benchmark → Type 0
IsSingle Benchmark.ia_set = Unit
IsSingle Benchmark.ia_delete = Unit
IsSingle Benchmark.ia_get = Unit
IsSingle Benchmark.ia_batch = ⊥
IsSingle Benchmark.ia_crud = ⊥
IsSingle Benchmark.ia_iterate = ⊥

module _ {Ctx : Type 0} where
  -- Calls and generator between two states of a doer.
  pub record Recorded (b d a : ℕ) (before after : Doer Ctx) : Type 0 where
    pub begun : begins after.calls ≡ begins before.calls + b
    pub ended : dones after.calls ≡ dones before.calls + d
    pub added : adds after.calls ≡ adds before.calls + a
    pub size : (after.gen_a).vsize ≡ (before.gen_a).vsize

  pub Recorded-then :
      (b d a b' d' a' : ℕ) (x y z : Doer Ctx)
      → Recorded b d a x y
      → Recorded b' d' a' y z
      → Recorded (b + b') (d + d') (a + a') x z
  Recorded-then b d a b' d' a' x y z r s = record {
    begun = omega (arith, r.begun, s.begun);
    ended = omega (arith, r.ended, s.ended);
    added = omega (arith, r.added, s.added);
    size = s.size ∙ r.size;
  }

-- What holds of both outcomes of a test of `rc` holds of the outcome.
pub and_then-both {ℓ κ} :
    {A : Type ℓ} (P : A → Type κ) (rc : Rc) (ok : A) (other : Rc → A)
    → P ok
    → ((r : Rc) → P (other r))
    → P (and_then rc ok other)
and_then-both P success ok other p q = p
and_then-both P not_found ok other p q = q not_found
and_then-both P (failure code) ok other p q = q (failure code)

pub step_or_leave-cases :
    (rc : Rc) (i : ℕ)
    → (step_or_leave rc i ≡ again success (i + 1))
      ⊎ ((r : Rc) × (step_or_leave rc i ≡ bailout r) × (r ≢ success))
step_or_leave-cases success i = inl refl
step_or_leave-cases not_found i = inr (not_found, refl, ground arith)
step_or_leave-cases (failure code) i = inr (failure code, refl, ground arith)

module _ {Ctx : Type 0} (driver : Driver Ctx) (conf : Conf) (g : Globals) where
  -- `begin`, and `next` unless it fails.
  unfoldable pub opening : Benchmark → IaKv → Doer Ctx → Rc × IaKv × Doer Ctx
  opening b a d =
      and_then (begin driver b d).0 (next driver b a (begin driver b d).1)
        (λ rc. (rc, a, (begin driver b d).1))

  opening-Recorded : (b : Benchmark) (a : IaKv) (d : Doer Ctx) → Recorded 1 0 0 d (opening b a d).2
  unfolding opening begin next
  opening-Recorded b a d =
      and_then-both {A = Rc × IaKv × Doer Ctx} (λ t. Recorded 1 0 0 d t.2) (begin driver b d).0
        (next driver b a (begin driver b d).1) (λ rc. (rc, a, (begin driver b d).1))
        record { begun = omega arith; ended = omega arith; added = omega arith; size = refl }
        (λ rc. record {
          begun = omega arith;
          ended = omega arith;
          added = omega arith;
          size = refl;
        })

  pub single_ops-Recorded :
      (b : Benchmark) (i : ℕ) (a : IaKv) (d : Doer Ctx)
      → Recorded 1 1 1 d (single_ops driver conf g b i a d).1
  unfolding single_ops opening finish
  single_ops-Recorded b i a d =
      let o : Recorded 1 0 0 d (opening b a d).2 = opening-Recorded b a d in
      record {
        begun = omega (arith, o.begun);
        ended = omega (arith, o.ended);
        added = omega (arith, o.added);
        size = o.size;
      }

  -- A round of one operation returns, with one `begin`, one `done` and one measurement, and it raises
  -- `i` or ends the loop with an error.
  pub turn_single-Recorded :
      (b : Benchmark) (i : ℕ) (d : Doer Ctx)
      → IsServable g (d.gen_a).vsize
      → (t : Turn) × (d' : Doer Ctx) × (turn_single driver conf g b i d ≡ done (t, d'))
        × Recorded 1 1 1 d d'
        × ((t ≡ again success (i + 1)) ⊎ ((r : Rc) × (t ≡ bailout r) × (r ≢ success)))
  unfolding turn_single single_ops
  turn_single-Recorded b i d s =
      let (kv, e) = kvgen_get_returns g d.gen_a (not (is_set b)) s in
      let served : Doer Ctx = record d { gen_a = advance g d.gen_a } in
      let r : Recorded 1 1 1 served (single_ops driver conf g b i kv served).1 =
        single_ops-Recorded b i kv served in
      (
        (single_ops driver conf g b i kv served).0,
        (single_ops driver conf g b i kv served).1,
        rw e refl,
        record { begun = r.begun; ended = r.ended; added = r.added; size = r.size },
        step_or_leave-cases _ i,
      )
