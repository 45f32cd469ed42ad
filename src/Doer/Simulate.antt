-- ===== src/Doer/Simulate.antt =====
-- Two drivers that a doer of src/ia_benchmark.c cannot tell apart.
pub mod Parts
pub mod Turns
pub mod Quads
pub mod Runs
use ioarena.Base.{arith, ◌≢◌, ◌≡◌, ◌⊎◌, refl, sym}
use mathlib.Core.Path.{subst}
use ioarena.Bench.{Benchmark}
use ioarena.Kv.Gen.{IaKv}
use ioarena.Kv.Fill.{Run, done, overflow, running, ◌>>=◌}
use ioarena.Doer.Driver.{Rc, success, not_found, failure, Driver, Doer, and_then}

-- The operations that a benchmark asks the driver's `next` for.
abbrev pub Does : Benchmark → Benchmark → Type 0
Does Benchmark.ia_set Benchmark.ia_set = Unit
Does Benchmark.ia_delete Benchmark.ia_delete = Unit
Does Benchmark.ia_get Benchmark.ia_get = Unit
Does Benchmark.ia_crud Benchmark.ia_set = Unit
Does Benchmark.ia_crud Benchmark.ia_delete = Unit
Does Benchmark.ia_crud Benchmark.ia_get = Unit
Does Benchmark.ia_batch Benchmark.ia_set = Unit
Does Benchmark.ia_batch Benchmark.ia_delete = Unit
Does Benchmark.ia_batch Benchmark.ia_get = Unit
Does b op = ⊥

-- Contexts related while no transaction is open, and while one is, and what keeps them so.
pub record Simulation {C D : Type 0} (x : Driver C) (y : Driver D) (b : Benchmark) : Type 1 where
  pub Idle : C → D → Type 0
  pub Open : C → D → Type 0
  pub begins :
      (c : C) (d : D)
      → Idle c d
      → ((x.begin c b).0 ≡ success)
        × ((y.begin d b).0 ≡ success)
        × Open (x.begin c b).1 (y.begin d b).1
  pub nexts :
      (c : C) (d : D) (op : Benchmark) (kv : IaKv)
      → Does b op
      → Open c d
      → ((x.next c op kv).0 ≡ (y.next d op kv).0)
        × ((x.next c op kv).1 ≡ (y.next d op kv).1)
        × Open (x.next c op kv).2 (y.next d op kv).2
  pub finishes :
      (c : C) (d : D)
      → Open c d
      → ((x.finish c b).0 ≡ (y.finish d b).0) × Idle (x.finish c b).1 (y.finish d b).1

-- Doers with the same generators and calls, whose contexts are related by P.
pub record Agree {C D : Type 0} (P : C → D → Type 0) (c : Doer C) (d : Doer D) : Type 0 where
  pub contexts : P c.ctx d.ctx
  pub gen_a : c.gen_a ≡ d.gen_a
  pub gen_b : c.gen_b ≡ d.gen_b
  pub calls : c.calls ≡ d.calls

-- Both calls return related results, or neither returns and for the same reason.
abbrev pub BothRun : {A B : Type 0} → (A → B → Type 0) → Run A → Run B → Type 0
BothRun P (done a) (done b) = P a b
BothRun P overflow overflow = Unit
BothRun P running running = Unit
BothRun P r s = ⊥

pub BothRun-same : {A : Type 0} (r s : Run A) → r ≡ s → BothRun ◌≡◌ r s
BothRun-same r s e = subst (λ t. BothRun ◌≡◌ r t) e (self r)
  where
    self : {A : Type 0} (r : Run A) → BothRun ◌≡◌ r r
    self (done a) = refl
    self overflow = tt
    self running = tt

pub BothRun-bind :
    {A B C D : Type 0} (P : A → B → Type 0) (Q : C → D → Type 0) (r : Run A) (s : Run B)
    (f : A → Run C) (h : B → Run D)
    → BothRun P r s
    → ((a : A) (b : B) → P a b → BothRun Q (f a) (h b))
    → BothRun Q (r >>= f) (s >>= h)
BothRun-bind P Q (done a) (done b) f h p k = k a b p
BothRun-bind P Q overflow overflow f h p k = tt
BothRun-bind P Q running running f h p k = tt
BothRun-bind P Q (done a) overflow f h p k = elim p [ ]
BothRun-bind P Q (done a) running f h p k = elim p [ ]
BothRun-bind P Q overflow (done b) f h p k = elim p [ ]
BothRun-bind P Q overflow running f h p k = elim p [ ]
BothRun-bind P Q running (done b) f h p k = elim p [ ]
BothRun-bind P Q running overflow f h p k = elim p [ ]

-- Tests of equal codes lead to related results.
pub and_then-agree :
    {A B : Type 0} (P : A → B → Type 0) (rc rc' : Rc) (a : A) (b : B) (f : Rc → A) (h : Rc → B)
    → rc ≡ rc'
    → (rc ≡ success → P a b)
    → ((r : Rc) → r ≢ success → P (f r) (h r))
    → P (and_then rc a f) (and_then rc' b h)
and_then-agree P rc rc' a b f h same ok other =
    subst (λ r. P (and_then rc a f) (and_then r b h)) same (each rc ok)
  where
    each : (r : Rc) → (r ≡ success → P a b) → P (and_then r a f) (and_then r b h)
    each success ok = ok refl
    each not_found ok = other not_found (ground arith)
    each (failure code) ok = other (failure code) (ground arith)
