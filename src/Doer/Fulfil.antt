-- ===== src/Doer/Fulfil.antt =====
-- `ia_doer_fulfil` of src/ia_benchmark.c: the benchmarks of a doer, over and over.
pub mod Completes
use ioarena.Base.{
  ℕ, zero, suc, ◌+◌, Bool, true, false, not, ◌&&◌, ◌||◌, Option, none, some, List, [], ◌∷◌, ltb,
  ◌==◌, if◌then◌else◌,
}
use ioarena.Bench.{Benchmark}
use ioarena.Kv.Fill.{Globals, Run, done, running, ◌>>=◌}
use ioarena.Doer.Driver.{Rc, success, not_found, failure, Driver, Conf, Doer}
use ioarena.Doer.Turn.{minus_one}
use ioarena.Doer.Masks.{Mask, all_benchmarks}
use ioarena.Doer.Run.{ia_run_benchmark}

-- The settings that `ia_doer_fulfil` reads, and what it sees of the other doers: whether some are not
-- done yet at its n-th test, and whether one has failed by the end of its n-th pass.
pub record Passes : Type 0 where
  pub nrepeat : ℕ
  pub continuous_completing : Bool
  pub others_busy : ℕ → Bool
  pub others_failed : ℕ → Bool

-- The result code, how often `doers_done` has been raised, and the doer, whose context is disposed of
-- or left over.
pub record Fulfilled (Ctx : Type 0) : Type 0 where
  pub rc : Rc
  pub raised : ℕ
  pub doer : Doer Ctx
  pub disposed : Bool

-- The driver's other functions on contexts.
pub record Threads (Ctx : Type 0) : Type 0 where
  pub thread_new : Option Ctx
  pub thread_dispose : Ctx → Ctx
  pub option : Ctx → List ℕ → Rc × Ctx

module _ {Ctx : Type 0} (driver : Driver Ctx) (conf : Conf) (g : Globals) (allocated : Bool) where
  -- One pass over the benchmarks, up to the first that fails.
  unfoldable pub bench_loop : List Benchmark → Mask → Rc → Doer Ctx → Run (Rc × Doer Ctx)
  bench_loop [] mask rc d = done (rc, d)
  bench_loop (b ∷ bs) mask not_found d = done (not_found, d)
  bench_loop (b ∷ bs) mask (failure code) d = done (failure code, d)
  bench_loop (b ∷ bs) mask success d = elim (mask b) [
    | true ↦ ia_run_benchmark driver conf g allocated b d >>= λ r. bench_loop bs mask r.0 r.1
    | false ↦ bench_loop bs mask success d
  ]

  -- The condition of the loop over passes.
  abbrev pub goes_on : Passes → (count : ℕ) → Bool
  goes_on p count = ltb count p.nrepeat || (p.continuous_completing && p.others_busy count)

  abbrev pub raise : Passes → (count raised : ℕ) → ℕ
  raise p count raised = if count + 1 == p.nrepeat then raised + 1 else raised

  -- if (rc || ioarena.failed) break;
  abbrev pub breaks : Passes → (count : ℕ) → Rc → Bool
  breaks p count success = p.others_failed (count + 1)
  breaks p count not_found = true
  breaks p count (failure code) = true

  -- The passes, with those that are left: `continuous_completing` may ask for any number.
  unfoldable pub pass_loop :
      (fuel : ℕ) → Passes → Mask → (count raised : ℕ) → Doer Ctx → Run (Rc × ℕ × Doer Ctx)
  pass_loop zero p mask count raised d = elim (goes_on p count) [
    | true ↦ running
    | false ↦ done (success, raised, d)
  ]
  pass_loop (suc fuel) p mask count raised d = elim (goes_on p count) [
    | true ↦ bench_loop all_benchmarks mask success d >>= λ r. elim (breaks p count r.0) [
      | true ↦ done (r.0, raise p count raised, r.1)
      | false ↦ pass_loop fuel p mask (count + 1) (raise p count raised) r.1
    ]
    | false ↦ done (success, raised, d)
  ]

  -- for (drv_opt = ...) rc = option(doer->ctx, drv_opt->arg), up to the first that fails
  unfoldable pub give_options : Threads Ctx → List (List ℕ) → Ctx → Bool × Ctx
  give_options t [] c = (true, c)
  give_options t (arg ∷ args) c =
      let r = t.option c arg in elim r.0 [ success ↦ give_options t args r.1 | _ ↦ (false, r.1) ]

  -- Once the options are given.
  unfoldable pub fulfil_with :
      (fuel : ℕ) → Passes → Threads Ctx → Mask → Doer Ctx → Bool × Ctx → Run (Fulfilled Ctx)
  fulfil_with fuel p t mask d (false, c) =
      done (record { rc = minus_one; raised = 0; doer = record d { ctx = c }; disposed = false })
  fulfil_with fuel p t mask d (true, c) = pass_loop fuel p mask 0 0 (record d { ctx = c }) >>= λ r.
      done (record {
        rc = r.0;
        raised = r.1;
        doer = record r.2 { ctx = t.thread_dispose (r.2).ctx };
        disposed = true;
      })

  -- Once a context has been asked for: `none` is NULL.
  unfoldable pub fulfil_made :
      (fuel : ℕ)
      → Passes
      → Threads Ctx
      → (drv_opts : List (List ℕ)) → Mask
      → Doer Ctx
      → Option Ctx
      → Run (Fulfilled Ctx)
  fulfil_made fuel p t drv_opts mask d none =
      done (record { rc = minus_one; raised = 0; doer = d; disposed = true })
  fulfil_made fuel p t drv_opts mask d (some c) =
      fulfil_with fuel p t mask d (give_options t drv_opts c)

  -- `ia_doer_fulfil`, for a doer that has no context yet
  unfoldable pub ia_doer_fulfil :
      (fuel : ℕ)
      → Passes
      → Threads Ctx
      → (drv_opts : List (List ℕ)) → Mask
      → Doer Ctx
      → Run (Fulfilled Ctx)
  ia_doer_fulfil fuel p t drv_opts mask d = fulfil_made fuel p t drv_opts mask d t.thread_new
