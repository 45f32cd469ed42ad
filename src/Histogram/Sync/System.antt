-- ===== src/Histogram/Sync/System.antt =====
-- The doers of a run and the globals that they share: each step is one call of
-- src/ia_histogram.c, of any of the doers, in any order.
use ioarena.Base.{
  ℕ, ◌≡◌, ◌≢◌, refl, sym, ◌∙◌, ◌+◌, Bool, Bool-cases, true, List, length, if◌then◌else◌, [], ◌∷◌,
  ◌++◌, arith, ◌==◌, ==_iff, inl, inr,
}
use mathlib.Core.Path.{subst}
use mathlib.Core.List.{append_assoc}
use ioarena.Bench.{Benchmark}
use ioarena.Histogram.State.{
  IaHistogram, Global, Outcome, returned, fatal, stuck, zeroed, ia_histogram_reset,
  ia_histogram_init, ia_histogram_destroy, ia_histogram_enable, ia_global_init,
}
use ioarena.Histogram.Add.{ia_histogram_add}
use ioarena.Histogram.Merge.{
  settle, written, write_checkpoint, ia_histogram_checkpoint, ia_histogram_merge,
}
use ioarena.Histogram.Sync.{InSync, Keeps}
use ioarena.Histogram.Sync.Counts.{ahead-middle, Near-middle, Near-split, length-middle, ahead}
use ioarena.Histogram.Sync.Steps.{InSync-place, merge-Keeps, add-Keeps, init-InSync, destroy-InSync}

-- static struct global global;
unfoldable pub no_global : Global
no_global = record {
  starting_point = 0;
  checkpoint_ns = 0;
  per_bench = λ b. zeroed 0;
  doers_active = 0;
  doers_merged = 0;
  merge_evo = 0;
}

-- The globals of a run, with the doers that are in it, and those that have left it while `doers_active`
-- still counts them.
pub record Shared : Type 0 where
  pub global : Global
  pub doers : List IaHistogram
  pub left_behind : List IaHistogram

abbrev pub counted : Shared → List IaHistogram
counted s = s.doers ++ s.left_behind

-- One call. The doer that calls stands anywhere among the others, and the clock is never 0. Where a doer
-- is destroyed that has not been reset since `ia_histogram_init`, nothing is counted down.
pub data Step : Shared → Shared → Type 0 where
  enables :
      (now : ℕ) (b : Benchmark) (g : Global) (ds gone : List IaHistogram)
      → Step
          (record { global = g; doers = ds; left_behind = gone })
          (record { global = ia_histogram_enable now b g; doers = ds; left_behind = gone })
  joins :
      (g : Global) (ds gone : List IaHistogram)
      → Step
          (record { global = g; doers = ds; left_behind = gone })
          (record {
            global = (ia_histogram_init g).1;
            doers = (ia_histogram_init g).0 ∷ ds;
            left_behind = gone;
          })
  resets :
      (now : ℕ) (b : Benchmark) (g : Global) (before : List IaHistogram) (d : IaHistogram)
      (after gone : List IaHistogram)
      → Step
          (record { global = g; doers = before ++ d ∷ after; left_behind = gone })
          (record {
            global = g;
            doers = before ++ ia_histogram_reset now b d ∷ after;
            left_behind = gone;
          })
  adds :
      (locks : Bool) (clock now t0 volume : ℕ) (g g' : Global) (before : List IaHistogram)
      (d d' : IaHistogram) (after gone : List IaHistogram)
      → now ≢ 0
      → ia_histogram_add locks clock now t0 volume d g ≡ returned (d', g')
      → Step
          (record { global = g; doers = before ++ d ∷ after; left_behind = gone })
          (record { global = g'; doers = before ++ d' ∷ after; left_behind = gone })
  merges :
      (clock now : ℕ) (g g' : Global) (before : List IaHistogram) (d d' : IaHistogram)
      (after gone : List IaHistogram)
      → now ≢ 0
      → ia_histogram_merge true clock now d g ≡ returned (d', g')
      → Step
          (record { global = g; doers = before ++ d ∷ after; left_behind = gone })
          (record { global = g'; doers = before ++ d' ∷ after; left_behind = gone })
  leaves :
      (g : Global) (before : List IaHistogram) (d : IaHistogram) (after gone : List IaHistogram)
      → d.enabled ≡ 42
      → Step
          (record { global = g; doers = before ++ d ∷ after; left_behind = gone })
          (record {
            global = (ia_histogram_destroy d g).1;
            doers = before ++ after;
            left_behind = gone;
          })
  leaves_unused :
      (g : Global) (before : List IaHistogram) (d : IaHistogram) (after gone : List IaHistogram)
      → d.enabled ≢ 42
      → Step
          (record { global = g; doers = before ++ d ∷ after; left_behind = gone })
          (record {
            global = (ia_histogram_destroy d g).1;
            doers = before ++ after;
            left_behind = d ∷ gone;
          })

-- The states that a run comes to from its start.
pub data Reach : Shared → Type 0 where
  starts :
      (now : ℕ)
      → Reach (record { global = ia_global_init now no_global; doers = []; left_behind = [] })
  goes_on : {s t : Shared} → Reach s → Step s t → Reach t

-- The doer that calls is moved to the front, and back.
pub InSync-front :
    (g : Global) (before : List IaHistogram) (d : IaHistogram) (after : List IaHistogram)
    → InSync g (before ++ d ∷ after)
    → InSync g (d ∷ (before ++ after))
InSync-front g before d after i = record {
  active = omega (arith, i.active, length-middle before d after);
  merged = omega (arith, i.merged, ahead-middle g.merge_evo before d after);
  near = Near-split g.merge_evo before d after i.near;
}

pub InSync-back :
    (g : Global) (before : List IaHistogram) (d : IaHistogram) (after : List IaHistogram)
    → InSync g (d ∷ (before ++ after))
    → InSync g (before ++ d ∷ after)
InSync-back g before d after i = record {
  active = omega (arith, i.active, length-middle before d after);
  merged = omega (arith, i.merged, ahead-middle g.merge_evo before d after);
  near = Near-middle g.merge_evo before d after i.near;
}

-- A call's outcome that is in step with the other doers.
abbrev EndsInSync : List IaHistogram → Outcome (IaHistogram × Global) → Type 0
EndsInSync others (returned r) = InSync r.1 (r.0 ∷ others)
EndsInSync others fatal = ⊥
EndsInSync others stuck = ⊥

-- What a call that keeps the counters in step returns is in step.
returned-InSync :
    (r : Outcome (IaHistogram × Global)) (g' : Global) (before : List IaHistogram)
    (d' : IaHistogram) (after : List IaHistogram)
    → Keeps r (before ++ after)
    → r ≡ returned (d', g')
    → InSync g' (before ++ d' ∷ after)
returned-InSync r g' before d' after (e, h, r-is, i) r-is' =
    InSync-back g' before d' after (subst (EndsInSync (before ++ after)) (sym r-is ∙ r-is') i)

enable-InSync :
    (now : ℕ) (b : Benchmark) (g : Global) (ds : List IaHistogram)
    → InSync g ds
    → InSync (ia_histogram_enable now b g) ds
unfolding ia_histogram_enable
enable-InSync now b g ds i = elim (Bool-cases ((g.per_bench b).enabled == 0)) [
  | inl off ↦ rw off record { active = i.active; merged = i.merged; near = i.near }
  | inr on ↦ rw on i
]

pub reset-place :
    (now : ℕ) (b : Benchmark) (d : IaHistogram)
    → (ia_histogram_reset now b d).merge_evo ≡ d.merge_evo
unfolding ia_histogram_reset zeroed
reset-place now b d = refl

start-InSync : (now : ℕ) → InSync (ia_global_init now no_global) []
unfolding ia_global_init no_global
start-InSync now = record { active = refl; merged = refl; near = tt }

-- `ia_histogram_destroy` of a doer that was never reset changes nothing that is counted.
unused-InSync :
    (g : Global) (d : IaHistogram) (all : List IaHistogram)
    → d.enabled ≢ 42
    → InSync g all
    → InSync (ia_histogram_destroy d g).1 all
unfolding ia_histogram_destroy
unused-InSync g d all unused i = elim (Bool-cases (d.enabled == 42)) [
  | inl ran ↦ absurd (unused ((==_iff _ _).0 ran))
  | inr never ↦ rw never i
]

-- The doers that have left stand behind the others.
with_gone :
    (g : Global) (before : List IaHistogram) (d : IaHistogram) (after gone : List IaHistogram)
    → InSync g ((before ++ d ∷ after) ++ gone)
    → InSync g (before ++ d ∷ (after ++ gone))
with_gone g before d after gone i = rw (← append_assoc before (d ∷ after) gone) i

without_gone :
    (g : Global) (before : List IaHistogram) (d : IaHistogram) (after gone : List IaHistogram)
    → InSync g (before ++ d ∷ (after ++ gone))
    → InSync g ((before ++ d ∷ after) ++ gone)
without_gone g before d after gone i = rw (append_assoc before (d ∷ after) gone) i

-- Every call keeps the counters in step.
Step-InSync : {s t : Shared} → Step s t → InSync s.global (counted s) → InSync t.global (counted t)
Step-InSync (enables now b g ds gone) i = enable-InSync now b g (ds ++ gone) i
Step-InSync (joins g ds gone) i = init-InSync g (ds ++ gone) i
Step-InSync (resets now b g before d after gone) i =
    let i' = InSync-front g before d (after ++ gone) (with_gone g before d after gone i) in
    without_gone g before (ia_histogram_reset now b d) after gone (
      InSync-back g before (ia_histogram_reset now b d) (after ++ gone) (
        InSync-place g d (ia_histogram_reset now b d) (before ++ (after ++ gone))
          (reset-place now b d) i'))
Step-InSync (adds locks clock now t0 volume g g' before d d' after gone timed e) i =
    let i' = InSync-front g before d (after ++ gone) (with_gone g before d after gone i) in
    without_gone g' before d' after gone (
      returned-InSync _ g' before d' (after ++ gone)
        (add-Keeps locks clock now t0 volume d g (before ++ (after ++ gone)) timed i') e)
Step-InSync (merges clock now g g' before d d' after gone timed e) i =
    let i' = InSync-front g before d (after ++ gone) (with_gone g before d after gone i) in
    without_gone g' before d' after gone (
      returned-InSync _ g' before d' (after ++ gone)
        (merge-Keeps clock now d g (before ++ (after ++ gone)) timed i') e)
Step-InSync (leaves g before d after gone ran) i =
    let i' = InSync-front g before d (after ++ gone) (with_gone g before d after gone i) in
    rw (append_assoc before after gone) (destroy-InSync g d (before ++ (after ++ gone)) ran i')
Step-InSync (leaves_unused g before d after gone unused) i =
    rw (append_assoc before after (d ∷ gone)) (unused-InSync g d _ unused (to_behind i))
  where
    to_behind : InSync g ((before ++ d ∷ after) ++ gone) → InSync g (before ++ (after ++ d ∷ gone))
    to_behind i = rw (← append_assoc before after (d ∷ gone)) (
        InSync-back g (before ++ after) d gone (
          rw (append_assoc before after gone)
            (InSync-front g before d (after ++ gone) (with_gone g before d after gone i))))

-- In every state that a run reaches, by any sequence of calls of its doers: `doers_active` is the number
-- of doers and of those that were destroyed without a reset, `doers_merged` the number of those among
-- them that have merged into the coming checkpoint, and each of them stands at the coming checkpoint or
-- has merged into it.
pub Reach-InSync : {s : Shared} → Reach s → InSync s.global (counted s)
Reach-InSync (starts now) = start-InSync now
Reach-InSync (goes_on before step) = Step-InSync step (Reach-InSync before)

-- In every state that a run reaches, also where doers have been destroyed without a reset, a doer's
-- `ia_histogram_add`, at any time but 0 and whether or not it gets the lock, and its
-- `ia_histogram_merge` return: no search for a bucket is without end, and the checkpoint that they may
-- write does not abort.
pub Reach-calls_return :
    (g : Global) (before : List IaHistogram) (d : IaHistogram) (after gone : List IaHistogram)
    (locks : Bool) (clock now t0 volume : ℕ)
    → Reach (record { global = g; doers = before ++ d ∷ after; left_behind = gone })
    → now ≢ 0
    → ((r : IaHistogram × Global) × (ia_histogram_add locks clock now t0 volume d g ≡ returned r))
      × ((r : IaHistogram × Global) × (ia_histogram_merge true clock now d g ≡ returned r))
Reach-calls_return g before d after gone locks clock now t0 volume reached timed =
    let i =
      InSync-front g before d (after ++ gone)
        (with_gone g before d after gone (Reach-InSync reached)) in
    let others = before ++ (after ++ gone) in
    let (d1, g1, add, _) = add-Keeps locks clock now t0 volume d g others timed i in
    let (d2, g2, merge, _) = merge-Keeps clock now d g others timed i in
    (((d1, g1), add), ((d2, g2), merge))

-- Once all doers of a run have left, the last `ia_histogram_checkpoint(0)` aborts exactly where some
-- doer was destroyed without a reset and has not merged into the coming checkpoint. Otherwise, as where
-- every doer has been reset, it writes its checkpoint, which settles each benchmark and makes the
-- counters ready for the next one.
pub Reach-last_checkpoint :
    (g : Global) (clock : ℕ) (gone : List IaHistogram)
    → Reach (record { global = g; doers = []; left_behind = gone })
    → ia_histogram_checkpoint clock 0 g ≡ (
        if length gone == ahead g.merge_evo gone
        then returned (
          written,
          record g {
            checkpoint_ns = clock;
            per_bench = λ b. settle (g.per_bench b);
            doers_merged = 0;
            merge_evo = g.merge_evo + 1;
          },
        )
        else fatal)
unfolding ia_histogram_checkpoint write_checkpoint
Reach-last_checkpoint g clock gone reached =
    let i = Reach-InSync reached in rw (i.active, i.merged) refl
