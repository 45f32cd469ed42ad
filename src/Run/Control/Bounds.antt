-- ===== src/Run/Control/Bounds.antt =====
-- The key spaces of the doers that a run of src/ia.c starts, against the number of spaces for which it
-- sets the generator up.
use ioarena.Base.{
  ℕ, zero, suc, ◌+◌, ◌*◌, ◌≤◌, ◌≡◌, refl, sym, ap, ◌∙◌, inl, inr, arith, Bool, true, Bool-cases,
  length, if◌then◌else◌, List, [], ◌∷◌,
}
use mathlib.Core.Path.{subst}
use ioarena.Bench.{Benchmark}
use ioarena.Config.Parse.{IaConfig}
use ioarena.Kv.Fill.{Globals}
use ioarena.Doer.Driver.{Rc, success}
use ioarena.Doer.Masks.{Mask, meet, some_bit, bench_mask_2keyspace}
use ioarena.Doer.Init.{Ready}
use ioarena.Run.{Spawn, Spread, spread_one, ia_spread, next_space}
use ioarena.Run.Covers.{MasksOf, spread-covers, and_then-success}
use ioarena.Run.Spaces.{Started, spread_one-Started}
use ioarena.Run.Control.{
  set_rd, set_wr, at_least_0, threads_for, key_nspaces, Calls, spawns, Platform, wthr,
  spread_readers, spread_writers,
}

-- How many key spaces a doer takes at most.
abbrev stride_of : Mask → ℕ
stride_of set = if meet set bench_mask_2keyspace then 2 else 1

-- The key space that is reached from another by doers that were started one after the other, the last
-- one first, and that each of them has got the one reached then.
abbrev reached : (from : ℕ) → List Ready → ℕ
reached from [] = from
reached from (d ∷ ds) = next_space d.benchmask (reached from ds)

abbrev Placed : (from : ℕ) → List Ready → Type 0
Placed from [] = Unit
Placed from (d ∷ ds) = (d.key_space ≡ reached from (d ∷ ds)) × Placed from ds

record IsPlaced (from : ℕ) (st : Spread) : Type 0 where
  is_reached : st.key_space ≡ reached from st.doers
  each : Placed from st.doers

module _ (sector_start : ℕ → ℕ → ℕ → ℕ) (g : Globals) (vsize : ℕ) (separate : Bool) where
  Started-IsPlaced :
      (from : ℕ) (before after : Spread)
      → Started sector_start g vsize separate before after
      → IsPlaced from before
      → IsPlaced from after
  Started-IsPlaced from before after s v =
      let here = s.space ∙ ap (next_space (s.doer).benchmask) v.is_reached in
      let same = sym s.doers in
      record {
        is_reached = here ∙ ap (reached from) same;
        each = subst (Placed from) same (s.on.placed ∙ here, v.each);
      }

  Started-length :
      (before after : Spread)
      → Started sector_start g vsize separate before after
      → length after.doers ≡ suc (length before.doers)
  Started-length before after s = ap length s.doers

  spread-IsPlaced :
      (from : ℕ) (set : Mask) (ps : List Spawn) (st : Spread)
      → IsPlaced from st
      → (ia_spread sector_start g vsize separate set ps st).0 ≡ success
      → IsPlaced from (ia_spread sector_start g vsize separate set ps st).1
        × (length (ia_spread sector_start g vsize separate set ps st).1.doers
            ≡ length ps + length st.doers)
  unfolding ia_spread
  spread-IsPlaced from set [] st v ok = (v, omega arith)
  spread-IsPlaced from set (p ∷ ps) st v ok =
      let r = spread_one sector_start g vsize separate set p st in
      and_then-success
        (λ (q : Rc × Spread).
          IsPlaced from q.1 × (length (q.1).doers ≡ suc (length ps) + length st.doers))
        (λ (q : Rc × Spread). q.0 ≡ success) r.0 _ _
        (λ one rest.
          let s = spread_one-Started sector_start g vsize separate set p st one in
          let (placed, count) =
            spread-IsPlaced from set ps r.1 (Started-IsPlaced from st r.1 s v) rest in
          (placed, count ∙ ap (λ n. length ps + n) (Started-length st r.1 s) ∙ omega arith))
        (λ rc one ends. absurd (one ends)) ok

-- A doer of a set of reads takes no key space, one of a set of writes at least one and at most
-- `stride_of` the set.
next_space-reads :
    (list mask : Mask) (k : ℕ)
    → ((b : Benchmark) → mask b ≡ true → set_rd list b ≡ true)
    → next_space mask k ≡ k
next_space-reads list mask k within = ground (
  arith,
  within Benchmark.ia_set,
  within Benchmark.ia_batch,
  within Benchmark.ia_crud,
  within Benchmark.ia_delete,
)

next_space-writes :
    (list mask : Mask) (k : ℕ)
    → ((b : Benchmark) × (mask b ≡ true))
    → ((b : Benchmark) → mask b ≡ true → set_wr list b ≡ true)
    → (k + 1 ≤ next_space mask k) × (next_space mask k ≤ k + stride_of (set_wr list))
next_space-writes list mask k (b, on) within =
    ground (arith, within b on, within Benchmark.ia_batch, within Benchmark.ia_crud)

-- So with the doers that are started for a set.
reads-reached :
    (separate : Bool) (list : Mask) (ds : List Ready) (from : ℕ)
    → MasksOf separate (set_rd list) ds
    → reached from ds ≡ from
reads-reached separate list [] from masks = refl
reads-reached separate list (d ∷ ds) from masks =
    next_space-reads list d.benchmask (reached from ds) masks.0.1
    ∙ reads-reached separate list ds from masks.1

abbrev pub SpacesIn : (low high : ℕ) → List Ready → Type 0
SpacesIn low high [] = Unit
SpacesIn low high (d ∷ ds) = (low ≤ d.key_space) × (d.key_space ≤ high) × SpacesIn low high ds

SpacesIn-wider :
    (low high high' : ℕ) (ds : List Ready)
    → high ≤ high'
    → SpacesIn low high ds
    → SpacesIn low high' ds
SpacesIn-wider low high high' [] le h = tt
SpacesIn-wider low high high' (d ∷ ds) le h =
    (h.0, omega (arith, le, h.1), SpacesIn-wider low high high' ds le h.2)

reads-SpacesIn :
    (separate : Bool) (list : Mask) (ds : List Ready) (from : ℕ)
    → MasksOf separate (set_rd list) ds
    → Placed from ds
    → SpacesIn from from ds
reads-SpacesIn separate list [] from masks placed = tt
reads-SpacesIn separate list (d ∷ ds) from masks placed =
    let same = placed.0 ∙ reads-reached separate list (d ∷ ds) from masks in
    (
      omega (arith, same),
      omega (arith, same),
      reads-SpacesIn separate list ds from masks.1 placed.1,
    )

writes-reached :
    (separate : Bool) (list : Mask) (ds : List Ready) (from : ℕ)
    → MasksOf separate (set_wr list) ds
    → (from + length ds ≤ reached from ds)
      × (reached from ds ≤ from + stride_of (set_wr list) * length ds)
writes-reached separate list [] from masks = (omega arith, omega arith)
writes-reached separate list (d ∷ ds) from masks =
    let one = next_space-writes list d.benchmask (reached from ds) masks.0.0 masks.0.1 in
    let rest = writes-reached separate list ds from masks.1 in
    (omega (arith, one, rest), widened (stride_of (set_wr list)) _ _ _ one.1 rest.1)
  where
    widened : (s k r n : ℕ) → r ≤ k + s → k ≤ from + s * n → r ≤ from + s * suc n
    widened s k r n h h' = grind arith

writes-SpacesIn :
    (separate : Bool) (list : Mask) (ds : List Ready) (from : ℕ)
    → MasksOf separate (set_wr list) ds
    → Placed from ds
    → SpacesIn (from + 1) (from + stride_of (set_wr list) * length ds) ds
writes-SpacesIn separate list [] from masks placed = tt
writes-SpacesIn separate list (d ∷ ds) from masks placed =
    let (low, high) = writes-reached separate list (d ∷ ds) from masks in
    (
      omega (arith, low, placed.0),
      omega (arith, high, placed.0),
      SpacesIn-wider _ _ _ ds (grown (stride_of (set_wr list)) (length ds))
          (writes-SpacesIn separate list ds from masks.1 placed.1),
    )
  where
    grown : (s n : ℕ) → from + s * n ≤ from + s * suc n
    grown s n = grind arith

spawns-length : (answer : ℕ → Spawn) (n : ℕ) → length (spawns answer n) ≡ n
unfolding spawns
spawns-length answer zero = refl
spawns-length answer (suc n) = ap suc (spawns-length (λ i. answer (suc i)) n)

module _ (sector_start : ℕ → ℕ → ℕ → ℕ) (g : Globals) (vsize : ℕ) (separate : Bool) where
  spread-Placed :
      (set : Mask) (answer : ℕ → Spawn) (n nth from : ℕ)
      → let r =
          ia_spread sector_start g vsize separate set
            (spawns answer (at_least_0 (threads_for set n)))
            (record { nth = nth; rotator = set; key_space = from; doers = [] }) in
        r.0 ≡ success
        → MasksOf separate set r.1.doers
          × IsPlaced from r.1
          × (length r.1.doers ≡ at_least_0 (threads_for set n))
  spread-Placed set answer n nth from ok =
      let (placed, count) =
        spread-IsPlaced sector_start g vsize separate from set
          (spawns answer (at_least_0 (threads_for set n))) _
          (record { is_reached = refl; each = tt }) ok in
      let all = count ∙ unit _ ∙ spawns-length answer (at_least_0 (threads_for set n)) in
      (
        elim (Bool-cases (some_bit set)) [
          | inl asked ↦
              (spread-covers sector_start g vsize separate set
                (spawns answer (at_least_0 (threads_for set n))) nth from asked ok).2
          | inr nothing ↦ nobody _ (all ∙ rw nothing refl)
        ],
        placed,
        all,
      )
    where
      unit : (n' : ℕ) → n' + 0 ≡ n'
      unit n' = omega arith

      nobody : (ds : List Ready) → length ds ≡ 0 → MasksOf separate set ds
      nobody [] h = tt
      nobody (d ∷ ds) h = absurd (omega (arith, h))

  -- As many doers as asked for.
  pub spread-length :
      (set : Mask) (answer : ℕ → Spawn) (n nth from : ℕ)
      → let r =
          ia_spread sector_start g vsize separate set
            (spawns answer (at_least_0 (threads_for set n)))
            (record { nth = nth; rotator = set; key_space = from; doers = [] }) in
        r.0 ≡ success → length r.1.doers ≡ at_least_0 (threads_for set n)
  spread-length set answer n nth from ok = (spread-Placed set answer n nth from ok).2

spaces-suffice : (set : Mask) (n : ℕ) → 0 + stride_of set * at_least_0 n ≤ key_nspaces set n
spaces-suffice set n = ground arith

-- If both calls of `ia_spread` in `ia_run` return 0, every reader has the key space 0, and the writers have key spaces from 1 up
-- to the number of key spaces that the generator is set up for, which counts from 0; there are as
-- many writers as asked for, none for a negative number, and the key space reached by the last one is at least their number.
pub run-key_spaces :
    (p : Platform) (conf : IaConfig) (g : Globals) (q : Calls)
    → let r = spread_readers p conf g q in
      let w = spread_writers p conf g q r.1 in
      r.0 ≡ success
      → w.0 ≡ success
      → SpacesIn 0 0 r.1.doers
        × SpacesIn 1 (key_nspaces (set_wr conf.benchmark_list) (wthr p conf)) w.1.doers
        × (length w.1.doers ≡ at_least_0 (wthr p conf))
        × (at_least_0 (wthr p conf) ≤ w.1.key_space)
unfolding spread_readers spread_writers
run-key_spaces p conf g q readers writers =
    let rd = set_rd conf.benchmark_list in
    let wr = set_wr conf.benchmark_list in
    let r = spread_readers p conf g q in
    let w = spread_writers p conf g q r.1 in
    let (masks_r, placed_r, _) =
      spread-Placed p.sector_start g conf.vsize conf.separate rd q.reader conf.rthr 0 0 readers in
    let zero_reached : r.1.key_space ≡ 0 =
      placed_r.is_reached ∙ reads-reached conf.separate conf.benchmark_list r.1.doers 0 masks_r in
    let (masks_w, placed_w, count) =
      spread-Placed p.sector_start g conf.vsize conf.separate wr q.writer conf.wthr r.1.nth
        r.1.key_space writers in
    let (low, _) =
      writes-reached conf.separate conf.benchmark_list w.1.doers r.1.key_space masks_w in
    let inside =
      subst (λ k. SpacesIn (k + 1) (k + stride_of wr * length w.1.doers) w.1.doers) zero_reached
        (writes-SpacesIn conf.separate conf.benchmark_list w.1.doers r.1.key_space masks_w
          placed_w.each) in
    (
      reads-SpacesIn conf.separate conf.benchmark_list r.1.doers 0 masks_r placed_r.each,
      SpacesIn-wider 1 _ _ w.1.doers
          (subst (λ n. 0 + stride_of wr * n ≤ key_nspaces wr (wthr p conf)) (sym count)
            (spaces-suffice wr (wthr p conf)))
          inside,
      count,
      omega (arith, low, count, placed_w.is_reached),
    )
