-- ===== src/Run.antt =====
-- src/ia.c: which doers run which benchmarks, on which key spaces.
pub mod Covers
pub mod Spaces
pub mod Control
mod Tests
use ioarena.Base.{
  ℕ, zero, suc, ◌+◌, Bool, true, false, Option, none, some, List, [], ◌∷◌, if◌then◌else◌,
}
use ioarena.Bench.{Benchmark}
use ioarena.Kv.Fill.{Globals}
use ioarena.Doer.Driver.{Rc, success, failure, and_then}
use ioarena.Doer.Turn.{minus_one}
use ioarena.Doer.Masks.{
  Mask, all_benchmarks, bench_mask_write, bench_mask_2keyspace, meet, some_bit, bit_of, without,
}
use ioarena.Doer.Init.{Ready, ia_doer_init}

-- What the calls for one doer answer: whether there is memory for it and for its generators, and what
-- pthread_create returns.
pub record Spawn : Type 0 where
  pub doer_memory : Bool
  pub gen_a_memory : Bool
  pub gen_b_memory : Bool
  pub thread_rc : Rc

-- `*nth`, `*rotator`, `*key_space`, and the doers whose threads have been started, the last one first.
pub record Spread : Type 0 where
  pub nth : ℕ
  pub rotator : Mask
  pub key_space : ℕ
  pub doers : List Ready

-- The first benchmark of a set, as `order` goes from IA_SET on.
abbrev pub first_bit : List Benchmark → Mask → Mask
first_bit [] r c = false
first_bit (b ∷ bs) r c = let rest = first_bit bs r c in if r b then bit_of b c else rest

-- if (*rotator == 0) *rotator = set;
abbrev pub refill : (set rotator : Mask) → Mask
refill set rotator = if some_bit rotator then rotator else set

-- long mask = *rotator, or only one of its benchmarks if they are to be separate.
abbrev pub next_mask : (separate : Bool) → Mask → Mask
next_mask true rotator = first_bit all_benchmarks rotator
next_mask false rotator = rotator

-- if (mask & bench_mask_write) { *key_space += 1; ... }
abbrev pub next_space : Mask → ℕ → ℕ
next_space mask key_space =
    if meet mask bench_mask_write
    then (if meet mask bench_mask_2keyspace then key_space + 1 + 1 else key_space + 1)
    else key_space

module _ (sector_start : ℕ → ℕ → ℕ → ℕ) (g : Globals) (vsize : ℕ) (separate : Bool) where
  -- What follows `ia_doer_init`, and pthread_create: the code that `ia_spread` returns, if it does.
  unfoldable pub start_thread : Mask → Rc → Option Ready → Spread → Rc × Spread
  start_thread mask rc none st = (minus_one, st)
  start_thread mask (failure code) (some d) st = (failure code, st)
  start_thread mask Rc.not_found (some d) st = (Rc.not_found, st)
  start_thread mask success (some d) st =
      (success, record st { rotator = without st.rotator mask; doers = d ∷ st.doers })

  -- One round of the loop.
  unfoldable pub spread_one : (set : Mask) → Spawn → Spread → Rc × Spread
  spread_one set p st =
      let rotator = refill set st.rotator in
      let mask = next_mask separate rotator in
      let key_space = next_space mask st.key_space in
      let d =
        ia_doer_init sector_start g vsize p.gen_a_memory p.gen_b_memory (st.nth + 1) mask key_space
          (st.nth + 1) in
      if p.doer_memory
      then start_thread mask p.thread_rc d
          (record { nth = st.nth + 1; rotator = rotator; key_space = key_space; doers = st.doers })
      else (minus_one, st)

  -- `ia_spread`, with what the calls for each of its `count` doers answer.
  unfoldable pub ia_spread : (set : Mask) → List Spawn → Spread → Rc × Spread
  ia_spread set [] st = (success, st)
  ia_spread set (p ∷ ps) st =
      let r = spread_one set p st in and_then r.0 (ia_spread set ps r.1) (λ rc. (rc, r.1))
