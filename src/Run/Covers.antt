-- ===== src/Run/Covers.antt =====
-- Every benchmark that is asked for runs: src/ia.c gives it to a doer, or leaves it to the main thread.
use ioarena.Base.{
  ℕ, ◌+◌, ◌≡◌, ◌≢◌, ◌⊎◌, inl, inr, refl, sym, ap, ◌∙◌, arith, Bool, true, false, Bool-cases, ◌||◌,
  Option, none, some, List, [], ◌∷◌,
}
use mathlib.Core.Path.{subst}
use ioarena.Bench.{Benchmark}
use ioarena.Kv.Fill.{Globals}
use ioarena.Kv.Gen.{KvGen}
use ioarena.Doer.Driver.{Rc, success, not_found, failure, and_then}
use ioarena.Doer.Masks.{Mask, all_benchmarks, some_bit, bit_of, without}
use ioarena.Doer.Init.{Ready, init_with_a, init_with_b, ia_doer_init}
use ioarena.Run.{
  Spawn, Spread, first_bit, refill, next_mask, next_space, start_thread, spread_one, ia_spread,
}
use ioarena.Doer.Turn.{minus_one}

abbrev pub given : List Ready → Mask
given [] b = false
given (d ∷ ds) b = d.benchmask b || given ds b

-- The masks of doers: they ask only for benchmarks of the set, and for at least one.
abbrev pub MaskOf : (separate : Bool) (set mask : Mask) → Type 0
MaskOf separate set mask =
    ((b : Benchmark) × (mask b ≡ true))
    × ((b : Benchmark) → mask b ≡ true → set b ≡ true)
    × (separate ≡ true → (b c : Benchmark) → mask b ≡ true → mask c ≡ true → b ≡ c)

abbrev pub MasksOf : (separate : Bool) (set : Mask) → List Ready → Type 0
MasksOf separate set [] = Unit
MasksOf separate set (d ∷ ds) = MaskOf separate set d.benchmask × MasksOf separate set ds

-- What holds between the rounds of `ia_spread`.
record Spreads (separate : Bool) (set : Mask) (st : Spread) : Type 0 where
  covered : (b : Benchmark) → set b ≡ true → (st.rotator b ≡ true) ⊎ (given st.doers b ≡ true)
  within : (b : Benchmark) → st.rotator b ≡ true → set b ≡ true
  masks : MasksOf separate set st.doers

abbrev AllOff : List Benchmark → Mask → Type 0
AllOff [] r = Unit
AllOff (b ∷ bs) r = (r b ≡ false) × AllOff bs r

first_bit-cases :
    (bs : List Benchmark) (r : Mask)
    → ((b : Benchmark) × (r b ≡ true) × ((c : Benchmark) → first_bit bs r c ≡ bit_of b c))
      ⊎ AllOff bs r
first_bit-cases [] r = inr tt
first_bit-cases (b ∷ bs) r = elim (Bool-cases (r b)) [
  | inl on ↦ inl (b, on, λ c. rw on refl)
  | inr off ↦ elim (first_bit-cases bs r) [
    | inl found ↦ inl (found.0, found.1, λ c. rw off (found.2 c))
    | inr rest ↦ inr (off, rest)
  ]
]

bit_of_self : (b : Benchmark) → bit_of b b ≡ true
unfolding bit_of
bit_of_self b = ground arith

bit_of_only : (b c : Benchmark) → bit_of b c ≡ true → b ≡ c
unfolding bit_of
bit_of_only b c h = ground arith

some_bit-off : (r : Mask) → some_bit r ≡ true → AllOff all_benchmarks r → ⊥
some_bit-off r h off = ground arith

some_bit-of : (r : Mask) → some_bit r ≡ true → (b : Benchmark) × (r b ≡ true)
some_bit-of r h = elim (first_bit-cases all_benchmarks r) [
  | inl found ↦ (found.0, found.1)
  | inr off ↦ absurd (some_bit-off r h off)
]

next_mask-MaskOf :
    (separate : Bool) (r : Mask) → some_bit r ≡ true → MaskOf separate r (next_mask separate r)
next_mask-MaskOf false r h = (some_bit-of r h, λ b on. on, λ apart. absurd (ground arith))
next_mask-MaskOf true r h = elim (first_bit-cases all_benchmarks r) [
  | inl found ↦
      let (b, on, same) = found in
      let only : (c : Benchmark) → first_bit all_benchmarks r c ≡ true → b ≡ c =
        λ c h. bit_of_only b c (sym (same c) ∙ h) in
      (
        (b, same b ∙ bit_of_self b),
        λ c h. ap r (sym (only c h)) ∙ on,
        λ apart c c' h h'. sym (only c h) ∙ only c' h',
      )
  | inr off ↦ absurd (some_bit-off r h off)
]

-- A property of either outcome of a test, given the claim that it is a success.
pub and_then-success :
    {A : Type 0} (P Q : A → Type 0) (rc : Rc) (a : A) (f : Rc → A)
    → (rc ≡ success → Q a → P a)
    → ((r : Rc) → r ≢ success → Q (f r) → P (f r))
    → Q (and_then rc a f)
    → P (and_then rc a f)
and_then-success P Q success a f ok other = ok refl
and_then-success P Q not_found a f ok other = other not_found (ground arith)
and_then-success P Q (failure code) a f ok other = other (failure code) (ground arith)

module _ (sector_start : ℕ → ℕ → ℕ → ℕ) (g : Globals) (vsize : ℕ) where
  init_with_a-mask :
      (allocated : Bool) (nth : ℕ) (mask : Mask) (space sequence : ℕ) (a : Option KvGen) (d : Ready)
      → init_with_a sector_start g vsize allocated nth mask space sequence a ≡ some d
      → d.benchmask ≡ mask
  unfolding init_with_a init_with_b
  init_with_a-mask allocated nth mask space sequence a d e = ground arith

  pub init-mask :
      (allocated_a allocated_b : Bool) (nth : ℕ) (mask : Mask) (space sequence : ℕ) (d : Ready)
      → ia_doer_init sector_start g vsize allocated_a allocated_b nth mask space sequence ≡ some d
      → d.benchmask ≡ mask
  unfolding ia_doer_init
  init-mask allocated_a allocated_b nth mask space sequence d e =
      init_with_a-mask allocated_b nth mask space sequence _ d e

  module _ (separate : Bool) where
    start-Spreads :
        (set mask : Mask) (rc : Rc) (o : Option Ready) (st : Spread)
        → MaskOf separate st.rotator mask
        → ((d : Ready) → o ≡ some d → d.benchmask ≡ mask)
        → Spreads separate set st
        → (start_thread sector_start g vsize separate mask rc o st).0 ≡ success
        → Spreads separate set (start_thread sector_start g vsize separate mask rc o st).1
    unfolding start_thread
    start-Spreads set mask rc none st of same inv ok = absurd (ground arith)
    start-Spreads set mask not_found (some d) st of same inv ok = absurd (ground arith)
    start-Spreads set mask (failure code) (some d) st of same inv ok = absurd (ground arith)
    start-Spreads set mask success (some d) st of same inv ok =
        let its : d.benchmask ≡ mask = same d refl in
        record {
          covered = λ b asked. elim (inv.covered b asked) [
            | inr before ↦ inr (either (d.benchmask b) (given st.doers b) before)
            | inl left ↦ elim (Bool-cases (mask b)) [
              | inl on ↦
                  inr (ap (λ m. m b || given st.doers b) its ∙ first (mask b) (given st.doers b) on)
              | inr off ↦ inl (remains st.rotator mask b left off)
            ]
          ];
          within = λ b h. inv.within b (stays st.rotator mask b h);
          masks = (
            subst (MaskOf separate set) (sym its) (of.0, λ b on. inv.within b (of.1 b on), of.2),
            inv.masks,
          );
        }
      where
        either : (p q : Bool) → q ≡ true → (p || q) ≡ true
        either p q h = ground arith

        first : (p q : Bool) → p ≡ true → (p || q) ≡ true
        first p q h = ground arith

        remains : (r m : Mask) (b : Benchmark) → r b ≡ true → m b ≡ false → without r m b ≡ true
        remains r m b left off = rw (off, without) left

        stays : (r m : Mask) (b : Benchmark) → without r m b ≡ true → r b ≡ true
        stays r m b h = ground arith

    refill-Spreads :
        (set : Mask) (st : Spread) (nth key_space : ℕ)
        → some_bit set ≡ true
        → Spreads separate set st
        → Spreads separate set (record {
          nth = nth;
          rotator = refill set st.rotator;
          key_space = key_space;
          doers = st.doers;
        })
          × (some_bit (refill set st.rotator) ≡ true)
    refill-Spreads set st nth key_space asked inv = elim (Bool-cases (some_bit st.rotator)) [
      | inl more ↦ (
        record {
          covered = λ b s. rw more (inv.covered b s);
          within = λ b h. inv.within b (rw more at h);
          masks = inv.masks;
        },
        rw more more,
      )
      | inr spent ↦ (
        record {
          covered = λ b s. inl (rw spent s);
          within = λ b h. (rw spent at h);
          masks = inv.masks;
        },
        rw spent asked,
      )
    ]

    spread_one-Spreads :
        (set : Mask) (p : Spawn) (st : Spread)
        → some_bit set ≡ true
        → Spreads separate set st
        → (spread_one sector_start g vsize separate set p st).0 ≡ success
        → Spreads separate set (spread_one sector_start g vsize separate set p st).1
    unfolding spread_one
    spread_one-Spreads set p st asked inv ok = elim (Bool-cases p.doer_memory) [
      | inr no_memory ↦ absurd (never (rw (no_memory, spread_one) at ok))
      | inl memory ↦
          let rotator = refill set st.rotator in
          let mask = next_mask separate rotator in
          let space = next_space mask st.key_space in
          let (filled, bits) = refill-Spreads set st (st.nth + 1) space asked inv in
          rw (memory, spread_one)
            (start-Spreads set mask p.thread_rc _ _ (next_mask-MaskOf separate rotator bits)
              (λ d e.
                init-mask p.gen_a_memory p.gen_b_memory (st.nth + 1) mask space (st.nth + 1) d e)
              filled (rw (memory, spread_one) at ok))
    ]
      where
        never : minus_one ≡ success → ⊥
        never h = ground arith

    ia_spread-Spreads :
        (set : Mask) (ps : List Spawn) (st : Spread)
        → some_bit set ≡ true
        → Spreads separate set st
        → (ia_spread sector_start g vsize separate set ps st).0 ≡ success
        → Spreads separate set (ia_spread sector_start g vsize separate set ps st).1
    unfolding ia_spread
    ia_spread-Spreads set [] st asked inv ok = inv
    ia_spread-Spreads set (p ∷ ps) st asked inv ok =
        let r = spread_one sector_start g vsize separate set p st in
        and_then-success (λ (q : Rc × Spread). Spreads separate set q.1)
          (λ (q : Rc × Spread). q.0 ≡ success) r.0 _ _
          (λ one rest.
            ia_spread-Spreads set ps r.1 asked (spread_one-Spreads set p st asked inv one) rest)
          (λ rc one ends. absurd (one ends)) ok

    -- From no doers on, if `ia_spread` returns 0: every benchmark of the set has been given to some doer or is left
    -- in the rotator, which the main thread runs; each doer has at least one benchmark and none
    -- outside the set, and with `separate` exactly one.
    pub spread-covers :
        (set : Mask) (ps : List Spawn) (nth key_space : ℕ)
        → some_bit set ≡ true
        → let r =
            ia_spread sector_start g vsize separate set ps
              (record { nth = nth; rotator = set; key_space = key_space; doers = [] }) in
          r.0 ≡ success
          → ((b : Benchmark) → set b ≡ true → (r.1.rotator b ≡ true) ⊎ (given r.1.doers b ≡ true))
            × ((b : Benchmark) → r.1.rotator b ≡ true → set b ≡ true)
            × MasksOf separate set r.1.doers
    spread-covers set ps nth key_space asked ok =
        let s =
          ia_spread-Spreads set ps _ asked
            (record { covered = λ b h. inl h; within = λ b h. h; masks = tt }) ok in
        (s.covered, s.within, s.masks)
