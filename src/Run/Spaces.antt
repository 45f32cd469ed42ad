-- ===== src/Run/Spaces.antt =====
-- The key spaces that src/ia.c gives to the doers.
use ioarena.Base.{
  ℕ, ◌+◌, ◌*◌, ◌≡◌, refl, sym, ap, ◌∙◌, inl, inr, arith, u64, Bool, true, false, Bool-cases, Option,
  none, some, List, [], ◌∷◌,
}
use mathlib.Core.Path.{subst}
use ioarena.Kv.Fill.{Globals}
use ioarena.Kv.Gen.{KvGen, kvgen_init}
use ioarena.Doer.Driver.{Rc, success, not_found, failure}
use ioarena.Doer.Turn.{minus_one}
use ioarena.Doer.Masks.{Mask, meet, bench_mask_write, bench_mask_2keyspace}
use ioarena.Doer.Init.{Ready, init_with_a, init_with_b, ia_doer_init}
use ioarena.Run.{Spawn, Spread, refill, next_mask, next_space, start_thread, spread_one}

abbrev base_or : Option KvGen → ℕ
base_or none = 0
base_or (some a) = a.base

abbrev ready_or : Ready → Option Ready → Ready
ready_or d none = d
ready_or d (some d') = d'

abbrev gen_or : KvGen → Option KvGen → KvGen
gen_or b none = b
gen_or b (some b') = b'

abbrev head_or : Ready → List Ready → Ready
head_or d [] = d
head_or d (x ∷ xs) = x

abbrev tail_of : List Ready → List Ready
tail_of [] = []
tail_of (x ∷ xs) = xs

module _ (sector_start : ℕ → ℕ → ℕ → ℕ) (g : Globals) (vsize : ℕ) where
  kvgen_init-base :
      (allocated : Bool) (space sequence : ℕ) (a : KvGen)
      → kvgen_init sector_start g allocated space sequence vsize 0 ≡ some a
      → a.base ≡ u64 (space * g.period)
  unfolding kvgen_init
  kvgen_init-base true space sequence a e = sym (ap base_or e)
  kvgen_init-base false space sequence a e = absurd (ground arith)

  -- The generators of a doer with a mask, on a key space and for a benchmark of two also on the next one.
  pub record OnSpace (mask : Mask) (space : ℕ) (d : Ready) : Type 0 where
    is_mask : d.benchmask ≡ mask
    pub placed : d.key_space ≡ space
    first : (d.gen_a).base ≡ u64 (space * g.period)
    second :
        (b : KvGen)
        → d.gen_b ≡ some b
        → (b.base ≡ u64 ((space + 1) * g.period)) × (meet mask bench_mask_2keyspace ≡ true)
    only : d.gen_b ≡ none → meet mask bench_mask_2keyspace ≡ false

  init_with_b-OnSpace :
      (nth : ℕ) (mask : Mask) (space sequence : ℕ) (a : KvGen) (o : Option KvGen) (d : Ready)
      → meet mask bench_mask_2keyspace ≡ true
      → a.base ≡ u64 (space * g.period)
      → ((b : KvGen) → o ≡ some b → b.base ≡ u64 ((space + 1) * g.period))
      → init_with_b sector_start g vsize nth mask space sequence a o ≡ some d
      → OnSpace mask space d
  unfolding init_with_b
  init_with_b-OnSpace nth mask space sequence a none d two base next e = absurd (ground arith)
  init_with_b-OnSpace nth mask space sequence a (some b) d two base next e =
      subst (OnSpace mask space) (ap (ready_or d) e) (record {
        is_mask = refl;
        placed = refl;
        first = base;
        second =
            λ b' same. (sym (ap (λ (x : KvGen). x.base) (ap (gen_or b) same)) ∙ next b refl, two);
        only = λ no_b. absurd (ground arith);
      })

  init_with_a-OnSpace :
      (allocated : Bool) (nth : ℕ) (mask : Mask) (space sequence : ℕ) (o : Option KvGen) (d : Ready)
      → ((a : KvGen) → o ≡ some a → a.base ≡ u64 (space * g.period))
      → init_with_a sector_start g vsize allocated nth mask space sequence o ≡ some d
      → OnSpace mask space d
  unfolding init_with_a
  init_with_a-OnSpace allocated nth mask space sequence none d base e = absurd (ground arith)
  init_with_a-OnSpace allocated nth mask space sequence (some a) d base e =
      elim (Bool-cases (meet mask bench_mask_2keyspace)) [
        | inl two ↦
            init_with_b-OnSpace nth mask space sequence a _ d two (base a refl)
              (λ b same. kvgen_init-base allocated (space + 1) sequence b same)
              (rw (two, init_with_a) at e)
        | inr one ↦
            subst (OnSpace mask space) (ap (ready_or d) (rw (one, init_with_a) at e)) (record {
              is_mask = refl;
              placed = refl;
              first = base a refl;
              second = λ b same. absurd (ground arith);
              only = λ no_b. one;
            })
      ]

  init-OnSpace :
      (allocated_a allocated_b : Bool) (nth : ℕ) (mask : Mask) (space sequence : ℕ) (d : Ready)
      → ia_doer_init sector_start g vsize allocated_a allocated_b nth mask space sequence ≡ some d
      → OnSpace mask space d
  unfolding ia_doer_init
  init-OnSpace allocated_a allocated_b nth mask space sequence d e =
      init_with_a-OnSpace allocated_b nth mask space sequence _ d
        (λ a same. kvgen_init-base allocated_a space sequence a same) e

  module _ (separate : Bool) where
    -- What a round that succeeds has started, and the key space that it has reached.
    pub record Started (before after : Spread) : Type 0 where
      pub doer : Ready
      pub doers : after.doers ≡ doer ∷ before.doers
      pub space : after.key_space ≡ next_space doer.benchmask before.key_space
      pub on : OnSpace doer.benchmask after.key_space doer

    start-Started :
        (before : Spread) (mask : Mask) (rc : Rc) (o : Option Ready) (st : Spread)
        → st.doers ≡ before.doers
        → st.key_space ≡ next_space mask before.key_space
        → ((d : Ready) → o ≡ some d → OnSpace mask st.key_space d)
        → (start_thread sector_start g vsize separate mask rc o st).0 ≡ success
        → Started before (start_thread sector_start g vsize separate mask rc o st).1
    unfolding start_thread
    start-Started before mask rc none st same space on ok = absurd (ground arith)
    start-Started before mask not_found (some d) st same space on ok = absurd (ground arith)
    start-Started before mask (failure code) (some d) st same space on ok = absurd (ground arith)
    start-Started before mask success (some d) st same space on ok =
        let its = on d refl in
        record {
          doer = d;
          doers = ap (λ ds. d ∷ ds) same;
          space = space ∙ ap (λ m. next_space m before.key_space) (sym its.is_mask);
          on = subst (λ m. OnSpace m st.key_space d) (sym its.is_mask) its;
        }

    pub spread_one-Started :
        (set : Mask) (p : Spawn) (st : Spread)
        → (spread_one sector_start g vsize separate set p st).0 ≡ success
        → Started st (spread_one sector_start g vsize separate set p st).1
    unfolding spread_one
    spread_one-Started set p st ok = elim (Bool-cases p.doer_memory) [
      | inr no_memory ↦ absurd (never (rw (no_memory, spread_one) at ok))
      | inl memory ↦
          let mask = next_mask separate (refill set st.rotator) in
          let space = next_space mask st.key_space in
          rw (memory, spread_one)
            (start-Started st mask p.thread_rc _ _ refl refl
              (λ d e.
                init-OnSpace p.gen_a_memory p.gen_b_memory (st.nth + 1) mask space (st.nth + 1) d e)
              (rw (memory, spread_one) at ok))
    ]
      where
        never : minus_one ≡ success → ⊥
        never h = ground arith

    -- Where `ia_spread` starts a doer that needs two key spaces and next a writer that needs one, the
    -- second generator of the former and the first of the latter go over the same key space: they
    -- start from the same number.
    pub spread-shares_space :
        (set : Mask) (p q : Spawn) (st : Spread) (d1 d2 : Ready) (b : KvGen)
        → let r1 = spread_one sector_start g vsize separate set p st in
          let r2 = spread_one sector_start g vsize separate set q r1.1 in
          r1.0 ≡ success
          → r2.0 ≡ success
          → r2.1.doers ≡ d2 ∷ d1 ∷ st.doers
          → d1.gen_b ≡ some b
          → d2.gen_b ≡ none
          → meet d2.benchmask bench_mask_write ≡ true
          → (d2.gen_a).base ≡ b.base
    spread-shares_space set p q st d1 d2 b ok1 ok2 doers two one writes =
        let s1 = spread_one-Started set p st ok1 in
        let s2 =
          spread_one-Started set q (spread_one sector_start g vsize separate set p st).1 ok2 in
        let both : d2 ∷ d1 ∷ st.doers ≡ s2.doer ∷ s1.doer ∷ st.doers =
          sym doers ∙ s2.doers ∙ ap (λ ds. s2.doer ∷ ds) s1.doers in
        let its2 : d2 ≡ s2.doer = ap (head_or d2) both in
        let its1 : d1 ≡ s1.doer = ap (λ ds. head_or d1 (tail_of ds)) both in
        let (next, _) = s1.on.second b (ap (λ (d : Ready). d.gen_b) (sym its1) ∙ two) in
        let alone = s2.on.only (ap (λ (d : Ready). d.gen_b) (sym its2) ∙ one) in
        let does = ap (λ (d : Ready). meet d.benchmask bench_mask_write) (sym its2) ∙ writes in
        ap (λ (d : Ready). (d.gen_a).base) its2
        ∙ s2.on.first
        ∙ ap (λ n. u64 (n * g.period)) (s2.space ∙ rw (does, alone) refl)
        ∙ sym next
