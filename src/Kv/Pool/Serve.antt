-- ===== src/Kv/Pool/Serve.antt =====
-- A pool serves the pairs that the generator would have given one by one.
use ioarena.Base.{
  ℕ, zero, suc, ◌+◌, ◌/◌, ◌≤◌, ◌<◌, ◌≡◌, inl, inr, Bool, refl, ap, ◌∙◌, true, false, Option, none,
  some, List, [], ◌∷◌, ◌++◌, length, take, drop, arith, ◌*◌, ◌^◌, sym, ◌==◌, ==_iff, u32,
  if◌then◌else◌, ltb, u64, lt→ltb, length-append, take-append_le, drop-append_le, length-drop,
  drop_all, ◌||◌,
}
use native.Mathlib.Nat.{mod-eq_of_lt}
use ioarena.Kv.Fill.{Globals, kvpair_bytes, stride, Run, done, overflow, ◌>>=◌}
use ioarena.Kv.Fill.Length.{IsFillable, kv_pair_returns, size-le-stride}
use ioarena.Kv.Gen.{IaKv, KvGen, advance, kvgen_get}
use ioarena.Kv.Mix.Injective.{IsWidth}
use ioarena.Kv.Pool.{KvPool, fill_pool, int_max, pool_bytes, kvpool_init, kvpool_pull}

-- n calls of `ia_kvgen_get` with the value wanted.
pub gets : Globals → ℕ → KvGen → Run (List IaKv × KvGen)
gets g zero gen = done ([], gen)
gets g (suc n) gen =
    kvgen_get g gen false >>= λ r. gets g n r.1 >>= λ others. done (r.0 ∷ others.0, others.1)

-- n calls of `ia_kvpool_pull`, all of which must succeed.
pub pulls : Globals → ℕ → KvPool → Option (List IaKv × KvPool)
pulls g zero pool = some ([], pool)
pulls g (suc n) pool = elim (kvpool_pull g pool) [
  | none ↦ none
  | some r ↦ elim (pulls g n r.1) [ none ↦ none | some others ↦ some (r.0 ∷ others.0, others.1) ]
]

-- The sizes for which `kv_pair` returns.
pub record IsServable (g : Globals) (vsize : ℕ) : Type 0 where
  pub width : IsWidth g.width
  pub key : IsFillable g g.ksize
  pub value : IsFillable g vsize

abbrev kv_of : Globals → ℕ → List ℕ → IaKv
kv_of g vsize buf = record {
  ksize = g.ksize;
  vsize = vsize;
  k = take g.ksize buf;
  v = some (take vsize (drop (stride g g.ksize) buf));
}

-- The generator gives a pair, or a key alone, and goes on to the next.
pub kvgen_get_returns :
    (g : Globals) (gen : KvGen) (key_only : Bool)
    → IsServable g gen.vsize
    → (kv : IaKv) × (kvgen_get g gen key_only ≡ done (kv, advance g gen))
unfolding kvgen_get
kvgen_get_returns g gen true s =
    let (pair, e, _) =
      kv_pair_returns g 0 gen.vage (u64 (gen.base + gen.serial)) s.width s.key (inl refl) in
    (record { ksize = g.ksize; vsize = 0; k = take g.ksize pair; v = none }, rw e refl)
kvgen_get_returns g gen false s =
    let (pair, e, _) =
      kv_pair_returns g gen.vsize gen.vage (u64 (gen.base + gen.serial)) s.width s.key
        (inr s.value) in
    (kv_of g gen.vsize pair, rw e refl)

abbrev pool_of : Globals → ℕ → List ℕ → KvPool
pool_of g vsize rest = record { pair_bytes = kvpair_bytes g vsize; vsize = vsize; rest = rest }

kvpair_bytes-eq-strides :
    (g : Globals) (vsize : ℕ) → 0 < vsize → kvpair_bytes g vsize ≡ stride g g.ksize + stride g vsize
unfolding kvpair_bytes stride
kvpair_bytes-eq-strides g vsize h = ground arith

-- A pull takes one pair off the front.
kvpool_pull-pair :
    (g : Globals) (vsize : ℕ) (pair others : List ℕ)
    → 0 < vsize
    → length pair ≡ kvpair_bytes g vsize
    → kvpool_pull g (pool_of g vsize (pair ++ others))
      ≡ some (kv_of g vsize pair, pool_of g vsize others)
unfolding kvpool_pull
kvpool_pull-pair g vsize pair others h l =
    rw (enough, wanted, key, behind)
      (rw (take-append_le vsize (drop (stride g g.ksize) pair) others value_fits, rest) refl)
  where
    size : length pair ≡ stride g g.ksize + stride g vsize
    size = l ∙ kvpair_bytes-eq-strides g vsize h

    enough : ltb (length (pair ++ others)) (kvpair_bytes g vsize) ≡ false
    enough = ground (arith, length-append pair others)

    wanted : ltb 0 vsize ≡ true
    wanted = lt→ltb 0 vsize h

    key : take g.ksize (pair ++ others) ≡ take g.ksize pair
    key = take-append_le g.ksize pair others (omega (arith, size, size-le-stride g g.ksize))

    behind : drop (stride g g.ksize) (pair ++ others) ≡ drop (stride g g.ksize) pair ++ others
    behind = drop-append_le (stride g g.ksize) pair others (omega (arith, size))

    value_size : length (drop (stride g g.ksize) pair) ≡ stride g vsize
    value_size = omega (arith, length-drop (stride g g.ksize) pair, size)

    value_fits : vsize ≤ length (drop (stride g g.ksize) pair)
    value_fits = omega (arith, value_size, size-le-stride g vsize)

    rest : drop (stride g vsize) (drop (stride g g.ksize) pair ++ others) ≡ others
    rest =
        drop-append_le (stride g vsize) (drop (stride g g.ksize) pair) others
          (omega (arith, value_size))
        ∙ ap (λ t. t ++ others) (drop_all (stride g vsize) _ value_size)

-- The bytes of n pairs, the generator's last state, and what n calls of either kind give.
record Served (g : Globals) (n : ℕ) (gen : KvGen) : Type 0 where
  bytes : List ℕ
  gen' : KvGen
  kvs : List IaKv
  filled : fill_pool g n gen ≡ done (bytes, gen')
  size : length bytes ≡ kvpair_bytes g gen.vsize * n
  got : gets g n gen ≡ done (kvs, gen')
  pulled : pulls g n (pool_of g gen.vsize bytes) ≡ some (kvs, pool_of g gen.vsize [])

mul-succ' : (m n : ℕ) → m * suc n ≡ m + m * n
mul-succ' m n = grind arith

serve : (g : Globals) (n : ℕ) (gen : KvGen) → IsServable g gen.vsize → Served g n gen
unfolding fill_pool gets pulls kvgen_get
serve g zero gen s = record {
  bytes = [];
  gen' = gen;
  kvs = [];
  filled = refl;
  size = omega arith;
  got = refl;
  pulled = refl;
}
serve g (suc n) gen s =
    let (pair, e, l) =
      kv_pair_returns g gen.vsize gen.vage (u64 (gen.base + gen.serial)) s.width s.key
        (inr s.value) in
    let later = serve g n (advance g gen) s in
    record {
      bytes = pair ++ later.bytes;
      gen' = later.gen';
      kvs = kv_of g gen.vsize pair ∷ later.kvs;
      filled = rw (e, later.filled) refl;
      size =
          length-append pair later.bytes
          ∙ omega (arith, l, later.size, mul-succ' (kvpair_bytes g gen.vsize) n);
      got = rw (e, later.got) refl;
      pulled =
          rw (kvpool_pull-pair g gen.vsize pair later.bytes s.value.positive l, pulls)
            (rw later.pulled refl);
    }

module _ (g : Globals) (n : ℕ) (gen : KvGen) (s : IsServable g gen.vsize) where
  -- What `ia_kvpool_init` does after its tests.
  kvpool_init-filled :
      1 ≤ n
      → n ≤ int_max / 2
      → kvpool_init g true gen n ≡ (
          if kvpair_bytes g gen.vsize * n == pool_bytes gen n
          then done (
              some (
                record {
                  pair_bytes = gen.pair_bytes;
                  vsize = gen.vsize;
                  rest = (serve g n gen s).bytes;
                },
                (serve g n gen s).gen',
              ))
          else overflow)
  unfolding kvpool_init
  kvpool_init-filled low high =
      let d = serve g n gen s in
      rw (in_range, d.filled)
        (ap
          (λ b.
            if b == pool_bytes gen n
            then done (
                some (
                  record { pair_bytes = gen.pair_bytes; vsize = gen.vsize; rest = d.bytes },
                  d.gen',
                ))
            else overflow)
          d.size)
    where
      in_range : (ltb n 1 || ltb (int_max / 2) n) ≡ false
      in_range = ground arith

  -- The sizes are those of the pairs where the product fits 32 bits.
  sizes_fit :
      gen.pair_bytes ≡ u32 (kvpair_bytes g gen.vsize)
      → 1 ≤ n
      → kvpair_bytes g gen.vsize * n < 2 ^ 32
      → (gen.pair_bytes ≡ kvpair_bytes g gen.vsize)
        × ((kvpair_bytes g gen.vsize * n == pool_bytes gen n) ≡ true)
  sizes_fit size low fits =
      let whole : gen.pair_bytes ≡ kvpair_bytes g gen.vsize =
        size ∙ mod-eq_of_lt (le_lt_trans (kvpair_bytes g gen.vsize) n low fits) in
      (whole, (==_iff _ _).1 (sym (ap (λ b. u32 (b * n)) whole ∙ mod-eq_of_lt fits)))
    where
      le_lt_trans : (b m : ℕ) → 1 ≤ m → b * m < 2 ^ 32 → b < 2 ^ 32
      le_lt_trans b m l f = grind arith

  -- Where the memory is there, the pool's size in range and the sizes those that the generator can fill,
  -- and the bytes of n pairs are fewer than 2^32: `ia_kvpool_init` makes a pool from which n pulls give
  -- the pairs that n calls of `ia_kvgen_get` give from the same generator, both leave the generator in
  -- the same state, and the next pull fails.
  pub kvpool_serves :
      gen.pair_bytes ≡ u32 (kvpair_bytes g gen.vsize)
      → 1 ≤ n
      → n ≤ int_max / 2
      → kvpair_bytes g gen.vsize * n < 2 ^ 32
      → (pool pool' : KvPool) × (gen' : KvGen) × (kvs : List IaKv) × (kvpool_init g true gen n
          ≡ done (some (pool, gen')))
        × (gets g n gen ≡ done (kvs, gen'))
        × (pulls g n pool ≡ some (kvs, pool'))
        × (kvpool_pull g pool' ≡ none)
  kvpool_serves size low high fits =
      let d = serve g n gen s in
      let (whole, even) = sizes_fit size low fits in
      (
        pool_of g gen.vsize d.bytes,
        pool_of g gen.vsize [],
        d.gen',
        d.kvs,
        kvpool_init-filled low high
            ∙ rw even (
                ap
                  (λ b.
                    done
                      (some (record { pair_bytes = b; vsize = gen.vsize; rest = d.bytes }, d.gen')))
                  whole),
        d.got,
        d.pulled,
        empty,
      )
    where
      empty : kvpool_pull g (pool_of g gen.vsize []) ≡ none
      empty =
          let some_bytes : ltb 0 (kvpair_bytes g gen.vsize) ≡ true =
            lt→ltb 0 (kvpair_bytes g gen.vsize) (
              omega (
                arith,
                kvpair_bytes-eq-strides g gen.vsize s.value.positive,
                size-le-stride g gen.vsize,
                s.value.positive,
              )) in
          unfold kvpool_pull in rw some_bytes refl

  -- Where the memory is there, the pool's size in range and the sizes those that the generator can fill,
  -- but the bytes of n pairs are 2^32 or more: `ia_kvpool_init` writes behind the memory that it has
  -- asked for.
  pub kvpool_init-overflows :
      1 ≤ n
      → n ≤ int_max / 2
      → 2 ^ 32 ≤ kvpair_bytes g gen.vsize * n
      → (kvpool_init g true gen n ≡ overflow)
        × ((bytes : List ℕ) × (gen' : KvGen) × (fill_pool g n gen ≡ done (bytes, gen'))
            × (pool_bytes gen n < length bytes))
  kvpool_init-overflows low high large =
      let d = serve g n gen s in
      (
        kvpool_init-filled low high ∙ rw uneven refl,
        (d.bytes, d.gen', d.filled, omega (arith, few, d.size)),
      )
    where
      few : pool_bytes gen n < 2 ^ 32
      few = omega arith

      uneven : (kvpair_bytes g gen.vsize * n == pool_bytes gen n) ≡ false
      uneven = ground (arith, few, large)
