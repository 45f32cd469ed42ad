-- ===== src/Kv/Pool.antt =====
-- The pool of pairs of src/ia_kv.c: `struct ia_kvpool`, `ia_kvpool_init` and `ia_kvpool_pull`.
pub mod Serve
use ioarena.Base.{
  ℕ, zero, suc, ◌+◌, ◌/◌, ◌^◌, ◌-◌, Bool, Option, none, some, List, [], ◌++◌, length, take, drop,
  u32, u64, ◌*◌, ◌==◌, if◌then◌else◌, ltb, ◌||◌, not,
}
use ioarena.Kv.Fill.{Globals, stride, Run, done, overflow, ◌>>=◌, kv_pair}
use ioarena.Kv.Gen.{IaKv, KvGen, advance}

-- `struct ia_kvpool`: the fields of `pool->gen` that a pull reads, and the bytes from `pos` to `end`.
pub record KvPool : Type 0 where
  pub pair_bytes : ℕ
  pub vsize : ℕ
  pub rest : List ℕ

-- for (i = 0; i < pool_size; ++i), with the bytes written and the generator's last state
pub fill_pool : Globals → (rounds : ℕ) → KvGen → Run (List ℕ × KvGen)
fill_pool g zero gen = done ([], gen)
fill_pool g (suc rounds) gen =
    kv_pair g gen.vsize gen.vage (u64 (gen.base + gen.serial)) >>= λ pair.
    fill_pool g rounds (advance g gen) >>= λ others. done (pair ++ others.0, others.1)

abbrev pub int_max : ℕ
int_max = 2 ^ 31 - 1

-- The bytes that `ia_kvpool_init` asks for: a product of unsigned numbers.
abbrev pub pool_bytes : KvGen → (pool_size : ℕ) → ℕ
pool_bytes gen pool_size = u32 (gen.pair_bytes * pool_size)

-- `ia_kvpool_init` with a `pool_size` that is not negative: `none` is -1. It overflows where the pairs do
-- not fill the bytes that it asks for, as it asserts that they do.
pub kvpool_init :
    Globals → (allocated : Bool) → KvGen → (pool_size : ℕ) → Run (Option (KvPool × KvGen))
kvpool_init g allocated gen pool_size =
    if ltb pool_size 1 || ltb (int_max / 2) pool_size
    then done none
    else if not allocated
    then done none
    else fill_pool g pool_size gen >>= λ filled.
        if length filled.0 == pool_bytes gen pool_size
        then done (
            some (
              record { pair_bytes = gen.pair_bytes; vsize = gen.vsize; rest = filled.0 },
              filled.1,
            ))
        else overflow

-- `ia_kvpool_pull`: `none` is -1.
pub kvpool_pull : Globals → KvPool → Option (IaKv × KvPool)
kvpool_pull g pool =
    if ltb (length pool.rest) pool.pair_bytes
    then none
    else let behind_key = drop (stride g g.ksize) pool.rest in
      let has_value = ltb 0 pool.vsize in
      some (
        record {
          ksize = g.ksize;
          vsize = pool.vsize;
          k = take g.ksize pool.rest;
          v = if has_value then some (take pool.vsize behind_key) else none;
        },
        record pool {
          rest = if has_value then drop (stride g pool.vsize) behind_key else behind_key;
        },
      )
