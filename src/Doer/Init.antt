-- ===== src/Doer/Init.antt =====
-- `ia_doer_init` of src/ia_benchmark.c, but for the histogram and the count of doers.
use ioarena.Base.{ℕ, ◌+◌, Bool, Option, none, some, if◌then◌else◌}
use ioarena.Kv.Fill.{Globals}
use ioarena.Kv.Gen.{KvGen, kvgen_init}
use ioarena.Doer.Masks.{Mask, meet, bench_mask_2keyspace}

-- `struct iadoer` as it is set up; `none` of `gen_b` is NULL.
pub record Ready : Type 0 where
  pub nth : ℕ
  pub benchmask : Mask
  pub key_space : ℕ
  pub key_sequence : ℕ
  pub gen_a : KvGen
  pub gen_b : Option KvGen

module _ (sector_start : ℕ → ℕ → ℕ → ℕ) (g : Globals) (vsize : ℕ) where
  -- Once `gen_a` has been asked for, and once `gen_b` has.
  unfoldable pub init_with_b :
      (nth : ℕ) → Mask → (key_space key_sequence : ℕ) → KvGen → Option KvGen → Option Ready
  init_with_b nth mask key_space key_sequence a none = none
  init_with_b nth mask key_space key_sequence a (some b) = some (record {
    nth = nth;
    benchmask = mask;
    key_space = key_space;
    key_sequence = key_sequence;
    gen_a = a;
    gen_b = some b;
  })

  unfoldable pub init_with_a :
      (allocated : Bool) (nth : ℕ)
      → Mask
      → (key_space key_sequence : ℕ) → Option KvGen
      → Option Ready
  init_with_a allocated nth mask key_space key_sequence none = none
  init_with_a allocated nth mask key_space key_sequence (some a) =
      if meet mask bench_mask_2keyspace
      then init_with_b nth mask key_space key_sequence a
          (kvgen_init sector_start g allocated (key_space + 1) key_sequence vsize 0)
      else some (record {
        nth = nth;
        benchmask = mask;
        key_space = key_space;
        key_sequence = key_sequence;
        gen_a = a;
        gen_b = none;
      })

  -- `none` is -1; the mask is not empty.
  unfoldable pub ia_doer_init :
      (allocated_a allocated_b : Bool) (nth : ℕ)
      → Mask
      → (key_space key_sequence : ℕ) → Option Ready
  ia_doer_init allocated_a allocated_b nth mask key_space key_sequence =
      init_with_a allocated_b nth mask key_space key_sequence
        (kvgen_init sector_start g allocated_a key_space key_sequence vsize 0)
