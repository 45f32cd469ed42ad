-- ===== src/Run/Tests.antt =====
-- Runs of the model of src/ia.c, and its theorems at concrete inputs.
use ioarena.Base.{ℕ, ◌≡◌, refl, true, false, none, some, [], ◌∷◌, replicate}
use ioarena.Bench.{Benchmark}
use ioarena.Kv.Sbox.{sbox_size}
use ioarena.Kv.Fill.{Globals, kvpair_bytes}
use ioarena.Kv.Gen.{KvGen, kvgen_init}
use ioarena.Doer.Driver.{success}
use ioarena.Doer.Masks.{Mask, bit_of, meet, bench_mask_write}
use ioarena.Doer.Init.{Ready, init_with_a, init_with_b, ia_doer_init}
use ioarena.Run.{Spawn, Spread, start_thread, spread_one, ia_spread}
use ioarena.Run.Spaces.{spread-shares_space}

abbrev globals : Globals
globals = record {
  printable = true;
  ksize = 16;
  width = 4;
  nsectors = 1;
  period = 1000;
  sbox = replicate sbox_size 0;
}

abbrev no_sectors : ℕ → ℕ → ℕ → ℕ
no_sectors period sector sectors = 0

-- crud and delete
abbrev asked : Mask
asked Benchmark.ia_crud = true
asked Benchmark.ia_delete = true
asked Benchmark.ia_set = false
asked Benchmark.ia_batch = false
asked Benchmark.ia_iterate = false
asked Benchmark.ia_get = false

abbrev good : Spawn
good = record { doer_memory = true; gen_a_memory = true; gen_b_memory = true; thread_rc = success }

abbrev begun : Spread
begun = record { nth = 0; rotator = asked; key_space = 0; doers = [] }

abbrev one : Spread
one = (spread_one no_sectors globals 32 true asked good begun).1

abbrev two : Spread
two = (spread_one no_sectors globals 32 true asked good one).1

abbrev both : Spread
both = (ia_spread no_sectors globals 32 true asked (good ∷ good ∷ []) begun).1

both_start : (ia_spread no_sectors globals 32 true asked (good ∷ good ∷ []) begun).0 ≡ success
unfolding ia_spread spread_one start_thread ia_doer_init init_with_a init_with_b kvgen_init bit_of
both_start = refl

-- The doer of crud has the key spaces 2 and 3, the one of delete the key space 3.
abbrev gen_at : (base : ℕ) → KvGen
gen_at base = record { base = base; serial = 0; vsize = 32; vage = 0; pair_bytes = 50 }

abbrev of_crud : Ready
of_crud = record {
  nth = 1;
  benchmask = bit_of Benchmark.ia_crud;
  key_space = 2;
  key_sequence = 1;
  gen_a = gen_at 2000;
  gen_b = some (gen_at 3000);
}

abbrev of_delete : Ready
of_delete = record {
  nth = 2;
  benchmask = bit_of Benchmark.ia_delete;
  key_space = 3;
  key_sequence = 2;
  gen_a = gen_at 3000;
  gen_b = none;
}

one_starts : (spread_one no_sectors globals 32 true asked good begun).0 ≡ success
unfolding spread_one start_thread ia_doer_init init_with_a init_with_b kvgen_init bit_of
one_starts = refl

two_start : (spread_one no_sectors globals 32 true asked good one).0 ≡ success
unfolding spread_one start_thread ia_doer_init init_with_a init_with_b kvgen_init bit_of
two_start = refl

two_doers : two.doers ≡ of_delete ∷ of_crud ∷ []
unfolding spread_one start_thread ia_doer_init init_with_a init_with_b kvgen_init bit_of
    kvpair_bytes
two_doers = refl

deletes : meet of_delete.benchmask bench_mask_write ≡ true
unfolding bit_of
deletes = refl

spread-shares_space_example : (of_delete.gen_a).base ≡ (gen_at 3000).base
spread-shares_space_example =
    spread-shares_space no_sectors globals 32 true asked good good begun of_crud of_delete
      (gen_at 3000) one_starts two_start two_doers refl refl deletes
