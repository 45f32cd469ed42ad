-- ===== src/Kv/Tests.antt =====
-- Runs of the generator of src/ia_kv.c, and its theorems at concrete inputs.
use ioarena.Base.{
  ℕ, ◌+◌, ◌*◌, ◌/◌, ◌%◌, ◌^◌, ◌≡◌, ◌≢◌, inl, inr, refl, Bool, true, false, none, some, List, length,
  take, drop, replicate, length-replicate, arith, leb, u64, u32, ◌<◌,
}
use ioarena.Kv.Sbox.{sbox_size, kv_sbox_init}
use ioarena.Kv.Sbox.Loops.{kv_sbox_init-IsSbox}
use ioarena.Kv.Mix.Injective.{kv_mod2n_injection-injective}
use ioarena.Kv.Fill.{
  Globals, alphabet, remix4tail, fill_chars, le_bytes, fill_words, kv_pair, kvpair_bytes, stride,
  done, overflow,
}
use ioarena.Kv.Fill.Length.{IsFillable, kv_pair_returns, fill_words_never}
use ioarena.Kv.Gen.{IaKv, KvGen, advance, kvgen_get}
use ioarena.Kv.Gen.Period.{IsGenOf, advanced, kvgen_get-keys_distinct, kvgen_get-no_repeat}
use ioarena.Kv.Keys.{IsLegible, chars_of_3}
use ioarena.Kv.Pool.{KvPool, pool_bytes, fill_pool, kvpool_init, kvpool_pull}
use ioarena.Kv.Pool.Serve.{gets, pulls, kvpool_serves, kvpool_init-overflows}
use ioarena.Kv.Setup.{
  Request, choose_width, check_ksize, globals_for, kvgen_setup, IsRounding, IsLog, IsReady,
  kvgen_setup-IsReady,
}

-- A `rand_r`, doubles without rounding, and a test on logarithms.
abbrev lcg : ℕ → ℕ × ℕ
lcg s = let s' = (s * 1103515245 + 12345) % 2 ^ 31 in (s' / 65536, s')

abbrev exact_round : ℕ → ℕ
exact_round n = n

abbrev power_test : ℕ → ℕ → ℕ → Bool
power_test top base ksize = leb (base ^ ksize) top

exact_round-IsRounding : IsRounding exact_round
exact_round-IsRounding = record { exact = λ n h. refl; mono = λ a b h. h }

power_test-IsLog : IsLog power_test
power_test-IsLog = record { sound = λ w printable ksize h e. ground arith }

zero_table : List ℕ
zero_table = replicate sbox_size 0

zero_table_size : length zero_table ≡ sbox_size
unfolding zero_table
zero_table_size = length-replicate {A = ℕ} sbox_size 0

-- The defaults of the program: a million printable keys of 16 characters, seed 42.
abbrev defaults : Request
defaults = record {
  printable = true;
  ksize = 16;
  nspaces = 2;
  nsectors = 1;
  period = 1000000;
  seed = some 42;
}

abbrev globals : Globals
globals = globals_for exact_round power_test lcg 0 zero_table defaults 3

kvgen_setup_runs : kvgen_setup exact_round power_test lcg 0 zero_table defaults ≡ some globals
unfolding kvgen_setup check_ksize choose_width
kvgen_setup_runs = refl

-- Setup refuses a key that is too short, and more keys than 64 bits hold.
kvgen_setup_short :
    kvgen_setup exact_round power_test lcg 0 zero_table (record defaults { ksize = 3 }) ≡ none
unfolding kvgen_setup check_ksize choose_width
kvgen_setup_short = refl

kvgen_setup_huge :
    kvgen_setup exact_round power_test lcg 0 zero_table (record defaults { period = 2 ^ 64 }) ≡ none
unfolding kvgen_setup check_ksize choose_width
kvgen_setup_huge = refl

kvgen_setup-IsReady_example : IsReady defaults globals
kvgen_setup-IsReady_example =
    kvgen_setup-IsReady exact_round power_test lcg 0 zero_table exact_round-IsRounding
      power_test-IsLog zero_table_size defaults globals (omega arith) (omega arith) kvgen_setup_runs

-- The same again, for the other examples.
globals-IsReady : IsReady defaults globals
unfolding globals_for
globals-IsReady = record {
  width = omega arith;
  substitutes = kv_sbox_init-IsSbox lcg 42 zero_table zero_table_size;
  some_keys = omega arith;
  numbers_fit = omega arith;
  keys_suffice = omega arith;
  same_period = refl;
}

kv_mod2n_injection-injective_example : ◌≡◌ {A = ℕ} 5 5
kv_mod2n_injection-injective_example =
    kv_mod2n_injection-injective (kv_sbox_init lcg 42 zero_table) 3 5 5
      (kv_sbox_init-IsSbox lcg 42 zero_table zero_table_size) (omega arith) (omega arith)
      (omega arith) refl

key_fits : IsFillable globals globals.ksize
unfolding globals_for
key_fits = record { positive = omega arith; form = inl refl }

value_fits : IsFillable globals 32
unfolding globals_for
value_fits = record { positive = omega arith; form = inl refl }

legible : IsLegible globals
unfolding globals_for
legible = chars_of_3 refl refl (omega arith)

kv_pair_returns_example :
    (bytes : List ℕ) × (kv_pair globals 32 0 7 ≡ done bytes)
    × (length bytes ≡ kvpair_bytes globals 32)
unfolding globals_for
kv_pair_returns_example = kv_pair_returns globals 32 0 7 (omega arith) key_fits (inr value_fits)

abbrev gen : KvGen
gen = record {
  base = 1000000;
  serial = 999998;
  vsize = 32;
  vage = 0;
  pair_bytes = kvpair_bytes globals 32;
}

gen-IsGenOf : IsGenOf globals 1 gen
unfolding globals_for
gen-IsGenOf = record { base = refl; serial = omega arith }

-- An answer of the generator in any state of its values' size.
answer :
    (state : KvGen)
    → state.vsize ≡ 32
    → (kv : IaKv) × (next : KvGen) × (kvgen_get globals state false ≡ done (kv, next))
unfolding kvgen_get
answer state e =
    let (bytes, wrote, size) =
      kv_pair_returns globals state.vsize state.vage (u64 (state.base + state.serial))
        globals-IsReady.width key_fits (inr (rw e value_fits)) in
    (
      record {
        ksize = globals.ksize;
        vsize = state.vsize;
        k = take globals.ksize bytes;
        v = some (take state.vsize (drop (stride globals globals.ksize) bytes));
      },
      advance globals state,
      rw wrote refl,
    )

kvgen_get-keys_distinct_example : (◌≡◌ {A = ℕ} 1 1) × (◌≡◌ {A = ℕ} 999998 999998)
unfolding globals_for
kvgen_get-keys_distinct_example =
    kvgen_get-keys_distinct defaults globals globals-IsReady key_fits legible 1 1 gen gen
      (answer gen refl).1 (answer gen refl).1 (answer gen refl).0 (answer gen refl).0 false false
      (omega arith) (omega arith) gen-IsGenOf gen-IsGenOf (answer gen refl).2 (answer gen refl).2
      refl

later_answer :
    (kv : IaKv) × (next : KvGen) × (kvgen_get globals (advanced globals 3 gen) false
      ≡ done (kv, next))
unfolding advanced
later_answer = answer (advanced globals 3 gen) refl

kvgen_get-no_repeat_example : ◌≡◌ {A = ℕ} 3 3
unfolding globals_for
kvgen_get-no_repeat_example =
    kvgen_get-no_repeat defaults globals globals-IsReady key_fits legible 1 3 3 gen later_answer.1
      later_answer.1 later_answer.0 later_answer.0 false (omega arith) gen-IsGenOf (omega arith)
      (omega arith) later_answer.2 later_answer.2 refl

pair_size : kvpair_bytes globals 32 ≡ 50
unfolding globals_for kvpair_bytes
pair_size = refl

pair_fits : gen.pair_bytes ≡ u32 (kvpair_bytes globals 32)
unfolding globals_for kvpair_bytes
pair_fits = refl

kvpool_serves_example :
    (pool pool' : KvPool) × (gen' : KvGen) × (kvs : List IaKv) × (kvpool_init globals true gen 500
      ≡ done (some (pool, gen')))
    × (gets globals 500 gen ≡ done (kvs, gen'))
    × (pulls globals 500 pool ≡ some (kvs, pool'))
    × (kvpool_pull globals pool' ≡ none)
unfolding globals_for
kvpool_serves_example =
    kvpool_serves globals 500 gen
      (record { width = globals-IsReady.width; key = key_fits; value = value_fits }) pair_fits
      (omega arith) (omega arith) (omega (arith, pair_size))

-- 100000000 pairs of 50 bytes.
kvpool_init-overflows_example :
    (kvpool_init globals true gen 100000000 ≡ overflow)
    × ((bytes : List ℕ) × (gen' : KvGen) × (fill_pool globals 100000000 gen ≡ done (bytes, gen'))
        × (pool_bytes gen 100000000 < length bytes))
unfolding globals_for
kvpool_init-overflows_example =
    kvpool_init-overflows globals 100000000 gen
      (record { width = globals-IsReady.width; key = key_fits; value = value_fits }) (omega arith)
      (omega arith) (omega (arith, pair_size))

-- Four bytes in binary form: the length wraps to 2^32 - 4, and the loop goes on past the buffer.
fill_words_never_example : fill_words 1000 32 4 9 ≢ done (le_bytes 8 9, 9)
fill_words_never_example = fill_words_never 1000 32 4 9 (le_bytes 8 9, 9) (omega arith)

-- Two numbers of four bytes with one printable key of six characters: with 32 bits the sixth
-- character is mixed from the last two bits and higher ones, and does not tell them apart.
abbrev six_chars : ℕ → List ℕ
six_chars n = take 6 (fill_chars 4 6 n 32 n).0

six_chars_collide : six_chars 3801087 ≡ six_chars 1077542911
unfolding fill_chars alphabet remix4tail
six_chars_collide = refl
