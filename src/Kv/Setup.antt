-- ===== src/Kv/Setup.antt =====
-- `ia_kvgen_setup` of src/ia_kv.c. Its doubles are all natural numbers but for the two logarithms:
-- `round` is the conversion to double (and the rounding of a product), and `log_gt top base ksize`
-- is the test `log(top) / log(base) > (double)ksize`. `rand_r` and the clock are parameters too.
use ioarena.Base.{
  ℕ, ◌-◌, ◌*◌, ◌^◌, ◌≤◌, ◌<◌, ◌≡◌, ◌≢◌, inl, inr, refl, Bool, false, Option, none, some, List,
  length, arith, if◌then◌else◌, ltb, Bool-cases, dec_lt,
}
use mathlib.Core.Path.{subst}
use ioarena.Kv.Sbox.{sbox_size, kv_sbox_init, IsSbox}
use ioarena.Kv.Sbox.Loops.{kv_sbox_init-IsSbox}
use ioarena.Kv.Mix.Injective.{IsWidth}
use ioarena.Kv.Fill.{Globals}

-- BITMASK(n)
abbrev pub bitmask : ℕ → ℕ
bitmask n = 2 ^ n - 1

-- The `if` chain on `maxkey`: the width in bytes, or `none` where it returns -1.
unfoldable pub choose_width : (ℕ → ℕ) → (maxkey : ℕ) → Option ℕ
choose_width round maxkey =
    if ltb maxkey 2
    then none
    else if ltb maxkey (round (bitmask 16))
    then some 2
    else if ltb maxkey (round (bitmask 24))
    then some 3
    else if ltb maxkey (round (bitmask 32))
    then some 4
    else if ltb maxkey (round (bitmask 40))
    then some 5
    else if ltb maxkey (round (bitmask 48))
    then some 6
    else if ltb maxkey (round (bitmask 56))
    then some 7
    else if ltb maxkey (round (bitmask 64))
    then some 8
    else none

-- The two alphabets of keys.
abbrev pub key_base : Bool → ℕ
key_base printable = if printable then 64 else 256

-- What setup is called with; a negative `seed` is `none`.
pub record Request : Type 0 where
  pub printable : Bool
  pub ksize : ℕ
  pub nspaces : ℕ
  pub nsectors : ℕ
  pub period : ℕ
  pub seed : Option ℕ

none-ne-some : {A : Type 0} {a : A} → none ≢ some a
none-ne-some = λ e. cc

module _ (round : ℕ → ℕ) (log_gt : ℕ → ℕ → ℕ → Bool) (rand_r : ℕ → ℕ × ℕ) (now : ℕ)
    (sbox : List ℕ) where
  -- The globals that are written.
  unfoldable pub globals_for : Request → (width : ℕ) → Globals
  globals_for r width = record {
    printable = r.printable;
    ksize = r.ksize;
    width = width;
    nsectors = r.nsectors;
    period = r.period;
    sbox = kv_sbox_init rand_r (elim r.seed [ none ↦ now | some s ↦ s ]) sbox;
  }

  -- From the chosen width on.
  unfoldable pub check_ksize : Request → Option ℕ → Option Globals
  check_ksize r none = none
  check_ksize r (some width) =
      if log_gt (bitmask (8 * width)) (key_base r.printable) r.ksize
      then none
      else some (globals_for r width)

  -- `ia_kvgen_setup`, which changes the globals only where it returns 0: `none` is -1.
  unfoldable pub kvgen_setup : Request → Option Globals
  kvgen_setup r = check_ksize r (choose_width round (round (round r.period * round r.nspaces)))

  check_ksize-inv :
      (r : Request) (o : Option ℕ) (g : Globals)
      → check_ksize r o ≡ some g
      → (w : ℕ) × (o ≡ some w)
        × (log_gt (bitmask (8 * w)) (key_base r.printable) r.ksize ≡ false)
        × (globals_for r w ≡ g)
  unfolding check_ksize
  check_ksize-inv r none g e = cc
  check_ksize-inv r (some w) g e =
      elim (Bool-cases (log_gt (bitmask (8 * w)) (key_base r.printable) r.ksize)) [
        | inl short ↦ absurd (none-ne-some (rw (short, check_ksize) at e))
        | inr long ↦
            let written : some (globals_for r w) ≡ some g = rw (long, check_ksize) at e in
            (w, refl, long, cc)
      ]

-- Conversion to double: exact up to 2^53, and it keeps the order.
pub record IsRounding (round : ℕ → ℕ) : Type 0 where
  pub exact : (n : ℕ) → n ≤ 2 ^ 53 → round n ≡ n
  pub mono : (a b : ℕ) → a ≤ b → round a ≤ round b

choose_width-bound :
    (round : ℕ → ℕ) (maxkey w : ℕ)
    → choose_width round maxkey ≡ some w
    → IsWidth w × (2 ≤ maxkey) × (maxkey < round (bitmask (8 * w)))
unfolding choose_width
choose_width-bound round maxkey w e = ground arith

-- The test on the logarithms lets no key through that is too short for the numbers of a width.
pub record IsLog (log_gt : ℕ → ℕ → ℕ → Bool) : Type 0 where
  pub sound :
      (w : ℕ) (printable : Bool) (ksize : ℕ)
      → IsWidth w
      → log_gt (bitmask (8 * w)) (key_base printable) ksize ≡ false
      → bitmask (8 * w) < key_base printable ^ ksize

-- What the generator relies on once setup has returned 0.
pub record IsReady (r : Request) (g : Globals) : Type 0 where
  pub width : IsWidth g.width
  pub substitutes : IsSbox g.sbox
  pub some_keys : 2 ≤ r.period * r.nspaces
  pub numbers_fit : r.period * r.nspaces < 2 ^ (8 * g.width)
  pub keys_suffice : bitmask (8 * g.width) < key_base g.printable ^ g.ksize
  pub same_period : g.period ≡ r.period

product-lt :
    (round : ℕ → ℕ)
    → IsRounding round
    → (p n b : ℕ) → p ≤ 2 ^ 53
    → n ≤ 2 ^ 53
    → round (round p * round n) < round b
    → p * n < b
product-lt round f p n b hp hn h = elim (dec_lt (p * n) b) [
  | yes lt ↦ lt
  | no ge ↦
      absurd (omega (arith, rw (f.exact p hp, f.exact n hn) at h, f.mono b (p * n) (omega arith)))
]

two_at_least :
    (round : ℕ → ℕ)
    → IsRounding round
    → (p n : ℕ) → p ≤ 2 ^ 53
    → n ≤ 2 ^ 53
    → 2 ≤ round (round p * round n)
    → 2 ≤ p * n
two_at_least round f p n hp hn h = elim (dec_lt (p * n) 2) [
  | yes few ↦
      absurd (omega (arith, rw (f.exact p hp, f.exact n hn) at h, f.exact (p * n) (omega arith)))
  | no many ↦ omega arith
]

globals_for-IsReady :
    (round : ℕ → ℕ) (log_gt : ℕ → ℕ → ℕ → Bool) (rand_r : ℕ → ℕ × ℕ) (now : ℕ) (sbox : List ℕ)
    → IsRounding round
    → IsLog log_gt
    → length sbox ≡ sbox_size
    → (r : Request) (w : ℕ) → r.period ≤ 2 ^ 53
    → r.nspaces ≤ 2 ^ 53
    → choose_width round (round (round r.period * round r.nspaces)) ≡ some w
    → log_gt (bitmask (8 * w)) (key_base r.printable) r.ksize ≡ false
    → IsReady r (globals_for round log_gt rand_r now sbox r w)
unfolding globals_for
globals_for-IsReady round log_gt rand_r now sbox f l size r w hp hn fits long =
    let (width, some_keys, small) = choose_width-bound round _ w fits in
    record {
      width = width;
      substitutes = kv_sbox_init-IsSbox rand_r _ sbox size;
      some_keys = two_at_least round f r.period r.nspaces hp hn some_keys;
      numbers_fit =
          omega (arith, product-lt round f r.period r.nspaces (bitmask (8 * w)) hp hn small);
      keys_suffice = l.sound w r.printable r.ksize width long;
      same_period = refl;
    }

-- `ia_kvgen_setup` that returns 0 for a period and a number of spaces up to 2^53: all numbers of
-- all spaces fit the chosen width, there are enough keys of the chosen size for the numbers of
-- that width, the width is one that the switch serves, and the table is an sbox.
pub kvgen_setup-IsReady :
    (round : ℕ → ℕ) (log_gt : ℕ → ℕ → ℕ → Bool) (rand_r : ℕ → ℕ × ℕ) (now : ℕ) (sbox : List ℕ)
    → IsRounding round
    → IsLog log_gt
    → length sbox ≡ sbox_size
    → (r : Request) (g : Globals) → r.period ≤ 2 ^ 53
    → r.nspaces ≤ 2 ^ 53
    → kvgen_setup round log_gt rand_r now sbox r ≡ some g
    → IsReady r g
unfolding kvgen_setup
kvgen_setup-IsReady round log_gt rand_r now sbox f l size r g hp hn e =
    let (w, fits, long, same) =
      check_ksize-inv round log_gt rand_r now sbox r
        (choose_width round (round (round r.period * round r.nspaces))) g e in
    subst (IsReady r) same
      (globals_for-IsReady round log_gt rand_r now sbox f l size r w hp hn fits long)
