-- ===== src/Kv/Gen/Period.antt =====
-- The keys of generators over one setup of src/ia_kv.c: those of different spaces differ, and one
-- generator repeats none within a period.
use native.Mathlib.Nat.{
  mod-lt, mod-le, mod-eq_of_lt, mod-eq-sub-mod, mul-le-mul_right, mul-add-div_right,
  mul-add-mod_self_right, mod-add-mod, div-eq_of_lt, pow-le-pow_right,
}
use ioarena.Base.{
  ℕ, zero, suc, ◌+◌, ◌-◌, ◌*◌, ◌/◌, ◌%◌, ◌^◌, ◌≤◌, ◌<◌, ◌≡◌, ◌⊎◌, inl, inr, sym, ap, ◌∙◌, Bool,
  true, Option, none, some, List, [], take, u64, arith, dec_lt, if◌then◌else◌, ◌==◌,
}
use ioarena.Kv.Fill.{Globals, Run, done, overflow, running, kv_pair}
use ioarena.Kv.Fill.Length.{IsFillable, >>=-eq-done}
use ioarena.Kv.Gen.{IaKv, KvGen, kvgen_init, advance, kvgen_get}
use ioarena.Kv.Keys.{IsLegible, kv_pair-keys_distinct}
use ioarena.Kv.Setup.{Request, IsReady}

-- A generator of space `kspace`.
pub record IsGenOf (g : Globals) (kspace : ℕ) (gen : KvGen) : Type 0 where
  pub base : gen.base ≡ kspace * g.period
  pub serial : gen.serial < g.period

-- The state after n calls of `ia_kvgen_get`.
unfoldable pub advanced : Globals → ℕ → KvGen → KvGen
advanced g zero gen = gen
advanced g (suc n) gen = advance g (advanced g n gen)

abbrev read : (KvGen → ℕ) → Option KvGen → ℕ
read f none = 0
read f (some x) = f x

abbrev read_key : Run (IaKv × KvGen) → List ℕ
read_key (done (kv, gen)) = kv.k
read_key overflow = []
read_key running = []

-- A step of at most one period within the period, modulo the period.
shift_injective : (p s i j : ℕ) → s < p → i < p → j < p → (s + i) % p ≡ (s + j) % p → i ≡ j
shift_injective p s i j hs hi hj e = elim (wrap i hi) [
  | inl (a, da) ↦ elim (wrap j hj) [ inl (b, db) ↦ omega arith | inr (b, db) ↦ omega arith ]
  | inr (a, da) ↦ elim (wrap j hj) [ inl (b, db) ↦ omega arith | inr (b, db) ↦ omega arith ]
]
  where
    wrap :
        (k : ℕ)
        → k < p
        → ((s + k < p) × ((s + k) % p ≡ s + k)) ⊎ ((p ≤ s + k) × ((s + k) % p ≡ s + k - p))
    wrap k hk = elim (dec_lt (s + k) p) [
      | yes below ↦ inl (below, mod-eq_of_lt below)
      | no above ↦ inr (omega arith, mod-eq-sub-mod (omega arith) ∙ mod-eq_of_lt (omega arith))
    ]

module _ (r : Request) (g : Globals) (ready : IsReady r g) where
  space_fits : (kspace : ℕ) → kspace < r.nspaces → kspace * g.period + g.period < 2 ^ (8 * g.width)
  space_fits kspace h = omega (
    arith,
    ap (λ t. kspace * t) ready.same_period,
    ready.same_period,
    mul-le-mul_right r.period h,
    ready.numbers_fit,
  )

  word_of_width : 2 ^ (8 * g.width) ≤ 2 ^ 64
  word_of_width =
      let narrow : 8 * g.width ≤ 64 = omega (arith, ready.width) in
      pow-le-pow_right (omega arith) narrow

  period_positive : 0 < g.period
  period_positive = elim (dec_lt 0 r.period) [
    | yes h ↦ omega (arith, ready.same_period)
    | no h ↦
        let none_left : r.period ≡ 0 = omega arith in
        absurd (omega (arith, rw none_left at ready.some_keys))
  ]

  -- After setup, `ia_kvgen_init` with memory gives a generator of the space that it is asked for,
  -- if setup counted that space, whatever the rounding of the sector's start gives.
  pub kvgen_init-IsGenOf :
      (sector_start : ℕ → ℕ → ℕ → ℕ) (kspace ksector vsize vage : ℕ) (gen : KvGen)
      → kspace < r.nspaces
      → kvgen_init sector_start g true kspace ksector vsize vage ≡ some gen
      → IsGenOf g kspace gen
  unfolding kvgen_init
  kvgen_init-IsGenOf sector_start kspace ksector vsize vage gen h e = record {
    base =
        sym (ap (λ o. read (λ x. x.base) o) e)
        ∙ mod-eq_of_lt (omega (arith, space_fits kspace h, word_of_width));
    serial = rw (sym (ap (λ o. read (λ x. x.serial) o) e)) (serial_fits ksector);
  }
    where
      serial_fits :
          (k : ℕ) → (if k == 0 then 0 else sector_start g.period k g.nsectors % g.period) < g.period
      serial_fits k = ground (arith, mod-lt (sector_start g.period k g.nsectors) period_positive)

  pub advance-IsGenOf :
      (kspace : ℕ) (gen : KvGen) → IsGenOf g kspace gen → IsGenOf g kspace (advance g gen)
  advance-IsGenOf kspace gen i = record {
    base = i.base;
    serial = mod-lt (u64 (gen.serial + 1)) period_positive;
  }

  point-eq :
      (kspace : ℕ) (gen : KvGen)
      → kspace < r.nspaces
      → IsGenOf g kspace gen
      → (u64 (gen.base + gen.serial) ≡ kspace * g.period + gen.serial)
        × (u64 (gen.base + gen.serial) < 2 ^ (8 * g.width))
  point-eq kspace gen h i =
      let small : gen.base + gen.serial < 2 ^ (8 * g.width) =
        omega (arith, space_fits kspace h, i.base, i.serial) in
      (
        mod-eq_of_lt (omega (arith, word_of_width)) ∙ omega (arith, i.base),
        omega (arith, mod-le (gen.base + gen.serial) (2 ^ 64)),
      )

  -- Space and serial can be read off the number.
  same_place :
      (a b s t : ℕ)
      → s < g.period
      → t < g.period
      → a * g.period + s ≡ b * g.period + t
      → (a ≡ b) × (s ≡ t)
  same_place a b s t hs ht e = (
    sym (quotient a s hs) ∙ ap (λ n. n / g.period) e ∙ quotient b t ht,
    sym (remainder a s hs) ∙ ap (λ n. n % g.period) e ∙ remainder b t ht,
  )
    where
      quotient : (c u : ℕ) → u < g.period → (c * g.period + u) / g.period ≡ c
      quotient c u h = mul-add-div_right period_positive c u ∙ omega (arith, div-eq_of_lt h)

      remainder : (c u : ℕ) → u < g.period → (c * g.period + u) % g.period ≡ u
      remainder c u h = mul-add-mod_self_right c g.period u ∙ mod-eq_of_lt h

  -- After setup, for a key size that the generator can fill and keys from which the number can be read
  -- back (printable ones of 3-byte numbers with at least 4 characters or of 6-byte numbers with at least
  -- 8, or binary ones of at least 8 bytes): two calls of `ia_kvgen_get`, from generators of spaces that
  -- setup counted, that give the same key come from the same space at the same serial number.
  pub kvgen_get-keys_distinct :
      IsFillable g g.ksize
      → IsLegible g
      → (a b : ℕ) (gen gen' next next' : KvGen) (kv kv' : IaKv) (only only' : Bool) → a < r.nspaces
      → b < r.nspaces
      → IsGenOf g a gen
      → IsGenOf g b gen'
      → kvgen_get g gen only ≡ done (kv, next)
      → kvgen_get g gen' only' ≡ done (kv', next')
      → kv.k ≡ kv'.k
      → (a ≡ b) × (gen.serial ≡ gen'.serial)
  unfolding kvgen_get
  kvgen_get-keys_distinct fits legible a b gen gen' next next' kv kv' only only' ha hb ia ib ea eb
        e =
      let (x, wx, rx) = >>=-eq-done (kv_pair g (if only then 0 else gen.vsize) gen.vage _) _ ea in
      let (y, wy, ry) =
        >>=-eq-done (kv_pair g (if only' then 0 else gen'.vsize) gen'.vage _) _ eb in
      let kx : take g.ksize x ≡ kv.k = ap (λ o. read_key o) rx in
      let ky : take g.ksize y ≡ kv'.k = ap (λ o. read_key o) ry in
      let (pa, la) = point-eq a gen ha ia in
      let (pb, lb) = point-eq b gen' hb ib in
      same_place a b gen.serial gen'.serial ia.serial ib.serial (
        sym pa
        ∙ kv_pair-keys_distinct g _ _ _ _ _ _ x y ready.width ready.substitutes fits legible la lb
            wx wy (kx ∙ e ∙ sym ky)
        ∙ pb)

  advanced-IsGenOf :
      (n kspace : ℕ) (gen : KvGen) → IsGenOf g kspace gen → IsGenOf g kspace (advanced g n gen)
  unfolding advanced
  advanced-IsGenOf zero kspace gen i = i
  advanced-IsGenOf (suc n) kspace gen i =
      advance-IsGenOf kspace (advanced g n gen) (advanced-IsGenOf n kspace gen i)

  serial-advanced :
      (n kspace : ℕ) (gen : KvGen)
      → kspace < r.nspaces
      → IsGenOf g kspace gen
      → (advanced g n gen).serial ≡ (gen.serial + n) % g.period
  unfolding advanced
  serial-advanced zero kspace gen h i =
      sym (mod-eq_of_lt (omega (arith, i.serial))) ∙ ap (λ t. t % g.period) (omega arith)
  serial-advanced (suc n) kspace gen h i =
      let before = advanced-IsGenOf n kspace gen i in
      ap (λ t. t % g.period)
        (mod-eq_of_lt (omega (arith, before.serial, space_fits kspace h, word_of_width)))
      ∙ ap (λ t. (t + 1) % g.period) (serial-advanced n kspace gen h i)
      ∙ mod-add-mod (gen.serial + n) g.period 1
      ∙ ap (λ t. t % g.period) (omega arith)

  -- After setup, for a key size that the generator can fill and keys from which the number can be read
  -- back (printable ones of 3-byte numbers with at least 4 characters or of 6-byte numbers with at least
  -- 8, or binary ones of at least 8 bytes): a generator of a space that setup counted gives no key twice
  -- within one period, so that the keys after i and after j calls of `ia_kvgen_get`, both less than a
  -- period, are equal only for i = j.
  pub kvgen_get-no_repeat :
      IsFillable g g.ksize
      → IsLegible g
      → (kspace i j : ℕ) (gen next next' : KvGen) (kv kv' : IaKv) (only : Bool) → kspace < r.nspaces
      → IsGenOf g kspace gen
      → i < g.period
      → j < g.period
      → kvgen_get g (advanced g i gen) only ≡ done (kv, next)
      → kvgen_get g (advanced g j gen) only ≡ done (kv', next')
      → kv.k ≡ kv'.k
      → i ≡ j
  kvgen_get-no_repeat fits legible kspace i j gen next next' kv kv' only h is hi hj ei ej e =
      let (_, same) =
        kvgen_get-keys_distinct fits legible kspace kspace (advanced g i gen) (advanced g j gen)
          next next' kv kv' only only h h (advanced-IsGenOf i kspace gen is)
          (advanced-IsGenOf j kspace gen is) ei ej e in
      shift_injective g.period gen.serial i j is.serial hi hj
        (sym (serial-advanced i kspace gen h is) ∙ same ∙ serial-advanced j kspace gen h is)
