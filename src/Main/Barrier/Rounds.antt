-- ===== src/Main/Barrier/Rounds.antt =====
-- The threads of the substitute barrier pass it in rounds.
use ioarena.Base.{
  ℕ, ◌+◌, ◌*◌, ◌<◌, ◌≡◌, ◌≢◌, ◌⊎◌, refl, inl, inr, arith, Bool, false, Bool-cases, some, ◌==◌,
  ==_iff,
}
use ioarena.Main.Barrier.{
  Barrier, barrier_init, serial, sleeps, barrier_enter, System, arrive_with, arrive, Step, arrives,
  resumes, wakes_early, at_first, Reach, starts, continues,
}

-- What holds between two steps, with the number of rounds that are complete.
record InRounds (spurious : Bool) (count rounds : ℕ) (s : System) : Type 0 where
  same : (s.barrier).threshold ≡ count
  fits : (s.barrier).canary < count
  arrivals : s.arrived ≡ count * rounds + (s.barrier).canary
  conserved : s.passed + s.awake + s.asleep ≡ s.arrived
  sleepers : spurious ≡ false → s.asleep ≡ (s.barrier).canary

init-InRounds :
    (spurious : Bool) (count : ℕ) (b : Barrier)
    → barrier_init false false false count ≡ some b
    → InRounds spurious count 0 (at_first b)
unfolding barrier_init
init-InRounds spurious count b e = ground arith

enter-cases :
    (b : Barrier)
    → ((barrier_enter b ≡ (serial, record b { canary = 0 })) × (b.canary + 1 ≡ b.threshold))
      ⊎ ((barrier_enter b ≡ (sleeps, record b { canary = b.canary + 1 }))
          × (b.canary + 1 ≢ b.threshold))
unfolding barrier_enter
enter-cases b = elim (Bool-cases (b.canary + 1 == b.threshold)) [
  | inl last ↦ inl (rw last refl, (==_iff (b.canary + 1) b.threshold).0 last)
  | inr more ↦ inr (rw more refl, λ e. absurd (differ e more))
]
  where
    differ : b.canary + 1 ≡ b.threshold → (b.canary + 1 == b.threshold) ≡ false → ⊥
    differ e h = ground arith

-- The last thread of a round completes it.
arrive-InRounds :
    (spurious : Bool) (count rounds : ℕ) (s : System)
    → InRounds spurious count rounds s
    → (rounds' : ℕ) × InRounds spurious count rounds' (arrive s)
unfolding arrive_with
arrive-InRounds spurious count rounds s v = elim (enter-cases s.barrier) [
  | inl (e, last) ↦ (
    rounds + 1,
    rw e (record {
      same = v.same;
      fits = omega (arith, v.fits);
      arrivals = completed last;
      conserved = omega (arith, v.conserved);
      sleepers = λ none_early. refl;
    }),
  )
  | inr (e, more) ↦ (
    rounds,
    rw e (record {
      same = v.same;
      fits = omega (arith, v.fits, v.same, more);
      arrivals = omega (arith, v.arrivals);
      conserved = omega (arith, v.conserved);
      sleepers = λ none_early. omega (arith, v.sleepers none_early);
    }),
  )
]
  where
    times : (m n : ℕ) → m * (n + 1) ≡ m * n + m
    times m n = grind arith

    completed :
        (s.barrier).canary + 1 ≡ (s.barrier).threshold → s.arrived + 1 ≡ count * (rounds + 1) + 0
    completed last = omega (arith, v.arrivals, v.same, last, times count rounds)

step-InRounds :
    (spurious : Bool) (count rounds : ℕ) (s t : System)
    → Step spurious s t
    → InRounds spurious count rounds s
    → (rounds' : ℕ) × InRounds spurious count rounds' t
step-InRounds spurious count rounds _ _ (arrives s) v = arrive-InRounds spurious count rounds s v
step-InRounds spurious count rounds _ _ (resumes s n woken) v = (
  rounds,
  record {
    same = v.same;
    fits = v.fits;
    arrivals = v.arrivals;
    conserved = omega (arith, v.conserved, woken);
    sleepers = v.sleepers;
  },
)
step-InRounds spurious count rounds _ _ (wakes_early s n early asleep) v = (
  rounds,
  record {
    same = v.same;
    fits = v.fits;
    arrivals = v.arrivals;
    conserved = omega (arith, v.conserved, asleep);
    sleepers = λ none_early. ground arith;
  },
)

Reach-InRounds :
    (spurious : Bool) (count : ℕ) (s : System)
    → Reach spurious count s
    → (rounds : ℕ) × InRounds spurious count rounds s
Reach-InRounds spurious count _ (starts b e) = (0, init-InRounds spurious count b e)
Reach-InRounds spurious count _ (continues {s} {t} r step) =
    let (rounds, v) = Reach-InRounds spurious count s r in
    step-InRounds spurious count rounds s t step v

-- Where no sleeper wakes without a broadcast, threads pass the barrier in rounds of `count`: the calls that have
-- returned or been woken are those of the full rounds of calls made, so that no call returns before its
-- round is full and none of a full round stays asleep.
pub Reach-passes_in_rounds :
    (count : ℕ) (s : System)
    → Reach false count s
    → (rounds : ℕ) × (s.passed + s.awake ≡ count * rounds)
      × (s.arrived ≡ count * rounds + s.asleep)
      × (s.asleep < count)
Reach-passes_in_rounds count s r =
    let (rounds, v) = Reach-InRounds false count s r in
    let slept = v.sleepers refl in
    (
      rounds,
      omega (arith, v.conserved, v.arrivals, slept),
      omega (arith, v.arrivals, slept),
      omega (arith, v.fits, slept),
    )
