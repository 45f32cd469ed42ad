-- ===== src/Main/Barrier.antt =====
-- The substitute for pthread_barrier of src/ia_main.c, and the threads that share a barrier: each step
-- is what one thread does while it holds the mutex. What the mutex and the condition variable answer
-- is an argument.
pub mod Rounds
use ioarena.Base.{
  ℕ, suc, ◌+◌, ◌≡◌, Bool, true, false, ◌||◌, Option, none, some, if◌then◌else◌, ◌==◌,
}

-- `pthread_barrier_t` but for the mutex and the condition variable.
pub record Barrier : Type 0 where
  pub threshold : ℕ
  pub canary : ℕ

-- `pthread_barrier_init`: `attr` tells whether attributes are given, and the two others whether
-- pthread_mutex_init and pthread_cond_init return less than 0. `none` is -1.
unfoldable pub barrier_init :
    (attr mutex_negative cond_negative : Bool) (count : ℕ) → Option Barrier
barrier_init attr mutex_negative cond_negative count =
    if count == 0
    then none
    else if attr
    then none
    else if mutex_negative
    then none
    else if cond_negative
    then none
    else some (record { threshold = count; canary = 0 })

-- What a thread of `pthread_barrier_wait` does after it has locked the mutex: it wakes the others and
-- returns PTHREAD_BARRIER_SERIAL_THREAD, or goes to sleep on the condition variable.
pub data Entered : Type 0 where
  serial sleeps : Entered

unfoldable pub barrier_enter : Barrier → Entered × Barrier
barrier_enter b =
    if b.canary + 1 == b.threshold
    then (serial, record b { canary = 0 })
    else (sleeps, record b { canary = b.canary + 1 })

-- A barrier with its threads: those that sleep, those that have been woken and have not returned yet,
-- and how many calls have been made and have returned.
pub record System : Type 0 where
  pub barrier : Barrier
  pub asleep : ℕ
  pub awake : ℕ
  pub arrived : ℕ
  pub passed : ℕ

-- A call, up to the sleep or the return.
unfoldable pub arrive_with : System → Entered × Barrier → System
arrive_with s (serial, b) = record {
  barrier = b;
  asleep = 0;
  awake = s.awake + s.asleep;
  arrived = s.arrived + 1;
  passed = s.passed + 1;
}
arrive_with s (sleeps, b) = record {
  barrier = b;
  asleep = s.asleep + 1;
  awake = s.awake;
  arrived = s.arrived + 1;
  passed = s.passed;
}

abbrev pub arrive : System → System
arrive s = arrive_with s (barrier_enter s.barrier)

-- pthread_cond_wait returns for a woken thread, which unlocks the mutex and returns.
abbrev pub resume : System → (awake : ℕ) → System
resume s n = record s { awake = n; passed = s.passed + 1 }

-- A sleeper is woken without a broadcast. What the thread then does is what any woken one does.
abbrev pub wake_early : System → (asleep : ℕ) → System
wake_early s n = record s { asleep = n; awake = s.awake + 1 }

-- `spurious` tells whether pthread_cond_wait may return without a broadcast, as POSIX allows.
pub data Step (spurious : Bool) : System → System → Type 0 where
  arrives : (s : System) → Step spurious s (arrive s)
  resumes : (s : System) (n : ℕ) → s.awake ≡ suc n → Step spurious s (resume s n)
  wakes_early :
      (s : System) (n : ℕ) → spurious ≡ true → s.asleep ≡ suc n → Step spurious s (wake_early s n)

abbrev pub at_first : Barrier → System
at_first b = record { barrier = b; asleep = 0; awake = 0; arrived = 0; passed = 0 }

-- What the threads of a barrier come to from its initialisation.
pub data Reach (spurious : Bool) (count : ℕ) : System → Type 0 where
  starts :
      (b : Barrier)
      → barrier_init false false false count ≡ some b
      → Reach spurious count (at_first b)
  continues : {s t : System} → Reach spurious count s → Step spurious s t → Reach spurious count t
