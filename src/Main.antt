-- ===== src/Main.antt =====
-- `main` of src/ia_main.c, with `ia_init` and `ia_free` of src/ia.c. The directories that are made and
-- what is logged are left out.
pub mod Status
pub mod Barrier
pub mod Opened
mod Tests
use ioarena.Base.{
  ℕ, Bool, true, false, Option, none, some, List, [], ◌∷◌, if◌then◌else◌, ◌==◌, ◌^◌, ◌-◌,
}
use ioarena.Config.Parse.{IaConfig, Parse, ready, helped, failed}
use ioarena.Doer.Driver.{Rc, success, not_found, failure, and_then}
use ioarena.Doer.Turn.{minus_one}
use ioarena.Run.Control.{
  Platform, Calls, Outcome, returns, exits, aborts, uneven, completes, ia_run,
}

-- What the calls of `ia_init` answer: `ia_configinit`, ia_get_rusage, and the driver's `option` and
-- `open`.
pub record InitCalls : Type 0 where
  pub configinit : Rc
  pub rusage : Rc
  pub option : (arg : List ℕ) → Rc
  pub opened : Rc

-- rc == -1
abbrev pub is_minus_one : Rc → Bool
is_minus_one success = false
is_minus_one not_found = false
is_minus_one (failure code) = code == 2 ^ 32 - 1

-- The options given to the driver, up to the first that it rejects.
unfoldable pub init_options :
    (option : List ℕ → Rc) → (drv_opts : List (List ℕ)) → (opened : Rc) → Rc
init_options option [] opened = if is_minus_one opened then minus_one else success
init_options option (arg ∷ args) opened =
    let rest = init_options option args opened in and_then (option arg) rest (λ rc. minus_one)

-- `ia_init` from `ia_configparse` on; 1 is `failure 1`. With the settings, if `a->driver` is set by then.
unfoldable pub init_with : InitCalls → Parse → Rc × Option IaConfig
init_with q failed = (minus_one, none)
init_with q helped = (failure 1, none)
init_with q (ready conf) =
    (and_then q.rusage (init_options q.option conf.drv_opts q.opened) (λ rc. minus_one), some conf)

-- `ia_init`, given what `ia_configparse` makes of the command line
unfoldable pub ia_init : InitCalls → Parse → Rc × Option IaConfig
ia_init q parsed = and_then q.configinit (init_with q parsed) (λ rc. (minus_one, none))

-- How the process ends: with an exit code, or by abort(); `unsettled` where nothing is said of the run.
pub data ExitStatus : Type 0 where
  exit_code : Rc → ExitStatus
  killed unsettled : ExitStatus

-- With whether `ia_free` has closed the driver.
pub record Ended : Type 0 where
  pub status : ExitStatus
  pub closed : Bool

-- The last switch of `main`.
abbrev pub status_of : Rc → Rc
status_of success = success
status_of not_found = not_found
status_of (failure code) =
    if code == 2 ^ 32 - 1 then failure 1 else if code == 1 then success else failure code

-- From `done` on; ia_free closes the driver if `a->driver` is set.
abbrev pub finish_main : Rc → Option IaConfig → Ended
finish_main rc none = record { status = exit_code (status_of rc); closed = false }
finish_main rc (some conf) = record { status = exit_code (status_of rc); closed = true }

-- How `main` ends after a run.
abbrev pub after_run : IaConfig → Outcome → Ended
after_run conf (returns rc) = finish_main rc (some conf)
after_run conf exits = record { status = exit_code (failure 1); closed = false }
after_run conf aborts = record { status = killed; closed = false }
after_run conf uneven = record { status = unsettled; closed = false }
after_run conf (completes here doers) = finish_main success (some conf)

module _ (p : Platform) (run : Calls) where
  -- if (rc < 0 || rc) goto done; ... rc = ia_run(&ioarena);
  unfoldable pub go_or_done : Rc × Option IaConfig → Ended
  go_or_done (rc, none) = finish_main rc none
  go_or_done (rc, some conf) =
      and_then rc (after_run conf (ia_run p conf run)) (λ code. finish_main code (some conf))

  unfoldable pub main : InitCalls → Parse → Ended
  main q parsed = go_or_done (ia_init q parsed)
