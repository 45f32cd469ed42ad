-- ===== src/Main/Opened.antt =====
-- What `ia_init` of src/ia.c makes of what a driver's `open` returns.
use ioarena.Base.{
  ℕ, ◌≡◌, ◌≢◌, refl, sym, ap, ◌∙◌, arith, Bool, true, false, List, [], ◌∷◌, ◌==◌, ◌-◌, ◌^◌, ◌++◌,
}
use mathlib.Core.Path.{subst}
use ioarena.Base.Text.{codes}
use ioarena.Config.Parse.{IaConfig, ready}
use ioarena.Doer.Driver.{Rc, success, not_found, failure, and_then}
use ioarena.Doer.Turn.{minus_one}
use ioarena.Drivers.Vedisdb.{VedisEngine, ia_vedisdb_open}
use ioarena.Main.{InitCalls, is_minus_one, init_options, init_with, ia_init}

-- An error other than -1 is not seen.
unseen : (rc : Rc) → rc ≢ minus_one → is_minus_one rc ≡ false
unseen success ne = refl
unseen not_found ne = refl
unseen (failure code) ne = other (code == 2 ^ 32 - 1) refl
  where
    other : (t : Bool) → (code == 2 ^ 32 - 1) ≡ t → t ≡ false
    other false e = refl
    other true e = absurd (ne (ap failure (ground arith)))

options-zero :
    (option : List ℕ → Rc) (args : List (List ℕ)) (opened : Rc)
    → ((arg : List ℕ) → option arg ≡ success)
    → is_minus_one opened ≡ false
    → init_options option args opened ≡ success
unfolding init_options
options-zero option [] opened takes no_minus = rw no_minus refl
options-zero option (arg ∷ args) opened takes no_minus =
    subst (λ rc. and_then rc (init_options option args opened) (λ code. minus_one) ≡ success)
      (sym (takes arg)) (options-zero option args opened takes no_minus)

-- Where Vedis does not open the database and reports that by a code other than -1, `ia_vedisdb_open`
-- returns that code, and `ia_init` returns 0 all the same, so that the run goes on without a database. This holds where the
-- settings are read and the calls before it succeed.
pub vedisdb_open-unseen :
    {S : Type 0} (e : VedisEngine S) (datadir : List ℕ) (s : S) (q : InitCalls) (conf : IaConfig)
    → (e.lib_init s).0 ≡ success
    → q.configinit ≡ success
    → q.rusage ≡ success
    → ((arg : List ℕ) → q.option arg ≡ success)
    → q.opened ≡ (ia_vedisdb_open e true datadir s).0
    → q.opened ≢ minus_one
    → (q.opened ≡ (e.open_db (datadir ++ codes "/test.vedisdb") (e.lib_init s).1).0)
      × ((ia_init q (ready conf)).0 ≡ success)
unfolding ia_vedisdb_open ia_init init_with
vedisdb_open-unseen e datadir s q conf lib configured usage takes opens no_minus = (
  opens ∙ rw lib refl,
  rw (configured, usage)
      (options-zero q.option conf.drv_opts q.opened takes (unseen q.opened no_minus)),
)
