-- ===== src/Drivers/Mdbx/Unknown.antt =====
-- What ia_mdbx_option of src/drivers/ia_mdbx.c does with a name that it does not know.
use ioarena.Base.{ℕ, zero, suc, ◌≡◌, ◌≢◌, refl, ap, ◌∙◌, true, false, List, [], ◌∷◌, ◌++◌}
use ioarena.Base.Text.{codes}
use ioarena.Base.Bytes.{same_bytes}
use ioarena.Kv.Fill.{running}
use ioarena.Config.OptionBool.{Code, ia_parse_option_bool}
use ioarena.Drivers.Mdbx.{MdbxOpts}
use ioarena.Drivers.Mdbx.Options.{
  MdbxOption, option_name, Parsing, try_option, option_round, option_loop, ia_mdbx_option,
}
use ioarena.Drivers.Mdbx.Settings.{loop_round}
use ioarena.Drivers.Mdbx.Print.{differ, differ-same_nocase}

abbrev at_start : MdbxOpts → List ℕ → Parsing
at_start g arg = record { code = Code.go_on; globals = g; arg = arg }

try_unknown :
    (q : MdbxOption) (name rest : List ℕ) (g : MdbxOpts)
    → differ name (option_name q) ≡ true
    → try_option q (at_start g (name ++ rest)) ≡ at_start g (name ++ rest)
unfolding try_option ia_parse_option_bool
try_unknown q name rest g d =
    rw (differ-same_nocase name (option_name q) rest d, ia_parse_option_bool) refl

round_unknown :
    (name rest : List ℕ) (g : MdbxOpts)
    → ((q : MdbxOption) → differ name (option_name q) ≡ true)
    → option_round (at_start g (name ++ rest)) ≡ at_start g (name ++ rest)
unfolding option_round
round_unknown name rest g d =
    rw (try_unknown MdbxOption.o_liforeclaim name rest g (d MdbxOption.o_liforeclaim)) (
      rw (try_unknown MdbxOption.o_coalesce name rest g (d MdbxOption.o_coalesce)) (
        rw (try_unknown MdbxOption.o_exclusive name rest g (d MdbxOption.o_exclusive)) (
          rw (try_unknown MdbxOption.o_pageperturb name rest g (d MdbxOption.o_pageperturb)) (
            rw (try_unknown MdbxOption.o_nomeminit name rest g (d MdbxOption.o_nomeminit)) (
              rw (try_unknown MdbxOption.o_nordahead name rest g (d MdbxOption.o_nordahead))
                (try_unknown MdbxOption.o_nometasync name rest g (d MdbxOption.o_nometasync)))))))

cons_of : (t : List ℕ) → t ≢ [] → (x : ℕ) × (xs : List ℕ) × (t ≡ x ∷ xs)
cons_of [] ne = absurd (ne refl)
cons_of (x ∷ xs) ne = (x, xs, refl)

loop_unknown :
    (fuel : ℕ) (name rest : List ℕ) (g : MdbxOpts)
    → name ++ rest ≢ []
    → ((q : MdbxOption) → differ name (option_name q) ≡ true)
    → option_loop fuel Code.go_on (name ++ rest) g ≡ running
unfolding option_loop
loop_unknown zero name rest g ne d = let (x, xs, e) = cons_of (name ++ rest) ne in rw e refl
loop_unknown (suc fuel) name rest g ne d =
    let (x, xs, e) = cons_of (name ++ rest) ne in
    loop_round fuel g (name ++ rest) x xs e
    ∙ ap (λ (p : Parsing). option_loop fuel p.code p.arg p.globals) (round_unknown name rest g d)
    ∙ loop_unknown fuel name rest g ne d

-- On a text other than --help whose name differs in some letter from each name that the driver knows,
-- the loop of `ia_mdbx_option` goes on for ever: no number of rounds ends it.
pub mdbx_option_never :
    (fuel : ℕ) (name rest : List ℕ) (g : MdbxOpts)
    → name ++ rest ≢ []
    → same_bytes (name ++ rest) (codes "--help") ≡ false
    → ((q : MdbxOption) → differ name (option_name q) ≡ true)
    → ia_mdbx_option fuel false (name ++ rest) g ≡ running
unfolding ia_mdbx_option
mdbx_option_never fuel name rest g ne no_help d =
    rw no_help (rw (loop_unknown fuel name rest g ne d) refl)
