-- ===== src/Drivers/Mdbx/Options.antt =====
-- ia_mdbx_option of src/drivers/ia_mdbx.c, for an option of the whole run.
use ioarena.Base.{ℕ, zero, suc, Bool, true, false, none, some, List, [], ◌∷◌, if◌then◌else◌}
use ioarena.Base.Text.{codes}
use ioarena.Base.Bytes.{same_bytes}
use ioarena.Kv.Fill.{Run, done, running, ◌>>=◌}
use ioarena.Config.OptionBool.{Code, Parsed, ia_parse_option_bool}
use ioarena.Drivers.Mdbx.{MdbxOpts}

pub data MdbxOption : Type 0 where
  o_liforeclaim o_coalesce o_exclusive o_pageperturb o_nomeminit o_nordahead o_nometasync :
      MdbxOption

abbrev pub option_name : MdbxOption → List ℕ
option_name MdbxOption.o_liforeclaim = codes "LIFORECLAIM"
option_name MdbxOption.o_coalesce = codes "COALESCE"
option_name MdbxOption.o_exclusive = codes "EXCLUSIVE"
option_name MdbxOption.o_pageperturb = codes "PAGEPERTURB"
option_name MdbxOption.o_nomeminit = codes "NOMEMINIT"
option_name MdbxOption.o_nordahead = codes "NORDAHEAD"
option_name MdbxOption.o_nometasync = codes "NOMETASYNC"

abbrev pub set_option : MdbxOption → Bool → MdbxOpts → MdbxOpts
set_option MdbxOption.o_liforeclaim v g = record g { liforeclaim = some v }
set_option MdbxOption.o_coalesce v g = record g { coalesce = some v }
set_option MdbxOption.o_exclusive v g = record g { exclusive = some v }
set_option MdbxOption.o_pageperturb v g = record g { pageperturb = some v }
set_option MdbxOption.o_nomeminit v g = record g { nomeminit = some v }
set_option MdbxOption.o_nordahead v g = record g { nordahead = some v }
set_option MdbxOption.o_nometasync v g = record g { nometasync = some v }

-- `done`, `globals`, and the text that is left.
pub record Parsing : Type 0 where
  pub code : Code
  pub globals : MdbxOpts
  pub arg : List ℕ

-- What one option takes from the text.
abbrev pub take_parsed : MdbxOption → Parsed → MdbxOpts → Parsing
take_parsed o p g = record {
  code = p.code;
  globals = elim p.target [ none ↦ g | some v ↦ set_option o v g ];
  arg = p.parg;
}

-- if (!done) done = ia_parse_option_bool(&arg, name, &globals.field);
unfoldable pub try_option : MdbxOption → Parsing → Parsing
try_option o st = elim st.code [
  | Code.go_on ↦ take_parsed o (ia_parse_option_bool st.arg (option_name o)) st.globals
  | Code.invalid ↦ st
  | Code.ended ↦ st
]

-- One round of the loop.
unfoldable pub option_round : Parsing → Parsing
option_round st = try_option MdbxOption.o_nometasync (
    try_option MdbxOption.o_nordahead (
      try_option MdbxOption.o_nomeminit (
        try_option MdbxOption.o_pageperturb (
          try_option MdbxOption.o_exclusive
            (try_option MdbxOption.o_coalesce (try_option MdbxOption.o_liforeclaim st))))))

-- while (*arg && !done), with the rounds that are left.
unfoldable pub option_loop : (fuel : ℕ) → (code : Code) → (arg : List ℕ) → MdbxOpts → Run Parsing
option_loop fuel Code.invalid arg g = done (record { code = Code.invalid; globals = g; arg = arg })
option_loop fuel Code.ended arg g = done (record { code = Code.ended; globals = g; arg = arg })
option_loop fuel Code.go_on [] g = done (record { code = Code.go_on; globals = g; arg = [] })
option_loop zero Code.go_on (x ∷ arg) g = running
option_loop (suc fuel) Code.go_on (x ∷ arg) g =
    let st = option_round (record { code = Code.go_on; globals = g; arg = x ∷ arg }) in
    option_loop fuel st.code st.arg st.globals

-- What is returned behind the loop: whether it is 0, and the settings.
abbrev pub option_result : Parsing → Bool × MdbxOpts
option_result st = elim st.code [
  | Code.ended ↦ (true, st.globals)
  | Code.go_on ↦ (false, st.globals)
  | Code.invalid ↦ (false, st.globals)
]

-- `ia_mdbx_option`: 0 at once for a doer's context and for --help.
unfoldable pub ia_mdbx_option :
    (fuel : ℕ) (for_doer : Bool) → List ℕ → MdbxOpts → Run (Bool × MdbxOpts)
ia_mdbx_option fuel true arg g = done (true, g)
ia_mdbx_option fuel false arg g =
    if same_bytes arg (codes "--help")
    then done (true, g)
    else option_loop fuel Code.go_on arg g >>= λ st. done (option_result st)
