-- ===== src/Drivers/Mdbx/Flags.antt =====
-- The flags that src/drivers/ia_mdbx.c opens the environment with, from its options on.
use ioarena.Base.{
  ap, ◌≢◌, List, [], ◌∷◌, ℕ, ◌≤◌, refl, ◌∙◌, arith, Bool, true, false, Option, none, some, ◌≡◌,
  length, if◌then◌else◌,
}
use ioarena.Drivers.Mdbx.Settings.{option_loop-print}
use ioarena.Kv.Fill.{done}
use ioarena.Config.Names.{SyncMode, WalMode}
use ioarena.Drivers.Mdbx.{
  MdbxOpts, MdbxFlag, same_flag, with_flag, peek_option_bool, mdbx_syncflags, mdbx_walflags,
  mdbx_modeflags,
}
use ioarena.Drivers.Mdbx.Options.{MdbxOption, set_option, ia_mdbx_option}
use ioarena.Drivers.Mdbx.Print.{Setting, print, apply_all}

-- The flag of an option, and the option of a flag that has one.
abbrev pub flag_of : MdbxOption → MdbxFlag
flag_of MdbxOption.o_liforeclaim = MdbxFlag.mdbx_liforeclaim
flag_of MdbxOption.o_coalesce = MdbxFlag.mdbx_coalesce
flag_of MdbxOption.o_exclusive = MdbxFlag.mdbx_exclusive
flag_of MdbxOption.o_pageperturb = MdbxFlag.mdbx_pageperturb
flag_of MdbxOption.o_nomeminit = MdbxFlag.mdbx_nomeminit
flag_of MdbxOption.o_nordahead = MdbxFlag.mdbx_nordahead
flag_of MdbxOption.o_nometasync = MdbxFlag.mdbx_nometasync

-- The flags without any options.
abbrev pub base_flags : SyncMode → WalMode → MdbxFlag → Bool
base_flags sync wal = mdbx_walflags wal (mdbx_syncflags sync)

abbrev get_option : MdbxOption → MdbxOpts → Option Bool
get_option MdbxOption.o_liforeclaim g = g.liforeclaim
get_option MdbxOption.o_coalesce g = g.coalesce
get_option MdbxOption.o_exclusive g = g.exclusive
get_option MdbxOption.o_pageperturb g = g.pageperturb
get_option MdbxOption.o_nomeminit g = g.nomeminit
get_option MdbxOption.o_nordahead g = g.nordahead
get_option MdbxOption.o_nometasync g = g.nometasync

abbrev pub no_opts : MdbxOpts
no_opts = record {
  liforeclaim = none;
  coalesce = none;
  exclusive = none;
  pageperturb = none;
  nomeminit = none;
  nordahead = none;
  nometasync = none;
}

abbrev pub or_default : Option Bool → Bool → Bool
or_default none dflt = dflt
or_default (some v) dflt = v

-- An option decides its own flag and no other.
modeflags-option :
    (sync : SyncMode) (wal : WalMode) (g : MdbxOpts) (o : MdbxOption)
    → mdbx_modeflags sync wal g (flag_of o)
      ≡ or_default (get_option o g) (base_flags sync wal (flag_of o))
unfolding mdbx_modeflags peek_option_bool with_flag same_flag
modeflags-option sync wal g MdbxOption.o_liforeclaim = ground arith
modeflags-option sync wal g MdbxOption.o_coalesce = ground arith
modeflags-option sync wal g MdbxOption.o_exclusive = ground arith
modeflags-option sync wal g MdbxOption.o_pageperturb = ground arith
modeflags-option sync wal g MdbxOption.o_nomeminit = ground arith
modeflags-option sync wal g MdbxOption.o_nordahead = ground arith
modeflags-option sync wal g MdbxOption.o_nometasync = ground arith

modeflags-other :
    (sync : SyncMode) (wal : WalMode) (g : MdbxOpts) (f : MdbxFlag)
    → ((o : MdbxOption) → flag_of o ≢ f)
    → mdbx_modeflags sync wal g f ≡ base_flags sync wal f
unfolding mdbx_modeflags peek_option_bool with_flag same_flag
modeflags-other sync wal g MdbxFlag.mdbx_liforeclaim unnamed =
    absurd (unnamed MdbxOption.o_liforeclaim refl)
modeflags-other sync wal g MdbxFlag.mdbx_coalesce unnamed =
    absurd (unnamed MdbxOption.o_coalesce refl)
modeflags-other sync wal g MdbxFlag.mdbx_exclusive unnamed =
    absurd (unnamed MdbxOption.o_exclusive refl)
modeflags-other sync wal g MdbxFlag.mdbx_pageperturb unnamed =
    absurd (unnamed MdbxOption.o_pageperturb refl)
modeflags-other sync wal g MdbxFlag.mdbx_nomeminit unnamed =
    absurd (unnamed MdbxOption.o_nomeminit refl)
modeflags-other sync wal g MdbxFlag.mdbx_nordahead unnamed =
    absurd (unnamed MdbxOption.o_nordahead refl)
modeflags-other sync wal g MdbxFlag.mdbx_nometasync unnamed =
    absurd (unnamed MdbxOption.o_nometasync refl)
modeflags-other sync wal g MdbxFlag.mdbx_safe_nosync unnamed = ground arith
modeflags-other sync wal g MdbxFlag.mdbx_writemap unnamed = ground arith
modeflags-other sync wal g MdbxFlag.mdbx_utterly_nosync unnamed = ground arith

abbrev or_else : Option Bool → Option Bool → Option Bool
or_else none o = o
or_else (some v) o = some v

-- The value that the last setting of an option gives it.
abbrev pub last_value : MdbxOption → List Setting → Option Bool
last_value o [] = none
last_value o (s ∷ l) =
    or_else (last_value o l) (if same_flag (flag_of s.0) (flag_of o) then some s.1 else none)

get_option-set_option :
    (o q : MdbxOption) (v : Bool) (g : MdbxOpts)
    → get_option o (set_option q v g)
      ≡ or_else (if same_flag (flag_of q) (flag_of o) then some v else none) (get_option o g)
unfolding same_flag
get_option-set_option o q v g = ground arith

or_else_assoc : (a b c : Option Bool) → or_else a (or_else b c) ≡ or_else (or_else a b) c
or_else_assoc none b c = refl
or_else_assoc (some v) b c = refl

get_option-apply_all :
    (o : MdbxOption) (l : List Setting) (g : MdbxOpts)
    → get_option o (apply_all l g) ≡ or_else (last_value o l) (get_option o g)
get_option-apply_all o [] g = refl
get_option-apply_all o (s ∷ l) g =
    get_option-apply_all o l (set_option s.0 s.1 g)
    ∙ ap (or_else (last_value o l)) (get_option-set_option o s.0 s.1 g)
    ∙ or_else_assoc (last_value o l) _ _

get_option-none : (o : MdbxOption) → get_option o no_opts ≡ none
get_option-none o = ground arith

or_else-none : (a : Option Bool) → or_else a none ≡ a
or_else-none none = refl
or_else-none (some v) = refl

-- A text of settings such as NOMEMINIT=ON,EXCLUSIVE=OFF, of which there may be any number from one on and of the same option
-- more than one, is read by `ia_mdbx_option` in as many rounds as there are settings at most, with
-- result 0. `ia_mdbx_open` then opens the environment with each option's flag as its last setting
-- says, or without one as the sync and wal modes say, and with every other flag as the modes say.
pub mdbx_option-flags :
    (fuel : ℕ) (l : List Setting) (sync : SyncMode) (wal : WalMode)
    → l ≢ []
    → length l ≤ fuel
    → (g : MdbxOpts) × (ia_mdbx_option fuel false (print l) no_opts ≡ done (true, g))
      × ((o : MdbxOption)
          → mdbx_modeflags sync wal g (flag_of o)
            ≡ or_default (last_value o l) (base_flags sync wal (flag_of o)))
      × ((f : MdbxFlag)
          → ((o : MdbxOption) → flag_of o ≢ f)
          → mdbx_modeflags sync wal g f ≡ base_flags sync wal f)
mdbx_option-flags fuel l sync wal ne enough = (
  apply_all l no_opts,
  option_loop-print fuel l no_opts ne enough,
  λ o.
      modeflags-option sync wal (apply_all l no_opts) o
      ∙ ap (λ v. or_default v (base_flags sync wal (flag_of o)))
          (get_option-apply_all o l no_opts
            ∙ ap (or_else (last_value o l)) (get_option-none o)
            ∙ or_else-none (last_value o l)),
  λ f unnamed. modeflags-other sync wal (apply_all l no_opts) f unnamed,
)
