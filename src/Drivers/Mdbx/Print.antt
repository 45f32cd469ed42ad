-- ===== src/Drivers/Mdbx/Print.antt =====
-- Lists of settings such as NOMEMINIT=ON,EXCLUSIVE=OFF, and what one option of ia_mdbx_option of
-- src/drivers/ia_mdbx.c takes of them.
use ioarena.Base.{
  ℕ, ◌≡◌, ◌≢◌, refl, ◌∙◌, arith, Bool, true, false, not, ◌||◌, ◌==◌, none, some, List, [], ◌∷◌,
  ◌++◌, length, take,
}
use ioarena.Base.Text.{codes, same_nocase, to_lower}
use ioarena.Config.OptionBool.{
  Code, comma, ia_parse_option_bool, ia_parse_option_bool-prints, bool_word, after_value, NoComma,
  ia_parse_option_bool-last,
}
use ioarena.Drivers.Mdbx.{MdbxOpts}
use ioarena.Drivers.Mdbx.Options.{MdbxOption, option_name, set_option, Parsing, try_option}

-- The texts have different letters at a place that both have.
abbrev pub differ : List ℕ → List ℕ → Bool
differ [] b = false
differ (x ∷ a) [] = false
differ (x ∷ a) (y ∷ b) = not (to_lower x == to_lower y) || differ a b

pub differ-same_nocase :
    (a b t : List ℕ) → differ a b ≡ true → same_nocase (take (length b) (a ++ t)) b ≡ false
differ-same_nocase [] b t d = ground arith
differ-same_nocase (x ∷ a) [] t d = ground arith
differ-same_nocase (x ∷ a) (y ∷ b) t d = ground (arith, differ-same_nocase a b t)

differ-names : (o q : MdbxOption) → o ≢ q → differ (option_name o) (option_name q) ≡ true
differ-names o q ne = ground arith

other_name :
    (o q : MdbxOption) (tail : List ℕ)
    → o ≢ q
    → let arg = option_name o ++ tail in
      ia_parse_option_bool arg (option_name q)
      ≡ record { code = Code.go_on; target = none; parg = arg }
unfolding ia_parse_option_bool
other_name o q tail ne =
    rw (differ-same_nocase (option_name o) (option_name q) tail (differ-names o q ne)) refl

abbrev pub Setting : Type 0
Setting = MdbxOption × Bool

abbrev pub word : Bool → List ℕ
word true = codes "ON"
word false = codes "OFF"

-- name=ON or name=OFF, with commas between them
abbrev pub print : List Setting → List ℕ
print [] = []
print (s ∷ []) = option_name s.0 ++ 61 ∷ word s.1
print (s ∷ t ∷ l) = option_name s.0 ++ 61 ∷ (word s.1 ++ comma ∷ print (t ∷ l))

-- One setting after the other.
abbrev pub apply_all : List Setting → MdbxOpts → MdbxOpts
apply_all [] g = g
apply_all (s ∷ l) g = apply_all l (set_option s.0 s.1 g)

starts :
    (o : MdbxOption) (t : List ℕ)
    → (x : ℕ) × (xs : List ℕ) × (option_name o ++ t ≡ x ∷ xs) × (x ≢ 45)
starts MdbxOption.o_liforeclaim t = (_, _, refl, omega arith)
starts MdbxOption.o_coalesce t = (_, _, refl, omega arith)
starts MdbxOption.o_exclusive t = (_, _, refl, omega arith)
starts MdbxOption.o_pageperturb t = (_, _, refl, omega arith)
starts MdbxOption.o_nomeminit t = (_, _, refl, omega arith)
starts MdbxOption.o_nordahead t = (_, _, refl, omega arith)
starts MdbxOption.o_nometasync t = (_, _, refl, omega arith)

pub print_starts :
    (s : Setting) (l : List Setting) → (x : ℕ) × (xs : List ℕ) × (print (s ∷ l) ≡ x ∷ xs) × (x ≢ 45)
print_starts s [] = starts s.0 _
print_starts s (t ∷ l) = starts s.0 _

word-NoComma : (v : Bool) → NoComma (word v)
word-NoComma true = ground arith
word-NoComma false = ground arith

bool_word-word : (v : Bool) → bool_word (word v) ≡ some v
unfolding bool_word
bool_word-word true = refl
bool_word-word false = refl

after_more :
    (arg rest : List ℕ) (v : Bool) (x : ℕ) (xs : List ℕ)
    → rest ≡ x ∷ xs
    → after_value arg v (some rest) ≡ record { code = Code.go_on; target = some v; parg = rest }
unfolding after_value
after_more arg rest v x xs e = rw e refl

first_setting :
    (s t : Setting) (l : List Setting)
    → ia_parse_option_bool (print (s ∷ t ∷ l)) (option_name s.0)
      ≡ record { code = Code.go_on; target = some s.1; parg = print (t ∷ l) }
first_setting s t l =
    let (x, xs, e, _) = print_starts t l in
    (ia_parse_option_bool-prints (option_name s.0) (word s.1) (print (t ∷ l)) (word-NoComma s.1)).0
      s.1 (bool_word-word s.1)
    ∙ after_more _ _ s.1 x xs e

-- What a state of the parser has left to read: once it has ended, nothing.
unfoldable pub Reads : MdbxOpts → List Setting → Parsing → Type 0
Reads g [] st = (st.code ≡ Code.ended) × (st.globals ≡ g)
Reads g (s ∷ l) st = st ≡ record { code = Code.go_on; globals = g; arg = print (s ∷ l) }

-- A setting at the head is taken by its own option, and left by the others.
pub try_own :
    (s : Setting) (l : List Setting) (g : MdbxOpts) (st : Parsing)
    → Reads g (s ∷ l) st
    → Reads (set_option s.0 s.1 g) l (try_option s.0 st)
unfolding Reads try_option
try_own s [] g st h = rw h (
    rw
      (ia_parse_option_bool-last (option_name s.0) (word s.1) s.1 (word-NoComma s.1)
        (bool_word-word s.1))
      (refl, refl))
try_own s (t ∷ l) g st h = rw h (rw (first_setting s t l) refl)

pub try_other :
    (q : MdbxOption) (s : Setting) (l : List Setting) (g : MdbxOpts) (st : Parsing)
    → s.0 ≢ q
    → Reads g (s ∷ l) st
    → Reads g (s ∷ l) (try_option q st)
unfolding Reads try_option
try_other q s [] g st ne h = rw h (rw (other_name s.0 q (61 ∷ word s.1) ne) refl)
try_other q s (t ∷ l) g st ne h =
    rw h (rw (other_name s.0 q (61 ∷ (word s.1 ++ comma ∷ print (t ∷ l))) ne) refl)

pub try_ended :
    (q : MdbxOption) (g : MdbxOpts) (st : Parsing) → Reads g [] st → Reads g [] (try_option q st)
unfolding Reads try_option
try_ended q g st h = rw (h.0, try_option) h
