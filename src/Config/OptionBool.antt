-- ===== src/Config/OptionBool.antt =====
-- `ia_parse_option_bool` of src/ia_config.c.
use ioarena.Base.{
  ℕ, suc, ◌+◌, ◌≡◌, ◌≢◌, refl, Bool, true, false, ◌||◌, ◌&&◌, Option, none, some, List, [], ◌∷◌,
  ◌++◌, length, take, drop, get_or, take-append, ◌==◌, if◌then◌else◌, arith,
}
use ioarena.Base.Text.{codes, same_nocase, same_nocase_self}

-- The result -1, 0 or 1, what `*target` is set to, if it is, and where `*parg` points.
pub data Code : Type 0 where
  invalid go_on ended : Code

pub record Parsed : Type 0 where
  pub code : Code
  pub target : Option Bool
  pub parg : List ℕ

-- The text up to a comma, and the text behind it if there is one.
abbrev pub comma : ℕ
comma = 44

pub before_comma : List ℕ → List ℕ
before_comma [] = []
before_comma (c ∷ cs) = let rest = before_comma cs in if c == comma then [] else c ∷ rest

pub after_comma : List ℕ → Option (List ℕ)
after_comma [] = none
after_comma (c ∷ cs) = let rest = after_comma cs in if c == comma then some cs else rest

-- The value: on, off, or neither. `partmatch` compares the text up to the comma.
unfoldable pub bool_word : List ℕ → Option Bool
bool_word value =
    if same_nocase value (codes "ON")
      || (same_nocase value (codes "YES")
          || (same_nocase value (codes "TRUE") || same_nocase value (codes "1")))
    then some true
    else if same_nocase value (codes "OFF")
        || (same_nocase value (codes "NO")
            || (same_nocase value (codes "FALSE") || same_nocase value (codes "0")))
    then some false
    else none

-- What is returned once the value is read.
unfoldable pub after_value : (arg : List ℕ) → Bool → Option (List ℕ) → Parsed
after_value arg v none = record { code = Code.ended; target = some v; parg = arg }
after_value arg v (some []) = record { code = Code.ended; target = some v; parg = [] }
after_value arg v (some (c ∷ cs)) = record { code = Code.go_on; target = some v; parg = c ∷ cs }

unfoldable pub ia_parse_option_bool : (arg opt : List ℕ) → Parsed
ia_parse_option_bool arg opt =
    let value = drop (length opt + 1) arg in
    if same_nocase (take (length opt) arg) opt && (get_or arg (length opt) 0 == 61)
    then elim (bool_word (before_comma value)) [
      | some v ↦ after_value arg v (after_comma value)
      | none ↦ record { code = Code.invalid; target = none; parg = arg }
    ]
    else record { code = Code.go_on; target = none; parg = arg }

-- No character of the text is a comma.
abbrev pub NoComma : List ℕ → Type 0
NoComma [] = Unit
NoComma (c ∷ cs) = (c ≢ comma) × NoComma cs

split_at_comma :
    (w rest : List ℕ)
    → NoComma w
    → (before_comma (w ++ comma ∷ rest) ≡ w) × (after_comma (w ++ comma ∷ rest) ≡ some rest)
unfolding before_comma after_comma
split_at_comma [] rest h = (refl, refl)
split_at_comma (c ∷ w) rest h =
    let other : (c == comma) ≡ false = ground (arith, h.0) in
    let (before, after) = split_at_comma w rest h.1 in (rw (other, before) refl, rw other after)

no_comma : (w : List ℕ) → NoComma w → (before_comma w ≡ w) × (after_comma w ≡ none)
unfolding before_comma after_comma
no_comma [] h = (refl, refl)
no_comma (c ∷ w) h =
    let other : (c == comma) ≡ false = ground (arith, h.0) in
    let (before, after) = no_comma w h.1 in (rw (other, before) refl, rw other after)

get_or-append : (xs ys : List ℕ) (y : ℕ) → get_or (xs ++ y ∷ ys) (length xs) 0 ≡ y
get_or-append [] ys y = refl
get_or-append (x ∷ xs) ys y = get_or-append xs ys y

drop-append_suc : (xs ys : List ℕ) (y : ℕ) → drop (length xs + 1) (xs ++ y ∷ ys) ≡ ys
drop-append_suc [] ys y = refl
drop-append_suc (x ∷ xs) ys y =
    let one : suc (length xs) + 1 ≡ suc (length xs + 1) = omega arith in
    rw one (drop-append_suc xs ys y)

-- The last option of a text, without a comma behind it.
pub ia_parse_option_bool-last :
    (opt w : List ℕ) (v : Bool)
    → NoComma w
    → bool_word w ≡ some v
    → ia_parse_option_bool (opt ++ 61 ∷ w) opt
      ≡ record { code = Code.ended; target = some v; parg = opt ++ 61 ∷ w }
unfolding ia_parse_option_bool after_value
ia_parse_option_bool-last opt w v h is =
    let (before, after) = no_comma w h in
    let name : take (length opt) (opt ++ 61 ∷ w) ≡ opt = take-append opt (61 ∷ w) in
    let same : same_nocase opt opt ≡ true = same_nocase_self opt in
    let sign : get_or (opt ++ 61 ∷ w) (length opt) 0 ≡ 61 = get_or-append opt w 61 in
    let value : drop (length opt + 1) (opt ++ 61 ∷ w) ≡ w = drop-append_suc opt w 61 in
    rw (name, same, sign, value) (rw (before, is) (rw (value, after) refl))

-- An option `name=word,` before any further text: a word that is read as on or off sets the target
-- and leaves the text behind the comma, with the result 1 if there is none and 0 if there is; any
-- other word without a comma gives -1 and leaves the target and the text as they were.
pub ia_parse_option_bool-prints :
    (opt w rest : List ℕ)
    → NoComma w
    → ((v : Bool)
        → bool_word w ≡ some v
        → ia_parse_option_bool (opt ++ 61 ∷ (w ++ comma ∷ rest)) opt
          ≡ after_value (opt ++ 61 ∷ (w ++ comma ∷ rest)) v (some rest))
      × (bool_word w ≡ none
          → ia_parse_option_bool (opt ++ 61 ∷ (w ++ comma ∷ rest)) opt
            ≡ record { code = Code.invalid; target = none; parg = opt ++ 61 ∷ (w ++ comma ∷ rest) })
unfolding ia_parse_option_bool
ia_parse_option_bool-prints opt w rest h =
    let tail : List ℕ = w ++ comma ∷ rest in
    let (before, after) = split_at_comma w rest h in
    let name : take (length opt) (opt ++ 61 ∷ tail) ≡ opt = take-append opt (61 ∷ tail) in
    let same : same_nocase opt opt ≡ true = same_nocase_self opt in
    let sign : get_or (opt ++ 61 ∷ tail) (length opt) 0 ≡ 61 = get_or-append opt tail 61 in
    let value : drop (length opt + 1) (opt ++ 61 ∷ tail) ≡ tail = drop-append_suc opt tail 61 in
    (
      λ v is. rw (name, same, sign, value) (rw (before, is) (rw (value, after) refl)),
      λ is. rw (name, same, sign, value) (rw (before, is) refl),
    )
