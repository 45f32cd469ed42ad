-- ===== src/Base/Text.antt =====
-- C strings as the codes of their characters up to the terminating 0, and the comparisons of
-- <strings.h> in the C locale.
use Prim.Native.Char.{code}
use Prim.Native.String.{String}
use Prim.Native.Nat.{ℕ, ◌+◌}
use mathlib.Core.Path.{◌≡◌, refl, sym, ◌∙◌}
use mathlib.Core.Bool.{Bool, true, false, ◌&&◌}
use mathlib.Core.List.{List, [], ◌∷◌}
use native.Mathlib.Omega.{arith}
use ioarena.Base.Tests.{leb, ◌==◌, if◌then◌else◌, ==_iff}

abbrev pub codes : String → List ℕ
codes String.[] = []
codes (String.◌∷◌ c s) = code c ∷ codes s

-- `tolower`
abbrev pub to_lower : ℕ → ℕ
to_lower c = if leb 65 c && leb c 90 then c + 32 else c

-- strcasecmp(a, b) == 0
abbrev pub same_nocase : List ℕ → List ℕ → Bool
same_nocase [] [] = true
same_nocase [] (d ∷ b) = false
same_nocase (c ∷ a) [] = false
same_nocase (c ∷ a) (d ∷ b) = (to_lower c == to_lower d) && same_nocase a b

pub same_nocase_self : (a : List ℕ) → same_nocase a a ≡ true
same_nocase_self [] = refl
same_nocase_self (c ∷ a) = rw ((==_iff (to_lower c) (to_lower c)).1 refl) (same_nocase_self a)

and_both : (p q : Bool) → (p && q) ≡ true → (p ≡ true) × (q ≡ true)
and_both true q h = (refl, h)
and_both false q h = absurd (ground arith)

-- Two texts that a third one equals but for case equal each other but for case.
pub same_nocase_both :
    (a b c : List ℕ) → same_nocase a b ≡ true → same_nocase a c ≡ true → same_nocase b c ≡ true
same_nocase_both [] [] [] h k = refl
same_nocase_both [] [] (z ∷ c) h k = k
same_nocase_both [] (y ∷ b) c h k = ground arith
same_nocase_both (x ∷ a) [] c h k = ground arith
same_nocase_both (x ∷ a) (y ∷ b) [] h k = ground arith
same_nocase_both (x ∷ a) (y ∷ b) (z ∷ c) h k =
    let (h1, h2) = and_both (to_lower x == to_lower y) (same_nocase a b) h in
    let (k1, k2) = and_both (to_lower x == to_lower z) (same_nocase a c) k in
    let heads : (to_lower y == to_lower z) ≡ true =
      (==_iff _ _).1
        (sym ((==_iff (to_lower x) (to_lower y)).0 h1) ∙ (==_iff (to_lower x) (to_lower z)).0 k1) in
    rw heads (same_nocase_both a b c h2 k2)
