-- ===== src/Histogram/Sync/Counts.antt =====
-- Doers that have merged into the coming checkpoint, counted over a list of doers.
use ioarena.Base.{
  ℕ, suc, ◌+◌, ◌≤◌, ◌≡◌, ◌⊎◌, refl, List, [], ◌∷◌, ◌++◌, length, ◌==◌, arith, if◌then◌else◌,
}
use ioarena.Histogram.State.{IaHistogram}

abbrev pub mark : ℕ → IaHistogram → ℕ
mark evo d = if d.merge_evo == evo + 1 then 1 else 0

abbrev pub ahead : ℕ → List IaHistogram → ℕ
ahead evo [] = 0
ahead evo (d ∷ ds) = mark evo d + ahead evo ds

-- Each doer stands at the coming checkpoint or has merged into it.
abbrev pub Near : ℕ → List IaHistogram → Type 0
Near evo [] = Unit
Near evo (d ∷ ds) = ((d.merge_evo ≡ evo) ⊎ (d.merge_evo ≡ evo + 1)) × Near evo ds

pub ahead-le : (evo : ℕ) (ds : List IaHistogram) → ahead evo ds ≤ length ds
ahead-le evo [] = omega arith
ahead-le evo (d ∷ ds) = ground (arith, ahead-le evo ds)

-- Once all have merged, all stand at the next checkpoint and none has merged into that.
pub Near-next :
    (evo : ℕ) (ds : List IaHistogram) → Near evo ds → ahead evo ds ≡ length ds → Near (evo + 1) ds
Near-next evo [] near all = tt
Near-next evo (d ∷ ds) near all = ground (arith, Near-next evo ds, ahead-le evo ds)

pub ahead-next :
    (evo : ℕ) (ds : List IaHistogram)
    → Near (evo + 1) ds
    → ahead evo ds ≡ length ds
    → ahead (evo + 1) ds ≡ 0
ahead-next evo [] near all = refl
ahead-next evo (d ∷ ds) near all = ground (arith, ahead-next evo ds, ahead-le evo ds)

pub length-middle :
    (xs : List IaHistogram) (d : IaHistogram) (ys : List IaHistogram)
    → length (xs ++ d ∷ ys) ≡ suc (length (xs ++ ys))
length-middle [] d ys = refl
length-middle (x ∷ xs) d ys = omega (arith, length-middle xs d ys)

pub ahead-middle :
    (evo : ℕ) (xs : List IaHistogram) (d : IaHistogram) (ys : List IaHistogram)
    → ahead evo (xs ++ d ∷ ys) ≡ mark evo d + ahead evo (xs ++ ys)
ahead-middle evo [] d ys = refl
ahead-middle evo (x ∷ xs) d ys = omega (arith, ahead-middle evo xs d ys)

pub Near-middle :
    (evo : ℕ) (xs : List IaHistogram) (d : IaHistogram) (ys : List IaHistogram)
    → Near evo (d ∷ (xs ++ ys))
    → Near evo (xs ++ d ∷ ys)
Near-middle evo [] d ys near = near
Near-middle evo (x ∷ xs) d ys near = (near.1.0, Near-middle evo xs d ys (near.0, near.1.1))

pub Near-split :
    (evo : ℕ) (xs : List IaHistogram) (d : IaHistogram) (ys : List IaHistogram)
    → Near evo (xs ++ d ∷ ys)
    → Near evo (d ∷ (xs ++ ys))
Near-split evo [] d ys near = near
Near-split evo (x ∷ xs) d ys near =
    let rest = Near-split evo xs d ys near.1 in (rest.0, (near.0, rest.1))
