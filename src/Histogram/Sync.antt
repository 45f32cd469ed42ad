-- ===== src/Histogram/Sync.antt =====
-- The protocol by which doers share the checkpoints of src/ia_histogram.c: `doers_merged` counts the
-- doers that have merged into the coming checkpoint, and the last of them writes it.
pub mod Counts
pub mod Steps
pub mod System
pub mod Waits
use ioarena.Base.{ℕ, ◌≡◌, List, ◌∷◌, length}
use ioarena.Histogram.State.{IaHistogram, Global, Outcome, returned}
use Counts.{ahead, Near}

-- The counters agree with the doers.
pub record InSync (g : Global) (doers : List IaHistogram) : Type 0 where
  pub active : g.doers_active ≡ length doers
  pub merged : g.doers_merged ≡ ahead g.merge_evo doers
  pub near : Near g.merge_evo doers

-- A call that returns, with a doer and globals that are in step with the other doers.
abbrev pub Keeps : Outcome (IaHistogram × Global) → List IaHistogram → Type 0
Keeps r others = (d : IaHistogram) × (g : Global) × (r ≡ returned (d, g)) × InSync g (d ∷ others)
