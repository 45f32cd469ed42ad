-- ===== src/Drivers/Leveldb/Iterate.antt =====
-- The cursor of src/drivers/ia_leveldb.c.
use ioarena.Base.{ℕ, suc, ◌≡◌, refl, true, false}
use ioarena.Doer.Iterate.{HasCursor}
use ioarena.Drivers.Leveldb.{LevelEngine, ia_leveldb, ia_leveldb_next}

-- An engine whose iterator passes each pair once.
pub record IsIterator {S B : Type 0} (e : LevelEngine S B) : Type 0 where
  pub left : S → ℕ
  pub passes :
      (s : S) (n : ℕ) → left s ≡ suc n → (e.iter_valid s ≡ true) × (left (e.iter_next s) ≡ n)
  pub stops : (s : S) → left s ≡ 0 → e.iter_valid s ≡ false

unfoldable pub level_cursor :
    {S B : Type 0} (e : LevelEngine S B) → IsIterator e → HasCursor (ia_leveldb e)
unfolding ia_leveldb_next
level_cursor e l = record {
  left = λ c. l.left c.engine;
  moves = λ c n has. let (valid, then_left) = l.passes c.engine n has in rw valid (refl, then_left);
  ends = λ c none_left. rw (l.stops c.engine none_left) refl;
}
