-- ===== src/Drivers/Tests/Leveldb.antt =====
-- The model of src/drivers/ia_leveldb.c at concrete inputs.
use ioarena.Base.{ℕ, ◌≡◌, ◌≢◌, refl, true, false, none, some, List, [], ◌∷◌}
use ioarena.Doer.Driver.{success, Doer}
use ioarena.Doer.Turn.{crud_ops, again}
use ioarena.Drivers.Store.{Store, no_keys, assign, unassign}
use ioarena.Drivers.Leveldb.{LevelEngine, LevelContext, ia_leveldb}
use ioarena.Drivers.Leveldb.Crud.{IsTable, leveldb_crud-table}
use ioarena.Drivers.Tests.{pair_of, settings, printable_keys, doer_of, keys_differ}

-- An engine that is a table and whose batches are what they do to one.
abbrev table_level : LevelEngine Store (Store → Store)
table_level = record {
  create_iterator = λ s. (true, s);
  iter_seek_to_first = λ s. s;
  iter_valid = λ s. false;
  iter_key = λ s. (0, []);
  iter_next = λ s. s;
  iter_destroy = λ s. s;
  writebatch_create = some (λ m. m);
  writebatch_put = λ k v b m. assign k v (b m);
  writebatch_delete = λ k b m. unassign k (b m);
  write = λ b s. (true, b s);
  put = λ k v s. (true, assign k v s);
  delete = λ k s. (true, unassign k s);
  get = λ k s. (true, s k, 0, s);
}

abbrev is_table : IsTable table_level
is_table = record {
  contents = λ s. s;
  effect = λ b. b;
  fresh = λ m. m;
  creates = refl;
  fresh_effect = λ m. refl;
  put_effect = λ k v b m. refl;
  delete_effect = λ k b m. refl;
  writes = λ b s. (refl, refl);
  gets = λ k s. (refl, refl);
}

abbrev level_doer : Doer (LevelContext Store (Store → Store))
level_doer = doer_of (record { it = false; batch = none; result = none; engine = no_keys })

leveldb_crud-table_example :
    let r =
      crud_ops
        (ia_leveldb table_level)
        settings
        printable_keys
        0
        (pair_of 1)
        (pair_of 2)
        level_doer in
    let m = (r.1.ctx).engine in
    (r.0 ≡ again success 1)
    × ((r.1.ctx).batch ≡ none)
    × (m (1 ∷ []) ≡ some (7 ∷ []))
    × (m (2 ∷ []) ≡ none)
    × ((key : List ℕ) → (pair_of 1).k ≢ key → (pair_of 2).k ≢ key → m key ≡ none)
leveldb_crud-table_example =
    leveldb_crud-table table_level is_table settings printable_keys 0 (pair_of 1) (pair_of 2)
      level_doer keys_differ
