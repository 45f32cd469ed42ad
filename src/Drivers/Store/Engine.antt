-- ===== src/Drivers/Store/Engine.antt =====
-- What src/drivers/ia_lmdb.c relies on: an engine of one client that has room for what is put, and
-- commits it.
use ioarena.Base.{ℕ, ◌≡◌, Bool, Option, none, some, List}
use ioarena.Drivers.Lmdb.{Mdb, mdb_success, mdb_notfound, MdbEngine}
use ioarena.Drivers.Store.{Store, assign, unassign}

abbrev pub mdb_answer : Option (List ℕ) → Mdb
mdb_answer none = mdb_notfound
mdb_answer (some v) = mdb_success

-- The table that the current transaction sees, and whether nothing in it waits for a commit. What is
-- not committed an abort undoes.
pub record IsStore {S : Type 0} (e : MdbEngine S) : Type 1 where
  pub contents : S → Store
  pub Clean : S → Type 0
  pub begun :
      (rdonly : Bool) (s : S)
      → Clean s
      → ((e.txn_begin rdonly s).0 ≡ mdb_success)
        × (contents (e.txn_begin rdonly s).1 ≡ contents s)
        × Clean (e.txn_begin rdonly s).1
  pub aborted : (s : S) → Clean s → (contents (e.txn_abort s) ≡ contents s) × Clean (e.txn_abort s)
  pub committed :
      (s : S)
      → ((e.txn_commit s).0 ≡ mdb_success)
        × (contents (e.txn_commit s).1 ≡ contents s)
        × Clean (e.txn_commit s).1
  pub renewed :
      (s : S) → Clean s → (contents (e.txn_renew s).1 ≡ contents s) × Clean (e.txn_renew s).1
  pub was_reset :
      (s : S) → Clean s → (contents (e.txn_reset s) ≡ contents s) × Clean (e.txn_reset s)
  pub closed :
      (s : S) → Clean s → (contents (e.cursor_close s) ≡ contents s) × Clean (e.cursor_close s)
  pub was_put :
      (k v : List ℕ) (s : S)
      → ((e.put k v s).0 ≡ mdb_success) × (contents (e.put k v s).1 ≡ assign k v (contents s))
  pub deleted :
      (k : List ℕ) (s : S)
      → ((e.del k s).0 ≡ mdb_answer (contents s k))
        × (contents (e.del k s).1 ≡ unassign k (contents s))
  pub got :
      (k : List ℕ) (s : S)
      → ((e.get k s).0 ≡ mdb_answer (contents s k)) × (contents (e.get k s).1 ≡ contents s)
  pub got_clean : (k : List ℕ) (s : S) → Clean s → Clean (e.get k s).1
