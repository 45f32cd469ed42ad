-- ===== src/Drivers/Store.antt =====
-- What a storage driver of src/drivers promises to a benchmark other than iterate: a table of keys and
-- values, and no errors but a missing key.
pub mod Engine
pub mod Refines
pub mod Crud
use ioarena.Base.{ℕ, Option, none, some, List, if◌then◌else◌}
use ioarena.Base.Bytes.{same_bytes}
use ioarena.Bench.{Benchmark}
use ioarena.Kv.Gen.{IaKv}
use ioarena.Doer.Driver.{Rc, success, not_found, Driver}
use ioarena.Doer.Turn.{minus_one}
use ioarena.Drivers.Lmdb.{value_bytes}

abbrev pub Store : Type 0
Store = (key : List ℕ) → Option (List ℕ)

abbrev pub no_keys : Store
no_keys key = none

unfoldable pub assign : List ℕ → List ℕ → Store → Store
assign k v m key = if same_bytes k key then some v else m key

unfoldable pub unassign : List ℕ → Store → Store
unassign k m key = if same_bytes k key then none else m key

abbrev pub found_or_not : Option (List ℕ) → Rc
found_or_not none = not_found
found_or_not (some v) = success

abbrev pub store_next : Store → Benchmark → IaKv → Rc × IaKv × Store
store_next m Benchmark.ia_set kv = (success, kv, assign kv.k (value_bytes kv.v) m)
store_next m Benchmark.ia_delete kv = (found_or_not (m kv.k), kv, unassign kv.k m)
store_next m Benchmark.ia_get kv = (found_or_not (m kv.k), kv, m)
store_next m Benchmark.ia_iterate kv = (minus_one, kv, m)
store_next m Benchmark.ia_batch kv = (minus_one, kv, m)
store_next m Benchmark.ia_crud kv = (minus_one, kv, m)

abbrev pub store_driver : Driver Store
store_driver = record {
  begin = λ m b. (success, m);
  next = store_next;
  finish = λ m b. (success, m);
}
