-- ===== src/Config/Names.antt =====
-- The names of benchmarks and modes in src/ia_config.c.
use ioarena.Base.{
  ℕ, ◌≡◌, refl, true, false, ◌||◌, ◌↔◌, Bool-cases, inl, inr, arith, Option, none, some, List,
  if◌then◌else◌,
}
use ioarena.Base.Text.{codes, same_nocase, same_nocase_both}
use ioarena.Bench.{Benchmark}

-- `iasyncmode` and `iawalmode`
pub data SyncMode : Type 0 where
  ia_sync ia_lazy ia_nosync : SyncMode

pub data WalMode : Type 0 where
  ia_wal_indef ia_wal_on ia_wal_off : WalMode

unfoldable pub ia_syncmode2str : SyncMode → List ℕ
ia_syncmode2str SyncMode.ia_sync = codes "sync"
ia_syncmode2str SyncMode.ia_lazy = codes "lazy"
ia_syncmode2str SyncMode.ia_nosync = codes "nosync"

-- `none` is -1.
unfoldable pub ia_str2syncmode : List ℕ → Option SyncMode
ia_str2syncmode str =
    if same_nocase str (ia_syncmode2str SyncMode.ia_sync)
    then some SyncMode.ia_sync
    else if same_nocase str (ia_syncmode2str SyncMode.ia_lazy)
    then some SyncMode.ia_lazy
    else if same_nocase str (ia_syncmode2str SyncMode.ia_nosync)
    then some SyncMode.ia_nosync
    else none

unfoldable pub ia_walmode2str : WalMode → List ℕ
ia_walmode2str WalMode.ia_wal_indef = codes "indef"
ia_walmode2str WalMode.ia_wal_on = codes "walon"
ia_walmode2str WalMode.ia_wal_off = codes "waloff"

-- `none` is -1.
unfoldable pub ia_str2walmode : List ℕ → Option WalMode
ia_str2walmode str =
    if same_nocase str (ia_walmode2str WalMode.ia_wal_indef)
    then some WalMode.ia_wal_indef
    else if same_nocase str (ia_walmode2str WalMode.ia_wal_on)
    then some WalMode.ia_wal_on
    else if same_nocase str (ia_walmode2str WalMode.ia_wal_off)
    then some WalMode.ia_wal_off
    else none

unfoldable pub ia_benchmarkof : Benchmark → List ℕ
ia_benchmarkof Benchmark.ia_set = codes "set"
ia_benchmarkof Benchmark.ia_get = codes "get"
ia_benchmarkof Benchmark.ia_delete = codes "del"
ia_benchmarkof Benchmark.ia_iterate = codes "iter"
ia_benchmarkof Benchmark.ia_batch = codes "batch"
ia_benchmarkof Benchmark.ia_crud = codes "crud"

-- `none` is IA_MAX.
unfoldable pub ia_benchmark : List ℕ → Option Benchmark
ia_benchmark name =
    if same_nocase name (codes "set")
    then some Benchmark.ia_set
    else if same_nocase name (codes "get")
    then some Benchmark.ia_get
    else if same_nocase name (codes "del") || same_nocase name (codes "delete")
    then some Benchmark.ia_delete
    else if same_nocase name (codes "iter") || same_nocase name (codes "iterate")
    then some Benchmark.ia_iterate
    else if same_nocase name (codes "batch")
    then some Benchmark.ia_batch
    else if same_nocase name (codes "crud") || same_nocase name (codes "transact")
    then some Benchmark.ia_crud
    else none

-- A text is at most one of two names that differ in more than case.
one_name :
    (str x y : List ℕ)
    → same_nocase x y ≡ false
    → same_nocase str y ≡ true
    → same_nocase str x ≡ false
one_name str x y differ is_y = elim (Bool-cases (same_nocase str x)) [
  | inr not_x ↦ not_x
  | inl is_x ↦ let both = same_nocase_both str x y is_x is_y in absurd (ground arith)
]

read_syncmode2str :
    (str : List ℕ) (m : SyncMode)
    → (ia_str2syncmode str ≡ some m) ↔ (same_nocase str (ia_syncmode2str m) ≡ true)
unfolding ia_str2syncmode ia_syncmode2str
read_syncmode2str str SyncMode.ia_sync = (λ h. ground arith, λ h. rw h refl)
read_syncmode2str str SyncMode.ia_lazy =
    (λ h. ground arith, λ h. rw (one_name str (codes "sync") (codes "lazy") refl h, h) refl)
read_syncmode2str str SyncMode.ia_nosync = (
  λ h. ground arith,
  λ h.
      rw
        (
          one_name str (codes "sync") (codes "nosync") refl h,
          one_name str (codes "lazy") (codes "nosync") refl h,
          h,
        )
        refl,
)

read_walmode2str :
    (str : List ℕ) (m : WalMode)
    → (ia_str2walmode str ≡ some m) ↔ (same_nocase str (ia_walmode2str m) ≡ true)
unfolding ia_str2walmode ia_walmode2str
read_walmode2str str WalMode.ia_wal_indef = (λ h. ground arith, λ h. rw h refl)
read_walmode2str str WalMode.ia_wal_on =
    (λ h. ground arith, λ h. rw (one_name str (codes "indef") (codes "walon") refl h, h) refl)
read_walmode2str str WalMode.ia_wal_off = (
  λ h. ground arith,
  λ h.
      rw
        (
          one_name str (codes "indef") (codes "waloff") refl h,
          one_name str (codes "walon") (codes "waloff") refl h,
          h,
        )
        refl,
)

-- A name that is read as a sync mode is, but for its case, the one that this mode is printed with,
-- and that one is read so; and the same for wal modes.
pub mode_names :
    (str : List ℕ)
    → ((m : SyncMode)
        → (ia_str2syncmode str ≡ some m) ↔ (same_nocase str (ia_syncmode2str m) ≡ true))
      × ((m : WalMode)
          → (ia_str2walmode str ≡ some m) ↔ (same_nocase str (ia_walmode2str m) ≡ true))
mode_names str = (read_syncmode2str str, read_walmode2str str)

-- The name of each benchmark is read back as that benchmark.
pub ia_benchmark-benchmarkof : (b : Benchmark) → ia_benchmark (ia_benchmarkof b) ≡ some b
unfolding ia_benchmark ia_benchmarkof
ia_benchmark-benchmarkof Benchmark.ia_set = refl
ia_benchmark-benchmarkof Benchmark.ia_get = refl
ia_benchmark-benchmarkof Benchmark.ia_delete = refl
ia_benchmark-benchmarkof Benchmark.ia_iterate = refl
ia_benchmark-benchmarkof Benchmark.ia_batch = refl
ia_benchmark-benchmarkof Benchmark.ia_crud = refl
