-- ===== src/Kv/Gen.antt =====
-- The generator of src/ia_kv.c: `struct ia_kvgen`, `ia_kvgen_init` and `ia_kvgen_get`. A pointer
-- into `gen->buf` is given as the bytes that it points to once `kv_pair` has written them.
pub mod Period
use ioarena.Base.{
  ℕ, ◌+◌, ◌*◌, ◌%◌, Bool, Option, none, some, List, take, drop, u32, u64, if◌then◌else◌, ◌==◌,
}
use ioarena.Kv.Fill.{Globals, align, kvpair_bytes, stride, Run, done, ◌>>=◌, kv_pair}

-- `iakv`: `none` is a null pointer.
pub record IaKv : Type 0 where
  pub ksize : ℕ
  pub vsize : ℕ
  pub k : List ℕ
  pub v : Option (List ℕ)

-- `struct ia_kvgen` but for the buffer.
pub record KvGen : Type 0 where
  pub base : ℕ
  pub serial : ℕ
  pub vsize : ℕ
  pub vage : ℕ
  pub pair_bytes : ℕ

-- `ia_kvgen_init`: `allocated` tells whether `realloc` gave memory, and `sector_start period ksector
-- nsectors` is `period * (double)ksector / nsectors` as a `uint64_t`. `none` is -1.
unfoldable pub kvgen_init :
    (sector_start : ℕ → ℕ → ℕ → ℕ)
    → Globals
    → (allocated : Bool) → (kspace ksector vsize vage : ℕ) → Option KvGen
kvgen_init sector_start g allocated kspace ksector vsize vage =
    if allocated
    then some (record {
      base = u64 (kspace * g.period);
      serial = (if ksector == 0 then 0 else sector_start g.period ksector g.nsectors % g.period);
      vsize = vsize;
      vage = vage;
      pair_bytes = u32 (kvpair_bytes g vsize);
    })
    else none

-- gen->serial = (gen->serial + 1) % period
abbrev pub advance : Globals → KvGen → KvGen
advance g gen = record gen { serial = u64 (gen.serial + 1) % g.period }

-- `ia_kvgen_get`
unfoldable pub kvgen_get : Globals → KvGen → (key_only : Bool) → Run (IaKv × KvGen)
kvgen_get g gen key_only =
    let vsize = if key_only then 0 else gen.vsize in
    kv_pair g vsize gen.vage (u64 (gen.base + gen.serial)) >>= λ buf. done (
      record {
        ksize = g.ksize;
        vsize = vsize;
        k = take g.ksize buf;
        v = if key_only then none else some (take vsize (drop (stride g g.ksize) buf));
      },
      advance g gen,
    )
