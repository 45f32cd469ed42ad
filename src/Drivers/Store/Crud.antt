-- ===== src/Drivers/Store/Crud.antt =====
-- What the four operations of a crud or batch do to a table.
use ioarena.Base.{ℕ, ◌≡◌, ◌≢◌, refl, sym, ◌∙◌, Bool-cases, inl, inr, none, some, List}
use ioarena.Base.Bytes.{same_bytes, same_bytes_refl, same_bytes→eq}
use ioarena.Kv.Gen.{IaKv}
use ioarena.Doer.Driver.{success, Conf, Doer, next}
use ioarena.Doer.Quadruple.{ia_quadruple}
use ioarena.Drivers.Lmdb.{value_bytes}
use ioarena.Drivers.Store.{Store, assign, unassign, store_driver}

pub assign-same : (k v : List ℕ) (m : Store) → assign k v m k ≡ some v
unfolding assign
assign-same k v m = rw (same_bytes_refl k) refl

pub assign-other : (k v q : List ℕ) (m : Store) → k ≢ q → assign k v m q ≡ m q
unfolding assign
assign-other k v q m ne = elim (Bool-cases (same_bytes k q)) [
  | inl same ↦ absurd (ne (same_bytes→eq k q same))
  | inr other ↦ rw other refl
]

pub unassign-same : (k : List ℕ) (m : Store) → unassign k m k ≡ none
unfolding unassign
unassign-same k m = rw (same_bytes_refl k) refl

pub unassign-other : (k q : List ℕ) (m : Store) → k ≢ q → unassign k m q ≡ m q
unfolding unassign
unassign-other k q m ne = elim (Bool-cases (same_bytes k q)) [
  | inl same ↦ absurd (ne (same_bytes→eq k q same))
  | inr other ↦ rw other refl
]

-- For two pairs with different keys, the four operations on a table succeed whatever it held and
-- whether or not missing keys are ignored: they leave the first key with its value, the second key
-- without one, and every other key as it was, and hand both pairs and both generators back unchanged.
pub quadruple-table :
    (conf : Conf) (a b : IaKv) (d : Doer Store)
    → a.k ≢ b.k
    → let q = ia_quadruple store_driver conf a b d in
      (q.rc ≡ success)
      × (q.a ≡ a)
      × (q.b ≡ b)
      × (q.doer.ctx a.k ≡ some (value_bytes a.v))
      × (q.doer.ctx b.k ≡ none)
      × ((key : List ℕ) → a.k ≢ key → b.k ≢ key → q.doer.ctx key ≡ d.ctx key)
      × (q.doer.gen_a ≡ d.gen_a)
      × (q.doer.gen_b ≡ d.gen_b)
unfolding ia_quadruple next
quadruple-table conf a b d ne =
    let v = value_bytes a.v in
    let with_b = assign b.k (value_bytes b.v) d.ctx in
    let there : assign a.k v with_b b.k ≡ some (value_bytes b.v) =
      assign-other a.k v b.k with_b ne ∙ assign-same b.k (value_bytes b.v) d.ctx in
    let kept : unassign b.k (assign a.k v with_b) a.k ≡ some v =
      unassign-other b.k a.k (assign a.k v with_b) (λ e. ne (sym e)) ∙ assign-same a.k v with_b in
    let others : (key : List ℕ)
        → a.k ≢ key
        → b.k ≢ key
        → unassign b.k (assign a.k v with_b) key ≡ d.ctx key =
      λ key na nb.
        unassign-other b.k key (assign a.k v with_b) nb
        ∙ assign-other a.k v key with_b na
        ∙ assign-other b.k (value_bytes b.v) key d.ctx nb in
    rw there (
      rw kept (refl, refl, refl, refl, unassign-same b.k (assign a.k v with_b), others, refl, refl))
