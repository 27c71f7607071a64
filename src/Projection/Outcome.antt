-- ===== src/Projection/Outcome.antt =====
-- What `_activate_projection` returns, on every path.
use reminder.Prelude.{
  ℕ, ◌≡◌, refl, ◌⊎◌, inl, inr, Bool, true, Option, none, some, List, map, ◌==◌, ◌≢◌, eq_iff, arith,
  Bool-cases, length, eqb,
}
use reminder.Projection.Record.{
  is_staging, is_settled, DocumentProjection, Db, Result, ok, raised, Python,
}
use reminder.Projection.Stage.{find_projection}
use reminder.Projection.Prepare.{PreparedProjection, prepare_projection}
use reminder.Projection.Activate.{
  activated, new_chunks, has_clash, swapped_chunks, activate_rechecked, activate_row,
  activate_projection,
}

module _ (py : Python) {E S : Type 0} where
  -- What the activation did: the swap of a staging projection of the table with the checked chunks.
  pub record IsSwap (now : ℕ) (prepared : PreparedProjection) (es : List E) (ss : List (Option S))
      (db db' : Db E S) : Type 0 where
    pub projection : DocumentProjection
    pub rechecked : PreparedProjection
    pub found : find_projection prepared.projection_id db.projections ≡ some projection
    pub stage : is_staging projection.status ≡ true
    pub prepares : prepare_projection py projection db.batches ≡ ok rechecked
    pub unchanged : rechecked.snapshot_hash ≡ prepared.snapshot_hash
    pub embedded : length es ≡ length rechecked.chunks
    pub sparse : length ss ≡ length rechecked.chunks
    pub result : db' ≡ record db {
      projections = map (activated now projection) db.projections;
      chunks =
          swapped_chunks projection db.projections
            (new_chunks projection rechecked.chunks es ss)
            db.chunks;
    }

  abbrev pub Activates :
      (now : ℕ)
      → PreparedProjection
      → List E
      → List (Option S)
      → Db E S
      → Result Bool × Db E S
      → Type 0
  Activates now prepared es ss db r =
      ((r.1 ≡ db) × (r.0 ≢ ok true)) ⊎ ((r.0 ≡ ok true) × IsSwap now prepared es ss db r.1)

  pub activate_cases :
      (now : ℕ) (prepared : PreparedProjection) (es : List E) (ss : List (Option S)) (db : Db E S)
      → Activates now prepared es ss db (activate_projection py now prepared es ss db)
  unfolding activate_projection
  activate_cases now prepared es ss db =
      go (find_projection prepared.projection_id db.projections) refl
    where
      swapped :
          (p : DocumentProjection) (r : PreparedProjection)
          → find_projection prepared.projection_id db.projections ≡ some p
          → is_staging p.status ≡ true
          → prepare_projection py p db.batches ≡ ok r
          → Activates now prepared es ss db (activate_rechecked py now p prepared (ok r) es ss db)
      swapped p r found fresh e = elim (Bool-cases (r.snapshot_hash == prepared.snapshot_hash)) [
        | inr n ↦ rw n (inl (refl, λ k. ground (arith, k)))
        | inl same ↦ elim (Bool-cases (eqb (length es) (length r.chunks))) [
          | inr n ↦ rw (same, n) (inl (refl, λ k. ground (arith, k)))
          | inl le ↦ elim (Bool-cases (eqb (length ss) (length r.chunks))) [
            | inr n ↦ rw (same, le, n) (inl (refl, λ k. ground (arith, k)))
            | inl ls ↦
                elim (Bool-cases (
                  has_clash
                    (swapped_chunks p db.projections (new_chunks p r.chunks es ss) db.chunks))) [
                      | inl n ↦ rw (same, le, ls, n) (inl (refl, λ k. ground (arith, k)))
                      | inr free ↦
                          rw (same, le, ls, free)
                            (inr (
                              refl,
                              record {
                                projection = p;
                                rechecked = r;
                                found = found;
                                stage = fresh;
                                prepares = e;
                                unchanged = (eq_iff r.snapshot_hash prepared.snapshot_hash).0 same;
                                embedded = ground (arith, le);
                                sparse = ground (arith, ls);
                                result = refl;
                              },
                            ))
                    ]
          ]
        ]
      ]

      rechecked :
          (p : DocumentProjection) (r : Result PreparedProjection)
          → find_projection prepared.projection_id db.projections ≡ some p
          → is_staging p.status ≡ true
          → prepare_projection py p db.batches ≡ r
          → Activates now prepared es ss db (activate_rechecked py now p prepared r es ss db)
      rechecked p (raised x) found fresh e = inl (refl, λ k. ground (arith, k))
      rechecked p (ok r) found fresh e = swapped p r found fresh e

      go :
          (o : Option DocumentProjection)
          → find_projection prepared.projection_id db.projections ≡ o
          → Activates now prepared es ss db (activate_row py now prepared o es ss db)
      go none found = inl (refl, λ k. ground (arith, k))
      go (some p) found = elim (Bool-cases (is_settled p.status)) [
        | inl e ↦ rw e (inl (refl, λ k. ground (arith, k)))
        | inr e ↦ elim (Bool-cases (is_staging p.status)) [
          | inl e' ↦ rw (e, e') (rechecked p (prepare_projection py p db.batches) found e' refl)
          | inr e' ↦ rw (e, e') (inl (refl, λ k. ground (arith, k)))
        ]
      ]
