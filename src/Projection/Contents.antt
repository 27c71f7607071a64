-- ===== src/Projection/Contents.antt =====
-- What `_prepare_projection` promises of the chunks it returns.
use reminder.Prelude.{
  ℕ, ℤ, pos, String, ◌≡◌, refl, sym, subst, ap, ◌∙◌, Bool, true, List, [], ◌∷◌, map, Perm, All,
  length, eqb_int_eq, ◌==◌, if◌then◌else◌, eq_iff, arith, distinct, sort_with-perm,
}
use reminder.Projection.Record.{
  DocumentChunkPayload, DocumentProjection, DocumentProjectionBatch, Result, ok, raised,
  incomplete_projection, ◌>>◌, require, Python,
}
use reminder.Projection.Stage.{validate_sha256, snapshot_hash}
use reminder.Projection.Prepare.{
  PreparedProjection, range_from, same_numbers, same_integers, load_projection_batches,
  staged_chunks, join, leb_chunk, sort_chunks, check_contents, check_chunks, prepared_of,
  prepare_projection,
}

same_numbers_eq : (xs ys : List ℕ) → same_numbers xs ys ≡ true → xs ≡ ys
same_numbers_eq [] [] e = refl
same_numbers_eq [] (y ∷ ys) e = absurd (ground (arith, e))
same_numbers_eq (x ∷ xs) [] e = absurd (ground (arith, e))
same_numbers_eq (x ∷ xs) (y ∷ ys) e =
    let head : x ≡ y = ground (arith, e) in
    let tail : xs ≡ ys = same_numbers_eq xs ys (ground (arith, e)) in cc (head, tail)

same_integers_eq : (xs ys : List ℤ) → same_integers xs ys ≡ true → xs ≡ ys
same_integers_eq [] [] e = refl
same_integers_eq [] (y ∷ ys) e = absurd (ground (arith, e))
same_integers_eq (x ∷ xs) [] e = absurd (ground (arith, e))
same_integers_eq (x ∷ xs) (y ∷ ys) e =
    let head : x ≡ y = eqb_int_eq x y (ground (arith, e)) in
    let tail : xs ≡ ys = same_integers_eq xs ys (ground (arith, e)) in cc (head, tail)

required : (b : Bool) {m : Result (Unit {0})} → (require b >> m) ≡ ok tt → (b ≡ true) × (m ≡ ok tt)
required b {m} e = (ground (arith, e), ground (arith, e))

then_ok : (m k : Result (Unit {0})) → (m >> k) ≡ ok tt → (m ≡ ok tt) × (k ≡ ok tt)
then_ok m k e = (ground (arith, e), ground (arith, e))

module _ (py : Python) where
  -- The content hash of each chunk is that of its content.
  abbrev pub IsHashed : DocumentChunkPayload → Type 0
  IsHashed c = py.sha256 c.content ≡ c.content_hash

  -- The checks passed.
  pub record IsChecked (aggregate_hash : String) (chunks : List DocumentChunkPayload) : Type 0 where
    pub contiguous : map (λ c. c.chunk_index) chunks ≡ map pos (range_from 0 (length chunks))
    pub unique_ids :
        length (map (λ c. c.chunk_id) chunks) ≡ length (distinct [] (map (λ c. c.chunk_id) chunks))
    pub contents : All IsHashed chunks
    pub aggregate : py.sha256 (join (map (λ c. c.content_hash) chunks)) ≡ aggregate_hash

  check_contents-IsHashed :
      (chunks : List DocumentChunkPayload) → check_contents py chunks ≡ ok tt → All IsHashed chunks
  check_contents-IsHashed [] e = tt
  check_contents-IsHashed (c ∷ cs) e =
      let (digest, e1) = then_ok (validate_sha256 py c.content_hash) _ e in
      let (same, e2) = required (py.sha256 c.content == c.content_hash) e1 in
      ((eq_iff (py.sha256 c.content) c.content_hash).0 same, check_contents-IsHashed cs e2)

  check_chunks-IsChecked :
      (aggregate_hash : String) (chunks : List DocumentChunkPayload)
      → check_chunks py aggregate_hash chunks ≡ ok tt
      → IsChecked aggregate_hash chunks
  unfolding check_chunks
  check_chunks-IsChecked hash chunks e =
      let (indexes, e1) = required _ e in
      let (ids, e2) = required _ e1 in
      let (contents, e3) = then_ok (check_contents py chunks) _ e2 in
      let (digest, e4) = then_ok (validate_sha256 py hash) _ e3 in
      record {
        contiguous = same_integers_eq _ _ indexes;
        unique_ids = ground (arith, ids);
        contents = check_contents-IsHashed chunks contents;
        aggregate =
            (eq_iff (py.sha256 (join (map (λ c. c.content_hash) chunks))) hash).0
              (ground (arith, e4));
      }

  prepared_ok :
      (p : DocumentProjection) (chunks : List DocumentChunkPayload) (r : Result (Unit {0}))
      (prepared : PreparedProjection)
      → prepared_of py p chunks r ≡ ok prepared
      → (r ≡ ok tt)
        × (prepared.chunks ≡ chunks)
        × (prepared.projection_id ≡ p.projection_id)
        × (prepared.snapshot_hash ≡ snapshot_hash py chunks)
  prepared_ok p chunks (ok tt) prepared e =
      (refl, ground (arith, e), ground (arith, e), ground (arith, e))
  prepared_ok p chunks (raised x) prepared e = absurd (ground (arith, e))

  passed :
      (test : Bool) (m : Result PreparedProjection) (prepared : PreparedProjection)
      → (if test then m else raised incomplete_projection) ≡ ok prepared
      → (test ≡ true) × (m ≡ ok prepared)
  passed test m prepared e = (ground (arith, e), ground (arith, e))

  -- A projection that is prepared has its batches 0, ..., batch_count - 1 and no others, and the
  -- prepared chunks are those of the batches in some order, numbered without gap from 0, with unique
  -- ids, hashed contents and the aggregate hash of the projection.
  pub prepare_complete :
      (p : DocumentProjection) (rows : List DocumentProjectionBatch) (prepared : PreparedProjection)
      → prepare_projection py p rows ≡ ok prepared
      → (map (λ b. b.batch_index) (load_projection_batches p.projection_id rows)
          ≡ range_from 0 p.batch_count)
        × Perm prepared.chunks (staged_chunks (load_projection_batches p.projection_id rows))
        × IsChecked p.aggregate_hash prepared.chunks
        × (prepared.projection_id ≡ p.projection_id)
        × (prepared.snapshot_hash ≡ snapshot_hash py prepared.chunks)
  unfolding prepare_projection sort_chunks
  prepare_complete p rows prepared e =
      let (complete, done) = passed _ _ prepared e in
      let (checks, same, identity, digest) = prepared_ok p _ _ prepared done in
      let whole = check_chunks-IsChecked p.aggregate_hash _ checks in
      (
        same_numbers_eq _ _ complete,
        subst (λ cs. Perm cs (staged_chunks (load_projection_batches p.projection_id rows)))
            (sym same)
            (sort_with-perm (leb_chunk py)
              (staged_chunks (load_projection_batches p.projection_id rows))),
        subst (IsChecked p.aggregate_hash) (sym same) whole,
        identity,
        digest ∙ ap (snapshot_hash py) (sym same),
      )
