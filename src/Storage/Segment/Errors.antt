-- ===== src/Storage/Segment/Errors.antt =====
-- When encoding refuses its input for its order.
use pvlog.Common.{
  ℕ, ◌≡◌, ◌≢◌, refl, ◌↔◌, ◌⊎◌, inl, inr, false, List, [], ◌∷◌, ◌++◌, arith, ℤ, pos, length,
  checked_add, checked_sub, err, Option-cases, Bool-cases, ◌>>=◌, >>=-ne-err, ok_or, fail_if,
}
use pvlog.Storage.Segment.{SegmentPoint, ordering, overflow, Provenance, Envelope, Libraries}
use pvlog.Storage.Segment.Encode.{
  unordered, to_u32, intern, timestamp_deltas_from, provenance_loop, last_timestamp, envelope, seal,
  encode_segment_v1,
}
use pvlog.Storage.Segment.Totality.{IsAscending, unordered-IsAscending}

IsAscending-of_ordered :
    (points : List SegmentPoint) → unordered points ≡ false → IsAscending points
unfolding unordered
IsAscending-of_ordered [] h = tt
IsAscending-of_ordered (p ∷ []) h = tt
IsAscending-of_ordered (p ∷ q ∷ points) h = ground (arith, IsAscending-of_ordered (q ∷ points))

deltas-ne-ordering :
    (previous : ℤ) (points : List SegmentPoint)
    → timestamp_deltas_from previous points ≢ err ordering
unfolding timestamp_deltas_from
deltas-ne-ordering previous [] h = cc
deltas-ne-ordering previous (p ∷ points) h =
    ground (arith, deltas-ne-ordering p.timestamp_epoch_millis points)

provenance_loop-ne-ordering :
    (points : List SegmentPoint) (table : List Provenance) (indices : List ℕ)
    → provenance_loop points table indices ≢ err ordering
unfolding provenance_loop
provenance_loop-ne-ordering [] table indices h = cc
provenance_loop-ne-ordering (p ∷ points) table indices h =
    elim (Option-cases (checked_sub p.received_at_epoch_millis p.timestamp_epoch_millis)) [
      | inl none_there ↦ ground arith
      | inr (d, there) ↦
          let entry : Provenance = record {
            source_kind = p.source_kind;
            source_reference = p.source_reference;
            received_delta = d;
          } in
          ground (
            arith,
            there,
            provenance_loop-ne-ordering points (intern entry table).1
                (indices ++ ((intern entry table).0 ∷ [])),
          )
    ]

module _ (lib : Libraries) where
  seal-ne-ordering : (n : ℕ) (e : Envelope) → seal lib n e ≢ err ordering
  unfolding seal
  seal-ne-ordering n e h = ground arith

  -- Encoding fails with `Ordering` exactly when there is no point or the timestamps do not rise
  -- strictly.
  pub encode-ordering :
      (system_id : ℕ) (points : List SegmentPoint)
      → (encode_segment_v1 lib system_id points ≡ err ordering)
        ↔ ((points ≡ []) ⊎ (¬ IsAscending points))
  unfolding encode_segment_v1
  encode-ordering system_id [] = ((λ e. inl refl), (λ h. refl))
  encode-ordering system_id (first ∷ rest) = (forward, backward)
    where
      after_order_check :
          (do
            row_count ← to_u32 (length (first ∷ rest))
            deltas ← timestamp_deltas_from first.timestamp_epoch_millis rest
            (table, indices) ← provenance_loop (first ∷ rest) [] []
            range_end ←
                ok_or
                  (checked_add (last_timestamp first.timestamp_epoch_millis rest) (pos 1))
                  overflow
            seal lib row_count
                (envelope lib system_id first rest row_count deltas range_end table indices))
          ≢ err ordering
      after_order_check =
          >>=-ne-err (to_u32 (length (first ∷ rest))) _ ordering (λ h. ground arith)
            λ n.
              >>=-ne-err (timestamp_deltas_from first.timestamp_epoch_millis rest) _ ordering
                (deltas-ne-ordering _ rest)
                λ ds.
                  >>=-ne-err (provenance_loop (first ∷ rest) [] []) _ ordering
                    (provenance_loop-ne-ordering (first ∷ rest) [] [])
                    λ t.
                      >>=-ne-err
                        (ok_or
                          (checked_add (last_timestamp first.timestamp_epoch_millis rest) (pos 1))
                          overflow)
                        _ ordering (λ h. ground arith) λ range_end. seal-ne-ordering n _

      forward :
          encode_segment_v1 lib system_id (first ∷ rest) ≡ err ordering
          → ((first ∷ rest) ≡ []) ⊎ (¬ IsAscending (first ∷ rest))
      forward e = inr λ rising.
          >>=-ne-err (fail_if (unordered (first ∷ rest)) ordering) _ ordering
            (ground (arith, unordered-IsAscending (first ∷ rest) rising)) (λ _. after_order_check) e

      backward :
          ((first ∷ rest) ≡ []) ⊎ (¬ IsAscending (first ∷ rest))
          → encode_segment_v1 lib system_id (first ∷ rest) ≡ err ordering
      backward h = elim (Bool-cases (unordered (first ∷ rest))) [
        | inl bad ↦ rw bad
        | inr good ↦ ground (arith, IsAscending-of_ordered (first ∷ rest) good)
      ]
