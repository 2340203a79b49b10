-- ===== src/Storage/Segment/Column/RoundTrip.antt =====
-- What `expand` reads of what `column` wrote.
use pvlog.Common.{
  ℕ, suc, ◌+◌, ◌*◌, ◌/◌, ◌%◌, ◌≤◌, ◌<◌, ◌≡◌, refl, ◌∙◌, Bool, true, false, ◌&&◌, List, [], ◌∷◌,
  ◌++◌, Option, none, some, ==_refl, length, length-append, length-replicate, get_or-replicate,
  get_elem?-append_length, All, All-replicate, if◌then◌else◌, arith, ℤ, pos, ◌-ℤ◌, wrap_i64, in_i64,
  InI64, ok, err,
}
use pvlog.Common.{checked_add_step}
use pvlog.Storage.Segment.{overflow}
use mathlib.Core.List.{append_assoc, append-nil}
use pvlog.Storage.Segment.Column.{
  has_bit, set_bit, column_loop, column, expand_loop, expand, div_ceil_8,
}
use pvlog.Storage.Segment.Column.Bits.{
  IsByte, set_bit-IsByte, length-set_bit, has_bit-set_bit, byte_bit-zero,
}

abbrev pub is_some {ℓ} : {A : Type ℓ} → Option A → Bool
is_some none = false
is_some (some a) = true

-- The values of a column are i64s.
abbrev pub OptionInI64 : Option ℤ → Type 0
OptionInI64 none = Unit {0}
OptionInI64 (some v) = InI64 v

-- The difference of each value and the one before it, which `column` takes, is an i64.
abbrev pub steps_fit : ℤ → List (Option ℤ) → Bool
steps_fit previous [] = true
steps_fit previous (none ∷ vs) = steps_fit previous vs
steps_fit previous (some v ∷ vs) = in_i64 (v -ℤ previous) && steps_fit v vs

abbrev deltas_of : ℤ → List (Option ℤ) → List ℤ
deltas_of previous [] = []
deltas_of previous (none ∷ vs) = deltas_of previous vs
deltas_of previous (some v ∷ vs) = wrap_i64 (v -ℤ previous) ∷ deltas_of v vs

-- The bits from `i` on say which rows have a value.
abbrev pub Marks : List ℕ → ℕ → List (Option ℤ) → Type 0
Marks p i [] = Unit {0}
Marks p i (v ∷ vs) = (has_bit p i ≡ is_some v) × Marks p (suc i) vs

column_loop-deltas :
    (i : ℕ) (p : List ℕ) (ds : List ℤ) (previous : ℤ) (vs : List (Option ℤ))
    → (column_loop i p ds previous vs).1 ≡ ds ++ deltas_of previous vs
unfolding column_loop
column_loop-deltas i p ds previous [] = rw append-nil
column_loop-deltas i p ds previous (none ∷ vs) = column_loop-deltas (suc i) p ds previous vs
column_loop-deltas i p ds previous (some v ∷ vs) =
    column_loop-deltas (suc i) (set_bit p i) (ds ++ (wrap_i64 (v -ℤ previous) ∷ [])) v vs
    ∙ append_assoc ds _ _

length-column_loop :
    (i : ℕ) (p : List ℕ) (ds : List ℤ) (previous : ℤ) (vs : List (Option ℤ))
    → length (column_loop i p ds previous vs).0 ≡ length p
unfolding column_loop
length-column_loop i p ds previous [] = refl
length-column_loop i p ds previous (none ∷ vs) = length-column_loop (suc i) p ds previous vs
length-column_loop i p ds previous (some v ∷ vs) =
    length-column_loop (suc i) (set_bit p i) _ v vs ∙ length-set_bit p i

-- The loop leaves the bits of the rows that it has passed.
column_loop_keeps :
    (i : ℕ) (p : List ℕ) (ds : List ℤ) (previous : ℤ) (vs : List (Option ℤ)) (j : ℕ)
    → All IsByte p
    → i + length vs ≤ 8 * length p
    → j < i
    → has_bit (column_loop i p ds previous vs).0 j ≡ has_bit p j
unfolding column_loop
column_loop_keeps i p ds previous [] j b fits h = refl
column_loop_keeps i p ds previous (none ∷ vs) j b fits h =
    column_loop_keeps (suc i) p ds previous vs j b (omega arith) (omega arith)
column_loop_keeps i p ds previous (some v ∷ vs) j b fits h =
    column_loop_keeps (suc i) (set_bit p i) _ v vs j (set_bit-IsByte p i b)
      (omega (arith, length-set_bit p i)) (omega arith)
    ∙ (rw (has_bit-set_bit p i j b (omega arith)) (ground arith))

column_loop-Marks :
    (i : ℕ) (p : List ℕ) (ds : List ℤ) (previous : ℤ) (vs : List (Option ℤ))
    → All IsByte p
    → i + length vs ≤ 8 * length p
    → ((j : ℕ) → i ≤ j → has_bit p j ≡ false)
    → Marks (column_loop i p ds previous vs).0 i vs
unfolding column_loop
column_loop-Marks i p ds previous [] b fits clear = tt
column_loop-Marks i p ds previous (none ∷ vs) b fits clear = (
  column_loop_keeps (suc i) p ds previous vs i b (omega arith) (omega arith)
      ∙ clear i (omega arith),
  column_loop-Marks (suc i) p ds previous vs b (omega arith) (λ j h. clear j (omega arith)),
)
column_loop-Marks i p ds previous (some v ∷ vs) b fits clear = (
  column_loop_keeps (suc i) (set_bit p i) _ v vs i (set_bit-IsByte p i b)
        (omega (arith, length-set_bit p i)) (omega arith)
      ∙ rw (has_bit-set_bit p i i b (omega arith), ==_refl i),
  column_loop-Marks (suc i) (set_bit p i) _ v vs (set_bit-IsByte p i b)
      (omega (arith, length-set_bit p i))
      (λ j h. rw (has_bit-set_bit p i j b (omega arith)) (ground (arith, clear j))),
)

expand_loop-Marks :
    (vs : List (Option ℤ)) (i : ℕ) (p : List ℕ) (read : List ℤ) (previous : ℤ)
    (out : List (Option ℤ))
    → InI64 previous
    → All OptionInI64 vs
    → Marks p i vs
    → expand_loop (length vs) i p (read ++ deltas_of previous vs) (length read) previous out ≡ (
        if steps_fit previous vs
        then ok (out ++ vs, length (read ++ deltas_of previous vs))
        else err overflow)
unfolding expand_loop
expand_loop-Marks [] i p read previous out hp hv m = rw (append-nil out, append-nil read)
expand_loop-Marks (none ∷ vs) i p read previous out hp hv m = ground (
  arith,
  append_assoc out (none ∷ []) vs,
  expand_loop-Marks vs (suc i) p read previous (out ++ (none ∷ [])) hp hv.1 m.1,
)
expand_loop-Marks (some v ∷ vs) i p read previous out hp hv m = ground (
  arith,
  append_assoc out (some v ∷ []) vs,
  append_assoc read (wrap_i64 (v -ℤ previous) ∷ []) (deltas_of v vs),
  length-append read (wrap_i64 (v -ℤ previous) ∷ []),
  get_elem?-append_length read (deltas_of v vs) (wrap_i64 (v -ℤ previous)),
  checked_add_step previous v hp hv.0,
  expand_loop-Marks vs (suc i) p (read ++ (wrap_i64 (v -ℤ previous) ∷ [])) v (out ++ (some v ∷ []))
      hv.0 hv.1 m.1,
)

length-column : (vs : List (Option ℤ)) → length (column vs).0 ≡ div_ceil_8 (length vs)
unfolding column
length-column vs = length-column_loop 0 _ [] (pos 0) vs ∙ length-replicate _ 0

column-deltas : (vs : List (Option ℤ)) → (column vs).1 ≡ deltas_of (pos 0) vs
unfolding column
column-deltas vs = column_loop-deltas 0 _ [] (pos 0) vs

pub column-Marks : (vs : List (Option ℤ)) → Marks (column vs).0 0 vs
unfolding column has_bit
column-Marks vs =
    column_loop-Marks 0 _ [] (pos 0) vs (All-replicate IsByte _ 0 (omega arith))
      (omega (arith, length-replicate {A = ℕ} (div_ceil_8 (length vs)) 0))
      (λ j h.
        rw (get_or-replicate {A = ℕ} (div_ceil_8 (length vs)) (j / 8) 0)
          (byte_bit-zero (j % 8) (omega arith)))

-- `expand` gives back the values that `column` was given, when every difference of neighbouring
-- values is an i64, and otherwise fails with `Overflow`.
pub expand-column :
    (vs : List (Option ℤ))
    → All OptionInI64 vs
    → expand (column vs).0 (column vs).1 (length vs)
      ≡ (if steps_fit (pos 0) vs then ok vs else err overflow)
unfolding expand
expand-column vs h =
    rw (column-deltas vs, length-column vs, ==_refl)
      (ground (
        arith,
        expand_loop-Marks vs 0 (column vs).0 [] (pos 0) [] (omega arith) h (column-Marks vs),
        ==_refl (length (deltas_of (pos 0) vs)),
      ))
