-- ===== src/Storage/Merge.antt =====
-- src/crates/storage/src/merged_reader.rs: the logical raw observations, merged from archived
-- segments, hot rows and overlays. The HashMap of the selected candidates is a list of pairs in the
-- order of the keys; the sort at the end makes its order immaterial.
pub mod Best
pub mod Order
pub mod Errors
mod Samples
use Prim.Native.String.{String}
use pvlog.Common.{
  ℕ, Bool, true, false, not, ◌&&◌, ◌||◌, List, [], ◌∷◌, ◌++◌, Option, none, some, ◌==◌, ltb, lookup,
  insert, Result, ok, err, ◌>>=◌, ◌>>◌, fail_if, if◌then◌else◌, ℤ, ltb_ℤ, ◌==ℤ◌,
}

pub data RawObservationOrigin : Type 0 where
  segment hot overlay : RawObservationOrigin

pub record RawObservation : Type 0 where
  pub observation_id : ℕ
  pub timestamp_epoch_millis : ℤ
  pub generation_power_watts : Option ℤ
  pub extended : List (ℕ × ℤ)
  pub source_kind : String
  pub source_reference : String
  pub received_at_epoch_millis : ℤ
  pub quality_flags : ℕ
  pub revision : ℕ
  pub deleted : Bool
  pub origin : RawObservationOrigin
  pub segment_version : Option ℕ

pub data MergedReadError : Type 0 where
  origin_mismatch : MergedReadError
  unsupported_segment_version : Option ℕ → MergedReadError

abbrev pub precedence : RawObservationOrigin → ℕ
precedence segment = 0
precedence hot = 1
precedence overlay = 2

-- The derived equality of the origins.
unfoldable pub origin_eq : RawObservationOrigin → RawObservationOrigin → Bool
origin_eq a b = precedence a == precedence b

abbrev pub is_one : Option ℕ → Bool
is_one none = false
is_one (some v) = v == 1

-- An archived candidate of another version than the first.
unfoldable pub unsupported : RawObservation → Bool
unsupported c = origin_eq c.origin segment && not (is_one c.segment_version)

-- Whether the candidate takes the place of the one that is selected.
unfoldable pub supersedes : RawObservation → RawObservation → Bool
supersedes c current =
    ltb (precedence current.origin) (precedence c.origin)
    || (origin_eq c.origin current.origin && ltb current.revision c.revision)

abbrev pub Selection : Type 0
Selection = List (ℕ × RawObservation)

abbrev pub replaces : RawObservation → Option RawObservation → Bool
replaces c none = true
replaces c (some current) = supersedes c current

unfoldable pub select : RawObservation → Selection → Selection
select c selected =
    if replaces c (lookup c.observation_id selected)
    then insert c.observation_id c selected
    else selected

-- The loop over the candidates of one physical source.
unfoldable pub select_all :
    RawObservationOrigin → List RawObservation → Selection → Result MergedReadError Selection
select_all expected [] selected = ok selected
select_all expected (c ∷ rest) selected = do
  fail_if (not (origin_eq c.origin expected)) origin_mismatch
  fail_if (unsupported c) (unsupported_segment_version c.segment_version)
  select_all expected rest (select c selected)

-- The selected candidates that are not tombstones.
unfoldable pub live_values : Selection → List RawObservation
live_values [] = []
live_values ((k, c) ∷ rest) =
    let others = live_values rest in if not c.deleted then c ∷ others else others

-- The order of the pair of timestamp and identifier.
unfoldable pub precedes : RawObservation → RawObservation → Bool
precedes a b =
    ltb_ℤ a.timestamp_epoch_millis b.timestamp_epoch_millis
    || ((a.timestamp_epoch_millis ==ℤ b.timestamp_epoch_millis)
        && ltb a.observation_id b.observation_id)

unfoldable pub insert_by_key : RawObservation → List RawObservation → List RawObservation
insert_by_key c [] = c ∷ []
insert_by_key c (d ∷ ds) =
    let rest = insert_by_key c ds in if precedes d c then d ∷ rest else c ∷ d ∷ ds

-- `sort_unstable_by_key`.
unfoldable pub sort_by_key : List RawObservation → List RawObservation
sort_by_key [] = []
sort_by_key (c ∷ cs) = insert_by_key c (sort_by_key cs)

unfoldable pub merge_raw_observations :
    List RawObservation
    → List RawObservation
    → List RawObservation
    → Result MergedReadError (List RawObservation)
merge_raw_observations segments hots overlays = do
  archived ← select_all segment segments []
  stored ← select_all hot hots archived
  corrected ← select_all overlay overlays stored
  ok (sort_by_key (live_values corrected))
