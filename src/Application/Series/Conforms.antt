-- ===== src/Application/Series/Conforms.antt =====
-- What a query that succeeds answers.
use Prim.Native.String.{String}
use pvlog.Common.{
  ℕ, ◌≡◌, ◌≢◌, sym, ap, subst, ◌∙◌, ◌⊎◌, inl, inr, ◌↔◌, Bool, true, false, not, List, [], ◌∷◌,
  Option, ◌==◌, All, All-map, Bool-cases, ℤ, ok, map_err, >>=-eq-ok, fail_if-eq-ok, ok_injective,
  map_err-eq-ok, arith,
}
use pvlog.Common.Stateful.{and_then-eq-ok}
use pvlog.Application.Planner.Budget.{plan_query-Stages}
use pvlog.Application.Planner.{
  SeriesField, QueryResolution, QueryPlan, QueryPlanRequest, all_fields, plan_query,
}
use pvlog.Application.Series.{
  PlannedSeries, SeriesQueryResult, plan, missing_series, field_index, insert_field, count_in,
  check_series, check_all, sort_by_field, validate_series,
}
use pvlog.Application.Series.Query.{SeriesQueryRepository, execute, query}
use pvlog.Application.Series.Fields.{field_index_injective, listed, count_in-full}
use pvlog.Application.Series.Proper.{IsProper, check_series-IsProper}
use pvlog.Application.Series.Order.{
  IsInOrder, Shows, Distinct, sort_by_field-All, sort_by_field-IsInOrder, sort_by_field-Shows,
}

-- What the loop has found out about the series when it ends with a set of fields.
record Checked (fields seen after : SeriesField → Bool) (resolution : QueryResolution)
    (start end : ℤ) (maximum_points : ℕ) (series : List PlannedSeries) : Type 0 where
  proper : All (IsProper resolution start end maximum_points) series
  requested : All (λ i. fields i.field ≡ true) series
  fresh : All (λ i. seen i.field ≡ false) series
  distinct : Distinct series
  kept : (f : SeriesField) → after f ≡ true → (seen f ≡ true) ⊎ Shows f series

inserted :
    (seen : SeriesField → Bool) (field f : SeriesField)
    → insert_field seen field f ≡ false
    → (seen f ≡ false) × (field_index f ≢ field_index field)
unfolding insert_field
inserted seen field f h = (ground arith, λ e. ground arith)

present :
    (seen : SeriesField → Bool) (field f : SeriesField)
    → insert_field seen field f ≡ true
    → (field ≡ f) ⊎ (seen f ≡ true)
unfolding insert_field
present seen field f h = elim (Bool-cases (field_index f == field_index field)) [
  | inl same ↦ inl (field_index_injective field f (ground arith))
  | inr other ↦ inr (ground arith)
]

check_all-Checked :
    (fields : SeriesField → Bool) (resolution : QueryResolution) (start end : ℤ)
    (maximum_points : ℕ) (seen : SeriesField → Bool) (series : List PlannedSeries)
    (after : SeriesField → Bool)
    → check_all fields resolution start end maximum_points seen series ≡ ok after
    → Checked fields seen after resolution start end maximum_points series
unfolding check_all
check_all-Checked fields resolution start end maximum_points seen [] after e = record {
  proper = tt;
  requested = tt;
  fresh = tt;
  distinct = tt;
  kept = λ f h. inl (ap (λ s. s f) (ok_injective seen after e) ∙ h);
}
check_all-Checked fields resolution start end maximum_points seen (item ∷ series) after e =
    let (done, one, e1) =
      >>=-eq-ok (check_series fields resolution start end maximum_points seen item) _ e in
    let (requested, fresh, proper) =
      check_series-IsProper fields resolution start end maximum_points seen item done one in
    let rest =
      check_all-Checked fields resolution start end maximum_points (insert_field seen item.field)
        series after e1 in
    record {
      proper = (proper, rest.proper);
      requested = (requested, rest.requested);
      fresh = (fresh, All-map (λ i h. (inserted seen item.field i.field h).0) series rest.fresh);
      distinct = (
        All-map (λ i h. (inserted seen item.field i.field h).1) series rest.fresh,
        rest.distinct,
      );
      kept = λ f h. elim (rest.kept f h) [
        | inl k ↦ elim (present seen item.field f k) [
          | inl same ↦ inr (inl same)
          | inr before ↦ inl before
        ]
        | inr k ↦ inr (inr k)
      ];
    }

shown_requested :
    (fields : SeriesField → Bool) (f : SeriesField) (series : List PlannedSeries)
    → All (λ i. fields i.field ≡ true) series
    → Shows f series
    → fields f ≡ true
shown_requested fields f [] h k = elim k [ ]
shown_requested fields f (item ∷ series) h (inl e) = ap fields (sym e) ∙ h.0
shown_requested fields f (item ∷ series) h (inr k) = shown_requested fields f series h.1 k

-- The answer to a request at a resolution.
pub record Answers (request : QueryPlanRequest) (resolution : QueryResolution)
    (series : List PlannedSeries) : Type 0 where
  pub in_order : IsInOrder series
  pub exactly : (f : SeriesField) → (request.fields f ≡ true) ↔ Shows f series
  pub proper :
      All
        (IsProper resolution request.start_epoch_millis request.end_epoch_millis
          request.maximum_points)
        series

validate_series-Answers :
    (request : QueryPlanRequest) (resolution : QueryResolution) (series sorted : List PlannedSeries)
    → validate_series series request.fields resolution request.start_epoch_millis
        request.end_epoch_millis request.maximum_points
      ≡ ok sorted
    → Answers request resolution sorted
unfolding validate_series
validate_series-Answers request resolution series sorted e =
    let (after, checked, e1) =
      >>=-eq-ok
        (check_all request.fields resolution request.start_epoch_millis request.end_epoch_millis
          request.maximum_points (λ _. false) series)
        _ e in
    let (full, e2) =
      fail_if-eq-ok (not (count_in after all_fields == count_in request.fields all_fields))
        missing_series _ e1 in
    let c = check_all-Checked request.fields resolution _ _ _ (λ _. false) series after checked in
    let shown : (f : SeriesField) → after f ≡ true → Shows f series =
      λ f h. elim (c.kept f h) [ inl k ↦ cc | inr k ↦ k ] in
    let inside : (f : SeriesField) → after f ≡ true → request.fields f ≡ true =
      λ f h. shown_requested request.fields f series c.requested (shown f h) in
    subst (Answers request resolution) (ok_injective (sort_by_field series) sorted e2) (record {
      in_order = sort_by_field-IsInOrder series c.distinct;
      exactly = λ f. (
        (λ h. (sort_by_field-Shows f series).1 (
            shown f (
              count_in-full after request.fields all_fields f inside (ground arith) (listed f) h))),
        (λ h.
            shown_requested request.fields f series c.requested
              ((sort_by_field-Shows f series).0 h)),
      );
      proper = sort_by_field-All _ series c.proper;
    })

-- Over any storage, if a query succeeds, then its request has a plan, and the result has the plan's
-- resolution, the request's time zone, and one series for each field requested and for no other, in the
-- order of the fields, each with its unit, few enough rising points in the range with a sound coverage, no
-- provenance on aggregates, and gaps in the range.
pub query-Answers :
    (Tz W : Type 0) (parse : String → Option Tz) (storage : SeriesQueryRepository Tz W)
    (system_id : ℕ) (request : QueryPlanRequest) (w : W) (result : SeriesQueryResult)
    → (query Tz W parse storage system_id request w).0 ≡ ok result
    → (planned : QueryPlan Tz) × (plan_query Tz parse request ≡ ok planned)
      × (result.actual_resolution ≡ planned.actual_resolution)
      × (result.timezone ≡ request.timezone)
      × Answers request planned.actual_resolution result.series
unfolding query
query-Answers Tz W parse storage system_id request w result e =
    let (planned, made, e1) = and_then-eq-ok _ (map_err plan (plan_query Tz parse request), w) e in
    let made_plan = map_err-eq-ok plan (plan_query Tz parse request) made in
    let (series, _, e2) = and_then-eq-ok _ (execute storage system_id planned w) e1 in
    let (sorted, checked, e3) =
      and_then-eq-ok _
        (
          validate_series series planned.fields planned.actual_resolution request.start_epoch_millis
              request.end_epoch_millis request.maximum_points,
          (execute storage system_id planned w).1,
        )
        e2 in
    let same = ok_injective _ result e3 in
    let answers = validate_series-Answers request planned.actual_resolution series sorted (
      subst
        (λ f.
          validate_series series f planned.actual_resolution request.start_epoch_millis
            request.end_epoch_millis request.maximum_points
          ≡ ok sorted)
        (plan_query-Stages Tz parse request planned made_plan).fields checked) in
    (
      planned,
      made_plan,
      ap (λ r. r.actual_resolution) (sym same),
      ap (λ r. r.timezone) (sym same),
      subst (λ r. Answers request planned.actual_resolution r.series) same answers,
    )
