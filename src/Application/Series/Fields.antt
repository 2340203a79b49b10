-- ===== src/Application/Series/Fields.antt =====
-- Fields are told apart by their place, and a set of fields that has as many as one around it is that one.
use pvlog.Common.{
  ℕ, zero, suc, ◌≤◌, ◌≡◌, refl, sym, ap, subst, ◌∙◌, ◌⊎◌, inl, inr, Bool, true, false, List, [],
  ◌∷◌, get_or, Any, Bool-cases, arith,
}
use pvlog.Application.Planner.{SeriesField, all_fields}
use pvlog.Application.Series.{field_index, count_in}

field_at-index : (f : SeriesField) → get_or all_fields (field_index f) SeriesField.provenance ≡ f
field_at-index SeriesField.generation_power = refl
field_at-index SeriesField.generation_energy = refl
field_at-index SeriesField.forecast_power = refl
field_at-index SeriesField.forecast_energy = refl
field_at-index SeriesField.expected_energy = refl
field_at-index SeriesField.generation_performance = refl
field_at-index SeriesField.forecast_realization = refl
field_at-index SeriesField.consumption_power = refl
field_at-index SeriesField.consumption_energy = refl
field_at-index SeriesField.grid_power = refl
field_at-index SeriesField.battery_power = refl
field_at-index SeriesField.battery_state_of_charge = refl
field_at-index SeriesField.temperature = refl
field_at-index SeriesField.extended = refl
field_at-index SeriesField.provenance = refl

pub field_index_injective : (f g : SeriesField) → field_index f ≡ field_index g → f ≡ g
field_index_injective f g e =
    sym (field_at-index f)
    ∙ ap (λ i. get_or all_fields i SeriesField.provenance) e
    ∙ field_at-index g

at_place :
    (fields : List SeriesField) (i : ℕ) (d f : SeriesField)
    → get_or fields i d ≡ f
    → (d ≡ f) ⊎ Any (λ g. g ≡ f) fields
at_place [] i d f e = inl e
at_place (g ∷ fields) zero d f e = inr (inl e)
at_place (g ∷ fields) (suc i) d f e = elim (at_place fields i d f e) [
  | inl h ↦ inl h
  | inr h ↦ inr (inr h)
]

-- The list of all fields has each.
pub listed : (f : SeriesField) → Any (λ g. g ≡ f) all_fields
listed f = elim (at_place all_fields (field_index f) SeriesField.provenance f (field_at-index f)) [
  | inl e ↦
      subst (λ x. Any (λ g. g ≡ x) all_fields) e
        (inr
          (inr (inr (inr (inr (inr (inr (inr (inr (inr (inr (inr (inr (inr (inl refl)))))))))))))))
  | inr h ↦ h
]

pub count_in_mono :
    (s t : SeriesField → Bool) (fields : List SeriesField)
    → ((f : SeriesField) → s f ≡ true → t f ≡ true)
    → count_in s fields ≤ count_in t fields
unfolding count_in
count_in_mono s t [] h = omega arith
count_in_mono s t (f ∷ fields) h = ground (arith, count_in_mono s t fields h, h f)

-- As many are in the smaller set as in the larger: then what is in the larger is in the smaller.
pub count_in-full :
    (s t : SeriesField → Bool) (fields : List SeriesField) (f : SeriesField)
    → ((g : SeriesField) → s g ≡ true → t g ≡ true)
    → count_in s fields ≡ count_in t fields
    → Any (λ g. g ≡ f) fields
    → t f ≡ true
    → s f ≡ true
unfolding count_in
count_in-full s t [] f h e at k = elim at [ ]
count_in-full s t (g ∷ fields) f h e at k = elim (Bool-cases (s g)) [
  | inl inside ↦ elim at [
    | inl same ↦ ap s (sym same) ∙ inside
    | inr later ↦ count_in-full s t fields f h (ground (arith, h g)) later k
  ]
  | inr outside ↦
      let absent : t g ≡ false = ground (arith, count_in_mono s t fields h) in
      elim at [
        | inl same ↦ absurd (bool_clash (t g) (ap t same ∙ k) absent)
        | inr later ↦ count_in-full s t fields f h (ground arith) later k
      ]
]
  where
    bool_clash : (b : Bool) → b ≡ true → b ≡ false → ⊥
    bool_clash b p q = cc
