-- ===== src/Storage/Rollups/Buckets.antt =====
-- `build_rollups` walks the samples once, and gives each window the samples that lie in it.
use pvlog.Common.{
  ◌≡◌, refl, sym, ap, ◌∙◌, inl, inr, Bool, true, false, not, ◌&&◌, List, [], ◌∷◌, Option, none,
  some, if◌then◌else◌, All, All-map, ℤ, ltb_ℤ, leb_ℤ, ◌≤ℤ◌, ◌<ℤ◌, ok, ◌>>=◌, >>=-eq-ok,
  fail_if-eq-ok, ok_injective, err_ne_ok, arith, Bool-cases, subst,
}
use pvlog.Storage.Rollups.{
  RollupGranularity, RollupWindow, RollupSample, TelemetryRollup, Rolled, invalid_window,
  sample_ordering, sample_outside_windows, invalid, validate_windows, unordered, take_bucket,
  rollup_of, push, roll_windows, is_empty, build_rollups,
}

-- A sample lies in a window if its timestamp does; the end is outside.
unfoldable pub lies_in : RollupWindow → RollupSample → Bool
lies_in w s =
    leb_ℤ w.start_epoch_millis s.timestamp_epoch_millis
    && ltb_ℤ s.timestamp_epoch_millis w.end_epoch_millis

unfoldable pub within : RollupWindow → List RollupSample → List RollupSample
within w [] = []
within w (s ∷ samples) = let rest = within w samples in if lies_in w s then s ∷ rest else rest

-- The reference: each window is rolled up by itself, from all the samples that lie in it.
unfoldable pub roll_each : List RollupWindow → List RollupSample → Rolled (List TelemetryRollup)
roll_each [] samples = ok []
roll_each (w ∷ windows) samples = do
  rollup ← rollup_of w (within w samples)
  rest ← roll_each windows samples
  ok (push rollup rest)

abbrev From : ℤ → List RollupSample → Type 0
From t = All (λ s. t ≤ℤ s.timestamp_epoch_millis)

abbrev IsAscending : List RollupSample → Type 0
IsAscending [] = Unit {0}
IsAscending (s ∷ samples) =
    All (λ u. s.timestamp_epoch_millis <ℤ u.timestamp_epoch_millis) samples × IsAscending samples

-- Windows that are not empty, one after the other.
abbrev IsChained : List RollupWindow → Type 0
IsChained [] = Unit {0}
IsChained (w ∷ windows) =
    (w.start_epoch_millis <ℤ w.end_epoch_millis)
    × All (λ v. w.end_epoch_millis ≤ℤ v.start_epoch_millis) windows
    × IsChained windows

rising_from :
    (s t : RollupSample) (samples : List RollupSample)
    → s.timestamp_epoch_millis <ℤ t.timestamp_epoch_millis
    → All (λ u. t.timestamp_epoch_millis <ℤ u.timestamp_epoch_millis) samples
    → All (λ u. s.timestamp_epoch_millis <ℤ u.timestamp_epoch_millis) samples
rising_from s t samples h = All-map (λ u k. omega arith) samples

ordered-IsAscending :
    (samples : List RollupSample) → unordered samples ≡ false → IsAscending samples
unfolding unordered
ordered-IsAscending [] h = tt
ordered-IsAscending (s ∷ []) h = (tt, tt)
ordered-IsAscending (s ∷ t ∷ samples) h =
    let rest = ordered-IsAscending (t ∷ samples) (ground arith) in
    let rises : s.timestamp_epoch_millis <ℤ t.timestamp_epoch_millis = ground arith in
    ((rises, rising_from s t samples rises rest.0), rest)

-- The windows that follow a valid one do not start before its end.
after_window :
    (v w : RollupWindow) (windows : List RollupWindow)
    → v.end_epoch_millis ≤ℤ w.start_epoch_millis
    → w.start_epoch_millis <ℤ w.end_epoch_millis
    → All (λ u. w.end_epoch_millis ≤ℤ u.start_epoch_millis) windows
    → All (λ u. v.end_epoch_millis ≤ℤ u.start_epoch_millis) windows
after_window v w windows h k = All-map (λ u g. omega arith) windows

abbrev Follows : Option RollupWindow → List RollupWindow → Type 0
Follows none windows = Unit {0}
Follows (some v) windows = All (λ w. v.end_epoch_millis ≤ℤ w.start_epoch_millis) windows

abbrev Apart : Option RollupWindow → RollupWindow → Type 0
Apart none w = Unit {0}
Apart (some v) w = v.end_epoch_millis ≤ℤ w.start_epoch_millis

invalid_tests :
    (g : RollupGranularity) (before : Option RollupWindow) (w : RollupWindow)
    → invalid g before w ≡ false
    → (w.start_epoch_millis <ℤ w.end_epoch_millis) × Apart before w
unfolding invalid
invalid_tests g none w h = (ground arith, tt)
invalid_tests g (some v) w h = (ground arith, ground arith)

valid-IsChained :
    (g : RollupGranularity) (before : Option RollupWindow) (windows : List RollupWindow)
    (done : Unit {0})
    → validate_windows g before windows ≡ ok done
    → Follows before windows × IsChained windows
unfolding validate_windows
valid-IsChained g none [] d e = (tt, tt)
valid-IsChained g (some v) [] d e = (tt, tt)
valid-IsChained g none (w ∷ windows) d e =
    let (fine, e1) = fail_if-eq-ok (invalid g none w) invalid_window _ e in
    let (after, chained) = valid-IsChained g (some w) windows d e1 in
    (tt, ((invalid_tests g none w fine).0, after, chained))
valid-IsChained g (some v) (w ∷ windows) d e =
    let (fine, e1) = fail_if-eq-ok (invalid g (some v) w) invalid_window _ e in
    let (after, chained) = valid-IsChained g (some w) windows d e1 in
    let (proper, apart) = invalid_tests g (some v) w fine in
    ((apart, after_window v w windows apart proper after), (proper, after, chained))

within_past :
    (w : RollupWindow) (t : ℤ) (samples : List RollupSample)
    → w.end_epoch_millis ≤ℤ t
    → All (λ s. t ≤ℤ s.timestamp_epoch_millis) samples
    → within w samples ≡ []
unfolding within lies_in
within_past w t [] h past = refl
within_past w t (s ∷ samples) h past = ground (arith, within_past w t samples h past.1)

-- The bucket is what lies in the window, and what is left lies past its end, with all that any later
-- window holds.
record Split (w : RollupWindow) (samples : List RollupSample)
    (split : List RollupSample × List RollupSample) : Type 0 where
  bucket : split.0 ≡ within w samples
  past : All (λ s. w.end_epoch_millis ≤ℤ s.timestamp_epoch_millis) split.1
  ascending : IsAscending split.1
  later :
      (v : RollupWindow)
      → w.end_epoch_millis ≤ℤ v.start_epoch_millis
      → within v split.1 ≡ within v samples

Split-end :
    (w : RollupWindow) (s : RollupSample) (samples : List RollupSample)
    → IsAscending (s ∷ samples)
    → ltb_ℤ s.timestamp_epoch_millis w.end_epoch_millis ≡ false
    → Split w (s ∷ samples) ([], s ∷ samples)
Split-end w s samples h past =
    let reached : w.end_epoch_millis ≤ℤ s.timestamp_epoch_millis = ground arith in
    let all_past : All (λ u. w.end_epoch_millis ≤ℤ u.timestamp_epoch_millis) (s ∷ samples) =
      (reached, All-map (λ u k. omega arith) samples h.0) in
    record {
      bucket = sym (within_past w w.end_epoch_millis (s ∷ samples) (omega arith) all_past);
      past = all_past;
      ascending = h;
      later = λ v k. refl;
    }

Split-cons :
    (w : RollupWindow) (s : RollupSample) (samples : List RollupSample)
    (split : List RollupSample × List RollupSample)
    → ltb_ℤ s.timestamp_epoch_millis w.end_epoch_millis ≡ true
    → ltb_ℤ s.timestamp_epoch_millis w.start_epoch_millis ≡ false
    → Split w samples split
    → Split w (s ∷ samples) (s ∷ split.0, split.1)
unfolding within lies_in
Split-cons w s samples split before_end inside r = record {
  bucket = let here : lies_in w s ≡ true = ground arith in rw here (ap (λ b. s ∷ b) r.bucket);
  past = r.past;
  ascending = r.ascending;
  later = λ v k. let elsewhere : lies_in v s ≡ false = ground arith in rw elsewhere (r.later v k);
}

take_bucket-Split :
    (w : RollupWindow) (samples : List RollupSample) (split : List RollupSample × List RollupSample)
    → IsAscending samples
    → take_bucket w samples ≡ ok split
    → Split w samples split
unfolding take_bucket
take_bucket-Split w [] split h e =
    subst (Split w []) (ok_injective ([], []) split e)
      (record { bucket = unfold within in refl; past = tt; ascending = tt; later = λ v k. refl })
take_bucket-Split w (s ∷ samples) split h e =
    elim (Bool-cases (ltb_ℤ s.timestamp_epoch_millis w.end_epoch_millis)) [
      | inl before_end ↦ elim (Bool-cases (ltb_ℤ s.timestamp_epoch_millis w.start_epoch_millis)) [
        | inl early ↦ absurd (err_ne_ok (rw (before_end, early) at e))
        | inr inside ↦
            let (rest, taken, e1) =
              >>=-eq-ok (take_bucket w samples) _ (rw (before_end, inside) at e) in
            subst (Split w (s ∷ samples)) (ok_injective (s ∷ rest.0, rest.1) split e1) (
              Split-cons w s samples rest before_end inside
                (take_bucket-Split w samples rest h.1 taken))
      ]
      | inr past ↦
          subst (Split w (s ∷ samples)) (ok_injective ([], s ∷ samples) split (rw past at e))
            (Split-end w s samples h past)
    ]

-- Later windows hold the same of what is left.
roll_each-left :
    (t : ℤ) (windows : List RollupWindow) (left samples : List RollupSample)
    → ((v : RollupWindow) → t ≤ℤ v.start_epoch_millis → within v left ≡ within v samples)
    → All (λ v. t ≤ℤ v.start_epoch_millis) windows
    → roll_each windows left ≡ roll_each windows samples
unfolding roll_each
roll_each-left t [] left samples h k = refl
roll_each-left t (w ∷ windows) left samples h k =
    rw (h w k.0, roll_each-left t windows left samples h k.1) refl

roll_windows-roll_each :
    (windows : List RollupWindow) (samples : List RollupSample)
    (rolled : List TelemetryRollup × List RollupSample)
    → IsChained windows
    → IsAscending samples
    → roll_windows windows samples ≡ ok rolled
    → roll_each windows samples ≡ ok rolled.0
unfolding roll_windows roll_each
roll_windows-roll_each [] samples rolled c a e =
    ap ok (ap (λ r. r.0) (ok_injective ([], samples) rolled e))
roll_windows-roll_each (w ∷ windows) samples rolled c a e =
    let (split, taken, e1) = >>=-eq-ok (take_bucket w samples) _ e in
    let (rollup, rolled_up, e2) = >>=-eq-ok (rollup_of w split.0) _ e1 in
    let (rest, others, e3) = >>=-eq-ok (roll_windows windows split.1) _ e2 in
    let r = take_bucket-Split w samples split a taken in
    let later = roll_windows-roll_each windows split.1 rest c.2 r.ascending others in
    rw
      (
        ← r.bucket,
        rolled_up,
        ← roll_each-left w.end_epoch_millis windows split.1 samples r.later c.1,
        later,
      )
      (ap ok (ap (λ x. x.0) (ok_injective (push rollup rest.0, rest.1) rolled e3)))

-- What is built is what rolling up each window by itself, from all the samples that lie in it, gives.
pub build_rollups-roll_each :
    (granularity : RollupGranularity) (samples : List RollupSample) (windows : List RollupWindow)
    (rollups : List TelemetryRollup)
    → build_rollups granularity samples windows ≡ ok rollups
    → roll_each windows samples ≡ ok rollups
unfolding build_rollups
build_rollups-roll_each granularity samples windows rollups e =
    let (d, valid, e1) = >>=-eq-ok (validate_windows granularity none windows) _ e in
    let (ordered, e2) = fail_if-eq-ok (unordered samples) sample_ordering _ e1 in
    let (rolled, rolled_up, e3) = >>=-eq-ok (roll_windows windows samples) _ e2 in
    let (all_used, e4) = fail_if-eq-ok (not (is_empty rolled.1)) sample_outside_windows _ e3 in
    roll_windows-roll_each windows samples rolled
      (valid-IsChained granularity none windows d valid).1 (ordered-IsAscending samples ordered)
      rolled_up
    ∙ e4
