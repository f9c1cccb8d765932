-- ===== src/Tests/Updates.antt =====
-- The comparison and the delivery at sample entries and views.
use strategy_core.Common.{
  ℕ, zero, suc, ◌+◌, ◌≤◌, ◌≡◌, refl, sym, ap, ◌==◌, true, Option, none, some, List, [], ◌∷◌, inl,
  inr, concat, contains, filter, if◌then◌else◌, ok, arith,
}
use mathlib.Core.Option.{some-injective}
use strategy_core.Wire.Orders.{BrokerOrderV6, RunnerEntryV6, OrderUpdateStatusV6, is_live}
use strategy_core.Wire.Text.{valid_identifier}
use strategy_core.Wire.Broker.{
  validate_broker_order_v6, order_names_valid, quantities_valid, order_prices_valid,
  valid_order_reservation, order_texts_valid,
}
use strategy_core.Wire.Runner.{bad_counters, order_fields_valid, shape}
use strategy_core.Updates.Records.{
  Note, Derived, Failure, seen_status, order_record, command_record,
}
use strategy_core.Updates.Compare.{
  View, compare, compare_place, compare_order, compare_missing, compare_cancel, absent,
}
use strategy_core.Updates.Derive.{derive_from_section, compare_notes, tracked, adopt, step_of}
use strategy_core.Updates.Finalize.{settle, evict, finalize, tombstones}
use strategy_core.Updates.Delivery.{
  delivery_order, group, candidates, pull, targets, is_target, names, indexes, step_at,
  sort_deferred, insert_sorted,
}
use strategy_core.Updates.Indexes.{updates_at}
use strategy_core.Updates.Ordered.{times, before, times-delivery_order, before-delivery_order}
use strategy_core.Updates.Fills.{run, decide, opened, told-lost-run, told-all_shown}
use strategy_core.Updates.Validity.{EntryIsValid, OrderFits, compare-EntryIsValid}
use strategy_core.Updates.Evict.{evict-le, evict-live}
use strategy_core.Updates.Preserves.{Context, InBounds, finalize-InBounds}
use strategy_core.Updates.Derive.{adopted_step}
use strategy_core.Updates.Records.{note, adopted}
use strategy_core.Updates.Derive.{tracked, derive_from_section, compare_notes, adopt}
use strategy_core.Updates.Tracking.{left, derive_from_section-tracked}
use strategy_core.Common.{◌↔◌}
use strategy_core.Wire.Runner.{validate_runner_section}
use strategy_core.Updates.Validated.{SectionIsValid, validate_runner_section_lem}
use strategy_core.Updates.Retry.{Unheard, length-Unheard}
use strategy_core.Updates.Quiet.{compare-quiet}
use strategy_core.Updates.Acknowledge.{acknowledgements_from_view}
use strategy_core.Updates.Acknowledged.{Acknowledged, acknowledgements_from_view_lem}
use strategy_core.Tests.Samples.{
  order_at, order_60, place_entry, cancel_entry, view_at, view_60, view_refused, section_of,
  two_steps,
}

delivery_order_test : delivery_order two_steps ≡ (1 ∷ 0 ∷ []) ∷ []
unfolding delivery_order group candidates pull targets is_target names indexes step_at sort_deferred
    insert_sorted compare compare_place compare_order compare_missing compare_cancel absent
    seen_status order_record command_record
delivery_order_test = refl

times-delivery_order_example :
    times 1 (concat (delivery_order two_steps)) ≡ (if updates_at two_steps 1 then 1 else 0)
times-delivery_order_example = times-delivery_order 1 two_steps

before-delivery_order_example : before 1 0 (concat (delivery_order two_steps)) ≡ true
unfolding targets is_target names indexes step_at compare compare_place compare_order compare_cancel
    seen_status order_record command_record
before-delivery_order_example = before-delivery_order two_steps 1 0 refl refl

-- The kernel fails once on a fill of 20 and is then told of 60.
abbrev two_views : List (View × Option Failure)
two_views = (view_at 6 (order_at 20 80 ∷ []) [], some Failure.counted) ∷ (view_60, none) ∷ []

abbrev caught_up_60 : RunnerEntryV6
caught_up_60 = record place_entry {
  order_id = some "o1";
  last_status = some OrderUpdateStatusV6.partially_filled;
  filled_quantity_hundredths = 60;
  order_revision = 7;
}

run_test : (run two_views (opened place_entry)).told ≡ 60
unfolding run decide settle compare compare_place compare_order seen_status order_record
run_test = refl

told-lost-run_example :
    0 + (run two_views (opened place_entry)).told + (run two_views (opened place_entry)).lost ≡ 60
unfolding run decide settle compare compare_place compare_order seen_status order_record
told-lost-run_example = told-lost-run place_entry caught_up_60 two_views refl refl

told-all_shown_example :
    0
      + (decide (view_at 9 (order_at 90 10 ∷ []) []) none (run two_views (opened place_entry))).told
      + (run two_views (opened place_entry)).lost
    ≡ 90
unfolding run decide settle compare compare_place compare_order seen_status order_record
told-all_shown_example =
    told-all_shown place_entry caught_up_60 two_views (view_at 9 (order_at 90 10 ∷ []) []) refl refl

compare-quiet_example : (compare view_60 caught_up_60).update ≡ none
unfolding compare compare_place compare_order seen_status order_record
compare-quiet_example = compare-quiet view_60 place_entry caught_up_60 (λ o h. omega arith) refl

-- The sample entry and order are valid.
place_entry-EntryIsValid : EntryIsValid place_entry
unfolding bad_counters order_fields_valid shape valid_identifier
place_entry-EntryIsValid = record {
  counters = refl;
  identified = refl;
  in_bounds = refl;
  shaped = refl;
}

order_60-valid : validate_broker_order_v6 order_60 ("m1" ∷ []) ≡ ok tt
unfolding validate_broker_order_v6 order_names_valid quantities_valid order_prices_valid
    valid_order_reservation order_texts_valid valid_identifier
order_60-valid = refl

place_entry-OrderFits : OrderFits ("m1" ∷ []) view_60 place_entry
place_entry-OrderFits = record {
  orders_valid = (order_60-valid, tt);
  requested =
      λ o h. ap (λ (x : BrokerOrderV6). x.quantity_hundredths) (sym (some-injective order_60 o h));
}

compare-EntryIsValid_example : EntryIsValid caught_up_60
unfolding compare compare_place compare_order seen_status order_record
compare-EntryIsValid_example =
    compare-EntryIsValid ("m1" ∷ []) view_60 place_entry caught_up_60 place_entry-EntryIsValid
      place_entry-OrderFits refl

abbrev derived_60 : Derived
derived_60 = record {
  steps = step_of view_60 place_entry ∷ [];
  newest_view_revision = 8;
  notes = [];
}

sample-Context : Context ("m1" ∷ []) view_60 (section_of (place_entry ∷ []))
unfolding valid_identifier
sample-Context = record {
  named = (refl, tt);
  orders = (order_60-valid, tt);
  entries = (place_entry-EntryIsValid, tt);
  fits = (place_entry-OrderFits, tt);
}

-- The kernel fails on the update, and the decision issues the place's cancel.
abbrev first_fails : ℕ → Option Failure
first_fails i = if i == 0 then some Failure.counted else none

finalize-InBounds_example :
    (es : List RunnerEntryV6) × (notes : List Note) × (finalize first_fails
        (cancel_entry ∷ [])
        derived_60.steps
        derived_60.notes
      ≡ some (es, notes))
    × InBounds (cancel_entry ∷ []) es
unfolding derive_from_section compare_notes tracked adopt compare compare_place compare_order
    seen_status order_record bad_counters order_fields_valid shape valid_identifier
finalize-InBounds_example =
    finalize-InBounds ("m1" ∷ []) view_60 (section_of (place_entry ∷ [])) derived_60 first_fails
      (cancel_entry ∷ []) sample-Context refl (inr refl, tt)
      (record { counters = refl; identified = refl; in_bounds = refl; shaped = refl }, tt)

abbrev graves : ℕ → List RunnerEntryV6
graves zero = []
graves (suc n) = record place_entry { vanished = true; vanished_revision = suc n } ∷ graves n

evict-le_example : tombstones (evict 34 [] (place_entry ∷ graves 34)).0 ≤ 32
evict-le_example = evict-le 34 [] (place_entry ∷ graves 34) (omega arith)

evict-live_example :
    filter is_live (evict 34 [] (place_entry ∷ graves 34)).0
    ≡ filter is_live (place_entry ∷ graves 34)
evict-live_example = evict-live 34 [] (place_entry ∷ graves 34)

acknowledgements_from_view_lem_example :
    (contains "x1" (acknowledgements_from_view view_refused (some "r1") (place_entry ∷ [])) ≡ true)
    ↔ Acknowledged view_refused (some "r1") (place_entry ∷ []) "x1"
acknowledgements_from_view_lem_example =
    acknowledgements_from_view_lem view_refused (some "r1") (place_entry ∷ []) "x1"

-- The kernel fails once on an update that is then delivered again.
once_failed : Unheard ((view_60, Failure.counted) ∷ []) place_entry
unfolding settle compare compare_place compare_order seen_status order_record
once_failed =
    Unheard.again view_60 Failure.counted [] place_entry
      (record place_entry { delivery_failures = 1 })
      (record {
        entry = some (record place_entry { delivery_failures = 1 });
        notes = [];
        pending = [];
      })
      refl refl refl refl (Unheard.fresh (record place_entry { delivery_failures = 1 }))

length-Unheard_example : suc 1 ≤ 24
unfolding bad_counters
length-Unheard_example =
    length-Unheard ((view_60, Failure.counted) ∷ []) place_entry refl once_failed

-- An open order of a fresh view, which no entry tracks.
abbrev derived_adopted : Derived
derived_adopted = record {
  steps = adopted_step order_60 8 ∷ [];
  newest_view_revision = 8;
  notes = note "runner_order_adopted" "p1" ∷ [];
}

derive_from_section-tracked_example : contains "p1" (left derived_adopted.steps) ≡ true
unfolding derive_from_section compare_notes tracked adopt adopted
derive_from_section-tracked_example =
    derive_from_section-tracked view_60 (section_of []) derived_adopted order_60 refl refl tt
      (omega arith) (inl refl) refl refl tt

validate_runner_section_lem_example :
    (validate_runner_section (section_of (place_entry ∷ [])) ≡ ok tt)
    ↔ SectionIsValid (section_of (place_entry ∷ []))
validate_runner_section_lem_example = validate_runner_section_lem (section_of (place_entry ∷ []))
