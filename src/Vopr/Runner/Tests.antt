-- ===== src/Vopr/Runner/Tests.antt =====
-- The simulator on the small platform: a run of a few operations, and its parts.
use tak_rs.Common.{
  ℕ, Bool, true, false, none, some, List, [], ◌∷◌, length, count, min, ◌+◌, ◌-◌, ◌^◌, list_eqb,
  if◌then◌else◌, ◌≡◌, refl, arith, ◌=?◌, ◌==◌,
}
use tak_rs.Bus.Identity.{SubscriptionId, id_eq}
use tak_rs.Bus.Groups.{intersects}
use tak_rs.Bus.Platform.{sent}
use tak_rs.Bus.Platform.Small.{small, small_laws, small_channel_laws}
use tak_rs.Bus.Filter.{filter_matches}
use tak_rs.Bus.TypeIndex.{trim, split}
use tak_rs.Bus.TypeIndex.Pattern.{type_prefix_matches}
use tak_rs.Bus.Registry.{fresh_entry}
use tak_rs.Bus.State.{entry_of}
use tak_rs.Bus.Dispatch.{dispatch}
use tak_rs.Bus.Dispatch.Counters.{counter, answers, dispatch-counter}
use tak_rs.Vopr.Model.Tests.{filter, message, tracked, bus1, bus1-IsValid, bus1-entry_of}
use tak_rs.Vopr.Runner.{Outcome}
use tak_rs.Vopr.Runner.Loop.{Draw, run_with_skip}
use tak_rs.Vopr.Runner.Agreement.{run_with_skip-ok}

-- A subscription of capacity 2, and the operation that the roll picks.
abbrev draw_of : ℕ → Draw small
draw_of roll = record {
  roll = roll;
  below = λ n. 0;
  filter = filter;
  capacity = 2;
  max = 1;
  inbound = message;
}

-- Two subscriptions, messages, a drain, two drops, a send to a stale id and a snapshot.
abbrev draws : List (Draw small)
draws =
    draw_of 0
    ∷ draw_of 5
    ∷ draw_of 90
    ∷ draw_of 90
    ∷ draw_of 90
    ∷ draw_of 30
    ∷ draw_of 50
    ∷ draw_of 90
    ∷ draw_of 17
    ∷ draw_of 53
    ∷ draw_of 55
    ∷ []

abbrev skip_third : ℕ → Bool
skip_third i = i == 2

run_with_skip-ok_example :
    run_with_skip small skip_third 8 (1 ∷ []) draws ≡ Outcome.ok (length draws)
run_with_skip-ok_example =
    run_with_skip-ok small small_laws small_channel_laws (λ e s. refl) skip_third 8 (1 ∷ []) draws
      (omega arith)
      (
        omega arith,
        (
          omega arith,
          (
            omega arith,
            (
              omega arith,
              (
                omega arith,
                (
                  omega arith,
                  (omega arith, (omega arith, (omega arith, (omega arith, (omega arith, tt))))),
                ),
              ),
            ),
          ),
        ),
      )

taken :
    1 + 0
    ≡ (if answers small small_laws message sent (some (fresh_entry small filter 0 2)) then 1 else 0)
unfolding fresh_entry filter_matches type_prefix_matches trim intersects list_eqb split
taken = refl

only_tracked :
    (id : SubscriptionId)
    → count id (tracked.id ∷ [])
      ≡ (if answers small small_laws message sent (entry_of small bus1.subs id) then 1 else 0)
only_tracked id = rw (bus1-entry_of id) (both (id =? tracked.id))
  where
    both :
        (b : Bool)
        → (if b then 1 else 0) + 0 ≡ (
            if answers small small_laws message sent
              (if b then some (fresh_entry small filter 0 2) else none)
            then 1
            else 0)
    both true = taken
    both false = refl

dispatch-counter_example :
    counter small sent (dispatch small message [] bus1).2
    ≡ min (length (tracked.id ∷ [])) (2 ^ 32 - 1)
dispatch-counter_example =
    dispatch-counter small small_laws message sent [] bus1 (tracked.id ∷ []) bus1-IsValid
      only_tracked
