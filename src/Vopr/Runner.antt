-- ===== src/Vopr/Runner.antt =====
-- crates/tak-bus-vopr/src/runner.rs and op.rs: the simulator's operations, how they are picked, and
-- the loop that applies each to the bus and to the model and compares the two. The random generator
-- is a list of draws; printing and the log of recent operations are left out.
pub mod Compare
pub mod Loop
pub mod Slots
pub mod Simulates
pub mod Subscribe
pub mod Foretold
pub mod Dispatched
pub mod Snapshots
pub mod Agreement
mod Tests
use tak_rs.Common.{
  ℕ, zero, suc, ◌+◌, ◌-◌, ◌%◌, ◌^◌, Bool, true, false, not, ◌&&◌, ◌||◌, Option, none, some, List,
  [], ◌∷◌, ◌++◌, ltb, leb, ◌==◌, ◌=?◌, if◌then◌else◌, length, drop, get_elem?, is_empty,
}
use mathlib.Core.Option
use tak_rs.Bus.Identity.{SubscriptionId, id_eq}
use tak_rs.Bus.TypeIndex.{Ids}
use tak_rs.Bus.Platform.{Platform}
use tak_rs.Bus.Filter.{Filter, Inbound}
use tak_rs.Bus.State.{Bus, SubscriptionStats, DispatchStats, new, len, subscription_stats}
use tak_rs.Bus.Dispatch.{dispatch, try_send_to, saturating_inc}
use tak_rs.Vopr.Model.{
  ModelSub, handle_alive, predict, apply_prediction, add_sub, drop_handle, drop_receiver, drain,
}

module _ (p : Platform) where
  pub data Op : Type 0 where
    subscribe : Filter p → ℕ → Op
    dispatch_op : Inbound p → Op
    drop_handle_op : ℕ → Op
    drain_receiver : ℕ → ℕ → Op
    drop_receiver_op : ℕ → Op
    try_send_to_stale : Op
    snapshot_stats : Op

  pub record Model : Type 0 where
    pub subs : List (ModelSub p)
    pub dropped_ids : Ids

  -- What the loop works on; `scratch` is the scratch of `dispatch`.
  pub record World : Type 0 where
    pub bus : Bus p
    pub model : Model
    pub scratch : Ids

  -- The reasons for a failure.
  pub data Failure : Type 0 where
    delivered_mismatch dropped_full_mismatch : Failure
    stale_accepted stale_count stale_changed : Failure
    still_there missing delivered_differs dropped_full_differs too_many : Failure
    len_differs : Failure

  pub data Outcome : Type 0 where
    ok : ℕ → Outcome
    failed : ℕ → Failure → Outcome

  abbrev pub change_slot {ℓ} : {A : Type ℓ} → ℕ → (A → A) → List A → List A
  change_slot i f [] = []
  change_slot zero f (x ∷ xs) = f x ∷ xs
  change_slot (suc i) f (x ∷ xs) = x ∷ change_slot i f xs

  -- `Model::STALE_ID_RING_CAP` is 32.
  unfoldable pub remember : Option SubscriptionId → Ids → Ids
  remember none ids = ids
  remember (some id) ids =
      let pushed = ids ++ (id ∷ []) in if ltb 32 (length pushed) then drop 1 pushed else pushed

  abbrev pub count_live : List (ModelSub p) → ℕ
  count_live [] = 0
  count_live (s ∷ subs) = (if handle_alive p s then 1 else 0) + count_live subs

  unfoldable pub live_count : Model → ℕ
  live_count model = count_live model.subs

  -- The operations of `Model` that take a slot, with what `get_mut` finds there.
  unfoldable pub drop_handle_found : ℕ → Option (ModelSub p) → World → World
  unfolding remember
  drop_handle_found slot none w = w
  drop_handle_found slot (some s) w =
      let (dropped, s', bus) = drop_handle p s w.bus in
      record w {
        bus = bus;
        model = record {
          subs = change_slot slot (λ t. s') w.model.subs;
          dropped_ids = remember dropped w.model.dropped_ids;
        };
      }

  unfoldable pub drop_handle_at : ℕ → World → World
  unfolding drop_handle_found
  drop_handle_at slot w = drop_handle_found slot (get_elem? w.model.subs slot) w

  unfoldable pub drain_found : ℕ → ℕ → Option (ModelSub p) → World → World
  drain_found slot max none w = w
  drain_found slot max (some s) w =
      let (drained, s', bus) = drain p s max w.bus in
      record w {
        bus = bus;
        model = record w.model { subs = change_slot slot (λ t. s') w.model.subs };
      }

  unfoldable pub drain_at : ℕ → ℕ → World → World
  unfolding drain_found
  drain_at slot max w = drain_found slot max (get_elem? w.model.subs slot) w

  unfoldable pub drop_receiver_found : ℕ → Option (ModelSub p) → World → World
  drop_receiver_found slot none w = w
  drop_receiver_found slot (some s) w =
      let (dropped, s', bus) = drop_receiver p s w.bus in
      record w {
        bus = bus;
        model = record w.model { subs = change_slot slot (λ t. s') w.model.subs };
      }

  unfoldable pub drop_receiver_at : ℕ → World → World
  unfolding drop_receiver_found
  drop_receiver_at slot w = drop_receiver_found slot (get_elem? w.model.subs slot) w

  unfoldable pub apply_subscribe : Filter p → ℕ → World → World
  apply_subscribe filter capacity w =
      let (s, bus) = add_sub p filter capacity w.bus in
      record w { bus = bus; model = record w.model { subs = w.model.subs ++ (s ∷ []) } }

  -- What the model foretells of a dispatch: the totals, and the outcome for each slot.
  pub record Expected : Type 0 where
    pub delivered : ℕ
    pub dropped_full : ℕ
    pub per_sub_changes : List (ℕ × Bool)

  unfoldable pub expect : ℕ → Option Bool → Expected → Expected
  expect i none x = x
  expect i (some true) x = record x {
    delivered = saturating_inc x.delivered;
    per_sub_changes = x.per_sub_changes ++ ((i, true) ∷ []);
  }
  expect i (some false) x = record x {
    dropped_full = saturating_inc x.dropped_full;
    per_sub_changes = x.per_sub_changes ++ ((i, false) ∷ []);
  }

  unfoldable pub predict_all : Inbound p → ℕ → List (ModelSub p) → Expected → Expected
  unfolding expect
  predict_all msg i [] x = x
  predict_all msg i (s ∷ subs) x = predict_all msg (suc i) subs (expect i (predict p s msg) x)

  abbrev pub no_expectation : Expected
  no_expectation = record { delivered = 0; dropped_full = 0; per_sub_changes = [] }

  unfoldable pub apply_changes : List (ℕ × Bool) → List (ModelSub p) → List (ModelSub p)
  apply_changes [] subs = subs
  apply_changes ((i, delivered) ∷ changes) subs =
      apply_changes changes (change_slot i (apply_prediction p (some delivered)) subs)

  unfoldable pub apply_dispatch : Inbound p → World → Option Failure × World
  unfolding predict_all apply_changes
  apply_dispatch msg w =
      let expected = predict_all msg 0 w.model.subs no_expectation in
      let (scratch, bus, stats) = dispatch p msg w.scratch w.bus in
      let after = record w { bus = bus; scratch = scratch } in
      if not (stats.delivered == expected.delivered)
      then (some delivered_mismatch, after)
      else if not (stats.dropped_full == expected.dropped_full)
      then (some dropped_full_mismatch, after)
      else (
        none,
        record after {
          model = record w.model { subs = apply_changes expected.per_sub_changes w.model.subs };
        },
      )
