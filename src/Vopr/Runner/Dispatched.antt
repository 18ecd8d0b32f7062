-- ===== src/Vopr/Runner/Dispatched.antt =====
-- `Op::Dispatch` of crates/tak-bus-vopr/src/runner.rs: the bus reports what the model foretold.
use tak_rs.Common.{
  ℕ, ◌-◌, ◌^◌, ◌<◌, min, Bool, true, false, Option, none, some, List, [], ◌∷◌, map, All, ◌==◌,
  ==_iff, if◌then◌else◌, length, count, ◌≡◌, refl, arith, Bool-cases, Option-cases, inl, inr,
}
use mathlib.Core.Path.{sym, ◌∙◌, subst}
use mathlib.Core.Option
use tak_rs.Bus.Groups.{intersects}
use tak_rs.Bus.Identity.{SubscriptionId, id_eq}
use tak_rs.Bus.TypeIndex.{Ids}
use tak_rs.Bus.Platform.{Platform, SlabLaws, ChannelLaws}
use tak_rs.Bus.Filter.{Inbound, filter_matches, bbox_accepts}
use tak_rs.Bus.State.{Entry, Bus, entry_of, DispatchStats}
use tak_rs.Bus.Registry.Invariant.{present}
use tak_rs.Bus.Dispatch.{
  dispatch, dispatch_entry, dispatch_loop, extend_candidates, no_stats, offer,
}
use tak_rs.Bus.Dispatch.Delivery.{round, dispatch-IsValid, dispatch-entry_of}
use tak_rs.Bus.Dispatch.Counters.{answers, counter, dispatch-counter}
use tak_rs.Vopr.Model.{ModelSub}
use tak_rs.Vopr.Model.Tracks.{Tracks, dispatch-Tracks}
use tak_rs.Vopr.Runner.{World, predict_all, no_expectation, apply_dispatch}
use tak_rs.Vopr.Runner.Slots.{alive_ids}
use tak_rs.Vopr.Runner.Simulates.{Simulates, InStep, All_ids}
use tak_rs.Vopr.Runner.Foretold.{
  foretold, foretold_ids, outcome_of, expected_of, predict_all-expected_of, apply_changes-foretold,
  foretold-id, ids_of-foretold, alive_ids-foretold, count-foretold_ids,
}

module _ (p : Platform) (laws : SlabLaws p) (msg : Inbound p) where
  round-generation :
      (id : SubscriptionId) (bus : Bus p) (st : DispatchStats p)
      → (round p laws msg id (bus, st)).0.next_generation ≡ bus.next_generation
  unfolding round dispatch_entry
  round-generation id bus st = elim (Option-cases (entry_of p bus.subs id)) [
    | inl e ↦ rw e refl
    | inr (x, e) ↦ rw e (elim (Bool-cases (intersects x.filter.group_mask msg.sender_groups)) [
      | inr g ↦ rw g refl
      | inl g ↦ rw g (elim (Bool-cases (bbox_accepts p x.filter.geo_bbox msg.lat msg.lon)) [
        | inr b ↦ rw b refl
        | inl b ↦ rw b refl
      ])
    ])
  ]

  dispatch_loop-generation :
      (ids : Ids) (bus : Bus p) (st : DispatchStats p)
      → (dispatch_loop p msg ids (bus, st)).0.next_generation ≡ bus.next_generation
  unfolding dispatch_loop round
  dispatch_loop-generation [] bus st = refl
  dispatch_loop-generation (id ∷ ids) bus st =
      dispatch_loop-generation ids (round p laws msg id (bus, st)).0
        (round p laws msg id (bus, st)).1
      ∙ round-generation id bus st

  pub dispatch-generation :
      (scratch : Ids) (bus : Bus p)
      → (dispatch p msg scratch bus).1.next_generation ≡ bus.next_generation
  unfolding dispatch
  dispatch-generation scratch bus =
      dispatch_loop-generation (extend_candidates p bus msg.cot_type msg.lat msg.lon []) bus
        (no_stats p)

module _ (p : Platform) (laws : SlabLaws p) (c : ChannelLaws p) (msg : Inbound p) (w : World p)
    (m : InStep p laws c w) where
  after_bus : Bus p
  after_bus = (dispatch p msg w.scratch w.bus).1

  -- What the bus reports is what the model foretold.
  reported :
      (b : Bool)
      → counter p (outcome_of b) (dispatch p msg w.scratch w.bus).2
        ≡ expected_of p msg b (predict_all p msg 0 w.model.subs (no_expectation p))
  reported b =
      dispatch-counter p laws msg (outcome_of b) w.scratch w.bus (foretold_ids p msg b w.model.subs)
        m.valid counts
      ∙ sym (zeros b)
    where
      counts :
          (id : SubscriptionId)
          → count id (foretold_ids p msg b w.model.subs)
            ≡ (if answers p laws msg (outcome_of b) (entry_of p w.bus.subs id) then 1 else 0)
      counts id =
          count-foretold_ids p msg laws c b w.bus id w.model.subs m.tracked
          ∙ once (entry_of p w.bus.subs id) (m.counted id)
        where
          once :
              (o : Option (Entry p))
              → count id (alive_ids p w.model.subs) ≡ present p o
              → ◌≡◌ {A = ℕ}
                  (if answers p laws msg (outcome_of b) o
                    then count id (alive_ids p w.model.subs)
                    else 0)
                  (if answers p laws msg (outcome_of b) o then 1 else 0)
          once none h = refl
          once (some e) h = rw h refl

      zeros :
          (b : Bool)
          → expected_of p msg b (predict_all p msg 0 w.model.subs (no_expectation p))
            ≡ min (length (foretold_ids p msg b w.model.subs)) (2 ^ 32 - 1)
      zeros true =
          ground (arith, predict_all-expected_of p msg true 0 w.model.subs (no_expectation p))
      zeros false =
          ground (arith, predict_all-expected_of p msg false 0 w.model.subs (no_expectation p))

  visited_present :
      (o : Option (Entry p))
      → present p (
          Option.map
            (λ (e : Entry p). if filter_matches p e.filter msg then offer p msg.payload e else e)
            o)
        ≡ present p o
  visited_present none = refl
  visited_present (some e) = refl

  foretold-All :
      (P Q : ModelSub p → Type 0) (subs : List (ModelSub p))
      → ((s : ModelSub p) → P s → Q (foretold p msg s))
      → All P subs
      → All Q (map (foretold p msg) subs)
  foretold-All P Q [] f a = tt
  foretold-All P Q (s ∷ subs) f a = (f s a.0, foretold-All P Q subs f a.1)

  dispatched-Simulates :
      Simulates p laws c after_bus (map (foretold p msg) w.model.subs) w.model.dropped_ids
  unfolding after_bus
  dispatched-Simulates = record {
    valid = dispatch-IsValid p laws msg w.scratch w.bus m.valid;
    tracked =
        foretold-All _ _ w.model.subs
          (λ s t.
            subst (λ x. Tracks p laws c (foretold p msg s) (entry_of p after_bus.subs x))
              (sym (foretold-id p msg s))
              (dispatch-Tracks p laws c msg w.scratch w.bus s m.valid t))
          m.tracked;
    distinct = λ id. rw (ids_of-foretold p msg w.model.subs) (m.distinct id);
    counted = λ id.
        rw
          (
            alive_ids-foretold p msg w.model.subs,
            dispatch-entry_of p laws msg w.scratch w.bus m.valid id,
          )
          (m.counted id ∙ sym (visited_present (entry_of p w.bus.subs id)));
    old =
        foretold-All (λ s. s.id.generation < w.bus.next_generation)
          (λ s. s.id.generation < after_bus.next_generation) w.model.subs
          (λ s g.
            ground (arith, g, foretold-id p msg s, dispatch-generation p laws msg w.scratch w.bus))
          m.old;
    stale =
        All_ids p laws c _ _ w.model.dropped_ids
          (λ id (e, g). (
            rw (dispatch-entry_of p laws msg w.scratch w.bus m.valid id, e) refl,
            omega (arith, g, dispatch-generation p laws msg w.scratch w.bus),
          ))
          m.stale;
  }

  same_true : (a b : ℕ) → a ≡ b → (a == b) ≡ true
  same_true a b e = (==_iff a b).1 e

  -- A dispatch reports no failure, and keeps the model in step with the bus.
  pub apply_dispatch-InStep :
      ((apply_dispatch p msg w).0 ≡ none) × InStep p laws c (apply_dispatch p msg w).1
  unfolding apply_dispatch after_bus
  apply_dispatch-InStep =
      rw
        (
          same_true _ _ (reported true),
          same_true _ _ (reported false),
          apply_changes-foretold p msg w.model.subs,
        )
        (refl, dispatched-Simulates)

  pub apply_dispatch-generation :
      (apply_dispatch p msg w).1.bus.next_generation ≡ w.bus.next_generation
  unfolding apply_dispatch after_bus
  apply_dispatch-generation =
      rw (same_true _ _ (reported true), same_true _ _ (reported false))
        (dispatch-generation p laws msg w.scratch w.bus)
