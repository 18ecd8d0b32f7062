-- ===== src/Bus/Dispatch/Counters.antt =====
-- The counters of `dispatch` in crates/tak-bus/src/dispatch.rs: how many subscriptions took the
-- message, how many were full and how many closed, up to the width of the counter.
use tak_rs.Common.{
  ℕ, ◌+◌, ◌-◌, ◌^◌, ◌≤◌, min, Bool, true, false, ◌&&◌, Option, none, some, [], ◌∷◌, if◌then◌else◌,
  count, length, select, select-same, count-select, length-same_counts, =?_iff, ◌≡◌, refl, arith,
  Option-cases, Bool-cases, inl, inr,
}
use mathlib.Core.Path.{ap, ◌∙◌}
use tak_rs.Bus.Groups.{intersects}
use tak_rs.Bus.Identity.{SubscriptionId, id_eq}
use tak_rs.Bus.TypeIndex.{Ids}
use tak_rs.Bus.Platform.{Platform, SlabLaws, Sent, sent, full, closed}
use tak_rs.Bus.Filter.{Inbound, bbox_accepts, filter_matches}
use tak_rs.Bus.State.{Entry, Bus, entry_of, DispatchStats}
use tak_rs.Bus.Registry.Invariant.{IsValid}
use tak_rs.Bus.Dispatch.{
  dispatch_entry, dispatch_loop, dispatch, extend_candidates, no_stats, count_send, saturating_inc,
}
use tak_rs.Bus.Dispatch.Candidates.{count-extend_candidates, is_candidate}
use tak_rs.Bus.Dispatch.Delivery.{round, round-entry_of}

abbrev pub same_sent : Sent → Sent → Bool
same_sent sent sent = true
same_sent full full = true
same_sent closed closed = true
same_sent _ _ = false

module _ (p : Platform) where
  -- The counter of an outcome.
  abbrev pub counter : Sent → DispatchStats p → ℕ
  counter sent st = st.delivered
  counter full st = st.dropped_full
  counter closed st = st.dropped_closed

  count_send-counter :
      (r s : Sent) (st : DispatchStats p)
      → counter r (count_send p s st)
        ≡ (if same_sent r s then saturating_inc (counter r st) else counter r st)
  unfolding count_send
  count_send-counter sent sent st = refl
  count_send-counter sent full st = refl
  count_send-counter sent closed st = refl
  count_send-counter full sent st = refl
  count_send-counter full full st = refl
  count_send-counter full closed st = refl
  count_send-counter closed sent st = refl
  count_send-counter closed full st = refl
  count_send-counter closed closed st = refl

  counter-groups :
      (r : Sent) (st : DispatchStats p) (n : ℕ)
      → counter r (record st { filtered_groups = n }) ≡ counter r st
  counter-groups sent st n = refl
  counter-groups full st n = refl
  counter-groups closed st n = refl

  counter-geo :
      (r : Sent) (st : DispatchStats p) (n : ℕ)
      → counter r (record st { filtered_geo = n }) ≡ counter r st
  counter-geo sent st n = refl
  counter-geo full st n = refl
  counter-geo closed st n = refl

  module _ (laws : SlabLaws p) (msg : Inbound p) (r : Sent) where
    -- Whether a candidate with this entry is offered the message, with this outcome.
    abbrev takes : Option (Entry p) → Bool
    takes none = false
    takes (some e) =
        intersects e.filter.group_mask msg.sender_groups
        && bbox_accepts p e.filter.geo_bbox msg.lat msg.lon
        && same_sent r (p.try_send e.sender msg.payload).0

    round-counter :
        (id : SubscriptionId) (bus : Bus p) (st : DispatchStats p)
        → counter r (round p laws msg id (bus, st)).1
          ≡ (if takes (entry_of p bus.subs id) then saturating_inc (counter r st) else counter r st)
    unfolding round dispatch_entry
    round-counter id bus st = elim (Option-cases (entry_of p bus.subs id)) [
      | inl e ↦ rw e refl
      | inr (x, e) ↦ rw e (elim (Bool-cases (intersects x.filter.group_mask msg.sender_groups)) [
        | inr g ↦ rw g (counter-groups r st _)
        | inl g ↦ rw g (elim (Bool-cases (bbox_accepts p x.filter.geo_bbox msg.lat msg.lon)) [
          | inr b ↦ rw b (counter-geo r st _)
          | inl b ↦ rw b (count_send-counter r (p.try_send x.sender msg.payload).0 st)
        ])
      ])
    ]

    dispatch_loop-counter :
        (ids : Ids) (bus : Bus p) (st : DispatchStats p)
        → ((id : SubscriptionId) → count id ids ≤ 1)
        → counter r st ≤ 2 ^ 32 - 1
        → counter r (dispatch_loop p msg ids (bus, st)).1
          ≡ min
              (counter r st + length (select (λ id. takes (entry_of p bus.subs id)) ids))
              (2 ^ 32 - 1)
    unfolding dispatch_loop round
    dispatch_loop-counter [] bus st once h = ground (arith, h)
    dispatch_loop-counter (id ∷ ids) bus st once h = ground (
      arith,
      h,
      round-counter id bus st,
      dispatch_loop-counter ids (round p laws msg id (bus, st)).0 (round p laws msg id (bus, st)).1
          (λ a. omega (arith, once a)) (ground (arith, h, round-counter id bus st)),
      ap length (
          select-same (λ a. takes (entry_of p (round p laws msg id (bus, st)).0.subs a))
            (λ a. takes (entry_of p bus.subs a)) ids
            (λ a there.
              ap takes (
                ground
                  (arith, there, once a, =?_iff a id, round-entry_of p laws msg id a bus st)))),
    )

    -- Whether a subscription with this entry gets the message, with this outcome.
    abbrev pub answers : Option (Entry p) → Bool
    answers none = false
    answers (some e) =
        filter_matches p e.filter msg && same_sent r (p.try_send e.sender msg.payload).0

    candidate-answers :
        (o : Option (Entry p))
        → ◌≡◌ {A = ℕ}
            (if takes o then (if is_candidate p msg.cot_type o then 1 else 0) else 0)
            (if answers o then 1 else 0)
    unfolding filter_matches
    candidate-answers none = refl
    candidate-answers (some e) = ground arith

    -- On a valid bus, each of the counters `delivered`, `dropped_full` and `dropped_closed` of a
    -- dispatch is the number of subscriptions whose filter takes the message and whose channel
    -- answers so, or the largest `u32` if they are more. The subscriptions are given by any list that
    -- has each of their ids once and no other id.
    pub dispatch-counter :
        (scratch : Ids) (bus : Bus p) (ids : Ids)
        → IsValid p bus
        → ((id : SubscriptionId)
            → count id ids ≡ (if answers (entry_of p bus.subs id) then 1 else 0))
        → counter r (dispatch p msg scratch bus).2 ≡ min (length ids) (2 ^ 32 - 1)
    unfolding dispatch
    dispatch-counter scratch bus ids v all_of =
        dispatch_loop-counter candidates bus (no_stats p) (λ id. ground (arith, listed id))
          (ground (arith, zero_at r))
        ∙ ground (
          arith,
          zero_at r,
          length-same_counts (select (λ id. takes (entry_of p bus.subs id)) candidates) ids same,
        )
      where
        candidates : Ids
        candidates = extend_candidates p bus msg.cot_type msg.lat msg.lon []

        listed :
            (id : SubscriptionId)
            → count id candidates
              ≡ (if is_candidate p msg.cot_type (entry_of p bus.subs id) then 1 else 0)
        listed id = count-extend_candidates p bus v id msg.cot_type msg.lat msg.lon

        same :
            (id : SubscriptionId)
            → count id (select (λ id. takes (entry_of p bus.subs id)) candidates) ≡ count id ids
        same id = ground (
          arith,
          all_of id,
          listed id,
          candidate-answers (entry_of p bus.subs id),
          count-select (λ id. takes (entry_of p bus.subs id)) id candidates,
        )

        zero_at : (r : Sent) → counter r (no_stats p) ≡ 0
        zero_at sent = refl
        zero_at full = refl
        zero_at closed = refl
