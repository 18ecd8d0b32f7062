-- ===== src/Bus/Dispatch/Stats.antt =====
-- `DispatchStats::total`: every candidate is counted under one outcome.
use tak_rs.Common.{
  ◌+◌, ◌-◌, ◌<◌, ◌^◌, true, some, [], ◌∷◌, count, length, =?_iff, ◌≡◌, arith, Option-cases, inl,
  inr,
}
use tak_rs.Bus.Identity.{SubscriptionId, id_eq}
use tak_rs.Bus.TypeIndex.{Ids}
use tak_rs.Bus.Platform.{Platform, SlabLaws, Sent, sent, full, closed}
use tak_rs.Bus.Filter.{Inbound}
use tak_rs.Bus.State.{Entry, Bus, entry_of, DispatchStats}
use tak_rs.Bus.Registry.Invariant.{IsValid}
use tak_rs.Bus.Dispatch.{dispatch_entry, dispatch_loop, dispatch, extend_candidates, no_stats}
use tak_rs.Bus.Dispatch.Candidates.{count-extend_candidates}
use tak_rs.Bus.Dispatch.Delivery.{round, round-entry_of}
use tak_rs.Bus.Dispatch.{total, count_send}
use tak_rs.Bus.Platform.{is_some}

module _ (p : Platform) where
  count_send-total :
      (s : Sent) (st : DispatchStats p)
      → total p st < 2 ^ 32 - 1
      → total p (count_send p s st) ≡ total p st + 1
  unfolding count_send total
  count_send-total sent st h = ground (arith, h)
  count_send-total full st h = ground (arith, h)
  count_send-total closed st h = ground (arith, h)

  dispatch_entry-total :
      (msg : Inbound p) (id : SubscriptionId) (e : Entry p) (bus : Bus p) (st : DispatchStats p)
      → total p st < 2 ^ 32 - 1
      → total p (dispatch_entry p msg id (some e) (bus, st)).1 ≡ total p st + 1
  unfolding dispatch_entry total
  dispatch_entry-total msg id e bus st h =
      ground (arith, h, count_send-total (p.try_send e.sender msg.payload).0 st h)

  module _ (laws : SlabLaws p) (msg : Inbound p) where
    dispatch_loop-total :
        (ids : Ids) (bus : Bus p) (st : DispatchStats p)
        → ((id : SubscriptionId) → 0 < count id ids → is_some (entry_of p bus.subs id) ≡ true)
        → total p st + length ids < 2 ^ 32
        → total p (dispatch_loop p msg ids (bus, st)).1 ≡ total p st + length ids
    unfolding dispatch_loop round
    dispatch_loop-total [] bus st h room = omega arith
    dispatch_loop-total (id ∷ ids) bus st h room = elim (Option-cases (entry_of p bus.subs id)) [
      | inl e ↦ absurd (ground (arith, e, h id, =?_iff id id))
      | inr (x, e) ↦ ground (
        arith,
        step x e,
        room,
        dispatch_loop-total ids (round p laws msg id (bus, st)).0 (round p laws msg id (bus, st)).1
            still (ground (arith, step x e, room)),
      )
    ]
      where
        step :
            (x : Entry p)
            → entry_of p bus.subs id ≡ some x
            → total p (round p laws msg id (bus, st)).1 ≡ total p st + 1
        step x e = rw e (dispatch_entry-total msg id x bus st (ground (arith, room)))

        still :
            (other : SubscriptionId)
            → 0 < count other ids
            → is_some (entry_of p (round p laws msg id (bus, st)).0.subs other) ≡ true
        still other there =
            ground (arith, there, h other, round-entry_of p laws msg id other bus st)

    -- On a valid bus with fewer than 2^32 candidates for the message, the outcomes that `dispatch`
    -- counts add up to the number of candidates that it collected.
    pub dispatch-total :
        (scratch : Ids) (bus : Bus p)
        → IsValid p bus
        → length (extend_candidates p bus msg.cot_type msg.lat msg.lon []) < 2 ^ 32
        → total p (dispatch p msg scratch bus).2 ≡ length (dispatch p msg scratch bus).0
    unfolding dispatch total
    dispatch-total scratch bus v few = ground (
      arith,
      few,
      dispatch_loop-total (extend_candidates p bus msg.cot_type msg.lat msg.lon []) bus (no_stats p)
          (λ id there. ground (
            arith,
            there,
            count-extend_candidates p bus v id msg.cot_type msg.lat msg.lon,
            Option-cases (entry_of p bus.subs id),
          ))
          (ground (arith, few)),
    )
