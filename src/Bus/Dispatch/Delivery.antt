-- ===== src/Bus/Dispatch/Delivery.antt =====
-- What `dispatch` does to each subscription: one offer to those whose filter takes the message.
use tak_rs.Common.{
  ◌&&◌, some, [], ◌∷◌, if◌then◌else◌, count, ◌=?◌, =?_iff, ◌≡◌, arith, refl, Option-cases,
  Bool-cases, inl, inr,
}
use mathlib.Core.Option
use tak_rs.Bus.Groups.{intersects}
use tak_rs.Bus.Identity.{SubscriptionId, id_eq}
use tak_rs.Bus.TypeIndex.{Ids}
use tak_rs.Bus.Platform.{Platform, SlabLaws, Sent-cases}
use tak_rs.Bus.Filter.{Inbound, bbox_accepts, filter_matches}
use tak_rs.Bus.State.{Entry, Bus, entry_of, DispatchStats}
use tak_rs.Bus.Registry.Invariant.{IsValid}
use tak_rs.Bus.Registry.Update.{update-entry_of, updated, updated-IsValid}
use tak_rs.Bus.Dispatch.{
  after_send, offer, dispatch_entry, dispatch_loop, dispatch, extend_candidates, no_stats,
}
use tak_rs.Bus.Dispatch.Candidates.{count-extend_candidates}

module _ (p : Platform) (laws : SlabLaws p) where
  pub offer-fields :
      (b : p.Bytes) (e : Entry p)
      → ((offer p b e).generation ≡ e.generation) × ((offer p b e).filter ≡ e.filter)
  unfolding offer after_send
  offer-fields b e = elim (Sent-cases (p.try_send e.sender b).0) [
    | inl h ↦ rw h (refl, refl)
    | inr (inl h) ↦ rw h (refl, refl)
    | inr (inr h) ↦ rw h (refl, refl)
  ]

  -- The update of an entry's channel, at every id.
  pub entry_of-offer :
      (b : p.Bytes) (s : p.Slab (Entry p)) (id other : SubscriptionId) (e : Entry p)
      → entry_of p s id ≡ some e
      → entry_of p (p.slab_update (Entry p) id.slab_key (offer p b) s) other
        ≡ (if other =? id then some (offer p b e) else entry_of p s other)
  entry_of-offer b s id other e found =
      update-entry_of p laws (offer p b) (offer-fields b) s id other e found

  unfoldable pub offered : p.Bytes → SubscriptionId → Bus p → Bus p
  offered b id bus = record bus { subs = p.slab_update (Entry p) id.slab_key (offer p b) bus.subs }

  pub offered-IsValid :
      (b : p.Bytes) (bus : Bus p) (id : SubscriptionId) (e : Entry p)
      → entry_of p bus.subs id ≡ some e
      → IsValid p bus
      → IsValid p (offered b id bus)
  unfolding offered updated
  offered-IsValid b bus id e found v =
      updated-IsValid p laws (offer p b) (offer-fields b) bus id e found v

  -- One round of the loop for the entry.
  abbrev pub visited : Inbound p → Entry p → Entry p
  visited msg e =
      if intersects e.filter.group_mask msg.sender_groups
        && bbox_accepts p e.filter.geo_bbox msg.lat msg.lon
      then offer p msg.payload e
      else e

  module _ (msg : Inbound p) where
    unfoldable pub round : SubscriptionId → Bus p × DispatchStats p → Bus p × DispatchStats p
    round id (bus, st) = dispatch_entry p msg id (entry_of p bus.subs id) (bus, st)

    pub round-entry_of :
        (id other : SubscriptionId) (bus : Bus p) (st : DispatchStats p)
        → entry_of p (round id (bus, st)).0.subs other ≡ (
            if other =? id
            then Option.map (visited msg) (entry_of p bus.subs other)
            else entry_of p bus.subs other)
    unfolding round dispatch_entry
    round-entry_of id other bus st = elim (Option-cases (entry_of p bus.subs id)) [
      | inl e ↦ rw e (ground (arith, e, =?_iff other id))
      | inr (x, e) ↦
          rw e
            (ground (arith, e, =?_iff other id, entry_of-offer msg.payload bus.subs id other x e))
    ]

    round-IsValid :
        (id : SubscriptionId) (bus : Bus p) (st : DispatchStats p)
        → IsValid p bus
        → IsValid p (round id (bus, st)).0
    unfolding round dispatch_entry offered
    round-IsValid id bus st v = elim (Option-cases (entry_of p bus.subs id)) [
      | inl e ↦ rw e v
      | inr (x, e) ↦ rw e (elim (Bool-cases (intersects x.filter.group_mask msg.sender_groups)) [
        | inl g ↦ rw g (elim (Bool-cases (bbox_accepts p x.filter.geo_bbox msg.lat msg.lon)) [
          | inl b ↦ rw b (offered-IsValid msg.payload bus id x e v)
          | inr b ↦ rw b v
        ])
        | inr g ↦ rw g v
      ])
    ]

    dispatch_loop-absent :
        (ids : Ids) (other : SubscriptionId) (bus : Bus p) (st : DispatchStats p)
        → count other ids ≡ 0
        → entry_of p (dispatch_loop p msg ids (bus, st)).0.subs other ≡ entry_of p bus.subs other
    unfolding dispatch_loop round
    dispatch_loop-absent [] other bus st h = refl
    dispatch_loop-absent (id ∷ ids) other bus st h = ground (
      arith,
      h,
      round-entry_of id other bus st,
      =?_iff other id,
      dispatch_loop-absent ids other (round id (bus, st)).0 (round id (bus, st)).1
          (ground (arith, h)),
    )

    dispatch_loop-once :
        (ids : Ids) (other : SubscriptionId) (bus : Bus p) (st : DispatchStats p)
        → count other ids ≡ 1
        → entry_of p (dispatch_loop p msg ids (bus, st)).0.subs other
          ≡ Option.map (visited msg) (entry_of p bus.subs other)
    unfolding dispatch_loop round
    dispatch_loop-once [] other bus st h = absurd (omega arith)
    dispatch_loop-once (id ∷ ids) other bus st h = elim (Bool-cases (other =? id)) [
      | inl same ↦ ground (
        arith,
        h,
        same,
        round-entry_of id other bus st,
        dispatch_loop-absent ids other (round id (bus, st)).0 (round id (bus, st)).1
            (ground (arith, h, same)),
      )
      | inr differ ↦ ground (
        arith,
        h,
        differ,
        round-entry_of id other bus st,
        dispatch_loop-once ids other (round id (bus, st)).0 (round id (bus, st)).1
            (ground (arith, h, differ)),
      )
    ]

    dispatch_loop-IsValid :
        (ids : Ids) (bus : Bus p) (st : DispatchStats p)
        → IsValid p bus
        → IsValid p (dispatch_loop p msg ids (bus, st)).0
    unfolding dispatch_loop round
    dispatch_loop-IsValid [] bus st v = v
    dispatch_loop-IsValid (id ∷ ids) bus st v =
        dispatch_loop-IsValid ids (round id (bus, st)).0 (round id (bus, st)).1
          (round-IsValid id bus st v)

    module _ (scratch : Ids) (bus : Bus p) (v : IsValid p bus) where
      -- Dispatching a message on a valid bus gives a valid bus, whatever was in the scratch.
      pub dispatch-IsValid : IsValid p (dispatch p msg scratch bus).1
      unfolding dispatch
      dispatch-IsValid =
          dispatch_loop-IsValid (extend_candidates p bus msg.cot_type msg.lat msg.lon []) bus
            (no_stats p) v

      -- Dispatching a message on a valid bus offers the payload to the channel of each entry whose
      -- filter takes the message, once, and changes no other entry.
      pub dispatch-entry_of :
          (id : SubscriptionId)
          → entry_of p (dispatch p msg scratch bus).1.subs id
            ≡ Option.map
                (λ (e : Entry p).
                  if filter_matches p e.filter msg then offer p msg.payload e else e)
                (entry_of p bus.subs id)
      unfolding dispatch filter_matches
      dispatch-entry_of id = elim (Option-cases (entry_of p bus.subs id)) [
        | inl e ↦ rw e (
            ground (
              arith,
              e,
              count-extend_candidates p bus v id msg.cot_type msg.lat msg.lon,
              dispatch_loop-absent (extend_candidates p bus msg.cot_type msg.lat msg.lon []) id bus
                  (no_stats p),
            ))
        | inr (x, e) ↦ rw e (
            ground (
              arith,
              e,
              count-extend_candidates p bus v id msg.cot_type msg.lat msg.lon,
              dispatch_loop-absent (extend_candidates p bus msg.cot_type msg.lat msg.lon []) id bus
                  (no_stats p),
              dispatch_loop-once (extend_candidates p bus msg.cot_type msg.lat msg.lon []) id bus
                  (no_stats p),
            ))
      ]
