-- ===== src/Vopr/Model/Tracks.antt =====
-- The model of a subscription follows the bus: the refinement that the simulator tests.
use tak_rs.Common.{
  ℕ, ◌^◌, ◌<◌, ◌++◌, [], ◌∷◌, Bool, true, false, Option, none, some, if◌then◌else◌, ltb, length,
  length-append, ◌≡◌, refl, arith, Bool-cases, inl, inr, eqb_refl,
}
use mathlib.Core.Option
use mathlib.Core.Path.{ap}
use tak_rs.Bus.Identity.{SubscriptionId, id_eq}
use tak_rs.Bus.TypeIndex.{Ids}
use tak_rs.Bus.Platform.{Platform, SlabLaws, ChannelLaws, Sent, sent, full, closed, Sent-cases}
use tak_rs.Bus.Filter.{Filter, Inbound, filter_matches}
use tak_rs.Bus.State.{Entry, Bus, entry_of}
use tak_rs.Bus.Registry.{subscribe_with_capacity, unsubscribe, fresh_entry}
use tak_rs.Bus.Registry.Invariant.{IsValid}
use tak_rs.Bus.Registry.Preserved.{subscribe-entry_of}
use tak_rs.Bus.Registry.Removal.{unsubscribe-entry_of}
use tak_rs.Bus.Dispatch.{dispatch, offer, after_send}
use tak_rs.Bus.Dispatch.Delivery.{dispatch-entry_of}
use tak_rs.Vopr.Model.{ModelSub, predict, apply_prediction, add_sub, drop_handle, channel_of}

module _ (p : Platform) (laws : SlabLaws p) (c : ChannelLaws p) where
  -- The model agrees with the entry of the bus in its filter, its counters and its channel.
  pub record Agrees (s : ModelSub p) (e : Entry p) : Type 0 where
    pub same_filter : e.filter ≡ s.filter
    pub same_delivered : e.delivered ≡ s.expected_delivered
    pub same_dropped_full : e.dropped_full ≡ s.expected_dropped_full
    pub same_queued : s.receiver_dropped ≡ false → length (c.queued e.sender) ≡ s.queued
    pub same_capacity : c.capacity e.sender ≡ s.capacity
    pub same_receiver : c.is_closed e.sender ≡ s.receiver_dropped
    pub alive : s.handle_dropped ≡ false
    pub usize : s.capacity < 2 ^ 64

  -- A subscription whose handle is dropped has no entry, and any other one agrees with its entry.
  unfoldable pub Tracks : ModelSub p → Option (Entry p) → Type 0
  Tracks s none = s.handle_dropped ≡ true
  Tracks s (some e) = Agrees s e

  module _ (msg : Inbound p) where
    after : ModelSub p → ModelSub p
    after s = apply_prediction p (predict p s msg) s

    -- What the model foretells of a message that the filter takes.
    pub predict-Agrees :
        (s : ModelSub p) (x : Entry p)
        → Agrees s x
        → filter_matches p x.filter msg ≡ true
        → predict p s msg ≡ (
            if c.is_closed x.sender
            then none
            else some (ltb (length (c.queued x.sender)) (c.capacity x.sender)))
    unfolding predict
    predict-Agrees s x a m =
        ground (arith, a.same_filter, a.alive, a.same_receiver, a.same_queued, a.same_capacity, m)

    pub predict_missed :
        (s : ModelSub p) (x : Entry p)
        → Agrees s x
        → filter_matches p x.filter msg ≡ false
        → predict p s msg ≡ none
    unfolding predict
    predict_missed s x a m = ground (arith, a.same_filter, a.alive, m)

    pub predict_dropped : (s : ModelSub p) → s.handle_dropped ≡ true → predict p s msg ≡ none
    unfolding predict
    predict_dropped s h = ground (arith, h)

    module _ (s : ModelSub p) (x : Entry p) (a : Agrees s x)
        (m : filter_matches p x.filter msg ≡ true) where
      outcome :
          (r : Sent)
          → (p.try_send x.sender msg.payload).0 ≡ r
          → predict p s msg ≡ elim r [ sent ↦ some true | full ↦ some false | closed ↦ none ]
      outcome sent e = ground (arith, e, predict-Agrees s x a m, c.send-result x.sender msg.payload)
      outcome full e = ground (arith, e, predict-Agrees s x a m, c.send-result x.sender msg.payload)
      outcome closed e =
          ground (arith, e, predict-Agrees s x a m, c.send-result x.sender msg.payload)

      -- The receiver's side after the send.
      channel :
          (c.queued (p.try_send x.sender msg.payload).1 ≡ (
            if c.is_closed x.sender
            then c.queued x.sender
            else if ltb (length (c.queued x.sender)) (c.capacity x.sender)
            then c.queued x.sender ++ (msg.payload ∷ [])
            else c.queued x.sender))
          × (c.capacity (p.try_send x.sender msg.payload).1 ≡ c.capacity x.sender)
          × (c.is_closed (p.try_send x.sender msg.payload).1 ≡ c.is_closed x.sender)
          × ((p.try_send x.sender msg.payload).0 ≡ (
              if c.is_closed x.sender
              then closed
              else if ltb (length (c.queued x.sender)) (c.capacity x.sender)
              then sent
              else full))
      channel = (
        c.send-queued x.sender msg.payload,
        c.send-capacity x.sender msg.payload,
        c.send-is_closed x.sender msg.payload,
        c.send-result x.sender msg.payload,
      )

      offer-Agrees : Agrees (after s) (offer p msg.payload x)
      unfolding after offer after_send apply_prediction
      offer-Agrees = elim (Sent-cases (p.try_send x.sender msg.payload).0) [
        | inl e ↦
            rw (outcome sent e, e)
              (record {
                same_filter = a.same_filter;
                same_delivered = ground (arith, a.same_delivered);
                same_dropped_full = ground (arith, a.same_dropped_full);
                same_queued = λ open_receiver. ground (
                  arith,
                  channel,
                  a.same_queued,
                  a.same_capacity,
                  a.usize,
                  length-append (c.queued x.sender) (msg.payload ∷ []),
                );
                same_capacity = ground (arith, channel, a.same_capacity);
                same_receiver = ground (arith, channel, a.same_receiver);
                alive = a.alive;
                usize = a.usize;
              })
        | inr (inl e) ↦
            rw (outcome full e, e)
              (record {
                same_filter = a.same_filter;
                same_delivered = ground (arith, a.same_delivered);
                same_dropped_full = ground (arith, a.same_dropped_full);
                same_queued = λ open_receiver. ground (
                  arith,
                  channel,
                  a.same_queued,
                  a.same_capacity,
                  a.usize,
                  length-append (c.queued x.sender) (msg.payload ∷ []),
                );
                same_capacity = ground (arith, channel, a.same_capacity);
                same_receiver = ground (arith, channel, a.same_receiver);
                alive = a.alive;
                usize = a.usize;
              })
        | inr (inr e) ↦
            rw (outcome closed e, e)
              (record {
                same_filter = a.same_filter;
                same_delivered = ground (arith, a.same_delivered);
                same_dropped_full = ground (arith, a.same_dropped_full);
                same_queued = λ open_receiver. ground (
                  arith,
                  channel,
                  a.same_queued,
                  a.same_capacity,
                  a.usize,
                  length-append (c.queued x.sender) (msg.payload ∷ []),
                );
                same_capacity = ground (arith, channel, a.same_capacity);
                same_receiver = ground (arith, channel, a.same_receiver);
                alive = a.alive;
                usize = a.usize;
              })
      ]

    visit-Tracks :
        (s : ModelSub p) (o : Option (Entry p))
        → Tracks s o
        → Tracks (after s) (
            Option.map
              (λ (e : Entry p). if filter_matches p e.filter msg then offer p msg.payload e else e)
              o)
    unfolding Tracks after apply_prediction
    visit-Tracks s none t = simp (predict_dropped s t) t
    visit-Tracks s (some x) a = elim (Bool-cases (filter_matches p x.filter msg)) [
      | inl m ↦ rw m (offer-Agrees s x a m)
      | inr m ↦ rw (m, predict_missed s x a m) a
    ]

    -- If the model tracks a subscription of a valid bus before a dispatch, then so it does after
    -- it, when what the model predicted is applied to it.
    pub dispatch-Tracks :
        (scratch : Ids) (bus : Bus p) (s : ModelSub p)
        → IsValid p bus
        → Tracks s (entry_of p bus.subs s.id)
        → Tracks
            (apply_prediction p (predict p s msg) s)
            (entry_of p (dispatch p msg scratch bus).1.subs s.id)
    unfolding after
    dispatch-Tracks scratch bus s v t =
        rw (dispatch-entry_of p laws msg scratch bus v s.id)
          (visit-Tracks s (entry_of p bus.subs s.id) t)

  -- On a valid bus, a subscription for which the slab had room, with a capacity below 2^64, is
  -- tracked by the model that `add_sub` makes of it.
  pub add_sub-Tracks :
      (filter : Filter p) (capacity : ℕ) (bus : Bus p)
      → IsValid p bus
      → capacity < 2 ^ 64
      → (subscribe_with_capacity p filter capacity bus).0.attached ≡ true
      → (let (s, after) = add_sub p filter capacity bus in Tracks s (entry_of p after.subs s.id))
  unfolding add_sub Tracks fresh_entry
  add_sub-Tracks filter capacity bus v fits room =
      rw
        (
          subscribe-entry_of p laws bus v filter capacity
              (subscribe_with_capacity p filter capacity bus).0.id,
          room,
          eqb_refl (subscribe_with_capacity p filter capacity bus).0.id,
        )
        (record {
          same_filter = refl;
          same_delivered = refl;
          same_dropped_full = refl;
          same_queued = λ open_receiver. ap length (c.new-queued capacity);
          same_capacity = c.new-capacity capacity;
          same_receiver = c.new-open capacity;
          alive = refl;
          usize = fits;
        })

  -- If the model tracks a subscription of a valid bus, then so it does after `drop_handle`.
  pub drop_handle-Tracks :
      (bus : Bus p) (s : ModelSub p)
      → IsValid p bus
      → Tracks s (entry_of p bus.subs s.id)
      → (let (dropped, s', after) = drop_handle p s bus in Tracks s' (entry_of p after.subs s'.id))
  unfolding drop_handle Tracks
  drop_handle-Tracks bus s v t = go s.handle_dropped
    where
      go :
          (b : Bool)
          → (let (dropped, s', after) : Option SubscriptionId × ModelSub p × Bus p =
                if b then (none, s, bus) else (
                  some s.id,
                  record s { handle_dropped = true; left = channel_of p s bus },
                  unsubscribe p s.id bus,
                ) in
              Tracks s' (entry_of p after.subs s'.id))
      go true = t
      go false = rw (unsubscribe-entry_of p laws bus v s.id s.id, eqb_refl s.id) refl
