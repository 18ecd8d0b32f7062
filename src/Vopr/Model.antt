-- ===== src/Vopr/Model.antt =====
-- `ModelSub` of crates/tak-bus-vopr/src/model.rs: what the simulator keeps of a subscription, and
-- what it predicts of a dispatch. The handle that it owns is a flag here, and its receiver the
-- other side of the channel that the bus has.
pub mod Tracks
pub mod Channel
pub mod Slotwise
pub mod Tests
use tak_rs.Common.{
  ℕ, zero, suc, ◌-◌, ◌+◌, ◌%◌, ◌^◌, Bool, true, false, not, Option, none, some, if◌then◌else◌, leb,
}
use tak_rs.Bus.Identity.{SubscriptionId}
use tak_rs.Bus.Platform.{Platform}
use tak_rs.Bus.Filter.{Filter, Inbound, filter_matches}
use tak_rs.Bus.State.{Bus, Entry, entry_of, SubscriptionHandle}
use mathlib.Core.Option
use tak_rs.Bus.Registry.{subscribe_with_capacity, unsubscribe}

module _ (p : Platform) where
  pub record ModelSub : Type 0 where
    pub id : SubscriptionId
    pub filter : Filter p
    pub capacity : ℕ
    pub expected_delivered : ℕ
    pub expected_dropped_full : ℕ
    pub queued : ℕ
    pub handle_dropped : Bool
    pub receiver_dropped : Bool
    pub left : Option p.Sender

  abbrev pub handle_alive : ModelSub → Bool
  handle_alive s = not s.handle_dropped

  unfoldable pub predict : ModelSub → Inbound p → Option Bool
  predict s inbound =
      if not (handle_alive s)
      then none
      else if not (filter_matches p s.filter inbound)
      then none
      else if s.receiver_dropped
      then none
      else if leb s.capacity s.queued
      then some false
      else some true

  -- The end of `Op::Dispatch` in crates/tak-bus-vopr/src/runner.rs, for one subscription.
  unfoldable pub apply_prediction : Option Bool → ModelSub → ModelSub
  apply_prediction none s = s
  apply_prediction (some true) s = record s {
    expected_delivered = (s.expected_delivered + 1) % 2 ^ 64;
    queued = (s.queued + 1) % 2 ^ 64;
  }
  apply_prediction (some false) s = record s {
    expected_dropped_full = (s.expected_dropped_full + 1) % 2 ^ 64;
  }

  -- `Model::add_sub`, which pushes the subscription that it returns here.
  unfoldable pub add_sub : Filter p → ℕ → Bus p → ModelSub × Bus p
  add_sub filter capacity bus =
      let (handle, after) = subscribe_with_capacity p filter capacity bus in
      (
        record {
          id = handle.id;
          filter = filter;
          capacity = capacity;
          expected_delivered = 0;
          expected_dropped_full = 0;
          queued = 0;
          handle_dropped = false;
          receiver_dropped = false;
          left = none;
        },
        after,
      )

  -- The channel of the receiver: in the entry of the bus, or left over when the entry is gone.
  abbrev pub channel_of : ModelSub → Bus p → Option p.Sender
  channel_of s bus = elim (entry_of p bus.subs s.id) [ none ↦ s.left | some e ↦ some e.sender ]

  abbrev pub put_channel : p.Sender → Entry p → Entry p
  put_channel ch e = record e { sender = ch }

  unfoldable pub set_entry_channel :
      ModelSub → p.Sender → Option (Entry p) → Bus p → ModelSub × Bus p
  set_entry_channel s ch none bus = (record s { left = some ch }, bus)
  set_entry_channel s ch (some e) bus =
      (s, record bus { subs = p.slab_update (Entry p) s.id.slab_key (put_channel ch) bus.subs })

  unfoldable pub set_channel : ModelSub → Option p.Sender → Bus p → ModelSub × Bus p
  unfolding set_entry_channel
  set_channel s none bus = (s, bus)
  set_channel s (some ch) bus = set_entry_channel s ch (entry_of p bus.subs s.id) bus

  -- `Model::drop_handle` for the subscription in the slot: the handle's drop unsubscribes.
  unfoldable pub drop_handle : ModelSub → Bus p → Option SubscriptionId × ModelSub × Bus p
  drop_handle s bus = if s.handle_dropped then (none, s, bus) else (
    some s.id,
    record s { handle_dropped = true; left = channel_of s bus },
    unsubscribe p s.id bus,
  )

  -- `Model::drop_receiver` for the subscription in the slot.
  unfoldable pub drop_receiver : ModelSub → Bus p → Bool × ModelSub × Bus p
  unfolding set_channel
  drop_receiver s bus =
      if s.receiver_dropped
      then (false, s, bus)
      else let (s', after) = set_channel s (Option.map p.close (channel_of s bus)) bus in
        (true, record s' { receiver_dropped = true }, after)

  -- The loop of `Model::drain`: how many messages came, and the channel then.
  unfoldable pub drain_channel : ℕ → p.Sender → ℕ × p.Sender
  drain_channel zero ch = (0, ch)
  drain_channel (suc n) ch = elim (p.try_recv ch).0 [
    | none ↦ (0, (p.try_recv ch).1)
    | some b ↦ let (drained, after) = drain_channel n (p.try_recv ch).1 in (drained + 1, after)
  ]

  unfoldable pub drain_some : ℕ → ModelSub → Option p.Sender → Bus p → ℕ × ModelSub × Bus p
  unfolding drain_channel set_channel
  drain_some max s none bus = (0, s, bus)
  drain_some max s (some ch) bus =
      let (drained, ch') = drain_channel max ch in
      let (s', after) = set_channel s (some ch') bus in
      (drained, record s' { queued = s.queued - drained }, after)

  -- `Model::drain` for the subscription in the slot.
  unfoldable pub drain : ModelSub → ℕ → Bus p → ℕ × ModelSub × Bus p
  unfolding drain_some
  drain s max bus = drain_some max s (if s.receiver_dropped then none else channel_of s bus) bus
