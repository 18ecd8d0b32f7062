-- ===== src/Bus/Dispatch/Sends.antt =====
-- What a send leaves in the channels, and `try_send_to`, the send to one subscription.
use tak_rs.Common.{
  ◌+◌, ◌^◌, Bool, false, not, ◌&&◌, Option, none, some, [], ◌∷◌, if◌then◌else◌, length, ◌=?◌,
  =?_iff, ◌≡◌, arith, refl, Option-cases, Bool-cases, inl, inr,
}
use mathlib.Core.Option
use tak_rs.Bus.Identity.{SubscriptionId, id_eq}
use tak_rs.Bus.TypeIndex.{Ids}
use tak_rs.Bus.Platform.{Platform, SlabLaws, Sent-cases}
use tak_rs.Bus.Filter.{Inbound, filter_matches}
use tak_rs.Bus.State.{Entry, Bus, entry_of}
use tak_rs.Bus.Registry.Invariant.{IsValid}
use tak_rs.Bus.Dispatch.{after_send, offer, accepted, dispatch, send_entry, try_send_to}
use tak_rs.Bus.Dispatch.Delivery.{entry_of-offer, offered, offered-IsValid, dispatch-entry_of}
use tak_rs.Bus.Platform.{ChannelLaws}
use mathlib.Core.Path.{ap}
use tak_rs.Common.{ltb, ◌++◌, ◌%◌}

module _ (p : Platform) (laws : SlabLaws p) where
  pub try_send_to-IsValid :
      (id : SubscriptionId) (payload : p.Bytes) (bus : Bus p)
      → IsValid p bus
      → IsValid p (try_send_to p id payload bus).1
  unfolding try_send_to send_entry offered
  try_send_to-IsValid id payload bus v = elim (Option-cases (entry_of p bus.subs id)) [
    | inl e ↦ rw e v
    | inr (x, e) ↦ rw e (offered-IsValid p laws payload bus id x e v)
  ]

  -- `try_send_to` offers the payload to the entry of the id, if there is one, and every other id
  -- finds the entry that it found before.
  pub try_send_to-entry_of :
      (id other : SubscriptionId) (payload : p.Bytes) (bus : Bus p)
      → entry_of p (try_send_to p id payload bus).1.subs other ≡ (
          if other =? id
          then Option.map (offer p payload) (entry_of p bus.subs other)
          else entry_of p bus.subs other)
  unfolding try_send_to send_entry
  try_send_to-entry_of id other payload bus = elim (Option-cases (entry_of p bus.subs id)) [
    | inl e ↦ rw e (ground (arith, e, =?_iff other id))
    | inr (x, e) ↦
        rw e
          (ground (arith, e, =?_iff other id, entry_of-offer p laws payload bus.subs id other x e))
  ]

module _ (p : Platform) (laws : SlabLaws p) (c : ChannelLaws p) where
  -- Whether a channel takes one more message.
  abbrev pub has_room : p.Sender → Bool
  has_room s = not (c.is_closed s) && ltb (length (c.queued s)) (c.capacity s)

  pub offer-queued :
      (b : p.Bytes) (e : Entry p)
      → (c.queued (offer p b e).sender
          ≡ (if has_room e.sender then c.queued e.sender ++ (b ∷ []) else c.queued e.sender))
        × ((offer p b e).delivered
            ≡ (if has_room e.sender then (e.delivered + 1) % 2 ^ 64 else e.delivered))
        × (c.capacity (offer p b e).sender ≡ c.capacity e.sender)
  unfolding offer after_send
  offer-queued b e = elim (Sent-cases (p.try_send e.sender b).0) [
    | inl h ↦ rw h (
        ground (
          arith,
          h,
          c.send-result e.sender b,
          c.send-queued e.sender b,
          c.send-capacity e.sender b,
        ))
    | inr (inl h) ↦ rw h (
        ground (
          arith,
          h,
          c.send-result e.sender b,
          c.send-queued e.sender b,
          c.send-capacity e.sender b,
        ))
    | inr (inr h) ↦ rw h (
        ground (
          arith,
          h,
          c.send-result e.sender b,
          c.send-queued e.sender b,
          c.send-capacity e.sender b,
        ))
  ]

  -- `try_send_to` answers true if the id has an entry whose channel is open and not full, and else
  -- false.
  pub try_send_to-result :
      (id : SubscriptionId) (payload : p.Bytes) (bus : Bus p)
      → (try_send_to p id payload bus).0
        ≡ Option.get_or
            (Option.map (λ (e : Entry p). has_room e.sender) (entry_of p bus.subs id))
            false
  unfolding try_send_to send_entry accepted
  try_send_to-result id payload bus = elim (Option-cases (entry_of p bus.subs id)) [
    | inl e ↦ rw e refl
    | inr (x, e) ↦ rw e (elim (Bool-cases (c.is_closed x.sender)) [
      | inl k ↦ rw (c.send-result x.sender payload, k) refl
      | inr k ↦
          rw (c.send-result x.sender payload, k)
            (elim (Bool-cases (ltb (length (c.queued x.sender)) (c.capacity x.sender))) [
              | inl q ↦ rw q refl
              | inr q ↦ rw q refl
            ])
    ])
  ]

  -- What a subscription of a valid bus has in its queue after a dispatch: the payload behind what
  -- was there, if its filter takes the message and its channel is open and not full, and else what
  -- was there.
  pub dispatch-queued :
      (msg : Inbound p) (scratch : Ids) (bus : Bus p) (id : SubscriptionId)
      → IsValid p bus
      → Option.map
          (λ (e : Entry p). c.queued e.sender)
          (entry_of p (dispatch p msg scratch bus).1.subs id)
        ≡ Option.map
            (λ (e : Entry p).
              if filter_matches p e.filter msg && has_room e.sender
              then c.queued e.sender ++ (msg.payload ∷ [])
              else c.queued e.sender)
            (entry_of p bus.subs id)
  dispatch-queued msg scratch bus id v =
      rw (dispatch-entry_of p laws msg scratch bus v id) (go (entry_of p bus.subs id))
    where
      go :
          (o : Option (Entry p))
          → Option.map
              (λ (e : Entry p). c.queued e.sender)
              (Option.map
                (λ (e : Entry p).
                  if filter_matches p e.filter msg then offer p msg.payload e else e)
                o)
            ≡ Option.map
                (λ (e : Entry p).
                  if filter_matches p e.filter msg && has_room e.sender
                  then c.queued e.sender ++ (msg.payload ∷ [])
                  else c.queued e.sender)
                o
      go none = refl
      go (some e) = elim (Bool-cases (filter_matches p e.filter msg)) [
        | inl m ↦ rw m (ap some (offer-queued msg.payload e).0)
        | inr m ↦ rw m refl
      ]
