-- ===== src/Server/Connection/Replay.antt =====
-- What the replay of crates/tak-server/src/firehose.rs puts into the queue of a new subscription.
use tak_rs.Common.{
  ℕ, zero, suc, ◌+◌, ◌-◌, ◌%◌, ◌^◌, ◌<◌, min, Bool, true, false, ltb, some, List, [], ◌∷◌, ◌++◌,
  length, take, length-append, append_assoc, append-nil, if◌then◌else◌, ◌=?◌, eqb_refl, ◌≡◌, refl,
  ap, sym, ◌∙◌, arith, inl, inr,
}
use mathlib.Core.Option
use tak_rs.Bus.Identity.{SubscriptionId, id_eq}
use tak_rs.Bus.Platform.{Platform, SlabLaws, ChannelLaws, Sent-cases}
use tak_rs.Bus.State.{Bus, Entry, entry_of}
use tak_rs.Bus.Dispatch.{try_send_to, offer, after_send}
use tak_rs.Bus.Dispatch.Sends.{try_send_to-entry_of, try_send_to-result, has_room, offer-queued}
use tak_rs.Server.Connection.{Replayed, count_replay, replay_loop}

module _ (p : Platform) (laws : SlabLaws p) (c : ChannelLaws p) (sub_id : SubscriptionId) where
  -- The subscription has these frames queued, and the counters say so.
  pub record Delivered (frames : List p.Bytes) (e : Entry p) (r r' : Replayed p) : Type 0 where
    pub entry : Entry p
    pub found : entry_of p r'.bus.subs sub_id ≡ some entry
    pub queue :
        c.queued entry.sender
        ≡ c.queued e.sender ++ take (c.capacity e.sender - length (c.queued e.sender)) frames
    pub sent :
        r'.sent
        ≡ (r.sent + min (c.capacity e.sender - length (c.queued e.sender)) (length frames)) % 2 ^ 64
    pub dropped :
        r'.dropped
        ≡ (r.dropped + (length frames - (c.capacity e.sender - length (c.queued e.sender))))
          % 2 ^ 64
    pub others :
        (other : SubscriptionId)
        → (other =? sub_id) ≡ false
        → entry_of p r'.bus.subs other ≡ entry_of p r.bus.subs other

  offer-is_closed :
      (b : p.Bytes) (e : Entry p) → c.is_closed (offer p b e).sender ≡ c.is_closed e.sender
  unfolding offer after_send
  offer-is_closed b e = elim (Sent-cases (p.try_send e.sender b).0) [
    | inl h ↦ rw h (c.send-is_closed e.sender b)
    | inr (inl h) ↦ rw h (c.send-is_closed e.sender b)
    | inr (inr h) ↦ rw h (c.send-is_closed e.sender b)
  ]

  -- What the answer of `try_send_to` says of the room, and what is in the queue after it.
  room_flag :
      (frame : p.Bytes) (e : Entry p) (bus : Bus p) (x : Bool × Bus p)
      → entry_of p bus.subs sub_id ≡ some e
      → c.is_closed e.sender ≡ false
      → try_send_to p sub_id frame bus ≡ x
      → (ltb (length (c.queued e.sender)) (c.capacity e.sender) ≡ x.0)
        × (c.queued (offer p frame e).sender
            ≡ (if x.0 then c.queued e.sender ++ (frame ∷ []) else c.queued e.sender))
        × (c.capacity (offer p frame e).sender ≡ c.capacity e.sender)
  room_flag frame e bus x found open_ q =
      let flag : has_room p laws c e.sender ≡ x.0 =
        sym (
          try_send_to-result p laws c sub_id frame bus
          ∙ ap
              (λ o.
                Option.get_or (Option.map (λ (e : Entry p). has_room p laws c e.sender) o) false)
              found)
        ∙ ap (λ (x : Bool × Bus p). x.0) q in
      let (queue, _, capacity) = offer-queued p laws c frame e in
      (
        ground (arith, flag, open_),
        queue ∙ ap (λ b. if b then c.queued e.sender ++ (frame ∷ []) else c.queued e.sender) flag,
        capacity,
      )

  others_kept :
      (frame : p.Bytes) (bus : Bus p) (x : Bool × Bus p)
      → try_send_to p sub_id frame bus ≡ x
      → (other : SubscriptionId) → (other =? sub_id) ≡ false
      → entry_of p x.1.subs other ≡ entry_of p bus.subs other
  others_kept frame bus x q other n =
      ap (λ (x : Bool × Bus p). entry_of p x.1.subs other) (sym q)
      ∙ try_send_to-entry_of p laws sub_id other frame bus
      ∙ ap
          (λ b.
            if b
            then Option.map (offer p frame) (entry_of p bus.subs other)
            else entry_of p bus.subs other)
          n

  -- One frame, and then the others.
  Delivered-cons :
      (frame : p.Bytes) (frames : List p.Bytes) (e : Entry p) (r r' : Replayed p)
      → entry_of p r.bus.subs sub_id ≡ some e
      → c.is_closed e.sender ≡ false
      → (x : Bool × Bus p) → try_send_to p sub_id frame r.bus ≡ x
      → Delivered frames (offer p frame e) (count_replay p x r) r'
      → Delivered (frame ∷ frames) e r r'
  Delivered-cons frame frames e r r' found open_ (true, bus) q d =
      let (flag, queue, capacity) = room_flag frame e r.bus (true, bus) found open_ q in
      let room = c.capacity e.sender - length (c.queued e.sender) in
      let smaller : c.capacity (offer p frame e).sender - length (c.queued (offer p frame e).sender)
          ≡ room - 1 =
        omega (arith, capacity, ap length queue, length-append (c.queued e.sender) (frame ∷ [])) in
      record {
        entry = d.entry;
        found = d.found;
        queue =
            d.queue
            ∙ ap (λ k. c.queued (offer p frame e).sender ++ take k frames) smaller
            ∙ ap (λ t. t ++ take (room - 1) frames) queue
            ∙ append_assoc (c.queued e.sender) (frame ∷ []) (take (room - 1) frames)
            ∙ ap (λ k. c.queued e.sender ++ take k (frame ∷ frames)) {x = suc (room - 1)}
                (ground (arith, flag));
        sent = ground (arith, d.sent, smaller, flag);
        dropped = ground (arith, d.dropped, smaller, flag);
        others = λ other n. d.others other n ∙ others_kept frame r.bus (true, bus) q other n;
      }
  Delivered-cons frame frames e r r' found open_ (false, bus) q d =
      let (flag, queue, capacity) = room_flag frame e r.bus (false, bus) found open_ q in
      let smaller : c.capacity (offer p frame e).sender - length (c.queued (offer p frame e).sender)
          ≡ 0 =
        ground (arith, capacity, ap length queue, flag) in
      record {
        entry = d.entry;
        found = d.found;
        queue =
            d.queue
            ∙ ap (λ k. c.queued (offer p frame e).sender ++ take k frames) smaller
            ∙ ap (λ t. t ++ []) queue
            ∙ ap (λ k. c.queued e.sender ++ take k (frame ∷ frames)) {x = 0} (ground (arith, flag));
        sent = ground (arith, d.sent, smaller, flag);
        dropped = ground (arith, d.dropped, smaller, flag);
        others = λ other n. d.others other n ∙ others_kept frame r.bus (false, bus) q other n;
      }

  count_replay-lt :
      (x : Bool × Bus p) (r : Replayed p)
      → r.sent < 2 ^ 64
      → r.dropped < 2 ^ 64
      → ((count_replay p x r).sent < 2 ^ 64)
        × ((count_replay p x r).dropped < 2 ^ 64)
        × ((count_replay p x r).bus ≡ x.1)
  count_replay-lt (true, bus) r h k = (omega arith, k, refl)
  count_replay-lt (false, bus) r h k = (h, omega arith, refl)

  -- Replaying frames to a subscription with an open channel, which nobody empties meanwhile: as many
  -- frames as it has room for are queued behind what was there, in their order; `sent` and `dropped`
  -- grow by the numbers of these and of the others, on 64 bits; and no other subscription is changed.
  pub replay_loop-Delivered :
      (frames : List p.Bytes) (e : Entry p) (r : Replayed p)
      → entry_of p r.bus.subs sub_id ≡ some e
      → c.is_closed e.sender ≡ false
      → r.sent < 2 ^ 64
      → r.dropped < 2 ^ 64
      → Delivered frames e r (replay_loop p sub_id frames r)
  unfolding replay_loop
  replay_loop-Delivered [] e r found open_ s d = record {
    entry = e;
    found = found;
    queue = sym (
        ap (λ t. c.queued e.sender ++ t)
          (take_nil (c.capacity e.sender - length (c.queued e.sender)))
        ∙ append-nil (c.queued e.sender));
    sent = omega arith;
    dropped = omega arith;
    others = λ other n. refl;
  }
    where
      take_nil : (n : ℕ) → take {A = p.Bytes} n [] ≡ []
      take_nil zero = refl
      take_nil (suc n) = refl
  replay_loop-Delivered (frame ∷ frames) e r found open_ s d =
      let (s', d', same) = count_replay-lt (try_send_to p sub_id frame r.bus) r s d in
      Delivered-cons frame frames e r _ found open_ (try_send_to p sub_id frame r.bus) refl (
        replay_loop-Delivered frames (offer p frame e)
          (count_replay p (try_send_to p sub_id frame r.bus) r)
          (ap (λ (b : Bus p). entry_of p b.subs sub_id) same
            ∙ try_send_to-entry_of p laws sub_id sub_id frame r.bus
            ∙ ap
                (λ b.
                  if b
                  then Option.map (offer p frame) (entry_of p r.bus.subs sub_id)
                  else entry_of p r.bus.subs sub_id)
                (eqb_refl sub_id)
            ∙ ap (Option.map (offer p frame)) found)
          (offer-is_closed frame e ∙ open_) s' d')
