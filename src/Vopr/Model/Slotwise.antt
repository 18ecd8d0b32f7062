-- ===== src/Vopr/Model/Slotwise.antt =====
-- The operations of crates/tak-bus-vopr/src/model.rs on one slot: they keep the bus valid, the model
-- of the slot follows the bus, and no other subscription sees them.
use tak_rs.Common.{
  ℕ, ◌-◌, Bool, true, false, Option, none, some, if◌then◌else◌, length-drop, ◌=?◌, eqb_refl, ◌≡◌,
  refl, arith, Option-cases, Bool-cases, inl, inr,
}
use mathlib.Core.Option
use mathlib.Core.Path.{◌∙◌}
use tak_rs.Bus.Identity.{SubscriptionId, id_eq}
use tak_rs.Bus.Platform.{Platform, SlabLaws, ChannelLaws}
use tak_rs.Bus.State.{Entry, Bus, entry_of}
use tak_rs.Bus.Registry.{unsubscribe, unsubscribe_entry, forget}
use tak_rs.Bus.Registry.Invariant.{IsValid}
use tak_rs.Bus.Registry.Removal.{unsubscribe-IsValid, unsubscribe-entry_of}
use tak_rs.Bus.Registry.Update.{update-entry_of, updated, updated-IsValid}
use tak_rs.Vopr.Model.{
  ModelSub, drop_handle, drop_receiver, drain, drain_some, drain_channel, set_channel,
  set_entry_channel, put_channel, channel_of,
}
use tak_rs.Vopr.Model.Tracks.{Agrees, Tracks}
use tak_rs.Vopr.Model.Channel.{Drained, drain_channel-Drained}

module _ (p : Platform) (laws : SlabLaws p) where
  pub unsubscribe-generation :
      (bus : Bus p) (id : SubscriptionId)
      → (unsubscribe p id bus).next_generation ≡ bus.next_generation
  unfolding unsubscribe unsubscribe_entry forget
  unsubscribe-generation bus id = elim (Option-cases (entry_of p bus.subs id)) [
    | inl e ↦ rw e refl
    | inr (x, e) ↦ rw e (elim (Bool-cases (p.slab_remove (Entry p) id.slab_key bus.subs).0) [
      | inl r ↦ rw r refl
      | inr r ↦ rw r refl
    ])
  ]

module _ (p : Platform) (laws : SlabLaws p) (c : ChannelLaws p) where
  channel_of_gone :
      (s : ModelSub p) (bus : Bus p) → entry_of p bus.subs s.id ≡ none → channel_of p s bus ≡ s.left
  channel_of_gone s bus e = rw (channel_of, e) refl

  channel_of_there :
      (s : ModelSub p) (bus : Bus p) (x : Entry p)
      → entry_of p bus.subs s.id ≡ some x
      → channel_of p s bus ≡ some x.sender
  channel_of_there s bus x e = rw (channel_of, e) refl

  -- One slot was worked on, and nothing else.
  pub record Slotwise (s : ModelSub p) (bus : Bus p) (s' : ModelSub p) (bus' : Bus p) : Type 0 where
    pub same_id : s'.id ≡ s.id
    pub valid : IsValid p bus'
    pub tracks : Tracks p laws c s' (entry_of p bus'.subs s.id)
    pub others :
        (id : SubscriptionId)
        → (id =? s.id) ≡ false
        → entry_of p bus'.subs id ≡ entry_of p bus.subs id
    pub absent : entry_of p bus.subs s.id ≡ none → entry_of p bus'.subs s.id ≡ none
    pub same_generation : bus'.next_generation ≡ bus.next_generation

  module _ (s : ModelSub p) (bus : Bus p) (v : IsValid p bus)
      (t : Tracks p laws c s (entry_of p bus.subs s.id)) where
    Slotwise-same : Slotwise s bus s bus
    Slotwise-same = record {
      same_id = refl;
      valid = v;
      tracks = t;
      others = λ id h. refl;
      absent = λ h. h;
      same_generation = refl;
    }

    -- The handle's drop takes the entry out.
    pub drop_handle-Slotwise : Slotwise s bus (drop_handle p s bus).1 (drop_handle p s bus).2
    unfolding drop_handle Tracks
    drop_handle-Slotwise = go s.handle_dropped
      where
        go :
            (b : Bool)
            → (let (dropped, s', after) : Option SubscriptionId × ModelSub p × Bus p =
                  if b then (none, s, bus) else (
                    some s.id,
                    record s { handle_dropped = true; left = channel_of p s bus },
                    unsubscribe p s.id bus,
                  ) in
                Slotwise s bus s' after)
        go true = Slotwise-same
        go false = record {
          same_id = refl;
          valid = unsubscribe-IsValid p laws bus v s.id;
          tracks = rw (unsubscribe-entry_of p laws bus v s.id s.id, eqb_refl s.id) refl;
          others = λ id h. rw (unsubscribe-entry_of p laws bus v s.id id, h) refl;
          absent = λ h. rw (unsubscribe-entry_of p laws bus v s.id s.id, eqb_refl s.id) refl;
          same_generation = unsubscribe-generation p laws bus s.id;
        }

    -- A new state of the channel in the entry, with a model that agrees with it.
    put_channel-Slotwise :
        (ch : p.Sender) (s' : ModelSub p) (x : Entry p)
        → entry_of p bus.subs s.id ≡ some x
        → s'.id ≡ s.id
        → Agrees p laws c s' (put_channel p ch x)
        → Slotwise s bus s' (record bus {
          subs = p.slab_update (Entry p) s.id.slab_key (put_channel p ch) bus.subs;
        })
    unfolding updated Tracks
    put_channel-Slotwise ch s' x found same a = record {
      same_id = same;
      valid = updated-IsValid p laws (put_channel p ch) (λ e. (refl, refl)) bus s.id x found v;
      tracks =
          rw
            (
              update-entry_of p laws (put_channel p ch) (λ e. (refl, refl)) bus.subs s.id s.id x
                  found,
              eqb_refl s.id,
            )
            a;
      others = λ id h.
          rw
            (
              update-entry_of p laws (put_channel p ch) (λ e. (refl, refl)) bus.subs s.id id x
                  found,
              h,
            )
            refl;
      absent = λ h. absurd (cc (h, found));
      same_generation = refl;
    }

    gone_Slotwise :
        (s' : ModelSub p)
        → entry_of p bus.subs s.id ≡ none
        → s'.id ≡ s.id
        → s'.handle_dropped ≡ s.handle_dropped
        → Slotwise s bus s' bus
    unfolding Tracks
    gone_Slotwise s' gone same handle = record {
      same_id = same;
      valid = v;
      tracks = rw gone (handle ∙ dropped);
      others = λ id h. refl;
      absent = λ h. h;
      same_generation = refl;
    }
      where
        dropped : s.handle_dropped ≡ true
        dropped = rw gone at t

    drain_some-Slotwise :
        (max : ℕ) (o : Option p.Sender)
        → ((ch : p.Sender)
            → o ≡ some ch
            → (s.receiver_dropped ≡ false) × (channel_of p s bus ≡ some ch))
        → Slotwise s bus (drain_some p max s o bus).1 (drain_some p max s o bus).2
    unfolding drain_some set_channel set_entry_channel Tracks
    drain_some-Slotwise max none h = Slotwise-same
    drain_some-Slotwise max (some ch) h = elim (Option-cases (entry_of p bus.subs s.id)) [
      | inl e ↦ rw e (gone_Slotwise _ e refl refl)
      | inr (x, e) ↦ rw e (put_channel-Slotwise _ _ x e refl (drained x e))
    ]
      where
        drained :
            (x : Entry p)
            → entry_of p bus.subs s.id ≡ some x
            → Agrees p laws c
                (record s { queued = s.queued - (drain_channel p max ch).0 })
                (put_channel p (drain_channel p max ch).1 x)
        drained x e = record {
          same_filter = a.same_filter;
          same_delivered = a.same_delivered;
          same_dropped_full = a.same_dropped_full;
          same_queued = λ r. ground (
            arith,
            d.0,
            d.1,
            a.same_queued r,
            same,
            length-drop (drain_channel p max ch).0 (c.queued ch),
          );
          same_capacity = ground (arith, d.2, a.same_capacity, same);
          same_receiver = ground (arith, d.3, a.same_receiver, same);
          alive = a.alive;
          usize = a.usize;
        }
          where
            a : Agrees p laws c s x
            a = rw e at t

            d : Drained p laws c max ch
            d = drain_channel-Drained p laws c max ch

            same : x.sender ≡ ch
            same = cc (channel_of_there s bus x e, (h ch refl).1)

    pub drain-Slotwise : (max : ℕ) → Slotwise s bus (drain p s max bus).1 (drain p s max bus).2
    unfolding drain
    drain-Slotwise max =
        drain_some-Slotwise max (if s.receiver_dropped then none else channel_of p s bus)
          (held s.receiver_dropped)
      where
        held :
            (b : Bool) (ch : p.Sender)
            → (if b then none else channel_of p s bus) ≡ some ch
            → (b ≡ false) × (channel_of p s bus ≡ some ch)
        held true ch h = absurd (cc (h))
        held false ch h = (refl, h)

    pub drop_receiver-Slotwise : Slotwise s bus (drop_receiver p s bus).1 (drop_receiver p s bus).2
    unfolding drop_receiver set_channel set_entry_channel Tracks
    drop_receiver-Slotwise = go s.receiver_dropped
      where
        closed_Agrees :
            (x : Entry p)
            → Agrees p laws c s x
            → Agrees p laws c
                (record s { receiver_dropped = true })
                (put_channel p (p.close x.sender) x)
        closed_Agrees x a = record {
          same_filter = a.same_filter;
          same_delivered = a.same_delivered;
          same_dropped_full = a.same_dropped_full;
          same_queued = λ r. absurd (cc (r));
          same_capacity = c.close-capacity x.sender ∙ a.same_capacity;
          same_receiver = c.close-is_closed x.sender;
          alive = a.alive;
          usize = a.usize;
        }

        left_over :
            (o : Option p.Sender)
            → entry_of p bus.subs s.id ≡ none
            → (let (s', after) = set_channel p s (Option.map p.close o) bus in
                Slotwise s bus (record s' { receiver_dropped = true }) after)
        left_over none e = gone_Slotwise _ e refl refl
        left_over (some ch) e = rw e (gone_Slotwise _ e refl refl)

        closing :
            Slotwise s bus
              (record (set_channel p s (Option.map p.close (channel_of p s bus)) bus).0 {
                receiver_dropped = true;
              })
              (set_channel p s (Option.map p.close (channel_of p s bus)) bus).1
        closing = elim (Option-cases (entry_of p bus.subs s.id)) [
          | inl e ↦ rw (channel_of_gone s bus e) (left_over s.left e)
          | inr (x, e) ↦
              rw (channel_of_there s bus x e, e)
                (put_channel-Slotwise _ _ x e refl (closed_Agrees x (rw e at t)))
        ]

        go :
            (b : Bool)
            → (let (dropped, s', after) : Bool × ModelSub p × Bus p =
                  if b
                  then (false, s, bus)
                  else let (s', after) =
                      set_channel p s (Option.map p.close (channel_of p s bus)) bus in
                    (true, record s' { receiver_dropped = true }, after) in
                Slotwise s bus s' after)
        go true = Slotwise-same
        go false = closing
