-- ===== src/Vopr/Model/Channel.antt =====
-- `Model::drain` and `Model::drop_receiver` of crates/tak-bus-vopr/src/model.rs: what they do to the
-- channel, and that the model still follows the bus.
use tak_rs.Common.{ℕ, zero, suc, min, List, [], ◌∷◌, drop, length, ◌≡◌, refl, arith}
use mathlib.Core.Path.{ap, ◌∙◌}
use tak_rs.Bus.Identity.{id_eq}
use tak_rs.Bus.Platform.{Platform, SlabLaws, ChannelLaws}
use tak_rs.Vopr.Model.{drain_channel}

module _ (p : Platform) (laws : SlabLaws p) (c : ChannelLaws p) where
  -- What draining takes from the front of a channel, and what it leaves alone.
  abbrev pub Drained : ℕ → p.Sender → Type 0
  Drained n ch =
      ((drain_channel p n ch).0 ≡ min n (length (c.queued ch)))
      × (c.queued (drain_channel p n ch).1 ≡ drop (drain_channel p n ch).0 (c.queued ch))
      × (c.capacity (drain_channel p n ch).1 ≡ c.capacity ch)
      × (c.is_closed (drain_channel p n ch).1 ≡ c.is_closed ch)

  drain_channel_empty :
      (n : ℕ) (ch : p.Sender)
      → c.queued ch ≡ []
      → drain_channel p (suc n) ch ≡ (0, (p.try_recv ch).1)
  unfolding drain_channel
  drain_channel_empty n ch e = rw (drain_channel, c.recv-result ch, e) refl

  drain_channel_front :
      (n : ℕ) (ch : p.Sender) (b : p.Bytes) (bs : List p.Bytes)
      → c.queued ch ≡ b ∷ bs
      → drain_channel p (suc n) ch
        ≡ (suc (drain_channel p n (p.try_recv ch).1).0, (drain_channel p n (p.try_recv ch).1).1)
  unfolding drain_channel
  drain_channel_front n ch b bs e =
      rw (drain_channel, c.recv-result ch, e)
        (ap (λ k. (k, (drain_channel p n (p.try_recv ch).1).1)) (omega arith))

  -- Draining an open or a closed channel takes as many messages as there are, up to the limit, from
  -- the front of the queue, and changes neither the capacity nor whether the channel is closed.
  pub drain_channel-Drained : (n : ℕ) (ch : p.Sender) → Drained n ch
  unfolding drain_channel
  drain_channel-Drained zero ch = (ground arith, refl, refl, refl)
  drain_channel-Drained (suc n) ch =
      front (c.queued ch) refl (drain_channel-Drained n (p.try_recv ch).1)
    where
      front :
          (q : List p.Bytes) → c.queued ch ≡ q → Drained n (p.try_recv ch).1 → Drained (suc n) ch
      front [] e rest = rw (drain_channel_empty n ch e) (
        ground (arith, e),
        rw (c.recv-queued ch, e) refl,
        c.recv-capacity ch,
        c.recv-is_closed ch,
      )
      front (b ∷ bs) e rest = rw (drain_channel_front n ch b bs e) (
        ground (arith, e, c.recv-queued ch, rest.0),
        rest.1 ∙ rw (c.recv-queued ch, e) refl,
        rest.2 ∙ c.recv-capacity ch,
        rest.3 ∙ c.recv-is_closed ch,
      )
