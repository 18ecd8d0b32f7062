-- ===== src/Vopr/Runner/Subscribe.antt =====
-- `Op::Subscribe` of crates/tak-bus-vopr/src/runner.rs: the new subscription joins both sides.
use tak_rs.Common.{
  ℕ, ◌+◌, ◌%◌, ◌^◌, ◌<◌, true, false, some, List, [], ◌∷◌, All, All-append, ◌=?◌, =?_iff,
  if◌then◌else◌, count, count-append, ◌≡◌, refl, arith, Option-cases, inl, inr,
}
use mathlib.Core.Path.{◌∙◌}
use tak_rs.Bus.Identity.{SubscriptionId, id_eq}
use tak_rs.Bus.Platform.{Platform, SlabLaws, ChannelLaws, is_some}
use tak_rs.Bus.Filter.{Filter}
use tak_rs.Bus.State.{Entry, Bus, entry_of}
use tak_rs.Bus.Registry.{register, subscribe_with_capacity, fresh_entry}
use tak_rs.Bus.Registry.Preserved.{subscribe-IsValid, subscribe-entry_of}
use tak_rs.Vopr.Model.{ModelSub, add_sub}
use tak_rs.Vopr.Model.Tracks.{add_sub-Tracks}
use tak_rs.Vopr.Runner.{World, apply_subscribe}
use tak_rs.Vopr.Runner.Slots.{
  ids_of, map-All, alive-ids, count-later, ids_of-append, count-alive_append,
}
use tak_rs.Vopr.Runner.Simulates.{InStep, All_ids}

module _ (p : Platform) where
  -- The slab never fills up.
  abbrev pub HasRoom : Type 0
  HasRoom = (e : Entry p) (s : p.Slab (Entry p)) → is_some (p.slab_insert (Entry p) e s) ≡ true

  pub subscribe-attached :
      (filter : Filter p) (capacity : ℕ) (bus : Bus p)
      → HasRoom
      → (subscribe_with_capacity p filter capacity bus).0.attached ≡ true
  unfolding subscribe_with_capacity register
  subscribe-attached filter capacity bus room =
      elim (Option-cases
        (p.slab_insert (Entry p) (fresh_entry p filter bus.next_generation capacity) bus.subs)) [
          | inl e ↦
              absurd (
                ground
                  (arith, e, room (fresh_entry p filter bus.next_generation capacity) bus.subs))
          | inr (x, e) ↦ rw e refl
        ]

  -- The generation that the new id takes, and the next one.
  pub subscribe-generation :
      (filter : Filter p) (capacity : ℕ) (bus : Bus p)
      → ((subscribe_with_capacity p filter capacity bus).0.id.generation ≡ bus.next_generation)
        × ((subscribe_with_capacity p filter capacity bus).1.next_generation
            ≡ (bus.next_generation + 1) % 2 ^ 64)
  unfolding subscribe_with_capacity register
  subscribe-generation filter capacity bus =
      elim (Option-cases
        (p.slab_insert (Entry p) (fresh_entry p filter bus.next_generation capacity) bus.subs)) [
          | inl e ↦ rw e (refl, refl)
          | inr (x, e) ↦ rw e (refl, refl)
        ]

module _ (p : Platform) (laws : SlabLaws p) (c : ChannelLaws p) (room : HasRoom p) (w : World p)
    (m : InStep p laws c w) (filter : Filter p) (capacity : ℕ)
    (next : w.bus.next_generation + 1 < 2 ^ 64) (fits : capacity < 2 ^ 64) where
  new_sub : ModelSub p
  new_sub = (add_sub p filter capacity w.bus).0

  new_bus : Bus p
  new_bus = (subscribe_with_capacity p filter capacity w.bus).1

  new_sub-generation : new_sub.id.generation ≡ w.bus.next_generation
  unfolding new_sub add_sub
  new_sub-generation = (subscribe-generation p filter capacity w.bus).0

  new_bus-generation : new_bus.next_generation ≡ w.bus.next_generation + 1
  unfolding new_bus
  new_bus-generation = ground (arith, next, (subscribe-generation p filter capacity w.bus).1)

  new_bus-entry_of :
      (id : SubscriptionId)
      → entry_of p new_bus.subs id ≡ (
          if id =? new_sub.id
          then some (fresh_entry p filter w.bus.next_generation capacity)
          else entry_of p w.bus.subs id)
  unfolding new_sub new_bus add_sub
  new_bus-entry_of id =
      subscribe-entry_of p laws w.bus m.valid filter capacity id
      ∙ rw (subscribe-attached p filter capacity w.bus room) refl

  not_new :
      (id : SubscriptionId) → id.generation < w.bus.next_generation → (id =? new_sub.id) ≡ false
  not_new id g = ground (arith, g, new_sub-generation, =?_iff id new_sub.id)

  old_entry :
      (id : SubscriptionId)
      → id.generation < w.bus.next_generation
      → entry_of p new_bus.subs id ≡ entry_of p w.bus.subs id
  old_entry id g = rw (new_bus-entry_of id, not_new id g) refl

  new_sub-absent : count new_sub.id (ids_of p w.model.subs) ≡ 0
  new_sub-absent =
      count-later p new_sub.id w.bus.next_generation w.model.subs m.old
        (omega (arith, new_sub-generation))

  both :
      (P Q : ModelSub p → Type 0) (subs : List (ModelSub p))
      → All P subs
      → All Q subs
      → All (λ s. P s × Q s) subs
  both P Q [] a b = tt
  both P Q (s ∷ subs) a b = ((a.0, b.0), both P Q subs a.1 b.1)

  -- Subscribing keeps the model in step with the bus.
  pub apply_subscribe-InStep : InStep p laws c (apply_subscribe p filter capacity w)
  unfolding apply_subscribe add_sub new_sub new_bus
  apply_subscribe-InStep = record {
    valid = subscribe-IsValid p laws w.bus m.valid filter capacity next;
    tracked =
        All-append _ w.model.subs (new_sub ∷ [])
          (map-All p _ _ w.model.subs (λ s (t, g). rw (old_entry s.id g) t)
            (both _ _ w.model.subs m.tracked m.old))
          (
            add_sub-Tracks p laws c filter capacity w.bus m.valid fits
                (subscribe-attached p filter capacity w.bus room),
            tt,
          );
    distinct = λ id. ground (
      arith,
      m.distinct id,
      ids_of-append p w.model.subs (new_sub ∷ []),
      count-append id (ids_of p w.model.subs) (new_sub.id ∷ []),
      new_sub-absent,
      =?_iff id new_sub.id,
    );
    counted = λ id. ground (
      arith,
      m.counted id,
      m.counted new_sub.id,
      alive-ids p new_sub.id w.model.subs,
      new_sub-absent,
      new_bus-entry_of id,
      count-alive_append p id w.model.subs (new_sub ∷ []),
      =?_iff id new_sub.id,
    );
    old =
        All-append _ w.model.subs (new_sub ∷ [])
          (map-All p _ _ w.model.subs (λ s g. omega (arith, g, new_bus-generation)) m.old)
          (omega (arith, new_bus-generation, new_sub-generation), tt);
    stale =
        All_ids p laws c _ _ w.model.dropped_ids
          (λ id (e, g). (old_entry id g ∙ e, omega (arith, g, new_bus-generation))) m.stale;
  }

  pub apply_subscribe-generation :
      (apply_subscribe p filter capacity w).bus.next_generation ≡ w.bus.next_generation + 1
  unfolding apply_subscribe add_sub new_bus
  apply_subscribe-generation = new_bus-generation
