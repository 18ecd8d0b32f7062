-- ===== src/Bus/Registry/Preserved.antt =====
-- `subscribe` and `unsubscribe` keep the invariant, and what they do to the entries.
use tak_rs.Common.{
  ℕ, ◌+◌, ◌%◌, ◌^◌, ◌<◌, ◌&&◌, none, some, [], ◌∷◌, ◌=?◌, if◌then◌else◌, count-append,
  length-append, ◌≡◌, arith, =?_iff, refl, Option-cases, inl, inr,
}
use tak_rs.Bus.Identity.{SubscriptionId, id_eq}
use tak_rs.Bus.TypeIndex.Slots.{stored, stored-insert}
use tak_rs.Bus.Platform.{Platform, SlabLaws}
use tak_rs.Bus.Filter.{Filter}
use tak_rs.Bus.State.{Entry, Bus, entry_of}
use tak_rs.Bus.State.Entries.{entry_of-insert, entry_of-insert_free}
use tak_rs.Bus.Registry.{pattern_of, fresh_entry, register, subscribe_with_capacity}
use tak_rs.Bus.Registry.Invariant.{IsValid}

module _ (p : Platform) (laws : SlabLaws p) (bus : Bus p) (v : IsValid p bus) where
  -- The slab took the entry at `key`.
  module _ (filter : Filter p) (capacity key : ℕ) (subs : p.Slab (Entry p))
      (taken : p.slab_insert (Entry p) (fresh_entry p filter bus.next_generation capacity) bus.subs
        ≡ some (key, subs)) where
    abbrev new_id : SubscriptionId
    new_id = record { slab_key = key; generation = bus.next_generation }

    abbrev new_entry : Entry p
    new_entry = fresh_entry p filter bus.next_generation capacity

    -- The new id had no entry before, and has the new one; the others keep theirs.
    entry_of-taken :
        (id : SubscriptionId)
        → entry_of p subs id ≡ (if id =? new_id then some new_entry else entry_of p bus.subs id)
    unfolding fresh_entry
    entry_of-taken id = ground (
      arith,
      =?_iff id new_id,
      entry_of-insert p laws new_entry bus.subs key subs id taken,
      entry_of-insert_free p laws new_entry bus.subs key subs id taken,
    )

    new_id-absent : entry_of p bus.subs new_id ≡ none
    new_id-absent = entry_of-insert_free p laws new_entry bus.subs key subs new_id taken refl

    registered : Bus p
    unfolding subscribe_with_capacity
    registered =
        (register p filter bus.next_generation (some (key, subs))
          (record bus { next_generation = (bus.next_generation + 1) % 2 ^ 64 })).1

    registered-IsValid : bus.next_generation + 1 < 2 ^ 64 → IsValid p registered
    unfolding registered register fresh_entry
    registered-IsValid room = record {
      fresh = λ k e h.
          ground
            (arith, h, v.fresh k e, laws.get-insert (Entry p) new_entry bus.subs key k subs taken);
      indexed = λ id path wild. ground (
        arith,
        v.indexed id path wild,
        new_id-absent,
        entry_of-taken id,
        =?_iff id new_id,
        stored-insert (pattern_of p filter) new_id path wild bus.type_index,
        count-append id (stored path wild bus.type_index) (new_id ∷ []),
      );
      listed = λ id. ground (
        arith,
        v.listed id,
        new_id-absent,
        entry_of-taken id,
        =?_iff id new_id,
        count-append id bus.live_ids (new_id ∷ []),
      );
      counted = ground (arith, v.counted, v.bounded, length-append bus.live_ids (new_id ∷ []));
      bounded = ground (arith, v.bounded);
      wide = ground arith;
    }

  -- Subscribing on a valid bus, with any filter and any capacity and whether or not the slab has
  -- room, gives a valid bus, if the next generation is below 2^64 - 1.
  pub subscribe-IsValid :
      (filter : Filter p) (capacity : ℕ)
      → bus.next_generation + 1 < 2 ^ 64
      → IsValid p (subscribe_with_capacity p filter capacity bus).1
  unfolding subscribe_with_capacity register registered
  subscribe-IsValid filter capacity room =
      elim (Option-cases
        (p.slab_insert (Entry p) (fresh_entry p filter bus.next_generation capacity) bus.subs)) [
          | inl e ↦ rw e (record {
            fresh = λ k x h. ground (arith, v.fresh k x h);
            indexed = v.indexed;
            listed = v.listed;
            counted = v.counted;
            bounded = ground (arith, v.bounded);
            wide = ground arith;
          })
          | inr ((key, subs), e) ↦ rw e (registered-IsValid filter capacity key subs e room)
        ]

  -- On a valid bus: if the handle that `subscribe_with_capacity` returns is attached, its id finds a
  -- fresh entry with the filter and the capacity, and every other id finds what it found before; if
  -- it is not, every id finds what it found before.
  pub subscribe-entry_of :
      (filter : Filter p) (capacity : ℕ) (id : SubscriptionId)
      → entry_of p (subscribe_with_capacity p filter capacity bus).1.subs id ≡ (
          let (h, after) = subscribe_with_capacity p filter capacity bus in
          if h.attached && (id =? h.id)
          then some (fresh_entry p filter bus.next_generation capacity)
          else entry_of p bus.subs id)
  unfolding subscribe_with_capacity register
  subscribe-entry_of filter capacity id =
      elim (Option-cases
        (p.slab_insert (Entry p) (fresh_entry p filter bus.next_generation capacity) bus.subs)) [
          | inl e ↦ rw e refl
          | inr ((key, subs), e) ↦
              rw e (ground (arith, entry_of-taken filter capacity key subs e id))
        ]
