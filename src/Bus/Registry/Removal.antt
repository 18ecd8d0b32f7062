-- ===== src/Bus/Registry/Removal.antt =====
-- `unsubscribe` keeps the invariant and takes out one entry; an id that is out of date changes
-- nothing.
use tak_rs.Common.{
  true, none, some, ◌=?◌, if◌then◌else◌, count-without, ◌≡◌, arith, =?_iff, refl, Option-cases, inl,
  inr,
}
use tak_rs.Bus.Identity.{SubscriptionId, id_eq}
use tak_rs.Bus.TypeIndex.Slots.{stored, stored-remove}
use tak_rs.Bus.Platform.{Platform, SlabLaws}
use tak_rs.Bus.State.{Entry, Bus, entry_of}
use tak_rs.Bus.State.Entries.{entry_of-remove, entry_of-generation, entry_of-same_slot}
use tak_rs.Bus.Registry.{pattern_of, unsubscribe_entry, unsubscribe, forget}
use tak_rs.Bus.Registry.Invariant.{IsValid, swap_remove_first_counts}

module _ (p : Platform) (laws : SlabLaws p) (bus : Bus p) (v : IsValid p bus) where
  -- The entry at `id` is taken out.
  module _ (id : SubscriptionId) (e : Entry p) (found : entry_of p bus.subs id ≡ some e) where
    unsubscribed : Bus p
    unsubscribed = unsubscribe_entry p id (some e) bus

    removed_now : (p.slab_remove (Entry p) id.slab_key bus.subs).0 ≡ true
    removed_now = ground (
      arith,
      laws.remove-result (Entry p) id.slab_key bus.subs,
      entry_of-generation p laws bus.subs id e found,
    )

    entry_of-unsubscribed :
        (other : SubscriptionId)
        → entry_of p unsubscribed.subs other
          ≡ (if other =? id then none else entry_of p bus.subs other)
    unfolding unsubscribed unsubscribe_entry forget
    entry_of-unsubscribed other = rw removed_now (
        ground (
          arith,
          =?_iff other id,
          found,
          entry_of-remove p laws id.slab_key bus.subs other,
          entry_of-same_slot p laws bus.subs id other e found,
        ))

    unsubscribed-IsValid : IsValid p unsubscribed
    unfolding unsubscribed unsubscribe_entry forget
    unsubscribed-IsValid = rw removed_now (record {
      fresh =
          λ k x h. ground (arith, h, v.fresh k x, laws.get-remove (Entry p) id.slab_key k bus.subs);
      indexed = λ other path wild. ground (
        arith,
        removed_now,
        entry_of-unsubscribed other,
        v.indexed other path wild,
        found,
        =?_iff other id,
        =?_iff id other,
        stored-remove (pattern_of p e.filter) id path wild bus.type_index,
        count-without id other (stored path wild bus.type_index),
      );
      listed = λ other. ground (
        arith,
        removed_now,
        entry_of-unsubscribed other,
        v.listed other,
        v.listed id,
        found,
        =?_iff other id,
        swap_remove_first_counts id other bus.live_ids,
      );
      counted = ground (
        arith,
        v.counted,
        v.bounded,
        v.wide,
        v.listed id,
        found,
        swap_remove_first_counts id id bus.live_ids,
      );
      bounded = ground (
        arith,
        v.counted,
        v.bounded,
        v.wide,
        v.listed id,
        found,
        swap_remove_first_counts id id bus.live_ids,
      );
      wide = v.wide;
    })

  -- Unsubscribing any id on a valid bus gives a valid bus.
  pub unsubscribe-IsValid : (id : SubscriptionId) → IsValid p (unsubscribe p id bus)
  unfolding unsubscribe unsubscribe_entry unsubscribed
  unsubscribe-IsValid id = elim (Option-cases (entry_of p bus.subs id)) [
    | inl e ↦ rw e v
    | inr (x, e) ↦ rw e (unsubscribed-IsValid id x e)
  ]

  -- After `unsubscribe` on a valid bus the id finds no entry, and every other id, those of the same
  -- slot included, finds what it found before.
  pub unsubscribe-entry_of :
      (id other : SubscriptionId)
      → entry_of p (unsubscribe p id bus).subs other
        ≡ (if other =? id then none else entry_of p bus.subs other)
  unfolding unsubscribe unsubscribe_entry unsubscribed
  unsubscribe-entry_of id other = elim (Option-cases (entry_of p bus.subs id)) [
    | inl e ↦ rw e (ground (arith, e, =?_iff other id))
    | inr (x, e) ↦ rw e (entry_of-unsubscribed id x e other)
  ]

  -- An id that finds no entry, such as one from before its slot was taken again, changes nothing.
  pub unsubscribe_stale :
      (id : SubscriptionId) → entry_of p bus.subs id ≡ none → unsubscribe p id bus ≡ bus
  unfolding unsubscribe unsubscribe_entry
  unsubscribe_stale id e = rw e refl
