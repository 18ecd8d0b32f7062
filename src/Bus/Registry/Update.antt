-- ===== src/Bus/Registry/Update.antt =====
-- A change of one entry that keeps its generation and its filter, as a send makes it.
use tak_rs.Common.{ℕ, ◌<◌, Option, none, some, if◌then◌else◌, ◌=?◌, =?_iff, ◌≡◌, arith, refl}
use tak_rs.Bus.Identity.{SubscriptionId, id_eq}
use tak_rs.Bus.Platform.{Platform, SlabLaws}
use tak_rs.Bus.State.{Entry, Bus, entry_of}
use tak_rs.Bus.State.Entries.{entry_of-update, entry_of-same_slot}
use tak_rs.Bus.Registry.Invariant.{IsValid}

module _ (p : Platform) (laws : SlabLaws p) (f : Entry p → Entry p)
    (keeps : (e : Entry p) → ((f e).generation ≡ e.generation) × ((f e).filter ≡ e.filter)) where
  -- The change at the slot of an id with an entry, seen at every id.
  pub update-entry_of :
      (s : p.Slab (Entry p)) (id other : SubscriptionId) (e : Entry p)
      → entry_of p s id ≡ some e
      → entry_of p (p.slab_update (Entry p) id.slab_key f s) other
        ≡ (if other =? id then some (f e) else entry_of p s other)
  update-entry_of s id other e found = ground (
    arith,
    =?_iff other id,
    found,
    entry_of-update p laws id.slab_key f s other (λ x. (keeps x).0),
    entry_of-same_slot p laws s id other e found,
  )

  unfoldable pub updated : SubscriptionId → Bus p → Bus p
  updated id bus = record bus { subs = p.slab_update (Entry p) id.slab_key f bus.subs }

  pub updated-IsValid :
      (bus : Bus p) (id : SubscriptionId) (e : Entry p)
      → entry_of p bus.subs id ≡ some e
      → IsValid p bus
      → IsValid p (updated id bus)
  unfolding updated
  updated-IsValid bus id e found v = record {
    fresh = λ k x h. kept k x h (p.slab_get (Entry p) bus.subs k) refl;
    indexed = λ other path wild. ground (
      arith,
      v.indexed other path wild,
      found,
      update-entry_of bus.subs id other e found,
      =?_iff other id,
      keeps e,
    );
    listed = λ other.
        ground (
          arith,
          v.listed other,
          found,
          update-entry_of bus.subs id other e found,
          =?_iff other id,
        );
    counted = v.counted;
    bounded = v.bounded;
    wide = v.wide;
  }
    where
      kept :
          (k : ℕ) (x : Entry p)
          → p.slab_get (Entry p) (p.slab_update (Entry p) id.slab_key f bus.subs) k ≡ some x
          → (o : Option (Entry p)) → p.slab_get (Entry p) bus.subs k ≡ o
          → x.generation < bus.next_generation
      kept k x h none o = ground (arith, h, o, laws.get-update (Entry p) id.slab_key k f bus.subs)
      kept k x h (some y) o =
          ground (
            arith,
            h,
            o,
            v.fresh k y o,
            keeps y,
            laws.get-update (Entry p) id.slab_key k f bus.subs,
          )
