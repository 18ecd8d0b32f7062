-- ===== src/Bus/State/Entries.antt =====
-- The entry of an id, through the operations of the slab.
use tak_rs.Common.{ℕ, ◌==◌, ◌=?◌, =?_iff, Option, none, some, if◌then◌else◌, ◌≡◌, arith}
use mathlib.Core.Option
use tak_rs.Bus.Identity.{SubscriptionId, id_eq}
use tak_rs.Bus.Platform.{Platform, SlabLaws}
use tak_rs.Bus.State.{Entry, entry_of, check_generation}

module _ (p : Platform) (laws : SlabLaws p) where
  open p use {Slab, slab_insert, slab_get, slab_remove, slab_update}

  -- An update of one slot that keeps the generation.
  pub entry_of-update :
      (k : ℕ) (f : Entry p → Entry p) (s : Slab (Entry p)) (id : SubscriptionId)
      → ((e : Entry p) → (f e).generation ≡ e.generation)
      → entry_of p (slab_update (Entry p) k f s) id
        ≡ (if k == id.slab_key then Option.map f (entry_of p s id) else entry_of p s id)
  unfolding entry_of
  entry_of-update k f s id keeps =
      answer (slab_get (Entry p) s id.slab_key) (laws.get-update (Entry p) k id.slab_key f s)
    where
      answer :
          (o : Option (Entry p))
          → slab_get (Entry p) (slab_update (Entry p) k f s) id.slab_key
            ≡ (if k == id.slab_key then Option.map f o else o)
          → check_generation p id.generation
              (slab_get (Entry p) (slab_update (Entry p) k f s) id.slab_key)
            ≡ (if k == id.slab_key
                then Option.map f (check_generation p id.generation o)
                else check_generation p id.generation o)
      answer none e = ground arith
      answer (some x) e = ground (arith, keeps x)

  pub entry_of-insert :
      (e : Entry p) (s : Slab (Entry p)) (k : ℕ) (s' : Slab (Entry p)) (id : SubscriptionId)
      → slab_insert (Entry p) e s ≡ some (k, s')
      → entry_of p s' id ≡ (
          if k == id.slab_key
          then (if e.generation == id.generation then some e else none)
          else entry_of p s id)
  unfolding entry_of
  entry_of-insert e s k s' id h = ground (arith, laws.get-insert (Entry p) e s k id.slab_key s' h)

  pub entry_of-insert_free :
      (e : Entry p) (s : Slab (Entry p)) (k : ℕ) (s' : Slab (Entry p)) (id : SubscriptionId)
      → slab_insert (Entry p) e s ≡ some (k, s')
      → k ≡ id.slab_key
      → entry_of p s id ≡ none
  unfolding entry_of
  entry_of-insert_free e s k s' id h same =
      ground (arith, same, laws.insert-free (Entry p) e s k s' h)

  pub entry_of-remove :
      (k : ℕ) (s : Slab (Entry p)) (id : SubscriptionId)
      → entry_of p (slab_remove (Entry p) k s).1 id
        ≡ (if k == id.slab_key then none else entry_of p s id)
  unfolding entry_of
  entry_of-remove k s id = ground (arith, laws.get-remove (Entry p) k id.slab_key s)

  -- Of the ids with one slab key at most one has an entry: that of the entry's generation.
  pub entry_of-generation :
      (s : Slab (Entry p)) (id : SubscriptionId) (e : Entry p)
      → entry_of p s id ≡ some e
      → (slab_get (Entry p) s id.slab_key ≡ some e) × (e.generation ≡ id.generation)
  unfolding entry_of
  entry_of-generation s id e h = ground arith

  pub entry_of-same_slot :
      (s : Slab (Entry p)) (id other : SubscriptionId) (e : Entry p)
      → entry_of p s id ≡ some e
      → other.slab_key ≡ id.slab_key
      → entry_of p s other ≡ (if other =? id then some e else none)
  unfolding entry_of
  entry_of-same_slot s id other e h same =
      rw same (ground (arith, same, entry_of-generation s id e h, =?_iff other id))
