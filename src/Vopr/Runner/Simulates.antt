-- ===== src/Vopr/Runner/Simulates.antt =====
-- The model's subscriptions and the bus, as the operations of the simulator keep them in step.
use tak_rs.Common.{
  ℕ, zero, suc, ◌<◌, ◌≤◌, Bool, true, false, Option, none, some, List, [], ◌∷◌, ◌++◌, All,
  All-append, ◌=?◌, =?_iff, eqb_refl, if◌then◌else◌, ltb, length, drop, count, get_elem?,
  length-same_counts, ◌≡◌, refl, arith, Bool-cases, Option-cases, inl, inr,
}
use mathlib.Core.Path.{sym, ◌∙◌, subst}
use tak_rs.Bus.Identity.{SubscriptionId, id_eq}
use tak_rs.Bus.TypeIndex.{Ids}
use tak_rs.Bus.Platform.{Platform, SlabLaws, ChannelLaws}
use tak_rs.Bus.State.{Entry, Bus, entry_of, len}
use tak_rs.Bus.Registry.Invariant.{IsValid, present}
use tak_rs.Bus.Registry.{unsubscribe}
use tak_rs.Bus.Registry.Removal.{unsubscribe-entry_of}
use tak_rs.Vopr.Model.{channel_of, ModelSub, handle_alive, drop_handle}
use tak_rs.Vopr.Model.Tracks.{Tracks}
use tak_rs.Vopr.Model.Slotwise.{
  Slotwise, drop_handle-Slotwise, drain-Slotwise, drop_receiver-Slotwise,
}
use tak_rs.Vopr.Runner.{
  World, change_slot, count_live, remember, drop_handle_at, drain_at, drop_receiver_at,
  drop_handle_found, drain_found, drop_receiver_found,
}
use tak_rs.Vopr.Runner.Slots.{
  ids_of, alive_ids, length-alive_ids, found-All, change-All, change-ids_of, change-alive,
}

module _ (p : Platform) (laws : SlabLaws p) (c : ChannelLaws p) where
  -- The model and the bus are in step: each subscription of the model is tracked, the entries are
  -- those of the subscriptions with a live handle, and the ids that were dropped find no entry.
  pub record Simulates (bus : Bus p) (subs : List (ModelSub p)) (dropped : Ids) : Type 0 where
    pub valid : IsValid p bus
    pub tracked : All (λ (s : ModelSub p). Tracks p laws c s (entry_of p bus.subs s.id)) subs
    pub distinct : (id : SubscriptionId) → count id (ids_of p subs) ≤ 1
    pub counted :
        (id : SubscriptionId) → count id (alive_ids p subs) ≡ present p (entry_of p bus.subs id)
    pub old : All (λ (s : ModelSub p). s.id.generation < bus.next_generation) subs
    pub stale :
        All
          (λ (id : SubscriptionId).
            (entry_of p bus.subs id ≡ none) × (id.generation < bus.next_generation))
          dropped

  abbrev pub InStep : World p → Type 0
  InStep w = Simulates w.bus w.model.subs w.model.dropped_ids

  Tracks-present :
      (s : ModelSub p) (o : Option (Entry p))
      → Tracks p laws c s o
      → present p o ≡ (if handle_alive p s then 1 else 0)
  unfolding Tracks
  Tracks-present s none t = ground (arith, t)
  Tracks-present s (some e) a = ground (arith, a.alive)

  -- `bus.len()` is the number of live handles of the model.
  pub Simulates-len :
      (bus : Bus p) (subs : List (ModelSub p)) (dropped : Ids)
      → Simulates bus subs dropped
      → len p bus ≡ count_live p subs
  unfolding len
  Simulates-len bus subs dropped m =
      m.valid.counted
      ∙ length-same_counts bus.live_ids (alive_ids p subs)
          (λ id. m.valid.listed id ∙ sym (m.counted id))
      ∙ length-alive_ids p subs

  pub All_ids :
      (P Q : SubscriptionId → Type 0) (ids : Ids)
      → ((id : SubscriptionId) → P id → Q id)
      → All P ids
      → All Q ids
  All_ids P Q [] f a = tt
  All_ids P Q (id ∷ ids) f a = (f id a.0, All_ids P Q ids f a.1)

  -- An operation on one slot.
  slot-Simulates :
      (bus bus' : Bus p) (subs : List (ModelSub p)) (dropped : Ids) (i : ℕ) (s s' : ModelSub p)
      → Simulates bus subs dropped
      → get_elem? subs i ≡ some s
      → Slotwise p laws c s bus s' bus'
      → Simulates bus' (change_slot p i (λ t. s') subs) dropped
  slot-Simulates bus bus' subs dropped i s s' m h w = record {
    valid = w.valid;
    tracked =
        change-All p (λ t. Tracks p laws c t (entry_of p bus.subs t.id))
          (λ t. Tracks p laws c t (entry_of p bus'.subs t.id)) subs i s s' h (m.distinct s.id)
          (λ t differ r. rw (w.others t.id differ) r)
          (subst (λ x. Tracks p laws c s' (entry_of p bus'.subs x)) (sym w.same_id) w.tracks)
          m.tracked;
    distinct = λ id. rw (change-ids_of p s s' w.same_id subs i h) (m.distinct id);
    counted = λ id. elim (Bool-cases (id =? s.id)) [
      | inl same ↦ ground (
        arith,
        change-alive p s s' w.same_id id subs i h,
        same,
        =?_iff id s.id,
        m.counted id,
        Tracks-present s (entry_of p bus.subs s.id) t,
        Tracks-present s' (entry_of p bus'.subs s.id) w.tracks,
      )
      | inr differ ↦ ground (
        arith,
        change-alive p s s' w.same_id id subs i h,
        differ,
        m.counted id,
        w.others id differ,
      )
    ];
    old =
        change-All p (λ t. t.id.generation < bus.next_generation)
          (λ t. t.id.generation < bus'.next_generation) subs i s s' h (m.distinct s.id)
          (λ t differ r. omega (arith, r, w.same_generation))
          (ground (
            arith,
            w.same_id,
            w.same_generation,
            found-All p (λ t. t.id.generation < bus.next_generation) (λ t. Unit {0}) subs i s h
                m.old,
          ))
          m.old;
    stale =
        All_ids _ _ dropped (λ id (e, g). (still id e, omega (arith, g, w.same_generation)))
          m.stale;
  }
    where
      t : Tracks p laws c s (entry_of p bus.subs s.id)
      t =
          found-All p (λ t. Tracks p laws c t (entry_of p bus.subs t.id)) (λ t. Unit {0}) subs i s h
            m.tracked

      still : (id : SubscriptionId) → entry_of p bus.subs id ≡ none → entry_of p bus'.subs id ≡ none
      still id e = elim (Bool-cases (id =? s.id)) [
        | inl same ↦ ground (arith, same, =?_iff id s.id, e, w.absent)
        | inr differ ↦ w.others id differ ∙ e
      ]

  drop-All : (P : SubscriptionId → Type 0) (n : ℕ) (ids : Ids) → All P ids → All P (drop n ids)
  drop-All P zero ids a = a
  drop-All P (suc n) [] a = tt
  drop-All P (suc n) (id ∷ ids) a = drop-All P n ids a.1

  remember-All :
      (P : SubscriptionId → Type 0) (o : Option SubscriptionId) (ids : Ids)
      → ((id : SubscriptionId) → o ≡ some id → P id)
      → All P ids
      → All P (remember p o ids)
  unfolding remember
  remember-All P none ids f a = a
  remember-All P (some id) ids f a = elim (Bool-cases (ltb 32 (length (ids ++ (id ∷ []))))) [
    | inl e ↦ rw e (drop-All P 1 (ids ++ (id ∷ [])) (All-append P ids (id ∷ []) a (f id refl, tt)))
    | inr e ↦ rw e (All-append P ids (id ∷ []) a (f id refl, tt))
  ]

  -- In step again, with the same generation.
  abbrev pub Stays : World p → World p → Type 0
  Stays w w' = InStep w' × (w'.bus.next_generation ≡ w.bus.next_generation)

  module _ (w : World p) (m : InStep w) where
    tracked_at :
        (i : ℕ) (s : ModelSub p)
        → get_elem? w.model.subs i ≡ some s
        → Tracks p laws c s (entry_of p w.bus.subs s.id)
    tracked_at i s h =
        found-All p (λ t. Tracks p laws c t (entry_of p w.bus.subs t.id)) (λ t. Unit {0})
          w.model.subs i s h m.tracked

    -- A slotwise operation at a slot.
    stay :
        (s s' : ModelSub p) (bus : Bus p) (slot : ℕ)
        → get_elem? w.model.subs slot ≡ some s
        → Slotwise p laws c s w.bus s' bus
        → Simulates bus (change_slot p slot (λ t. s') w.model.subs) w.model.dropped_ids
          × (bus.next_generation ≡ w.bus.next_generation)
    stay s s' bus slot e n = (
      slot-Simulates w.bus bus w.model.subs w.model.dropped_ids slot s s' m e n,
      n.same_generation,
    )

    pub drain_at-Stays : (slot max : ℕ) → Stays w (drain_at p slot max w)
    unfolding drain_at drain_found
    drain_at-Stays slot max = elim (Option-cases (get_elem? w.model.subs slot)) [
      | inl e ↦ rw e (m, refl)
      | inr (s, e) ↦
          rw e
            (stay s _ _ slot e (drain-Slotwise p laws c s w.bus m.valid (tracked_at slot s e) max))
    ]

    pub drop_receiver_at-Stays : (slot : ℕ) → Stays w (drop_receiver_at p slot w)
    unfolding drop_receiver_at drop_receiver_found
    drop_receiver_at-Stays slot = elim (Option-cases (get_elem? w.model.subs slot)) [
      | inl e ↦ rw e (m, refl)
      | inr (s, e) ↦ rw e (
          stay s _ _ slot e (drop_receiver-Slotwise p laws c s w.bus m.valid (tracked_at slot s e)))
    ]

    drop_handle_gone :
        (s : ModelSub p) (id : SubscriptionId)
        → (drop_handle p s w.bus).0 ≡ some id
        → (id ≡ s.id) × (entry_of p (drop_handle p s w.bus).2.subs s.id ≡ none)
    unfolding drop_handle
    drop_handle_gone s id = go s.handle_dropped
      where
        go :
            (b : Bool)
            → (let (dropped, s', after) : Option SubscriptionId × ModelSub p × Bus p =
                  if b then (none, s, w.bus) else (
                    some s.id,
                    record s { handle_dropped = true; left = channel_of p s w.bus },
                    unsubscribe p s.id w.bus,
                  ) in
                dropped ≡ some id → (id ≡ s.id) × (entry_of p after.subs s.id ≡ none))
        go true h = absurd (cc (h))
        go false h =
            (cc (h), rw (unsubscribe-entry_of p laws w.bus m.valid s.id s.id, eqb_refl s.id) refl)

    pub drop_handle_at-Stays : (slot : ℕ) → Stays w (drop_handle_at p slot w)
    unfolding drop_handle_at drop_handle_found
    drop_handle_at-Stays slot = elim (Option-cases (get_elem? w.model.subs slot)) [
      | inl e ↦ rw e (m, refl)
      | inr (s, e) ↦ rw e (
        dropped_one s e,
        (drop_handle-Slotwise p laws c s w.bus m.valid (tracked_at slot s e)).same_generation,
      )
    ]
      where
        dropped_one :
            (s : ModelSub p)
            → get_elem? w.model.subs slot ≡ some s
            → Simulates
                (drop_handle p s w.bus).2
                (change_slot p slot (λ t. (drop_handle p s w.bus).1) w.model.subs)
                (remember p (drop_handle p s w.bus).0 w.model.dropped_ids)
        dropped_one s e = record {
          valid = k.valid;
          tracked = k.tracked;
          distinct = k.distinct;
          counted = k.counted;
          old = k.old;
          stale =
              remember-All _ (drop_handle p s w.bus).0 w.model.dropped_ids
                (λ id h. ground (
                  arith,
                  drop_handle_gone s id h,
                  n.same_generation,
                  found-All p (λ t. t.id.generation < w.bus.next_generation) (λ t. Unit {0})
                      w.model.subs slot s e m.old,
                ))
                k.stale;
        }
          where
            n : Slotwise p laws c s w.bus (drop_handle p s w.bus).1 (drop_handle p s w.bus).2
            n = drop_handle-Slotwise p laws c s w.bus m.valid (tracked_at slot s e)

            k :
                Simulates
                  (drop_handle p s w.bus).2
                  (change_slot p slot (λ t. (drop_handle p s w.bus).1) w.model.subs)
                  w.model.dropped_ids
            k = slot-Simulates w.bus _ w.model.subs w.model.dropped_ids slot s _ m e n
