-- ===== src/Vopr/Runner/Snapshots.antt =====
-- `compare_stats_full` and `Op::TrySendToStale` of crates/tak-bus-vopr/src/runner.rs: the snapshots of
-- a bus that the model is in step with pass the comparison.
use tak_rs.Common.{
  ℕ, ◌+◌, ◌<◌, ◌≤◌, true, false, not, Option, none, some, List, [], ◌∷◌, All, ◌=?◌, =?_iff, ==_iff,
  if◌then◌else◌, ltb, length, count, ◌≡◌, refl, arith, Bool-cases, Option-cases, inl, inr,
}
use mathlib.Core.Path.{sym, ◌∙◌}
use mathlib.Core.Option
use tak_rs.Bus.Identity.{SubscriptionId, id_eq}
use tak_rs.Bus.TypeIndex.{Ids}
use tak_rs.Bus.Platform.{Platform, SlabLaws, ChannelLaws}
use tak_rs.Bus.State.{Entry, entry_of, SubscriptionStats, stats_of, subscription_stats, len}
use tak_rs.Bus.Registry.Invariant.{present}
use tak_rs.Bus.Dispatch.{try_send_to, send_entry}
use tak_rs.Vopr.Model.{ModelSub, handle_alive}
use tak_rs.Vopr.Model.Tracks.{Tracks}
use tak_rs.Vopr.Runner.{World, Failure, still_there, count_live}
use tak_rs.Vopr.Runner.Compare.{
  later_row, by_id, is_there, keys, compare_live, compare_subs, compare_stats_full, same_stats,
  try_stale, stale_with, apply_stale,
}
use tak_rs.Vopr.Runner.Simulates.{InStep, Simulates-len}

module _ (p : Platform) where
  abbrev row_of : SubscriptionId → Entry p → SubscriptionStats p
  row_of id e = record { id = id; delivered = e.delivered; dropped_full = e.dropped_full }

  stats_of_gone :
      (subs : p.Slab (Entry p)) (x : SubscriptionId) (ids : Ids)
      → entry_of p subs x ≡ none
      → stats_of p subs (x ∷ ids) ≡ stats_of p subs ids
  unfolding stats_of
  stats_of_gone subs x ids e = rw (stats_of, e) refl

  stats_of_there :
      (subs : p.Slab (Entry p)) (x : SubscriptionId) (ids : Ids) (y : Entry p)
      → entry_of p subs x ≡ some y
      → stats_of p subs (x ∷ ids) ≡ row_of x y ∷ stats_of p subs ids
  unfolding stats_of
  stats_of_there subs x ids y e = rw (stats_of, e) refl

  later_row-lem :
      (id x : SubscriptionId) (y : Entry p) (o : Option (Entry p)) (n : ℕ)
      → (x ≡ id → o ≡ some y)
      → later_row p id (row_of x y) (if ltb 0 n then Option.map (row_of id) o else none)
        ≡ (if ltb 0 ((if id =? x then 1 else 0) + n) then Option.map (row_of id) o else none)
  later_row-lem id x y none n h = ground (arith, h, =?_iff id x, =?_iff x id)
  later_row-lem id x y (some z) n h = ground (arith, h, =?_iff id x, =?_iff x id)

  -- A lookup in the map of a snapshot.
  by_id-stats_of :
      (subs : p.Slab (Entry p)) (id : SubscriptionId) (ids : Ids)
      → by_id p id (stats_of p subs ids)
        ≡ (if ltb 0 (count id ids) then Option.map (row_of id) (entry_of p subs id) else none)
  unfolding by_id stats_of
  by_id-stats_of subs id [] = ground arith
  by_id-stats_of subs id (x ∷ ids) = elim (Option-cases (entry_of p subs x)) [
    | inl e ↦
        rw (stats_of_gone subs x ids e) (ground (arith, e, =?_iff id x, by_id-stats_of subs id ids))
    | inr (y, e) ↦
        rw (stats_of_there subs x ids y e, by_id-stats_of subs id ids)
          (later_row-lem id x y (entry_of p subs id) (count id ids)
            (λ same. ground (arith, e, same)))
  ]

  -- The map has a key for each id of a list without repetition whose ids all have an entry.
  keys-stats_of :
      (subs : p.Slab (Entry p)) (ids : Ids)
      → ((id : SubscriptionId) → count id ids ≤ present p (entry_of p subs id))
      → keys p (stats_of p subs ids) ≡ length ids
  unfolding keys stats_of
  keys-stats_of subs [] h = refl
  keys-stats_of subs (x ∷ ids) h = elim (Option-cases (entry_of p subs x)) [
    | inl e ↦ absurd (ground (arith, e, h x, =?_iff x x))
    | inr (y, e) ↦
        rw (stats_of_there subs x ids y e, by_id-stats_of subs x ids)
          (ground (arith, e, h x, =?_iff x x, keys-stats_of subs ids (λ id. omega (arith, h id))))
  ]

module _ (p : Platform) (laws : SlabLaws p) (c : ChannelLaws p) where
  module _ (w : World p) (m : InStep p laws c w) where
    snapshot-by_id :
        (id : SubscriptionId)
        → by_id p id (subscription_stats p w.bus)
          ≡ Option.map (row_of p id) (entry_of p w.bus.subs id)
    unfolding subscription_stats
    snapshot-by_id id =
        by_id-stats_of p w.bus.subs id w.bus.live_ids
        ∙ all (entry_of p w.bus.subs id) (m.valid.listed id)
      where
        all :
            (o : Option (Entry p))
            → count id w.bus.live_ids ≡ present p o
            → (if ltb 0 (count id w.bus.live_ids) then Option.map (row_of p id) o else none)
              ≡ Option.map (row_of p id) o
        all none h = ground (arith, h)
        all (some e) h = ground (arith, h)

    snapshot-keys : keys p (subscription_stats p w.bus) ≡ count_live p w.model.subs
    unfolding subscription_stats len
    snapshot-keys =
        keys-stats_of p w.bus.subs w.bus.live_ids (λ id. omega (arith, m.valid.listed id))
        ∙ sym m.valid.counted
        ∙ Simulates-len p laws c w.bus w.model.subs w.model.dropped_ids m

    compare_one :
        (s : ModelSub p) (o : Option (Entry p)) (b : Option (SubscriptionStats p))
        → Tracks p laws c s o
        → b ≡ Option.map (row_of p s.id) o
        → (skipped counted : Option (Failure p))
        → (if not (handle_alive p s)
            then (if is_there p b then some still_there else skipped)
            else compare_live p s b counted)
          ≡ (if handle_alive p s then counted else skipped)
    unfolding Tracks compare_live
    compare_one s none b t e skipped counted = rw e (ground (arith, t))
    compare_one s (some x) b a e skipped counted =
        rw (e, a.alive) (ground (arith, a.same_delivered, a.same_dropped_full))

    compare_subs-InStep :
        (subs : List (ModelSub p)) (n : ℕ)
        → All (λ (s : ModelSub p). Tracks p laws c s (entry_of p w.bus.subs s.id)) subs
        → n + count_live p subs ≡ count_live p w.model.subs
        → compare_subs p (subscription_stats p w.bus) subs n ≡ none
    unfolding compare_subs
    compare_subs-InStep [] n t h = rw (snapshot-keys) (ground (arith, h))
    compare_subs-InStep (s ∷ subs) n t h =
        compare_one s (entry_of p w.bus.subs s.id) _ t.0 (snapshot-by_id s.id) _ _
        ∙ elim (Bool-cases (handle_alive p s)) [
          | inl a ↦ rw a (compare_subs-InStep subs (n + 1) t.1 (ground (arith, a, h)))
          | inr a ↦ rw a (compare_subs-InStep subs n t.1 (ground (arith, a, h)))
        ]

    -- The snapshot of a bus that the model is in step with agrees with the model.
    pub compare_stats_full-InStep : compare_stats_full p w.bus w.model ≡ none
    unfolding compare_stats_full
    compare_stats_full-InStep = compare_subs-InStep w.model.subs 0 m.tracked (omega arith)

    -- A send to an id that finds no entry changes no bus.
    try_send_to_stale_id :
        (payload : p.Bytes) (id : SubscriptionId)
        → entry_of p w.bus.subs id ≡ none
        → try_send_to p id payload w.bus ≡ (false, w.bus)
    unfolding try_send_to send_entry
    try_send_to_stale_id payload id e = rw e refl

    same_stats_refl : (rows : List (SubscriptionStats p)) → same_stats p rows rows ≡ true
    unfolding same_stats
    same_stats_refl [] = refl
    same_stats_refl (row ∷ rows) = ground (
      arith,
      ==_iff row.delivered row.delivered,
      ==_iff row.dropped_full row.dropped_full,
      same_stats_refl rows,
    )

    stale_with-InStep :
        (payload : p.Bytes) (ids : Ids)
        → All
            (λ (id : SubscriptionId).
              (entry_of p w.bus.subs id ≡ none) × (id.generation < w.bus.next_generation))
            ids
        → stale_with p payload ids w ≡ (none, w)
    unfolding stale_with try_stale
    stale_with-InStep payload [] h = refl
    stale_with-InStep payload (id ∷ ids) h =
        rw
          (
            try_send_to_stale_id payload id h.0.0,
            (==_iff (length (subscription_stats p w.bus)) (length (subscription_stats p w.bus))).1
                refl,
            same_stats_refl (subscription_stats p w.bus),
          )
          refl

    -- Sending to an id that was dropped reports no failure, and changes nothing.
    pub apply_stale-InStep : (payload : p.Bytes) → apply_stale p payload w ≡ (none, w)
    unfolding apply_stale
    apply_stale-InStep payload = stale_with-InStep payload w.model.dropped_ids m.stale
