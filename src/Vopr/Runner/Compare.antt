-- ===== src/Vopr/Runner/Compare.antt =====
-- The comparisons of crates/tak-bus-vopr/src/runner.rs: `Op::TrySendToStale` and `compare_stats_full`.
use tak_rs.Common.{
  ℕ, ◌+◌, Bool, true, false, not, ◌&&◌, Option, none, some, List, [], ◌∷◌, ◌==◌, ◌=?◌,
  if◌then◌else◌, length,
}
use tak_rs.Bus.Identity.{SubscriptionId, id_eq}
use tak_rs.Bus.TypeIndex.{Ids}
use tak_rs.Bus.Platform.{Platform}
use tak_rs.Bus.State.{Bus, SubscriptionStats, subscription_stats}
use tak_rs.Bus.Dispatch.{try_send_to}
use tak_rs.Vopr.Model.{ModelSub, handle_alive}
use tak_rs.Vopr.Runner.{
  Model, World, Failure, stale_accepted, stale_count, stale_changed, still_there, missing,
  delivered_differs, dropped_full_differs, too_many,
}

module _ (p : Platform) where
  -- The loop over the two snapshots, zipped.
  unfoldable pub same_stats : List (SubscriptionStats p) → List (SubscriptionStats p) → Bool
  same_stats (a ∷ pre) (b ∷ post) =
      a.delivered == b.delivered && a.dropped_full == b.dropped_full && same_stats pre post
  same_stats _ _ = true

  unfoldable pub try_stale : p.Bytes → SubscriptionId → World p → Option (Failure p) × World p
  unfolding same_stats
  try_stale payload stale_id w =
      let pre = subscription_stats p w.bus in
      let (taken, bus) = try_send_to p stale_id payload w.bus in
      let post = subscription_stats p bus in
      let after = record w { bus = bus } in
      if taken
      then (some stale_accepted, after)
      else if not (length pre == length post)
      then (some stale_count, after)
      else if not (same_stats pre post)
      then (some stale_changed, after)
      else (none, after)

  -- With `dropped_ids.first()`.
  unfoldable pub stale_with : p.Bytes → Ids → World p → Option (Failure p) × World p
  unfolding try_stale
  stale_with payload [] w = (none, w)
  stale_with payload (stale_id ∷ ids) w = try_stale payload stale_id w

  unfoldable pub apply_stale : p.Bytes → World p → Option (Failure p) × World p
  unfolding stale_with
  apply_stale payload w = stale_with payload w.model.dropped_ids w

  -- The map from ids to their rows, which a later row with the same id overwrites: its lookup, and
  -- how many keys it has.
  abbrev pub later_row :
      SubscriptionId
      → SubscriptionStats p
      → Option (SubscriptionStats p)
      → Option (SubscriptionStats p)
  later_row id row (some found) = some found
  later_row id row none = if row.id =? id then some row else none

  unfoldable pub by_id : SubscriptionId → List (SubscriptionStats p) → Option (SubscriptionStats p)
  by_id id [] = none
  by_id id (row ∷ rows) = later_row id row (by_id id rows)

  abbrev pub is_there : Option (SubscriptionStats p) → Bool
  is_there none = false
  is_there (some row) = true

  unfoldable pub keys : List (SubscriptionStats p) → ℕ
  unfolding by_id
  keys [] = 0
  keys (row ∷ rows) = (if is_there (by_id row.id rows) then 0 else 1) + keys rows

  unfoldable pub compare_live :
      ModelSub p → Option (SubscriptionStats p) → Option (Failure p) → Option (Failure p)
  compare_live s none rest = some missing
  compare_live s (some b) rest =
      if not (b.delivered == s.expected_delivered)
      then some delivered_differs
      else if not (b.dropped_full == s.expected_dropped_full)
      then some dropped_full_differs
      else rest

  unfoldable pub compare_subs :
      List (SubscriptionStats p) → List (ModelSub p) → ℕ → Option (Failure p)
  unfolding compare_live by_id keys
  compare_subs snapshot [] live_in_model =
      if not (keys snapshot == live_in_model) then some too_many else none
  compare_subs snapshot (s ∷ subs) live_in_model =
      let skipped = compare_subs snapshot subs live_in_model in
      let counted = compare_subs snapshot subs (live_in_model + 1) in
      if not (handle_alive p s)
      then (if is_there (by_id s.id snapshot) then some still_there else skipped)
      else compare_live s (by_id s.id snapshot) counted

  unfoldable pub compare_stats_full : Bus p → Model p → Option (Failure p)
  unfolding compare_subs
  compare_stats_full bus model = compare_subs (subscription_stats p bus) model.subs 0
