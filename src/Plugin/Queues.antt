-- ===== src/Plugin/Queues.antt =====
-- What `publish` of crates/tak-plugin-host/src/host.rs does to the queues of the plugins.
use tak_rs.Common.{
  ℕ, ◌+◌, ◌%◌, ◌^◌, Bool, true, false, not, ◌&&◌, List, [], ◌∷◌, ◌++◌, length, ltb, if◌then◌else◌,
  ◌≡◌, refl, arith,
}
use tak_rs.Plugin.{
  PluginEvent, Queue, QueueLaws, Plugin, try_publish, add_accepted, publish_loop, publish,
}

module _ {F B : Type 0} (queue : Queue (PluginEvent F B)) (laws : QueueLaws queue)
    (event : PluginEvent F B) where
  open laws use {queued, capacity, is_closed}

  abbrev pub takes : Plugin queue → Bool
  takes p = not (is_closed p.tx) && ltb (length (queued p.tx)) (capacity p.tx)

  -- One plugin before and after: the event is queued for it, or counted as dropped if its worker
  -- lives, and nothing else is different.
  pub record Published (p p' : Plugin queue) : Type 0 where
    pub same_name : p'.name ≡ p.name
    pub queue_after : queued p'.tx ≡ (if takes p then queued p.tx ++ (event ∷ []) else queued p.tx)
    pub dropped_after : p'.dropped ≡ (
        if takes p
        then p.dropped
        else if is_closed p.tx
        then p.dropped
        else (p.dropped + 1) % 2 ^ 64)
    pub same_capacity : capacity p'.tx ≡ capacity p.tx
    pub same_closed : is_closed p'.tx ≡ is_closed p.tx

  abbrev pub AllPublished : List (Plugin queue) → List (Plugin queue) → Type 0
  AllPublished [] [] = Unit {0}
  AllPublished (p ∷ ps) (p' ∷ ps') = Published p p' × AllPublished ps ps'
  AllPublished _ _ = ℕ × (true ≡ false)

  abbrev pub takers : List (Plugin queue) → ℕ
  takers [] = 0
  takers (p ∷ ps) = (if takes p then 1 else 0) + takers ps

  try_publish-Published :
      (p : Plugin queue)
      → ((try_publish queue p event).0 ≡ takes p) × Published p (try_publish queue p event).1
  unfolding try_publish
  try_publish-Published p = (
    ground (arith, laws.send-result p.tx event),
    record {
      same_name = refl;
      queue_after = ground (arith, laws.send-queued p.tx event);
      dropped_after = ground (arith, laws.send-result p.tx event);
      same_capacity = laws.send-capacity p.tx event;
      same_closed = laws.send-is_closed p.tx event;
    },
  )

  publish_loop-AllPublished :
      (plugins : List (Plugin queue)) (accepted : ℕ)
      → ((publish_loop queue event plugins accepted).0 ≡ accepted + takers plugins)
        × AllPublished plugins (publish_loop queue event plugins accepted).1
  unfolding publish_loop
  publish_loop-AllPublished [] accepted = (omega arith, tt)
  publish_loop-AllPublished (p ∷ ps) accepted =
      let (n, all) =
        publish_loop-AllPublished ps (add_accepted queue (try_publish queue p event).0 accepted) in
      let (b, one) = try_publish-Published p in (ground (arith, n, b), (one, all))

  -- `publish` offers the event once to each plugin, whatever the queues of the others are: a live
  -- plugin with room has it behind its queue, a live one without room counts it as dropped, one whose
  -- worker has exited is as it was, and the answer is the number of the first kind.
  pub publish-AllPublished :
      (plugins : List (Plugin queue))
      → ((publish queue event plugins).0 ≡ takers plugins)
        × AllPublished plugins (publish queue event plugins).1
  unfolding publish
  publish-AllPublished plugins =
      let (n, all) = publish_loop-AllPublished plugins 0 in (omega (arith, n), all)
