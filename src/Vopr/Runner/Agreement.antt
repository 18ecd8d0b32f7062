-- ===== src/Vopr/Runner/Agreement.antt =====
-- The run of crates/tak-bus-vopr/src/runner.rs: it reports no failure.
use tak_rs.Common.{
  ℕ, suc, ◌+◌, ◌^◌, ◌<◌, ◌≤◌, Bool, Option, none, some, List, [], ◌∷◌, All, ==_iff, length, ◌≡◌,
  refl, arith, Bool-cases, inl, inr,
}
use mathlib.Core.Path.{ap, sym, ◌∙◌}
use tak_rs.Bus.Identity.{SubscriptionId, id_eq}
use tak_rs.Bus.Platform.{Platform, SlabLaws, ChannelLaws}
use tak_rs.Bus.State.{entry_of, new, len}
use tak_rs.Bus.Registry.Invariant.{present, new-IsValid}
use tak_rs.Vopr.Runner.{
  Op, World, Model, Failure, Outcome, live_count, subscribe, dispatch_op, drop_handle_op,
  drain_receiver, drop_receiver_op, try_send_to_stale, snapshot_stats,
}
use tak_rs.Vopr.Runner.Loop.{
  Draw, apply_op, check_len, pick_op, run_op, run_from, run_with_skip, start,
}
use tak_rs.Vopr.Runner.Simulates.{
  InStep, Simulates-len, drain_at-Stays, drop_receiver_at-Stays, drop_handle_at-Stays,
}
use tak_rs.Vopr.Runner.Subscribe.{HasRoom, apply_subscribe-InStep, apply_subscribe-generation}
use tak_rs.Vopr.Runner.Dispatched.{apply_dispatch-InStep, apply_dispatch-generation}
use tak_rs.Vopr.Runner.Snapshots.{compare_stats_full-InStep, apply_stale-InStep}

module _ (p : Platform) where
  abbrev pub op_capacity : Op p → ℕ
  op_capacity (subscribe filter capacity) = capacity
  op_capacity _ = 0

  -- An operation whose capacity is a `usize`.
  abbrev pub OpFits : Op p → Type 0
  OpFits op = op_capacity op < 2 ^ 64

module _ (p : Platform) (laws : SlabLaws p) (c : ChannelLaws p) (room : HasRoom p) where
  -- No failure, in step again, and at most one generation later.
  abbrev Passes : World p → Option (Failure p) × World p → Type 0
  Passes w (failure, w') =
      (failure ≡ none) × InStep p laws c w' × (w'.bus.next_generation ≤ w.bus.next_generation + 1)

  apply_op-Passes :
      (payload : p.Bytes) (op : Op p) (w : World p)
      → InStep p laws c w
      → w.bus.next_generation + 1 < 2 ^ 64
      → OpFits p op
      → Passes w (apply_op p payload op w)
  unfolding apply_op
  apply_op-Passes payload (subscribe filter capacity) w m next fits = (
    refl,
    apply_subscribe-InStep p laws c room w m filter capacity next fits,
    omega (arith, apply_subscribe-generation p laws c room w m filter capacity next fits),
  )
  apply_op-Passes payload (dispatch_op msg) w m next fits = (
    (apply_dispatch-InStep p laws c msg w m).0,
    (apply_dispatch-InStep p laws c msg w m).1,
    omega (arith, apply_dispatch-generation p laws c msg w m),
  )
  apply_op-Passes payload (drop_handle_op slot) w m next fits =
      let (k, g) = drop_handle_at-Stays p laws c w m slot in (refl, k, omega (arith, g))
  apply_op-Passes payload (drain_receiver slot max) w m next fits =
      let (k, g) = drain_at-Stays p laws c w m slot max in (refl, k, omega (arith, g))
  apply_op-Passes payload (drop_receiver_op slot) w m next fits =
      let (k, g) = drop_receiver_at-Stays p laws c w m slot in (refl, k, omega (arith, g))
  apply_op-Passes payload try_send_to_stale w m next fits =
      rw (apply_stale-InStep p laws c w m payload) (refl, m, omega arith)
  apply_op-Passes payload snapshot_stats w m next fits =
      (compare_stats_full-InStep p laws c w m, m, omega arith)

  check_len-Passes :
      (w w' : World p) (failure : Option (Failure p))
      → Passes w (failure, w')
      → Passes w (check_len p (failure, w'))
  unfolding check_len live_count
  check_len-Passes w w' (some reason) h = absurd (cc (h.0))
  check_len-Passes w w' none h = (
    rw
        ((==_iff (len p w'.bus) _).1
          (Simulates-len p laws c w'.bus w'.model.subs w'.model.dropped_ids h.1))
        refl,
    h.1,
    h.2,
  )

  pick_op-OpFits :
      (max_subs : ℕ) (draw : Draw p) (model : Model p)
      → draw.capacity < 2 ^ 64
      → OpFits p (pick_op p max_subs draw model)
  unfolding pick_op
  pick_op-OpFits max_subs draw model fits = ground (arith, fits)

  run_op-Passes :
      (max_subs : ℕ) (payload : p.Bytes) (draw : Draw p) (w : World p)
      → InStep p laws c w
      → w.bus.next_generation + 1 < 2 ^ 64
      → draw.capacity < 2 ^ 64
      → Passes w (run_op p max_subs payload draw w)
  unfolding run_op
  run_op-Passes max_subs payload draw w m next fits = check_len-Passes w _ _ (
      apply_op-Passes payload (pick_op p max_subs draw w.model) w m next
        (pick_op-OpFits max_subs draw w.model fits))

  start-InStep : InStep p laws c (start p)
  start-InStep = record {
    valid = new-IsValid p laws;
    tracked = tt;
    distinct = λ id. omega arith;
    counted = λ id. sym (listed_none id);
    old = tt;
    stale = tt;
  }
    where
      listed_none : (id : SubscriptionId) → present p (entry_of p (new p).subs id) ≡ 0
      listed_none id = sym ((new-IsValid p laws).listed id)

  run_from-ok :
      (skip : ℕ → Bool) (max_subs : ℕ) (payload : p.Bytes) (i : ℕ) (draws : List (Draw p))
      (w : World p)
      → InStep p laws c w
      → w.bus.next_generation + length draws < 2 ^ 64
      → All (λ (draw : Draw p). draw.capacity < 2 ^ 64) draws
      → run_from p skip max_subs payload i draws w ≡ Outcome.ok (i + length draws)
  unfolding run_from
  run_from-ok skip max_subs payload i [] w m room fits =
      rw (compare_stats_full-InStep p laws c w m) (ap Outcome.ok (omega arith))
  run_from-ok skip max_subs payload i (draw ∷ draws) w m room fits = elim (Bool-cases (skip i)) [
    | inl e ↦
        rw (run_from, e)
          (run_from-ok skip max_subs payload (suc i) draws w m (omega (arith, room)) fits.1
            ∙ ap Outcome.ok (omega arith))
    | inr e ↦
        rw (run_from, e, done.0)
          (run_from-ok skip max_subs payload (suc i) draws (run_op p max_subs payload draw w).1
              done.1 (omega (arith, room, done.2)) fits.1
            ∙ ap Outcome.ok (omega arith))
  ]
    where
      done : Passes w (run_op p max_subs payload draw w)
      done = run_op-Passes max_subs payload draw w m (omega (arith, room)) fits.0

  -- A run of the simulator, for any draws, any limit on the subscriptions and any set of skipped
  -- operations, ends without a failure and reports the number of operations, if there are fewer than
  -- 2^64 operations with capacities below 2^64, and the slab never fills up.
  pub run_with_skip-ok :
      (skip : ℕ → Bool) (max_subs : ℕ) (payload : p.Bytes) (draws : List (Draw p))
      → length draws < 2 ^ 64
      → All (λ (draw : Draw p). draw.capacity < 2 ^ 64) draws
      → run_with_skip p skip max_subs payload draws ≡ Outcome.ok (length draws)
  unfolding run_with_skip
  run_with_skip-ok skip max_subs payload draws few fits =
      run_from-ok skip max_subs payload 0 draws (start p) start-InStep (omega (arith, few)) fits
      ∙ ap Outcome.ok (omega arith)
