-- ===== src/Vopr/Runner/Loop.antt =====
-- The operations of crates/tak-bus-vopr/src/runner.rs, how they are picked, and the loop over them.
use tak_rs.Common.{
  ℕ, suc, Bool, true, false, not, ◌&&◌, Option, none, some, List, [], ◌∷◌, ltb, leb, ◌==◌,
  if◌then◌else◌, length, get_elem?, is_empty,
}
use mathlib.Core.Option
use tak_rs.Bus.Identity.{id_eq}
use tak_rs.Bus.Platform.{Platform}
use tak_rs.Bus.Filter.{Filter, Inbound}
use tak_rs.Bus.State.{new, len}
use tak_rs.Vopr.Model.{ModelSub, handle_alive}
use tak_rs.Vopr.Runner.{
  Op, Model, World, Failure, Outcome, subscribe, dispatch_op, drop_handle_op, drain_receiver,
  drop_receiver_op, try_send_to_stale, snapshot_stats, len_differs, ok, failed, live_count,
  apply_subscribe, apply_dispatch, drop_handle_at, drain_at, drop_receiver_at,
}
use tak_rs.Vopr.Runner.Compare.{apply_stale, compare_stats_full}

module _ (p : Platform) where
  unfoldable pub apply_op : p.Bytes → Op p → World p → Option (Failure p) × World p
  unfolding apply_subscribe apply_dispatch drop_handle_at drain_at drop_receiver_at apply_stale
      compare_stats_full
  apply_op payload (subscribe filter capacity) w = (none, apply_subscribe p filter capacity w)
  apply_op payload (dispatch_op inbound) w = apply_dispatch p inbound w
  apply_op payload (drop_handle_op slot) w = (none, drop_handle_at p slot w)
  apply_op payload (drain_receiver slot max) w = (none, drain_at p slot max w)
  apply_op payload (drop_receiver_op slot) w = (none, drop_receiver_at p slot w)
  apply_op payload try_send_to_stale w = apply_stale p payload w
  apply_op payload snapshot_stats w = (compare_stats_full p w.bus w.model, w)

  -- What the random generator gives for one operation: `gen_range(0..100)`, a place below a number,
  -- and what the generators of op.rs and the other draws may make of it.
  pub record Draw : Type 0 where
    pub roll : ℕ
    pub below : ℕ → ℕ
    pub filter : Filter p
    pub capacity : ℕ
    pub max : ℕ
    pub inbound : Inbound p

  unfoldable pub live_slots : ℕ → List (ModelSub p) → List ℕ
  live_slots i [] = []
  live_slots i (s ∷ subs) =
      let rest = live_slots (suc i) subs in if handle_alive p s then i ∷ rest else rest

  unfoldable pub pick_live_slot : Draw → Model p → Option ℕ
  unfolding live_slots
  pick_live_slot draw model =
      let live = live_slots 0 model.subs in
      if is_empty live then none else get_elem? live (draw.below (length live))

  abbrev pub in_range : ℕ → ℕ → ℕ → Bool
  in_range low high r = leb low r && leb r high

  unfoldable pub pick_op : ℕ → Draw → Model p → Op p
  unfolding pick_live_slot live_count
  pick_op max_subs draw model =
      let live = live_count p model in
      let slot = Option.get_or (pick_live_slot draw model) 0 in
      let r = draw.roll in
      if live == 0 && is_empty model.dropped_ids
      then subscribe draw.filter draw.capacity
      else if in_range 0 14 r && ltb live max_subs
      then subscribe draw.filter draw.capacity
      else if in_range 15 19 r && ltb 0 live
      then drop_handle_op slot
      else if in_range 20 49 r && ltb 0 live
      then drain_receiver slot draw.max
      else if in_range 50 51 r && ltb 0 live
      then drop_receiver_op slot
      else if in_range 52 54 r && not (is_empty model.dropped_ids)
      then try_send_to_stale
      else if in_range 55 56 r
      then snapshot_stats
      else dispatch_op draw.inbound

  -- One round of the loop that is not skipped: what failed, if anything, and the state after it.
  unfoldable pub check_len : Option (Failure p) × World p → Option (Failure p) × World p
  unfolding live_count
  check_len (some reason, w) = (some reason, w)
  check_len (none, w) = (if len p w.bus == live_count p w.model then none else some len_differs, w)

  unfoldable pub run_op : ℕ → p.Bytes → Draw → World p → Option (Failure p) × World p
  unfolding check_len apply_op pick_op
  run_op max_subs payload draw w = check_len (apply_op payload (pick_op max_subs draw w.model) w)

  abbrev finish : ℕ → Option (Failure p) → Outcome p
  finish ops none = ok ops
  finish ops (some reason) = failed ops reason

  -- The loop of `run_with_skip` from index `i` on, over what the generator gives for each index.
  unfoldable pub run_from : (ℕ → Bool) → ℕ → p.Bytes → ℕ → List Draw → World p → Outcome p
  unfolding run_op compare_stats_full
  run_from skip max_subs payload i [] w = finish i (compare_stats_full p w.bus w.model)
  run_from skip max_subs payload i (draw ∷ draws) w = elim (skip i) [
    | true ↦ run_from skip max_subs payload (suc i) draws w
    | false ↦ elim (run_op max_subs payload draw w).0 [
      | some reason ↦ failed i reason
      | none ↦ run_from skip max_subs payload (suc i) draws (run_op max_subs payload draw w).1
    ]
  ]

  abbrev pub start : World p
  start = record { bus = new p; model = record { subs = []; dropped_ids = [] }; scratch = [] }

  unfoldable pub run_with_skip : (ℕ → Bool) → ℕ → p.Bytes → List Draw → Outcome p
  unfolding run_from
  run_with_skip skip max_subs payload draws = run_from skip max_subs payload 0 draws start
