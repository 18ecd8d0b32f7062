-- ===== src/Plugin/Worker.antt =====
-- `run_worker` of crates/tak-plugin-host/src/host.rs: the calls of one component, and its frames.
use tak_rs.Common.{
  ℕ, ◌+◌, ◌%◌, ◌^◌, Bool, true, false, Option, none, some, List, [], ◌∷◌, if◌then◌else◌, Str, ◌⊎◌,
}
use tak_rs.Plugin.{PluginEvent, Queue, count_full}
use tak_rs.Plugin.Config.{PluginConfig, init_json}

abbrev pub init_deadline_ticks : ℕ
init_deadline_ticks = 1000

pub data Action (B : Type 0) : Type 0 where
  pass drop : Action B
  replace : B → Action B

-- The frames among the answers.
abbrev pub replacements : {B : Type 0} → List (Action B) → List B
replacements [] = []
replacements (pass ∷ actions) = replacements actions
replacements (drop ∷ actions) = replacements actions
replacements (replace frame ∷ actions) = frame ∷ replacements actions

-- A component in its store. A call yields nothing when it traps; `call_init` may also answer with
-- an error of the plugin's own.
pub record Component (F B : Type 0) : Type 1 where
  pub Instance : Type 0
  pub call_init : Instance → Str → Option (Str ⊎ Unit {0}) × Instance
  pub call_on_inbound : Instance → PluginEvent F B → Option (Action B) × Instance

module _ {F B : Type 0} (component : Component F B) (outbound : Queue B) where
  open component use {Instance, call_init, call_on_inbound}

  pub record Worker : Type 0 where
    pub instance_ : Instance
    pub outbound_tx : outbound.Chan
    pub outbound_dropped : ℕ
    pub processed : ℕ

  unfoldable pub act : Action B → Worker → Worker
  act pass w = w
  act drop w = w
  act (replace frame) w =
      let (r, tx) = outbound.try_send w.outbound_tx frame in
      record w { outbound_tx = tx; outbound_dropped = count_full r w.outbound_dropped }

  -- What follows a call: the worker, and whether its loop goes on.
  unfoldable pub after_call : Option (Action B) × Instance → Worker → Bool × Worker
  unfolding act
  after_call (none, i) w = (false, record w { instance_ = i })
  after_call (some action, i) w =
      let acted = act action (record w { instance_ = i }) in
      (true, record acted { processed = (acted.processed + 1) % 2 ^ 64 })

  -- The loop over what the queue yields until it is closed.
  unfoldable pub worker_loop : List (PluginEvent F B) → Worker → Worker
  unfolding after_call
  worker_loop [] w = w
  worker_loop (event ∷ events) w =
      let (goes_on, w') = after_call (call_on_inbound w.instance_ event) w in
      let rest = worker_loop events w' in if goes_on then rest else w'

  unfoldable pub after_init :
      Option (Str ⊎ Unit {0}) × Instance → List (PluginEvent F B) → Worker → Worker
  unfolding worker_loop
  after_init (none, i) events w = record w { instance_ = i }
  after_init (some answer, i) events w = worker_loop events (record w { instance_ = i })

  -- `none`: the component could not be instantiated.
  unfoldable pub run_worker : PluginConfig → List (PluginEvent F B) → Option Worker → Option Worker
  unfolding after_init init_json
  run_worker cfg events none = none
  run_worker cfg events (some w) =
      some (after_init (call_init w.instance_ (init_json cfg)) events w)

  -- What the component answers to the events, up to the first trap.
  abbrev pub answers : List (PluginEvent F B) → Instance → List (Action B)
  answers [] i = []
  answers (event ∷ events) i = elim (call_on_inbound i event).0 [
    | none ↦ []
    | some action ↦ action ∷ answers events (call_on_inbound i event).1
  ]
