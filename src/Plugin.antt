-- ===== src/Plugin.antt =====
-- crates/tak-plugin-host/src: the queues to the plugins, the worker of a plugin, its limits and its
-- configuration. The component, wasmtime and the TOML reader are arguments.
pub mod Config
pub mod Worker
pub mod Outbound
pub mod Queues
mod Tests
use tak_rs.Common.{
  ℕ, ◌+◌, ◌%◌, ◌^◌, ◌≤◌, Bool, true, false, Option, none, some, List, [], ◌∷◌, ◌++◌, length, ltb,
  if◌then◌else◌, Str, ◌≡◌,
}
use tak_rs.Bus.Platform.{Sent, sent, full, closed}

pub record PluginEvent (F B : Type 0) : Type 0 where
  pub payload : B
  pub cot_type : Str
  pub uid : Str
  pub callsign : Option Str
  pub lat : F
  pub lon : F
  pub hae : F
  pub send_time_ms : ℕ
  pub sender_groups_low : ℕ

-- A bounded channel of tokio, seen from its sender, and what is documented of it.
pub record Queue (A : Type 0) : Type 1 where
  pub Chan : Type 0
  pub try_send : Chan → A → Sent × Chan

pub record QueueLaws {A : Type 0} (queue : Queue A) : Type 0 where
  pub queued : queue.Chan → List A
  pub capacity : queue.Chan → ℕ
  pub is_closed : queue.Chan → Bool
  pub send-result :
      (c : queue.Chan) (a : A)
      → (queue.try_send c a).0 ≡ (
          if is_closed c
          then closed
          else if ltb (length (queued c)) (capacity c)
          then sent
          else full)
  pub send-queued :
      (c : queue.Chan) (a : A)
      → queued (queue.try_send c a).1 ≡ (
          if is_closed c
          then queued c
          else if ltb (length (queued c)) (capacity c)
          then queued c ++ (a ∷ [])
          else queued c)
  pub send-capacity : (c : queue.Chan) (a : A) → capacity (queue.try_send c a).1 ≡ capacity c
  pub send-is_closed : (c : queue.Chan) (a : A) → is_closed (queue.try_send c a).1 ≡ is_closed c

abbrev pub is_sent : Sent → Bool
is_sent sent = true
is_sent _ = false

-- A counter that is incremented for a full channel only.
abbrev pub count_full : Sent → ℕ → ℕ
count_full full n = (n + 1) % 2 ^ 64
count_full _ n = n

module _ {F B : Type 0} (queue : Queue (PluginEvent F B)) where
  pub record Plugin : Type 0 where
    pub name : Str
    pub tx : queue.Chan
    pub dropped : ℕ

  unfoldable pub try_publish : Plugin → PluginEvent F B → Bool × Plugin
  try_publish plugin event =
      let (r, tx) = queue.try_send plugin.tx event in
      (is_sent r, record plugin { tx = tx; dropped = count_full r plugin.dropped })

  abbrev pub add_accepted : Bool → ℕ → ℕ
  add_accepted b accepted = if b then accepted + 1 else accepted

  -- The loop of `publish`, from the plugins that are left and the count so far.
  unfoldable pub publish_loop : PluginEvent F B → List Plugin → ℕ → ℕ × List Plugin
  unfolding try_publish
  publish_loop event [] accepted = (accepted, [])
  publish_loop event (plugin ∷ plugins) accepted =
      let (b, plugin') = try_publish plugin event in
      let (n, plugins') = publish_loop event plugins (add_accepted b accepted) in
      (n, plugin' ∷ plugins')

  unfoldable pub publish : PluginEvent F B → List Plugin → ℕ × List Plugin
  unfolding publish_loop
  publish event plugins = publish_loop event plugins 0
