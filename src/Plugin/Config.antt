-- ===== src/Plugin/Config.antt =====
-- crates/tak-plugin-host/src/config.rs, and the memory limit of src/host.rs.
use tak_rs.Common.{
  ℕ, ◌-◌, ◌*◌, ◌^◌, ◌≤◌, ◌<◌, min, max, Bool, true, not, Option, none, some, List, [], leb,
  if◌then◌else◌, is_empty, Str, str, ◌⊎◌, inl, inr, ◌↔◌, ◌≡◌, arith,
}

-- `priority` is 100 by default and has no effect.
pub record PluginSection : Type 0 where
  pub name : Option Str
  pub enabled : Bool
  pub priority : ℕ

pub record LimitsSection : Type 0 where
  pub max_memory_mb : ℕ
  pub max_cpu_ms_per_msg : ℕ
  pub max_rss_leak_mb : ℕ

pub record CapabilitiesSection : Type 0 where
  pub filesystem : List Str
  pub network : List Str
  pub plugin_config : Str

pub record PluginConfig : Type 0 where
  pub plugin : PluginSection
  pub limits : LimitsSection
  pub capabilities : CapabilitiesSection

abbrev pub default_config : PluginConfig
default_config = record {
  plugin = record { name = none; enabled = true; priority = 100 };
  limits = record { max_memory_mb = 32; max_cpu_ms_per_msg = 5; max_rss_leak_mb = 0 };
  capabilities = record { filesystem = []; network = []; plugin_config = [] };
}

unfoldable pub init_json : PluginConfig → Str
init_json cfg =
    if is_empty cfg.capabilities.plugin_config then str "{}" else cfg.capabilities.plugin_config

-- `usize` is 64 bits wide; the product would panic or wrap beyond it.
unfoldable pub memory_bytes_cap : PluginConfig → ℕ
memory_bytes_cap cfg = min cfg.limits.max_memory_mb (2 ^ 64 - 1) * 1024 * 1024

unfoldable pub cpu_budget_ticks : PluginConfig → ℕ
cpu_budget_ticks cfg = max cfg.limits.max_cpu_ms_per_msg 1

-- `MemoryLimiter::memory_growing`
unfoldable pub memory_growing : ℕ → ℕ → Bool
memory_growing max_memory_bytes desired = leb desired max_memory_bytes

pub data ConfigError : Type 0 where
  read parse : ConfigError

-- A file that is missing is no error. `raw` is the text of the file, if it can be read.
unfoldable pub parse_config :
    (Str → Option PluginConfig) → Option Str → ConfigError ⊎ Option PluginConfig
parse_config from_str none = inl read
parse_config from_str (some raw) = elim (from_str raw) [
  | none ↦ inl parse
  | some cfg ↦ inr (some cfg)
]

unfoldable pub try_load :
    (exists : Str → Bool) (read_to_string : Str → Option Str) (from_str : Str → Option PluginConfig)
    → Str
    → ConfigError ⊎ Option PluginConfig
unfolding parse_config
try_load exists read_to_string from_str path =
    if not (exists path) then inr none else parse_config from_str (read_to_string path)

-- For every `u32` of megabytes the cap is computed without overflow, and a plugin's memory may grow
-- to exactly those that are megabytes of the configuration or less.
pub memory_growing-memory_bytes_cap :
    (cfg : PluginConfig) (desired : ℕ)
    → cfg.limits.max_memory_mb < 2 ^ 32
    → (memory_bytes_cap cfg < 2 ^ 64)
      × ((memory_growing (memory_bytes_cap cfg) desired ≡ true)
          ↔ (desired ≤ cfg.limits.max_memory_mb * 2 ^ 20))
unfolding memory_bytes_cap memory_growing
memory_growing-memory_bytes_cap cfg desired h = (omega arith, ground arith)
