-- ===== src/Plugin/Tests.antt =====
-- The plugin host of crates/tak-plugin-host/src on list channels and a component of three answers.
use tak_rs.Common.{
  ℕ, zero, suc, ◌≤◌, ◌<◌, Bool, true, false, Option, none, some, List, [], ◌∷◌, ◌++◌, length, ltb,
  if◌then◌else◌, str, inl, ◌↔◌, ◌≡◌, refl, arith, ◌*◌, ◌^◌,
}
use tak_rs.Bus.Platform.{Sent, sent, full, closed}
use tak_rs.Plugin.{PluginEvent, Queue, QueueLaws, Plugin, publish}
use tak_rs.Plugin.Config.{
  default_config, memory_bytes_cap, memory_growing, memory_growing-memory_bytes_cap,
}
use tak_rs.Plugin.Worker.{
  Action, pass, replace, Component, Worker, act, after_call, worker_loop, after_init, run_worker,
  answers,
}
use tak_rs.Plugin.Outbound.{Sends, worker_loop-Sends}
use tak_rs.Plugin.Queues.{takers, AllPublished, publish-AllPublished}

record ListChan (A : Type 0) : Type 0 where
  queue : List A
  places : ℕ
  shut : Bool

outcome : {A : Type 0} → ListChan A → Sent
outcome c = if c.shut then closed else if ltb (length c.queue) c.places then sent else full

put_sent : {A : Type 0} → Sent → ListChan A → A → Sent × ListChan A
put_sent sent c a = (sent, record c { queue = c.queue ++ (a ∷ []) })
put_sent full c a = (full, c)
put_sent closed c a = (closed, c)

abbrev list_queue : {A : Type 0} → Queue A
list_queue {A} = record { Chan = ListChan A; try_send = λ c a. put_sent (outcome c) c a }

list_laws : {A : Type 0} → QueueLaws (list_queue {A = A})
unfolding outcome put_sent
list_laws {A} = record {
  queued = λ c. c.queue;
  capacity = λ c. c.places;
  is_closed = λ c. c.shut;
  send-result = λ c a. ground arith;
  send-queued = λ c a. ground arith;
  send-capacity = λ c a. ground arith;
  send-is_closed = λ c a. ground arith;
}

abbrev Event : Type 0
Event = PluginEvent ℕ (List ℕ)

abbrev event : Event
event = record {
  payload = 1 ∷ [];
  cot_type = str "a-f";
  uid = str "V1";
  callsign = none;
  lat = 0;
  lon = 0;
  hae = 0;
  send_time_ms = 0;
  sender_groups_low = 0;
}

-- It passes one event, replaces one, and traps; its `init` refuses the configuration.
answer_of : ℕ → Option (Action (List ℕ))
answer_of zero = some pass
answer_of (suc zero) = some (replace (9 ∷ []))
answer_of (suc (suc n)) = none

abbrev component : Component ℕ (List ℕ)
component = record {
  Instance = ℕ;
  call_init = λ i json. (some (inl (str "refused")), i);
  call_on_inbound = λ i e. (answer_of i, suc i);
}

abbrev worker : Worker component list_queue
worker = record {
  instance_ = 0;
  outbound_tx = record { queue = []; places = 1; shut = false };
  outbound_dropped = 0;
  processed = 0;
}

worker_loop-Sends_example :
    Sends component list_queue list_laws
      (answers component list_queue (event ∷ event ∷ event ∷ event ∷ []) 0)
      worker
      (worker_loop component list_queue (event ∷ event ∷ event ∷ event ∷ []) worker)
unfolding list_laws
worker_loop-Sends_example =
    worker_loop-Sends component list_queue list_laws (event ∷ event ∷ event ∷ event ∷ []) worker
      refl (omega arith) (omega arith)

-- The worker goes on with a component whose `init` answered with an error.
test_init_error :
    run_worker component list_queue default_config (event ∷ event ∷ []) (some worker)
    ≡ some (record {
      instance_ = 2;
      outbound_tx = record { queue = (9 ∷ []) ∷ []; places = 1; shut = false };
      outbound_dropped = 0;
      processed = 2;
    })
unfolding run_worker after_init worker_loop after_call act answer_of outcome put_sent
test_init_error = refl

abbrev plugins : List (Plugin (list_queue {A = PluginEvent ℕ (List ℕ)}))
plugins =
    record { name = str "a"; tx = record { queue = []; places = 1; shut = false }; dropped = 0 }
    ∷ record { name = str "b"; tx = record { queue = []; places = 0; shut = false }; dropped = 0 }
    ∷ record { name = str "c"; tx = record { queue = []; places = 1; shut = true }; dropped = 0 }
    ∷ []

publish-AllPublished_example :
    ((publish list_queue event plugins).0 ≡ takers list_queue list_laws event plugins)
    × AllPublished list_queue list_laws event plugins (publish list_queue event plugins).1
publish-AllPublished_example = publish-AllPublished list_queue list_laws event plugins

memory_growing-memory_bytes_cap_example :
    (memory_bytes_cap default_config < 2 ^ 64)
    × ((memory_growing (memory_bytes_cap default_config) 33554432 ≡ true)
        ↔ (33554432 ≤ 32 * 2 ^ 20))
memory_growing-memory_bytes_cap_example =
    memory_growing-memory_bytes_cap default_config 33554432 (omega arith)
