-- ===== src/Backpressure/Controller.antt =====
-- patterns/backpressure.py: `BackpressureConfig` and `BackpressureController`. A caller that holds a
-- `SendQueue` of the controller shares it: what it calls on it changes the controller's entry.
pub mod Calls
pub mod Fits
pub mod Invariant
pub mod Reports
pub mod Alone
pub mod Shared
use fastapi_websockets_produ.Common.{
  ℕ, ◌+◌, max, Option, none, some, List, [], ◌∷◌, length, leb, if◌then◌else◌,
}
use fastapi_websockets_produ.Common.Dict.Values.{sum_of}
use fastapi_websockets_produ.Common.Dict
use fastapi_websockets_produ.Common.Ratio.{Ratio, trunc_mul}
use fastapi_websockets_produ.Common.Text.{Str}
use fastapi_websockets_produ.Backpressure.SendQueue.{
  BackpressureStrategy, drop_oldest, SendQueue, new_send_queue, depth,
}

pub record BackpressureConfig : Type 0 where
  pub max_queue_size : ℕ
  pub strategy : BackpressureStrategy
  pub warn_threshold_pct : Ratio
  pub drain_interval_ms : Ratio

-- The defaults of the dataclass.
unfoldable pub default_config : BackpressureConfig
default_config = record {
  max_queue_size = 256;
  strategy = drop_oldest;
  warn_threshold_pct = record { num = 4; den = 5 };
  drain_interval_ms = record { num = 10; den = 1 };
}

pub record BackpressureController {ℓ} (A : Type ℓ) : Type ℓ where
  pub config : BackpressureConfig
  pub queues : List (Str × SendQueue A)

-- The dictionary that `global_stats` returns.
pub record GlobalStats : Type 0 where
  pub connections : ℕ
  pub total_queued : ℕ
  pub total_dropped : ℕ
  pub total_sent : ℕ
  pub overall_drop_rate : Ratio

-- `config or BackpressureConfig()`
unfoldable pub or_default : Option BackpressureConfig → BackpressureConfig
unfolding default_config
or_default none = default_config
or_default (some config) = config

module _ {ℓ} {A : Type ℓ} where
  -- `BackpressureController.__init__`
  unfoldable pub new_controller : Option BackpressureConfig → BackpressureController A
  unfolding or_default
  new_controller config = record { config = or_default config; queues = [] }

  unfoldable pub add_connection :
      BackpressureController A → Str → BackpressureController A × SendQueue A
  add_connection c cid =
      let queue = new_send_queue cid c.config.max_queue_size c.config.strategy in
      (record c { queues = Dict.put cid queue c.queues }, queue)

  unfoldable pub remove_connection : BackpressureController A → Str → BackpressureController A
  remove_connection c cid = record c { queues = Dict.pop cid c.queues }

  unfoldable pub get_queue : BackpressureController A → Str → Option (SendQueue A)
  get_queue c cid = Dict.get cid c.queues

  -- The controller after a method of the queue of `cid` has left it as `queue`.
  unfoldable pub store_queue :
      BackpressureController A → Str → SendQueue A → BackpressureController A
  store_queue c cid queue = record c { queues = Dict.put cid queue c.queues }

  lagging_in : ℕ → List (Str × SendQueue A) → List Str
  lagging_in threshold [] = []
  lagging_in threshold ((cid, q) ∷ rest) =
      let others = lagging_in threshold rest in
      if leb threshold (depth q) then cid ∷ others else others

  unfoldable pub lagging_connections : BackpressureController A → List Str
  unfolding lagging_in
  lagging_connections c =
      lagging_in (trunc_mul c.config.max_queue_size c.config.warn_threshold_pct) c.queues

  unfoldable pub global_stats : BackpressureController A → GlobalStats
  global_stats c =
      let total_queued = sum_of (λ q. q.stats.messages_queued) c.queues in
      let total_dropped = sum_of (λ q. q.stats.messages_dropped) c.queues in
      record {
        connections = length c.queues;
        total_queued = total_queued;
        total_dropped = total_dropped;
        total_sent = sum_of (λ q. q.stats.messages_sent) c.queues;
        overall_drop_rate = record {
          num = total_dropped;
          den = max 1 (total_queued + total_dropped);
        };
      }
