-- ===== src/Dashboard/Tasks/Prompt.antt =====
-- When no client lags, and what it then receives.
use fastapi_websockets_produ.Common.{ℕ, ◌<◌, ◌++◌, length, All}
use fastapi_websockets_produ.Common.Run.{Run}
use fastapi_websockets_produ.PubSub.Bus.{Bus}
use fastapi_websockets_produ.PubSub.Bus.Reading.{items_at}
use fastapi_websockets_produ.Dashboard.Manager.{FakeWebSocket}
use fastapi_websockets_produ.Dashboard.Tasks.{
  Metrics, Client, Simulation, tick, join, serve, cancel, Reach, here, next,
}
use fastapi_websockets_produ.Dashboard.Tasks.Ticks.{ticks_in, ticks_of}

-- Nobody lags: of the 256 places of each queue, 204 are the threshold.
abbrev pub KeepsUp : Simulation → Type 0
KeepsUp s = All (λ c. length (items_at s.bus c.subscriber.queue) < 204) s.running

-- Nobody lagged at a tick of the producer.
abbrev pub Prompt : (s t : Simulation) → Reach s t → Type 0
Prompt s t here = Unit
Prompt s t (next {t = u} r (tick now later)) = KeepsUp u × Prompt s u r
Prompt s t (next {t = u} r (join ws task uuid now loop_now lifetime opened new f)) = Prompt s u r
Prompt s t (next {t = u} r (serve before c behind now e)) = Prompt s u r
Prompt s t (next {t = u} r (cancel before c behind e)) = Prompt s u r

-- What the client has received and what waits for it are the ticks from some tick on up to the last.
abbrev pub Complete : Bus Metrics → ℕ → Client → Type 0
Complete bus n c = (lo : ℕ) × Run lo (ticks_of c.ws ++ ticks_in (items_at bus c.subscriber.queue)) n

-- Consecutive ticks.
abbrev pub Unbroken : FakeWebSocket Metrics → Type 0
Unbroken ws = (lo : ℕ) × (hi : ℕ) × Run lo (ticks_of ws) hi
