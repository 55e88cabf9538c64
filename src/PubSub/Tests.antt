-- ===== src/PubSub/Tests.antt =====
-- The theorems on the message bus at concrete inputs: a bus with one channel, whose subscriber has an
-- empty queue of three places.
use fastapi_websockets_produ.Common.{
  ◌++◌, ℕ, ◌≡◌, refl, true, Option, some, List, [], ◌∷◌, map, arith,
}
use fastapi_websockets_produ.Common.Text.{Str, str, str_discrete}
use fastapi_websockets_produ.Asyncio.{full, new_queue, put_nowait}
use fastapi_websockets_produ.PubSub.Bus.{
  Message, Subscriber, Mailbox, Bus, waiting, read, new_bus, subscribe, unsubscribe, offer, try_put,
}
use fastapi_websockets_produ.PubSub.Bus.Validity.{IsValid}
use fastapi_websockets_produ.PubSub.Bus.Operations.{
  Call, fetch, join, send, leave, close, run, run-new_bus,
}
use fastapi_websockets_produ.PubSub.Bus.Reading.{items_at, read-unsubscribe}
use mathlib.Core.List.{Sublistᴰ}
use fastapi_websockets_produ.PubSub.Bus.Received.{received, sent_on, messages_in}
use fastapi_websockets_produ.PubSub.Bus.Complete.{received-KeepsAll}
use fastapi_websockets_produ.PubSub.Bus.Staying.{KeepsAll}
use fastapi_websockets_produ.PubSub.Bus.Ordered.{received-sent_on}
use fastapi_websockets_produ.PubSub.Bus.Starving.{received-ByDefault}
use fastapi_websockets_produ.PubSub.Hub.{hub_replies, empty}
use fastapi_websockets_produ.PubSub.Hub.Refines.{replies, replies-hub}
use fastapi_websockets_produ.PubSub.Codec.{Value, object, string, ok, from_json, to_json}
use fastapi_websockets_produ.PubSub.Codec.Wire.{
  decoded, Answers, from_json-to_json, from_json-Answers,
}

abbrev news : Str
news = str "news"

abbrev alice : Subscriber
alice = record { subscriber_id = str "alice"; channel = news; queue = 0; max_queue_size = 3 }

abbrev mailbox : List (Option (Message ℕ)) → Mailbox ℕ
mailbox xs = record { maxsize = 3; items = xs }

abbrev hello : Message ℕ
hello = record { channel = news; payload = 1; timestamp = 0; publisher_id = str "p" }

abbrev some_calls : List (Call ℕ)
some_calls =
    join news (str "alice") 3 ∷ send news 1 (str "p") true 0 ∷ leave alice ∷ close news ∷ []

run-new_bus_example : IsValid (run new_bus some_calls)
run-new_bus_example = run-new_bus some_calls

abbrev full_bus : Bus ℕ
full_bus = record {
  channels = (news, alice ∷ []) ∷ [];
  queues = mailbox (map some (hello ∷ hello ∷ hello ∷ [])) ∷ [];
}

read-unsubscribe_example :
    read (items_at (unsubscribe full_bus alice) 0) ≡ waiting (hello ∷ hello ∷ hello ∷ [])
unfolding full
read-unsubscribe_example =
    read-unsubscribe full_bus alice (mailbox (map some (hello ∷ hello ∷ hello ∷ [])))
      (hello ∷ hello ∷ hello ∷ []) refl refl

-- A subscriber with one place, and one with nine on the same channel.
abbrev carol : Subscriber
carol = record { subscriber_id = str "carol"; channel = news; queue = 1; max_queue_size = 1 }

abbrev with_carol : List (Call ℕ)
with_carol = send news 1 (str "p") true 0 ∷ fetch carol ∷ send news 2 (str "p") true 1 ∷ []

abbrev bob_first : List (Call ℕ)
bob_first = join news (str "bob") 9 ∷ []

received-ByDefault_example :
    let (bus, s) = subscribe (run new_bus bob_first) news (str "carol") 1 in
    received bus s.queue with_carol ++ messages_in (items_at (run bus with_carol) s.queue) ≡ []
received-ByDefault_example =
    received-ByDefault bob_first with_carol news (str "carol") 1 (omega arith)
      (refl, (tt, (refl, tt)))

-- A `json` module whose texts are the values themselves.
abbrev written : Value ℕ → Value ℕ
written v = v

from_json-to_json_example : from_json some 9 (to_json written hello) ≡ ok (decoded hello)
from_json-to_json_example = from_json-to_json written some 9 hello (λ fields d. refl)

abbrev no_body : Value ℕ
no_body = object ((str "channel", string news) ∷ [])

from_json-Answers_example : Answers 9 (some no_body) (from_json some 9 no_body)
from_json-Answers_example = from_json-Answers some 9 no_body

replies-hub_example : replies new_bus some_calls ≡ hub_replies empty some_calls
replies-hub_example = replies-hub some_calls

-- Two messages that a new subscriber may take one of, and one on another channel.
abbrev later_calls : List (Call ℕ)
later_calls =
    send news 1 (str "p") true 0
    ∷ send (str "sports") 2 (str "p") true 1
    ∷ send news 3 (str "p") true 2
    ∷ fetch alice
    ∷ leave alice
    ∷ []

received-sent_on_example :
    let (bus, s) = subscribe (run new_bus []) news (str "alice") 3 in
    Sublistᴰ
      (received bus s.queue later_calls ++ messages_in (items_at (run bus later_calls) s.queue))
      (sent_on news later_calls)
received-sent_on_example = received-sent_on [] later_calls news (str "alice") 3

abbrev kept_calls : List (Call ℕ)
kept_calls =
    send news 1 (str "p") true 0 ∷ fetch alice ∷ join news (str "bob") 9 ∷ close (str "sports") ∷ []

kept_calls-KeepsAll :
    let (bus, s) = subscribe (run new_bus []) news (str "alice") 3 in KeepsAll s bus kept_calls
unfolding run new_bus subscribe new_queue offer try_put put_nowait full str_discrete
kept_calls-KeepsAll = ((λ p. refl), (tt, (tt, ((λ p. ground arith), tt))))

received-KeepsAll_example :
    let (bus, s) = subscribe (run new_bus []) news (str "alice") 3 in
    received bus s.queue kept_calls ++ messages_in (items_at (run bus kept_calls) s.queue)
    ≡ sent_on news kept_calls
received-KeepsAll_example = received-KeepsAll [] kept_calls news (str "alice") 3 kept_calls-KeepsAll
