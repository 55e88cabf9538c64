-- ===== src/Dashboard/Tasks/Agreement.antt =====
-- Registry, controller and bus hold exactly the running clients: kept where a client starts or leaves
-- and where the producer ticks.
use fastapi_websockets_produ.Common.{
  All-append, All-middle, ℕ, ◌≡◌, ◌≢◌, refl, sym, ◌∙◌, ap, subst, false, none, List, [], ◌∷◌, ◌++◌,
  map, map-append, All, arith, if_pos, if_neg,
}
use fastapi_websockets_produ.Common.Dict.{IsDict, IsDict-put, IsDict-pop}
use fastapi_websockets_produ.Common.Dict.Keys.{
  keys-put_new, key_found, keys-pop_middle, absent-keys, IsDict-keys,
}
use fastapi_websockets_produ.Common.Dict
use fastapi_websockets_produ.Common.Text.{Str}
use fastapi_websockets_produ.Backpressure.Controller.{add_connection, remove_connection}
use fastapi_websockets_produ.PubSub.Bus.{
  Subscriber, subscribers, subscriber_discrete, remove, replace, subscribe, unsubscribe, publish,
}
use fastapi_websockets_produ.PubSub.Bus.Operations.{replace-IsDict}
use fastapi_websockets_produ.PubSub.Bus.Channels.{subscribers-put, subscribers-replace}
use fastapi_websockets_produ.Shutdown.Registry.{register, deregister}
use fastapi_websockets_produ.Shutdown.Lifespan.{make_connection_id}
use fastapi_websockets_produ.Dashboard.Manager.{FakeWebSocket, connect, disconnect}
use fastapi_websockets_produ.Dashboard.Tasks.{
  feed_channel, Metrics, Client, Simulation, produce, start_client, leave,
}

abbrev pub ids : List Client → List Str
ids = map (λ c. c.conn_id)

abbrev pub subscribers_of : List Client → List Subscriber
subscribers_of = map (λ c. c.subscriber)

-- A running client: its subscriber bears its id, and its socket is open.
abbrev pub Owns : Client → Type 0
Owns c =
    (c.subscriber.subscriber_id ≡ c.conn_id)
    × (c.subscriber.channel ≡ feed_channel)
    × (c.ws.closed ≡ false)

pub record Agrees (s : Simulation) : Type 0 where
  pub registered : Dict.keys s.manager.registry.connections ≡ ids s.running
  pub buffered : Dict.keys s.manager.bp.queues ≡ ids s.running
  pub subscribed : subscribers s.bus.channels feed_channel ≡ subscribers_of s.running
  pub owned : All Owns s.running
  pub distinct : IsDict s.manager.registry.connections
  pub listed : IsDict s.bus.channels

-- A subscriber among the running clients is removed by itself: no other has its id.
remove-middle :
    {V : Type 0} (d : List (Str × V)) (before : List Client) (c : Client) (behind : List Client)
    → IsDict d
    → Dict.keys d ≡ ids (before ++ c ∷ behind)
    → All Owns (before ++ c ∷ behind)
    → remove c.subscriber (subscribers_of (before ++ c ∷ behind))
      ≡ subscribers_of (before ++ behind)
unfolding remove
remove-middle d [] c behind v e o = if_pos (subscriber_discrete c.subscriber c.subscriber) refl _ _
remove-middle [] (b ∷ before) c behind v e o = absurd cc
remove-middle ((k, x) ∷ d) (b ∷ before) c behind v e o =
    let tails : Dict.keys d ≡ ids (before ++ c ∷ behind) = ground arith in
    let head : k ≡ b.conn_id = ground arith in
    let own = (All-middle Owns before c behind o.1).0 in
    let apart : b.subscriber ≢ c.subscriber = λ same.
      key_found k d (ids before) (ids behind)
        (tails
          ∙ map-append (λ a. a.conn_id) before (c ∷ behind)
          ∙ ap (λ j. ids before ++ j ∷ ids behind)
              (sym own.0 ∙ ap (λ x. x.subscriber_id) (sym same) ∙ o.0.0 ∙ sym head))
        v.0 in
    if_neg (subscriber_discrete b.subscriber c.subscriber) apart _ _
    ∙ ap (λ ss. b.subscriber ∷ ss) (remove-middle d before c behind v.1 tails o.1)

pub leave-Agrees :
    (s : Simulation) (before : List Client) (c : Client) (behind : List Client)
    → s.running ≡ before ++ c ∷ behind
    → Agrees s
    → Agrees (leave s before c behind)
unfolding leave disconnect deregister remove_connection unsubscribe
leave-Agrees s before c behind e a =
    let reg = s.manager.registry.connections in
    let o = subst (All Owns) e a.owned in
    let own = All-middle Owns before c behind o in
    let split : (bs : List Client) → ids (before ++ bs) ≡ ids before ++ ids bs =
      λ bs. map-append (λ x. x.conn_id) before bs in
    let k1 = a.registered ∙ ap ids e ∙ split (c ∷ behind) in
    let k2 = a.buffered ∙ ap ids e ∙ split (c ∷ behind) in
    let v2 = IsDict-keys reg s.manager.bp.queues (a.registered ∙ sym a.buffered) a.distinct in
    record {
      registered =
          keys-pop_middle c.conn_id reg (ids before) (ids behind) a.distinct k1
          ∙ sym (split behind);
      buffered =
          keys-pop_middle c.conn_id s.manager.bp.queues (ids before) (ids behind) v2 k2
          ∙ sym (split behind);
      subscribed =
          ap
            (λ ch.
              subscribers
                (replace ch (remove c.subscriber (subscribers s.bus.channels ch)) s.bus.channels)
                feed_channel)
            own.0.1
          ∙ subscribers-replace feed_channel _ s.bus.channels a.listed
          ∙ ap (remove c.subscriber) (a.subscribed ∙ ap subscribers_of e)
          ∙ remove-middle reg before c behind a.distinct (a.registered ∙ ap ids e) o;
      owned = own.1;
      distinct = IsDict-pop c.conn_id reg a.distinct;
      listed = replace-IsDict c.subscriber.channel _ s.bus.channels a.listed;
    }

pub produce-Agrees : (s : Simulation) (now later : ℕ) → Agrees s → Agrees (produce s now later)
unfolding produce publish
produce-Agrees s now later a = record {
  registered = a.registered;
  buffered = a.buffered;
  subscribed = a.subscribed;
  owned = a.owned;
  distinct = a.distinct;
  listed = a.listed;
}

pub start_client-Agrees :
    (s : Simulation) (ws : FakeWebSocket Metrics) (task : ℕ) (uuid : Str)
    (now loop_now lifetime : ℕ)
    → ws.closed ≡ false
    → Dict.get (make_connection_id uuid) s.manager.registry.connections ≡ none
    → Agrees s
    → Agrees (start_client s ws task uuid now loop_now lifetime)
unfolding start_client connect register add_connection subscribe
start_client-Agrees s ws task uuid now loop_now lifetime o f a =
    let cid = make_connection_id uuid in
    let reg = s.manager.registry.connections in
    let sub = (subscribe s.bus feed_channel cid 256).1 in
    let f2 = absent-keys cid reg s.manager.bp.queues (a.registered ∙ sym a.buffered) f in
    record {
      registered =
          keys-put_new cid _ reg f
          ∙ ap (λ js. js ++ cid ∷ []) a.registered
          ∙ sym (map-append (λ x. x.conn_id) s.running _);
      buffered =
          keys-put_new cid _ s.manager.bp.queues f2
          ∙ ap (λ js. js ++ cid ∷ []) a.buffered
          ∙ sym (map-append (λ x. x.conn_id) s.running _);
      subscribed =
          subscribers-put feed_channel _ s.bus.channels
          ∙ ap (λ ss. ss ++ sub ∷ []) a.subscribed
          ∙ sym (map-append (λ x. x.subscriber) s.running _);
      owned = All-append Owns s.running _ a.owned ((refl, refl, o), tt);
      distinct = IsDict-put cid _ reg a.distinct;
      listed = IsDict-put feed_channel _ s.bus.channels a.listed;
    }
