-- ===== src/Backpressure/Controller/Alone.antt =====
-- Clients of a controller do not disturb each other: each queue is as if its client were alone.
use fastapi_websockets_produ.Common.{
  ◌≡◌, ◌≢◌, refl, sym, ◌∙◌, ap, ap₂, subst, Option, none, some, List, [], ◌∷◌, ite, if_pos, if_neg,
}
use fastapi_websockets_produ.Common.Dict.{
  get, put, pop, pop_absent, IsDict, IsDict-put, IsDict-pop, get-put_self, get-put_ne, get-pop_self,
  get-pop_ne,
}
use fastapi_websockets_produ.Common.Text.{Str, str_discrete}
use fastapi_websockets_produ.Backpressure.SendQueue.{SendQueue, new_send_queue}
use fastapi_websockets_produ.Backpressure.Controller.{
  BackpressureConfig, new_controller, add_connection, remove_connection, get_queue, store_queue,
  or_default,
}
use fastapi_websockets_produ.Backpressure.Controller.Calls.{
  Call, connect, leave, does, Act, Tasks, Session, idle, fresh, act_on, set_tasks, act_for, step,
  run,
}

abbrev client_of {ℓ} : {A : Type ℓ} → Call A → Str
client_of (connect cid) = cid
client_of (leave cid) = cid
client_of (does cid act) = cid

-- The calls for one client, in order.
abbrev pub calls_of {ℓ} : {A : Type ℓ} → Str → List (Call A) → List (Call A)
calls_of cid [] = []
calls_of cid (call ∷ calls) =
    ite (str_discrete (client_of call) cid) (call ∷ calls_of cid calls) (calls_of cid calls)

-- The dictionary with a value at a key, or without the key.
abbrev assign {ℓ} : {V : Type ℓ} → Str → Option V → List (Str × V) → List (Str × V)
assign k none d = pop k d
assign k (some v) d = put k v d

IsDict-assign {ℓ} :
    {V : Type ℓ} (k : Str) (o : Option V) (d : List (Str × V)) → IsDict d → IsDict (assign k o d)
IsDict-assign k none d v = IsDict-pop k d v
IsDict-assign k (some w) d v = IsDict-put k w d v

get-assign_self {ℓ} :
    {V : Type ℓ} (k : Str) (o : Option V) (d : List (Str × V)) → IsDict d → get k (assign k o d) ≡ o
get-assign_self k none d v = get-pop_self k d v
get-assign_self k (some w) d v = get-put_self k w d

get-assign_ne {ℓ} :
    {V : Type ℓ} (k j : Str) (o : Option V) (d : List (Str × V))
    → k ≢ j
    → get j (assign k o d) ≡ get j d
get-assign_ne k j none d ne = get-pop_ne k j d ne
get-assign_ne k j (some w) d ne = get-put_ne k j w d ne

-- What there is of one client: its queue, and the messages of its tasks.
abbrev Client {ℓ} : Type ℓ → Type ℓ
Client A = Option (SendQueue A) × Tasks A

module _ {ℓ} {A : Type ℓ} where
  abbrev act_alone : Act A → Option (SendQueue A) → Tasks A → Client A
  act_alone act none ts = (none, ts)
  act_alone act (some q) ts = let (q', ts') = act_on act q ts in (some q', ts')

  -- A call where there is no other client.
  abbrev alone : BackpressureConfig → Client A → Call A → Client A
  alone config x (connect cid) =
      (some (new_send_queue cid config.max_queue_size config.strategy), idle)
  alone config x (leave cid) = (none, idle)
  alone config x (does cid act) = act_alone act x.0 x.1

  unfoldable pub run_alone : BackpressureConfig → Client A → List (Call A) → Client A
  run_alone config x [] = x
  run_alone config x (call ∷ calls) = run_alone config (alone config x call) calls

  abbrev client_in : Session A → Str → Client A
  client_in s cid = (get cid s.controller.queues, s.tasks cid)

  -- What a call leaves of its own client.
  abbrev own : Session A → Call A → Client A
  own s call = alone s.controller.config (client_in s (client_of call)) call

  tasks-same :
      (cid other : Str) (tasks : Str → Tasks A)
      → tasks other ≡ set_tasks cid (tasks cid) tasks other
  tasks-same cid other tasks = elim (str_discrete cid other) [
    | yes p ↦ ap tasks (sym p) ∙ sym (if_pos (str_discrete cid other) p (tasks cid) (tasks other))
    | no p ↦ sym (if_neg (str_discrete cid other) p (tasks cid) (tasks other))
  ]

  -- What a session is after a call of `k` that leaves `x` of that client.
  abbrev Assigns : Session A → Str → Client A → Session A → Type ℓ
  Assigns s k x s' =
      (s'.controller ≡ record (s.controller) { queues = assign k x.0 s.controller.queues })
      × ((cid : Str) → s'.tasks cid ≡ set_tasks k x.1 s.tasks cid)

  act_for-Assigns :
      (s : Session A) (k : Str) (act : Act A) (o : Option (SendQueue A))
      → get k s.controller.queues ≡ o
      → Assigns s k (act_alone act o (s.tasks k)) (act_for s k act o)
  unfolding act_for store_queue
  act_for-Assigns s k act none e = (
    ap (λ d. record (s.controller) { queues = d }) (sym (pop_absent k s.controller.queues e)),
    λ cid. tasks-same k cid s.tasks,
  )
  act_for-Assigns s k act (some q) e = (refl, λ cid. refl)

  step-Assigns :
      (s : Session A) (call : Call A) → Assigns s (client_of call) (own s call) (step s call)
  unfolding step add_connection remove_connection get_queue
  step-Assigns s (connect cid) = (refl, λ other. refl)
  step-Assigns s (leave cid) = (refl, λ other. refl)
  step-Assigns s (does cid act) = act_for-Assigns s cid act (get cid s.controller.queues) refl

  step-config :
      (s : Session A) (call : Call A) → (step s call).controller.config ≡ s.controller.config
  step-config s call = ap (λ x. x.config) (step-Assigns s call).0

  step-IsDict :
      (s : Session A) (call : Call A)
      → IsDict s.controller.queues
      → IsDict (step s call).controller.queues
  step-IsDict s call v =
      subst (λ x. IsDict x.queues) (sym (step-Assigns s call).0)
        (IsDict-assign (client_of call) (own s call).0 s.controller.queues v)

  step-own :
      (s : Session A) (call : Call A) (cid : Str)
      → client_of call ≡ cid
      → IsDict s.controller.queues
      → client_in (step s call) cid ≡ alone s.controller.config (client_in s cid) call
  step-own s call cid p v =
      let k = client_of call in
      let (e, t) = step-Assigns s call in
      let here : client_in (step s call) k ≡ own s call =
        ap₂ (λ q ts. (q, ts))
          (ap (λ x. get k x.queues) e ∙ get-assign_self k (own s call).0 s.controller.queues v)
          (t k ∙ if_pos (str_discrete k k) refl (own s call).1 (s.tasks k)) in
      subst (λ j. client_in (step s call) j ≡ alone s.controller.config (client_in s j) call) p here

  step-other :
      (s : Session A) (call : Call A) (cid : Str)
      → client_of call ≢ cid
      → client_in (step s call) cid ≡ client_in s cid
  step-other s call cid n =
      let k = client_of call in
      let (e, t) = step-Assigns s call in
      ap₂ (λ q ts. (q, ts))
        (ap (λ x. get cid x.queues) e ∙ get-assign_ne k cid (own s call).0 s.controller.queues n)
        (t cid ∙ if_neg (str_discrete k cid) n (own s call).1 (s.tasks cid))

  pub run-IsDict :
      (s : Session A) (calls : List (Call A))
      → IsDict s.controller.queues
      → IsDict (run s calls).controller.queues
  unfolding run
  run-IsDict s [] v = v
  run-IsDict s (call ∷ calls) v = run-IsDict (step s call) calls (step-IsDict s call v)

  pub run-config :
      (s : Session A) (calls : List (Call A))
      → (run s calls).controller.config ≡ s.controller.config
  unfolding run
  run-config s [] = refl
  run-config s (call ∷ calls) = run-config (step s call) calls ∙ step-config s call

  client_in-run :
      (s : Session A) (calls : List (Call A)) (cid : Str)
      → IsDict s.controller.queues
      → client_in (run s calls) cid
        ≡ run_alone s.controller.config (client_in s cid) (calls_of cid calls)
  unfolding run run_alone
  client_in-run s [] cid v = refl
  client_in-run s (call ∷ calls) cid v =
      let config = s.controller.config in
      let later = calls_of cid calls in
      client_in-run (step s call) calls cid (step-IsDict s call v)
      ∙ ap (λ c. run_alone c (client_in (step s call) cid) later) (step-config s call)
      ∙ (elim (str_discrete (client_of call) cid) [
        | yes p ↦
            ap (λ x. run_alone config x later) (step-own s call cid p v)
            ∙ ap (run_alone config (client_in s cid))
                (sym (if_pos (str_discrete (client_of call) cid) p (call ∷ later) later))
        | no n ↦
            ap (λ x. run_alone config x later) (step-other s call cid n)
            ∙ ap (run_alone config (client_in s cid))
                (sym (if_neg (str_discrete (client_of call) cid) n (call ∷ later) later))
      ])

  -- Whatever the tasks of the clients of a new controller do, in any order, senders that wait and are
  -- woken or cancelled included: the queue of each client, and the messages that its tasks hold, are
  -- the ones that its own steps make from nothing, and there is no queue if they end with its removal.
  pub get_queue-run_alone :
      (config : Option BackpressureConfig) (calls : List (Call A)) (cid : Str)
      → let s = run (fresh config) calls in
        (get_queue s.controller cid, s.tasks cid)
        ≡ run_alone (or_default config) (none, idle) (calls_of cid calls)
  unfolding get_queue new_controller get
  get_queue-run_alone config calls cid = client_in-run (fresh config) calls cid tt
