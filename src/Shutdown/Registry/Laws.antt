-- ===== src/Shutdown/Registry/Laws.antt =====
-- The registry is a map from connection ids to connections.
use fastapi_websockets_produ.Common.{ℕ, ◌+◌, ◌≡◌, ◌≢◌, refl, none, some, ap}
use fastapi_websockets_produ.Common.Dict.{
  IsDict, IsDict-put, IsDict-pop, get-put_self, get-put_ne, get-pop_self, get-pop_ne, pop-put_new,
}
use fastapi_websockets_produ.Common.Dict.Values.{Entries, Entries-put, Entries-pop, length-put_new}
use fastapi_websockets_produ.Common.Text.{Str}
use fastapi_websockets_produ.Shutdown.Registry.{
  ConnectionInfo, ConnectionRegistry, new_registry, active_count, register, deregister, get,
}

-- Every connection is registered once, under its own id.
pub record IsValid (r : ConnectionRegistry) : Type 0 where
  pub distinct : IsDict r.connections
  pub owned : Entries (λ k info. info.connection_id ≡ k) r.connections

pub new_registry-IsValid : (timeout : ℕ) → IsValid (new_registry timeout)
unfolding new_registry
new_registry-IsValid timeout = record { distinct = tt; owned = tt }

pub register-IsValid :
    (r : ConnectionRegistry) (info : ConnectionInfo) → IsValid r → IsValid (register r info)
unfolding register
register-IsValid r info v = record {
  distinct = IsDict-put info.connection_id info r.connections v.distinct;
  owned =
      Entries-put (λ k i. i.connection_id ≡ k) info.connection_id info r.connections refl v.owned;
}

pub deregister-IsValid :
    (r : ConnectionRegistry) (cid : Str) → IsValid r → IsValid (deregister r cid)
unfolding deregister
deregister-IsValid r cid v = record {
  distinct = IsDict-pop cid r.connections v.distinct;
  owned = Entries-pop (λ k i. i.connection_id ≡ k) cid r.connections v.owned;
}

pub get-register :
    (r : ConnectionRegistry) (info : ConnectionInfo)
    → get (register r info) info.connection_id ≡ some info
unfolding get register
get-register r info = get-put_self info.connection_id info r.connections

pub get-deregister :
    (r : ConnectionRegistry) (cid : Str) → IsValid r → get (deregister r cid) cid ≡ none
unfolding get deregister
get-deregister r cid v = get-pop_self cid r.connections v.distinct

-- `register` makes its connection the one found under its id, `deregister` removes it, and neither
-- changes what is found under another id.
get-register-deregister :
    (r : ConnectionRegistry) (info : ConnectionInfo) (other : Str)
    → IsValid r
    → info.connection_id ≢ other
    → (get (register r info) info.connection_id ≡ some info)
      × (get (register r info) other ≡ get r other)
      × (get (deregister r info.connection_id) info.connection_id ≡ none)
      × (get (deregister r info.connection_id) other ≡ get r other)
unfolding get register deregister
get-register-deregister r info other v ne = (
  get-put_self info.connection_id info r.connections,
  get-put_ne info.connection_id other info r.connections ne,
  get-pop_self info.connection_id r.connections v.distinct,
  get-pop_ne info.connection_id other r.connections ne,
)

-- A handler that registers under a new id and deregisters on its way out leaves the registry as it
-- was; in between it counts as one connection more.
deregister-register :
    (r : ConnectionRegistry) (info : ConnectionInfo)
    → get r info.connection_id ≡ none
    → (deregister (register r info) info.connection_id ≡ r)
      × (active_count (register r info) ≡ active_count r + 1)
unfolding get register deregister active_count
deregister-register r info e = (
  ap (λ d. record r { connections = d }) (pop-put_new info.connection_id info r.connections e),
  length-put_new info.connection_id info r.connections e,
)
