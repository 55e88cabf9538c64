-- ===== src/Shutdown/Lifespan.antt =====
-- patterns/graceful_shutdown.py: the global registry, `get_registry`, `create_lifespan` and
-- `make_connection_id`. A registry is an object that the global variable and the application share,
-- so registries live in a store and are passed by reference.
use fastapi_websockets_produ.Common.{
  ℕ, ◌≡◌, refl, ◌∙◌, ap, subst, true, Option, none, some, List, [], ◌∷◌, ◌++◌, length, get_elem?,
  set, take, arith, get_elem?-set_self, get_elem?_lt, get_elem?-end,
}
use fastapi_websockets_produ.Common.Text.{Str}
use fastapi_websockets_produ.Shutdown.Registry.{ConnectionRegistry, new_registry, active_count}
use fastapi_websockets_produ.Shutdown.Close.{Task, Event, Closing, closed, gathering, close_all}
use fastapi_websockets_produ.Shutdown.Close.Returns.{close_all-IsClosed}

pub record App : Type 0 where
  pub global_registry : Option ℕ
  pub registries : List ConnectionRegistry
  pub tasks : List Task

-- `get_registry`: `none` for the `RuntimeError`.
unfoldable pub get_registry : App → Option ℕ
get_registry a = a.global_registry

-- `create_lifespan` up to its `yield`, with the registry that it yields.
unfoldable pub enter : App → ℕ → App × ℕ
enter a shutdown_timeout =
    let ref = length a.registries in
    (
      record a {
        global_registry = some ref;
        registries = a.registries ++ new_registry shutdown_timeout ∷ [];
      },
      ref,
    )

-- The `finally` part has ended with a count of closed connections, or still awaits `close_all`.
pub data Exit : Type 0 where
  left : App → ℕ → Exit
  leaving : Exit

after_close : App → ℕ → Closing → Exit
after_close a ref (closed w n) =
    left
      (record {
        global_registry = none;
        registries = set a.registries ref w.registry;
        tasks = w.tasks;
      })
      n
after_close a ref (gathering w) = leaving

close_registry : App → ℕ → List Event → List Event → Option ConnectionRegistry → Exit
unfolding after_close
close_registry a ref drain force none = leaving
close_registry a ref drain force (some r) =
    after_close a ref (close_all (record { registry = r; tasks = a.tasks }) drain force)

-- The `finally` part of `create_lifespan`.
unfoldable pub exit : App → ℕ → List Event → List Event → Exit
unfolding close_registry
exit a ref drain force = close_registry a ref drain force (get_elem? a.registries ref)

-- `str(uuid.uuid4())[:8]`, from the text of the fresh id.
unfoldable pub make_connection_id : Str → Str
make_connection_id uuid = take 8 uuid

-- A registry that `create_lifespan` has closed.
pub record IsShut (a : App) (ref : ℕ) (n : ℕ) (a' : App) (r' : ConnectionRegistry) : Type 0 where
  pub found : get_elem? a'.registries ref ≡ some r'
  pub emptied : active_count r' ≡ 0
  pub flagged : r'.shutting_down ≡ true
  pub cleared : get_registry a' ≡ none

-- While the lifespan is entered, `get_registry` gives the fresh registry that was yielded, with no
-- connection.
get_registry-enter :
    (a : App) (timeout : ℕ)
    → let (a', ref) = enter a timeout in
      (get_registry a' ≡ some ref) × (get_elem? a'.registries ref ≡ some (new_registry timeout))
unfolding get_registry enter
get_registry-enter a timeout = (refl, get_elem?-end a.registries (new_registry timeout))

closed-IsShut :
    (a : App) (ref : ℕ) (r : ConnectionRegistry) (drain force : List Event) (c : Closing) {a' : App}
    {n : ℕ}
    → get_elem? a.registries ref ≡ some r
    → close_all (record { registry = r; tasks = a.tasks }) drain force ≡ c
    → after_close a ref c ≡ left a' n
    → (r' : ConnectionRegistry) × IsShut a ref n a' r' × (n ≡ active_count r)
unfolding after_close get_registry active_count
closed-IsShut a ref r drain force (gathering w) f c e = absurd (ground arith)
closed-IsShut a ref r drain force (closed w k) {a'} {n} f c e =
    let shut = close_all-IsClosed (record { registry = r; tasks = a.tasks }) drain force c in
    let same : a' ≡ record {
      global_registry = none;
      registries = set a.registries ref w.registry;
      tasks = w.tasks;
    } =
      cc in
    let counted : n ≡ k = cc in
    (
      w.registry,
      record {
        found =
            ap (λ x. get_elem? x.registries ref) same
            ∙ get_elem?-set_self a.registries ref w.registry (get_elem?_lt a.registries ref r f);
        emptied = ap length shut.emptied;
        flagged = shut.flagged;
        cleared = ap (λ x. x.global_registry) same;
      },
      counted ∙ shut.reported,
    )

-- When the lifespan has been left, however its body ended: the registry is empty and marked as
-- shutting down, the count is the number of connections that it had, and `get_registry` raises again.
pub exit-IsShut :
    (a : App) (ref : ℕ) (r : ConnectionRegistry) (drain force : List Event) {a' : App} {n : ℕ}
    → get_elem? a.registries ref ≡ some r
    → exit a ref drain force ≡ left a' n
    → (r' : ConnectionRegistry) × IsShut a ref n a' r' × (n ≡ active_count r)
unfolding exit
exit-IsShut a ref r drain force {a'} {n} f e =
    closed-IsShut a ref r drain force
      (close_all (record { registry = r; tasks = a.tasks }) drain force) f refl
      (subst (λ o. close_registry a ref drain force o ≡ left a' n) f e)
