-- ===== src/Shutdown/Close/Asks.antt =====
-- `close_all` asks every task that was registered when it began.
use native.Mathlib.Decide.{ℕ_discrete}
use fastapi_websockets_produ.Common.{
  ℕ, suc, ◌≤◌, ◌<◌, ◌≡◌, sym, ◌∙◌, ap, subst, inl, inr, true, false, Bool-cases, Option, none, some,
  List, [], ◌∷◌, length, get_elem?, map, ◌==◌, arith, ==-ne,
}
use fastapi_websockets_produ.Common.Text.{Str}
use fastapi_websockets_produ.Shutdown.Registry.{ConnectionInfo, ConnectionRegistry}
use fastapi_websockets_produ.Shutdown.Close.{
  Task, World, cancel, cancel_at, cancel_all, update, Event, meanwhile, pending, tasks_of, Closing,
  closed, gathering, gathered, after_wait, close_all,
}
use fastapi_websockets_produ.Shutdown.Close.Effect.{
  Grows, requests, update_self, update_ne, cancel_all-Grows,
}
use fastapi_websockets_produ.Shutdown.Close.Requests.{contains, meanwhile-requests}

pub Grows-requests : (a b : Option Task) → Grows a b → requests a ≤ requests b
Grows-requests none b h = omega arith
Grows-requests (some t) none h = absurd h
Grows-requests (some t) (some u) h = h.1

cancel-asks : (t : Task) → t.finished ≡ false → (cancel t).cancel_requests ≡ suc t.cancel_requests
unfolding cancel
cancel-asks t h = rw h (omega arith)

pub cancel_all-asks :
    (ts : List Task) (is : List ℕ) (i : ℕ) (t : Task)
    → contains i is ≡ true
    → get_elem? ts i ≡ some t
    → t.finished ≡ false
    → t.cancel_requests < requests (get_elem? (cancel_all ts is) i)
unfolding cancel_all cancel_at
cancel_all-asks ts [] i t c e f = cc
cancel_all-asks ts (j ∷ js) i t c e f =
    let ts' = update cancel (get_elem? ts j) ts j in
    elim (ℕ_discrete j i) [
      | yes p ↦
          let now : get_elem? ts' i ≡ some (cancel t) =
            subst (λ k. get_elem? (update cancel (get_elem? ts k) ts k) i ≡ some (cancel t)) (sym p)
              (update_self cancel ts i t e) in
          omega (
            arith,
            ap requests now,
            cancel-asks t f,
            Grows-requests (get_elem? ts' i) (get_elem? (cancel_all ts' js) i)
                (cancel_all-Grows ts' js i),
          )
      | no p ↦ cancel_all-asks ts' js i t (rw (==-ne j i p) at c) (update_ne cancel ts j i p ∙ e) f
    ]

abbrev Asks : ℕ → ℕ → Closing → Type 0
Asks i k (closed w' n) = k < requests (get_elem? w'.tasks i)
Asks i k (gathering w') = k < requests (get_elem? w'.tasks i)

gathered-Asks :
    (i k : ℕ) (u : World) (is : List ℕ) (count : ℕ) (late : List ℕ)
    → k < requests (get_elem? u.tasks i)
    → Asks i k (gathered u is count late)
unfolding gathered
gathered-Asks i k u is count [] h = h
gathered-Asks i k u is count (j ∷ late) h = h

after_wait-Asks :
    (i k : ℕ) (u : World) (count : ℕ) (force : List Event) (late : List ℕ)
    → k < requests (get_elem? u.tasks i)
    → Asks i k (after_wait u count force late)
unfolding after_wait
after_wait-Asks i k u count force [] h = h
after_wait-Asks i k u count force (j ∷ late) h =
    let u1 : World = record u { tasks = cancel_all u.tasks (j ∷ late) } in
    let u2 = meanwhile u1 force in
    gathered-Asks i k u2 (j ∷ late) count (pending u2.tasks (j ∷ late)) (
      omega (
        arith,
        meanwhile-requests u1 force i,
        Grows-requests (get_elem? u.tasks i) (get_elem? u1.tasks i)
            (cancel_all-Grows u.tasks (j ∷ late) i),
      ))

nil_tasks :
    (r : ConnectionRegistry) (i : ℕ)
    → (length r.connections == 0) ≡ true
    → contains i (tasks_of r) ≡ true
    → ⊥
nil_tasks r i z c = go r.connections z c
  where
    go :
        (d : List (Str × ConnectionInfo))
        → (length d == 0) ≡ true
        → contains i (map (λ e. e.1.task) d) ≡ true
        → ⊥
    go [] z c = cc
    go (x ∷ d) z c = ground arith

close_all-Asks :
    (w : World) (drain force : List Event) (i : ℕ) (t : Task)
    → contains i (tasks_of w.registry) ≡ true
    → get_elem? w.tasks i ≡ some t
    → t.finished ≡ false
    → Asks i t.cancel_requests (close_all w drain force)
unfolding close_all
close_all-Asks w drain force i t c e f =
    let is = tasks_of w.registry in
    let u1 : World = record w {
      registry = record (w.registry) { shutting_down = true };
      tasks = cancel_all w.tasks is;
    } in
    let u = meanwhile u1 drain in
    elim (Bool-cases (length w.registry.connections == 0)) [
      | inl z ↦ absurd (nil_tasks w.registry i z c)
      | inr z ↦
          rw (z, Asks)
            (after_wait-Asks i t.cancel_requests u (length w.registry.connections) force
              (pending u.tasks is)
              (omega (arith, meanwhile-requests u1 drain i, cancel_all-asks w.tasks is i t c e f)))
    ]

-- Every task that was registered when `close_all` began, and was not done then, has been asked to
-- stop when it returns.
pub close_all-asks :
    (w : World) (drain force : List Event) (i : ℕ) (t : Task) {w' : World} {n : ℕ}
    → contains i (tasks_of w.registry) ≡ true
    → get_elem? w.tasks i ≡ some t
    → t.finished ≡ false
    → close_all w drain force ≡ closed w' n
    → t.cancel_requests < requests (get_elem? w'.tasks i)
close_all-asks w drain force i t c e f r =
    subst (Asks i t.cancel_requests) r (close_all-Asks w drain force i t c e f)
