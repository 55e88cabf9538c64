-- ===== src/Shutdown/Close/Heeds.antt =====
-- `close_all` returns when the registered tasks heed what it asks of them.
use fastapi_websockets_produ.Common.{
  ℕ, ◌+◌, ◌<◌, ◌≡◌, sym, ◌∙◌, ap, subst, ◌⊎◌, inl, inr, true, false, Bool-cases, Option, none, some,
  Option-cases, List, [], ◌∷◌, length, get_elem?, All, arith, ==-eq, ==-ne, refl,
}
use native.Mathlib.Decide.{ℕ_discrete}
use fastapi_websockets_produ.Shutdown.Close.{
  Task, World, cancel_all, Event, heeds, heed, happen, meanwhile, ended, is_done, pending, tasks_of,
  closed, close_all,
}
use fastapi_websockets_produ.Shutdown.Close.Effect.{
  Grows, Grows-ended, Grows-trans, requests, update_self, cancel_all-Grows, meanwhile-Grows,
}
use fastapi_websockets_produ.Shutdown.Close.Returns.{
  after_drain, after_force, IsClosed, close_all-IsClosed, close_all-returns,
}
use fastapi_websockets_produ.Shutdown.Close.Requests.{contains, meanwhile-requests}
use fastapi_websockets_produ.Shutdown.Close.Asks.{cancel_all-asks}

abbrev Occurs : Event → List Event → Type 0
Occurs e [] = ⊥
Occurs e (f ∷ fs) = (f ≡ e) ⊎ Occurs e fs

-- The registered task `i`, which exists: it heeds the first request that `close_all` makes of it while
-- this waits for the timeout, or the second one after it.
abbrev pub Heeds : World → List Event → List Event → ℕ → Type 0
Heeds w drain force i =
    (t : Task) × (get_elem? w.tasks i ≡ some t)
    × (Occurs (heeds i t.cancel_requests) drain ⊎ Occurs (heeds i (t.cancel_requests + 1)) force)

Grows-exists : (t : Task) (a b : Option Task) → Grows a b → a ≡ some t → b ≡ none → ⊥
Grows-exists t none b g e n = cc
Grows-exists t (some u) none g e n = g
Grows-exists t (some u) (some v) g e n = cc

heeds-ended :
    (w : World) (i k : ℕ)
    → k < requests (get_elem? w.tasks i)
    → is_done (happen w (heeds i k)).tasks i ≡ true
unfolding happen
heeds-ended w i k h = elim (Option-cases (get_elem? w.tasks i)) [
  | inl e ↦ absurd (omega (arith, h, ap requests e))
  | inr (t, e) ↦
      let more : k < t.cancel_requests = omega (arith, h, ap requests e) in
      ap ended (update_self (heed k) w.tasks i t e) ∙ ground arith
]

-- A task that is asked often enough and heeds it is done in the end.
meanwhile-heeds :
    (w : World) (es : List Event) (i k : ℕ)
    → k < requests (get_elem? w.tasks i)
    → Occurs (heeds i k) es
    → is_done (meanwhile w es).tasks i ≡ true
unfolding meanwhile
meanwhile-heeds w [] i k h o = absurd o
meanwhile-heeds w (e ∷ es) i k h (inl p) =
    subst (λ f. is_done (meanwhile (happen w f) es).tasks i ≡ true) (sym p)
      (Grows-ended _ _ (meanwhile-Grows (happen w (heeds i k)) es i) (heeds-ended w i k h))
meanwhile-heeds w (e ∷ es) i k h (inr o) =
    meanwhile-heeds (happen w e) es i k (omega (arith, h, meanwhile-requests w (e ∷ []) i)) o

contains-late :
    (ts : List Task) (i : ℕ) (is : List ℕ)
    → is_done ts i ≡ false
    → contains i is ≡ true
    → contains i (pending ts is) ≡ true
contains-late ts i [] d c = cc
contains-late ts i (j ∷ js) d c = elim (ℕ_discrete j i) [
  | yes p ↦ let late : is_done ts j ≡ false = ap (is_done ts) p ∙ d in rw (late, ==-eq j i p) refl
  | no p ↦
      let later = contains-late ts i js d (rw (==-ne j i p) at c) in
      elim (Bool-cases (is_done ts j)) [ inl e ↦ rw e later | inr e ↦ rw (e, ==-ne j i p) later ]
]

-- What `close_all` asks of a registered task, first and, where that is not enough, again.
module _ (w : World) (drain force : List Event) where
  abbrev registered : List ℕ
  registered = tasks_of w.registry

  abbrev cancelled_once : List Task
  cancelled_once = cancel_all w.tasks registered

  abbrev cancelled_twice : List Task
  cancelled_twice = let u = after_drain w drain in cancel_all u.tasks (pending u.tasks registered)

  drained-Grows : (i : ℕ) → Grows (get_elem? w.tasks i) (get_elem? (after_drain w drain).tasks i)
  drained-Grows i =
      Grows-trans (get_elem? w.tasks i) (get_elem? cancelled_once i) _
        (cancel_all-Grows w.tasks registered i) (meanwhile-Grows _ drain i)

  forced-Grows :
      (i : ℕ)
      → Grows
          (get_elem? (after_drain w drain).tasks i)
          (get_elem? (after_force w drain force).tasks i)
  forced-Grows i =
      let u = after_drain w drain in
      Grows-trans (get_elem? u.tasks i) (get_elem? cancelled_twice i) _
        (cancel_all-Grows u.tasks (pending u.tasks registered) i) (meanwhile-Grows _ force i)

  done_stays :
      (i : ℕ)
      → is_done (after_drain w drain).tasks i ≡ true
      → is_done (after_force w drain force).tasks i ≡ true
  done_stays i = Grows-ended _ _ (forced-Grows i)

  -- A task that is not done at the timeout is asked a second time.
  asked_again :
      (i : ℕ) (t : Task)
      → contains i registered ≡ true
      → get_elem? w.tasks i ≡ some t
      → t.finished ≡ false
      → is_done (after_drain w drain).tasks i ≡ false
      → t.cancel_requests + 1 < requests (get_elem? cancelled_twice i)
  asked_again i t c e f d =
      let u = after_drain w drain in
      elim (Option-cases (get_elem? u.tasks i)) [
        | inl n ↦ absurd (Grows-exists t _ _ (drained-Grows i) e n)
        | inr (t', e') ↦ omega (
          arith,
          cancel_all-asks w.tasks registered i t c e f,
          meanwhile-requests
              (record w {
                registry = record (w.registry) { shutting_down = true };
                tasks = cancelled_once;
              })
              drain i,
          ap requests e',
          cancel_all-asks u.tasks (pending u.tasks registered) i t'
              (contains-late u.tasks i registered d c) e' (ap ended (sym e') ∙ d),
        )
      ]

  heeded :
      (i : ℕ)
      → contains i registered ≡ true
      → Heeds w drain force i
      → is_done (after_force w drain force).tasks i ≡ true
  heeded i c (t, e, o) = elim (Bool-cases t.finished) [
    | inl f ↦ done_stays i (Grows-ended _ _ (drained-Grows i) (ap ended e ∙ f))
    | inr f ↦ elim (Bool-cases (is_done (after_drain w drain).tasks i)) [
      | inl d ↦ done_stays i d
      | inr d ↦ elim o [
        | inl first ↦ done_stays i (
            meanwhile-heeds _ drain i t.cancel_requests
              (cancel_all-asks w.tasks registered i t c e f) first)
        | inr second ↦
            meanwhile-heeds _ force i (t.cancel_requests + 1) (asked_again i t c e f d) second
      ]
    ]
  ]

All-contains :
    {Q R : ℕ → Type 0} (is : List ℕ)
    → ((i : ℕ) → contains i is ≡ true → Q i → R i)
    → All Q is
    → All R is
All-contains [] f h = tt
All-contains (j ∷ js) f h = (
  f j (rw (==-eq j j refl) refl) h.0,
  All-contains js
      (λ i c.
        f i (elim (ℕ_discrete j i) [ yes p ↦ rw (==-eq j i p) refl | no p ↦ rw (==-ne j i p) c ]))
      h.1,
)

-- If each registered task heeds the first request to stop that `close_all` makes of it, before the
-- timeout, or the second one that it makes of those that are late, however long after it: `close_all`
-- returns, whatever else other tasks do meanwhile. It returns the number of connections that were
-- registered when it began, their tasks are done, the registry is empty and marked as shutting down.
pub close_all-Heeds :
    (w : World) (drain force : List Event)
    → All (Heeds w drain force) (tasks_of w.registry)
    → (w' : World) × (n : ℕ) × (close_all w drain force ≡ closed w' n)
      × IsClosed w (length w.registry.connections) w' n
close_all-Heeds w drain force h =
    let (w', n, e) =
      close_all-returns w drain force
        (inr (All-contains (tasks_of w.registry) (heeded w drain force) h)) in
    (w', n, e, close_all-IsClosed w drain force e)
