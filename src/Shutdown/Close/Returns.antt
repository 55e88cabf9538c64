-- ===== src/Shutdown/Close/Returns.antt =====
-- What has happened when `close_all` returns, and when it returns.
use fastapi_websockets_produ.Common.{
  ℕ, ◌≡◌, refl, sym, ◌∙◌, subst, ◌⊎◌, inl, inr, true, Bool-cases, List, [], ◌∷◌, length, get_elem?,
  ◌==◌, arith,
}
use fastapi_websockets_produ.Shutdown.Close.{
  World, cancel_all, Event, meanwhile, pending, tasks_of, Closing, closed, gathering, clear,
  gathered, after_wait, close_all,
}
use fastapi_websockets_produ.Shutdown.Close.Effect.{
  AllDone, Grows-trans, cancel_all-Grows, meanwhile-Grows, meanwhile-flag, pending-nil, nil-pending,
  pending-done, done-pending,
}

-- The world when `wait` returns.
abbrev pub after_drain : World → List Event → World
after_drain w drain =
    meanwhile
      (record w {
        registry = record (w.registry) { shutting_down = true };
        tasks = cancel_all w.tasks (tasks_of w.registry);
      })
      drain

-- The world when `gather` returns, if it had to be called.
abbrev pub after_force : World → List Event → List Event → World
after_force w drain force =
    let u = after_drain w drain in
    meanwhile (record u { tasks = cancel_all u.tasks (pending u.tasks (tasks_of w.registry)) })
      force

-- What is so when the call has returned.
pub record IsClosed (w : World) (count : ℕ) (w' : World) (n : ℕ) : Type 0 where
  pub reported : n ≡ count
  pub emptied : w'.registry.connections ≡ []
  pub flagged : w'.registry.shutting_down ≡ true
  pub finished : AllDone w'.tasks (tasks_of w.registry)

abbrev Closes : World → ℕ → Closing → Type 0
Closes w count (closed w' n) = IsClosed w count w' n
Closes w count (gathering w') = Unit

nil_of_length {ℓ} : {A : Type ℓ} (xs : List A) → (length xs == 0) ≡ true → xs ≡ []
nil_of_length [] h = refl
nil_of_length (x ∷ xs) h = absurd (ground arith)

gathered-Closes :
    (w u : World) (is : List ℕ) (count : ℕ) (late : List ℕ)
    → u.registry.shutting_down ≡ true
    → (late ≡ [] → AllDone u.tasks (tasks_of w.registry))
    → Closes w count (gathered u is count late)
unfolding gathered
gathered-Closes w u is count [] f h = record {
  reported = refl;
  emptied = refl;
  flagged = f;
  finished = h refl;
}
gathered-Closes w u is count (i ∷ late) f h = tt

after_wait-Closes :
    (w u : World) (count : ℕ) (force : List Event) (late : List ℕ)
    → late ≡ pending u.tasks (tasks_of w.registry)
    → u.registry.shutting_down ≡ true
    → Closes w count (after_wait u count force late)
unfolding after_wait
after_wait-Closes w u count force [] e f = record {
  reported = refl;
  emptied = refl;
  flagged = f;
  finished = pending-nil u.tasks (tasks_of w.registry) (sym e);
}
after_wait-Closes w u count force (i ∷ late) e f =
    let u1 : World = record u { tasks = cancel_all u.tasks (i ∷ late) } in
    let u2 = meanwhile u1 force in
    gathered-Closes w u2 (i ∷ late) count (pending u2.tasks (i ∷ late))
      (meanwhile-flag u1 force ∙ f)
      (λ empty.
        pending-done u.tasks u2.tasks
          (λ j.
            Grows-trans (get_elem? u.tasks j) (get_elem? u1.tasks j) (get_elem? u2.tasks j)
              (cancel_all-Grows u.tasks (i ∷ late) j) (meanwhile-Grows u1 force j))
          (tasks_of w.registry)
          (subst (AllDone u2.tasks) e (pending-nil u2.tasks (i ∷ late) empty)))

close_all-Closes :
    (w : World) (drain force : List Event)
    → Closes w (length w.registry.connections) (close_all w drain force)
unfolding close_all
close_all-Closes w drain force = elim (Bool-cases (length w.registry.connections == 0)) [
  | inl z ↦
      let e = nil_of_length w.registry.connections z in
      rw (z, Closes)
        (record { reported = ground arith; emptied = e; flagged = refl; finished = rw e tt })
  | inr z ↦
      rw (z, Closes)
        (after_wait-Closes w (after_drain w drain) (length w.registry.connections) force
          (pending (after_drain w drain).tasks (tasks_of w.registry)) refl (meanwhile-flag _ drain))
]

-- If `close_all` returns, whatever other tasks do meanwhile: it returns the number of connections that
-- were registered when it began, every task that was registered then is done, the registry is empty
-- and marked as shutting down.
pub close_all-IsClosed :
    (w : World) (drain force : List Event) {w' : World} {n : ℕ}
    → close_all w drain force ≡ closed w' n
    → IsClosed w (length w.registry.connections) w' n
close_all-IsClosed w drain force e =
    subst (Closes w (length w.registry.connections)) e (close_all-Closes w drain force)

abbrev Returned : Closing → Type 0
Returned r = (w' : World) × (n : ℕ) × (r ≡ closed w' n)

gathered-Returned :
    (u : World) (is : List ℕ) (count : ℕ) (late : List ℕ)
    → late ≡ []
    → Returned (gathered u is count late)
unfolding gathered
gathered-Returned u is count [] e = (clear u, count, refl)
gathered-Returned u is count (i ∷ late) e = absurd (ground arith)

after_wait-Returned :
    (u : World) (count : ℕ) (force : List Event) (late : List ℕ)
    → (late ≡ [])
      ⊎ AllDone (meanwhile (record u { tasks = cancel_all u.tasks late }) force).tasks late
    → Returned (after_wait u count force late)
unfolding after_wait
after_wait-Returned u count force [] h = (clear u, count, refl)
after_wait-Returned u count force (i ∷ late) (inl e) = absurd (ground arith)
after_wait-Returned u count force (i ∷ late) (inr h) =
    let u2 = meanwhile (record u { tasks = cancel_all u.tasks (i ∷ late) }) force in
    gathered-Returned u2 (i ∷ late) count (pending u2.tasks (i ∷ late))
      (nil-pending u2.tasks (i ∷ late) h)

-- `close_all` does return if the registered tasks end: all of them before the timeout, or those that
-- are late after they were cancelled a second time. For the latter there is no time limit.
pub close_all-returns :
    (w : World) (drain force : List Event)
    → AllDone (after_drain w drain).tasks (tasks_of w.registry)
      ⊎ AllDone (after_force w drain force).tasks (tasks_of w.registry)
    → (w' : World) × (n : ℕ) × (close_all w drain force ≡ closed w' n)
unfolding close_all
close_all-returns w drain force h = elim (Bool-cases (length w.registry.connections == 0)) [
  | inl z ↦ rw z (_, 0, refl)
  | inr z ↦ rw z (
      after_wait-Returned (after_drain w drain) (length w.registry.connections) force
        (pending (after_drain w drain).tasks (tasks_of w.registry))
        (elim h [
          | inl d ↦ inl (nil-pending (after_drain w drain).tasks (tasks_of w.registry) d)
          | inr d ↦ inr (
              done-pending (after_drain w drain).tasks (after_force w drain force).tasks
                (tasks_of w.registry) d)
        ]))
]
