-- ===== src/Shutdown/Close/Requests.antt =====
-- `close_all` asks no task to stop that was not registered when it began.
use native.Mathlib.Decide.{ℕ_discrete}
use Prim.Native.Nat.{zero}
use fastapi_websockets_produ.Common.{
  ℕ, suc, ◌≡◌, refl, sym, ◌∙◌, ap, subst, inl, inr, Bool, true, false, Bool-cases, Option-cases,
  List, [], ◌∷◌, ◌++◌, length, get_elem?, ◌==◌, if◌then◌else◌, arith, ==-eq, ==-ne,
}
use fastapi_websockets_produ.Shutdown.Close.{
  Task, World, cancel, cancel_at, cancel_all, update, finish, heed, heeds, Event, joins, leaves,
  starts, ends, happen, meanwhile, pending, tasks_of, Closing, closed, gathering, gathered,
  after_wait, close_all,
}
use fastapi_websockets_produ.Shutdown.Close.Returns.{close_all-IsClosed}
use fastapi_websockets_produ.Shutdown.Close.Effect.{requests, update_self, update_ne}

-- `i in is`
abbrev pub contains : ℕ → List ℕ → Bool
contains i [] = false
contains i (j ∷ js) = if j == i then true else contains i js

pub contains-pending :
    (ts : List Task) (i : ℕ) (is : List ℕ)
    → contains i is ≡ false
    → contains i (pending ts is) ≡ false
contains-pending ts i [] h = refl
contains-pending ts i (j ∷ js) h = ground (arith, contains-pending ts i js)

pub cancel_all-others :
    (ts : List Task) (is : List ℕ) (i : ℕ)
    → contains i is ≡ false
    → get_elem? (cancel_all ts is) i ≡ get_elem? ts i
unfolding cancel_all cancel_at
cancel_all-others ts [] i h = refl
cancel_all-others ts (j ∷ js) i h = elim (ℕ_discrete j i) [
  | yes p ↦ absurd (ground (arith, ==-eq j i p))
  | no p ↦
      cancel_all-others (update cancel (get_elem? ts j) ts j) js i (rw (==-ne j i p) at h)
      ∙ update_ne cancel ts j i p
]

append-requests :
    (ts : List Task) (t : Task) (i : ℕ)
    → t.cancel_requests ≡ 0
    → requests (get_elem? (ts ++ t ∷ []) i) ≡ requests (get_elem? ts i)
append-requests [] t zero e = e
append-requests [] t (suc i) e = refl
append-requests (u ∷ ts) t zero e = refl
append-requests (u ∷ ts) t (suc i) e = append-requests ts t i e

update-requests :
    (f : Task → Task)
    → ((t : Task) → (f t).cancel_requests ≡ t.cancel_requests)
    → (ts : List Task) (j i : ℕ)
    → requests (get_elem? (update f (get_elem? ts j) ts j) i) ≡ requests (get_elem? ts i)
update-requests f same ts j i = elim (ℕ_discrete j i) [
  | yes p ↦ elim (Option-cases (get_elem? ts i)) [
    | inl e ↦
        subst
          (λ k. requests (get_elem? (update f (get_elem? ts k) ts k) i) ≡ requests (get_elem? ts i))
          (sym p) (rw (e, update) (rw e))
    | inr (t, e) ↦
        subst
          (λ k. requests (get_elem? (update f (get_elem? ts k) ts k) i) ≡ requests (get_elem? ts i))
          (sym p) (ap requests (update_self f ts i t e) ∙ same t ∙ sym (ap requests e))
  ]
  | no p ↦ ap requests (update_ne f ts j i p)
]

heed-requests : (k : ℕ) (t : Task) → (heed k t).cancel_requests ≡ t.cancel_requests
heed-requests k t = ground arith

-- Other tasks cancel nobody.
pub meanwhile-requests :
    (w : World) (es : List Event) (i : ℕ)
    → requests (get_elem? (meanwhile w es).tasks i) ≡ requests (get_elem? w.tasks i)
unfolding meanwhile happen
meanwhile-requests w [] i = refl
meanwhile-requests w (joins info ∷ es) i = meanwhile-requests (happen w (joins info)) es i
meanwhile-requests w (leaves cid ∷ es) i = meanwhile-requests (happen w (leaves cid)) es i
meanwhile-requests w (starts ∷ es) i =
    meanwhile-requests (happen w starts) es i ∙ append-requests w.tasks _ i refl
meanwhile-requests w (ends j ∷ es) i =
    meanwhile-requests (happen w (ends j)) es i ∙ update-requests finish (λ t. refl) w.tasks j i
meanwhile-requests w (heeds j k ∷ es) i =
    meanwhile-requests (happen w (heeds j k)) es i
    ∙ update-requests (heed k) (heed-requests k) w.tasks j i

abbrev Leaves : ℕ → ℕ → Closing → Type 0
Leaves i k (closed w' n) = requests (get_elem? w'.tasks i) ≡ k
Leaves i k (gathering w') = requests (get_elem? w'.tasks i) ≡ k

gathered-Leaves :
    (i k : ℕ) (u : World) (is : List ℕ) (count : ℕ) (late : List ℕ)
    → requests (get_elem? u.tasks i) ≡ k
    → Leaves i k (gathered u is count late)
unfolding gathered
gathered-Leaves i k u is count [] h = h
gathered-Leaves i k u is count (j ∷ late) h = h

after_wait-Leaves :
    (i k : ℕ) (u : World) (count : ℕ) (force : List Event) (late : List ℕ)
    → contains i late ≡ false
    → requests (get_elem? u.tasks i) ≡ k
    → Leaves i k (after_wait u count force late)
unfolding after_wait
after_wait-Leaves i k u count force [] c h = h
after_wait-Leaves i k u count force (j ∷ late) c h =
    let u1 : World = record u { tasks = cancel_all u.tasks (j ∷ late) } in
    let u2 = meanwhile u1 force in
    gathered-Leaves i k u2 (j ∷ late) count (pending u2.tasks (j ∷ late))
      (meanwhile-requests u1 force i ∙ ap requests (cancel_all-others u.tasks (j ∷ late) i c) ∙ h)

close_all-Leaves :
    (w : World) (drain force : List Event) (i : ℕ)
    → contains i (tasks_of w.registry) ≡ false
    → Leaves i (requests (get_elem? w.tasks i)) (close_all w drain force)
unfolding close_all
close_all-Leaves w drain force i c =
    let is = tasks_of w.registry in
    let u1 : World = record w {
      registry = record (w.registry) { shutting_down = true };
      tasks = cancel_all w.tasks is;
    } in
    let u = meanwhile u1 drain in
    elim (Bool-cases (length w.registry.connections == 0)) [
      | inl z ↦ rw (z, Leaves)
      | inr z ↦
          rw (z, Leaves)
            (after_wait-Leaves i (requests (get_elem? w.tasks i)) u (length w.registry.connections)
              force (pending u.tasks is) (contains-pending u.tasks i is c)
              (meanwhile-requests u1 drain i ∙ ap requests (cancel_all-others w.tasks is i c)))
    ]

-- `close_all` asks no task to stop that was not registered when it began: a connection that registers
-- while it waits is not asked, though its registration is gone afterwards.
pub close_all-spares :
    (w : World) (drain force : List Event) (i : ℕ) {w' : World} {n : ℕ}
    → contains i (tasks_of w.registry) ≡ false
    → close_all w drain force ≡ closed w' n
    → (requests (get_elem? w'.tasks i) ≡ requests (get_elem? w.tasks i))
      × (w'.registry.connections ≡ [])
close_all-spares w drain force i c e = (
  subst (Leaves i (requests (get_elem? w.tasks i))) e (close_all-Leaves w drain force i c),
  (close_all-IsClosed w drain force e).emptied,
)
