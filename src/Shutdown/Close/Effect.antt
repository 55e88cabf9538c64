-- ===== src/Shutdown/Close/Effect.antt =====
-- How tasks change while `close_all` runs: once done they stay done, and requests only add up.
use native.Mathlib.Decide.{ℕ_discrete}
use fastapi_websockets_produ.Common.{
  ℕ, ◌≤◌, ◌≡◌, ◌≢◌, refl, sym, subst, ◌⊎◌, inl, inr, true, false, Bool-cases, Option, none, some,
  Option-cases, List, [], ◌∷◌, ◌++◌, get_elem?, arith, All, get_elem?-set_self, get_elem?-set_ne,
  get_elem?_lt, get_elem?-append,
}
use fastapi_websockets_produ.Shutdown.Registry.{register, deregister}
use fastapi_websockets_produ.Shutdown.Close.{
  Task, World, cancel, update, cancel_at, cancel_all, Event, joins, leaves, starts, ends, heeds,
  finish, heed, happen, meanwhile, ended, is_done, pending,
}

abbrev pub requests : Option Task → ℕ
requests none = 0
requests (some t) = t.cancel_requests

-- A task over time: once done it stays done, and it only collects requests.
abbrev pub Grows : Option Task → Option Task → Type 0
Grows none o = Unit
Grows (some t) none = ⊥
Grows (some t) (some t') =
    ((t.finished ≡ false) ⊎ (t'.finished ≡ true)) × (t.cancel_requests ≤ t'.cancel_requests)

pub Grows-refl : (o : Option Task) → Grows o o
Grows-refl none = tt
Grows-refl (some t) = ground (arith, Bool-cases t.finished)

pub Grows-trans : (a b c : Option Task) → Grows a b → Grows b c → Grows a c
Grows-trans none b c h k = tt
Grows-trans (some t) none c h k = absurd h
Grows-trans (some t) (some u) none h k = absurd k
Grows-trans (some t) (some u) (some v) h k = ground arith

pub Grows-ended : (a b : Option Task) → Grows a b → ended a ≡ true → ended b ≡ true
Grows-ended none b h e = cc
Grows-ended (some t) none h e = absurd h
Grows-ended (some t) (some u) h e = ground arith

pub cancel-Grows : (t : Task) → Grows (some t) (some (cancel t))
unfolding cancel
cancel-Grows t = ground (arith, Bool-cases t.finished)

pub update_self :
    (f : Task → Task) (ts : List Task) (i : ℕ) (t : Task)
    → get_elem? ts i ≡ some t
    → get_elem? (update f (get_elem? ts i) ts i) i ≡ some (f t)
update_self f ts i t e = rw (e, update) (get_elem?-set_self ts i (f t) (get_elem?_lt ts i t e))

pub update_ne :
    (f : Task → Task) (ts : List Task) (i j : ℕ)
    → i ≢ j
    → get_elem? (update f (get_elem? ts i) ts i) j ≡ get_elem? ts j
update_ne f ts i j ne = elim (Option-cases (get_elem? ts i)) [
  | inl e ↦ rw (e, update)
  | inr (t, e) ↦ rw (e, update) (get_elem?-set_ne ts i j (f t) ne)
]

pub update-Grows :
    (f : Task → Task)
    → ((t : Task) → Grows (some t) (some (f t)))
    → (ts : List Task) (i j : ℕ)
    → Grows (get_elem? ts j) (get_elem? (update f (get_elem? ts i) ts i) j)
update-Grows f h ts i j = elim (ℕ_discrete i j) [
  | yes p ↦ elim (Option-cases (get_elem? ts j)) [
    | inl e ↦ rw e tt
    | inr (t, e) ↦
        subst (λ k. Grows (get_elem? ts j) (get_elem? (update f (get_elem? ts k) ts k) j)) (sym p)
          (subst (λ o. Grows (get_elem? ts j) o) (sym (update_self f ts j t e)) (rw e (h t)))
  ]
  | no p ↦
      subst (λ o. Grows (get_elem? ts j) o) (sym (update_ne f ts i j p))
        (Grows-refl (get_elem? ts j))
]

pub cancel_all-Grows :
    (ts : List Task) (is : List ℕ) (j : ℕ) → Grows (get_elem? ts j) (get_elem? (cancel_all ts is) j)
unfolding cancel_all cancel_at
cancel_all-Grows ts [] j = Grows-refl (get_elem? ts j)
cancel_all-Grows ts (i ∷ is) j =
    let ts' = update cancel (get_elem? ts i) ts i in
    Grows-trans (get_elem? ts j) (get_elem? ts' j) (get_elem? (cancel_all ts' is) j)
      (update-Grows cancel cancel-Grows ts i j) (cancel_all-Grows ts' is j)

append-Grows :
    (ts : List Task) (t : Task) (j : ℕ) → Grows (get_elem? ts j) (get_elem? (ts ++ t ∷ []) j)
append-Grows ts t j = elim (Option-cases (get_elem? ts j)) [
  | inl e ↦ rw e tt
  | inr (u, e) ↦ rw (e, get_elem?-append ts (t ∷ []) j u e) (Grows-refl (some u))
]

heed-Grows : (k : ℕ) (t : Task) → Grows (some t) (some (heed k t))
heed-Grows k t = ground (arith, Bool-cases t.finished)

pub happen-Grows :
    (w : World) (e : Event) (j : ℕ) → Grows (get_elem? w.tasks j) (get_elem? (happen w e).tasks j)
unfolding happen
happen-Grows w (joins info) j = Grows-refl (get_elem? w.tasks j)
happen-Grows w (leaves cid) j = Grows-refl (get_elem? w.tasks j)
happen-Grows w starts j = append-Grows w.tasks _ j
happen-Grows w (ends i) j = update-Grows finish (λ t. (inr refl, omega arith)) w.tasks i j
happen-Grows w (heeds i k) j = update-Grows (heed k) (heed-Grows k) w.tasks i j

pub meanwhile-Grows :
    (w : World) (es : List Event) (j : ℕ)
    → Grows (get_elem? w.tasks j) (get_elem? (meanwhile w es).tasks j)
unfolding meanwhile
meanwhile-Grows w [] j = Grows-refl (get_elem? w.tasks j)
meanwhile-Grows w (e ∷ es) j =
    Grows-trans (get_elem? w.tasks j) (get_elem? (happen w e).tasks j)
      (get_elem? (meanwhile (happen w e) es).tasks j) (happen-Grows w e j)
      (meanwhile-Grows (happen w e) es j)

pub meanwhile-flag :
    (w : World) (es : List Event)
    → (meanwhile w es).registry.shutting_down ≡ w.registry.shutting_down
unfolding meanwhile happen register deregister
meanwhile-flag w [] = refl
meanwhile-flag w (joins info ∷ es) = meanwhile-flag (happen w (joins info)) es
meanwhile-flag w (leaves cid ∷ es) = meanwhile-flag (happen w (leaves cid)) es
meanwhile-flag w (starts ∷ es) = meanwhile-flag (happen w starts) es
meanwhile-flag w (ends i ∷ es) = meanwhile-flag (happen w (ends i)) es
meanwhile-flag w (heeds i k ∷ es) = meanwhile-flag (happen w (heeds i k)) es

-- The tasks of a list are all done.
abbrev pub AllDone : List Task → List ℕ → Type 0
AllDone ts = All (λ i. is_done ts i ≡ true)

pub pending-nil : (ts : List Task) (is : List ℕ) → pending ts is ≡ [] → AllDone ts is
pending-nil ts [] e = tt
pending-nil ts (i ∷ is) e = elim (Bool-cases (is_done ts i)) [
  | inl d ↦ (d, pending-nil ts is (ground arith))
  | inr d ↦ absurd (ground arith)
]

pub nil-pending : (ts : List Task) (is : List ℕ) → AllDone ts is → pending ts is ≡ []
nil-pending ts [] h = refl
nil-pending ts (i ∷ is) h = rw h.0 (nil-pending ts is h.1)

pub pending-done :
    (ts ts' : List Task)
    → ((j : ℕ) → Grows (get_elem? ts j) (get_elem? ts' j))
    → (is : List ℕ) → AllDone ts' (pending ts is)
    → AllDone ts' is
pending-done ts ts' g [] h = tt
pending-done ts ts' g (i ∷ is) h = elim (Bool-cases (is_done ts i)) [
  | inl d ↦
      (Grows-ended (get_elem? ts i) (get_elem? ts' i) (g i) d, pending-done ts ts' g is (rw d at h))
  | inr d ↦ let k = rw d at h in (k.0, pending-done ts ts' g is k.1)
]

pub done-pending : (ts ts' : List Task) (is : List ℕ) → AllDone ts' is → AllDone ts' (pending ts is)
done-pending ts ts' [] h = tt
done-pending ts ts' (i ∷ is) h = elim (Bool-cases (is_done ts i)) [
  | inl d ↦ rw d (done-pending ts ts' is h.1)
  | inr d ↦ rw d (h.0, done-pending ts ts' is h.1)
]
