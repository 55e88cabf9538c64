-- ===== src/Fault/Detector/Sweep.antt =====
-- What a sweep of the detector does.
use fastapi_websockets_produ.Common.{
  ℕ, ◌+◌, ◌≡◌, ◌≢◌, refl, sym, ◌∙◌, ap, Bool, Bool-cases, Option, none, some, List, [], ◌∷◌,
  get_elem?, filter, ltb, not, arith, inl, inr, ◌⊎◌, if_pos, if_neg,
}
use fastapi_websockets_produ.Common.Dict.{IsDict, get-pop_self}
use fastapi_websockets_produ.Common.Dict.Values.{Entries}
use fastapi_websockets_produ.Common.Dict
use fastapi_websockets_produ.Common.Text.{Str, str_discrete}
use fastapi_websockets_produ.Asyncio.{Outcome, returned, raised}
use fastapi_websockets_produ.Fault.Detector.{
  ConnectionHealth, Clients, is_dead, exceeds, find_dead, untrack, untrack_of, untrack_at,
  sweep_each, sweep, idle_seconds, record_send, record_receive, record_error,
}

-- Each tracked object exists and stands under its own id.
abbrev pub Named : List ConnectionHealth → Str → ℕ → Type 0
Named healths k i = (h : ConnectionHealth) × (get_elem? healths i ≡ some h) × (h.connection_id ≡ k)

-- The entries whose object passes the test.
abbrev pub entries_by : (ℕ → Bool) → List (Str × ℕ) → List (Str × ℕ)
entries_by p = filter (λ e. p e.1)

pops : List (Str × ℕ) → List (Str × ℕ) → List (Str × ℕ)
pops [] d = d
pops (e ∷ es) d = pops es (Dict.pop e.0 d)

values-entries_by :
    (p : ℕ → Bool) (d : List (Str × ℕ)) → filter p (Dict.values d) ≡ Dict.values (entries_by p d)
values-entries_by p [] = refl
values-entries_by p ((k, i) ∷ d) = elim (Bool-cases (p i)) [
  | inl t ↦ rw t (ap (λ xs. i ∷ xs) (values-entries_by p d))
  | inr f ↦ rw f (values-entries_by p d)
]

pop_head : (k : Str) (i : ℕ) (d : List (Str × ℕ)) → Dict.pop k ((k, i) ∷ d) ≡ d
unfolding Dict.pop
pop_head k i d = if_pos (str_discrete k k) refl d ((k, i) ∷ Dict.pop k d)

pop_other :
    (j k : Str) (i : ℕ) (d : List (Str × ℕ))
    → k ≢ j
    → Dict.pop j ((k, i) ∷ d) ≡ (k, i) ∷ Dict.pop j d
unfolding Dict.pop
pop_other j k i d n = if_neg (str_discrete k j) n d ((k, i) ∷ Dict.pop j d)

pops-skip :
    (k : Str) (i : ℕ) (p : ℕ → Bool) (rest d : List (Str × ℕ))
    → Dict.get k rest ≡ none
    → pops (entries_by p rest) ((k, i) ∷ d) ≡ (k, i) ∷ pops (entries_by p rest) d
unfolding pops Dict.get
pops-skip k i p [] d h = refl
pops-skip k i p ((j, x) ∷ rest) d h = elim (str_discrete j k) [
  | yes e ↦ absurd (ground (arith, if_pos (str_discrete j k) e (some x) (Dict.get k rest)))
  | no e ↦
      let h' : Dict.get k rest ≡ none =
        sym (if_neg (str_discrete j k) e (some x) (Dict.get k rest)) ∙ h in
      elim (Bool-cases (p x)) [
        | inl t ↦ rw t (
            ap (pops (entries_by p rest)) (pop_other j k i d (λ q. e (sym q)))
            ∙ pops-skip k i p rest (Dict.pop j d) h')
        | inr f ↦ rw f (pops-skip k i p rest d h')
      ]
]

pops-entries_by :
    (p : ℕ → Bool) (d : List (Str × ℕ))
    → IsDict d
    → pops (entries_by p d) d ≡ entries_by (λ i. not (p i)) d
unfolding pops
pops-entries_by p [] h = refl
pops-entries_by p ((k, i) ∷ d) h = elim (Bool-cases (p i)) [
  | inl t ↦ rw t (ap (pops (entries_by p d)) (pop_head k i d) ∙ pops-entries_by p d h.1)
  | inr f ↦ rw f (pops-skip k i p d d h.0 ∙ ap (λ xs. (k, i) ∷ xs) (pops-entries_by p d h.1))
]

module _ {ℓ} {W : Type ℓ} where
  -- The world after `notify` for each of the objects, in order.
  abbrev pub notify_all : (ℕ → W → W) → List ℕ → W → W
  notify_all notify [] w = w
  notify_all notify (i ∷ is) w = notify_all notify is (notify i w)

  -- The callback acts on the world alone, by `notify`, and is not cancelled; it may raise.
  abbrev pub Notifies : (ℕ → Clients W → Clients W × Outcome) → (ℕ → W → W) → Type ℓ
  Notifies on_dead notify =
      (i : ℕ) (c : Clients W)
      → ((on_dead i c).0 ≡ record c { world = notify i c.world })
        × (((on_dead i c).1 ≡ returned) ⊎ ((on_dead i c).1 ≡ raised))

  -- The detector's connections and the world are these, and all else is as it was.
  abbrev with_connections : Clients W → List (Str × ℕ) → W → Clients W
  with_connections c d w = record {
    detector = record (c.detector) { connections = d };
    healths = c.healths;
    world = w;
  }

  untrack_at-Named :
      (c : Clients W) (k : Str) (i : ℕ)
      → Named c.healths k i
      → untrack_at c i ≡ with_connections c (Dict.pop k c.detector.connections) c.world
  unfolding untrack_at untrack
  untrack_at-Named c k i (h, e, n) =
      ap (untrack_of c) e
      ∙ ap (λ x. with_connections c (Dict.pop x c.detector.connections) c.world) n

module _ {ℓ} {W : Type ℓ} (on_dead : ℕ → Clients W → Clients W × Outcome) where
  sweep_each-go :
      (i : ℕ) (is : List ℕ) (c : Clients W)
      → ((on_dead i c).1 ≡ returned) ⊎ ((on_dead i c).1 ≡ raised)
      → sweep_each on_dead (i ∷ is) c ≡ sweep_each on_dead is (untrack_at (on_dead i c).0 i)
  unfolding sweep_each
  sweep_each-go i is c (inl a) = rw (a, sweep_each) refl
  sweep_each-go i is c (inr a) = rw (a, sweep_each) refl

module _ {ℓ} {W : Type ℓ} (on_dead : ℕ → Clients W → Clients W × Outcome) (notify : ℕ → W → W) where
  sweep_each-pops :
      (es : List (Str × ℕ)) (c : Clients W)
      → Notifies on_dead notify
      → Entries (Named c.healths) es
      → sweep_each on_dead (Dict.values es) c ≡ (
        with_connections c
            (pops es c.detector.connections)
            (notify_all notify (Dict.values es) c.world),
        returned,
      )
  unfolding sweep_each pops
  sweep_each-pops [] c m h = refl
  sweep_each-pops ((k, i) ∷ es) c m h =
      let (same, ends) = m i c in
      sweep_each-go on_dead i (Dict.values es) c ends
      ∙ ap (λ x. sweep_each on_dead (Dict.values es) (untrack_at x i)) same
      ∙ ap (sweep_each on_dead (Dict.values es))
          (untrack_at-Named (record c { world = notify i c.world }) k i h.0)
      ∙ sweep_each-pops es
          (with_connections c (Dict.pop k c.detector.connections) (notify i c.world)) m h.1

  Entries-entries_by :
      (healths : List ConnectionHealth) (p : ℕ → Bool) (d : List (Str × ℕ))
      → Entries (Named healths) d
      → Entries (Named healths) (entries_by p d)
  Entries-entries_by healths p [] h = tt
  Entries-entries_by healths p ((k, i) ∷ d) h = elim (Bool-cases (p i)) [
    | inl t ↦ rw t (h.0, Entries-entries_by healths p d h.1)
    | inr f ↦ rw f (Entries-entries_by healths p d h.1)
  ]

  -- A sweep whose callback acts on the outside world alone, and may raise: it calls `on_dead` once
  -- for each tracked client that has been idle for longer than the threshold, in the order of
  -- tracking; these are untracked, the others stay tracked in their order, and the sweep does not
  -- fail.
  pub sweep_lem :
      (c : Clients W) (now : ℕ)
      → Notifies on_dead notify
      → IsDict c.detector.connections
      → Entries (Named c.healths) c.detector.connections
      → let (c', outcome) = sweep on_dead c now in
        let dead = is_dead c.detector.idle_threshold c.healths now in
        (c'.detector.connections ≡ entries_by (λ i. not (dead i)) c.detector.connections)
        × (c'.world ≡ notify_all notify (filter dead (Dict.values c.detector.connections)) c.world)
        × (c'.healths ≡ c.healths)
        × (outcome ≡ returned)
  unfolding sweep find_dead
  sweep_lem c now m d h =
      let p = is_dead c.detector.idle_threshold c.healths now in
      let t = c.detector.connections in
      let e : sweep on_dead c now ≡ (
        with_connections c (pops (entries_by p t) t)
            (notify_all notify (Dict.values (entries_by p t)) c.world),
        returned,
      ) =
        ap (λ xs. sweep_each on_dead xs c) (values-entries_by p t)
        ∙ sweep_each-pops (entries_by p t) c m (Entries-entries_by c.healths p t h) in
      (
        ap (λ r. r.0.detector.connections) e ∙ pops-entries_by p t d,
        ap (λ r. r.0.world) e
            ∙ ap (λ xs. notify_all notify xs c.world) (sym (values-entries_by p t)),
        ap (λ r. r.0.healths) e,
        ap (λ r. r.1) e,
      )

-- A message sent or received at `at` keeps its client from being found dead for the threshold from
-- then on, and no longer; an error leaves the client's idle time as it was.
exceeds-record_send :
    (h : ConnectionHealth) (threshold at now : ℕ)
    → (exceeds threshold now (some (record_send h at)) ≡ ltb (at + threshold) now)
      × (exceeds threshold now (some (record_receive h at)) ≡ ltb (at + threshold) now)
      × (exceeds threshold now (some (record_error h)) ≡ exceeds threshold now (some h))
unfolding idle_seconds record_send record_receive record_error
exceeds-record_send h threshold at now = (ground arith, ground arith, refl)

module _ {ℓ} {W : Type ℓ} (on_dead : ℕ → Clients W → Clients W × Outcome) where
  untrack_of-get :
      (c : Clients W) (o : Option ConnectionHealth) (h : ConnectionHealth)
      → IsDict c.detector.connections
      → o ≡ some h
      → Dict.get h.connection_id (untrack_of c o).detector.connections ≡ none
  unfolding untrack
  untrack_of-get c o h d e = rw e (get-pop_self h.connection_id c.detector.connections d)

  -- When the callback for a client has ended without being cancelled, the id of that client is not
  -- tracked any more, also if the callback or another task tracked it anew meanwhile.
  pub sweep_each-get :
      (i : ℕ) (c : Clients W) (h : ConnectionHealth)
      → ((on_dead i c).1 ≡ returned) ⊎ ((on_dead i c).1 ≡ raised)
      → get_elem? (on_dead i c).0.healths i ≡ some h
      → IsDict (on_dead i c).0.detector.connections
      → Dict.get h.connection_id (sweep_each on_dead (i ∷ []) c).0.detector.connections ≡ none
  unfolding sweep_each untrack_at
  sweep_each-get i c h o e d =
      ap (λ r. Dict.get h.connection_id r.0.detector.connections) (sweep_each-go on_dead i [] c o)
      ∙ untrack_of-get (on_dead i c).0 (get_elem? (on_dead i c).0.healths i) h d e
