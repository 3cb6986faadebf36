-- ===== src/Idempotency/Once.antt =====
-- How often the handler of a slot runs (internal/middleware/idempotency.go), for any interleaving of
-- requests, before a row expires.
use mathlib.Core.Path.{subst}
use saas_admin.Prelude.{
  ℕ, ◌+◌, ◌≤◌, String, ◌≡◌, refl, sym, ◌⊎◌, inl, inr, Bool, true, false, not, ◌&&◌, ◌||◌, Option,
  none, some, List, [], ◌∷◌, arith, ◌==◌, eq_iff, eq_refl, ltb, leb, if◌then◌else◌, Bool-cases,
  Option-cases, length,
}
use saas_admin.Prelude.Table.{
  count-update, count-eq-zero_of_select, count-delete_other, count-delete-le, select, count,
}
use saas_admin.Database.{Io}
use saas_admin.Idempotency.{
  completed, idempotency_complete, idempotency_abandon, IdempotencyKey, Slot, in_slot, fresh_row,
  idempotency_claim, Request, Answer, owner, slot_of, answer_claim, idempotency, Response, finish,
  valid_idempotency_key, max_body,
}

-- The table, the handlers that run as owners of their slots, and those that ended below 500.
pub record Layer : Type 0 where
  pub rows : List IdempotencyKey
  pub running : List Slot
  pub succeeded : List Slot

abbrev pub is_slot : Slot → Slot → Bool
is_slot s r = r.key == s.key && r.endpoint == s.endpoint

abbrev pub starts : Answer → List Slot → List Slot
starts (owner s) running = s ∷ running
starts _ running = running

unfoldable pub drop_one : Slot → List Slot → List Slot
drop_one s [] = []
drop_one s (r ∷ t) = let rest = drop_one s t in if is_slot s r then t else r ∷ rest

-- Whether a response is kept for replay.
abbrev pub kept : Response → Bool
kept response = elim response.status [ none ↦ false | some status ↦ not (leb 500 status) ]

-- The table only shows in `rows` what the INSERT has done; `seen` is what the SELECT sees later.
unfoldable pub begin : (List ℕ → String) → Io → ℕ → Request → List IdempotencyKey → Layer → Layer
begin sha io now req seen w =
    let out = idempotency sha io now req w.rows seen in
    record w { rows = out.0; running = starts out.1 w.running }

unfoldable pub end : Bool → Slot → Response → Layer → Layer
unfolding drop_one
end runs s response w = record {
  rows = finish runs s response w.rows;
  running = drop_one s w.running;
  succeeded = if kept response then s ∷ w.succeeded else w.succeeded;
}

-- A row that the INSERT met is still there for the SELECT, though others may have written it.
abbrev pub Stays : Slot → List IdempotencyKey → List IdempotencyKey → Type 0
Stays s t seen = select (in_slot s) seen ≡ none → select (in_slot s) t ≡ none

-- Requests begin, and running handlers end, in any order; other steps may come between the two
-- statements of a claim, as long as no row vanishes there.
pub data Interleaved (sha : List ℕ → String) (w₀ : Layer) : Layer → Type 0 where
  none_yet : Interleaved sha w₀ w₀
  begins :
      {w : Layer} (io : Io) (now : ℕ) (req : Request) (seen : List IdempotencyKey)
      → Stays (slot_of req) w.rows seen
      → Interleaved sha w₀ w
      → Interleaved sha w₀ (begin sha io now req seen w)
  ends :
      {w : Layer} (runs : Bool) (s : Slot) (response : Response)
      → 1 ≤ count (is_slot s) w.running
      → Interleaved sha w₀ w
      → Interleaved sha w₀ (end runs s response w)

-- For every slot, the handlers that run and those that succeeded are no more than its rows, and it has
-- one row at most.
abbrev pub AtMostOnce : Layer → Type 0
AtMostOnce w =
    (j : Slot)
    → (count (is_slot j) w.running + count (is_slot j) w.succeeded ≤ count (in_slot j) w.rows)
      × (count (in_slot j) w.rows ≤ 1)

same_slots : (s j : Slot) → is_slot j s ≡ true → s ≡ j
same_slots s j h =
    let a = (eq_iff s.key j.key).0 (ground (arith, h)) in
    let b = (eq_iff s.endpoint j.endpoint).0 (ground (arith, h)) in cc

is_slot_self : (s : Slot) → is_slot s s ≡ true
is_slot_self s = rw (eq_refl s.key, eq_refl s.endpoint) refl

-- What the answer says of the table.
abbrev pub Began : List IdempotencyKey → List IdempotencyKey × Answer → Type 0
Began t (t', a) =
    ((t' ≡ t) × ((running : List Slot) → starts a running ≡ running))
    ⊎ ((now : ℕ) × (s : Slot) × (h : String) × (t' ≡ fresh_row now s h ∷ t)
        × (a ≡ owner s)
        × (select (in_slot s) t ≡ none))

Began-claim :
    (io : Io) (now : ℕ) (s : Slot) (h : String) (t seen : List IdempotencyKey)
    (o : Option IdempotencyKey) (b₀ b₁ : Bool)
    → Stays s t seen
    → select (in_slot s) t ≡ o
    → io 0 ≡ b₀
    → io 1 ≡ b₁
    → Began t (answer_claim s (idempotency_claim io now s h t seen) t)
unfolding answer_claim idempotency_claim
Began-claim io now s h t seen o false b₁ y e e₀ e₁ =
    rw (e₀, idempotency_claim, answer_claim) (inl (refl, λ r. refl))
Began-claim io now s h t seen none true b₁ y e e₀ e₁ =
    rw (e₀, e, idempotency_claim, answer_claim) (inr (now, s, h, refl, refl, e))
Began-claim io now s h t seen (some row) true false y e e₀ e₁ =
    rw (e₀, e, e₁, idempotency_claim, answer_claim) (inl (refl, λ r. refl))
Began-claim io now s h t seen (some taken) true true y e e₀ e₁ =
    elim (Option-cases (select (in_slot s) seen)) [
      | inl v ↦ absurd (ground (arith, y v, e))
      | inr (row, v) ↦ elim (Bool-cases (row.body_hash == h)) [
        | inr n ↦ rw (e₀, e, e₁, idempotency_claim, v, n, answer_claim) (inl (refl, λ r. refl))
        | inl n ↦ elim (Bool-cases row.response_complete) [
          | inl k ↦ rw (e₀, e, e₁, idempotency_claim, v, n, answer_claim, k) (inl (refl, λ r. refl))
          | inr k ↦ rw (e₀, e, e₁, idempotency_claim, v, n, answer_claim, k) (inl (refl, λ r. refl))
        ]
      ]
    ]

Began-idempotency :
    (sha : List ℕ → String) (io : Io) (now : ℕ) (req : Request) (t seen : List IdempotencyKey)
    (body : Option (List ℕ)) (b₀ b₁ : Bool)
    → Stays (slot_of req) t seen
    → (not req.is_post || (req.idempotency_key == "")) ≡ b₀
    → valid_idempotency_key req.idempotency_key ≡ b₁
    → req.body ≡ body
    → Began t (idempotency sha io now req t seen)
unfolding idempotency
Began-idempotency sha io now req t seen body true b₁ y e₀ e₁ e =
    rw (e₀, idempotency) (inl (refl, λ r. refl))
Began-idempotency sha io now req t seen body false false y e₀ e₁ e =
    rw (e₀, e₁, idempotency) (inl (refl, λ r. refl))
Began-idempotency sha io now req t seen none false true y e₀ e₁ e =
    rw (e₀, e₁, e, idempotency) (inl (refl, λ r. refl))
Began-idempotency sha io now req t seen (some body) false true y e₀ e₁ e =
    elim (Bool-cases (ltb max_body (length body))) [
      | inl n ↦ rw (e₀, e₁, e, idempotency, n) (inl (refl, λ r. refl))
      | inr n ↦
          rw (e₀, e₁, e, idempotency, n)
            (Began-claim io now (slot_of req) (sha body) t seen _ _ _ y refl refl refl)
    ]

AtMostOnce-begun :
    (w : Layer) (t' : List IdempotencyKey) (a : Answer)
    → Began w.rows (t', a)
    → AtMostOnce w
    → AtMostOnce (record w { rows = t'; running = starts a w.running })
unfolding count
AtMostOnce-begun w t' a (inl b) m j = rw (b.0, b.1 w.running) (m j)
AtMostOnce-begun w t' a (inr (now, s, h, p, q, n)) m j = elim (Bool-cases (is_slot j s)) [
  | inl e ↦
      let z : count (in_slot j) w.rows ≡ 0 =
        subst (λ x. count (in_slot x) w.rows ≡ 0) (same_slots s j e)
          (count-eq-zero_of_select (in_slot s) w.rows n) in
      rw (p, q, e, z) (omega (arith, (m j).0, z), omega arith)
  | inr e ↦ rw (p, q, e) (omega (arith, (m j).0), omega (arith, (m j).1))
]

count-drop_one :
    (s j : Slot) (t : List Slot)
    → 1 ≤ count (is_slot s) t
    → count (is_slot j) (drop_one s t) + (if is_slot j s then 1 else 0) ≡ count (is_slot j) t
unfolding count drop_one
count-drop_one s j [] h = absurd (omega arith)
count-drop_one s j (r ∷ t) h = elim (Bool-cases (is_slot s r)) [
  | inl e ↦ rw (e, sym (same_slots r s e)) (ground arith)
  | inr e ↦ rw e (ground (arith, count-drop_one s j t (ground (arith, h, e))))
]

apart :
    (s j : Slot) (r : IdempotencyKey)
    → is_slot j s ≡ false
    → in_slot s r ≡ true
    → in_slot j r ≡ false
apart s j r n h =
    let a : r.key ≡ s.key = (eq_iff r.key s.key).0 (ground (arith, h)) in
    let b : r.endpoint ≡ s.endpoint = (eq_iff r.endpoint s.endpoint).0 (ground (arith, h)) in
    rw (a, b) n

count-idempotency_abandon_other :
    (runs : Bool) (s j : Slot) (t : List IdempotencyKey)
    → is_slot j s ≡ false
    → count (in_slot j) (idempotency_abandon runs s t) ≡ count (in_slot j) t
unfolding idempotency_abandon
count-idempotency_abandon_other false s j t n = refl
count-idempotency_abandon_other true s j t n =
    count-delete_other (in_slot j) (λ r. in_slot s r && not r.response_complete) t
      (λ r h. apart s j r n (ground (arith, h)))

count-idempotency_abandon_le :
    (runs : Bool) (s j : Slot) (t : List IdempotencyKey)
    → count (in_slot j) (idempotency_abandon runs s t) ≤ count (in_slot j) t
unfolding idempotency_abandon
count-idempotency_abandon_le false s j t = omega arith
count-idempotency_abandon_le true s j t =
    count-delete-le (in_slot j) (λ r. in_slot s r && not r.response_complete) t

count-idempotency_complete :
    (runs : Bool) (s j : Slot) (status : ℕ) (body : List ℕ) (t : List IdempotencyKey)
    → count (in_slot j) (idempotency_complete runs s status body t) ≡ count (in_slot j) t
unfolding idempotency_complete
count-idempotency_complete false s j status body t = refl
count-idempotency_complete true s j status body t =
    count-update (in_slot j) (in_slot s) (completed status body) t (λ r h. refl)

-- What an end leaves of the rows of `j`: as many as before, except that a response that is not kept
-- may take the row of its own slot.
EndedRows-finish :
    (runs : Bool) (s j : Slot) (response : Response) (t : List IdempotencyKey) (o : Option ℕ)
    (b : Bool)
    → response.status ≡ o
    → (elim o [ none ↦ true | some status ↦ leb 500 status ]) ≡ b
    → (count (in_slot j) (finish runs s response t) ≤ count (in_slot j) t)
      × ((kept response ≡ true ⊎ is_slot j s ≡ false)
          → count (in_slot j) (finish runs s response t) ≡ count (in_slot j) t)
unfolding finish
EndedRows-finish runs s j response t none b e k =
    rw (e, finish)
      (
        count-idempotency_abandon_le runs s j t,
        λ h. elim h [ inl x ↦ absurd (cc) | inr x ↦ count-idempotency_abandon_other runs s j t x ],
      )
EndedRows-finish runs s j response t (some status) true e k =
    rw (e, finish, k)
      (
        count-idempotency_abandon_le runs s j t,
        λ h. elim h [ inl x ↦ absurd (cc) | inr x ↦ count-idempotency_abandon_other runs s j t x ],
      )
EndedRows-finish runs s j response t (some status) false e k =
    rw (e, finish, k)
      (
        omega (arith, count-idempotency_complete runs s j status response.body t),
        λ h. count-idempotency_complete runs s j status response.body t,
      )

AtMostOnce-end :
    (runs : Bool) (s : Slot) (response : Response) (w : Layer)
    → 1 ≤ count (is_slot s) w.running
    → AtMostOnce w
    → AtMostOnce (end runs s response w)
unfolding end count
AtMostOnce-end runs s response w h m j =
    let d = count-drop_one s j w.running h in
    let f = EndedRows-finish runs s j response w.rows _ _ refl refl in
    elim (Bool-cases (is_slot j s)) [
      | inr n ↦ elim (Bool-cases (kept response)) [
        | inl k ↦
            rw (end, k, n) (ground (arith, d, n, f.1 (inr n), (m j).0), omega (arith, f.0, (m j).1))
        | inr k ↦
            rw (end, k) (ground (arith, d, n, f.1 (inr n), (m j).0), omega (arith, f.0, (m j).1))
      ]
      | inl n ↦
          let h' : 1 ≤ count (is_slot j) w.running =
            subst (λ x. 1 ≤ count (is_slot x) w.running) (same_slots s j n) h in
          elim (Bool-cases (kept response)) [
            | inl k ↦
                rw (end, k, n)
                  (ground (arith, d, n, f.1 (inl k), (m j).0), omega (arith, f.0, (m j).1))
            | inr k ↦
                rw (end, k)
                  (ground (arith, d, n, h', (m j).0, (m j).1), omega (arith, f.0, (m j).1))
          ]
    ]

AtMostOnce-begin :
    (sha : List ℕ → String) (io : Io) (now : ℕ) (req : Request) (seen : List IdempotencyKey)
    (w : Layer)
    → Stays (slot_of req) w.rows seen
    → AtMostOnce w
    → AtMostOnce (begin sha io now req seen w)
unfolding begin
AtMostOnce-begin sha io now req seen w y m =
    let out = idempotency sha io now req w.rows seen in
    AtMostOnce-begun w out.0 out.1
      (Began-idempotency sha io now req w.rows seen _ _ _ y refl refl refl) m

AtMostOnce-Interleaved :
    {sha : List ℕ → String} {w₀ w : Layer} → Interleaved sha w₀ w → AtMostOnce w₀ → AtMostOnce w
AtMostOnce-Interleaved none_yet m = m
AtMostOnce-Interleaved {sha} (begins {w = v} io now req seen y r) m =
    AtMostOnce-begin sha io now req seen v y (AtMostOnce-Interleaved r m)
AtMostOnce-Interleaved (ends {w = v} runs s response h r) m =
    AtMostOnce-end runs s response v h (AtMostOnce-Interleaved r m)

abbrev pub empty_layer : Layer
empty_layer = record { rows = []; running = []; succeeded = [] }

-- From an empty table, in any interleaving of the INSERT of requests and of the ends of their handlers,
-- and whichever statements fail: for a key on an endpoint at most one handler runs or has ended with a
-- status below 500. It assumes that no row expires meanwhile, and that a row which an INSERT met is
-- still there, though maybe written by others, when the same request's SELECT reads it.
pub handler_once :
    {sha : List ℕ → String} {w : Layer} (j : Slot)
    → Interleaved sha empty_layer w
    → count (is_slot j) w.running + count (is_slot j) w.succeeded ≤ 1
unfolding count
handler_once j r =
    let m = AtMostOnce-Interleaved r (λ i. (omega arith, omega arith)) j in omega (arith, m.0, m.1)
