-- ===== src/Idempotency/Replay.antt =====
-- What a retry of a request is answered with (internal/middleware/idempotency.go).
use mathlib.Core.Path.{subst}
use saas_admin.Prelude.{
  ℕ, ◌≤◌, ◌<◌, String, ◌≡◌, refl, sym, ◌∙◌, Bool, true, false, none, some, List, ◌∷◌, arith, ◌==◌,
  eq_refl, ltb, leb, if◌then◌else◌, length,
}
use saas_admin.Prelude.Table.{select, update}
use saas_admin.Database.{Io}
use saas_admin.Idempotency.{
  IdempotencyKey, Slot, in_slot, fresh_row, idempotency_claim, completed, idempotency_complete,
  Request, Answer, owner, key_conflict, replayed, slot_of, answer_claim, idempotency, Response,
  finish, valid_idempotency_key, max_body, first_bytes, max_response,
}

-- The requests that take part: a POST with a valid key and a readable body within the limit.
abbrev pub TakesPart : Request → List ℕ → Type 0
TakesPart req body =
    (req.is_post ≡ true)
    × ((req.idempotency_key == "") ≡ false)
    × (valid_idempotency_key req.idempotency_key ≡ true)
    × (req.body ≡ some body)
    × (length body ≤ max_body)

answers_claim :
    (sha : List ℕ → String) (io : Io) (now : ℕ) (req : Request) (body : List ℕ)
    (t seen : List IdempotencyKey)
    → TakesPart req body
    → idempotency sha io now req t seen
      ≡ answer_claim (slot_of req) (idempotency_claim io now (slot_of req) (sha body) t seen) t
unfolding idempotency
answers_claim sha io now req body t seen (p, k, v, b, l) =
    let n : ltb max_body (length body) ≡ false = ground (arith, l) in
    rw (p, k, idempotency, v, b, n) refl

in_slot_self : (now : ℕ) (s : Slot) (h : String) → in_slot s (fresh_row now s h) ≡ true
in_slot_self now s h = rw (eq_refl s.key, eq_refl s.endpoint) refl

-- The row that a claim wrote, after the owner has ended with a status below 500.
select-finish :
    (now : ℕ) (s : Slot) (h : String) (response : Response) (status : ℕ) (t : List IdempotencyKey)
    → response.status ≡ some status
    → status < 500
    → select (in_slot s) (finish true s response (fresh_row now s h ∷ t))
      ≡ some (completed status response.body (fresh_row now s h))
unfolding finish idempotency_complete update select
select-finish now s h response status t e l =
    let k : leb 500 status ≡ false = ground (arith, l) in
    rw (e, finish, k, in_slot_self now s h, in_slot_self now s h) refl

first_answer :
    (sha : List ℕ → String) (io : Io) (now : ℕ) (req : Request) (body : List ℕ)
    (t seen : List IdempotencyKey)
    → TakesPart req body
    → io 0 ≡ true
    → select (in_slot (slot_of req)) t ≡ none
    → idempotency sha io now req t seen
      ≡ (fresh_row now (slot_of req) (sha body) ∷ t, owner (slot_of req))
unfolding idempotency_claim answer_claim
first_answer sha io now req body t seen q a n =
    answers_claim sha io now req body t seen q ∙ (rw (a, n, idempotency_claim, answer_claim) refl)

-- The answer where a finished row has the slot.
abbrev second : IdempotencyKey → String → Answer
second row h =
    if row.body_hash == h then replayed row.response_status row.response_body else key_conflict

claim_completed :
    (io : Io) (now : ℕ) (s : Slot) (h : String) (row : IdempotencyKey)
    (t seen : List IdempotencyKey) (b : Bool)
    → io 0 ≡ true
    → io 1 ≡ true
    → select (in_slot s) t ≡ some row
    → select (in_slot s) seen ≡ some row
    → row.response_complete ≡ true
    → (row.body_hash == h) ≡ b
    → answer_claim s (idempotency_claim io now s h t seen) t ≡ (t, second row h)
unfolding idempotency_claim answer_claim
claim_completed io now s h row t seen true a b e v c k =
    rw (a, e, b, idempotency_claim, v, k, answer_claim, c) refl
claim_completed io now s h row t seen false a b e v c k =
    rw (a, e, b, idempotency_claim, v, k, answer_claim) refl

-- A retry of a request whose handler has ended below 500 is answered without the handler, and leaves
-- the table. With the body's hash as before it replays the status and the body of the response, as
-- far as its first 65536 bytes; with another hash it is refused as a conflict. It assumes that both
-- requests take part (a POST with a valid key and a readable body within the limit), that the first found
-- the slot empty, that its INSERT and the UPDATE that completes it run, that both statements of the
-- retry run, and that the row of the slot stays as it is between these two.
pub retry_replays :
    (sha : List ℕ → String) (io io' : Io) (now now' : ℕ) (req req' : Request) (body body' : List ℕ)
    (response : Response) (status : ℕ) (t seen seen' : List IdempotencyKey)
    → TakesPart req body
    → TakesPart req' body'
    → slot_of req' ≡ slot_of req
    → io 0 ≡ true
    → select (in_slot (slot_of req)) t ≡ none
    → response.status ≡ some status
    → status < 500
    → io' 0 ≡ true
    → io' 1 ≡ true
    → select (in_slot (slot_of req)) seen'
      ≡ select
          (in_slot (slot_of req))
          (finish true (slot_of req) response (idempotency sha io now req t seen).0)
    → let first = idempotency sha io now req t seen in
      let t' = finish true (slot_of req) response first.0 in
      (first.1 ≡ owner (slot_of req))
      × (idempotency sha io' now' req' t' seen' ≡ (
        t',
        if sha body == sha body'
            then replayed status (first_bytes max_response response.body)
            else key_conflict,
      ))
retry_replays sha io io' now now' req req' body body' response status t seen seen' q q' same a n e l
      a' b' v =
    let s = slot_of req in
    let first = first_answer sha io now req body t seen q a n in
    let row = completed status response.body (fresh_row now s (sha body)) in
    let t' = finish true s response (fresh_row now s (sha body) ∷ t) in
    let done = select-finish now s (sha body) response status t e l in
    let there : select (in_slot (slot_of req')) t' ≡ some row =
      subst (λ x. select (in_slot x) t' ≡ some row) (sym same) done in
    let there' : select (in_slot (slot_of req')) seen' ≡ some row =
      subst (λ x. select (in_slot x) seen' ≡ some row) (sym same) (v ∙ (rw first done)) in
    rw first (
      refl,
      answers_claim sha io' now' req' body' t' seen' q'
          ∙ claim_completed io' now' (slot_of req') (sha body') row t' seen' _ a' b' there there'
              refl refl,
    )
