-- ===== src/Idempotency/Tests.antt =====
-- Tests of the idempotency layer, and its theorems at concrete data.
use saas_admin.Prelude.{
  ℕ, ◌+◌, ◌≤◌, String, ◌≡◌, refl, true, false, some, List, [], ◌∷◌, arith, ◌==◌, if◌then◌else◌,
}
use saas_admin.Prelude.Table.{select, count}
use saas_admin.Database.{healthy}
use saas_admin.Idempotency.{
  IdempotencyKey, Request, Response, owner, replayed, key_conflict, slot_of, idempotency, finish,
  valid_idempotency_key, first_bytes, max_response,
}
use saas_admin.Idempotency.Once.{is_slot, begin, none_yet, begins, empty_layer, handler_once}
use saas_admin.Idempotency.Replay.{retry_replays}

-- A hash that tells bodies of different length apart.
abbrev sha : List ℕ → String
sha [] = "00"
sha (b ∷ body) = "01"

abbrev post : List ℕ → Request
post body = record {
  is_post = true;
  idempotency_key = "k1";
  body = some body;
  full_path = "/activate";
  url_path = "/activate";
}

abbrev created : Response
created = record { status = some 201; body = 123 ∷ 125 ∷ [] }

line_feed_refused : valid_idempotency_key "a\nb" ≡ false
unfolding valid_idempotency_key
line_feed_refused = refl

-- The table after the first request.
abbrev first_rows : List IdempotencyKey
first_rows = (begin sha healthy 10 (post []) [] empty_layer).rows

handler_once_example :
    count
        (is_slot (slot_of (post [])))
        (begin sha healthy 20
          (post [])
          first_rows
          (begin sha healthy 10 (post []) [] empty_layer)).running
      + count
          (is_slot (slot_of (post [])))
          (begin sha healthy 20
            (post [])
            first_rows
            (begin sha healthy 10 (post []) [] empty_layer)).succeeded
    ≤ 1
handler_once_example = handler_once {sha = sha} (slot_of (post [])) (
    begins healthy 20 (post []) first_rows (λ h. h)
      (begins healthy 10 (post []) [] (λ h. h) none_yet))

-- The table after its handler has ended.
abbrev finished_rows : List IdempotencyKey
finished_rows =
    finish true (slot_of (post [])) created (idempotency sha healthy 10 (post []) [] []).0

retry_replays_example :
    ((idempotency sha healthy 10 (post []) [] []).1 ≡ owner (slot_of (post [])))
    × (idempotency sha healthy 20 (post []) finished_rows finished_rows ≡ (
      finished_rows,
      if sha [] == sha []
          then replayed 201 (first_bytes max_response created.body)
          else key_conflict,
    ))
unfolding valid_idempotency_key select
retry_replays_example =
    retry_replays sha healthy healthy 10 20 (post []) (post []) [] [] created 201 [] []
      finished_rows (refl, refl, refl, refl, omega arith) (refl, refl, refl, refl, omega arith) refl
      refl refl refl (omega arith) refl refl refl

-- A row that vanished between the statements: the handler runs, and no row stands for it.
vanished_row :
    idempotency sha healthy 20 (post []) first_rows [] ≡ (first_rows, owner (slot_of (post [])))
unfolding idempotency valid_idempotency_key select begin
vanished_row = refl
