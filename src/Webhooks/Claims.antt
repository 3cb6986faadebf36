-- ===== src/Webhooks/Claims.antt =====
-- What a run of `ProcessRetries` of internal/service/webhook.go leaves for the next one.
use saas_admin.Prelude.{
  ℕ, zero, suc, ◌≤◌, ◌<◌, String, ◌≡◌, refl, ◌∙◌, inl, inr, Bool, true, false, ◌&&◌, ◌||◌, none,
  some, List, [], ◌∷◌, arith, eq_iff, Bool-cases, Option-cases,
}
use saas_admin.Prelude.Table.{count, update}
use saas_admin.Webhooks.Retries.{process_retry, process_all, process_retries}
use saas_admin.Webhooks.{
  WebhookService, WebhookDelivery, Webhook, RetryCall, failed, is_due, has_id, inflight_hold_off,
  active_webhook, update_webhook_delivery, list_pending_deliveries,
}

-- The rows with that id that a run at that time lists.
abbrev pub due_row : ℕ → String → WebhookDelivery → Bool
due_row later i r = has_id i r && is_due later r

-- The list holds a row with that id.
abbrev pub any_id : String → List WebhookDelivery → Bool
any_id i [] = false
any_id i (d ∷ ds) = has_id i d || any_id i ds

-- A row that is not due is not listed.
any_id-none :
    (later limit : ℕ) (i : String) (t : List WebhookDelivery)
    → count (due_row later i) t ≡ 0
    → any_id i (list_pending_deliveries later limit t) ≡ false
unfolding count list_pending_deliveries
any_id-none later zero i t z = refl
any_id-none later (suc n) i [] z = refl
any_id-none later (suc n) i (d ∷ t) z =
    ground (arith, any_id-none later n i t, any_id-none later (suc n) i t)

count-update-le :
    (later : ℕ) (i : String) (d : WebhookDelivery) (t : List WebhookDelivery)
    → is_due later d ≡ false
    → count (due_row later i) (update (has_id d.id) (λ r. d) t) ≤ count (due_row later i) t
unfolding count update
count-update-le later i d [] h = omega arith
count-update-le later i d (r ∷ t) h = ground (arith, h, count-update-le later i d t h)

count-update-zero :
    (later : ℕ) (i : String) (d : WebhookDelivery) (t : List WebhookDelivery)
    → is_due later d ≡ false
    → d.id ≡ i
    → count (due_row later i) (update (has_id d.id) (λ r. d) t) ≡ 0
unfolding count update
count-update-zero later i d [] h e = refl
count-update-zero later i d (r ∷ t) h e = ground (arith, h, e, count-update-zero later i d t h e)

-- A round writes a row that is not due before the hold-off ends.
process_retry-Written :
    (svc : WebhookService) (call : RetryCall) (hooks : List Webhook) (later : ℕ)
    (d : WebhookDelivery) (t : List WebhookDelivery)
    → call.writes d.id ≡ true
    → later < inflight_hold_off svc call.now
    → (d' : WebhookDelivery) × (d'.id ≡ d.id)
      × (is_due later d' ≡ false)
      × ((process_retry svc call hooks d t).0 ≡ update (has_id d'.id) (λ r. d') t)
unfolding process_retry update_webhook_delivery
process_retry-Written svc call hooks later d t w l =
    elim (Option-cases (active_webhook call d.webhook_id hooks)) [
      | inl e ↦ (
        record d { status = failed; next_retry = none },
        refl,
        refl,
        rw (process_retry, e, update_webhook_delivery, w) refl,
      )
      | inr e ↦ (
        record d { next_retry = some (inflight_hold_off svc call.now) },
        refl,
        ground (arith, l),
        rw (process_retry, e.1, update_webhook_delivery, w) refl,
      )
    ]

process_retry-le :
    (svc : WebhookService) (call : RetryCall) (hooks : List Webhook) (later : ℕ) (i : String)
    (d : WebhookDelivery) (t : List WebhookDelivery)
    → call.writes d.id ≡ true
    → later < inflight_hold_off svc call.now
    → (count (due_row later i) (process_retry svc call hooks d t).0 ≤ count (due_row later i) t)
      × (d.id ≡ i → count (due_row later i) (process_retry svc call hooks d t).0 ≡ 0)
process_retry-le svc call hooks later i d t w l =
    let (d', s, u, e) = process_retry-Written svc call hooks later d t w l in
    rw e (count-update-le later i d' t u, λ k. count-update-zero later i d' t u (s ∙ k))

process_all-le :
    (svc : WebhookService) (call : RetryCall) (hooks : List Webhook) (later : ℕ) (i : String)
    (ds t : List WebhookDelivery)
    → ((id : String) → call.writes id ≡ true)
    → later < inflight_hold_off svc call.now
    → (count (due_row later i) (process_all svc call hooks ds t).0 ≤ count (due_row later i) t)
      × (any_id i ds ≡ true → count (due_row later i) (process_all svc call hooks ds t).0 ≡ 0)
unfolding process_all
process_all-le svc call hooks later i [] t w l = (ground arith, λ h. absurd (ground arith))
process_all-le svc call hooks later i (d ∷ ds) t w l =
    let here = process_retry-le svc call hooks later i d t (w d.id) l in
    let rest = process_all-le svc call hooks later i ds (process_retry svc call hooks d t).0 w l in
    (
      ground (arith, here.0, rest.0),
      λ h. elim (Bool-cases (has_id i d)) [
        | inl e ↦ let z = here.1 ((eq_iff d.id i).0 e) in ground (arith, z, rest.0)
        | inr e ↦ rest.1 (ground (arith, h, e))
      ],
    )

-- When its statements run, a run of the retry loop leaves no delivery that it listed for another run
-- to list before the hold-off of its attempt ends, whether it handed the delivery to a sender or
-- failed it.
pub process_retries_claim :
    (svc : WebhookService) (call : RetryCall) (hooks : List Webhook) (later : ℕ) (i : String)
    (t : List WebhookDelivery)
    → call.lists ≡ true
    → ((id : String) → call.writes id ≡ true)
    → later < inflight_hold_off svc call.now
    → any_id i (list_pending_deliveries call.now 50 t) ≡ true
    → any_id i (list_pending_deliveries later 50 (process_retries svc call hooks t).0) ≡ false
unfolding process_retries
process_retries_claim svc call hooks later i t f w l h =
    rw (f, process_retries)
      (any_id-none later 50 i _
        ((process_all-le svc call hooks later i (list_pending_deliveries call.now 50 t) t w l).1 h))
