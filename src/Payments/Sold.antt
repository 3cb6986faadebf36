-- ===== src/Payments/Sold.antt =====
-- What a paid checkout session gives (internal/payment/stripe.go, `fulfillCheckout`).
use saas_admin.Prelude.{
  ℕ, String, ◌≡◌, refl, ◌⊎◌, inl, inr, Bool, true, false, ◌&&◌, Option, none, some, List, ◌∷◌,
  arith, ◌==◌, eq_refl, if◌then◌else◌, Bool-cases,
}
use saas_admin.Prelude.Table.{select}
use saas_admin.Database.{Io, healthy}
use saas_admin.Events.Lifecycle.{taken_afresh}
use saas_admin.Model.{Plan, License}
use saas_admin.Events.{
  recorded, has_processed_event, Reserved, taken, finished, midway, reserve_failed,
}
use saas_admin.Payments.{BillingState}
use saas_admin.Payments.Checkout.{
  CheckoutSession, CheckoutCall, has_license, session_fulfilled, find_plan, find_email, new_license,
  Fulfilled, fulfilled, answered, insert_license, delivered,
}
use saas_admin.Payments.Fulfil.{
  subscription_free, create_license, claim_session, claim_and_create, when_claimed, fulfill_new,
  fulfill_checkout,
}

-- There is a license of the session, or the record of an older program that fulfilled it.
abbrev pub Served : String → BillingState → Type 0
Served id w =
    (has_license id w.licenses ≡ true)
    ⊎ ((recorded "stripe_fulfill" id w.processed ≡ true)
        × (recorded "stripe_fulfill_claim" id w.processed ≡ false))

-- The licenses stay, or the first license of the session is added and the session is fulfilled.
abbrev pub Sale : String → List License → List License → Fulfilled → Type 0
Sale id t t' f =
    (t' ≡ t)
    ⊎ ((lic : License) × (lic.stripe_checkout_session_id ≡ id)
        × (has_license id t ≡ false)
        × (f ≡ fulfilled)
        × (t' ≡ lic ∷ t))

abbrev pub Sold : String → List License → BillingState × Fulfilled → Type 0
Sold id t out = (out.1 ≡ fulfilled → Served id out.0) × Sale id t out.0.licenses out.1

Served-session_fulfilled :
    (io : Io) (n : ℕ) (id : String) (w : BillingState)
    → session_fulfilled io n id w ≡ some true
    → Served id w
unfolding session_fulfilled has_processed_event
Served-session_fulfilled io n id w h = elim (Bool-cases (has_license id w.licenses)) [
  | inl e ↦ inl e
  | inr e ↦ inr (ground (arith, h, e), ground (arith, h, e))
]

-- A caller that does not create the license.
Sold-answered :
    (io : Io) (n : ℕ) (id : String) (w : BillingState) (t : List License) (a : Option Bool)
    → session_fulfilled io n id w ≡ a
    → w.licenses ≡ t
    → Sold id t (w, answered a)
Sold-answered io n id w t none e q = (λ h. absurd (cc), inl q)
Sold-answered io n id w t (some false) e q = (λ h. absurd (cc), inl q)
Sold-answered io n id w t (some true) e q = (λ h. Served-session_fulfilled io n id w e, inl q)

delivered-licenses :
    (call : CheckoutCall) (lic : License) (w : BillingState)
    → (delivered call lic w).licenses ≡ w.licenses
unfolding delivered
delivered-licenses call lic w = refl

has_license-new :
    (lic : License) (t : List License) → has_license lic.stripe_checkout_session_id (lic ∷ t) ≡ true
unfolding select
has_license-new lic t = rw (has_license, eq_refl lic.stripe_checkout_session_id) refl

Sold-create_license :
    (call : CheckoutCall) (plan : Plan) (lic : License) (w : BillingState) (t : List License)
    → w.licenses ≡ t
    → (lic.stripe_checkout_session_id == "") ≡ false
    → Sold lic.stripe_checkout_session_id t (create_license call plan lic w)
unfolding create_license
Sold-create_license call plan lic w t q n =
    let id = lic.stripe_checkout_session_id in
    elim (Bool-cases (call.io 6 && subscription_free lic.stripe_subscription_id w.licenses)) [
      | inr e ↦ rw (create_license, e) (λ h. absurd (cc), inl q)
      | inl e ↦ elim (Bool-cases (has_license id w.licenses)) [
        | inl f ↦ rw (create_license, e, n, f) (λ h. inl f, inl q)
        | inr f ↦
            let d = delivered-licenses call lic (insert_license plan lic w) in
            rw (create_license, e, n, f)
              (
                λ h. inl (rw d (has_license-new lic w.licenses)),
                inr (lic, refl, rw (← q) f, refl, rw d (rw q refl)),
              )
      ]
    ]

Sold-claim_and_create :
    (call : CheckoutCall) (s : CheckoutSession) (plan : Plan) (email : String) (w : BillingState)
    (r : Reserved)
    → (s.id == "") ≡ false
    → (claim_session call s.id w).1 ≡ r
    → Sold s.id w.licenses (claim_and_create call s plan email w)
unfolding claim_and_create claim_session when_claimed
Sold-claim_and_create call s plan email w taken n e =
    rw (claim_and_create, n, when_claimed, e)
      (Sold-create_license call plan (new_license call s plan email) (claim_session call s.id w).0
        w.licenses refl n)
Sold-claim_and_create call s plan email w finished n e =
    rw (claim_and_create, n, when_claimed, e)
      (Sold-answered call.io 9 s.id (claim_session call s.id w).0 w.licenses _ refl refl)
Sold-claim_and_create call s plan email w midway n e =
    rw (claim_and_create, n, when_claimed, e)
      (Sold-answered call.io 9 s.id (claim_session call s.id w).0 w.licenses _ refl refl)
Sold-claim_and_create call s plan email w reserve_failed n e =
    rw (claim_and_create, n, when_claimed, e) (λ h. absurd (cc), inl refl)

Sold-fulfill_new :
    (call : CheckoutCall) (s : CheckoutSession) (w : BillingState) (p : Option (Option Plan))
    (a : Option String)
    → (s.id == "") ≡ false
    → find_plan call s ≡ p
    → find_email call s ≡ a
    → Sold s.id w.licenses (fulfill_new call s w)
unfolding fulfill_new
Sold-fulfill_new call s w none a n e f = rw (fulfill_new, e) (λ h. absurd (cc), inl refl)
Sold-fulfill_new call s w (some none) a n e f = rw (fulfill_new, e) (λ h. absurd (cc), inl refl)
Sold-fulfill_new call s w (some (some plan)) none n e f =
    rw (fulfill_new, e, f) (λ h. absurd (cc), inl refl)
Sold-fulfill_new call s w (some (some plan)) (some email) n e f = elim (Bool-cases (email == "")) [
  | inl g ↦ rw (fulfill_new, e, f, g) (λ h. absurd (cc), inl refl)
  | inr g ↦ rw (fulfill_new, e, f, g) (Sold-claim_and_create call s plan email w _ n refl)
]

Sold-checkout :
    (call : CheckoutCall) (s : CheckoutSession) (w : BillingState) (a : Option Bool)
    → (s.id == "") ≡ false
    → session_fulfilled call.io 0 s.id w ≡ a
    → Sold s.id w.licenses (fulfill_checkout call s w)
unfolding fulfill_checkout
Sold-checkout call s w none n e = rw (fulfill_checkout, n, e) (λ h. absurd (cc), inl refl)
Sold-checkout call s w (some true) n e =
    rw (fulfill_checkout, n, e) (λ h. Served-session_fulfilled call.io 0 s.id w e, inl refl)
Sold-checkout call s w (some false) n e =
    rw (fulfill_checkout, n, e) (Sold-fulfill_new call s w _ _ n refl refl)

-- A paid session gives one license, and nobody is told otherwise: the fulfilment leaves the licenses or
-- adds the first license of the session, and whoever is told that the session is fulfilled finds its
-- license, or the record of an older program. This holds whichever statements fail and whatever Stripe
-- answers, for a session with an id.
pub fulfill_checkout-Sold :
    (call : CheckoutCall) (s : CheckoutSession) (w : BillingState)
    → (s.id == "") ≡ false
    → Sold s.id w.licenses (fulfill_checkout call s w)
fulfill_checkout-Sold call s w n = Sold-checkout call s w _ n refl

-- A claim of a session that nobody has reserved.
claimed_afresh :
    (call : CheckoutCall) (id : String) (w : BillingState)
    → call.reserving ≡ healthy
    → recorded "stripe_fulfill" id w.processed ≡ false
    → (claim_session call id w).1 ≡ taken
unfolding claim_session
claimed_afresh call id w e r =
    let answer = if call.io 12 then some (has_license id w.licenses) else none in
    rw e
      (taken_afresh call.now "stripe_fulfill" "stripe_fulfill_claim" id (some answer) w.processed r)

-- The session has its license, and the caller is told so.
abbrev Sells : String → BillingState × Fulfilled → Type 0
Sells id out = (out.1 ≡ fulfilled) × (has_license id out.0.licenses ≡ true)

Sells-create_license :
    (call : CheckoutCall) (plan : Plan) (lic : License) (w : BillingState)
    → (lic.stripe_checkout_session_id == "") ≡ false
    → (call.io 6 && subscription_free lic.stripe_subscription_id w.licenses) ≡ true
    → Sells lic.stripe_checkout_session_id (create_license call plan lic w)
unfolding create_license
Sells-create_license call plan lic w n e =
    elim (Bool-cases (has_license lic.stripe_checkout_session_id w.licenses)) [
      | inl g ↦ rw (create_license, e, n, g) (refl, g)
      | inr g ↦
          let d = delivered-licenses call lic (insert_license plan lic w) in
          rw (create_license, e, n, g) (refl, rw d (has_license-new lic w.licenses))
    ]

Sells-fulfill_new :
    (call : CheckoutCall) (s : CheckoutSession) (w : BillingState) (plan : Plan) (email : String)
    → call.io ≡ healthy
    → call.reserving ≡ healthy
    → (s.id == "") ≡ false
    → find_plan call s ≡ some (some plan)
    → find_email call s ≡ some email
    → (email == "") ≡ false
    → recorded "stripe_fulfill" s.id w.processed ≡ false
    → subscription_free s.subscription w.licenses ≡ true
    → Sells s.id (fulfill_new call s w)
unfolding fulfill_new claim_and_create when_claimed claim_session
Sells-fulfill_new call s w plan email h e n p a m r f =
    let t = claimed_afresh call s.id w e r in
    let c : (call.io 6 && subscription_free s.subscription w.licenses) ≡ true = rw (h, f) refl in
    rw (fulfill_new, p, a, m, claim_and_create, n, when_claimed, t)
      (Sells-create_license call plan (new_license call s plan email) (claim_session call s.id w).0
        n c)

-- A paid session is fulfilled: when every statement runs, Stripe names a plan and an address, nobody
-- has reserved the session, and its subscription has no license yet, then the fulfilment succeeds and
-- the session has its license. The session has an id.
pub fulfill_checkout_sells :
    (call : CheckoutCall) (s : CheckoutSession) (w : BillingState) (plan : Plan) (email : String)
    → call.io ≡ healthy
    → call.reserving ≡ healthy
    → (s.id == "") ≡ false
    → find_plan call s ≡ some (some plan)
    → find_email call s ≡ some email
    → (email == "") ≡ false
    → recorded "stripe_fulfill" s.id w.processed ≡ false
    → subscription_free s.subscription w.licenses ≡ true
    → ((fulfill_checkout call s w).1 ≡ fulfilled)
      × (has_license s.id (fulfill_checkout call s w).0.licenses ≡ true)
unfolding fulfill_checkout session_fulfilled has_processed_event
fulfill_checkout_sells call s w plan email h e n p a m r f =
    elim (Bool-cases (has_license s.id w.licenses)) [
      | inl g ↦ rw (fulfill_checkout, n, session_fulfilled, h, g) (refl, g)
      | inr g ↦
          rw (fulfill_checkout, n, session_fulfilled, h, g, has_processed_event, r)
            (Sells-fulfill_new call s w plan email h e n p a m r f)
    ]
