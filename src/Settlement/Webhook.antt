-- ===== src/Settlement/Webhook.antt =====
-- service.go: `ReconcileGatewayEvent`, over the payments table of memory.go. A Go map is visited in
-- any order, so a list stands for it.
use airbnb.Common.{
  ◌==◌, if◌then◌else◌, ℤ, pos, ltb_ℤ, leb_ℤ, Text, codes, text_eq, is_empty, Time, not_found,
  err_not_found, matches, Result, ok, err, ◌>>=◌, Method, refused, ℕ, Bool, true, false, not, ◌||◌,
  Option, none, some, List, [], ◌∷◌, ◌++◌,
}
use airbnb.Payment.Charge.{
  Status, refunded, failed, Payment, is_pending, is_authorized, is_captured, authorize, capture,
  refund_all, fail,
}

-- `GatewayEventType` (application/port/payment_gateway.go)
pub data GatewayEventType : Type 0 where
  hook_authorized hook_captured hook_refunded hook_failed hook_ignored : GatewayEventType

pub record GatewayEvent : Type 0 where
  pub provider : Text
  pub event_id : Text
  pub reference : Text
  pub event_type : GatewayEventType
  pub amount_cents : ℤ
  pub failure_reason : Text

abbrev pub is_ignored : GatewayEventType → Bool
is_ignored hook_ignored = true
is_ignored _ = false

abbrev pub is_refunded : Status → Bool
is_refunded refunded = true
is_refunded _ = false

abbrev pub is_failed : Status → Bool
is_failed failed = true
is_failed _ = false

-- `PaymentAuthorized` (application/event/events.go)
pub record PaymentAuthorized : Type 0 where
  pub booking_id : ℕ
  pub payment_id : ℕ
  pub guest_id : ℕ
  pub gateway_ref : Text

-- The table, and what was published.
pub record Desk : Type 0 where
  pub payments : List Payment
  pub published : List PaymentAuthorized

-- `PaymentRepository.FindByGatewayRef`: the first row in the order of the list, which stands for
-- the order in which a call visits the map.
unfoldable pub find_by_ref : Text → List Payment → Result Payment
find_by_ref ref [] = err not_found
find_by_ref ref (p ∷ rest) = if text_eq p.gateway_ref ref then ok p else find_by_ref ref rest

-- `PaymentRepository.Update`
unfoldable pub update_payment : Payment → List Payment → Result (List Payment)
update_payment p [] = err not_found
update_payment p (x ∷ rest) =
    let later = update_payment p rest in
    if x.id == p.id then ok (p ∷ rest) else (later >>= (λ rest'. ok (x ∷ rest')))

-- The first candidate of `findByGatewayRef`, if there are two.
abbrev pub tagged : Text → Text → Text
tagged provider ref = provider ++ codes ":" ++ ref

-- `findByGatewayRef`
unfoldable pub find_by_gateway_ref : Text → Text → List Payment → Result Payment
find_by_gateway_ref provider ref rows =
    if is_empty provider
    then find_by_ref ref rows
    else elim (find_by_ref (tagged provider ref) rows) [
      | ok p ↦ ok p
      | err e ↦ if not (matches e err_not_found) then err e else find_by_ref ref rows
    ]

-- A method's answer: the payment to be stored, or its error.
abbrev pub changed : Method Payment (Unit {0}) → Result (Option Payment)
changed (p', ok _) = ok (some p')
changed (p', err e) = err e

-- The amount that a refund event stands for.
unfoldable pub refund_amount : GatewayEvent → Payment → ℤ
refund_amount evt p =
    if leb_ℤ evt.amount_cents (pos 0) || ltb_ℤ p.amount.amount_cents evt.amount_cents
    then p.amount.amount_cents
    else evt.amount_cents

-- The `switch`: `none` where the event changes nothing.
react_to : GatewayEventType → GatewayEvent → Time → Payment → Result (Option Payment)
react_to hook_authorized evt now p =
    if not (is_pending p.status)
    then ok none
    else changed (authorize (if is_empty p.gateway_ref then evt.reference else p.gateway_ref) now p)
react_to hook_captured evt now p =
    if not (is_authorized p.status) then ok none else changed (capture now p)
react_to hook_refunded evt now p =
    if not (is_authorized p.status || is_captured p.status)
    then ok none
    else changed (refund_all (refund_amount evt p) now p)
react_to hook_failed evt now p =
    if is_captured p.status || is_refunded p.status || is_failed p.status
    then ok none
    else ok (some (fail evt.failure_reason now p))
react_to hook_ignored evt now p = ok none

unfoldable pub react : GatewayEvent → Time → Payment → Result (Option Payment)
unfolding react_to
react evt now p = react_to evt.event_type evt now p

-- The event that a completed authorization publishes.
abbrev pub announce : GatewayEventType → Payment → List PaymentAuthorized → List PaymentAuthorized
announce hook_authorized p sent =
    sent
    ++ record {
      booking_id = p.booking_id;
      payment_id = p.id;
      guest_id = p.guest_id;
      gateway_ref = p.gateway_ref;
    }
      ∷ []
announce _ p sent = sent

-- `ReconcileGatewayEvent`, once the payment is found.
unfoldable pub reconcile_found : GatewayEvent → Time → Payment → Desk → Method Desk Bool
reconcile_found evt now p s = elim (react evt now p) [
  | err e ↦ refused s e
  | ok none ↦ (s, ok false)
  | ok (some p') ↦ elim (update_payment p' s.payments) [
    | err e ↦ refused s e
    | ok rows ↦
        (record { payments = rows; published = announce evt.event_type p' s.published }, ok true)
  ]
]

-- `ReconcileGatewayEvent`: whether a change was stored.
unfoldable pub reconcile_gateway_event : GatewayEvent → Time → Desk → Method Desk Bool
reconcile_gateway_event evt now s =
    if is_ignored evt.event_type || is_empty evt.reference
    then (s, ok false)
    else elim (find_by_gateway_ref evt.provider evt.reference s.payments) [
      | err e ↦ if matches e err_not_found then (s, ok false) else refused s e
      | ok p ↦ reconcile_found evt now p s
    ]
