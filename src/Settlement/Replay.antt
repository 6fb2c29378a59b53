-- ===== src/Settlement/Replay.antt =====
-- service.go: a webhook that is delivered again.
use airbnb.Common.{
  ◌==◌, All, Text, text_eq, is_empty, Time, matches, err_not_found, Error, ok, err, ok_inj, ◌≡◌,
  refl, ◌≢◌, sym, ◌∙◌, ap, subst, inl, inr, true, false, none, some, List, [], ◌∷◌, Bool-cases,
  Result-cases, arith, ◌||◌, ◌⊎◌,
}
use airbnb.Payment.Charge.{Payment, authorize, capture, refund_all, fail}
use airbnb.Settlement.Webhook.{
  hook_authorized, hook_captured, hook_refunded, hook_failed, hook_ignored, GatewayEvent, Desk,
  find_by_ref, update_payment, tagged, find_by_gateway_ref, react, reconcile_found,
  reconcile_gateway_event, is_ignored,
}

-- The rows have different ids, as the keys of a map do.
abbrev pub Keyed : List Payment → Type 0
Keyed [] = Unit
Keyed (x ∷ rest) = All (λ y. y.id ≢ x.id) rest × Keyed rest

-- What an event made of a payment it leaves alone the next time.
react_quiet :
    (evt : GatewayEvent) (now later : Time) (p : Payment) {p' : Payment}
    → react evt now p ≡ ok (some p')
    → is_empty p.gateway_ref ≡ false
    → (react evt later p' ≡ ok none) × (p'.id ≡ p.id) × (p'.gateway_ref ≡ p.gateway_ref)
unfolding react authorize capture refund_all fail
react_quiet evt now later p h named = elim evt.event_type [
  | hook_authorized ↦ ground arith
  | hook_captured ↦ ground arith
  | hook_refunded ↦ ground arith
  | hook_failed ↦ ground arith
  | hook_ignored ↦ ground arith
]

found-ref :
    (ref : Text) (rows : List Payment) {p : Payment}
    → find_by_ref ref rows ≡ ok p
    → text_eq p.gateway_ref ref ≡ true
unfolding find_by_ref
found-ref ref [] h = cc
found-ref ref (x ∷ rest) h = elim (Bool-cases (text_eq x.gateway_ref ref)) [
  | inl this ↦
      subst (λ (p : Payment). text_eq p.gateway_ref ref ≡ true) (ok_inj (rw this at h)) this
  | inr other ↦ found-ref ref rest (rw other at h)
]

missed-ref :
    (c d : Text) (rows : List Payment) {p : Payment} {e : Error}
    → find_by_ref c rows ≡ err e
    → find_by_ref d rows ≡ ok p
    → text_eq p.gateway_ref c ≡ false
unfolding find_by_ref
missed-ref c d [] g h = cc
missed-ref c d (x ∷ rest) g h = elim (Bool-cases (text_eq x.gateway_ref c)) [
  | inl this ↦ cc (rw this at g)
  | inr miss ↦ elim (Bool-cases (text_eq x.gateway_ref d)) [
    | inl here ↦
        subst (λ (p : Payment). text_eq p.gateway_ref c ≡ false) (ok_inj (rw here at h)) miss
    | inr other ↦ missed-ref c d rest (rw miss at g) (rw other at h)
  ]
]

missed-updated :
    (c : Text) (p' : Payment) (rows : List Payment) {rows' : List Payment} {e : Error}
    → find_by_ref c rows ≡ err e
    → text_eq p'.gateway_ref c ≡ false
    → update_payment p' rows ≡ ok rows'
    → find_by_ref c rows' ≡ err e
unfolding find_by_ref update_payment
missed-updated c p' [] g differs h = cc
missed-updated c p' (x ∷ rest) {rows'} {e} g differs h =
    elim (Bool-cases (text_eq x.gateway_ref c)) [
      | inl this ↦ cc (rw this at g)
      | inr miss ↦ elim (Bool-cases (x.id == p'.id)) [
        | inl own ↦
            subst (λ rows'. find_by_ref c rows' ≡ err e) (ok_inj (rw own at h))
              (rw differs (rw miss at g))
        | inr other ↦ elim (Result-cases (update_payment p' rest)) [
          | inl (rest', stored) ↦
              subst (λ rows'. find_by_ref c rows' ≡ err e) (ok_inj (rw (other, stored) at h))
                (rw miss (missed-updated c p' rest (rw miss at g) differs stored))
          | inr (e', stopped) ↦ cc (rw (other, stopped) at h)
        ]
      ]
    ]

found-All :
    (Q : Payment → Type 0) (ref : Text) (rows : List Payment) {p : Payment}
    → find_by_ref ref rows ≡ ok p
    → All Q rows
    → Q p
unfolding find_by_ref
found-All Q ref [] h a = cc
found-All Q ref (x ∷ rest) h a = elim (Bool-cases (text_eq x.gateway_ref ref)) [
  | inl this ↦ subst Q (ok_inj (rw this at h)) a.0
  | inr other ↦ found-All Q ref rest (rw other at h) a.1
]

-- The stored row is the one found next time.
found-updated :
    (ref : Text) (p' : Payment) (rows : List Payment) {rows' : List Payment} {p : Payment}
    → find_by_ref ref rows ≡ ok p
    → p'.id ≡ p.id
    → p'.gateway_ref ≡ p.gateway_ref
    → Keyed rows
    → update_payment p' rows ≡ ok rows'
    → find_by_ref ref rows' ≡ ok p'
unfolding find_by_ref update_payment
found-updated ref p' [] h own same k u = cc
found-updated ref p' (x ∷ rest) {rows'} {p} h own same k u =
    elim (Bool-cases (text_eq x.gateway_ref ref)) [
      | inl this ↦
          let here : x ≡ p = ok_inj (rw this at h) in
          let hit : x.id == p'.id ≡ true = ground (arith, here, own) in
          let kept : text_eq p'.gateway_ref ref ≡ true =
            subst (λ (t : Text). text_eq t ref ≡ true)
              (ap (λ (q : Payment). q.gateway_ref) here ∙ sym same) this in
          subst (λ rows'. find_by_ref ref rows' ≡ ok p') (ok_inj (rw hit at u)) (rw kept refl)
      | inr miss ↦
          let deeper = rw miss at h in
          let apart = found-All (λ y. y.id ≢ x.id) ref rest deeper k.0 in
          let other : x.id == p'.id ≡ false = ground (arith, own, apart) in
          elim (Result-cases (update_payment p' rest)) [
            | inl (rest', stored) ↦
                subst (λ rows'. find_by_ref ref rows' ≡ ok p') (ok_inj (rw (other, stored) at u))
                  (rw miss (found-updated ref p' rest deeper own same k.1 stored))
            | inr (e', stopped) ↦ cc (rw (other, stopped) at u)
          ]
    ]

named : (a c : Text) → text_eq a c ≡ true → is_empty c ≡ false → is_empty a ≡ false
named [] [] h k = cc
named [] (y ∷ c) h k = cc
named (x ∷ a) c h k = refl

tagged_named :
    (provider ref : Text) → is_empty provider ≡ false → is_empty (tagged provider ref) ≡ false
tagged_named [] ref h = cc
tagged_named (x ∷ rest) ref h = refl

module _ (provider ref : Text) (some_ref : is_empty ref ≡ false) (rows : List Payment) where
  found_cases :
      {p : Payment}
      → find_by_gateway_ref provider ref rows ≡ ok p
      → ((is_empty provider ≡ true) × (find_by_ref ref rows ≡ ok p))
        ⊎ (((is_empty provider ≡ false) × (find_by_ref (tagged provider ref) rows ≡ ok p))
            ⊎ ((is_empty provider ≡ false)
                × (e : Error) × (find_by_ref (tagged provider ref) rows ≡ err e)
                × (matches e err_not_found ≡ true)
                × (find_by_ref ref rows ≡ ok p)))
  unfolding find_by_gateway_ref
  found_cases h = elim (Bool-cases (is_empty provider)) [
    | inl bare ↦ inl (bare, rw bare at h)
    | inr given ↦ elim (Result-cases (find_by_ref (tagged provider ref) rows)) [
      | inl (q, hit) ↦ inr (inl (given, hit ∙ ap ok (ok_inj (rw (given, hit) at h))))
      | inr (e, miss) ↦ elim (Bool-cases (matches e err_not_found)) [
        | inl known ↦ inr (inr (given, e, miss, known, rw (given, miss, known) at h))
        | inr broken ↦ cc (rw (given, miss, broken) at h)
      ]
    ]
  ]

  found_named :
      {p : Payment} → find_by_gateway_ref provider ref rows ≡ ok p → is_empty p.gateway_ref ≡ false
  found_named {p} h = elim (found_cases h) [
    | inl (_, hit) ↦ named p.gateway_ref ref (found-ref ref rows hit) some_ref
    | inr (inl (given, hit)) ↦
        named p.gateway_ref (tagged provider ref) (found-ref (tagged provider ref) rows hit)
          (tagged_named provider ref given)
    | inr (inr (_, _, _, _, hit)) ↦ named p.gateway_ref ref (found-ref ref rows hit) some_ref
  ]

  found_again :
      (p' : Payment) {p : Payment} {rows' : List Payment}
      → find_by_gateway_ref provider ref rows ≡ ok p
      → p'.id ≡ p.id
      → p'.gateway_ref ≡ p.gateway_ref
      → Keyed rows
      → update_payment p' rows ≡ ok rows'
      → find_by_gateway_ref provider ref rows' ≡ ok p'
  unfolding find_by_gateway_ref
  found_again p' h own same k u = elim (found_cases h) [
    | inl (bare, hit) ↦ rw bare (found-updated ref p' rows hit own same k u)
    | inr (inl (given, hit)) ↦
        rw (given, found-updated (tagged provider ref) p' rows hit own same k u) refl
    | inr (inr (given, e, miss, known, hit)) ↦
        let differs =
          subst (λ (t : Text). text_eq t (tagged provider ref) ≡ false) (sym same)
            (missed-ref (tagged provider ref) ref rows miss hit) in
        rw (given, missed-updated (tagged provider ref) p' rows miss differs u, known)
          (found-updated ref p' rows hit own same k u)
  ]

-- The same event again, on the table as it was left.
pub replayed_quiet :
    (evt : GatewayEvent) (now later : Time) (s : Desk) {s' : Desk}
    → Keyed s.payments
    → reconcile_gateway_event evt now s ≡ (s', ok true)
    → reconcile_gateway_event evt later s' ≡ (s', ok false)
unfolding reconcile_gateway_event reconcile_found
replayed_quiet evt now later s {s'} k h =
    elim (Bool-cases (is_ignored evt.event_type || is_empty evt.reference)) [
      | inl skip ↦ ground (arith, skip, h)
      | inr heard ↦
          elim (Result-cases (find_by_gateway_ref evt.provider evt.reference s.payments)) [
            | inr (e, missing) ↦ ground (arith, missing, heard, h)
            | inl (p, found) ↦ elim (Result-cases (react evt now p)) [
              | inr (e, wrong) ↦ ground (arith, found, heard, wrong, h)
              | inl (none, quiet) ↦ ground (arith, found, heard, quiet, h)
              | inl (some p', moved) ↦ elim (Result-cases (update_payment p' s.payments)) [
                | inr (e, gone) ↦ ground (arith, found, heard, moved, gone, h)
                | inl (rows, stored) ↦
                    let some_ref : is_empty evt.reference ≡ false = ground (arith, heard) in
                    let (quiet, own, same) =
                      react_quiet evt now later p moved
                        (found_named evt.provider evt.reference some_ref s.payments found) in
                    let again =
                      found_again evt.provider evt.reference some_ref s.payments p' found own same k
                        stored in
                    ground (arith, found, heard, moved, stored, again, quiet, h)
              ]
            ]
          ]
    ]
