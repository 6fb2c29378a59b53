-- ===== src/Settlement/Redelivery.antt =====
-- service.go: a webhook that is delivered again, over a table that is a map and is visited in any
-- order.
use mathlib.Core.List.{Permᴰ}
use airbnb.Common.{
  if◌then◌else◌, Text, text_eq, is_empty, Time, ok, ◌≡◌, refl, ◌∙◌, inl, inr, true, false, none,
  some, List, [], ◌∷◌, Bool-cases, Result-cases, arith, ◌||◌, ℕ, suc, ◌≤◌,
}
use airbnb.Payment.Charge.{Payment}
use airbnb.Settlement.Webhook.{
  GatewayEvent, Desk, find_by_ref, update_payment, tagged, find_by_gateway_ref, react,
  reconcile_found, reconcile_gateway_event, is_ignored,
}
use airbnb.Settlement.Replay.{Keyed, replayed_quiet}

-- How many rows carry a reference.
unfoldable pub bearers : Text → List Payment → ℕ
bearers ref [] = 0
bearers ref (x ∷ rest) =
    if text_eq x.gateway_ref ref then suc (bearers ref rest) else bearers ref rest

bearers-perm :
    (ref : Text) {rows rows' : List Payment}
    → Permᴰ rows rows'
    → bearers ref rows ≡ bearers ref rows'
unfolding bearers
bearers-perm ref Permᴰ.nil = refl
bearers-perm ref (Permᴰ.cons e p) = ground (arith, e, bearers-perm ref p)
bearers-perm ref (Permᴰ.swap e e') = ground (arith, e, e')
bearers-perm ref (Permᴰ.trans p q) = bearers-perm ref p ∙ bearers-perm ref q

-- Where one row at most carries the reference, the order of the rows does not matter.
find_by_ref-perm :
    (ref : Text) {rows rows' : List Payment}
    → Permᴰ rows rows'
    → bearers ref rows ≤ 1
    → find_by_ref ref rows ≡ find_by_ref ref rows'
unfolding bearers find_by_ref
find_by_ref-perm ref Permᴰ.nil h = refl
find_by_ref-perm ref (Permᴰ.cons {a} {b} e p) h = elim (Bool-cases (text_eq a.gateway_ref ref)) [
  | inl this ↦ ground (arith, this, e)
  | inr other ↦
      let deeper = find_by_ref-perm ref p (ground (arith, other, h)) in
      ground (arith, other, e, deeper)
]
find_by_ref-perm ref (Permᴰ.swap e e') h = ground (arith, e, e', h)
find_by_ref-perm ref (Permᴰ.trans p q) h =
    find_by_ref-perm ref p h ∙ find_by_ref-perm ref q (rw (bearers-perm ref p) at h)

-- At most one row carries each of the references that the event is looked up by.
abbrev pub Unambiguous : GatewayEvent → List Payment → Type 0
Unambiguous evt rows =
    (bearers (tagged evt.provider evt.reference) rows ≤ 1) × (bearers evt.reference rows ≤ 1)

found-perm :
    (evt : GatewayEvent) {rows rows' : List Payment}
    → Permᴰ rows rows'
    → Unambiguous evt rows
    → find_by_gateway_ref evt.provider evt.reference rows
      ≡ find_by_gateway_ref evt.provider evt.reference rows'
unfolding find_by_gateway_ref
found-perm evt p (one, one') =
    let tagged_same = find_by_ref-perm (tagged evt.provider evt.reference) p one in
    let bare_same = find_by_ref-perm evt.reference p one' in ground (arith, tagged_same, bare_same)

quiet_transfer :
    (evt : GatewayEvent) (later : Time) (s : Desk) (rows : List Payment)
    → find_by_gateway_ref evt.provider evt.reference s.payments
      ≡ find_by_gateway_ref evt.provider evt.reference rows
    → reconcile_gateway_event evt later s ≡ (s, ok false)
    → let s' = record s { payments = rows } in reconcile_gateway_event evt later s' ≡ (s', ok false)
unfolding reconcile_gateway_event reconcile_found
quiet_transfer evt later s rows same h =
    elim (Bool-cases (is_ignored evt.event_type || is_empty evt.reference)) [
      | inl skip ↦ ground (arith, skip)
      | inr heard ↦ elim (Result-cases (find_by_gateway_ref evt.provider evt.reference rows)) [
        | inr (e, missing) ↦
            let before = same ∙ missing in ground (arith, missing, before, heard, h)
        | inl (p, found) ↦
            let before = same ∙ found in
            elim (Result-cases (react evt later p)) [
              | inr (e, wrong) ↦ ground (arith, found, before, heard, wrong, h)
              | inl (none, quiet) ↦ ground (arith, found, before, heard, quiet, h)
              | inl (some p', moved) ↦ elim (Result-cases (update_payment p' s.payments)) [
                | inr (e, gone) ↦ ground (arith, found, before, heard, moved, gone, h)
                | inl (rows', stored) ↦ ground (arith, found, before, heard, moved, stored, h)
              ]
            ]
      ]
    ]

-- In a table whose rows have different ids: when a gateway event has changed a payment, and at most
-- one row of the table it left carries each reference that the event is looked up by, delivering
-- the same event again, with no change of a row in between but the rows visited in any order and
-- at any clock, succeeds, reports no change, and leaves the table and what was published.
pub reconcile_again :
    (evt : GatewayEvent) (now later : Time) (s : Desk) {s' : Desk} (rows : List Payment)
    → Keyed s.payments
    → reconcile_gateway_event evt now s ≡ (s', ok true)
    → Unambiguous evt s'.payments
    → Permᴰ s'.payments rows
    → let again = record s' { payments = rows } in
      reconcile_gateway_event evt later again ≡ (again, ok false)
reconcile_again evt now later s {s'} rows k h sole order =
    quiet_transfer evt later s' rows (found-perm evt order sole)
      (replayed_quiet evt now later s k h)
