-- ===== src/Coupon/Redemption.antt =====
-- coupon.go: what a discount may be, and how often a code is redeemed.
use airbnb.Common.{
  ℤ, pos, ◌≤ℤ◌, ◌<ℤ◌, floor_zero, Text, Float64, Time, ok, Atomic, ℕ, ◌≤◌, ◌≡◌, ◌↔◌, ◌⊎◌, true,
  false, List, [], ◌∷◌, arith, validation, err, Result-cases, refl, ◌∙◌, inl, inr, some, none, ◌<◌,
}
use airbnb.Coupon.{
  Coupon, not_after, redeemable, discount_for, redeem, deactivate, validate_code, new_coupon,
  new_percentage,
}

-- Uses and withdrawals of a code, in any order.
pub data Op : Type 0 where
  redeeming : Time → Op
  deactivating : Op

module _ (f : Float64) where
  -- `redeem` succeeds exactly for an active coupon that has not expired and is under its limit;
  -- then it counts one use, and otherwise it changes nothing.
  pub redeem_iff :
      (now : Time) (c : Coupon f)
      → (((redeem f now c).1 ≡ ok tt) ↔ (
          (c.active ≡ true)
          × (not_after c.expires_at now ≡ false)
          × ((c.max_redemptions ≤ℤ pos 0) ⊎ (c.redemptions <ℤ c.max_redemptions))))
        × Atomic c (redeem f now c)
  unfolding redeem redeemable
  redeem_iff now c = ((λ h. ground arith, λ h. ground arith), ground arith)

  -- For a subtotal that is not negative, every discount that is granted lies between nothing and
  -- the subtotal, whatever the percentage or the amount, to an active code and a long enough stay.
  pub discount_for_bounds :
      (subtotal : ℤ) (currency : Text) (nights : ℤ) (now : Time) (c : Coupon f) {cents : ℤ}
      → pos 0 ≤ℤ subtotal
      → discount_for f subtotal currency nights now c ≡ ok cents
      → (pos 0 ≤ℤ cents) × (cents ≤ℤ subtotal) × (c.min_nights ≤ℤ nights) × (c.active ≡ true)
  unfolding discount_for redeemable floor_zero
  discount_for_bounds subtotal currency nights now c low h = ground arith

  unfoldable pub apply : Op → Coupon f → Coupon f
  apply (redeeming now) c = (redeem f now c).0
  apply deactivating c = deactivate f c

  unfoldable pub run : List Op → Coupon f → Coupon f
  run [] c = c
  run (op ∷ ops) c = run ops (apply op c)

  -- A limited code, within its limit.
  record IsLimited (limit : ℕ) (c : Coupon f) : Type 0 where
    cap : c.max_redemptions ≡ pos limit
    some_use : 1 ≤ limit
    int_cap : limit ≤ 9223372036854775807
    low : pos 0 ≤ℤ c.redemptions
    high : c.redemptions ≤ℤ pos limit

  -- The terms of a code that no use or withdrawal changes.
  abbrev SameTerms : Coupon f → Coupon f → Type 0
  SameTerms c c' = (c'.expires_at ≡ c.expires_at) × (c'.max_redemptions ≡ c.max_redemptions)

  apply-SameTerms : (op : Op) (c : Coupon f) → SameTerms c (apply op c)
  unfolding apply redeem redeemable deactivate
  apply-SameTerms (redeeming now) c = ground arith
  apply-SameTerms deactivating c = ground arith

  run-SameTerms : (ops : List Op) (c : Coupon f) → SameTerms c (run ops c)
  unfolding run
  run-SameTerms [] c = (refl, refl)
  run-SameTerms (op ∷ ops) c =
      let (expiry, cap) = apply-SameTerms op c in
      let (expiry', cap') = run-SameTerms ops (apply op c) in (expiry' ∙ expiry, cap' ∙ cap)

  -- What the constructor leaves of an expiry: nothing, though it was checked.
  issued_fresh :
      (id : ℕ) (raw : Text) (percent : f.Carrier) (nights limit : ℤ) (at now : Time) {c : Coupon f}
      → new_percentage f id raw percent nights limit (some at) now ≡ ok c
      → (now < at)
        × (c.expires_at ≡ none)
        × (c.max_redemptions ≡ limit)
        × (pos 0 ≤ℤ limit)
        × (c.active ≡ true)
        × (c.redemptions ≡ pos 0)
  unfolding new_percentage new_coupon
  issued_fresh id raw percent nights limit at now {c} h = elim (Result-cases (validate_code raw)) [
    | inl (code, valid) ↦ ground arith
    | inr (e, stopped) ↦ ground arith
  ]

  -- A code that `NewPercentage` issues with an expiry, which lies after the time of issue, can be
  -- redeemed at the expiry and at any time after it: a first use succeeds, and after any uses and
  -- withdrawals a further one succeeds exactly if the code is active and has no limit or is under
  -- it.
  pub expiry_ignored :
      (id : ℕ) (raw : Text) (percent : f.Carrier) (nights limit : ℤ) (at now later : Time)
      (ops : List Op) {c : Coupon f}
      → new_percentage f id raw percent nights limit (some at) now ≡ ok c
      → at ≤ later
      → let c' = run ops c in
        (now < at)
        × ((redeem f later c).1 ≡ ok tt)
        × (((redeem f later c').1 ≡ ok tt)
            ↔ ((c'.active ≡ true) × ((limit ≤ℤ pos 0) ⊎ (c'.redemptions <ℤ limit))))
  expiry_ignored id raw percent nights limit at now later ops {c} h passed =
      let (ahead, bare, cap, cap_low, live, unused) =
        issued_fresh id raw percent nights limit at now h in
      let (bare', cap') = run-SameTerms ops c in
      let (from, to) = (redeem_iff later (run ops c)).0 in
      (
        ahead,
        (redeem_iff later c).0.1 (ground (arith, bare, cap, cap_low, live, unused)),
        (
          (λ e. ground (arith, from e, bare', bare, cap', cap)),
          (λ e. to (ground (arith, e, bare', bare, cap', cap))),
        ),
      )

  apply_inactive :
      (op : Op) (c : Coupon f)
      → c.active ≡ false
      → ((apply op c).active ≡ false) × ((apply op c).redemptions ≡ c.redemptions)
  unfolding apply redeem redeemable deactivate
  apply_inactive (redeeming now) c h = ground arith
  apply_inactive deactivating c h = ground arith

  run_inactive :
      (ops : List Op) (c : Coupon f)
      → c.active ≡ false
      → ((run ops c).active ≡ false) × ((run ops c).redemptions ≡ c.redemptions)
  unfolding run
  run_inactive [] c h = (h, refl)
  run_inactive (op ∷ ops) c h =
      let (off, same) = apply_inactive op c h in
      let (off', same') = run_inactive ops (apply op c) off in (off', same' ∙ same)

  -- A withdrawn code is refused for ever: no later use counts and no discount is granted.
  pub deactivate_final :
      (ops : List Op) (now : Time) (subtotal : ℤ) (currency : Text) (nights : ℤ) (c : Coupon f)
      → let c' = run ops (deactivate f c) in
        (c'.redemptions ≡ c.redemptions)
        × (c'.active ≡ false)
        × (discount_for f subtotal currency nights now c'
            ≡ err (validation "this coupon is no longer active"))
  unfolding discount_for redeemable deactivate
  deactivate_final ops now subtotal currency nights c =
      let (off, same) = run_inactive ops (deactivate f c) refl in (same, off, rw off)
