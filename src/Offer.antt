-- ===== src/Offer.antt =====
-- The offer context (backend/internal/domain/offer): a host's pre-approvals and special offers.
pub mod Laws
use airbnb.Common.{
  ltb, ◌==◌, if◌then◌else◌, length, ℤ, pos, ltb_ℤ, Text, trim_space, Time, truncate_day, validation,
  Result, ok, ◌>>=◌, ◌>>◌, fail_if, Method, done, refused, ℕ, ◌+◌, Bool, true, false, not, ◌&&◌,
}

pub data Kind : Type 0 where
  pre_approval special_offer : Kind

pub data Status : Type 0 where
  pending accepted declined withdrawn expired : Status

abbrev pub is_pending : Status → Bool
is_pending pending = true
is_pending _ = false

-- `defaultValidity`: seven days.
abbrev pub default_validity : ℕ
default_validity = 604800000000000

pub record Offer : Type 0 where
  pub id : ℕ
  pub property_id : ℕ
  pub host_id : ℕ
  pub guest_id : ℕ
  pub check_in : Time
  pub check_out : Time
  pub guests : ℤ
  pub price_cents : ℤ
  pub currency : Text
  pub message : Text
  pub kind : Kind
  pub status : Status
  pub created_at : Time
  pub expires_at : Time

unfoldable pub new_offer : ℕ → ℕ → ℕ → ℕ → Time → Time → ℤ → ℤ → Text → Text → Time → Result Offer
new_offer id property_id host_id guest_id check_in check_out guests price currency raw_message now =
    let ci = truncate_day check_in in
    let co = truncate_day check_out in
    let message = trim_space raw_message in
    do
      fail_if (host_id == guest_id) (validation "a host cannot send an offer to themselves")
      fail_if (not (ltb ci co)) (validation "check-out must be after check-in")
      fail_if (ltb ci (truncate_day now)) (validation "check-in cannot be in the past")
      fail_if (ltb_ℤ guests (pos 1)) (validation "at least one guest is required")
      fail_if (ltb_ℤ price (pos 0)) (validation "price cannot be negative")
      fail_if (ltb 1000 (length message)) (validation "message is too long")
      ok (record {
        id = id;
        property_id = property_id;
        host_id = host_id;
        guest_id = guest_id;
        check_in = ci;
        check_out = co;
        guests = guests;
        price_cents = price;
        currency = currency;
        message = message;
        kind = if ltb_ℤ (pos 0) price then special_offer else pre_approval;
        status = pending;
        created_at = now;
        expires_at = now + default_validity;
      })

unfoldable pub is_open : Time → Offer → Bool
is_open now o = is_pending o.status && not (ltb o.expires_at now)

unfoldable pub accept : Time → Offer → Method Offer (Unit {0})
accept now o =
    if not (is_pending o.status)
    then refused o (validation "only a pending offer can be accepted")
    else if ltb o.expires_at now
    then refused (record o { status = expired }) (validation "this offer has expired")
    else done (record o { status = accepted })

unfoldable pub decline : Offer → Method Offer (Unit {0})
decline o =
    if not (is_pending o.status)
    then refused o (validation "only a pending offer can be declined")
    else done (record o { status = declined })

unfoldable pub withdraw : Offer → Method Offer (Unit {0})
withdraw o =
    if not (is_pending o.status)
    then refused o (validation "only a pending offer can be withdrawn")
    else done (record o { status = withdrawn })
