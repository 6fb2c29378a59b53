-- ===== src/Shared.antt =====
-- The shared kernel (backend/internal/domain/shared): money in minor units, and page bounds.
use airbnb.Common.{
  ◌||◌, ◌==◌, not, length, if◌then◌else◌, ℤ, pos, ltb_ℤ, leb_ℤ, mul64, add64, Text, text_eq, Result,
  ok, err, validation,
}

pub record Money : Type 0 where
  pub amount_cents : ℤ
  pub currency : Text

unfoldable pub new_money : ℤ → Text → Result Money
new_money amount_cents currency =
    if ltb_ℤ amount_cents (pos 0)
    then err (validation "money amount cannot be negative")
    else if not (length currency == 3)
    then err (validation "currency must be a 3-letter ISO code")
    else ok (record { amount_cents = amount_cents; currency = currency })

-- `Money.Mul`
unfoldable pub mul : Money → ℤ → Money
mul m factor = record { amount_cents = mul64 m.amount_cents factor; currency = m.currency }

-- `Money.Add`
unfoldable pub add : Money → Money → Result Money
add m other =
    if not (text_eq m.currency other.currency)
    then err (validation "cannot add money of different currencies")
    else ok
        (record { amount_cents = add64 m.amount_cents other.amount_cents; currency = m.currency })

pub record Page : Type 0 where
  pub limit : ℤ
  pub offset : ℤ

unfoldable pub new_page : ℤ → ℤ → Page
new_page limit offset = record {
  limit = if leb_ℤ limit (pos 0) || ltb_ℤ (pos 100) limit then pos 20 else limit;
  offset = if ltb_ℤ offset (pos 0) then pos 0 else offset;
}
