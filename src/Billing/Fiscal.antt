-- ===== src/Billing/Fiscal.antt =====
-- FiscalService (billing/fiscal.service.ts): the line of a receipt, from the configuration.
use qayoda_backend.Base.{
  ℕ, ◌+◌, ◌*◌, ◌/◌, Bool, false, ◌&&◌, not, Option, none, some, String, leb, ◌==◌, if◌then◌else◌,
  is_some, or_default,
}
use qayoda_backend.Base.Text.{codes, trim, number_of_codes, is_blank}

-- The FISCAL_* variables.
pub record FiscalConfig : Type 0 where
  pub mxik : Option String
  pub package_code : Option String
  pub tin : Option String
  pub vat : Option String
  pub item_name : Option String

pub record FiscalLine : Type 0 where
  pub title : String
  pub unit_price_tiyin : ℕ
  pub count : ℕ
  pub total_tiyin : ℕ
  pub vat_percent : ℕ
  pub vat_tiyin : ℕ
  pub mxik : String
  pub package_code : String
  pub tin : String

-- `!!v?.trim()`
abbrev is_given : Option String → Bool
is_given none = false
is_given (some s) = not (is_blank (trim (codes s)))

abbrev percent_of : Option ℕ → Option ℕ
percent_of none = none
percent_of (some n) = if leb n 100 then some n else none

-- The configured rate, or none when it is not a usable number. An unset one is 0.
unfoldable pub vat_percent : FiscalConfig → Option ℕ
unfolding number_of_codes
vat_percent c = elim c.vat [
  | none ↦ some 0
  | some s ↦ if is_blank (trim (codes s)) then some 0 else percent_of (number_of_codes (codes s))
]

unfoldable pub enabled : FiscalConfig → Bool
unfolding vat_percent
enabled c = is_given c.mxik && is_given c.package_code && is_given c.tin && is_some (vat_percent c)

-- `Math.round(amount * p / (100 + p))`: VAT is inside the price.
unfoldable pub vat_of : ℕ → ℕ → ℕ
vat_of amount p = if p == 0 then 0 else (2 * (amount * p) + (100 + p)) / (2 * (100 + p))

-- `none` is a throw, of the rate's check or of `getOrThrow`.
unfoldable pub topup_line : FiscalConfig → ℕ → Option FiscalLine
unfolding vat_percent vat_of
topup_line c amount = elim (vat_percent c) [
  | none ↦ none
  | some p ↦ elim c.mxik [
    | none ↦ none
    | some mxik ↦ elim c.package_code [
      | none ↦ none
      | some package_code ↦ elim c.tin [
        | none ↦ none
        | some tin ↦ some record {
          title = or_default c.item_name "Growen City balansini to'ldirish";
          unit_price_tiyin = amount;
          count = 1;
          total_tiyin = amount;
          vat_percent = p;
          vat_tiyin = vat_of amount p;
          mxik = mxik;
          package_code = package_code;
          tin = tin;
        }
      ]
    ]
  ]
]
