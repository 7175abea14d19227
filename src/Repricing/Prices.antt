-- ===== src/Repricing/Prices.antt =====
-- `normalize_purchase_price` of
-- app/iron_bank/services/payload_builders/purchase_price_reconciliation_payload_builder.py.
use Prim.Native.Char.{code}
use adus_be.Prelude.{ℕ, Bool, ◌&&◌, ◌||◌, Option, none, some, String, leb, ◌==◌, if◌then◌else◌}
use adus_be.Calculator.{Decimals, nought}

-- what the price may be: a Decimal, an int or float by the Decimal of its text, or anything by its text
pub data RawPrice (D : Type 0) : Type 0 where
  decimal_price number : D → RawPrice D
  text : String → RawPrice D

-- what `[^0-9.\-]` does not match, by its code point
abbrev pub is_kept : ℕ → Bool
is_kept c = (leb 48 c && leb c 57) || (c == 46) || (c == 45)

unfoldable pub cleaned : String → String
cleaned String.[] = String.[]
cleaned (String.◌∷◌ c rest) =
    let others = cleaned rest in if is_kept (code c) then String.◌∷◌ c others else others

-- `parse` is `Decimal` on a text, with none for `InvalidOperation`.
module _ {D : Type 0} (num : Decimals D) (parse : String → Option D) where
  abbrev pub if_positive : Option D → Option D
  if_positive none = none
  if_positive (some amount) = if num.less (nought num) amount then some amount else none

  abbrev pub parse_cleaned : String → Option D
  parse_cleaned String.[] = none
  parse_cleaned (String.◌∷◌ c rest) = if_positive (parse (String.◌∷◌ c rest))

  unfoldable pub normalize_purchase_price : Option (RawPrice D) → Option D
  normalize_purchase_price none = none
  normalize_purchase_price (some (decimal_price value)) = if_positive (some value)
  normalize_purchase_price (some (number value)) = if_positive (some value)
  normalize_purchase_price (some (text value)) = parse_cleaned (cleaned value)
