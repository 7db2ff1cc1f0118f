-- ===== src/Row/Safety.antt =====
-- `DecodeRow` on any bytes, well formed or not.
use dblock.Prelude.{ℕ, zero, suc, ◌≢◌, List, arith}
use dblock.Prelude.Fault.{panic, out_of_fuel}
use dblock.Codec.{new_decoder, get_uint8, get_uint16}
use dblock.Codec.Safety.{
  IsSafe, IsSafe-pure, IsSafe-fail, IsSafe-bind, IsSafe-if, IsSafe-uint8, IsSafe-uint16,
  IsSafe-as_uint32, IsSafe-int16, IsSafe-int64, IsSafe-float64, IsSafe-bytes,
  IsSafe-bytes_with_length, IsSafe-string_with_length,
}
use dblock.Value.{DataType, null_type, get_data_type, checked_type}
use dblock.Row.{get_value_of, get_value, get_values, get_row, decode_row}

ruleset safe_rules = (
  IsSafe-pure, IsSafe-fail, IsSafe-bind, IsSafe-uint8, IsSafe-uint16, IsSafe-as_uint32,
  IsSafe-int16, IsSafe-int64, IsSafe-float64, IsSafe-bytes, IsSafe-bytes_with_length,
  IsSafe-string_with_length,
)

IsSafe-value_of : (dt : DataType) → IsSafe (get_value_of dt)
unfolding get_value_of
IsSafe-value_of null_type = search safe_rules
IsSafe-value_of _ = search safe_rules depth 8

checked : (b : ℕ) → IsSafe (checked_type b)
unfolding checked_type
checked b = IsSafe-if _ _ _ (IsSafe-fail _) (IsSafe-pure _)

pub IsSafe-data_type : IsSafe get_data_type
unfolding get_data_type
IsSafe-data_type = IsSafe-bind get_uint8 checked_type IsSafe-uint8 checked

IsSafe-value : IsSafe get_value
unfolding get_value
IsSafe-value = IsSafe-bind get_data_type get_value_of IsSafe-data_type IsSafe-value_of

IsSafe-values : (n : ℕ) → IsSafe (get_values n)
unfolding get_values
IsSafe-values zero = IsSafe-pure _
IsSafe-values (suc n) =
    IsSafe-bind get_value _ IsSafe-value
      λ v. IsSafe-bind (get_values n) _ (IsSafe-values n) (λ vs. IsSafe-pure _)

IsSafe-row : IsSafe get_row
unfolding get_row
IsSafe-row =
    IsSafe-bind get_uint16 _ IsSafe-uint16
      λ n. IsSafe-bind (get_values n) _ (IsSafe-values n) (λ vs. IsSafe-pure _)

-- On any bytes at all `DecodeRow` returns a row or an error: it neither panics nor runs out of
-- fuel.
pub decode_row-ne-panic : (buf : List ℕ) → (decode_row buf ≢ panic) × (decode_row buf ≢ out_of_fuel)
unfolding decode_row
decode_row-ne-panic buf =
    let fine = IsSafe-row.run (new_decoder "row" buf) (omega arith) in (fine.no_panic, fine.no_fuel)
