-- ===== src/Prelude/Fault.antt =====
-- The errors that the storage code returns, one constructor for each `errors.New` or `fmt.Errorf`
-- that a caller can meet, and the outcome of a call.
use dblock.Prelude.{ℕ, String}

pub data Error : Type 0 where
  -- codec/decoder.go, `check`: target, context, missing and remaining bytes
  missing_bytes : String → String → ℕ → ℕ → Error
  -- datatype.go and row.go
  bad_data_type : ℕ → Error
  unsupported_data_type : ℕ → Error
  -- metadata/metadata.go
  bad_magic : Error
  checksum_invalid : Error
  -- page.go
  page_overflow : Error
  empty_page : Error
  bad_page_magic : Error
  slot_past_page : Error
  key_past_page : Error
  value_past_page : Error
  keys_ne_values : Error
  rightmost_past_page : Error
  -- storage/memoryFile.go
  invalid : Error
  eof : Error
  -- storage/storage.go
  empty_block : Error
  block_size_mismatch : ℕ → Error
  -- btree.go
  key_not_found : Error
  -- evalExpr.go
  division_by_zero : Error
  bad_operand : Error
  unsupported_operator : Error
  missing_argument : Error
  no_such_column : Error
  cannot_compare : Error
  unsupported_expression : Error
  -- filterscanner.go, projectorscanner.go, joinscanner.go, aggregatescanner.go
  not_a_boolean : Error
  unsupported_join : Error
  missing_on_expression : Error
  empty_projection : Error
  -- coerceValue.go
  null_not_allowed : Error
  not_a_bool : Error
  type_mismatch : Error
  -- engine.go
  too_many_values : Error
  -- row.go, `GetValue`
  out_of_bounds : Error

-- `panic` is a Go panic. `out_of_fuel` is no outcome of the code: a loop of the model stopped early.
pub data Result {ℓ} (A : Type ℓ) : Type ℓ where
  ok : A → Result A
  err : Error → Result A
  panic : Result A
  out_of_fuel : Result A
