-- ===== src/Expr/Print.antt =====
-- internal/evalExpr.go: `exprString`, an expression as SQL text. How Go prints a float is a parameter.
use dblock.Prelude.{ℕ, zero, suc, ◌+◌, ◌/◌, ◌%◌, List, [], ◌∷◌, ◌++◌, ◌==◌, ltb, if◌then◌else◌}
use dblock.Prelude.Int.{ℤ, pos, negsuc}
use dblock.Expr.{
  FuncName, count_func, max_func, min_func, sum_func, avg_func, Operator, add, subtract, multiply,
  divide, modulo, equal, not_equal, less_than, less_than_or_eq, greater_than, greater_than_or_eq,
  and, or, Expr, star, column, int_literal, real_literal, blob_literal, text_literal, binary, func,
  arg, Exprs, no_more, one_more,
}

-- Decimal digits in front of `rest`, with a step of fuel for each digit.
decimal_onto : ℕ → ℕ → List ℕ → List ℕ
decimal_onto zero n rest = rest
decimal_onto (suc fuel) n rest =
    let more = decimal_onto fuel (n / 10) ((b'0' + n % 10) ∷ rest) in
    if ltb n 10 then (b'0' + n) ∷ rest else more

-- `strconv.FormatInt(n, 10)`; an `int64` has at most nineteen digits.
unfoldable pub format_int : ℤ → List ℕ
unfolding decimal_onto
format_int (pos n) = decimal_onto 20 n []
format_int (negsuc n) = b'-' ∷ decimal_onto 20 (suc n) []

hex_digit : ℕ → ℕ
hex_digit d = if ltb d 10 then b'0' + d else 87 + d

hex_text : List ℕ → List ℕ
unfolding hex_digit
hex_text [] = []
hex_text (b ∷ bs) = hex_digit (b / 16 % 16) ∷ hex_digit (b % 16) ∷ hex_text bs

-- `strings.ReplaceAll(s, "'", "''")`
quoted : List ℕ → List ℕ
quoted [] = []
quoted (c ∷ cs) = if c == b'\'' then c ∷ c ∷ quoted cs else c ∷ quoted cs

operator_text : Operator → List ℕ
operator_text add = b'+' ∷ []
operator_text subtract = b'-' ∷ []
operator_text multiply = b'*' ∷ []
operator_text divide = b'/' ∷ []
operator_text modulo = b'%' ∷ []
operator_text equal = b'=' ∷ []
operator_text not_equal = b'!' ∷ b'=' ∷ []
operator_text less_than = b'<' ∷ []
operator_text less_than_or_eq = b'<' ∷ b'=' ∷ []
operator_text greater_than = b'>' ∷ []
operator_text greater_than_or_eq = b'>' ∷ b'=' ∷ []
operator_text and = b'A' ∷ b'N' ∷ b'D' ∷ []
operator_text or = b'O' ∷ b'R' ∷ []

func_text : FuncName → List ℕ
func_text count_func = b'C' ∷ b'O' ∷ b'U' ∷ b'N' ∷ b'T' ∷ []
func_text max_func = b'M' ∷ b'A' ∷ b'X' ∷ []
func_text min_func = b'M' ∷ b'I' ∷ b'N' ∷ []
func_text sum_func = b'S' ∷ b'U' ∷ b'M' ∷ []
func_text avg_func = b'A' ∷ b'V' ∷ b'G' ∷ []

module _ (format_float : ℕ → List ℕ) where
  mutual
    unfolding operator_text func_text hex_text quoted

    expr_text : Expr → List ℕ
    expr_text star = b'*' ∷ []
    expr_text (int_literal n) = format_int n
    expr_text (real_literal x) = format_float x
    expr_text (blob_literal b) = b'x' ∷ b'\'' ∷ hex_text b ++ b'\'' ∷ []
    expr_text (text_literal t) = b'\'' ∷ quoted t ++ b'\'' ∷ []
    expr_text (column name) = name
    expr_text (binary left op right) =
        b'(' ∷ expr_text left ++ b' ' ∷ (operator_text op ++ b' ' ∷ (expr_text right ++ b')' ∷ []))
    expr_text (func name args) = func_text name ++ b'(' ∷ (args_text args ++ b')' ∷ [])
    expr_text (arg i) = b'?' ∷ []

    args_text : Exprs → List ℕ
    args_text no_more = []
    args_text (one_more e no_more) = expr_text e
    args_text (one_more e (one_more f es)) = expr_text e ++ b',' ∷ b' ' ∷ args_text (one_more f es)

  unfoldable pub expr_string : Expr → List ℕ
  unfolding expr_text
  expr_string = expr_text
