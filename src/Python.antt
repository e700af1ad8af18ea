-- ===== src/Python.antt =====
-- The values of Python that cross an interface as JSON (an exchange response, a queue row, an
-- environment setting), and the built-in conversions that the sources apply to them.
-- A finite float is an exact dyadic fraction; what the arithmetic on floats and the built-in
-- `str`, `int` and `float` return is a parameter, since no theorem here depends on rounding. `none`
-- stands for a TypeError or a ValueError of `int` and `float`. Their OverflowError (`int` of an
-- infinity, `float` of an integer beyond the range of floats), which backend/execution_handoff.py does
-- not catch everywhere, is not represented: such inputs are outside the models.
pub mod Decimals
pub mod Fixed
pub mod Laws
pub mod Order
use Prim.Native.Char.{Char}
use Prim.Native.String.{◌++◌ as append}
use bybit_intraday_trading_b.Prelude.{
  ℕ, String, Bool, true, false, not, ◌||◌, Option, none, some, str_eq, if◌then◌else◌,
}
use bybit_intraday_trading_b.Prelude.Int.{ℤ, pos, is_zero}

-- `finite m e` is m / 2 ^ e
pub data Float : Type 0 where
  finite : ℤ → ℕ → Float
  infinite : Bool → Float
  nan : Float

mutual
  pub data Value : Type 0 where
    null : Value
    bool : Bool → Value
    int : ℤ → Value
    float : Float → Value
    str : String → Value
    arr : Items → Value
    dict : Fields → Value

  pub data Items : Type 0 where
    nil : Items
    cons : Value → Items → Items

  pub data Fields : Type 0 where
    end : Fields
    field : String → Value → Fields → Fields

-- `d.get(key)`, with `None` for a missing key
unfoldable pub get : String → Fields → Value
get k end = null
get k (field j v d) = if str_eq j k then v else get k d

-- `d.get(key, default)`
unfoldable pub get_or : String → Value → Fields → Value
get_or k v end = v
get_or k v (field j w d) = if str_eq j k then w else get_or k v d

-- `key in d`
unfoldable pub has : String → Fields → Bool
has k end = false
has k (field j v d) = str_eq j k || has k d

-- `d[key] = v`: a key that is there keeps its place
unfoldable pub put : String → Value → Fields → Fields
put k v end = field k v end
put k v (field j w d) = let rest = put k v d in if str_eq j k then field j v d else field j w rest

-- `{**d, **updates}`
unfoldable pub merge : Fields → Fields → Fields
merge d end = d
merge d (field k v updates) = merge (put k v d) updates

abbrev pub is_float_zero : Float → Bool
is_float_zero (finite m e) = is_zero m
is_float_zero _ = false

abbrev pub is_empty : String → Bool
is_empty String.[] = true
is_empty (String.◌∷◌ _ _) = false

-- `bool(v)`
abbrev pub truthy : Value → Bool
truthy null = false
truthy (bool b) = b
truthy (int n) = not (is_zero n)
truthy (float x) = not (is_float_zero x)
truthy (str s) = not (is_empty s)
truthy (arr nil) = false
truthy (arr (cons _ _)) = true
truthy (dict end) = false
truthy (dict (field _ _ _)) = true

-- `a or b`
abbrev pub or_else : Value → Value → Value
or_else a b = if truthy a then a else b

-- `v is True`, `v is False`
abbrev pub is_true : Value → Bool
is_true (bool true) = true
is_true _ = false

abbrev pub is_false : Value → Bool
is_false (bool false) = true
is_false _ = false

-- `v == text`
abbrev pub is_text : String → Value → Bool
is_text text (str s) = str_eq s text
is_text text _ = false

-- `v == 0`, which also holds of 0.0 and of False
abbrev pub equals_zero : Value → Bool
equals_zero (int n) = is_zero n
equals_zero (float x) = is_float_zero x
equals_zero (bool b) = not b
equals_zero _ = false

-- `v if isinstance(v, dict) else None`
abbrev pub as_dict : Value → Option Fields
as_dict (dict d) = some d
as_dict _ = none

-- what a call returns, or the text of the exception that it raises
pub data Result (A : Type 0) : Type 0 where
  returns : A → Result A
  raises : String → Result A

-- `Decimal(text)`: the number c * 10 ^ e, or an infinity or no number
pub data Decimal : Type 0 where
  decimal : ℤ → ℤ → Decimal
  not_finite : Decimal

-- Python's built-ins. `none` stands for a `TypeError` or a `ValueError`.
pub record Python : Type 0 where
  pub to_str : Value → String
  pub to_int : Value → Option ℤ
  pub to_float : Value → Option Float
  pub upper : String → String
  pub isalnum : Char → Bool
  pub lower : Char → String
  pub lt : Float → Float → Bool
  pub le : Float → Float → Bool
  pub sub : Float → Float → Float
  pub mul : Float → Float → Float
  pub div : Float → Float → Float
  pub abs : Float → Float
  pub strip : String → String
  pub to_decimal : String → Option Decimal

abbrev pub float_of_ℕ : ℕ → Float
float_of_ℕ n = finite (pos n) 0

module _ (py : Python) where
  -- `s.lower()`
  unfoldable pub lowered : String → String
  lowered String.[] = ""
  lowered (String.◌∷◌ c s) = append (py.lower c) (lowered s)

  -- `str(v or "")`
  abbrev pub str_or_empty : Value → String
  str_or_empty v = py.to_str (or_else v (str ""))

  -- `float(v or 0)`
  abbrev pub float_or_zero : Value → Option Float
  float_or_zero v = py.to_float (or_else v (int (pos 0)))
