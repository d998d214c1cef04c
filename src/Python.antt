-- ===== src/Python.antt =====
-- Values of the language as the raw rows hold them (JSON documents and CSV rows), and the
-- operations of the language on them.
-- What the language does with texts and floats below the level of this program (the digits that
-- `int` and `float` read, the arithmetic of binary floats, the text that `str` gives a value, ISO
-- dates) is the instance argument `Runtime`; which operation is called, on what, in which order,
-- and what its failure leads to, is the program's and is modelled.
use pipeline_server.Prelude.{
  ℕ, String, Bool, true, false, not, Option, some, none, str_eq, if◌then◌else◌,
}
use pipeline_server.Prelude.Int.{ℤ, pos}
use pipeline_server.Domain.Errors.{
  Exc, builtin, Builtin, value_error, key_error, type_error, overflow_error,
}
use pipeline_server.Result.{Result, ok, err, or_raise}

abbrev pub bool_to_int : Bool → ℤ
bool_to_int true = pos 1
bool_to_int false = pos 0

-- A datetime is its number of milliseconds since `datetime.min`. What it has below a millisecond is
-- left out: a stored document does not keep it.
abbrev pub Datetime : Type 0
Datetime = ℕ

-- `F` is the type of floats. A stored document may hold dates, which no row of a file does.
mutual
  pub data Value (F : Type 0) : Type 0 where
    null : Value F
    bool : Bool → Value F
    int : ℤ → Value F
    float : F → Value F
    string : String → Value F
    date : Datetime → Value F
    array : Items F → Value F
    dict : Entries F → Value F

  pub data Items (F : Type 0) : Type 0 where
    nil : Items F
    cons : Value F → Items F → Items F

  pub data Entries (F : Type 0) : Type 0 where
    end : Entries F
    entry : String → Value F → Entries F → Entries F

pub record Runtime (F : Type 0) : Type 0 where
  -- `str(v)`, as an f-string writes a value
  pub str : Value F → String
  -- the text of a built-in exception that an operation raises on a value
  pub message : Builtin → Value F → String
  -- `int(text)` and `float(text)`: `none` is the ValueError
  pub parse_int : String → Option ℤ
  pub parse_float : String → Option F
  -- `float(int)`: `none` is the OverflowError of an integer that is too large
  pub float_of_int : ℤ → Option F
  -- `int(float)` of a finite float: towards zero
  pub truncate : F → ℤ
  pub is_nan : F → Bool
  pub is_inf : F → Bool
  pub lt : F → F → Bool
  pub le : F → F → Bool
  -- a float literal of the program, in hundredths
  pub hundredths : ℤ → F
  pub equals_int : F → ℤ → Bool
  pub minus : F → F → F
  pub times : F → F → F
  pub divided : F → F → F
  -- `a / b` of integers
  pub int_ratio : ℤ → ℤ → F
  -- `round(x, 1)` and `round(x, 2)`
  pub round_1 : F → F
  pub round_2 : F → F
  -- `datetime.fromisoformat(text)`: `none` is the ValueError
  pub from_iso : String → Option Datetime

module _ {F : Type 0} where
  -- `row.get(key)`
  unfoldable pub find_key : String → Entries F → Option (Value F)
  find_key key end = none
  find_key key (entry k v rest) = if str_eq k key then some v else find_key key rest

  -- `row.get(key, default)`
  abbrev pub get : Entries F → String → Value F → Value F
  get row key default = elim (find_key key row) [ some v ↦ v | none ↦ default ]

  -- `key in row`
  abbrev pub has_key : String → Entries F → Bool
  has_key key row = elim (find_key key row) [ some v ↦ true | none ↦ false ]

  unfoldable pub keys : Entries F → Items F
  keys end = nil
  keys (entry k v rest) = cons (string k) (keys rest)

module _ {F : Type 0} ⦃py : Runtime F⦄ where
  -- `raise` of a built-in exception by an operation on `v`
  abbrev pub fault : Builtin → Value F → Exc
  fault b v = builtin b (py.message b v)

  -- `row[key]`
  unfoldable pub item : Entries F → String → Result (Value F)
  unfolding find_key
  item row key = or_raise (find_key key row) (fault key_error (string key))

  -- `v[key]` for a value that need not be a dict
  unfoldable pub subscript : Value F → String → Result (Value F)
  unfolding item
  subscript (dict row) key = item row key
  subscript v key = err (fault type_error v)

  -- `bool(v)`
  unfoldable pub truthy : Value F → Bool
  truthy null = false
  truthy (bool b) = b
  truthy (int (pos ℕ.zero)) = false
  truthy (int n) = true
  truthy (float x) = not (py.equals_int x (pos 0))
  truthy (date d) = true
  truthy (string s) = not (str_eq s "")
  truthy (array nil) = false
  truthy (array (cons v vs)) = true
  truthy (dict end) = false
  truthy (dict (entry k v rest)) = true

  -- `int(x)` of a float
  unfoldable pub int_of_float : F → Result ℤ
  int_of_float x =
      if py.is_nan x
      then err (fault value_error (float x))
      else if py.is_inf x
      then err (fault overflow_error (float x))
      else ok (py.truncate x)

  -- `int(v)`
  unfoldable pub to_int : Value F → Result ℤ
  unfolding int_of_float
  to_int (bool b) = ok (bool_to_int b)
  to_int (int n) = ok n
  to_int (float x) = int_of_float x
  to_int (string s) = or_raise (py.parse_int s) (fault value_error (string s))
  to_int v = err (fault type_error v)

  -- `float(v)`
  unfoldable pub to_float : Value F → Result F
  to_float (bool b) = or_raise (py.float_of_int (bool_to_int b)) (fault overflow_error (bool b))
  to_float (int n) = or_raise (py.float_of_int n) (fault overflow_error (int n))
  to_float (float x) = ok x
  to_float (string s) = or_raise (py.parse_float s) (fault value_error (string s))
  to_float v = err (fault type_error v)

  -- `datetime.fromisoformat(v)`
  unfoldable pub to_datetime : Value F → Result Datetime
  to_datetime (string s) = or_raise (py.from_iso s) (fault value_error (string s))
  to_datetime v = err (fault type_error v)
