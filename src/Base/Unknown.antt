-- ===== src/Base/Unknown.antt =====
-- The values that reach the decoders as `unknown`: JSON values, `undefined` included. A number is an
-- integer, a finite number that is none, or one of NaN and the infinities.
use Prim.Native.Nat.{ℕ, ◌≤◌}
use mathlib.Core.Path.{◌≡◌}
use native.Mathlib.Omega.{arith}
use mathlib.Core.Bool.{Bool, true, false, ◌&&◌, ◌||◌}
use mathlib.Core.Option.{Option, none, some}
use mathlib.Core.List.{List, [], ◌∷◌}
use dotconfig.Base.Tests.{leb, ltb, if◌then◌else◌}
use dotconfig.Base.Lists.{any}
use dotconfig.Base.Int.{ℤ, pos, negsuc}
use dotconfig.Base.Strings.{Text, text_eq}

-- `Number.MAX_SAFE_INTEGER`
abbrev pub max_safe_integer : ℕ
max_safe_integer = 9007199254740991

pub data Number : Type 0 where
  int : ℤ → Number
  fractional : Number
  non_finite : Number

mutual
  pub data Value : Type 0 where
    undefined : Value
    null : Value
    bool : Bool → Value
    num : Number → Value
    str : Text → Value
    arr : Items → Value
    obj : Fields → Value

  pub data Items : Type 0 where
    nil : Items
    cons : Value → Items → Items

  pub data Fields : Type 0 where
    end : Fields
    field : Text → Value → Fields → Fields

abbrev pub items : Items → List Value
items nil = []
items (cons v vs) = v ∷ items vs

unfoldable pub lookup_field : Text → Fields → Value
unfolding text_eq
lookup_field k end = undefined
lookup_field k (field j v fs) = if text_eq j k then v else lookup_field k fs

-- `key in value`
unfoldable pub has_key : Text → Fields → Bool
unfolding text_eq
has_key k end = false
has_key k (field j v fs) = text_eq j k || has_key k fs

-- `Object.keys(value).every(key => keys.includes(key))`
abbrev pub only_keys : List Text → Fields → Bool
only_keys keys end = true
only_keys keys (field k v fs) = any (text_eq k) keys && only_keys keys fs

-- `isRecord(value)` with the fields of the record; `value.k` is `lookup_field k fields`.
abbrev pub as_record : Value → Option Fields
as_record (obj fs) = some fs
as_record _ = none

abbrev pub as_array : Value → Option (List Value)
as_array (arr vs) = some (items vs)
as_array _ = none

abbrev pub as_text : Value → Option Text
as_text (str s) = some s
as_text _ = none

abbrev pub as_bool : Value → Option Bool
as_bool (bool b) = some b
as_bool _ = none

abbrev pub is_undefined : Value → Bool
is_undefined undefined = true
is_undefined _ = false

-- `value === "literal"`
abbrev pub is_text : Value → Text → Bool
is_text (str s) t = text_eq s t
is_text _ t = false

-- `value === true`
abbrev pub is_true : Value → Bool
is_true (bool b) = b
is_true _ = false

-- `Number.isSafeInteger(value)`, with the integer.
abbrev pub as_safe_integer : Value → Option ℤ
as_safe_integer (num (int (pos n))) = if leb n max_safe_integer then some (pos n) else none
as_safe_integer (num (int (negsuc n))) = if ltb n max_safe_integer then some (negsuc n) else none
as_safe_integer _ = none

-- `Number.isSafeInteger(value) && value >= 0`, with the number.
abbrev pub as_counter : Value → Option ℕ
as_counter (num (int (pos n))) = if leb n max_safe_integer then some n else none
as_counter _ = none

pub as_counter-eq-some : (v : Value) {n : ℕ} → as_counter v ≡ some n → n ≤ max_safe_integer
as_counter-eq-some (num (int (pos m))) h = ground arith
as_counter-eq-some (num (int (negsuc m))) h = cc
as_counter-eq-some (num fractional) h = cc
as_counter-eq-some (num non_finite) h = cc
as_counter-eq-some undefined h = cc
as_counter-eq-some null h = cc
as_counter-eq-some (bool b) h = cc
as_counter-eq-some (str s) h = cc
as_counter-eq-some (arr vs) h = cc
as_counter-eq-some (obj fs) h = cc
