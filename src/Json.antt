-- ===== src/Json.antt =====
-- JSON values as serde_json gives them: the rules of the configuration are kept in this form.
use ghaf_device_manager.Base.{
  ℕ, String, Bool, Option, none, some, List, [], ◌∷◌, ◌=s◌, if◌then◌else◌,
}

mutual
  pub data Value : Type 0 where
    null : Value
    boolean : Bool → Value
    number : ℕ → Value
    -- A number that is no `u64`: negative, or with a fraction.
    other_number : Value
    string : String → Value
    array : Items → Value
    object : Fields → Value

  pub data Items : Type 0 where
    nil : Items
    item : Value → Items → Items

  pub data Fields : Type 0 where
    end : Fields
    field : String → Value → Fields → Fields

abbrev items : Items → List Value
items nil = []
items (item v vs) = v ∷ items vs

unfoldable pub field_of : Fields → String → Option Value
field_of end k = none
field_of (field j v fs) k = if j =s k then some v else field_of fs k

unfoldable pub get : Value → String → Option Value
unfolding field_of
get (object fs) k = field_of fs k
get v k = none

abbrev pub as_str : Value → Option String
as_str (string s) = some s
as_str v = none

abbrev pub as_bool : Value → Option Bool
as_bool (boolean b) = some b
as_bool v = none

abbrev pub as_u64 : Value → Option ℕ
as_u64 (number n) = some n
as_u64 v = none

abbrev pub as_array : Value → Option (List Value)
as_array (array vs) = some (items vs)
as_array v = none

abbrev pub and_then {ℓ κ} : {A : Type ℓ} {B : Type κ} → Option A → (A → Option B) → Option B
and_then none f = none
and_then (some a) f = f a

-- `value.get(key).and_then(Value::as_str)` and the like.
abbrev pub str_at : Value → String → Option String
str_at v k = and_then (get v k) as_str

abbrev pub u64_at : Value → String → Option ℕ
u64_at v k = and_then (get v k) as_u64

abbrev pub bool_at : Value → String → Option Bool
bool_at v k = and_then (get v k) as_bool

abbrev pub array_at : Value → String → Option (List Value)
array_at v k = and_then (get v k) as_array
