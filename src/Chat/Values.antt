-- ===== src/Chat/Values.antt =====
-- The values that `json.loads` makes of a body, as far as the route reads them, and `int` of one.
use inference_box.Prelude.{
  zero, not, true, false, ℕ, ◌≡◌, refl, String, Bool, Option, none, some, str_eq, eq_iff, arith,
  if◌then◌else◌, Result, ok, raises,
}

-- `negsuc n` is -(n + 1).
pub data ℤ : Type 0 where
  pos : ℕ → ℤ
  negsuc : ℕ → ℤ

-- A finite float is given by its integer part, towards zero, and whether it has a fraction.
pub data Number : Type 0 where
  integer : ℤ → Number
  finite : ℤ → Bool → Number
  infinite not_a_number : Number

mutual
  pub data Json : Type 0 where
    null : Json
    boolean : Bool → Json
    number : Number → Json
    text : String → Json
    array : Items → Json
    object : Fields → Json

  pub data Items : Type 0 where
    no_items : Items
    item : Json → Items → Items

  pub data Fields : Type 0 where
    no_fields : Fields
    field : String → Json → Fields → Fields

abbrev pub whole_number : ℕ → Json
whole_number n = number (integer (pos n))

-- `d.get(k)`, with `none` for a key that is missing.
unfoldable pub lookup : String → Fields → Option Json
lookup k no_fields = none
lookup k (field j v d) = if str_eq j k then some v else lookup k d

-- `d[k] = v`
unfoldable pub put : String → Json → Fields → Fields
put k v no_fields = field k v no_fields
put k v (field j w d) = let rest = put k v d in if str_eq j k then field j v d else field j w rest

pub data Raised : Type 0 where
  type_error value_error overflow_error attribute_error : Raised

abbrev read_int : Option ℤ → Result Raised ℤ
read_int none = raises value_error
read_int (some i) = ok i

-- `int(v)`; what a text reads as is an argument.
unfoldable pub int_of : (String → Option ℤ) → Json → Result Raised ℤ
int_of int_of_text null = raises type_error
int_of int_of_text (boolean b) = ok (pos (if b then 1 else 0))
int_of int_of_text (number (integer i)) = ok i
int_of int_of_text (number (finite i has_fraction)) = ok i
int_of int_of_text (number infinite) = raises overflow_error
int_of int_of_text (number not_a_number) = raises value_error
int_of int_of_text (text s) = read_int (int_of_text s)
int_of int_of_text (array items) = raises type_error
int_of int_of_text (object o) = raises type_error

pub lookup-put :
    (k j : String) (v : Json) (d : Fields)
    → lookup j (put k v d) ≡ (if str_eq k j then some v else lookup j d)
unfolding lookup put
lookup-put k j v no_fields = refl
lookup-put k j v (field i w d) =
    ground (arith, eq_iff i k, eq_iff i j, eq_iff k j, lookup-put k j v d)

abbrev is_zero : Number → Bool
is_zero (integer (pos zero)) = true
is_zero (finite (pos zero) has_fraction) = not has_fraction
is_zero _ = false

abbrev is_empty_text : String → Bool
is_empty_text s = str_eq s ""

-- `bool(v)`
unfoldable pub truthy_value : Json → Bool
truthy_value null = false
truthy_value (boolean b) = b
truthy_value (number n) = not (is_zero n)
truthy_value (text s) = not (is_empty_text s)
truthy_value (array no_items) = false
truthy_value (array (item v vs)) = true
truthy_value (object no_fields) = false
truthy_value (object (field k v d)) = true

-- `bool(d.get(k))`
abbrev pub truthy_field : Option Json → Bool
truthy_field none = false
truthy_field (some v) = truthy_value v
