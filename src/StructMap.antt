-- ===== src/StructMap.antt =====
-- ippop/model/structmap.go (and its copy manager/model/structmap.go): a struct as the map of
-- strings that is stored in Redis, and back. A struct is the list of its exported fields, each with
-- its name, its `redis` tag and its value. The structs of the program have string, bool and integer
-- fields; the other kinds that the source accepts (floats, times) occur in none of them.
pub mod RoundTrip
use titan_ipoverlay.Prelude.{
  Bool, true, false, ◌||◌, Option, none, some, List, [], ◌∷◌, if◌then◌else◌,
}
use titan_ipoverlay.Prelude.Str.{Str, codes, str_eq}
use titan_ipoverlay.Prelude.Assoc.{Assoc, lookup, insert}
use titan_ipoverlay.Prelude.Int.{ℤ, pos}
use titan_ipoverlay.Prelude.Decimal.{ParsedInt, valid, parse_int, show_int}

pub data Value : Type 0 where
  text : Str → Value
  flag : Bool → Value
  int : ℤ → Value

-- `tag` is empty where the field has none.
pub record Field : Type 0 where
  pub name : Str
  pub tag : Str
  pub value : Value

abbrev pub Struct : Type 0
Struct = List Field

-- fmt.Sprintf("%v", value)
unfoldable pub show_value : Value → Str
show_value (text s) = s
show_value (flag true) = codes "true"
show_value (flag false) = codes "false"
show_value (int z) = show_int z

unfoldable pub has_tag : Str → Bool
has_tag [] = false
has_tag (c ∷ cs) = if str_eq (c ∷ cs) (codes "-") then false else true

put_field : Field → Assoc Str → Assoc Str
unfolding has_tag
put_field f out = if has_tag f.tag then insert f.tag (show_value f.value) out else out

put_fields : Struct → Assoc Str → Assoc Str
unfolding put_field
put_fields [] out = out
put_fields (f ∷ fs) out = put_fields fs (put_field f out)

unfoldable pub struct_to_map : Struct → Assoc Str
unfolding put_fields
struct_to_map fs = put_fields fs []

-- strconv.ParseBool
parse_bool : Str → Option Bool
parse_bool s =
    if str_eq s (codes "1")
      || str_eq s (codes "t")
      || str_eq s (codes "T")
      || str_eq s (codes "true")
      || str_eq s (codes "TRUE")
      || str_eq s (codes "True")
    then some true
    else if str_eq s (codes "0")
        || str_eq s (codes "f")
        || str_eq s (codes "F")
        || str_eq s (codes "false")
        || str_eq s (codes "FALSE")
        || str_eq s (codes "False")
    then some false
    else none

as_flag : Option Bool → Option Value
as_flag none = none
as_flag (some b) = some (flag b)

as_int : ParsedInt → Option Value
as_int (valid z) = some (int z)
as_int _ = none

-- The value read from a text, of the kind of the field's present value.
unfoldable pub read_value : Value → Str → Option Value
unfolding parse_bool as_flag as_int
read_value (text old) s = some (text s)
read_value (flag old) s = as_flag (parse_bool s)
read_value (int old) s = as_int (parse_int s)

key_of : Field → Str
unfolding has_tag
key_of f = if has_tag f.tag then f.tag else f.name

set_value : Field → Option Value → Option Field
set_value f none = none
set_value f (some v) = some (record f { value = v })

read_field : Field → Option Str → Option Field
unfolding read_value set_value
read_field f none = some f
read_field f (some s) = set_value f (read_value f.value s)

cons_field : Option Field → Option Struct → Option Struct
cons_field none fs = none
cons_field (some f) none = none
cons_field (some f) (some fs) = some (f ∷ fs)

-- `none` is an error of a field; a field whose key is missing keeps its value.
unfoldable pub map_to_struct : Assoc Str → Struct → Option Struct
unfolding key_of read_field cons_field
map_to_struct m [] = some []
map_to_struct m (f ∷ fs) = cons_field (read_field f (lookup (key_of f) m)) (map_to_struct m fs)
