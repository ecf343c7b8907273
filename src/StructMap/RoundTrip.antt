-- ===== src/StructMap/RoundTrip.antt =====
-- Reading back what was stored gives the tagged fields again, whatever else the hash holds.
use titan_ipoverlay.Prelude.{
  ◌≡◌, refl, inl, inr, Bool, true, false, some, [], ◌∷◌, arith, Bool-cases, not, ◌&&◌,
}
use titan_ipoverlay.Prelude.Str.{Str, str_eq, str_eq_refl}
use titan_ipoverlay.Prelude.Assoc.{Assoc, lookup, insert, lookup-insert}
use titan_ipoverlay.Prelude.Int.{pos}
use titan_ipoverlay.Prelude.Decimal.{InInt64, parse_int-show}
use titan_ipoverlay.StructMap.{
  Value, text, flag, int, Struct, show_value, has_tag, put_field, put_fields, struct_to_map,
  read_value, map_to_struct,
}

-- The zero value of a kind.
abbrev pub zero_of : Value → Value
zero_of (text s) = text []
zero_of (flag b) = flag false
zero_of (int z) = int (pos 0)

abbrev pub zeroed : Struct → Struct
zeroed [] = []
zeroed (f ∷ fs) = record f { value = zero_of f.value } ∷ zeroed fs

abbrev pub Storable : Value → Type 0
Storable (text s) = Unit {0}
Storable (flag b) = Unit {0}
Storable (int z) = InInt64 z

read_value-show : (v : Value) → Storable v → read_value (zero_of v) (show_value v) ≡ some v
unfolding read_value show_value
read_value-show (text s) h = refl
read_value-show (flag true) h = unfold str_eq in refl
read_value-show (flag false) h = unfold str_eq in refl
read_value-show (int z) h = rw (parse_int-show z h)

-- No later field has the key k.
unfoldable pub fresh : Str → Struct → Bool
fresh k [] = true
fresh k (f ∷ fs) = not (str_eq f.tag k) && fresh k fs

-- Every field has a tag of its own.
unfoldable pub tagged : Struct → Bool
unfolding fresh
tagged [] = true
tagged (f ∷ fs) = (has_tag f.tag && fresh f.tag fs) && tagged fs

abbrev pub AllStorable : Struct → Type 0
AllStorable [] = Unit {0}
AllStorable (f ∷ fs) = Storable f.value × AllStorable fs

lookup-put_fields :
    (k : Str) (fs : Struct) (out : Assoc Str)
    → fresh k fs ≡ true
    → lookup k (put_fields fs out) ≡ lookup k out
unfolding put_fields fresh
lookup-put_fields k [] out h = refl
lookup-put_fields k (f ∷ fs) out h = elim (Bool-cases (has_tag f.tag)) [
  | inl has ↦
      rw
        (
          has,
          lookup-put_fields k fs (insert f.tag (show_value f.value) out) (ground arith),
          lookup-insert f.tag k (show_value f.value) out,
        )
        (ground arith)
  | inr hasnt ↦ rw (hasnt, lookup-put_fields k fs out (ground arith))
]

map_to_struct-put :
    (fs : Struct) (out : Assoc Str)
    → tagged fs ≡ true
    → AllStorable fs
    → map_to_struct (put_fields fs out) (zeroed fs) ≡ some fs
unfolding map_to_struct put_fields tagged
map_to_struct-put [] out h k = refl
map_to_struct-put (f ∷ fs) out h k =
    let has : has_tag f.tag ≡ true = ground arith in
    let new : fresh f.tag fs ≡ true = ground arith in
    let others : tagged fs ≡ true = ground arith in
    rw
      (
        has,
        lookup-put_fields f.tag fs (insert f.tag (show_value f.value) out) new,
        lookup-insert f.tag f.tag (show_value f.value) out,
      )
      (rw (str_eq_refl f.tag, read_value-show f.value k.0)
        (rw (map_to_struct-put fs (put_field f out) others k.1)))

-- A struct whose fields have tags of their own is read back from its map as it was, every string,
-- bool and int64 included.
pub map_to_struct-struct_to_map :
    (fs : Struct)
    → tagged fs ≡ true
    → AllStorable fs
    → map_to_struct (struct_to_map fs) (zeroed fs) ≡ some fs
unfolding struct_to_map
map_to_struct-struct_to_map fs h k = map_to_struct-put fs [] h k
