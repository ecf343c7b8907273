-- ===== src/Prelude/Decimal.antt =====
-- strconv and fmt on decimal integers of 64 bits, and conversions between machine integers.
use Prim.Native.Nat.{ℕ, zero, suc, ◌+◌, ◌-◌, ◌*◌, ◌/◌, ◌%◌, ◌^◌, ◌≤◌, ◌<◌}
use mathlib.Core.Path.{◌≡◌, refl}
use mathlib.Core.Logic.{inl, inr}
use mathlib.Core.Bool.{◌&&◌}
use mathlib.Core.List.{[], ◌∷◌, ◌++◌}
use mathlib.Core.Option.{Option, none, some}
use native.Mathlib.Omega.{arith}
use titan_ipoverlay.Prelude.Tests.{ltb, leb, ◌==◌, if◌then◌else◌, Bool-cases}
use titan_ipoverlay.Prelude.Int.{ℤ, pos, negsuc, pos_part, neg_part}
use titan_ipoverlay.Prelude.Str.{Str}

abbrev pub max_int64 : ℕ
max_int64 = 2 ^ 63 - 1

abbrev pub InInt64 : ℤ → Type 0
InInt64 z = (pos_part z ≤ max_int64) × (neg_part z ≤ 2 ^ 63)

-- What strconv.ParseInt(s, 10, 64) reports; out of range, Go also gives the nearest bound.
pub data ParsedInt : Type 0 where
  valid : ℤ → ParsedInt
  bad_syntax : ParsedInt
  out_of_range : ℤ → ParsedInt

unfoldable pub read_digits : ℕ → Str → Option ℕ
read_digits n [] = some n
read_digits n (c ∷ cs) =
    let rest = read_digits (n * 10 + (c - 48)) cs in if leb 48 c && leb c 57 then rest else none

unfoldable pub read_nat : Str → Option ℕ
unfolding read_digits
read_nat [] = none
read_nat (c ∷ cs) = read_digits 0 (c ∷ cs)

abbrev positive : Option ℕ → ParsedInt
positive none = bad_syntax
positive (some n) = if leb n max_int64 then valid (pos n) else out_of_range (pos max_int64)

abbrev negative : Option ℕ → ParsedInt
negative none = bad_syntax
negative (some zero) = valid (pos 0)
negative (some (suc n)) =
    if leb n max_int64 then valid (negsuc n) else out_of_range (negsuc max_int64)

unfoldable pub parse_int : Str → ParsedInt
unfolding read_nat
parse_int [] = bad_syntax
parse_int (c ∷ cs) =
    if c == b'-'
    then negative (read_nat cs)
    else if c == b'+'
    then positive (read_nat cs)
    else positive (read_nat (c ∷ cs))

-- i, _ := strconv.Atoi(s): the value beside an error that is dropped.
unfoldable pub atoi_value : ParsedInt → ℤ
atoi_value (valid z) = z
atoi_value bad_syntax = pos 0
atoi_value (out_of_range z) = z

-- uint16(z)
unfoldable pub uint16 : ℤ → ℕ
uint16 (pos n) = n % 65536
uint16 (negsuc n) = 65535 - n % 65536

signed64 : ℕ → ℤ
signed64 w = if leb w max_int64 then pos w else negsuc (2 ^ 64 - w - 1)

-- The integer that an int64 holds after an operation whose exact result is z.
unfoldable pub wrap64 : ℤ → ℤ
unfolding signed64
wrap64 (pos n) = signed64 (n % 2 ^ 64)
wrap64 (negsuc n) = signed64 (2 ^ 64 - 1 - n % 2 ^ 64)

pub wrap64_in_range : (z : ℤ) → InInt64 z → wrap64 z ≡ z
unfolding wrap64
wrap64_in_range (pos n) h = ground arith
wrap64_in_range (negsuc n) h = ground arith

-- fmt's %d of a natural number; the fuel suffices when it exceeds the number.
show_digits : ℕ → ℕ → Str
show_digits zero n = []
show_digits (suc f) n =
    let more = show_digits f (n / 10) ++ (48 + n % 10) ∷ [] in
    if ltb n 10 then (48 + n) ∷ [] else more

unfoldable pub show_nat : ℕ → Str
unfolding show_digits
show_nat n = show_digits (suc n) n

unfoldable pub show_int : ℤ → Str
unfolding show_nat
show_int (pos n) = show_nat n
show_int (negsuc n) = b'-' ∷ show_nat (suc n)

abbrev digit_after : Option ℕ → ℕ → Option ℕ
digit_after none d = none
digit_after (some m) d = some (m * 10 + d)

read_digits-snoc :
    (n d : ℕ) (s : Str)
    → d < 10
    → read_digits n (s ++ (48 + d) ∷ []) ≡ digit_after (read_digits n s) d
unfolding read_digits
read_digits-snoc n d [] h = ground arith
read_digits-snoc n d (c ∷ s) h = ground (arith, read_digits-snoc (n * 10 + (c - 48)) d s h)

read_digits-show : (f n : ℕ) → n < f → read_digits 0 (show_digits f n) ≡ some n
unfolding show_digits
read_digits-show zero n h = elim h [ ]
read_digits-show (suc f) n h = elim (Bool-cases (ltb n 10)) [
  | inl small ↦ rw small (unfold read_digits in ground arith)
  | inr big ↦ rw big (
      ground
        (arith, read_digits-snoc 0 (n % 10) (show_digits f (n / 10)), read_digits-show f (n / 10)))
]

-- The text of a number starts with a digit, so it is neither empty nor signed.
record StartsWithDigit (s : Str) : Type 0 where
  first : ℕ
  others : Str
  splits : s ≡ first ∷ others
  low : 48 ≤ first
  high : first ≤ 57

StartsWithDigit-append : (s t : Str) → StartsWithDigit s → StartsWithDigit (s ++ t)
StartsWithDigit-append s t d = record {
  first = d.first;
  others = d.others ++ t;
  splits = rw d.splits;
  low = d.low;
  high = d.high;
}

StartsWithDigit-show : (f n : ℕ) → n < f → StartsWithDigit (show_digits f n)
unfolding show_digits
StartsWithDigit-show zero n h = elim h [ ]
StartsWithDigit-show (suc f) n h = elim (Bool-cases (ltb n 10)) [
  | inl small ↦ rw small (record {
    first = 48 + n;
    others = [];
    splits = refl;
    low = omega arith;
    high = ground arith;
  })
  | inr big ↦ rw big (
      StartsWithDigit-append (show_digits f (n / 10)) _
        (StartsWithDigit-show f (n / 10) (ground arith)))
]

read_nat-digit : (s : Str) → StartsWithDigit s → read_nat s ≡ read_digits 0 s
unfolding read_nat
read_nat-digit s d = rw d.splits

parse_int-digit : (s : Str) → StartsWithDigit s → parse_int s ≡ positive (read_nat s)
unfolding parse_int
parse_int-digit s d = rw d.splits (ground (arith, d.low, d.high))

pub read_nat-show : (n : ℕ) → read_nat (show_nat n) ≡ some n
unfolding show_nat
read_nat-show n =
    rw (read_nat-digit _ (StartsWithDigit-show (suc n) n (omega arith)))
      (read_digits-show (suc n) n (omega arith))

-- Reading back the text of an int64 gives the number.
pub parse_int-show : (z : ℤ) → InInt64 z → parse_int (show_int z) ≡ valid z
unfolding show_int
parse_int-show (pos n) h =
    rw
      (
        parse_int-digit _ (unfold show_nat in StartsWithDigit-show (suc n) n (omega arith)),
        read_nat-show n,
      )
      (ground arith)
parse_int-show (negsuc n) h = unfold parse_int in rw (read_nat-show (suc n)) (ground arith)

abbrev pub AllDigits : Str → Type 0
AllDigits [] = Unit {0}
AllDigits (c ∷ cs) = (48 ≤ c) × (c ≤ 57) × AllDigits cs

AllDigits-append : (s t : Str) → AllDigits s → AllDigits t → AllDigits (s ++ t)
AllDigits-append [] t hs ht = ht
AllDigits-append (c ∷ s) t hs ht = (hs.0, hs.1, AllDigits-append s t hs.2 ht)

AllDigits-show_digits : (f n : ℕ) → AllDigits (show_digits f n)
unfolding show_digits
AllDigits-show_digits zero n = tt
AllDigits-show_digits (suc f) n = elim (Bool-cases (ltb n 10)) [
  | inl small ↦ rw small (omega arith, ground arith, tt)
  | inr big ↦ rw big (
      AllDigits-append (show_digits f (n / 10)) _ (AllDigits-show_digits f (n / 10))
        (omega arith, omega arith, tt))
]

pub show_nat-AllDigits : (n : ℕ) → AllDigits (show_nat n)
unfolding show_nat
show_nat-AllDigits n = AllDigits-show_digits (suc n) n
