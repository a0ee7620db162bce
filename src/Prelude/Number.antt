-- ===== src/Prelude/Number.antt =====
-- Numbers as texts: the parts of package strconv that the program calls, and int32 of an int.
use selected_course_projects.Prelude.{
  ℕ, ◌+◌, ◌-◌, ◌*◌, ◌%◌, Bool, true, false, ◌&&◌, Option, none, some, [], ◌∷◌, leb, ltb, ◌==◌,
  if◌then◌else◌,
}
use selected_course_projects.Prelude.Int.{ℤ, pos, negsuc, sub_ℕ}
use selected_course_projects.Prelude.Text.{Str, digits_onto}

-- strconv.Itoa of an int32
unfoldable pub itoa : ℤ → Str
unfolding digits_onto
itoa (pos n) = digits_onto 10 n []
itoa (negsuc n) = b'-' ∷ digits_onto 10 (n + 1) []

-- the value of a text of digits
unfoldable pub read_digits : (acc : ℕ) → Str → Option ℕ
read_digits acc [] = some acc
read_digits acc (c ∷ s) =
    let rest = read_digits (acc * 10 + (c - 48)) s in if leb 48 c && leb c 57 then rest else none

unfoldable pub read_number : Str → Option ℕ
unfolding read_digits
read_number [] = none
read_number (c ∷ s) = read_digits 0 (c ∷ s)

-- -n
abbrev pub minus : ℕ → ℤ
minus n = sub_ℕ 0 n

-- The value below 2 ^ bits in size, and whether there was no error: a value out of range is the
-- nearest in it, a text that is no number is 0.
abbrev pub in_range : (limit : ℕ) → (below : Bool) → Option ℕ → ℤ × Bool
in_range limit below none = (pos 0, false)
in_range limit true (some n) = if leb n limit then (minus n, true) else (minus limit, false)
in_range limit false (some n) = if ltb n limit then (pos n, true) else (pos (limit - 1), false)

unfoldable pub parse_signed : (limit : ℕ) → Str → ℤ × Bool
unfolding read_number
parse_signed limit [] = (pos 0, false)
parse_signed limit (c ∷ s) =
    if c == b'-'
    then in_range limit true (read_number s)
    else if c == b'+'
    then in_range limit false (read_number s)
    else in_range limit false (read_number (c ∷ s))

-- strconv.Atoi
unfoldable pub atoi : Str → ℤ × Bool
unfolding parse_signed
atoi s = parse_signed 9223372036854775808 s

-- strconv.ParseInt(s, 10, 32)
unfoldable pub parse_int32 : Str → ℤ
unfolding parse_signed
parse_int32 s = (parse_signed 2147483648 s).0

-- int32(i)
unfoldable pub to_int32 : ℤ → ℤ
to_int32 (pos n) =
    let r = n % 4294967296 in if ltb r 2147483648 then pos r else negsuc (4294967295 - r)
to_int32 (negsuc n) =
    let r = n % 4294967296 in if ltb r 2147483648 then negsuc r else pos (4294967295 - r)
