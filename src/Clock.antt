-- ===== src/Clock.antt =====
-- Parts of package time that the program uses: a time in the form of RFC 3339, in UTC, printed and
-- read. A time is a number of nanoseconds since the start of the year 1.
use selected_course_projects.Prelude.{
  ℕ, zero, suc, ◌+◌, ◌-◌, ◌*◌, ◌/◌, ◌%◌, Bool, ◌&&◌, ◌||◌, not, Option, none, some, [], ◌∷◌, ◌++◌,
  leb, ltb, ◌==◌, if◌then◌else◌,
}
use selected_course_projects.Prelude.Int.{pos, sub_ℕ, pos_part}
use selected_course_projects.Prelude.Text.{Str}
use selected_course_projects.Data.{Time}

is_leap : ℕ → Bool
is_leap y = (y % 4 == 0) && (not (y % 100 == 0) || (y % 400 == 0))

-- the days of the year before a month
days_before : ℕ → Bool → ℕ
days_before m leap =
    let shift = if leap then 1 else 0 in
    if leb m 2 then 31 * (m - 1) else (153 * (m - 3) + 2) / 5 + 59 + shift

days_in : ℕ → Bool → ℕ
days_in m leap =
    if m == 2
    then (if leap then 29 else 28)
    else if (m == 4) || (m == 6) || (m == 9) || (m == 11)
    then 30
    else 31

-- the days from the start of the year -399 to the start of a year
days_to_year : ℕ → ℕ
days_to_year y = let n = y + 399 in 365 * n + n / 4 - n / 100 + n / 400

-- two digits
read2 : ℕ → ℕ → Option ℕ
read2 a b =
    if leb 48 a && leb a 57 && leb 48 b && leb b 57 then some ((a - 48) * 10 + (b - 48)) else none

-- The nanoseconds of a fraction: at most nine digits count. The zone is what follows.
read_fraction : ℕ → (unit acc : ℕ) → Str → ℕ × Str
read_fraction zero unit acc s = (acc, s)
read_fraction (suc k) unit acc [] = (acc, [])
read_fraction (suc k) unit acc (c ∷ s) =
    let rest = read_fraction k (unit / 10) (acc + (c - 48) * unit) s in
    if leb 48 c && leb c 57 then rest else (acc, c ∷ s)

fraction : Str → ℕ × Str
unfolding read_fraction
fraction [] = (0, [])
fraction (c ∷ s) = if (c == b'.') || (c == b',') then read_fraction 9 100000000 0 s else (0, c ∷ s)

infixl 5 ◌>>=◌
abbrev ◌>>=◌ : {A B : Type 0} → Option A → (A → Option B) → Option B
none >>= f = none
some a >>= f = f a

-- The offset from UTC in seconds, east of it and west of it.
zone : Str → Option (ℕ × ℕ)
unfolding read2
zone (sign ∷ h1 ∷ h2 ∷ colon ∷ m1 ∷ m2 ∷ []) = do
  h ← read2 h1 h2
  m ← read2 m1 m2
  let off = h * 3600 + m * 60
  if (colon == b':') && leb h 24 && ltb m 60
      then (if sign == b'+' then some (off, 0) else if sign == b'-' then some (0, off) else none)
      else none
zone (z ∷ []) = if z == b'Z' then some (0, 0) else none
zone _ = none

-- `time.Parse(time.RFC3339, s)`
read : Str → Option Time
unfolding is_leap days_before days_in days_to_year read2 fraction zone
read
      (y1 ∷ y2 ∷ y3 ∷ y4 ∷ d1 ∷ m1 ∷ m2 ∷ d2 ∷ a1 ∷ a2 ∷ t ∷ h1 ∷ h2 ∷ c1 ∷ n1 ∷ n2 ∷ c2 ∷ s1 ∷ s2
        ∷ rest) =
    do
      century ← read2 y1 y2
      year_of ← read2 y3 y4
      let y = century * 100 + year_of
      m ← read2 m1 m2
      d ← read2 a1 a2
      h ← read2 h1 h2
      n ← read2 n1 n2
      s ← read2 s1 s2
      let (nanos, tail) = fraction rest
      (east, west) ← zone tail
      let marks = (d1 == b'-') && (d2 == b'-') && (t == b'T') && (c1 == b':') && (c2 == b':')
      let date = leb 1 m && leb m 12 && leb 1 d && leb d (days_in m (is_leap y))
      let days = days_to_year y + days_before m (is_leap y) + (d - 1)
      let seconds = days * 86400 + h * 3600 + n * 60 + s
      if marks && date && ltb h 24 && ltb n 60 && ltb s 60
          then some
              (sub_ℕ ((seconds + west) * 1000000000 + nanos) ((146097 * 86400 + east) * 1000000000))
          else none
read _ = none

-- The program drops the error, and goes on with the zero time.
unfoldable pub parse_time : Str → Time
unfolding read
parse_time s = elim (read s) [ some t ↦ t | none ↦ pos 0 ]

abbrev two : ℕ → Str
two n = (48 + n / 10 % 10) ∷ (48 + n % 10) ∷ []

-- `t.Format(time.RFC3339)`, for a time from the year 1 on
unfoldable pub format_time : Time → Str
format_time t =
    let seconds = pos_part t / 1000000000 in
    let z = seconds / 86400 + 306 in
    let doe = z % 146097 in
    let yoe = (doe - doe / 1460 + doe / 36524 - doe / 146096) / 365 in
    let doy = doe - (365 * yoe + yoe / 4 - yoe / 100) in
    let mp = (5 * doy + 2) / 153 in
    let d = doy - (153 * mp + 2) / 5 + 1 in
    let m = if ltb mp 10 then mp + 3 else mp - 9 in
    let y = yoe + z / 146097 * 400 + (if leb m 2 then 1 else 0) in
    let time = seconds % 86400 in
    two (y / 100)
    ++ (two y
        ++ (b'-'
            ∷ (two m
                ++ (b'-'
                    ∷ (two d
                        ++ (b'T'
                            ∷ (two (time / 3600)
                                ++ (b':'
                                    ∷ (two (time / 60 % 60)
                                        ++ (b':' ∷ (two (time % 60) ++ (b'Z' ∷ []))))))))))))
