-- ===== src/Prelude/Text.antt =====
-- Go strings as lists of code points, with the parts of package strings that the program calls.
use Prim.Native.Char.{code}
use Prim.Native.String.{String}
use selected_course_projects.Prelude.{
  ℕ, zero, suc, ◌+◌, ◌-◌, ◌/◌, ◌%◌, ◌≡◌, ◌↔◌, Bool, true, false, ◌&&◌, ◌||◌, List, [], ◌∷◌, ◌++◌,
  arith, leb, ltb, ◌==◌, if◌then◌else◌, Eq,
}

abbrev pub Str : Type 0
Str = List ℕ

-- a literal of the source
abbrev pub str : String → Str
str String.[] = []
str (String.◌∷◌ c s) = code c ∷ str s

unfoldable pub beq_str : Str → Str → Bool
beq_str [] [] = true
beq_str [] (y ∷ ys) = false
beq_str (x ∷ xs) [] = false
beq_str (x ∷ xs) (y ∷ ys) = (x == y) && beq_str xs ys

pub beq_str_iff : (s t : Str) → (beq_str s t ≡ true) ↔ (s ≡ t)
unfolding beq_str
beq_str_iff [] [] = ground arith
beq_str_iff [] (y ∷ ys) = ground arith
beq_str_iff (x ∷ xs) [] = ground arith
beq_str_iff (x ∷ xs) (y ∷ ys) = ground (arith, beq_str_iff xs ys)

instance abbrev pub str_eq : Eq Str
str_eq = record { beq = beq_str; beq_iff = beq_str_iff }

-- unicode.IsSpace
unfoldable pub is_space : ℕ → Bool
is_space c =
    (leb 9 c && leb c 13)
    || (c == 32)
    || (c == 0x85)
    || (c == 0xa0)
    || (c == 0x1680)
    || (leb 0x2000 c && leb c 0x200a)
    || (c == 0x2028)
    || (c == 0x2029)
    || (c == 0x202f)
    || (c == 0x205f)
    || (c == 0x3000)

-- puts a character in front of the first word
abbrev pub push_char : ℕ → List Str → List Str
push_char c [] = (c ∷ []) ∷ []
push_char c (w ∷ ws) = (c ∷ w) ∷ ws

-- the words of a text and the empty ones between two spaces
unfoldable pub split_spaces : Str → List Str
split_spaces [] = [] ∷ []
split_spaces (c ∷ s) =
    let rest = split_spaces s in if is_space c then [] ∷ rest else push_char c rest

unfoldable pub drop_empty : List Str → List Str
drop_empty [] = []
drop_empty ([] ∷ ws) = drop_empty ws
drop_empty ((c ∷ w) ∷ ws) = (c ∷ w) ∷ drop_empty ws

-- strings.Fields
unfoldable pub fields : Str → List Str
unfolding is_space split_spaces drop_empty
fields s = drop_empty (split_spaces s)

unfoldable pub starts_with : Str → Str → Bool
starts_with [] s = true
starts_with (x ∷ p) [] = false
starts_with (x ∷ p) (y ∷ s) = (x == y) && starts_with p s

-- strings.Contains(s, p)
unfoldable pub contains : Str → Str → Bool
unfolding starts_with
contains [] p = starts_with p []
contains (y ∷ s) p = starts_with p (y ∷ s) || contains s p

abbrev pub length_str : Str → ℕ
length_str [] = 0
length_str (x ∷ xs) = suc (length_str xs)

-- The walk of strings.Replace for a pattern that is not empty: `skip` characters of a match that
-- was replaced are still to be passed over.
unfoldable pub replace_walk : (old new : Str) → (skip : ℕ) → Str → Str
unfolding starts_with
replace_walk old new skip [] = []
replace_walk old new zero (c ∷ s) =
    let rest = replace_walk old new zero s in
    let after = replace_walk old new (length_str old - 1) s in
    if starts_with old (c ∷ s) then new ++ after else c ∷ rest
replace_walk old new (suc k) (c ∷ s) = replace_walk old new k s

-- strings.Replace(s, old, new, -1), with `old` not empty
unfoldable pub replace_all : Str → Str → Str → Str
unfolding replace_walk
replace_all s old new = replace_walk old new 0 s

-- The digits of a number below 10^fuel in front of a text.
unfoldable pub digits_onto : (fuel : ℕ) → ℕ → Str → Str
digits_onto zero n acc = acc
digits_onto (suc k) n acc =
    let rest = digits_onto k (n / 10) ((48 + n % 10) ∷ acc) in
    if ltb n 10 then (48 + n) ∷ acc else rest
