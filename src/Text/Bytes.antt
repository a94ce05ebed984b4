-- ===== src/Text/Bytes.antt =====
-- Prefixes, searches and numbers in a text.
use Prim.Native.Char.{code}
use Prim.Native.String.{String}
use go_daily_learning.Prelude.{
  ℕ, suc, ◌+◌, ◌-◌, ◌*◌, ◌^◌, ◌≡◌, refl, ap, Bool, true, false, not, ◌&&◌, ◌||◌, Option, none, some,
  List, [], ◌∷◌, ◌++◌, arith, leb, ◌==◌, if◌then◌else◌, ◌>>=◌, length, take, drop,
}

abbrev pub Text : Type 0
Text = List ℕ

-- The bytes of an ASCII literal.
abbrev pub codes : String → Text
codes String.[] = []
codes (String.◌∷◌ c s) = code c ∷ codes s

-- `strings.HasPrefix`.
abbrev pub has_prefix : Text → Text → Bool
has_prefix s [] = true
has_prefix [] (p ∷ ps) = false
has_prefix (c ∷ s) (p ∷ ps) = c == p && has_prefix s ps

-- `strings.TrimPrefix`.
abbrev pub trim_prefix : Text → Text → Text
trim_prefix s p = if has_prefix s p then drop (length p) s else s

-- `strings.IndexByte`; `none` is its -1.
abbrev pub index_byte : Text → ℕ → Option ℕ
index_byte [] b = none
index_byte (c ∷ s) b =
    let rest = index_byte s b in if c == b then some 0 else (rest >>= λ i. some (suc i))

-- `strings.Contains`.
abbrev pub contains : Text → Text → Bool
contains [] sub = has_prefix [] sub
contains (c ∷ s) sub = has_prefix (c ∷ s) sub || contains s sub

abbrev pub is_space : ℕ → Bool
is_space c = c == 32 || (leb 9 c && leb c 13)

abbrev pub trim_left : Text → Text
trim_left [] = []
trim_left (c ∷ s) = let rest = trim_left s in if is_space c then rest else c ∷ s

abbrev pub add_right : ℕ → Text → Text
add_right c [] = if is_space c then [] else c ∷ []
add_right c (d ∷ s) = c ∷ d ∷ s

abbrev pub trim_right : Text → Text
trim_right [] = []
trim_right (c ∷ s) = add_right c (trim_right s)

-- `strings.TrimSpace`.
abbrev pub trim_space : Text → Text
trim_space s = trim_right (trim_left s)

abbrev pub is_digit : ℕ → Bool
is_digit c = leb 48 c && leb c 57

pub data NumError : Type 0 where
  err_syntax : NumError
  err_range : NumError

-- The loop of `strconv.ParseUint(s, 10, 64)`: the value that it returns with an error is 0 for a
-- byte that is no digit, and the largest value out of range.
abbrev pub parse_digits : ℕ → Text → ℕ × Option NumError
parse_digits n [] = (n, none)
parse_digits n (c ∷ s) =
    let rest = parse_digits (n * 10 + (c - 48)) s in
    if not (is_digit c)
    then (0, some err_syntax)
    else if leb (2 ^ 64) (n * 10 + (c - 48))
    then (2 ^ 64 - 1, some err_range)
    else rest

abbrev pub parse_uint : Text → ℕ × Option NumError
parse_uint [] = (0, some err_syntax)
parse_uint (c ∷ s) = parse_digits 0 (c ∷ s)

-- A byte that is nowhere in a text.
abbrev pub has_no : ℕ → Text → Bool
has_no b [] = true
has_no b (c ∷ s) = not (c == b) && has_no b s

pub has_prefix-append : (p s : Text) → has_prefix (p ++ s) p ≡ true
has_prefix-append [] s = refl
has_prefix-append (c ∷ p) s = ground (arith, has_prefix-append p s)

pub drop-append : (p s : Text) → drop (length p) (p ++ s) ≡ s
drop-append [] s = refl
drop-append (c ∷ p) s = drop-append p s

pub trim_prefix-append : (p s : Text) → trim_prefix (p ++ s) p ≡ s
trim_prefix-append p s = ground (arith, has_prefix-append p s, drop-append p s)

pub take-append : (p s : Text) → take (length p) (p ++ s) ≡ p
take-append [] s = refl
take-append (c ∷ p) s = ap (◌∷◌ c) (take-append p s)

-- The first place of a byte, where the text is cut at it.
pub index_byte-append :
    (b : ℕ) (p s : Text) → has_no b p ≡ true → index_byte (p ++ b ∷ s) b ≡ some (length p)
index_byte-append b [] s h = ground arith
index_byte-append b (c ∷ p) s h = let r = index_byte-append b p s (ground arith) in ground arith

pub index_byte-none : (b : ℕ) (s : Text) → has_no b s ≡ true → index_byte s b ≡ none
index_byte-none b [] h = refl
index_byte-none b (c ∷ s) h = let r = index_byte-none b s (ground arith) in ground arith

pub has_no-append :
    (b : ℕ) (p s : Text) → has_no b p ≡ true → has_no b s ≡ true → has_no b (p ++ s) ≡ true
has_no-append b [] s hp hs = hs
has_no-append b (c ∷ p) s hp hs = let r = has_no-append b p s (ground arith) hs in ground arith
