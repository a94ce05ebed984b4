-- ===== src/Text/Numbers.antt =====
-- What `strconv.ParseUint` gives on digits, and `strings.TrimSpace` on a text without white space.
use go_daily_learning.Prelude.{
  ℕ, ◌+◌, ◌-◌, ◌*◌, ◌^◌, ◌≤◌, ◌<◌, ◌≡◌, refl, ap, ◌∙◌, Bool, true, false, not, ◌&&◌, none, some, [],
  ◌∷◌, ◌++◌, arith, leb, Bool-cases, inl, inr,
}
use go_daily_learning.Text.Bytes.{
  Text, is_digit, is_space, parse_digits, parse_uint, has_no, trim_left, trim_right, add_right,
  trim_space, err_range,
}

abbrev pub all_digits : Text → Bool
all_digits [] = true
all_digits (c ∷ s) = is_digit c && all_digits s

-- The number that digits stand for, after a number read before them.
abbrev pub value : ℕ → Text → ℕ
value n [] = n
value n (c ∷ s) = value (n * 10 + (c - 48)) s

abbrev pub no_space : Text → Bool
no_space [] = true
no_space (c ∷ s) = not (is_space c) && no_space s

n≤value : (n : ℕ) (s : Text) → n ≤ value n s
n≤value n [] = omega arith
n≤value n (c ∷ s) = omega (arith, n≤value (n * 10 + (c - 48)) s)

parse_digits-value :
    (n : ℕ) (s : Text)
    → all_digits s ≡ true
    → value n s < 2 ^ 64
    → parse_digits n s ≡ (value n s, none)
parse_digits-value n [] d h = refl
parse_digits-value n (c ∷ s) d h =
    let r = parse_digits-value (n * 10 + (c - 48)) s (ground arith) h in
    let l = n≤value (n * 10 + (c - 48)) s in ground arith

pub parse_uint-value :
    (c : ℕ) (s : Text)
    → all_digits (c ∷ s) ≡ true
    → value 0 (c ∷ s) < 2 ^ 64
    → parse_uint (c ∷ s) ≡ (value 0 (c ∷ s), none)
parse_uint-value c s d h = parse_digits-value 0 (c ∷ s) d h

pub all_digits-has_no :
    (b : ℕ) (s : Text) → is_digit b ≡ false → all_digits s ≡ true → has_no b s ≡ true
all_digits-has_no b [] n d = refl
all_digits-has_no b (c ∷ s) n d = let r = all_digits-has_no b s n (ground arith) in ground arith

add_right-kept : (c : ℕ) (s : Text) → is_space c ≡ false → add_right c s ≡ c ∷ s
add_right-kept c [] h = ground arith
add_right-kept c (d ∷ s) h = refl

trim_left-kept : (c : ℕ) (s : Text) → is_space c ≡ false → trim_left (c ∷ s) ≡ c ∷ s
trim_left-kept c s h = ground arith

trim_right-no_space : (s : Text) → no_space s ≡ true → trim_right s ≡ s
trim_right-no_space [] h = refl
trim_right-no_space (c ∷ s) h =
    ap (add_right c) (trim_right-no_space s (ground arith)) ∙ add_right-kept c s (ground arith)

pub trim_space-no_space : (s : Text) → no_space s ≡ true → trim_space s ≡ s
trim_space-no_space [] h = refl
trim_space-no_space (c ∷ s) h =
    ap trim_right (trim_left-kept c s (ground arith)) ∙ trim_right-no_space (c ∷ s) h

pub no_space-has_no : (s : Text) → no_space s ≡ true → has_no 10 s ≡ true
no_space-has_no [] h = refl
no_space-has_no (c ∷ s) h = let r = no_space-has_no s (ground arith) in ground arith

pub parse_uint-range :
    (c : ℕ) (s : Text)
    → all_digits (c ∷ s) ≡ true
    → 2 ^ 64 ≤ value 0 (c ∷ s)
    → parse_uint (c ∷ s) ≡ (2 ^ 64 - 1, some err_range)
parse_uint-range c s d h = parse_digits-range 0 (c ∷ s) (omega arith) d h
  where
    parse_digits-range :
        (n : ℕ) (s : Text)
        → n < 2 ^ 64
        → all_digits s ≡ true
        → 2 ^ 64 ≤ value n s
        → parse_digits n s ≡ (2 ^ 64 - 1, some err_range)
    parse_digits-range n [] l d h = absurd (omega arith)
    parse_digits-range n (c ∷ s) l d h = elim (Bool-cases (leb (2 ^ 64) (n * 10 + (c - 48)))) [
      | inl b ↦ ground arith
      | inr b ↦
          let r = parse_digits-range (n * 10 + (c - 48)) s (ground arith) (ground arith) h in
          ground arith
    ]

-- A text that is not empty and whose last byte is no white space.
pub ends_no_space : Text → Bool
ends_no_space [] = false
ends_no_space (c ∷ []) = not (is_space c)
ends_no_space (c ∷ d ∷ s) = ends_no_space (d ∷ s)

pub ends_no_space-last : (c : ℕ) → is_space c ≡ false → ends_no_space (c ∷ []) ≡ true
unfolding ends_no_space
ends_no_space-last c h = ground arith

pub ends_no_space-cons : (c : ℕ) (s : Text) → ends_no_space s ≡ true → ends_no_space (c ∷ s) ≡ true
unfolding ends_no_space
ends_no_space-cons c [] h = absurd (ground arith)
ends_no_space-cons c (d ∷ s) h = h

pub ends_no_space-append : (p s : Text) → ends_no_space s ≡ true → ends_no_space (p ++ s) ≡ true
ends_no_space-append [] s h = h
ends_no_space-append (c ∷ p) s h = ends_no_space-cons c (p ++ s) (ends_no_space-append p s h)

trim_right-kept : (s : Text) → ends_no_space s ≡ true → trim_right s ≡ s
unfolding ends_no_space
trim_right-kept [] h = absurd (ground arith)
trim_right-kept (c ∷ []) h = ground arith
trim_right-kept (c ∷ d ∷ s) h = ap (add_right c) (trim_right-kept (d ∷ s) h)

pub trim_space-kept :
    (c : ℕ) (s : Text)
    → is_space c ≡ false
    → ends_no_space (c ∷ s) ≡ true
    → trim_space (c ∷ s) ≡ c ∷ s
trim_space-kept c s h k = ap trim_right (trim_left-kept c s h) ∙ trim_right-kept (c ∷ s) k

pub all_digits-ends_no_space :
    (c : ℕ) (s : Text) → all_digits (c ∷ s) ≡ true → ends_no_space (c ∷ s) ≡ true
unfolding ends_no_space
all_digits-ends_no_space c [] h = ground arith
all_digits-ends_no_space c (d ∷ s) h = all_digits-ends_no_space d s (ground arith)
