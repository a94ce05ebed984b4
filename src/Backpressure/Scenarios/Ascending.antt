-- ===== src/Backpressure/Scenarios/Ascending.antt =====
-- Ascending lists of numbers, for the values that adv023_backpressure/main.go sends in order.
use mathlib.Core.List.{append_assoc, append-nil}
use go_daily_learning.Prelude.{
  ℕ, zero, suc, ◌+◌, ◌≤◌, ◌≡◌, refl, Bool, true, ◌&&◌, List, [], ◌∷◌, ◌++◌, arith, length, leb,
}

-- Numbers from `lo`, strictly ascending and below `hi`.
abbrev pub ascends : ℕ → List ℕ → ℕ → Bool
ascends lo [] hi = leb lo hi
ascends lo (x ∷ xs) hi = leb lo x && ascends (x + 1) xs hi

pub ascends-snoc :
    (lo hi : ℕ) (xs : List ℕ) → ascends lo xs hi ≡ true → ascends lo (xs ++ hi ∷ []) (hi + 1) ≡ true
ascends-snoc lo hi [] h = ground arith
ascends-snoc lo hi (x ∷ xs) h = let r = ascends-snoc (x + 1) hi xs (ground arith) in ground arith

pub ascends-suc :
    (lo hi : ℕ) (xs : List ℕ) → ascends lo xs hi ≡ true → ascends lo xs (hi + 1) ≡ true
ascends-suc lo hi [] h = ground arith
ascends-suc lo hi (x ∷ xs) h = let r = ascends-suc (x + 1) hi xs (ground arith) in ground arith

ascends-length : (lo hi : ℕ) (xs : List ℕ) → ascends lo xs hi ≡ true → lo + length xs ≤ hi
ascends-length lo hi [] h = ground arith
ascends-length lo hi (x ∷ xs) h =
    let r = ascends-length (x + 1) hi xs (ground arith) in ground arith

-- A value enters the buffer, goes past an empty one, and leaves it.
pub order_sent :
    (i : ℕ) (served buf : List ℕ)
    → ascends 0 (served ++ buf) i ≡ true
    → ascends 0 (served ++ (buf ++ i ∷ [])) (i + 1) ≡ true
order_sent i served buf h =
    rw (← append_assoc served buf (i ∷ [])) (ascends-snoc 0 i (served ++ buf) h)

pub order_handed :
    (i : ℕ) (served : List ℕ)
    → ascends 0 (served ++ []) i ≡ true
    → ascends 0 ((served ++ i ∷ []) ++ []) (i + 1) ≡ true
order_handed i served h =
    rw (append-nil (served ++ i ∷ [])) (ascends-snoc 0 i served (rw (append-nil served) at h))

pub order_received :
    (i v : ℕ) (served buf : List ℕ)
    → ascends 0 (served ++ v ∷ buf) i ≡ true
    → ascends 0 ((served ++ v ∷ []) ++ buf) i ≡ true
order_received i v served buf h = rw (append_assoc served (v ∷ []) buf) h

-- `n` numbers from `lo` on.
abbrev pub upto : ℕ → ℕ → List ℕ
upto lo zero = []
upto lo (suc n) = lo ∷ upto (lo + 1) n

-- An ascending list with as many numbers as there are is all of them.
pub ascends-upto :
    (lo hi : ℕ) (xs : List ℕ)
    → ascends lo xs hi ≡ true
    → lo + length xs ≡ hi
    → xs ≡ upto lo (length xs)
ascends-upto lo hi [] h e = refl
ascends-upto lo hi (x ∷ xs) h e =
    let l = ascends-length (x + 1) hi xs (ground arith) in
    let at : x ≡ lo = ground arith in
    let r = ascends-upto (x + 1) hi xs (ground arith) (ground arith) in ground arith
