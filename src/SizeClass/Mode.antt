-- ===== src/SizeClass/Mode.antt =====
-- The mode of the gaps and the number of different addresses in adv026_mallocgc/main.go.
use go_daily_learning.Prelude.{
  ℕ, ◌+◌, ◌≤◌, ◌<◌, ◌≡◌, refl, sym, ap, ◌∙◌, Bool, true, ◌&&◌, ◌||◌, not, List, [], ◌∷◌, ◌++◌,
  arith, length, ltb, ◌==◌, if◌then◌else◌, Bool-cases, inl, inr,
}
use go_daily_learning.Prelude.Int.{ℤ, pos}
use go_daily_learning.SizeClass.Gaps.{
  bump, mode_loop, mode_gap, is_seen, see, see_all, see_parts, count_unique,
}

-- How often a number stands in a list.
abbrev pub count : ℕ → List ℕ → ℕ
count d [] = 0
count d (x ∷ xs) = (if d == x then 1 else 0) + count d xs

-- The most frequent number so far, and no other occurs more often.
record Leads (counts : ℕ → ℕ) (g : List ℕ) (best n : ℕ) : Type 0 where
  here : counts best + count best g ≡ n
  most : (d : ℕ) → counts d + count d g ≤ n

-- A gap is counted in the map, or still stands in the list.
bump-count :
    (counts : ℕ → ℕ) (d x : ℕ) (g : List ℕ)
    → bump counts d x + count x g ≡ counts x + count x (d ∷ g)
bump-count counts d x g = ground arith

Leads-cons :
    (counts : ℕ → ℕ) (d : ℕ) (g : List ℕ) (best n : ℕ)
    → Leads (bump counts d) g best n
    → Leads counts (d ∷ g) best n
Leads-cons counts d g best n l = record {
  here = omega (arith, bump-count counts d best g, l.here);
  most = λ x. omega (arith, bump-count counts d x g, l.most x);
}

mode_loop-Leads :
    (counts : ℕ → ℕ) (best n : ℕ) (g : List ℕ)
    → counts best ≡ n
    → ((d : ℕ) → counts d ≤ n)
    → (b m : ℕ) × (mode_loop counts best (pos n) g ≡ (b, pos m)) × Leads counts g b m
unfolding mode_loop
mode_loop-Leads counts best n [] e h =
    (best, n, refl, record { here = omega (arith, e); most = λ d. omega (arith, h d) })
mode_loop-Leads counts best n (d ∷ g) e h = elim (Bool-cases (ltb n (counts d + 1))) [
  | inl more ↦
      let (b, m, r, l) =
        mode_loop-Leads (bump counts d) d (counts d + 1) g (ground arith)
          (λ x. let k = h x in let j = h d in ground arith) in
      (b, m, rw more r, Leads-cons counts d g b m l)
  | inr less ↦
      let (b, m, r, l) =
        mode_loop-Leads (bump counts d) best n g (let k = h best in ground arith)
          (λ x. let k = h x in let j = h d in ground arith) in
      (b, m, rw less r, Leads-cons counts d g b m l)
]

-- For gaps that are not empty, `modeGap` returns one that occurs most often, with the number of its
-- occurrences and the number of all gaps.
pub mode_gap-count :
    (d : ℕ) (g : List ℕ)
    → (best n : ℕ) × (mode_gap (d ∷ g) ≡ (best, (pos n, length (d ∷ g))))
      × (count best (d ∷ g) ≡ n)
      × ((x : ℕ) → count x (d ∷ g) ≤ n)
      × (0 < n)
unfolding mode_gap mode_loop
mode_gap-count d g =
    let (b, m, r, l) = mode_loop-Leads (bump (λ x. 0) d) d 1 g (ground arith) (λ x. ground arith) in
    let (here, most, some_gap) = from_nought b m (Leads-cons (λ x. 0) d g b m l) in
    (b, m, ap (λ (p : ℕ × ℤ). with_length p.0 p.1) r, here, most, some_gap)
  where
    with_length : ℕ → ℤ → ℕ × (ℤ × ℕ)
    with_length best n = (best, (n, length (d ∷ g)))

    from_nought :
        (b m : ℕ)
        → Leads (λ x. 0) (d ∷ g) b m
        → (count b (d ∷ g) ≡ m) × ((x : ℕ) → count x (d ∷ g) ≤ m) × (0 < m)
    from_nought b m k =
        (omega (arith, k.here), (λ x. omega (arith, k.most x)), (let j = k.most d in ground arith))

-- No number stands twice.
abbrev pub all_different : List ℕ → Bool
all_different [] = true
all_different (x ∷ xs) = not (is_seen x xs) && all_different xs

abbrev pub concat : List (List ℕ) → List ℕ
concat [] = []
concat (xs ∷ parts) = xs ++ concat parts

-- What is seen stays seen, once.
see-length : (p : ℕ) (seen : List ℕ) → length (see p seen) ≤ length seen + 1
see-length p seen = ground arith

see_all-length : (seen xs : List ℕ) → length (see_all seen xs) ≤ length seen + length xs
unfolding see_all
see_all-length seen [] = omega arith
see_all-length seen (p ∷ xs) = omega (arith, see-length p seen, see_all-length (see p seen) xs)

all_different-see :
    (p : ℕ) (seen : List ℕ) → all_different seen ≡ true → all_different (see p seen) ≡ true
all_different-see p seen h = ground arith

all_different-see_all :
    (seen xs : List ℕ) → all_different seen ≡ true → all_different (see_all seen xs) ≡ true
unfolding see_all
all_different-see_all seen [] h = h
all_different-see_all seen (p ∷ xs) h =
    all_different-see_all (see p seen) xs (all_different-see p seen h)

see_parts-see_all :
    (seen : List ℕ) (parts : List (List ℕ)) → see_parts seen parts ≡ see_all seen (concat parts)
unfolding see_parts see_all
see_parts-see_all seen [] = refl
see_parts-see_all seen (xs ∷ parts) =
    see_parts-see_all (see_all seen xs) parts ∙ sym (see_all-append seen xs (concat parts))
  where
    see_all-append : (seen xs ys : List ℕ) → see_all seen (xs ++ ys) ≡ see_all (see_all seen xs) ys
    see_all-append seen [] ys = refl
    see_all-append seen (p ∷ xs) ys = see_all-append (see p seen) xs ys

is_seen-see : (p q : ℕ) (seen : List ℕ) → is_seen p (see q seen) ≡ (p == q || is_seen p seen)
is_seen-see p q seen = ground arith

is_seen-see_all :
    (p : ℕ) (seen xs : List ℕ) → is_seen p (see_all seen xs) ≡ (is_seen p seen || is_seen p xs)
unfolding see_all
is_seen-see_all p seen [] = ground arith
is_seen-see_all p seen (q ∷ xs) =
    let r = is_seen-see_all p (see q seen) xs in
    let s = is_seen-see p q seen in
    r ∙ ap (λ (b : Bool). b || is_seen p xs) s ∙ swap (p == q) (is_seen p seen) (is_seen p xs)
  where
    swap : (a b c : Bool) → (a || b || c) ≡ (b || (a || c))
    swap a b c = ground arith

-- `countUnique` is the length of a list in which no address stands twice and exactly those of the
-- parts stand; it is at most the number of all addresses.
pub count_unique-different :
    (parts : List (List ℕ))
    → (seen : List ℕ) × (count_unique parts ≡ length seen)
      × (all_different seen ≡ true)
      × ((p : ℕ) → is_seen p seen ≡ is_seen p (concat parts))
      × (count_unique parts ≤ length (concat parts))
unfolding count_unique
count_unique-different parts =
    let e = see_parts-see_all [] parts in
    (
      see_all [] (concat parts),
      ap length e,
      all_different-see_all [] (concat parts) refl,
      (λ p. is_seen-see_all p [] (concat parts)),
      omega (arith, ap length e, see_all-length [] (concat parts)),
    )
