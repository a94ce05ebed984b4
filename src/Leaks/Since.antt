-- ===== src/Leaks/Since.antt =====
-- What the leak checker of adv024_goroutine_leak/main.go reports, and that its loops end.
use go_daily_learning.Prelude.{
  ℕ, zero, suc, ◌+◌, ◌*◌, ◌^◌, ◌≤◌, ◌<◌, ◌≡◌, refl, ap, ◌∙◌, sym, subst, ◌⊎◌, inl, inr, Bool, true,
  false, not, ◌&&◌, List, [], ◌∷◌, arith, some, if◌then◌else◌, ltb, leb, length, take, Bool-cases,
}
use mathlib.Core.List.{Permᴰ}
use mathlib.Core.List.Permᴰ
use native.Mathlib.Nat.{pow-succ', mul_assoc, mul_comm}
use go_daily_learning.Sorting.{is_sorted, is_sorted-sort_by, sort_by-Permᴰ}
use go_daily_learning.Text.{Text}
use go_daily_learning.Leaks.{
  GoroutineInfo, is_ours, seen, new_ours, parse_stacks, LeakChecker, new_leak_checker,
  take_snapshot, report, grow, goroutine_stacks, await_report,
}

abbrev pub keep : (GoroutineInfo → Bool) → List GoroutineInfo → List GoroutineInfo
keep p [] = []
keep p (g ∷ gs) = let rest = keep p gs in if p g then g ∷ rest else rest

abbrev pub is_new : List ℕ → GoroutineInfo → Bool
is_new base g = not (seen base g.id) && is_ours g

new_ours-keep : (base : List ℕ) (gs : List GoroutineInfo) → new_ours base gs ≡ keep (is_new base) gs
new_ours-keep base [] = refl
new_ours-keep base (g ∷ gs) = by_tests (seen base g.id) (is_ours g) (new_ours-keep base gs)
  where
    by_tests :
        (s o : Bool)
        → new_ours base gs ≡ keep (is_new base) gs
        → (if s then new_ours base gs else if not o then new_ours base gs else g ∷ new_ours base gs)
          ≡ (if not s && o then g ∷ keep (is_new base) gs else keep (is_new base) gs)
    by_tests true o r = r
    by_tests false true r = ap (◌∷◌ g) r
    by_tests false false r = r

-- The report of a checker made on one dump, taken from a later one: it stands in ascending order of
-- the ids, and it is a permutation of those goroutines of the later dump whose id is not in the
-- first dump and which are ours.
pub report-new :
    (before after : Text)
    → let out = report (new_leak_checker before) after in
      (is_sorted (λ g. g.id) out ≡ true)
      × Permᴰ out (keep (is_new (take_snapshot before)) (parse_stacks after))
report-new before after =
    let base = take_snapshot before in
    let gs = new_ours base (parse_stacks after) in
    (
      is_sorted-sort_by (λ g. g.id) gs,
      Permᴰ.trans (sort_by-Permᴰ (λ g. g.id) gs) (
          perm_of_eq gs (keep (is_new base) (parse_stacks after))
            (new_ours-keep base (parse_stacks after))),
    )
  where
    perm_of_eq : (gs hs : List GoroutineInfo) → gs ≡ hs → Permᴰ gs hs
    perm_of_eq gs hs e = subst (λ hs'. Permᴰ gs hs') e (Permᴰ.refl gs)

take_whole : (n : ℕ) (d : Text) → length (take n d) < n → take n d ≡ d
take_whole zero d h = absurd (omega arith)
take_whole (suc n) [] h = refl
take_whole (suc n) (c ∷ d) h = ap (◌∷◌ c) (take_whole n d (omega arith))

take-short : (n : ℕ) (d : Text) → length d < n → length (take n d) < n
take-short zero d h = absurd (omega arith)
take-short (suc n) [] h = omega arith
take-short (suc n) (c ∷ d) h = let r = take-short n d (omega arith) in omega arith

doubled : (fuel n : ℕ) → n * 2 ^ suc fuel ≡ 2 * n * 2 ^ fuel
doubled fuel n =
    ap (λ k. n * k) (pow-succ' 2 fuel)
    ∙ sym (mul_assoc n 2 (2 ^ fuel))
    ∙ ap (λ k. k * 2 ^ fuel) (mul_comm n 2)

grow-whole :
    (dumps : ℕ → Text) (fuel i n : ℕ)
    → ((j : ℕ) → length (dumps j) < n * 2 ^ fuel)
    → (j : ℕ) × (grow (λ k m. take m (dumps k)) (suc fuel) i n ≡ some (dumps j))
unfolding grow
grow-whole dumps zero i n h =
    let b = take-short n (dumps i) (omega (arith, h i)) in
    let w = take_whole n (dumps i) b in (i, ground arith)
grow-whole dumps (suc fuel) i n h =
    let (j, e) = grow-whole dumps fuel (suc i) (2 * n) (λ j. omega (arith, h j, doubled fuel n)) in
    elim (Bool-cases (ltb (length (take n (dumps i))) n)) [
      | inl b ↦ (i, let w = take_whole n (dumps i) (ground arith) in cc)
      | inr b ↦ (j, cc)
    ]

-- `goroutineStacks` ends with a whole dump that the runtime wrote, never a cut one, when every dump
-- is shorter than the buffer after `fuel` doublings.
pub goroutine_stacks-whole :
    (dumps : ℕ → Text) (fuel : ℕ)
    → ((j : ℕ) → length (dumps j) < 65536 * 2 ^ fuel)
    → (j : ℕ) × (goroutine_stacks (λ i n. take n (dumps i)) (suc fuel) ≡ some (dumps j))
goroutine_stacks-whole dumps fuel h = grow-whole dumps fuel 0 65536 h

same_late : (late : ℕ → Bool) (j k : ℕ) → j ≡ k → late j ≡ true → late k ≡ true
same_late late j k e h = cc

-- `awaitReport` ends by the poll at which the deadline has passed at the latest, with the report of
-- one of its polls, which has at least the wanted number of goroutines, or the deadline had passed.
pub await_report-returns :
    (lc : LeakChecker) (dumps : ℕ → Text) (late : ℕ → Bool) (least fuel i : ℕ)
    → late (fuel + i) ≡ true
    → (j : ℕ) × (await_report lc dumps late least (suc fuel) i ≡ some (report lc (dumps j)))
      × ((least ≤ length (report lc (dumps j))) ⊎ (late j ≡ true))
unfolding await_report
await_report-returns lc dumps late least zero i h =
    elim (Bool-cases (leb least (length (report lc (dumps i))))) [
      | inl b ↦ (i, cc, inl (ground arith))
      | inr b ↦ let l = same_late late (zero + i) i (omega arith) h in (i, cc, inr l)
    ]
await_report-returns lc dumps late least (suc fuel) i h =
    let (j, e, q) =
      await_report-returns lc dumps late least fuel (suc i)
        (same_late late (suc fuel + i) (fuel + suc i) (omega arith) h) in
    elim (Bool-cases (leb least (length (report lc (dumps i))))) [
      | inl b ↦ (i, cc, inl (ground arith))
      | inr b ↦ elim (Bool-cases (late i)) [ inl l ↦ (i, cc, inr l) | inr l ↦ (j, cc, q) ]
    ]
