-- ===== src/Tricolor/Reachable.antt =====
-- `reachable` and `verify` of adv027_gc_tricolor/main.go, lines 216 to 258.
pub mod Exact
pub mod Lost
use go_daily_learning.Prelude.{
  ℕ, zero, suc, ◌+◌, ◌≤◌, ◌<◌, ◌≡◌, Bool, true, false, ◌&&◌, not, Option, none, some, List, [], ◌∷◌,
  length, set, arith, if◌then◌else◌, leb,
}
use go_daily_learning.Tricolor.{Color, white, grey, black, Node, Machine, color_at, slots_at}

-- The map `seen`, a flag for each object; a pointer out of range counts as seen.
abbrev pub seen_at : List Bool → ℕ → Bool
seen_at [] p = true
seen_at (b ∷ bs) zero = b
seen_at (b ∷ bs) (suc p) = seen_at bs p

-- `for _, x := range xs { walk(x) }`.
pub walk_each : (List Bool → ℕ → List Bool) → List Bool → List (Option ℕ) → List Bool
walk_each walk seen [] = seen
walk_each walk seen (none ∷ ps) = walk_each walk seen ps
walk_each walk seen (some p ∷ ps) = walk_each walk (walk seen p) ps

-- The closure `walk`, on fuel: each nested call has marked one more object.
pub walk : List Node → ℕ → List Bool → ℕ → List Bool
walk ns zero seen p = seen
walk ns (suc f) seen p = elim (seen_at seen p) [
  | true ↦ seen
  | false ↦ walk_each (walk ns f) (set seen p true) (slots_at ns p)
]

pub unseen : List Node → List Bool
unseen [] = []
unseen (n ∷ ns) = false ∷ unseen ns

pub reachable : Machine → List Bool
reachable m =
    let go = walk m.objs (suc (length m.objs)) in
    walk_each go (walk_each go (unseen m.objs) m.globals) m.stack

pub record Verdict : Type 0 where
  pub lost : ℕ
  pub floating : ℕ
  pub shade_calls : ℕ
  pub scanned : ℕ
  pub stack_scans : ℕ

abbrev pub is_white : Color → Bool
is_white white = true
is_white _ = false

-- The loop of `verify`, over the objects and their flags.
pub count_lost : List Node → List Bool → ℕ
count_lost [] live = 0
count_lost (n ∷ ns) [] = 0
count_lost (n ∷ ns) (alive ∷ live) =
    if alive && is_white n.color then suc (count_lost ns live) else count_lost ns live

pub count_floating : List Node → List Bool → ℕ
count_floating [] live = 0
count_floating (n ∷ ns) [] = 0
count_floating (n ∷ ns) (alive ∷ live) =
    if not alive && not (is_white n.color)
    then suc (count_floating ns live)
    else count_floating ns live

unfoldable pub verify : Machine → Verdict
unfolding reachable walk walk_each unseen count_lost count_floating
verify m =
    let live = reachable m in
    record {
      lost = count_lost m.objs live;
      floating = count_floating m.objs live;
      shade_calls = m.shade_calls;
      scanned = m.scanned;
      stack_scans = m.stack_scans;
    }
