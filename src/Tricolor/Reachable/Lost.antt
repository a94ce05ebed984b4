-- ===== src/Tricolor/Reachable/Lost.antt =====
-- What the loop of `verify` (adv027_gc_tricolor/main.go) counts as lost.
use go_daily_learning.Prelude.{
  ℕ, zero, suc, ◌<◌, ◌≡◌, refl, ◌≢◌, ◌↔◌, Bool, true, List, [], ◌∷◌, arith, length,
}
use go_daily_learning.Tricolor.{white, Node, Machine, color_at}
use go_daily_learning.Tricolor.Invariant.{Live}
use go_daily_learning.Tricolor.Reachable.{seen_at, reachable, count_lost, verify}
use go_daily_learning.Tricolor.Reachable.Exact.{reachable-Live, length-reachable, Live-seen}

count_lost-zero :
    (ns : List Node) (live : List Bool)
    → ((v : ℕ) → v < length ns → seen_at live v ≡ true → color_at ns v ≢ white)
    → count_lost ns live ≡ 0
unfolding count_lost color_at
count_lost-zero [] live h = refl
count_lost-zero (n ∷ ns) [] h = refl
count_lost-zero (n ∷ ns) (alive ∷ live) h =
    ground (arith, h 0, count_lost-zero ns live (λ v b e. h (suc v) (omega arith) e))

zero-count_lost :
    (ns : List Node) (live : List Bool)
    → length live ≡ length ns
    → count_lost ns live ≡ 0
    → (v : ℕ) → seen_at live v ≡ true
    → color_at ns v ≢ white
unfolding count_lost color_at
zero-count_lost [] live l h v e = λ w. cc
zero-count_lost (n ∷ ns) [] l h v e = absurd (omega arith)
zero-count_lost (n ∷ ns) (alive ∷ live) l h zero e = ground arith
zero-count_lost (n ∷ ns) (alive ∷ live) l h (suc v) e =
    zero-count_lost ns live (omega arith) (ground arith) v e

-- `verify` counts no lost object exactly when no live object is white.
pub lost-zero :
    (m : Machine) → ((verify m).lost ≡ 0) ↔ ((v : ℕ) → Live m v → color_at m.objs v ≢ white)
unfolding verify
lost-zero m = (
  λ h v l. zero-count_lost m.objs (reachable m) (length-reachable m) h v (Live-seen m v l),
  λ h. count_lost-zero m.objs (reachable m) (λ v b e. h v ((reachable-Live m v b).0 e)),
)
