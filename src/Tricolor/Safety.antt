-- ===== src/Tricolor/Safety.antt =====
-- Which barriers of adv027_gc_tricolor/main.go lose no live object: the store rules that the
-- proofs for the single barriers share, and the reading of `verify` at the end of marking.
pub mod Hybrid
pub mod Delete
pub mod Rescan
use mathlib.Core.List.Memᴰ
use go_daily_learning.Prelude.{
  ℕ, zero, suc, ◌<◌, ◌≡◌, refl, sym, ◌∙◌, subst, ap, ◌≢◌, ◌⊎◌, inl, inr, Bool, true, false, Option,
  none, some, List, [], ◌∷◌, arith, Memᴰ, get_elem?, set, length, Bool-cases,
}
use go_daily_learning.Tricolor.{
  Color, white, grey, black, Node, Machine, color_at, slots_at, write_slot, shade, write_barrier,
  drain_all, step, step_on,
}
use go_daily_learning.Tricolor.Marking.{IsLit, Shades, SameFrame, step_on-SameFrame}
use go_daily_learning.Tricolor.Drain.{drain_all-empties, drain_all_inv}
use go_daily_learning.Tricolor.Invariant.{
  Live, Safe, marked, IsMarking, IsStrong, IsWeak, Live-Safe, Safe-Keeps, Shaded-Keeps, Safe-end,
  Live-marked_end,
}
use go_daily_learning.Tricolor.Cycle.{IsHeld}
use go_daily_learning.Tricolor.Preserve

pub held-Safe :
    (m : Machine) (p : Option ℕ)
    → IsHeld m p
    → IsMarking m
    → IsWeak m
    → (v : ℕ) → p ≡ some v
    → Safe m.objs v
held-Safe m p h i w v e = elim (h v e) [ inl l ↦ Live-Safe i w l | inr n ↦ marked n ]

-- A write to the heap behind a barrier that leads from `m` to `b`.
module _ (m b : Machine) (dst i : ℕ) (old src : Option ℕ) (s : Shades m b) where
  abbrev stored : Machine
  stored = record b { objs = write_slot b.objs dst i src }

  pub stored-IsMarking : IsMarking m → IsMarking stored
  stored-IsMarking h = Preserve.write-IsMarking b dst i src (Preserve.Shades-IsMarking s h)

  pub stored-IsStrong : IsLit b.objs src → IsStrong m → IsStrong stored
  stored-IsStrong l h = Preserve.write-IsStrong b dst i src l (Preserve.Shades-IsStrong s h)

  pub stored-IsWeak :
      get_elem? (slots_at m.objs dst) i ≡ some old
      → IsLit b.objs old
      → IsHeld m src
      → IsMarking m
      → IsWeak m
      → IsWeak stored
  stored-IsWeak g l h k w =
      Preserve.write-IsWeak b dst i src old (rw (s.heap.slots dst) g) l
        (λ v e. Safe-Keeps (Shaded-Keeps s.heap) (held-Safe m src h k w v e))
        (Preserve.Shades-IsWeak s w)

pub step-SameFrame : (m : Machine) → SameFrame m (step m).0
unfolding step
step-SameFrame m = step_on-SameFrame m m.work

-- The end of marking: an empty work list means that no object is grey.
no_grey : (m : Machine) → IsMarking m → m.work ≡ [] → (u : ℕ) → color_at m.objs u ≢ grey
no_grey m i e u g = Memᴰ.not-nil (subst (Memᴰ u) e (i.queued u g))

pub drained-weak :
    (m : Machine)
    → IsMarking m
    → IsWeak m
    → (v : ℕ) → Live (drain_all m) v
    → color_at (drain_all m).objs v ≢ white
drained-weak m i w v l =
    let (i', w') =
      drain_all_inv (λ n. IsMarking n × IsWeak n)
        (λ n h. (Preserve.step-IsMarking n h.0, Preserve.step-IsWeak n h.1)) m (i, w) in
    Safe-end (no_grey (drain_all m) i' (drain_all-empties m)) (Live-Safe i' w' l)

-- Every local is lit.
abbrev pub LitLocals : Machine → Type 0
LitLocals m = (v : ℕ) → Memᴰ (some v) m.stack → color_at m.objs v ≢ white

pub drained-strong :
    (m : Machine)
    → IsMarking m
    → IsStrong m
    → LitLocals m
    → (v : ℕ) → Live (drain_all m) v
    → color_at (drain_all m).objs v ≢ white
drained-strong m i s l v live =
    let (i', s', l') =
      drain_all_inv (λ n. IsMarking n × IsStrong n × LitLocals n)
        (λ n h.
          (Preserve.step-IsMarking n h.0, Preserve.step-IsStrong n h.1, Preserve.step-locals n h.2))
        m (i, s, l) in
    Live-marked_end (no_grey (drain_all m) i' (drain_all-empties m)) i' s' l' live
