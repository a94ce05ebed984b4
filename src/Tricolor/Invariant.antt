-- ===== src/Tricolor/Invariant.antt =====
-- The two invariants of marking, for adv027_gc_tricolor/main.go: no black object points to a white
-- one (`IsStrong`), and every object that a black object or the scanned stack points to is white
-- only if marking will still get to it (`IsWeak`).
use go_daily_learning.Prelude.{
  ℕ, ◌≡◌, refl, sym, subst, ◌≢◌, ◌⊎◌, inl, inr, Option, some, List, ◌∷◌, Memᴰ, Memᴰ-set,
  Memᴰ-set_kept, get_elem?,
}
use go_daily_learning.Tricolor.{
  Color, white, grey, black, Node, Machine, color_at, slots_at, write_slot, step_on,
}
use go_daily_learning.Tricolor.Heap.{
  Edge, black-cases, color-write_slot, slots-write_slot_self, slots-write_slot_ne,
}
use go_daily_learning.Tricolor.Marking.{
  Shaded, IsLit, Queued, step_on-slots, step_on-lit, step_on-dark, step_on-children,
}
use native.Mathlib.Decide.{ℕ_discrete}

-- What the mutator can reach: from a global, from a stack slot, or through a field.
pub data Live (m : Machine) : ℕ → Type 0 where
  global : {v : ℕ} → Memᴰ (some v) m.globals → Live m v
  local : {v : ℕ} → Memᴰ (some v) m.stack → Live m v
  field : {u v : ℕ} → Live m u → Edge m.objs u v → Live m v

-- Not white, or at the end of a path of white objects from a grey one.
pub data Safe (ns : List Node) : ℕ → Type 0 where
  marked : {v : ℕ} → color_at ns v ≢ white → Safe ns v
  via : {u v : ℕ} → color_at ns u ≢ black → Safe ns u → Edge ns u v → Safe ns v

-- A change of the heap that keeps objects safe.
pub record Keeps (a b : List Node) : Type 0 where
  pub lit : (u : ℕ) → color_at a u ≢ white → color_at b u ≢ white
  pub path :
      (u v : ℕ)
      → color_at a u ≢ black
      → Edge a u v
      → (color_at b v ≢ white) ⊎ ((color_at b u ≢ black) × Edge b u v)

pub Safe-Keeps : {a b : List Node} {v : ℕ} → Keeps a b → Safe a v → Safe b v
Safe-Keeps k (marked h) = marked (k.lit _ h)
Safe-Keeps k (via {u} {v} nb s e) = elim (k.path u v nb e) [
  | inl h ↦ marked h
  | inr (nb', e') ↦ via nb' (Safe-Keeps k s) e'
]

pub Shaded-Keeps : {a b : List Node} → Shaded a b → Keeps a b
Shaded-Keeps s = record {
  lit = s.lit;
  path = λ u v nb e. inr (λ h. nb (s.dark u h), subst (Memᴰ (some v)) (sym (s.slots u)) e);
}

pub step-Keeps : (m : Machine) (n : ℕ) (rest : List ℕ) → Keeps m.objs (step_on m (n ∷ rest)).0.objs
step-Keeps m n rest = record {
  lit = step_on-lit m n rest;
  path = λ u v nb e. elim (ℕ_discrete u n) [
    | yes d ↦ inl (step_on-children m n rest v (subst (λ (x : ℕ). Edge m.objs x v) d e))
    | no d ↦ inr (
      λ h. elim (step_on-dark m n rest u h) [ inl q ↦ d q | inr q ↦ nb q ],
      subst (Memᴰ (some v)) (sym (step_on-slots m n rest u)) e,
    )
  ];
}

-- A write over a slot whose old value is lit.
pub write-Keeps :
    (ns : List Node) (dst i : ℕ) (old src : Option ℕ)
    → get_elem? (slots_at ns dst) i ≡ some old
    → IsLit ns old
    → Keeps ns (write_slot ns dst i src)
write-Keeps ns dst i old src g h = record {
  lit = λ u q. rw (color-write_slot ns dst i src u) q;
  path = λ u v nb e. elim (ℕ_discrete u dst) [
    | yes d ↦
        elim (Memᴰ-set_kept (some v) src old (slots_at ns dst) i g
          (subst (λ (x : ℕ). Edge ns x v) d e)) [
            | inl q ↦ inl (rw (color-write_slot ns dst i src v) (h v (sym q)))
            | inr k ↦ inr (
              rw (color-write_slot ns dst i src u) nb,
              subst (λ (x : ℕ). Edge (write_slot ns dst i src) x v) (sym d)
                  (subst (Memᴰ (some v)) (sym (slots-write_slot_self ns dst i src)) k),
            )
          ]
    | no d ↦ inr (
      rw (color-write_slot ns dst i src u) nb,
      subst (Memᴰ (some v)) (sym (slots-write_slot_ne ns dst i src u d)) e,
    )
  ];
}

-- The edges after a write: the new one, and some of the old.
pub Edge-write :
    (ns : List Node) (dst i : ℕ) (src : Option ℕ) (u v : ℕ)
    → Edge (write_slot ns dst i src) u v
    → (src ≡ some v) ⊎ Edge ns u v
Edge-write ns dst i src u v e = elim (ℕ_discrete u dst) [
  | yes d ↦
      elim (Memᴰ-set (some v) src (slots_at ns dst) i (
        subst (Memᴰ (some v)) (slots-write_slot_self ns dst i src)
          (subst (λ (x : ℕ). Edge (write_slot ns dst i src) x v) d e))) [
            | inl q ↦ inl (sym q)
            | inr k ↦ inr (subst (λ (x : ℕ). Edge ns x v) (sym d) k)
          ]
  | no d ↦ inr (subst (Memᴰ (some v)) (slots-write_slot_ne ns dst i src u d) e)
]

-- What both invariants share: grey objects are queued, and no global root is white.
pub record IsMarking (m : Machine) : Type 0 where
  pub queued : (u : ℕ) → Queued m u
  pub roots : (v : ℕ) → Memᴰ (some v) m.globals → color_at m.objs v ≢ white

abbrev pub IsStrong : Machine → Type 0
IsStrong m = (u v : ℕ) → color_at m.objs u ≡ black → Edge m.objs u v → color_at m.objs v ≢ white

pub record IsWeak (m : Machine) : Type 0 where
  pub fields : (u v : ℕ) → color_at m.objs u ≡ black → Edge m.objs u v → Safe m.objs v
  pub locals : (v : ℕ) → Memᴰ (some v) m.stack → Safe m.objs v

-- Under the weak invariant all that is live is safe.
pub Live-Safe : {m : Machine} {v : ℕ} → IsMarking m → IsWeak m → Live m v → Safe m.objs v
Live-Safe i w (global k) = marked (i.roots _ k)
Live-Safe i w (local k) = w.locals _ k
Live-Safe {m} i w (field {u} {v} l e) = elim (black-cases (color_at m.objs u)) [
  | inl b ↦ w.fields u v b e
  | inr nb ↦ via nb (Live-Safe i w l) e
]

-- With no grey object left, safe means marked.
pub Safe-end :
    {ns : List Node} {v : ℕ} → ((u : ℕ) → color_at ns u ≢ grey) → Safe ns v → color_at ns v ≢ white
Safe-end g (marked h) = h
Safe-end {ns} g (via {u} {v} nb s e) = absurd (Safe-end g s (only_white (color_at ns u) nb (g u)))
  where
    only_white : (c : Color) → c ≢ black → c ≢ grey → c ≡ white
    only_white white p q = refl
    only_white grey p q = absurd (q refl)
    only_white black p q = absurd (p refl)

-- With no grey object left and the roots marked, the strong invariant marks all that is live.
pub Live-marked_end :
    {m : Machine} {v : ℕ}
    → ((u : ℕ) → color_at m.objs u ≢ grey)
    → IsMarking m
    → IsStrong m
    → ((u : ℕ) → Memᴰ (some u) m.stack → color_at m.objs u ≢ white)
    → Live m v
    → color_at m.objs v ≢ white
Live-marked_end g i s l (global k) = i.roots _ k
Live-marked_end g i s l (local k) = l _ k
Live-marked_end {m} g i s l (field {u} {v} p e) =
    s u v (only_black (color_at m.objs u) (Live-marked_end g i s l p) (g u)) e
  where
    only_black : (c : Color) → c ≢ white → c ≢ grey → c ≡ black
    only_black white p q = absurd (p refl)
    only_black grey p q = absurd (q refl)
    only_black black p q = refl
