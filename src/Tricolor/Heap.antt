-- ===== src/Tricolor/Heap.antt =====
-- Reads after writes through a pointer of the simulated heap (adv027_gc_tricolor/main.go).
use mathlib.Core.List.Memᴰ
use go_daily_learning.Prelude.{
  ℕ, zero, suc, ◌≡◌, refl, ap, ◌≢◌, ◌⊎◌, inl, inr, Option, none, some, List, [], ◌∷◌, ◌++◌, set,
  Memᴰ,
}
use go_daily_learning.Tricolor.{
  Color, white, grey, black, Node, color_at, slots_at, paint, write_slot, whiten,
}

-- The heap's edges: a slot of `u` holds `v`.
abbrev pub Edge : List Node → ℕ → ℕ → Type 0
Edge ns u v = Memᴰ (some v) (slots_at ns u)

pub color-cases : (c : Color) → (c ≡ white) ⊎ (c ≢ white)
color-cases white = inl refl
color-cases grey = inr (λ e. cc)
color-cases black = inr (λ e. cc)

pub black-cases : (c : Color) → (c ≡ black) ⊎ (c ≢ black)
black-cases white = inr (λ e. cc)
black-cases grey = inr (λ e. cc)
black-cases black = inl refl

pub slots-paint :
    (ns : List Node) (p : ℕ) (c : Color) (u : ℕ) → slots_at (paint ns p c) u ≡ slots_at ns u
unfolding paint slots_at
slots-paint [] p c u = refl
slots-paint (n ∷ ns) zero c zero = refl
slots-paint (n ∷ ns) zero c (suc u) = refl
slots-paint (n ∷ ns) (suc p) c zero = refl
slots-paint (n ∷ ns) (suc p) c (suc u) = slots-paint ns p c u

pub color-paint_ne :
    (ns : List Node) (p : ℕ) (c : Color) (u : ℕ) → u ≢ p → color_at (paint ns p c) u ≡ color_at ns u
unfolding paint color_at
color-paint_ne [] p c u h = refl
color-paint_ne (n ∷ ns) zero c zero h = absurd (h refl)
color-paint_ne (n ∷ ns) zero c (suc u) h = refl
color-paint_ne (n ∷ ns) (suc p) c zero h = refl
color-paint_ne (n ∷ ns) (suc p) c (suc u) h = color-paint_ne ns p c u (λ e. h (ap suc e))

-- Painting takes effect at an object, and a pointer out of range stays black.
pub color-paint_self :
    (ns : List Node) (p : ℕ) (c : Color)
    → (color_at (paint ns p c) p ≡ c)
      ⊎ (color_at ns p ≡ black) × (color_at (paint ns p c) p ≡ black)
unfolding paint color_at
color-paint_self [] p c = inr (refl, refl)
color-paint_self (n ∷ ns) zero c = inl refl
color-paint_self (n ∷ ns) (suc p) c = color-paint_self ns p c

pub color-write_slot :
    (ns : List Node) (p i : ℕ) (v : Option ℕ) (u : ℕ)
    → color_at (write_slot ns p i v) u ≡ color_at ns u
unfolding write_slot color_at
color-write_slot [] p i v u = refl
color-write_slot (n ∷ ns) zero i v zero = refl
color-write_slot (n ∷ ns) zero i v (suc u) = refl
color-write_slot (n ∷ ns) (suc p) i v zero = refl
color-write_slot (n ∷ ns) (suc p) i v (suc u) = color-write_slot ns p i v u

pub slots-write_slot_self :
    (ns : List Node) (p i : ℕ) (v : Option ℕ)
    → slots_at (write_slot ns p i v) p ≡ set (slots_at ns p) i v
unfolding write_slot slots_at
slots-write_slot_self [] p i v = refl
slots-write_slot_self (n ∷ ns) zero i v = refl
slots-write_slot_self (n ∷ ns) (suc p) i v = slots-write_slot_self ns p i v

pub slots-write_slot_ne :
    (ns : List Node) (p i : ℕ) (v : Option ℕ) (u : ℕ)
    → u ≢ p
    → slots_at (write_slot ns p i v) u ≡ slots_at ns u
unfolding write_slot slots_at
slots-write_slot_ne [] p i v u h = refl
slots-write_slot_ne (n ∷ ns) zero i v zero h = absurd (h refl)
slots-write_slot_ne (n ∷ ns) zero i v (suc u) h = refl
slots-write_slot_ne (n ∷ ns) (suc p) i v zero h = refl
slots-write_slot_ne (n ∷ ns) (suc p) i v (suc u) h =
    slots-write_slot_ne ns p i v u (λ e. h (ap suc e))

-- A new black object with a nil slot changes no colour and no edge.
pub color-snoc :
    (ns : List Node) (n : Node) (u : ℕ)
    → n.color ≡ black
    → color_at (ns ++ n ∷ []) u ≡ color_at ns u
unfolding color_at
color-snoc [] n zero h = h
color-snoc [] n (suc u) h = refl
color-snoc (m ∷ ns) n zero h = refl
color-snoc (m ∷ ns) n (suc u) h = color-snoc ns n u h

pub Edge-snoc :
    (ns : List Node) (n : Node) (u v : ℕ)
    → n.slots ≡ none ∷ []
    → Edge (ns ++ n ∷ []) u v
    → Edge ns u v
unfolding slots_at
Edge-snoc [] n zero v h e = elim (rw h at e) [ Memᴰ.head p ↦ cc | Memᴰ.tail r ↦ r ]
Edge-snoc [] n (suc u) v h e = e
Edge-snoc (m ∷ ns) n zero v h e = e
Edge-snoc (m ∷ ns) n (suc u) v h e = Edge-snoc ns n u v h e

pub Edge-snoc_kept : (ns : List Node) (n : Node) (u v : ℕ) → Edge ns u v → Edge (ns ++ n ∷ []) u v
unfolding slots_at
Edge-snoc_kept [] n u v e = absurd (Memᴰ.not-nil e)
Edge-snoc_kept (m ∷ ns) n zero v e = e
Edge-snoc_kept (m ∷ ns) n (suc u) v e = Edge-snoc_kept ns n u v e

pub color-whiten :
    (ns : List Node) (u : ℕ)
    → (color_at (whiten ns) u ≡ white)
      ⊎ (color_at (whiten ns) u ≡ black) × (slots_at (whiten ns) u ≡ [])
unfolding color_at whiten slots_at
color-whiten [] u = inr (refl, refl)
color-whiten (n ∷ ns) zero = inl refl
color-whiten (n ∷ ns) (suc u) = color-whiten ns u
