-- ===== src/Tricolor/Marking.antt =====
-- What the marker's own steps (`shade`, its loops, `step`) do to the heap of
-- adv027_gc_tricolor/main.go: colours only darken, edges stay, grey objects are queued.
use mathlib.Core.List.Memᴰ
use go_daily_learning.Prelude.{
  ℕ, suc, ◌≡◌, refl, sym, ◌∙◌, subst, ap, ◌≢◌, ◌⊎◌, inl, inr, Option, none, some, List, [], ◌∷◌,
  ◌++◌, arith, Memᴰ,
}
use go_daily_learning.Tricolor.{
  white, grey, black, Node, Machine, color_at, slots_at, paint, shade, shade_all, step_on,
}
use go_daily_learning.Tricolor.Heap.{Edge, slots-paint, color-paint_ne, color-paint_self}
use native.Mathlib.Decide.{ℕ_discrete}

-- The second heap is the first with some white objects turned grey.
pub record Shaded (a b : List Node) : Type 0 where
  pub slots : (u : ℕ) → slots_at b u ≡ slots_at a u
  pub lit : (u : ℕ) → color_at a u ≢ white → color_at b u ≢ white
  pub dark : (u : ℕ) → color_at b u ≡ black → color_at a u ≡ black

pub Shaded-refl : (a : List Node) → Shaded a a
Shaded-refl a = record { slots = λ u. refl; lit = λ u h. h; dark = λ u h. h }

pub Shaded-trans : {a b c : List Node} → Shaded a b → Shaded b c → Shaded a c
Shaded-trans s t = record {
  slots = λ u. t.slots u ∙ s.slots u;
  lit = λ u h. t.lit u (s.lit u h);
  dark = λ u h. s.dark u (t.dark u h);
}

pub Shaded-Edge : {a b : List Node} → Shaded a b → (u v : ℕ) → Edge b u v → Edge a u v
Shaded-Edge s u v e = subst (Memᴰ (some v)) (s.slots u) e

-- A pointer that is nil or leads to an object that is not white.
abbrev pub IsLit : List Node → Option ℕ → Type 0
IsLit ns p = (v : ℕ) → p ≡ some v → color_at ns v ≢ white

shade-cases :
    (m : Machine) (p : ℕ)
    → ((color_at m.objs p ≡ white)
        × (shade m (some p) ≡ record m {
          shade_calls = suc m.shade_calls;
          objs = paint m.objs p grey;
          work = m.work ++ p ∷ [];
        }))
      ⊎ ((color_at m.objs p ≢ white)
          × (shade m (some p) ≡ record m { shade_calls = suc m.shade_calls }))
unfolding shade
shade-cases m p = ground arith

paint-Shaded : (ns : List Node) (p : ℕ) → color_at ns p ≡ white → Shaded ns (paint ns p grey)
paint-Shaded ns p w = record {
  slots = slots-paint ns p grey;
  lit = λ u h. rw (color-paint_ne ns p grey u (λ e. h (ap (color_at ns) e ∙ w))) h;
  dark = λ u h. elim (ℕ_discrete u p) [
    | yes e ↦
        ground
          (arith, color-paint_self ns p grey, ap (color_at (paint ns p grey)) e, ap (color_at ns) e)
    | no n ↦ sym (color-paint_ne ns p grey u n) ∙ h
  ];
}

pub shade-Shaded : (m : Machine) (p : Option ℕ) → Shaded m.objs (shade m p).objs
shade-Shaded m none = unfold shade in Shaded-refl m.objs
shade-Shaded m (some p) = elim (shade-cases m p) [
  | inl (w, e) ↦ rw e (paint-Shaded m.objs p w)
  | inr (w, e) ↦ rw e (Shaded-refl m.objs)
]

-- The shaded object is no longer white.
pub shade-IsLit : (m : Machine) (p : Option ℕ) → IsLit (shade m p).objs p
shade-IsLit m none v q = cc
shade-IsLit m (some p) v q = elim (shade-cases m p) [
  | inl (w, e) ↦ rw e (ground (arith, color-paint_self m.objs p grey, q))
  | inr (w, e) ↦ rw e (ground (arith, q))
]

-- A grey object is queued: pointwise, so that it holds of the other objects while one is scanned.
abbrev pub Queued : Machine → ℕ → Type 0
Queued m u = color_at m.objs u ≡ grey → Memᴰ u m.work

shade-Queued : (m : Machine) (p : Option ℕ) (u : ℕ) → Queued m u → Queued (shade m p) u
shade-Queued m none u h g = unfold shade in h g
shade-Queued m (some p) u h g = elim (shade-cases m p) [
  | inl (w, e) ↦ rw e (elim (ℕ_discrete u p) [
    | yes q ↦ Memᴰ.append_right m.work (Memᴰ.head q)
    | no n ↦ Memᴰ.append_left _ (
        h (
          sym (color-paint_ne m.objs p grey u n)
          ∙ ap (λ (x : Machine). color_at x.objs u) (sym e)
          ∙ g))
  ])
  | inr (w, e) ↦ rw e (h (ap (λ (x : Machine). color_at x.objs u) (sym e) ∙ g))
]

-- The fields that shading leaves alone.
pub record SameFrame (a b : Machine) : Type 0 where
  pub mode : b.mode ≡ a.mode
  pub globals : b.globals ≡ a.globals
  pub stack : b.stack ≡ a.stack
  pub stack_scanned : b.stack_scanned ≡ a.stack_scanned
  pub collecting : b.collecting ≡ a.collecting

shade-SameFrame : (m : Machine) (p : Option ℕ) → SameFrame m (shade m p)
unfolding shade
shade-SameFrame m p = ground arith

pub shade_all-SameFrame : (m : Machine) (ps : List (Option ℕ)) → SameFrame m (shade_all m ps)
unfolding shade_all
shade_all-SameFrame m [] = ground arith
shade_all-SameFrame m (p ∷ ps) =
    ground (arith, shade-SameFrame m p, shade_all-SameFrame (shade m p) ps)

pub shade_all-Shaded : (m : Machine) (ps : List (Option ℕ)) → Shaded m.objs (shade_all m ps).objs
unfolding shade_all
shade_all-Shaded m [] = Shaded-refl m.objs
shade_all-Shaded m (p ∷ ps) = Shaded-trans (shade-Shaded m p) (shade_all-Shaded (shade m p) ps)

pub shade_all-Queued :
    (m : Machine) (ps : List (Option ℕ)) (u : ℕ) → Queued m u → Queued (shade_all m ps) u
unfolding shade_all
shade_all-Queued m [] u h = h
shade_all-Queued m (p ∷ ps) u h = shade_all-Queued (shade m p) ps u (shade-Queued m p u h)

-- After the loop every object that it met is grey or black.
pub shade_all-lit :
    (m : Machine) (ps : List (Option ℕ)) (v : ℕ)
    → Memᴰ (some v) ps
    → color_at (shade_all m ps).objs v ≢ white
unfolding shade_all
shade_all-lit m [] v k = absurd (Memᴰ.not-nil k)
shade_all-lit m (p ∷ ps) v k = elim (Memᴰ.cases_cons k) [
  | inl e ↦ (shade_all-Shaded (shade m p) ps).lit v (shade-IsLit m p v (sym e))
  | inr r ↦ shade_all-lit (shade m p) ps v r
]

-- One step of the marker, with the scanned object named.
pub step_on-Shaded_but :
    (m : Machine) (n : ℕ) (rest : List ℕ) (u : ℕ)
    → u ≢ n
    → color_at (step_on m (n ∷ rest)).0.objs u
      ≡ color_at (shade_all (record m { work = rest }) (slots_at m.objs n)).objs u
unfolding step_on
step_on-Shaded_but m n rest u h =
    color-paint_ne (shade_all (record m { work = rest }) (slots_at m.objs n)).objs n black u h

pub step_on-slots :
    (m : Machine) (n : ℕ) (rest : List ℕ) (u : ℕ)
    → slots_at (step_on m (n ∷ rest)).0.objs u ≡ slots_at m.objs u
unfolding step_on
step_on-slots m n rest u =
    slots-paint (shade_all (record m { work = rest }) (slots_at m.objs n)).objs n black u
    ∙ (shade_all-Shaded (record m { work = rest }) (slots_at m.objs n)).slots u

pub step_on-black :
    (m : Machine) (n : ℕ) (rest : List ℕ) → color_at (step_on m (n ∷ rest)).0.objs n ≡ black
unfolding step_on
step_on-black m n rest = ground (
  arith,
  color-paint_self (shade_all (record m { work = rest }) (slots_at m.objs n)).objs n black,
)

pub step_on-SameFrame : (m : Machine) (work : List ℕ) → SameFrame m (step_on m work).0
unfolding step_on
step_on-SameFrame m [] = ground arith
step_on-SameFrame m (n ∷ rest) =
    ground (arith, shade_all-SameFrame (record m { work = rest }) (slots_at m.objs n))

module _ (m : Machine) (n : ℕ) (rest : List ℕ) where
  abbrev after : Machine
  after = (step_on m (n ∷ rest)).0

  pub step_on-lit : (u : ℕ) → color_at m.objs u ≢ white → color_at after.objs u ≢ white
  step_on-lit u h = elim (ℕ_discrete u n) [
    | yes e ↦ λ w. cc (step_on-black m n rest, ap (color_at after.objs) e, w)
    | no d ↦ rw (step_on-Shaded_but m n rest u d) ((shade_all-Shaded _ (slots_at m.objs n)).lit u h)
  ]

  -- A black object after the step is the scanned one or was black before.
  pub step_on-dark : (u : ℕ) → color_at after.objs u ≡ black → (u ≡ n) ⊎ (color_at m.objs u ≡ black)
  step_on-dark u h = elim (ℕ_discrete u n) [
    | yes e ↦ inl e
    | no d ↦ inr (
        (shade_all-Shaded _ (slots_at m.objs n)).dark u (sym (step_on-Shaded_but m n rest u d) ∙ h))
  ]

  -- The children of the scanned object are lit.
  pub step_on-children : (v : ℕ) → Edge m.objs n v → color_at after.objs v ≢ white
  step_on-children v k = elim (ℕ_discrete v n) [
    | yes e ↦ λ w. cc (step_on-black m n rest, ap (color_at after.objs) e, w)
    | no d ↦ rw (step_on-Shaded_but m n rest v d) (shade_all-lit _ (slots_at m.objs n) v k)
  ]

drop_head : {u n : ℕ} {rest work : List ℕ} → work ≡ n ∷ rest → u ≢ n → Memᴰ u work → Memᴰ u rest
drop_head {u} e d k = elim (Memᴰ.cases_cons (subst (Memᴰ u) e k)) [
  | inl p ↦ absurd (d p)
  | inr r ↦ r
]

pub step_on-Queued :
    (m : Machine) (work : List ℕ) (u : ℕ) → m.work ≡ work → Queued m u → Queued (step_on m work).0 u
step_on-Queued m [] u e q g = unfold step_on in q g
step_on-Queued m (n ∷ rest) u e q g = elim (ℕ_discrete u n) [
  | yes d ↦ cc (step_on-black m n rest, g)
  | no d ↦
      unfold step_on in
      shade_all-Queued (record m { work = rest }) (slots_at m.objs n) u (λ k. drop_head e d (q k))
        (sym (step_on-Shaded_but m n rest u d) ∙ g)
]

-- One machine leads to another by shading alone.
pub record Shades (a b : Machine) : Type 0 where
  pub heap : Shaded a.objs b.objs
  pub frame : SameFrame a b
  pub queue : (u : ℕ) → Queued a u → Queued b u

pub Shades-refl : (m : Machine) → Shades m m
Shades-refl m = record { heap = Shaded-refl m.objs; frame = ground arith; queue = λ u q. q }

pub shade-Shades : (m : Machine) (p : Option ℕ) → Shades m (shade m p)
shade-Shades m p = record {
  heap = shade-Shaded m p;
  frame = shade-SameFrame m p;
  queue = shade-Queued m p;
}

SameFrame-trans : {a b c : Machine} → SameFrame a b → SameFrame b c → SameFrame a c
SameFrame-trans s t = ground arith

pub Shades-trans : {a b c : Machine} → Shades a b → Shades b c → Shades a c
Shades-trans s t = record {
  heap = Shaded-trans s.heap t.heap;
  frame = SameFrame-trans s.frame t.frame;
  queue = λ u q. t.queue u (s.queue u q);
}

pub shade_all-Shades : (m : Machine) (ps : List (Option ℕ)) → Shades m (shade_all m ps)
shade_all-Shades m ps = record {
  heap = shade_all-Shaded m ps;
  frame = shade_all-SameFrame m ps;
  queue = shade_all-Queued m ps;
}
