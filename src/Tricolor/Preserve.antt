-- ===== src/Tricolor/Preserve.antt =====
-- Each operation of adv027_gc_tricolor/main.go against the invariants of marking.
use Prim.Native.String.{String}
use go_daily_learning.Prelude.{
  ℕ, suc, ◌≡◌, refl, sym, ◌∙◌, subst, ◌≢◌, inl, inr, Option, none, some, List, [], ◌∷◌, ◌++◌, Memᴰ,
  Memᴰ-set, get_elem?, set, true,
}
use go_daily_learning.Tricolor.{
  white, black, Node, Machine, color_at, slots_at, write_slot, alloc, scan_stack, step_on, step,
}
use go_daily_learning.Tricolor.Heap.{Edge, color-write_slot, color-snoc, Edge-snoc, Edge-snoc_kept}
use go_daily_learning.Tricolor.Marking.{
  Shaded-Edge, IsLit, Shades, SameFrame, shade_all-Shades, shade_all-lit, step_on-slots,
  step_on-lit, step_on-dark, step_on-children, step_on-Queued, step_on-SameFrame,
}
use go_daily_learning.Tricolor.Invariant.{
  Safe, marked, Keeps, Safe-Keeps, Shaded-Keeps, step-Keeps, write-Keeps, Edge-write, IsMarking,
  IsStrong, IsWeak,
}

-- Shading keeps all three.
pub Shades-IsMarking : {a b : Machine} → Shades a b → IsMarking a → IsMarking b
Shades-IsMarking s i = record {
  queued = λ u. s.queue u (i.queued u);
  roots = λ v k. s.heap.lit v (i.roots v (subst (Memᴰ (some v)) s.frame.globals k));
}

pub Shades-IsStrong : {a b : Machine} → Shades a b → IsStrong a → IsStrong b
Shades-IsStrong s h u v d e = s.heap.lit v (h u v (s.heap.dark u d) (Shaded-Edge s.heap u v e))

pub Shades-IsWeak : {a b : Machine} → Shades a b → IsWeak a → IsWeak b
Shades-IsWeak s w = record {
  fields = λ u v d e.
      Safe-Keeps (Shaded-Keeps s.heap) (w.fields u v (s.heap.dark u d) (Shaded-Edge s.heap u v e));
  locals =
      λ v k. Safe-Keeps (Shaded-Keeps s.heap) (w.locals v (subst (Memᴰ (some v)) s.frame.stack k));
}

-- So does one step of the marker.
module _ (m : Machine) where
  step_on-IsMarking : (work : List ℕ) → m.work ≡ work → IsMarking m → IsMarking (step_on m work).0
  step_on-IsMarking [] e i = unfold step_on in i
  step_on-IsMarking (n ∷ rest) e i = record {
    queued = λ u. step_on-Queued m (n ∷ rest) u e (i.queued u);
    roots = λ v k.
        step_on-lit m n rest v
          (i.roots v (subst (Memᴰ (some v)) (step_on-SameFrame m (n ∷ rest)).globals k));
  }

  pub step_on-IsStrong : (work : List ℕ) → IsStrong m → IsStrong (step_on m work).0
  step_on-IsStrong [] h u v d e = unfold step_on in h u v d e
  step_on-IsStrong (n ∷ rest) h u v d e =
      let e' : Edge m.objs u v = subst (Memᴰ (some v)) (step_on-slots m n rest u) e in
      elim (step_on-dark m n rest u d) [
        | inl q ↦ step_on-children m n rest v (subst (λ (x : ℕ). Edge m.objs x v) q e')
        | inr q ↦ step_on-lit m n rest v (h u v q e')
      ]

  pub step_on-IsWeak : (work : List ℕ) → IsWeak m → IsWeak (step_on m work).0
  step_on-IsWeak [] w = unfold step_on in w
  step_on-IsWeak (n ∷ rest) w = record {
    fields = λ u v d e.
        let e' : Edge m.objs u v = subst (Memᴰ (some v)) (step_on-slots m n rest u) e in
        elim (step_on-dark m n rest u d) [
          | inl q ↦ marked (step_on-children m n rest v (subst (λ (x : ℕ). Edge m.objs x v) q e'))
          | inr q ↦ Safe-Keeps (step-Keeps m n rest) (w.fields u v q e')
        ];
    locals = λ v k.
        Safe-Keeps (step-Keeps m n rest)
          (w.locals v (subst (Memᴰ (some v)) (step_on-SameFrame m (n ∷ rest)).stack k));
  }

  pub step-IsMarking : IsMarking m → IsMarking (step m).0
  step-IsMarking i = unfold step in step_on-IsMarking m.work refl i

  pub step-IsStrong : IsStrong m → IsStrong (step m).0
  step-IsStrong h = unfold step in step_on-IsStrong m.work h

  pub step-IsWeak : IsWeak m → IsWeak (step m).0
  step-IsWeak w = unfold step in step_on-IsWeak m.work w

  step_on-locals :
      (work : List ℕ)
      → ((v : ℕ) → Memᴰ (some v) m.stack → color_at m.objs v ≢ white)
      → (v : ℕ) → Memᴰ (some v) (step_on m work).0.stack
      → color_at (step_on m work).0.objs v ≢ white
  step_on-locals [] h v k = unfold step_on in h v k
  step_on-locals (n ∷ rest) h v k =
      step_on-lit m n rest v (h v (subst (Memᴰ (some v)) (step_on-SameFrame m (n ∷ rest)).stack k))

  pub step-locals :
      ((v : ℕ) → Memᴰ (some v) m.stack → color_at m.objs v ≢ white)
      → (v : ℕ) → Memᴰ (some v) (step m).0.stack
      → color_at (step m).0.objs v ≢ white
  step-locals h v k = unfold step in step_on-locals m.work h v k

-- Writes through a pointer.
module _ (m : Machine) (dst i : ℕ) (src : Option ℕ) where
  abbrev written : Machine
  written = record m { objs = write_slot m.objs dst i src }

  pub write-IsMarking : IsMarking m → IsMarking written
  write-IsMarking h = record {
    queued = λ u g. h.queued u (sym (color-write_slot m.objs dst i src u) ∙ g);
    roots = λ v k. rw (color-write_slot m.objs dst i src v) (h.roots v k);
  }

  -- The written value is lit.
  pub write-IsStrong : IsLit m.objs src → IsStrong m → IsStrong written
  write-IsStrong l h u v d e = elim (Edge-write m.objs dst i src u v e) [
    | inl q ↦ rw (color-write_slot m.objs dst i src v) (l v q)
    | inr e' ↦
        rw (color-write_slot m.objs dst i src v)
          (h u v (sym (color-write_slot m.objs dst i src u) ∙ d) e')
  ]

  -- The overwritten value is lit, and the written one is safe.
  pub write-IsWeak :
      (old : Option ℕ)
      → get_elem? (slots_at m.objs dst) i ≡ some old
      → IsLit m.objs old
      → ((v : ℕ) → src ≡ some v → Safe m.objs v)
      → IsWeak m
      → IsWeak written
  write-IsWeak old g l s w =
      let keeps = write-Keeps m.objs dst i old src g l in
      record {
        fields = λ u v d e. elim (Edge-write m.objs dst i src u v e) [
          | inl q ↦ Safe-Keeps keeps (s v q)
          | inr e' ↦
              Safe-Keeps keeps (w.fields u v (sym (color-write_slot m.objs dst i src u) ∙ d) e')
        ];
        locals = λ v k. Safe-Keeps keeps (w.locals v k);
      }

-- A write to the stack, which has no barrier.
pub write_stack-IsWeak :
    (m : Machine) (i : ℕ) (src : Option ℕ)
    → ((v : ℕ) → src ≡ some v → Safe m.objs v)
    → IsWeak m
    → IsWeak (record m { stack = set m.stack i src })
write_stack-IsWeak m i src s w = record {
  fields = w.fields;
  locals = λ v k. elim (Memᴰ-set (some v) src m.stack i k) [
    | inl q ↦ s v (sym q)
    | inr k' ↦ w.locals v k'
  ];
}

-- Allocation while marking.
module _ (m : Machine) (tag : String) (c : m.collecting ≡ true) where
  abbrev born : Machine
  born = (alloc m tag).0

  abbrev newborn : Node
  newborn = record { tag = tag; color = black; slots = none ∷ [] }

  born-objs : born.objs ≡ m.objs ++ newborn ∷ []
  unfolding alloc
  born-objs = rw c

  born-color : (u : ℕ) → color_at born.objs u ≡ color_at m.objs u
  born-color u = rw born-objs (color-snoc m.objs newborn u refl)

  born-Edge : (u v : ℕ) → Edge born.objs u v → Edge m.objs u v
  born-Edge u v e =
      Edge-snoc m.objs newborn u v refl (subst (λ (ns : List Node). Edge ns u v) born-objs e)

  pub alloc-IsMarking : IsMarking m → IsMarking born
  alloc-IsMarking i = record {
    queued = λ u g. unfold alloc in i.queued u (sym (born-color u) ∙ g);
    roots = λ v k. rw (born-color v) (unfold alloc in i.roots v k);
  }

  pub alloc-IsStrong : IsStrong m → IsStrong born
  alloc-IsStrong h u v d e = rw (born-color v) (h u v (sym (born-color u) ∙ d) (born-Edge u v e))

  born-Keeps : Keeps m.objs born.objs
  born-Keeps = record {
    lit = λ u h. rw (born-color u) h;
    path = λ u v nb e. inr (
      rw (born-color u) nb,
      subst (λ (ns : List Node). Edge ns u v) (sym born-objs) (Edge-snoc_kept m.objs newborn u v e),
    );
  }

  pub alloc-IsWeak : IsWeak m → IsWeak born
  alloc-IsWeak w = record {
    fields =
        λ u v d e. Safe-Keeps born-Keeps (w.fields u v (sym (born-color u) ∙ d) (born-Edge u v e));
    locals = λ v k. Safe-Keeps born-Keeps (unfold alloc in w.locals v k);
  }

-- Scanning the stack turns the strong invariant into the weak one, and keeps each.
module _ (m : Machine) where
  abbrev opened : Machine
  opened = record m { stack_scans = suc m.stack_scans; stack_scanned = true }

  scan-Shades : Shades opened (scan_stack m)
  unfolding scan_stack
  scan-Shades = shade_all-Shades opened m.stack

  reopen : IsMarking m → IsMarking opened
  reopen i = record { queued = i.queued; roots = i.roots }

  pub scan-SameFrame : SameFrame opened (scan_stack m)
  scan-SameFrame = scan-Shades.frame

  pub scan-IsMarking : IsMarking m → IsMarking (scan_stack m)
  scan-IsMarking i = Shades-IsMarking scan-Shades (reopen i)

  pub scan-IsStrong : IsStrong m → IsStrong (scan_stack m)
  scan-IsStrong h = Shades-IsStrong scan-Shades h

  pub scan-IsWeak : IsWeak m → IsWeak (scan_stack m)
  scan-IsWeak w =
      Shades-IsWeak {a = opened} scan-Shades (record { fields = w.fields; locals = w.locals })

  -- The locals are lit by the scan.
  pub scan-locals :
      (v : ℕ) → Memᴰ (some v) (scan_stack m).stack → color_at (scan_stack m).objs v ≢ white
  scan-locals v k =
      let k' : Memᴰ (some v) m.stack = subst (Memᴰ (some v)) scan-Shades.frame.stack k in
      unfold scan_stack in shade_all-lit opened m.stack v k'

  pub scan-strong-IsWeak : IsStrong m → IsWeak (scan_stack m)
  scan-strong-IsWeak h = record {
    fields = λ u v d e. marked (scan-IsStrong h u v d e);
    locals = λ v k. marked (scan-locals v k);
  }
