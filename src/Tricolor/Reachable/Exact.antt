-- ===== src/Tricolor/Reachable/Exact.antt =====
-- The depth-first search of `reachable` (adv027_gc_tricolor/main.go) flags exactly the live
-- objects.
use mathlib.Core.List.Memᴰ
use go_daily_learning.Prelude.{
  ℕ, zero, suc, ◌≤◌, ◌<◌, ◌≡◌, refl, sym, ◌∙◌, ap, subst, ◌⊎◌, inl, inr, ◌↔◌, Bool, true, false,
  Option, none, some, List, [], ◌∷◌, length, set, arith, Memᴰ, Bool-cases, length-set,
}
use go_daily_learning.Tricolor.{Node, Machine, slots_at}
use go_daily_learning.Tricolor.Heap.{Edge}
use go_daily_learning.Tricolor.Invariant.{Live, global, local, field}
use go_daily_learning.Tricolor.Reachable.{seen_at, walk_each, walk, unseen, reachable}

seen-set :
    (bs : List Bool) (p v : ℕ) → seen_at (set bs p true) v ≡ true → (v ≡ p) ⊎ (seen_at bs v ≡ true)
seen-set [] p v h = inr h
seen-set (b ∷ bs) zero zero h = inl refl
seen-set (b ∷ bs) zero (suc v) h = inr h
seen-set (b ∷ bs) (suc p) zero h = inr h
seen-set (b ∷ bs) (suc p) (suc v) h = elim (seen-set bs p v h) [
  | inl e ↦ inl (ap suc e)
  | inr q ↦ inr q
]

seen-set_kept : (bs : List Bool) (p v : ℕ) → seen_at bs v ≡ true → seen_at (set bs p true) v ≡ true
seen-set_kept [] p v h = h
seen-set_kept (b ∷ bs) zero zero h = refl
seen-set_kept (b ∷ bs) zero (suc v) h = h
seen-set_kept (b ∷ bs) (suc p) zero h = h
seen-set_kept (b ∷ bs) (suc p) (suc v) h = seen-set_kept bs p v h

seen-set_self : (bs : List Bool) (p : ℕ) → seen_at (set bs p true) p ≡ true
seen-set_self [] p = refl
seen-set_self (b ∷ bs) zero = refl
seen-set_self (b ∷ bs) (suc p) = seen-set_self bs p

abbrev left : List Bool → ℕ
left [] = 0
left (true ∷ bs) = left bs
left (false ∷ bs) = suc (left bs)

left-set : (bs : List Bool) (p : ℕ) → seen_at bs p ≡ false → suc (left (set bs p true)) ≡ left bs
left-set [] p h = cc
left-set (b ∷ bs) zero h = ground arith
left-set (true ∷ bs) (suc p) h = left-set bs p h
left-set (false ∷ bs) (suc p) h = ap suc (left-set bs p h)

-- Soundness: whatever holds of the roots and passes along edges holds of all that is flagged.
module _ {ℓ} (ns : List Node) (P : ℕ → Type ℓ) (closed : (u v : ℕ) → P u → Edge ns u v → P v) where
  abbrev IsSound : List Bool → Type ℓ
  IsSound seen = (v : ℕ) → v < length seen → seen_at seen v ≡ true → P v

  walk_each-IsSound :
      (go : List Bool → ℕ → List Bool)
      → ((seen : List Bool) (p : ℕ) → P p → IsSound seen → IsSound (go seen p))
      → (seen : List Bool) (ps : List (Option ℕ)) → ((p : ℕ) → Memᴰ (some p) ps → P p)
      → IsSound seen
      → IsSound (walk_each go seen ps)
  unfolding walk_each
  walk_each-IsSound go keep seen [] roots h = h
  walk_each-IsSound go keep seen (none ∷ ps) roots h =
      walk_each-IsSound go keep seen ps (λ p k. roots p (Memᴰ.tail k)) h
  walk_each-IsSound go keep seen (some p ∷ ps) roots h =
      walk_each-IsSound go keep (go seen p) ps (λ q k. roots q (Memᴰ.tail k))
        (keep seen p (roots p (Memᴰ.head refl)) h)

  set-IsSound : (seen : List Bool) (p : ℕ) → P p → IsSound seen → IsSound (set seen p true)
  set-IsSound seen p holds h v b e = elim (seen-set seen p v e) [
    | inl q ↦ subst P (sym q) holds
    | inr q ↦ h v (omega (arith, length-set seen p true)) q
  ]

  walk-IsSound :
      (f : ℕ) (seen : List Bool) (p : ℕ) → P p → IsSound seen → IsSound (walk ns f seen p)
  unfolding walk
  walk-IsSound zero seen p holds h = h
  walk-IsSound (suc f) seen p holds h = elim (Bool-cases (seen_at seen p)) [
    | inl e ↦ rw (e, walk) h
    | inr e ↦
        rw (e, walk)
          (walk_each-IsSound (walk ns f) (walk-IsSound f) (set seen p true) (slots_at ns p)
            (λ v k. closed p v holds k) (set-IsSound seen p holds h))
  ]

-- Completeness: what a call flags anew has all its children flagged at the end.
record Closes (ns : List Node) (a b : List Bool) : Type 0 where
  mono : (v : ℕ) → seen_at a v ≡ true → seen_at b v ≡ true
  fresh :
      (u : ℕ)
      → seen_at a u ≡ false
      → seen_at b u ≡ true
      → (v : ℕ) → Edge ns u v
      → seen_at b v ≡ true
  fewer : left b ≤ left a
  size : length b ≡ length a

Closes-refl : (ns : List Node) (a : List Bool) → Closes ns a a
Closes-refl ns a = record {
  mono = λ v h. h;
  fresh = λ u h k v e. cc;
  fewer = omega arith;
  size = refl;
}

Closes-trans : (ns : List Node) (a b c : List Bool) → Closes ns a b → Closes ns b c → Closes ns a c
Closes-trans ns a b c s t = record {
  mono = λ v h. t.mono v (s.mono v h);
  fresh = λ u h k v e. elim (Bool-cases (seen_at b u)) [
    | inl y ↦ t.mono v (s.fresh u h y v e)
    | inr n ↦ t.fresh u n k v e
  ];
  fewer = omega (arith, s.fewer, t.fewer);
  size = t.size ∙ s.size;
}

abbrev Visits : List Node → ℕ → (List Bool → ℕ → List Bool) → Type 0
Visits ns k go =
    (seen : List Bool) (p : ℕ)
    → left seen < k
    → Closes ns seen (go seen p) × (seen_at (go seen p) p ≡ true)

module _ (ns : List Node) where
  walk_each-Closes :
      (k : ℕ) (go : List Bool → ℕ → List Bool)
      → Visits ns k go
      → (seen : List Bool) (ps : List (Option ℕ)) → left seen < k
      → Closes ns seen (walk_each go seen ps)
        × ((p : ℕ) → Memᴰ (some p) ps → seen_at (walk_each go seen ps) p ≡ true)
  unfolding walk_each
  walk_each-Closes k go visit seen [] h = (Closes-refl ns seen, λ p m. absurd (Memᴰ.not-nil m))
  walk_each-Closes k go visit seen (none ∷ ps) h =
      let (closes, all) = walk_each-Closes k go visit seen ps h in
      (closes, λ p m. elim (Memᴰ.cases_cons m) [ inl e ↦ cc | inr r ↦ all p r ])
  walk_each-Closes k go visit seen (some q ∷ ps) h =
      let (one, self) = visit seen q h in
      let (closes, all) = walk_each-Closes k go visit (go seen q) ps (omega (arith, one.fewer)) in
      (
        Closes-trans ns seen (go seen q) (walk_each go (go seen q) ps) one closes,
        λ p m. elim (Memᴰ.cases_cons m) [
          | inl e ↦ closes.mono p (ground (arith, self, e))
          | inr r ↦ all p r
        ],
      )

  -- Flagging `p` and then visiting its slots.
  open_then_close :
      (seen final : List Bool) (p : ℕ)
      → seen_at seen p ≡ false
      → Closes ns (set seen p true) final
      → ((v : ℕ) → Edge ns p v → seen_at final v ≡ true)
      → Closes ns seen final × (seen_at final p ≡ true)
  open_then_close seen final p h c all = (
    record {
      mono = λ v e. c.mono v (seen-set_kept seen p v e);
      fresh = λ u n y v e. elim (Bool-cases (seen_at (set seen p true) u)) [
        | inl now ↦ elim (seen-set seen p u now) [
          | inl q ↦ all v (subst (λ (x : ℕ). Edge ns x v) q e)
          | inr old ↦ cc
        ]
        | inr still ↦ c.fresh u still y v e
      ];
      fewer = omega (arith, c.fewer, left-set seen p h);
      size = c.size ∙ length-set seen p true;
    },
    c.mono p (seen-set_self seen p),
  )

  walk-Visits : (f : ℕ) → Visits ns f (walk ns f)
  unfolding walk
  walk-Visits zero seen p h = absurd (omega arith)
  walk-Visits (suc f) seen p h = elim (Bool-cases (seen_at seen p)) [
    | inl e ↦ rw (e, walk) (Closes-refl ns seen, e)
    | inr e ↦
        let (closes, all) =
          walk_each-Closes f (walk ns f) (walk-Visits f) (set seen p true) (slots_at ns p)
            (omega (arith, left-set seen p e)) in
        rw (e, walk) (open_then_close seen _ p e closes all)
  ]

left-unseen : (ns : List Node) → left (unseen ns) ≤ length ns
unfolding unseen
left-unseen [] = omega arith
left-unseen (n ∷ ns) = omega (arith, left-unseen ns)

unseen-cases : (ns : List Node) (u : ℕ) → (seen_at (unseen ns) u ≡ false) ⊎ (slots_at ns u ≡ [])
unfolding unseen slots_at
unseen-cases [] u = inr refl
unseen-cases (n ∷ ns) zero = inl refl
unseen-cases (n ∷ ns) (suc u) = unseen-cases ns u

unseen_sound : (ns : List Node) (u : ℕ) → u < length (unseen ns) → seen_at (unseen ns) u ≡ false
unfolding unseen
unseen_sound [] u h = absurd (omega arith)
unseen_sound (n ∷ ns) zero h = refl
unseen_sound (n ∷ ns) (suc u) h = unseen_sound ns u (omega arith)

length-unseen : (ns : List Node) → length (unseen ns) ≡ length ns
unfolding unseen
length-unseen [] = refl
length-unseen (n ∷ ns) = ap suc (length-unseen ns)

module _ (m : Machine) where
  abbrev go : List Bool → ℕ → List Bool
  go = walk m.objs (suc (length m.objs))

  abbrev from_globals : List Bool
  from_globals = walk_each go (unseen m.objs) m.globals

  globals-Closes :
      Closes m.objs (unseen m.objs) from_globals
      × ((p : ℕ) → Memᴰ (some p) m.globals → seen_at from_globals p ≡ true)
  globals-Closes =
      walk_each-Closes m.objs (suc (length m.objs)) go (walk-Visits m.objs (suc (length m.objs)))
        (unseen m.objs) m.globals (omega (arith, left-unseen m.objs))

  stack-Closes :
      Closes m.objs from_globals (reachable m)
      × ((p : ℕ) → Memᴰ (some p) m.stack → seen_at (reachable m) p ≡ true)
  unfolding reachable
  stack-Closes =
      walk_each-Closes m.objs (suc (length m.objs)) go (walk-Visits m.objs (suc (length m.objs)))
        from_globals m.stack (omega (arith, left-unseen m.objs, globals-Closes.0.fewer))

  both-Closes : Closes m.objs (unseen m.objs) (reachable m)
  both-Closes =
      Closes-trans m.objs (unseen m.objs) from_globals (reachable m) globals-Closes.0 stack-Closes.0

  pub length-reachable : length (reachable m) ≡ length m.objs
  length-reachable = both-Closes.size ∙ length-unseen m.objs

  pub Live-seen : (v : ℕ) → Live m v → seen_at (reachable m) v ≡ true
  Live-seen v (global k) = stack-Closes.0.mono v (globals-Closes.1 v k)
  Live-seen v (local k) = stack-Closes.1 v k
  Live-seen v (field {u} l e) = elim (unseen-cases m.objs u) [
    | inl n ↦ both-Closes.fresh u n (Live-seen u l) v e
    | inr none_there ↦ absurd (Memᴰ.not-nil (subst (Memᴰ (some v)) none_there e))
  ]

  reachable-IsSound : IsSound m.objs (Live m) (λ u w. field) (reachable m)
  unfolding reachable
  reachable-IsSound =
      let keep = walk-IsSound m.objs (Live m) (λ u w. field) (suc (length m.objs)) in
      walk_each-IsSound m.objs (Live m) (λ u w. field) go keep from_globals m.stack (λ p k. local k)
        (walk_each-IsSound m.objs (Live m) (λ u w. field) go keep (unseen m.objs) m.globals
          (λ p k. global k) (λ u h e. cc (unseen_sound m.objs u h)))

-- The search flags an object exactly when the mutator can reach it.
pub reachable-Live :
    (m : Machine) (v : ℕ) → v < length m.objs → (seen_at (reachable m) v ≡ true) ↔ Live m v
reachable-Live m v b = (reachable-IsSound m v (omega (arith, length-reachable m)), Live-seen m v)
