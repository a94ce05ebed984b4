-- ===== src/Tricolor/Drain.antt =====
-- `drainAll` of adv027_gc_tricolor/main.go ends with an empty work list, and keeps what a step
-- keeps.
use go_daily_learning.Prelude.{
  ℕ, zero, suc, ◌+◌, ◌≤◌, ◌≡◌, refl, ap, ◌⊎◌, inl, inr, Option, none, some, List, [], ◌∷◌, arith,
  length, length-append, true, false, List-cases, Bool-cases,
}
use go_daily_learning.Tricolor.{
  white, grey, black, Node, Machine, color_at, slots_at, paint, shade, shade_all, step_on, step,
  drain_n, drain_all,
}

-- The objects that are still white.
abbrev pub whites : List Node → ℕ
whites [] = 0
whites (n ∷ ns) = elim n.color [ white ↦ suc (whites ns) | _ ↦ whites ns ]

whites-le-length : (ns : List Node) → whites ns ≤ length ns
whites-le-length [] = omega arith
whites-le-length (n ∷ ns) = ground (arith, whites-le-length ns)

whites-paint_grey :
    (ns : List Node) (p : ℕ) → color_at ns p ≡ white → suc (whites (paint ns p grey)) ≡ whites ns
unfolding paint color_at
whites-paint_grey [] p h = cc
whites-paint_grey (n ∷ ns) zero h = ground arith
whites-paint_grey (n ∷ ns) (suc p) h = ground (arith, whites-paint_grey ns p h)

whites-paint_black : (ns : List Node) (p : ℕ) → whites (paint ns p black) ≤ whites ns
unfolding paint
whites-paint_black [] p = omega arith
whites-paint_black (n ∷ ns) zero = ground arith
whites-paint_black (n ∷ ns) (suc p) = ground (arith, whites-paint_black ns p)

-- Steps that the marker has left at most: it falls by one at each step.
abbrev pub todo : Machine → ℕ
todo m = whites m.objs + length m.work

todo-shade : (m : Machine) (p : Option ℕ) → todo (shade m p) ≡ todo m
unfolding shade
todo-shade m none = refl
todo-shade m (some p) = ground (arith, whites-paint_grey m.objs p, length-append m.work (p ∷ []))

todo-shade_all : (m : Machine) (ps : List (Option ℕ)) → todo (shade_all m ps) ≡ todo m
unfolding shade_all
todo-shade_all m [] = refl
todo-shade_all m (p ∷ ps) = omega (arith, todo-shade_all (shade m p) ps, todo-shade m p)

todo-step_on :
    (m : Machine) (n : ℕ) (rest : List ℕ)
    → m.work ≡ n ∷ rest
    → suc (todo (step_on m (n ∷ rest)).0) ≤ todo m
unfolding step_on
todo-step_on m n rest e = omega (
  arith,
  todo-shade_all (record m { work = rest }) (slots_at m.objs n),
  whites-paint_black (shade_all (record m { work = rest }) (slots_at m.objs n)).objs n,
  ap length e,
)

-- A step either finds nothing to do or brings the end nearer.
step_on-progress :
    (m : Machine) (work : List ℕ)
    → m.work ≡ work
    → ((step_on m work).1 ≡ false) × ((step_on m work).0.work ≡ [])
      ⊎ ((step_on m work).1 ≡ true) × (suc (todo (step_on m work).0) ≤ todo m)
step_on-progress m [] e = unfold step_on in inl (refl, e)
step_on-progress m (n ∷ rest) e = inr (unfold step_on in refl, todo-step_on m n rest e)

step-progress :
    (m : Machine)
    → ((step m).1 ≡ false) × ((step m).0.work ≡ [])
      ⊎ ((step m).1 ≡ true) × (suc (todo (step m).0) ≤ todo m)
unfolding step
step-progress m = step_on-progress m m.work refl

drain_n-more : (k : ℕ) (m : Machine) → (step m).1 ≡ true → drain_n (suc k) m ≡ drain_n k (step m).0
unfolding drain_n
drain_n-more k m e = rw (e, drain_n)

drain_n-stop : (k : ℕ) (m : Machine) → (step m).1 ≡ false → drain_n (suc k) m ≡ (step m).0
unfolding drain_n
drain_n-stop k m e = rw (e, drain_n)

-- With enough rounds nothing is left to scan.
drain_n-empties : (k : ℕ) (m : Machine) → todo m ≤ k → (drain_n k m).work ≡ []
drain_n-empties zero m h = elim (List-cases m.work) [
  | inl e ↦ unfold drain_n in e
  | inr (n, rest, e) ↦ absurd (omega (arith, ap length e))
]
drain_n-empties (suc k) m h = elim (step-progress m) [
  | inl (stop, e) ↦ rw (drain_n-stop k m stop) e
  | inr (more, less) ↦ rw (drain_n-more k m more) (drain_n-empties k (step m).0 (omega arith))
]

-- Draining leaves no work: one round for each object and each entry of the work list is enough.
pub drain_all-empties : (m : Machine) → (drain_all m).work ≡ []
unfolding drain_all
drain_all-empties m = drain_n-empties _ m (omega (arith, whites-le-length m.objs))

-- What one step keeps, draining keeps.
pub drain_n_inv {ℓ} :
    (P : Machine → Type ℓ)
    → ((m : Machine) → P m → P (step m).0)
    → (k : ℕ) (m : Machine) → P m
    → P (drain_n k m)
drain_n_inv P keep zero m h = unfold drain_n in h
drain_n_inv P keep (suc k) m h = elim (Bool-cases (step m).1) [
  | inl more ↦ rw (drain_n-more k m more) (drain_n_inv P keep k (step m).0 (keep m h))
  | inr stop ↦ rw (drain_n-stop k m stop) (keep m h)
]

pub drain_all_inv {ℓ} :
    (P : Machine → Type ℓ)
    → ((m : Machine) → P m → P (step m).0)
    → (m : Machine) → P m
    → P (drain_all m)
unfolding drain_all
drain_all_inv P keep m h = drain_n_inv P keep _ m h
