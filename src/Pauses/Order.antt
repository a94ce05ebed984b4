-- ===== src/Pauses/Order.antt =====
-- Places in an ascending list, and membership under permutations.
use go_daily_learning.Prelude.{
  ℕ, zero, suc, ◌≤◌, ◌<◌, ◌≡◌, refl, ap, sym, ◌∙◌, true, some, List, [], ◌∷◌, Memᴰ, arith,
  get_elem?, length,
}
use mathlib.Core.Logic.{⊎_elim}
use mathlib.Core.List.{Permᴰ}
use mathlib.Core.List.Memᴰ
use go_daily_learning.Sorting.{all_from, is_sorted}

abbrev pub same : ℕ → ℕ
same d = d

pub get_elem?-Memᴰ :
    (xs : List ℕ) (i : ℕ) → i < length xs → (a : ℕ) × (get_elem? xs i ≡ some a) × Memᴰ a xs
get_elem?-Memᴰ [] i h = absurd (omega arith)
get_elem?-Memᴰ (x ∷ xs) zero h = (x, refl, Memᴰ.head refl)
get_elem?-Memᴰ (x ∷ xs) (suc i) h =
    let (a, e, m) = get_elem?-Memᴰ xs i (omega arith) in (a, e, Memᴰ.tail m)

pub Memᴰ-get_elem? :
    (a : ℕ) (xs : List ℕ) → Memᴰ a xs → (i : ℕ) × (i < length xs) × (get_elem? xs i ≡ some a)
Memᴰ-get_elem? a [] m = elim m [ ]
Memᴰ-get_elem? a (x ∷ xs) (Memᴰ.head e) = (zero, omega arith, ap some (sym e))
Memᴰ-get_elem? a (x ∷ xs) (Memᴰ.tail m) =
    let (i, l, e) = Memᴰ-get_elem? a xs m in (suc i, omega arith, e)

all_from-get_elem? :
    (n : ℕ) (xs : List ℕ) (i a : ℕ) → all_from same n xs ≡ true → get_elem? xs i ≡ some a → n ≤ a
all_from-get_elem? n [] i a h e = absurd (ground arith)
all_from-get_elem? n (x ∷ xs) zero a h e = ground arith
all_from-get_elem? n (x ∷ xs) (suc i) a h e = all_from-get_elem? n xs i a (ground arith) e

pub get_elem?-mono :
    (xs : List ℕ) (i j a b : ℕ)
    → is_sorted same xs ≡ true
    → i ≤ j
    → get_elem? xs i ≡ some a
    → get_elem? xs j ≡ some b
    → a ≤ b
get_elem?-mono [] i j a b h l e f = absurd (ground arith)
get_elem?-mono (x ∷ xs) zero zero a b h l e f = ground arith
get_elem?-mono (x ∷ xs) zero (suc j) a b h l e f =
    let r = all_from-get_elem? x xs j b (ground arith) f in ground arith
get_elem?-mono (x ∷ xs) (suc i) zero a b h l e f = absurd (omega arith)
get_elem?-mono (x ∷ xs) (suc i) (suc j) a b h l e f =
    get_elem?-mono xs i j a b (ground arith) (omega arith) e f

pub Permᴰ-Memᴰ : {xs ys : List ℕ} (a : ℕ) → Permᴰ xs ys → Memᴰ a xs → Memᴰ a ys
Permᴰ-Memᴰ a Permᴰ.nil m = m
Permᴰ-Memᴰ a (Permᴰ.cons e p) m =
    ⊎_elim (λ h. Memᴰ.head (h ∙ e)) (λ r. Memᴰ.tail (Permᴰ-Memᴰ a p r)) (Memᴰ.cases_cons m)
Permᴰ-Memᴰ a (Permᴰ.swap e f) m =
    ⊎_elim (λ h. Memᴰ.tail (Memᴰ.head (h ∙ e)))
      (λ r. ⊎_elim (λ h. Memᴰ.head (h ∙ f)) (λ q. Memᴰ.tail (Memᴰ.tail q)) (Memᴰ.cases_cons r))
      (Memᴰ.cases_cons m)
Permᴰ-Memᴰ a (Permᴰ.trans p q) m = Permᴰ-Memᴰ a q (Permᴰ-Memᴰ a p m)

pub Permᴰ-length : {xs ys : List ℕ} → Permᴰ xs ys → length xs ≡ length ys
Permᴰ-length Permᴰ.nil = refl
Permᴰ-length (Permᴰ.cons e p) = ap suc (Permᴰ-length p)
Permᴰ-length (Permᴰ.swap e f) = refl
Permᴰ-length (Permᴰ.trans p q) = Permᴰ-length p ∙ Permᴰ-length q
