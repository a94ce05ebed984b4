-- ===== src/Threads.antt =====
-- Goroutines that share memory, for the programs that start many copies of one function: a shared
-- state, a local state for each goroutine, and `act`, the next atomic action of a goroutine (`none`
-- while it blocks and once it has ended). A schedule says whose turn it is, so a theorem about
-- every schedule is a theorem about every interleaving.
use go_daily_learning.Prelude.{
  ℕ, zero, suc, ◌+◌, ◌*◌, ◌≤◌, ◌<◌, ◌≡◌, refl, Option, none, some, List, [], ◌∷◌, arith, get_elem?,
  set,
}

pub record World (S T : Type 0) : Type 0 where
  pub shared : S
  pub threads : List T

-- The sum of a measure over the goroutines.
abbrev pub total : {T : Type 0} → (T → ℕ) → List T → ℕ
total f [] = 0
total f (t ∷ ts) = f t + total f ts

abbrev pub replicate : {T : Type 0} → ℕ → T → List T
replicate zero t = []
replicate (suc n) t = t ∷ replicate n t

module _ {T : Type 0} where
  pub total-set :
      (f : T → ℕ) (ts : List T) (i : ℕ) (t t' : T)
      → get_elem? ts i ≡ some t
      → total f (set ts i t') + f t ≡ total f ts + f t'
  total-set f [] i t t' e = ground arith
  total-set f (x ∷ ts) zero t t' e = ground arith
  total-set f (x ∷ ts) (suc i) t t' e = let r = total-set f ts i t t' e in ground arith

  pub total-here :
      (f : T → ℕ) (ts : List T) (i : ℕ) (t : T) → get_elem? ts i ≡ some t → f t ≤ total f ts
  total-here f [] i t e = ground arith
  total-here f (x ∷ ts) zero t e = ground arith
  total-here f (x ∷ ts) (suc i) t e = let r = total-here f ts i t e in ground arith

  pub total-find :
      (f : T → ℕ) (ts : List T)
      → 0 < total f ts
      → (i : ℕ) × (t : T) × (get_elem? ts i ≡ some t) × (0 < f t)
  total-find f [] p = ground arith
  total-find f (x ∷ ts) p = find_on (λ q. total-find f ts q) (f x) refl
    where
      find_on :
          (0 < total f ts → (i : ℕ) × (t : T) × (get_elem? ts i ≡ some t) × (0 < f t))
          → (n : ℕ) → f x ≡ n
          → (i : ℕ) × (t : T) × (get_elem? (x ∷ ts) i ≡ some t) × (0 < f t)
      find_on rest zero e = let (i, t, h, q) = rest (omega arith) in (suc i, t, h, q)
      find_on rest (suc n) e = (zero, x, refl, omega arith)

  pub total_mono : (f g : T → ℕ) → ((t : T) → f t ≤ g t) → (ts : List T) → total f ts ≤ total g ts
  total_mono f g h [] = omega arith
  total_mono f g h (t ∷ ts) = omega (arith, h t, total_mono f g h ts)

  pub total-replicate_times : (f : T → ℕ) (n : ℕ) (t : T) → total f (replicate n t) ≡ n * f t
  total-replicate_times f zero t = omega arith
  total-replicate_times f (suc n) t = let r = total-replicate_times f n t in ground arith

  -- A measure that is zero where another is.
  pub total-zero :
      (g f : T → ℕ)
      → ((t : T) → g t ≡ 0 → f t ≡ 0)
      → (ts : List T) → total g ts ≡ 0
      → total f ts ≡ 0
  total-zero g f h [] z = refl
  total-zero g f h (t ∷ ts) z =
      let a = h t (omega arith) in let b = total-zero g f h ts (omega arith) in omega arith

  pub total-replicate : (f : T → ℕ) (n : ℕ) (t : T) → f t ≡ 0 → total f (replicate n t) ≡ 0
  total-replicate f zero t e = refl
  total-replicate f (suc n) t e = let r = total-replicate f n t e in ground arith

  pub total-replicate_one : (f : T → ℕ) (n : ℕ) (t : T) → f t ≡ 1 → total f (replicate n t) ≡ n
  total-replicate_one f zero t e = refl
  total-replicate_one f (suc n) t e = let r = total-replicate_one f n t e in ground arith

module _ {S T : Type 0} (act : S → T → Option (S × T)) where
  after : World S T → ℕ → Option (S × T) → World S T
  after w i none = w
  after w i (some (s, t)) = record { shared = s; threads = set w.threads i t }

  go_on : World S T → ℕ → Option T → World S T
  unfolding after
  go_on w i none = w
  go_on w i (some t) = after w i (act w.shared t)

  -- The turn of goroutine `i`: nothing happens when it is blocked, has ended or does not exist.
  turn : World S T → ℕ → World S T
  unfolding go_on
  turn w i = go_on w i (get_elem? w.threads i)

  unfoldable pub run : List ℕ → World S T → World S T
  unfolding turn
  run [] w = w
  run (i ∷ is) w = run is (turn w i)

  -- What every action of a goroutine keeps, every schedule keeps.
  pub run-keeps :
      (P : World S T → Type 0)
      → ((w : World S T) (i : ℕ) (t t' : T) (s : S)
          → get_elem? w.threads i ≡ some t
          → act w.shared t ≡ some (s, t')
          → P w
          → P (record { shared = s; threads = set w.threads i t' }))
      → (is : List ℕ) (w : World S T) → P w
      → P (run is w)
  unfolding after go_on turn run
  run-keeps P keeps [] w p = p
  run-keeps P keeps (i ∷ is) w p =
      run-keeps P keeps is (turn w i) (go_on_P (get_elem? w.threads i) refl)
    where
      after_P :
          (t : T)
          → get_elem? w.threads i ≡ some t
          → (o : Option (S × T)) → act w.shared t ≡ o
          → P (after w i o)
      after_P t e none a = p
      after_P t e (some (s, t')) a = keeps w i t t' s e a p

      go_on_P : (o : Option T) → get_elem? w.threads i ≡ o → P (go_on w i o)
      go_on_P none e = p
      go_on_P (some t) e = after_P t e (act w.shared t) refl
