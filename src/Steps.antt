-- ===== src/Steps.antt =====
-- Programs as moves on one state: a move that is not enabled (`none`) changes nothing, so a list of
-- moves is any interleaving.
use go_daily_learning.Prelude.{
  ℕ, suc, ◌+◌, ◌≤◌, ◌<◌, ◌≡◌, refl, Option, none, some, List, [], ◌∷◌, ◌++◌, arith, Bool, true,
  false, ◌&&◌,
}

abbrev pub every : {M : Type 0} → (M → Bool) → List M → Bool
every ok [] = true
every ok (m ∷ ms) = ok m && every ok ms

-- Whether a move is enabled.
abbrev pub goes : {A : Type 0} → Option A → Bool
goes none = false
goes (some a) = true

module _ {W M : Type 0} (move : W → M → Option W) where
  after : W → Option W → W
  after w none = w
  after w (some w') = w'

  unfoldable pub run_moves : List M → W → W
  unfolding after
  run_moves [] w = w
  run_moves (m ∷ ms) w = run_moves ms (after w (move w m))

  -- What every enabled move keeps, every run keeps.
  pub run_moves-keeps :
      (P : W → Type 0)
      → ((w w' : W) (m : M) → move w m ≡ some w' → P w → P w')
      → (ms : List M) (w : W) → P w
      → P (run_moves ms w)
  unfolding run_moves after
  run_moves-keeps P keeps [] w p = p
  run_moves-keeps P keeps (m ∷ ms) w p =
      run_moves-keeps P keeps ms (after w (move w m)) (after_P (move w m) refl)
    where
      after_P : (o : Option W) → move w m ≡ o → P (after w o)
      after_P none e = p
      after_P (some w') e = keeps w w' m e p

  one_more : Option W → ℕ → ℕ
  one_more none n = n
  one_more (some w) n = suc n

  -- How many of the moves were enabled when their turn came.
  unfoldable pub enabled : List M → W → ℕ
  unfolding one_more after
  enabled [] w = 0
  enabled (m ∷ ms) w = one_more (move w m) (enabled ms (after w (move w m)))

  -- A measure that every enabled move lowers bounds their number.
  pub enabled-bound :
      (energy : W → ℕ)
      → ((w w' : W) (m : M) → move w m ≡ some w' → energy w' < energy w)
      → (ms : List M) (w : W) → enabled ms w + energy (run_moves ms w) ≤ energy w
  unfolding enabled run_moves
  enabled-bound energy lower [] w = omega arith
  enabled-bound energy lower (m ∷ ms) w = by_move (move w m) refl (enabled-bound energy lower ms)
    where
      by_move :
          (o : Option W)
          → move w m ≡ o
          → ((v : W) → enabled ms v + energy (run_moves ms v) ≤ energy v)
          → one_more o (enabled ms (after w o)) + energy (run_moves ms (after w o)) ≤ energy w
      by_move none e rest = rest w
      by_move (some w') e rest = omega (arith, rest w', lower w w' m e)

  pub run_moves-append :
      (ms ns : List M) (w : W) → run_moves (ms ++ ns) w ≡ run_moves ns (run_moves ms w)
  unfolding run_moves
  run_moves-append [] ns w = refl
  run_moves-append (m ∷ ms) ns w = run_moves-append ms ns (after w (move w m))

  -- What the enabled moves of one sort keep, the runs of that sort keep.
  pub run_moves-keeps_where :
      (ok : M → Bool) (P : W → Type 0)
      → ((w w' : W) (m : M) → ok m ≡ true → move w m ≡ some w' → P w → P w')
      → (ms : List M) (w : W) → every ok ms ≡ true
      → P w
      → P (run_moves ms w)
  unfolding run_moves after
  run_moves-keeps_where ok P keeps [] w h p = p
  run_moves-keeps_where ok P keeps (m ∷ ms) w h p =
      run_moves-keeps_where ok P keeps ms (after w (move w m)) (ground arith)
        (after_P (move w m) refl)
    where
      after_P : (o : Option W) → move w m ≡ o → P (after w o)
      after_P none e = p
      after_P (some w') e = keeps w w' m (ground arith) e p

  -- The same bound where the measure is lowered only while a property holds.
  pub enabled-bound_within :
      (P : W → Type 0) (energy : W → ℕ)
      → ((w w' : W) (m : M) → move w m ≡ some w' → P w → P w')
      → ((w w' : W) (m : M) → move w m ≡ some w' → P w → energy w' < energy w)
      → (ms : List M) (w : W) → P w
      → enabled ms w ≤ energy w
  unfolding enabled
  enabled-bound_within P energy keeps lower [] w p = omega arith
  enabled-bound_within P energy keeps lower (m ∷ ms) w p =
      by_move (move w m) refl (enabled-bound_within P energy keeps lower ms)
    where
      by_move :
          (o : Option W)
          → move w m ≡ o
          → ((v : W) → P v → enabled ms v ≤ energy v)
          → one_more o (enabled ms (after w o)) ≤ energy w
      by_move none e rest = rest w p
      by_move (some w') e rest = omega (arith, rest w' (keeps w w' m e p), lower w w' m e p)
