-- ===== src/Parties.antt =====
-- Programs of many goroutines with a local state each and a shared part: a move is one of a
-- goroutine, or of the shared part alone. `none` is a move that is not enabled.
use go_daily_learning.Prelude.{
  ℕ, ◌≡◌, refl, ap, ◌∙◌, subst, Option, none, some, some-injective, List, get_elem?, set, arith,
}
use go_daily_learning.Threads.{World}

pub data PartyMove (K H : Type 0) : Type 0 where
  on_thread : K → ℕ → PartyMove K H
  on_shared : H → PartyMove K H

module _ {S T K H : Type 0} (act : K → S → T → Option (S × T))
    (shared_act : H → S → List T → Option S) where
  put_thread : World S T → ℕ → Option (S × T) → Option (World S T)
  put_thread w i none = none
  put_thread w i (some (s, t)) = some (record { shared = s; threads = set w.threads i t })

  at_thread : K → World S T → ℕ → Option T → Option (World S T)
  unfolding put_thread
  at_thread k w i none = none
  at_thread k w i (some t) = put_thread w i (act k w.shared t)

  put_shared : World S T → Option S → Option (World S T)
  put_shared w none = none
  put_shared w (some s) = some (record w { shared = s })

  unfoldable pub party_move : World S T → PartyMove K H → Option (World S T)
  unfolding at_thread put_shared
  party_move w (on_thread k i) = at_thread k w i (get_elem? w.threads i)
  party_move w (on_shared k) = put_shared w (shared_act k w.shared w.threads)

  put_thread-cases :
      (P : World S T → Type 0) (w w' : World S T) (i : ℕ) (o : Option (S × T))
      → ((s : S) (t : T) → o ≡ some (s, t) → P (record { shared = s; threads = set w.threads i t }))
      → put_thread w i o ≡ some w'
      → P w'
  unfolding put_thread
  put_thread-cases P w w' i none on e = absurd (ground arith)
  put_thread-cases P w w' i (some (s, t)) on e = subst P (some-injective _ _ e) (on s t refl)

  at_thread-cases :
      (P : World S T → Type 0) (w w' : World S T) (k : K) (i : ℕ) (o : Option T)
      → ((s : S) (t t' : T)
          → o ≡ some t
          → act k w.shared t ≡ some (s, t')
          → P (record { shared = s; threads = set w.threads i t' }))
      → at_thread k w i o ≡ some w'
      → P w'
  unfolding at_thread
  at_thread-cases P w w' k i none on e = absurd (ground arith)
  at_thread-cases P w w' k i (some t) on e =
      put_thread-cases P w w' i (act k w.shared t) (λ s t' a. on s t t' refl a) e

  put_shared-cases :
      (P : World S T → Type 0) (w w' : World S T) (o : Option S)
      → ((s : S) → o ≡ some s → P (record w { shared = s }))
      → put_shared w o ≡ some w'
      → P w'
  unfolding put_shared
  put_shared-cases P w w' none on e = absurd (ground arith)
  put_shared-cases P w w' (some s) on e = subst P (some-injective _ _ e) (on s refl)

  -- The two ways a move succeeds: a goroutine is there and acts, or the shared part does.
  pub party_move-cases :
      (P : World S T → Type 0) (w w' : World S T) (m : PartyMove K H)
      → ((k : K) (i : ℕ) (t t' : T) (s : S)
          → get_elem? w.threads i ≡ some t
          → act k w.shared t ≡ some (s, t')
          → P (record { shared = s; threads = set w.threads i t' }))
      → ((k : H) (s : S)
          → m ≡ on_shared k
          → shared_act k w.shared w.threads ≡ some s
          → P (record w { shared = s }))
      → party_move w m ≡ some w'
      → P w'
  unfolding party_move
  party_move-cases P w w' (on_thread k i) by_thread by_shared e =
      at_thread-cases P w w' k i (get_elem? w.threads i) (λ s t t' g a. by_thread k i t t' s g a) e
  party_move-cases P w w' (on_shared k) by_thread by_shared e =
      put_shared-cases P w w' (shared_act k w.shared w.threads) (λ s a. by_shared k s refl a) e

  pub party_move-on_thread :
      (w : World S T) (k : K) (i : ℕ) (t t' : T) (s : S)
      → get_elem? w.threads i ≡ some t
      → act k w.shared t ≡ some (s, t')
      → party_move w (on_thread k i) ≡ some (record { shared = s; threads = set w.threads i t' })
  unfolding party_move at_thread put_thread
  party_move-on_thread w k i t t' s g a = ap (at_thread k w i) g ∙ ap (put_thread w i) a

  pub party_move-on_shared :
      (w : World S T) (k : H) (s : S)
      → shared_act k w.shared w.threads ≡ some s
      → party_move w (on_shared k) ≡ some (record w { shared = s })
  unfolding party_move put_shared
  party_move-on_shared w k s a = ap (put_shared w) a
