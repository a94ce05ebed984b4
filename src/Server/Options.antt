-- ===== src/Server/Options.antt =====
-- What the options of day041_functional_options/main.go decide.
use Prim.Native.String.{String}
use go_daily_learning.Prelude.{
  ◌≡◌, refl, ◌⊎◌, inl, inr, true, false, none, some, List, [], ◌∷◌, ◌++◌, arith, Bool-cases,
}
use go_daily_learning.Prelude.Int.{ℤ}
use go_daily_learning.Server.{
  Server, ServerOption, with_host, with_port, with_timeout, with_protocol, default_server,
  apply_all, is_positive, new_server,
}

apply_all-append :
    (s : Server) (xs ys : List ServerOption)
    → apply_all s (xs ++ ys) ≡ apply_all (apply_all s xs) ys
unfolding apply_all
apply_all-append s [] ys = refl
apply_all-append s (x ∷ xs) ys = apply_all-append (x s) xs ys

-- Options that leave the timeout alone.
abbrev pub KeepTimeout : List ServerOption → Type 0
KeepTimeout [] = Unit
KeepTimeout (opt ∷ opts) = ((s : Server) → (opt s).timeout ≡ s.timeout) × KeepTimeout opts

timeout-apply_all :
    (s : Server) (opts : List ServerOption)
    → KeepTimeout opts
    → (apply_all s opts).timeout ≡ s.timeout
unfolding apply_all
timeout-apply_all s [] k = refl
timeout-apply_all s (opt ∷ opts) k = ground (arith, timeout-apply_all (opt s) opts k.1, k.0 s)

-- The last `WithTimeout` decides: after it, with options that leave the timeout alone, the call
-- succeeds with that timeout if it is positive, and fails otherwise, whatever came before.
pub last_timeout_decides :
    (before after : List ServerOption) (d : ℤ)
    → KeepTimeout after
    → (is_positive d ≡ true)
        × ((s : Server) × (new_server (before ++ with_timeout d ∷ after) ≡ some s)
            × (s.timeout ≡ d))
      ⊎ (is_positive d ≡ false) × (new_server (before ++ with_timeout d ∷ after) ≡ none)
unfolding new_server with_timeout
last_timeout_decides before after d k =
    let t : Server = apply_all (with_timeout d (apply_all default_server before)) after in
    let e : apply_all default_server (before ++ with_timeout d ∷ after) ≡ t =
      apply_all-append default_server before (with_timeout d ∷ after) in
    let f : t.timeout ≡ d =
      timeout-apply_all (with_timeout d (apply_all default_server before)) after k in
    elim (Bool-cases (is_positive d)) [
      | inl p ↦ inl (p, (t, rw (e, f, p), f))
      | inr n ↦ inr (n, rw (e, f, n))
    ]

-- The options of the program that leave the timeout alone.
pub setters-KeepTimeout :
    (host proto : String) (port : ℤ)
    → KeepTimeout (with_host host ∷ with_port port ∷ with_protocol proto ∷ [])
unfolding with_host with_port with_protocol
setters-KeepTimeout host proto port = ((λ s. refl), ((λ s. refl), ((λ s. refl), tt)))
