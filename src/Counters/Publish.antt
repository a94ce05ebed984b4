-- ===== src/Counters/Publish.antt =====
-- What the readers of the publication bit of adv013_atomics_ordering/main.go get, over every
-- schedule.
use go_daily_learning.Prelude.{
  bit, ℕ, ◌+◌, ◌<◌, ◌≡◌, refl, false, some, List, ◌∷◌, arith, ◌==◌, if◌then◌else◌, get_elem?, set,
}
use go_daily_learning.Threads.{
  World, total, replicate, total-set, total-here, total-replicate, run-keeps,
}
use go_daily_learning.Counters.{
  PublishState, Party, writing, publishing, published, polling, reading, returned, publish_act,
  run_publish,
}

-- 1 for a publisher of another value, and for a reader that returned another value.
abbrev pub strays : ℕ → Party → ℕ
strays v (writing x) = if x == v then 0 else 1
strays v publishing = 0
strays v published = 0
strays v polling = 0
strays v reading = 0
strays v (returned x) = if x == v then 0 else 1

-- 1 for a party that is past the first store, or past a load of `ready` that found it set.
abbrev past : Party → ℕ
past (writing x) = 0
past publishing = 1
past published = 1
past polling = 0
past reading = 1
past (returned x) = 0

record Inv (v : ℕ) (w : World PublishState Party) : Type 0 where
  right : total (strays v) w.threads ≡ 0
  stored : 0 < total past w.threads + bit w.shared.ready → w.shared.data_value ≡ v

publish_act-Inv :
    (v : ℕ) (w : World PublishState Party) (i : ℕ) (t t' : Party) (s : PublishState)
    → get_elem? w.threads i ≡ some t
    → publish_act w.shared t ≡ some (s, t')
    → Inv v w
    → Inv v (record { shared = s; threads = set w.threads i t' })
publish_act-Inv v w i t t' s e a inv =
    let b = total-set (strays v) w.threads i t t' e in
    let c = total-set past w.threads i t t' e in
    let d = total-here (strays v) w.threads i t e in
    let f = total-here past w.threads i t e in ground arith

begin-Inv :
    (v readers : ℕ)
    → Inv v (record {
      shared = record { data_value = 0; ready = false };
      threads = writing v ∷ replicate readers polling;
    })
begin-Inv v readers =
    let a = total-replicate (strays v) readers polling refl in
    let b = total-replicate past readers polling refl in
    record { right = ground arith; stored = λ p. absurd (omega arith) }

-- Over every schedule, a reader that returns from `read` returns the published value.
pub read_published :
    (v readers : ℕ) (schedule : List ℕ) (i x : ℕ)
    → get_elem? (run_publish v readers schedule).threads i ≡ some (returned x)
    → x ≡ v
unfolding run_publish
read_published v readers schedule i x e =
    let inv = run-keeps publish_act (Inv v) (publish_act-Inv v) schedule _ (begin-Inv v readers) in
    let h = total-here (strays v) (run_publish v readers schedule).threads i (returned x) e in
    ground arith
