-- ===== src/Backpressure/Drop.antt =====
-- Load shedding by the drop queue of adv023_backpressure/main.go.
use mathlib.Core.List.{append_assoc}
use go_daily_learning.Prelude.{
  ℕ, ◌+◌, ◌-◌, ◌%◌, ◌≤◌, ◌<◌, ◌≡◌, sym, ◌∙◌, ap, ◌⊎◌, inl, inr, Bool, true, false, Option, none,
  some, List, [], ◌∷◌, ◌++◌, arith, length, length-append, ltb, Bool-cases, List-cases,
}
use go_daily_learning.Backpressure.{DropQueue, new_drop_queue, try_push, drop_pop}

-- The producer's `TryPush`, or one round of the consumer's `Drain`.
pub data Event : Type 0 where
  offers : ℕ → Event
  drains : Event

pub record Load : Type 0 where
  pub queue : DropQueue
  pub offered : ℕ  -- calls of TryPush so far
  pub accepted : List ℕ
  pub served : List ℕ

after_push : Load → ℕ → Option (DropQueue × Bool) → Load
after_push l v none = l
after_push l v (some (q, true)) = record l {
  queue = q;
  offered = l.offered + 1;
  accepted = l.accepted ++ v ∷ [];
}
after_push l v (some (q, false)) = record l { queue = q; offered = l.offered + 1 }

after_drain : Load → Option (ℕ × Bool × DropQueue) → Load
after_drain l none = l
after_drain l (some (v, true, q)) = record l { queue = q; served = l.served ++ v ∷ [] }
after_drain l (some (v, false, q)) = l

pub event : Load → Event → Load
unfolding after_push after_drain
event l (offers v) = after_push l v (try_push l.queue v)
event l drains = after_drain l (drop_pop l.queue)

pub events : Load → List Event → Load
events l [] = l
events l (e ∷ es) = events (event l e) es

abbrev pub start : ℕ → Load
start capacity = record { queue = new_drop_queue capacity; offered = 0; accepted = []; served = [] }

abbrev pub u64 : ℕ → ℕ
u64 n = n % 18446744073709551616

record IsBalanced (capacity : ℕ) (l : Load) : Type 0 where
  open_channel : l.queue.ch.closed ≡ false
  cap : l.queue.ch.cap ≡ capacity
  bounded : length l.queue.ch.buf ≤ capacity
  fits : length l.accepted ≤ l.offered
  counted : l.queue.dropped ≡ u64 (l.offered - length l.accepted)
  in_order : l.accepted ≡ l.served ++ l.queue.ch.buf

start-IsBalanced : (capacity : ℕ) → IsBalanced capacity (start capacity)
unfolding new_drop_queue
start-IsBalanced capacity = ground arith

try_push-cases :
    (q : DropQueue) (v : ℕ)
    → q.ch.closed ≡ false
    → (length q.ch.buf < q.ch.cap)
        × (try_push q v ≡ some (record q { ch = record (q.ch) { buf = q.ch.buf ++ v ∷ [] } }, true))
      ⊎ (q.ch.cap ≤ length q.ch.buf)
        × (try_push q v
            ≡ some (record q { dropped = (q.dropped + 1) % 18446744073709551616 }, false))
unfolding try_push
try_push-cases q v h = elim (Bool-cases (ltb (length q.ch.buf) q.ch.cap)) [
  | inl e ↦ inl (ground arith, ground arith)
  | inr e ↦ inr (ground arith, ground arith)
]

offers-IsBalanced : (c : ℕ) (l : Load) (v : ℕ) → IsBalanced c l → IsBalanced c (event l (offers v))
unfolding event after_push
offers-IsBalanced c l v b = elim (try_push-cases l.queue v b.open_channel) [
  | inl (room, e) ↦
      rw (e, after_push)
        (record {
          open_channel = b.open_channel;
          cap = b.cap;
          bounded = omega (arith, b.cap, length-append l.queue.ch.buf (v ∷ []));
          fits = omega (arith, b.fits, length-append l.accepted (v ∷ []));
          counted = ground (arith, b.counted, b.fits, length-append l.accepted (v ∷ []));
          in_order =
              ap (λ (xs : List ℕ). xs ++ v ∷ []) b.in_order
              ∙ append_assoc l.served l.queue.ch.buf (v ∷ []);
        })
  | inr (no_room, e) ↦
      rw (e, after_push)
        (record {
          open_channel = b.open_channel;
          cap = b.cap;
          bounded = b.bounded;
          fits = omega (arith, b.fits);
          counted = omega (arith, b.counted, b.fits);
          in_order = b.in_order;
        })
]

drop_pop-cases :
    (q : DropQueue)
    → q.ch.closed ≡ false
    → (drop_pop q ≡ none)
      ⊎ (v : ℕ) × (rest : List ℕ) × (q.ch.buf ≡ v ∷ rest)
        × (drop_pop q ≡ some (v, true, record q { ch = record (q.ch) { buf = rest } }))
unfolding drop_pop
drop_pop-cases q h = elim (List-cases q.ch.buf) [
  | inl e ↦ inl (ground arith)
  | inr (v, rest, e) ↦ inr (v, rest, e, ground arith)
]

drains-IsBalanced : (c : ℕ) (l : Load) → IsBalanced c l → IsBalanced c (event l drains)
unfolding event after_drain
drains-IsBalanced c l b = elim (drop_pop-cases l.queue b.open_channel) [
  | inl e ↦ rw (e, after_drain) b
  | inr (v, rest, q, e) ↦
      rw (e, after_drain)
        (record {
          open_channel = b.open_channel;
          cap = b.cap;
          bounded = omega (arith, b.bounded, ap length q);
          fits = b.fits;
          counted = b.counted;
          in_order = b.in_order ∙ ap (◌++◌ l.served) q ∙ sym (append_assoc l.served (v ∷ []) rest);
        })
]

events-IsBalanced :
    (c : ℕ) (l : Load) (es : List Event) → IsBalanced c l → IsBalanced c (events l es)
unfolding events
events-IsBalanced c l [] b = b
events-IsBalanced c l (offers v ∷ es) b =
    events-IsBalanced c (event l (offers v)) es (offers-IsBalanced c l v b)
events-IsBalanced c l (drains ∷ es) b =
    events-IsBalanced c (event l drains) es (drains-IsBalanced c l b)

-- Over every interleaving of offers and drains before `Close`: what was accepted is what was served
-- followed by the buffer, in order; the buffer never exceeds the capacity; and the counter is the
-- number of offers that were not accepted, up to the wrap-around of its 64 bits.
pub drop_balances :
    (capacity : ℕ) (es : List Event)
    → let l = events (start capacity) es in
      (l.accepted ≡ l.served ++ l.queue.ch.buf)
      × (length l.queue.ch.buf ≤ capacity)
      × (length l.accepted ≤ l.offered)
      × (l.queue.dropped ≡ u64 (l.offered - length l.accepted))
drop_balances capacity es =
    let b = events-IsBalanced capacity (start capacity) es (start-IsBalanced capacity) in
    (b.in_order, b.bounded, b.fits, b.counted)
