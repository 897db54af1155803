-- ===== src/Networking/Queue.antt =====
-- common/include/common/thread_safe_queue.hpp. Every operation holds the mutex of the queue, so it
-- is one atomic step; a `pop` that waits on the condition is `waits`.
use minimal_sip_proxy_sip_cl.Base.{
  ℕ, zero, suc, ◌≡◌, refl, ap, Bool, true, false, Option, none, some, List, [], ◌∷◌, ◌++◌, length,
}
use mathlib.Core.Option

pub record Queue (A : Type 0) : Type 0 where
  pub items : List A
  pub stopped : Bool

-- What a call of `pop` comes to.
pub data Popped (A : Type 0) : Type 0 where
  waits : Popped A
  closed : Popped A
  got : A → Queue A → Popped A

module _ {A : Type 0} where
  abbrev pub new_queue : Queue A
  new_queue = record { items = []; stopped = false }

  abbrev pub push : Queue A → A → Queue A
  push q x = record q { items = q.items ++ x ∷ [] }

  abbrev pub stop : Queue A → Queue A
  stop q = record q { stopped = true }

  abbrev pub is_empty : Queue A → Bool
  is_empty q = elim q.items [ [] ↦ true | x ∷ xs ↦ false ]

  pop_items : List A → Bool → Popped A
  pop_items [] false = waits
  pop_items [] true = closed
  pop_items (x ∷ xs) stopped = got x (record { items = xs; stopped = stopped })

  unfoldable pub pop : Queue A → Popped A
  unfolding pop_items
  pop q = pop_items q.items q.stopped

  -- `while (queue.pop(item))`: what one thread takes until the queue is closed. `none` is a loop
  -- that has not come to its end in so many rounds.
  unfoldable pub pop_all : ℕ → Queue A → Option (List A)
  pop_all zero q = none
  pop_all (suc n) q = elim (pop q) [
    | waits ↦ none
    | closed ↦ some []
    | got x rest ↦ let taken = pop_all n rest in Option.map (λ xs. x ∷ xs) taken
  ]

  drained :
      (xs : List A) → pop_all (suc (length xs)) (record { items = xs; stopped = true }) ≡ some xs
  unfolding pop_all pop
  drained [] = refl
  drained (x ∷ xs) = ap (Option.map (λ ys. x ∷ ys)) (drained xs)

  -- A thread that pops from a queue that is stopped, and that nobody else pops from, still gets
  -- every item, in order, and its loop ends after one more call than there are items.
  pub pop_all-stop : (q : Queue A) → pop_all (suc (length q.items)) (stop q) ≡ some q.items
  pop_all-stop q = drained q.items
