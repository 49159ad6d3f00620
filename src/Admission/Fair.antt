-- ===== src/Admission/Fair.antt =====
-- The budget of crates/rowd-core/src/resources.rs under any order of its threads.
use rowd.Base.{ℕ, ◌+◌, ◌≤◌, ◌<◌, false, List, [], ◌∷◌, ◌++◌, All, All-append, ◌≡◌, ◌≢◌, refl, arith}
use rowd.Admission.{
  Budget, Waiting, Hall, Step, Reach, waits, weight_of, take_ticket, enter, release, arrives,
  goes_in, drops, begins, continues,
}

unfoldable pub total : List ℕ → ℕ
total [] = 0
total (h ∷ hs) = h + total hs

total-remove : (xs ys : List ℕ) (h : ℕ) → total (xs ++ (h ∷ ys)) ≡ h + total (xs ++ ys)
unfolding total
total-remove [] ys h = refl
total-remove (x ∷ xs) ys h = omega (arith, total-remove xs ys h)

-- The tickets from `n` up to `m`, in this order.
abbrev Queue : ℕ → ℕ → List Waiting → Type 0
Queue n m [] = n ≡ m
Queue n m (w ∷ ws) = (w.ticket ≡ n) × Queue (n + 1) m ws

Queue-arrive :
    (n m x : ℕ) (ws : List Waiting)
    → Queue n m ws
    → Queue n (m + 1) (ws ++ record { ticket = m; weight = x } ∷ [])
Queue-arrive n m x [] q = (omega arith, omega arith)
Queue-arrive n m x (w ∷ ws) q = (q.0, Queue-arrive (n + 1) m x ws q.1)

Queue-later :
    (n m k : ℕ) (xs ys : List Waiting) (w : Waiting)
    → k < n
    → Queue n m (xs ++ (w ∷ ys))
    → w.ticket ≢ k
Queue-later n m k [] ys w l q = omega (arith, q.0)
Queue-later n m k (x ∷ xs) ys w l q = Queue-later (n + 1) m k xs ys w (omega arith) q.1

-- Only the first has the ticket that is served.
Queue-first :
    (n m : ℕ) (xs ys : List Waiting) (w : Waiting)
    → Queue n m (xs ++ (w ∷ ys))
    → w.ticket ≡ n
    → xs ≡ []
Queue-first n m [] ys w q e = refl
Queue-first n m (x ∷ xs) ys w q e = absurd (Queue-later (n + 1) m n xs ys w (omega arith) q.1 e)

record Inv (limit : ℕ) (s : Hall) : Type 0 where
  capacity : s.budget.limit ≡ limit
  in_use : s.budget.active ≡ total s.held
  fits : s.budget.active ≤ limit
  queue : Queue s.budget.serving s.budget.issued s.waiting
  small : All (λ w. w.weight ≤ limit) s.waiting

module _ (limit : ℕ) (some_room : 1 ≤ limit) where
  Step-Inv : {s t : Hall} → Step s t → Inv limit s → Inv limit t
  unfolding take_ticket weight_of enter release waits total
  Step-Inv (arrives {b} {ws} size) i = record {
    capacity = i.capacity;
    in_use = i.in_use;
    fits = i.fits;
    queue = Queue-arrive _ _ _ ws i.queue;
    small = All-append (λ w. w.weight ≤ limit) ws _ i.small (ground (arith, i.capacity), tt);
  }
  Step-Inv (goes_in {b} [] ys w go) i = record {
    capacity = i.capacity;
    in_use = omega (arith, i.in_use);
    fits = ground (arith, go, i.capacity);
    queue = i.queue.1;
    small = i.small.1;
  }
  Step-Inv (goes_in {b} (x ∷ xs) ys w go) i =
      let turn : w.ticket ≡ b.serving = ground (arith, go) in
      let first : x ∷ xs ≡ [] = Queue-first b.serving b.issued (x ∷ xs) ys w i.queue turn in
      absurd (cc first)
  Step-Inv (drops xs ys h) i = record {
    capacity = i.capacity;
    in_use = omega (arith, i.in_use, total-remove xs ys h);
    fits = omega (arith, i.fits);
    queue = i.queue;
    small = i.small;
  }

  Reach-Inv : {s : Hall} → Reach limit s → Inv limit s
  unfolding total
  Reach-Inv begins = record {
    capacity = refl;
    in_use = refl;
    fits = omega arith;
    queue = refl;
    small = tt;
  }
  Reach-Inv (continues r step) = Step-Inv step (Reach-Inv r)

-- Whatever threads arrive, go in and drop their permits, in any order: the permits held add up to the
-- count of the budget, which never exceeds the limit, when that is at least one.
pub Reach-within_limit :
    (limit : ℕ) (s : Hall)
    → 1 ≤ limit
    → Reach limit s
    → (s.budget.active ≡ total s.held) × (total s.held ≤ limit)
Reach-within_limit limit s room r =
    let i = Reach-Inv limit room r in (i.in_use, omega (arith, i.fits, i.in_use))

-- A thread that may go in is the first of those that wait, when the limit is at least one.
pub waits-first :
    (limit : ℕ) (b : Budget) (xs ys : List Waiting) (w : Waiting) (held : List ℕ)
    → 1 ≤ limit
    → Reach limit (record { budget = b; waiting = xs ++ (w ∷ ys); held = held })
    → waits w.ticket w.weight b ≡ false
    → xs ≡ []
unfolding waits
waits-first limit b xs ys w held room r go =
    Queue-first b.serving b.issued xs ys w (Reach-Inv limit room r).queue (ground (arith, go))

-- Where nobody holds a permit, the first of those that wait may go in, when the limit is at least
-- one.
pub waits-progress :
    (limit : ℕ) (b : Budget) (w : Waiting) (ws : List Waiting)
    → 1 ≤ limit
    → Reach limit (record { budget = b; waiting = w ∷ ws; held = [] })
    → waits w.ticket w.weight b ≡ false
unfolding waits total
waits-progress limit b w ws room r =
    let i = Reach-Inv limit room r in ground (arith, i.capacity, i.in_use, i.queue.0, i.small.0)
