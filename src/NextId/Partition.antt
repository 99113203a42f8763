-- ===== src/NextId/Partition.antt =====
-- The numbers handed out by src/NextId.cpp: those in use and those waiting for reuse part the range
-- from 1 to the next number.
use the_game_server.Base.{
  ℕ, ◌+◌, ◌^◌, ◌≤◌, ◌<◌, ◌≡◌, ◌&&◌, List, [], ◌∷◌, arith, ltb, leb, if◌then◌else◌, length, contains,
  erase, count, count-erase, contains-count,
}
use the_game_server.NextId.{NextId, fresh, push, pop, pop_from}

-- A pool and the numbers that its clients hold.
pub record Holding : Type 0 where
  pub used : List ℕ
  pub pool : NextId

-- A client takes a number, or gives one back.
pub data Call : Type 0 where
  takes : Call
  gives : ℕ → Call

-- A client gives back only a number that it holds.
pub step : Holding → Call → Holding
step s takes = let (id, pool) = pop s.pool in record { used = id ∷ s.used; pool = pool }
step s (gives id) =
    if contains id s.used then record { used = erase id s.used; pool = push s.pool id } else s

pub run : Holding → List Call → Holding
run s [] = s
run s (c ∷ cs) = run (step s c) cs

-- Every number from 1 up to the next one stands once, in use or waiting; no other number stands.
abbrev pub IsPartition : Holding → Type 0
IsPartition s =
    (a : ℕ)
    → count a s.used + count a s.pool.unused_ids
      ≡ (if leb 1 a && ltb a s.pool.next_id then 1 else 0)

-- The counter starts above zero and has room for as many calls.
abbrev HasRoom : ℕ → Holding → Type 0
HasRoom n s = (1 ≤ s.pool.next_id) × (s.pool.next_id + n < 2 ^ 32)

take_IsPartition :
    (used unused : List ℕ) (next a : ℕ)
    → 1 ≤ next
    → next + 1 < 2 ^ 32
    → count a used + count a unused ≡ (if leb 1 a && ltb a next then 1 else 0)
    → let (id, pool) = pop_from unused next in
      count a (id ∷ used) + count a pool.unused_ids
      ≡ (if leb 1 a && ltb a pool.next_id then 1 else 0)
unfolding pop_from count
take_IsPartition used [] next a pos room h = ground arith
take_IsPartition used (id ∷ rest) next a pos room h = ground arith

step-IsPartition : (s : Holding) (c : Call) → HasRoom 1 s → IsPartition s → IsPartition (step s c)
unfolding step pop push count
step-IsPartition s takes r h =
    λ a. take_IsPartition s.used s.pool.unused_ids s.pool.next_id a r.0 r.1 (h a)
step-IsPartition s (gives id) r h =
    λ a. ground (arith, h a, count-erase a id s.used, contains-count id s.used, h id)

step-HasRoom : (s : Holding) (c : Call) (n : ℕ) → HasRoom (n + 1) s → HasRoom n (step s c)
unfolding step pop push pop_from
step-HasRoom s takes n r = ground arith
step-HasRoom s (gives id) n r = ground arith

run-IsPartition :
    (s : Holding) (cs : List Call) → HasRoom (length cs) s → IsPartition s → IsPartition (run s cs)
unfolding run
run-IsPartition s [] r h = h
run-IsPartition s (c ∷ cs) r h =
    run-IsPartition (step s c) cs (step-HasRoom s c (length cs) (omega arith))
      (step-IsPartition s c (omega arith) h)

abbrev pub start : Holding
start = record { used = []; pool = fresh }

start-IsPartition : IsPartition start
unfolding count
start-IsPartition a = ground arith

-- After any history of fewer than 2 ^ 32 - 1 calls on a new pool, in which numbers are given back
-- only while they are held, each number from 1 up to the next one is either held once or waits once
-- for reuse, and no other number is held or waits.
pub run-start-IsPartition : (cs : List Call) → length cs + 1 < 2 ^ 32 → IsPartition (run start cs)
run-start-IsPartition cs h = run-IsPartition start cs (omega arith) start-IsPartition

held_once :
    (used unused : List ℕ) (next : ℕ)
    → ((a : ℕ) → count a used + count a unused ≡ (if leb 1 a && ltb a next then 1 else 0))
    → count (pop_from unused next).0 used ≡ 0
unfolding pop_from count
held_once used [] next h = ground (arith, h next)
held_once used (id ∷ rest) next h = ground (arith, h id)

-- On a pool with such a history `pop` never returns a number that is held.
pub pop_unheld :
    (cs : List Call)
    → length cs + 2 < 2 ^ 32
    → let s = run start cs in count (pop s.pool).0 s.used ≡ 0
unfolding pop
pop_unheld cs h = held_once _ _ _ (run-start-IsPartition cs (omega arith))
