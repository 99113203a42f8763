-- ===== src/NextId.antt =====
-- src/NextId.hpp and src/NextId.cpp: the pool that numbers the cells of a room. A `uint32_t` wraps at
-- 2 ^ 32; the head of a list is the top of the stack.
pub mod Partition
use the_game_server.Base.{ℕ, ◌+◌, ◌%◌, ◌^◌, List, [], ◌∷◌}

pub record NextId : Type 0 where
  pub unused_ids : List ℕ
  pub next_id : ℕ

-- A pool as it is constructed.
abbrev pub fresh : NextId
fresh = record { unused_ids = []; next_id = 1 }

unfoldable pub push : NextId → ℕ → NextId
push n id = record n { unused_ids = id ∷ n.unused_ids }

unfoldable pub pop_from : List ℕ → ℕ → ℕ × NextId
pop_from (id ∷ rest) next = (id, record { unused_ids = rest; next_id = next })
pop_from [] next = (next, record { unused_ids = []; next_id = (next + 1) % 2 ^ 32 })

unfoldable pub pop : NextId → ℕ × NextId
unfolding pop_from
pop n = pop_from n.unused_ids n.next_id
