-- ===== src/Pipe/Queue.antt =====
-- What a pipe promises: a bounded queue of bytes.
use operating_systems.Base.{ℕ, zero, suc, List, [], ◌∷◌, ◌++◌, length, ltb, if◌then◌else◌}
use operating_systems.Pipe.Ring.{pipe_size}

-- The queue after a write, and the bytes that found no room.
unfoldable pub push_all : List ℕ → List ℕ → List ℕ × List ℕ
push_all q [] = (q, [])
push_all q (b ∷ bs) =
    let rest = push_all (q ++ (b ∷ [])) bs in if ltb (length q) pipe_size then rest else (q, b ∷ bs)

-- At most `n` bytes from the front.
unfoldable pub pop_all : ℕ → List ℕ → List ℕ × List ℕ
pop_all zero q = ([], q)
pop_all (suc n) [] = ([], [])
pop_all (suc n) (b ∷ q) = let (bs, q') = pop_all n q in (b ∷ bs, q')
