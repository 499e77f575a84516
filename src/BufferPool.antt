-- ===== src/BufferPool.antt =====
-- include/buffer_pool.h and src/buffer_pool.cpp: the queue of free buffers. A buffer is named by
-- its index in `buffers_`: the inner vectors keep their storage when the outer vector grows, so
-- `data()` names the same buffer for good. Each method runs under the mutex from its first line
-- to its last, so it is one step.
pub mod Discipline
use vdi_cpp_wrapper.Prelude.{ℕ, zero, suc, ◌+◌, List, [], ◌∷◌, ◌++◌, Option, none, some}

pub record BufferPool : Type 0 where
  pub buffers : List ℕ
  pub free_buffers : List ℕ

-- The constructor's loop: `n` rounds are left, and `i` is the loop's counter.
fill : ℕ → ℕ → ℕ → BufferPool → BufferPool
fill zero i buffer_size p = p
fill (suc n) i buffer_size p =
    fill n (i + 1) buffer_size
      (record { buffers = p.buffers ++ buffer_size ∷ []; free_buffers = p.free_buffers ++ i ∷ [] })

-- BufferPool::BufferPool(buffer_size, count)
unfoldable pub new : ℕ → ℕ → BufferPool
unfolding fill
new buffer_size count = fill count 0 buffer_size (record { buffers = []; free_buffers = [] })

-- The end of `acquire` on the queue: `front` and `pop`, or the null pointer.
pop_front : BufferPool → List ℕ → Option ℕ × BufferPool
pop_front p [] = (none, p)
pop_front p (ptr ∷ rest) = (some ptr, record p { free_buffers = rest })

unfoldable pub acquire : BufferPool → Option ℕ × BufferPool
unfolding pop_front
acquire p = pop_front p p.free_buffers

unfoldable pub release : BufferPool → ℕ → BufferPool
release p buffer = record p { free_buffers = p.free_buffers ++ buffer ∷ [] }
