-- ===== src/BufferPool/Discipline.antt =====
-- What the pool promises to callers that give back only what they took.
use mathlib.Core.List.{
  Mem, Perm, Nodup, Nodup-cons, Nodup-nil, perm_middle, append_assoc, append-nil, mem-cons,
  not-mem-nil,
}
use mathlib.Core.Logic.Or
use native.Mathlib.Bridge.{le_prop}
use mathlib.Core.List.Perm
use vdi_cpp_wrapper.Prelude.{
  ℕ, zero, suc, ◌+◌, ◌≤◌, ◌≡◌, ◌∙◌, subst, List, [], ◌∷◌, ◌++◌, none, some, arith,
}
use vdi_cpp_wrapper.BufferPool.{BufferPool, fill, new, acquire, pop_front, release}

-- The indices i, i + 1, … of `n` buffers.
abbrev pub indices : ℕ → ℕ → List ℕ
indices i zero = []
indices i (suc n) = i ∷ indices (i + 1) n

-- A pool together with the buffers that callers hold.
pub record Usage : Type 0 where
  pub pool : BufferPool
  pub held : List ℕ

abbrev pub all_buffers : Usage → List ℕ
all_buffers u = u.pool.free_buffers ++ u.held

-- A caller takes a buffer, finds none, or gives back one that is held.
pub data Step (u v : Usage) : Type 0 where
  took : (b : ℕ) → acquire u.pool ≡ (some b, v.pool) → v.held ≡ b ∷ u.held → Step u v
  refused : acquire u.pool ≡ (none, v.pool) → v.held ≡ u.held → Step u v
  gave :
      (b : ℕ) (xs ys : List ℕ)
      → u.held ≡ xs ++ (b ∷ ys)
      → v.pool ≡ release u.pool b
      → v.held ≡ xs ++ ys
      → Step u v

pub data Steps (u : Usage) : Usage → Type 0 where
  here : Steps u u
  next : {v w : Usage} → Steps u v → Step v w → Steps u w

free_buffers-fill :
    (n i size : ℕ) (p : BufferPool) → (fill n i size p).free_buffers ≡ p.free_buffers ++ indices i n
unfolding fill
free_buffers-fill zero i size p = rw append-nil
free_buffers-fill (suc n) i size p =
    free_buffers-fill n (i + 1) size _ ∙ append_assoc p.free_buffers (i ∷ []) (indices (i + 1) n)

pub free_buffers-new : (size count : ℕ) → (new size count).free_buffers ≡ indices 0 count
unfolding new
free_buffers-new size count =
    free_buffers-fill count 0 size (record { buffers = []; free_buffers = [] })

took-perm :
    (p q : BufferPool) (fs : List ℕ) (b : ℕ)
    → pop_front p fs ≡ (some b, q)
    → fs ≡ b ∷ q.free_buffers
unfolding pop_front
took-perm p q [] b e = cc
took-perm p q (f ∷ fs) b e = ground arith

refused_lem : (p q : BufferPool) (fs : List ℕ) → pop_front p fs ≡ (none, q) → (fs ≡ []) × (q ≡ p)
unfolding pop_front
refused_lem p q [] e = ground arith
refused_lem p q (f ∷ fs) e = cc

Step-perm : {u v : Usage} → Step u v → Perm (all_buffers v) (all_buffers u)
unfolding acquire release
Step-perm {u} {v} (took b e h) =
    rw (h, took-perm u.pool v.pool u.pool.free_buffers b e) (perm_middle v.pool.free_buffers u.held)
Step-perm {u} {v} (refused e h) =
    rw (h, (refused_lem u.pool v.pool u.pool.free_buffers e).1) (Perm.refl (all_buffers u))
Step-perm {u} {v} (gave b xs ys h e k) =
    rw (h, k, e, release)
      (rw (append_assoc u.pool.free_buffers (b ∷ []) (xs ++ ys))
        (Perm.append_left u.pool.free_buffers (Perm.symm (perm_middle xs ys))))

Steps-perm : {u v : Usage} → Steps u v → Perm (all_buffers v) (all_buffers u)
Steps-perm {u} here = Perm.refl (all_buffers u)
Steps-perm (next r s) = Perm.trans (Step-perm s) (Steps-perm r)

indices_below : (i n : ℕ) {b : ℕ} → Mem b (indices i n) → i ≤ b
indices_below i zero m = absurd (not-mem-nil m)
indices_below i (suc n) m =
    Or.elim le_prop (mem-cons.0 m) (λ e. rw e (omega arith))
      (λ r. omega (arith, indices_below (i + 1) n r))

indices-Nodup : (i n : ℕ) → Nodup (indices i n)
indices-Nodup i zero = Nodup-nil
indices-Nodup i (suc n) =
    Nodup-cons.1 ((λ m. absurd (omega (arith, indices_below (i + 1) n m))), indices-Nodup (i + 1) n)

-- A new pool, of which nothing is held.
abbrev pub fresh : ℕ → ℕ → Usage
fresh size count = record { pool = new size count; held = [] }

-- However callers take buffers and give held ones back, the free buffers and the held ones are
-- together exactly the `count` buffers of the constructor, and no buffer is listed twice: none is
-- lost, and none is handed to two callers at once.
pub Steps-fresh :
    (size count : ℕ) {v : Usage}
    → Steps (fresh size count) v
    → Perm (all_buffers v) (indices 0 count) × Nodup (all_buffers v)
Steps-fresh size count {v} r = (whole, Perm.nodup (Perm.symm whole) (indices-Nodup 0 count))
  where
    whole : Perm (all_buffers v) (indices 0 count)
    whole =
        subst (λ l. Perm (all_buffers v) l) (append-nil _ ∙ free_buffers-new size count)
          (Steps-perm r)
