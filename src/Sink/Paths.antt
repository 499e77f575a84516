-- ===== src/Sink/Paths.antt =====
-- The three paths of `FileSink::write`, and the emptying of the buffer.
use mathlib.Core.List.{append_assoc, append-nil}
use vdi_cpp_wrapper.Prelude.{
  ℕ, ◌+◌, ◌≤◌, ◌<◌, ◌%◌, ◌≡◌, refl, sym, ap, ◌∙◌, inl, inr, List, ◌++◌, some, Bool, true, arith,
  take, drop, length, u32_mod, add64, length-take, length-append, take-append_le,
  take-append_length, take-length, ltb, Bool-cases, take_all,
}
use vdi_cpp_wrapper.World.{Trace, Platform}
use vdi_cpp_wrapper.Sink.Files.{
  FileSink, write_buffer_size, memory, flush_buffer, copy_at, write_large, write_small,
  write_direct, write_direct,
}
use vdi_cpp_wrapper.Sink.Bytes.{file_bytes, accepted, IsValid, WritesAll, IsReady, Appends}

pub flush_buffer_lem :
    (P : Platform) (k : FileSink) (t : Trace)
    → WritesAll P
    → IsValid k
    → (file_bytes (flush_buffer P k t).1 ≡ accepted k t)
      × ((flush_buffer P k t).0 ≡ record k { buffered_bytes = 0 })
unfolding flush_buffer file_bytes
flush_buffer_lem P k t w v = ground (
  arith,
  w t (take (k.buffered_bytes % u32_mod) (memory k.write_buffer)),
  take-length (take (k.buffered_bytes % u32_mod) (memory k.write_buffer)),
  append-nil (file_bytes t),
  full,
)
  where
    full : k.buffered_bytes % u32_mod ≡ k.buffered_bytes
    full = omega (arith, v.within)

-- Copying behind the `n` bytes in use makes the first n + size bytes those and the new ones.
pub take-copy_at :
    (m : List ℕ) (n size : ℕ) (bytes : List ℕ)
    → n ≤ length m
    → size ≤ length bytes
    → take (n + size) (memory (copy_at (some m) n bytes size)) ≡ take n m ++ take size bytes
unfolding copy_at
take-copy_at m n size bytes h k =
    take-append_length n size (take n m) (take size bytes ++ drop (n + size) m) (length-take n m h)
    ∙ ap (λ l. take n m ++ l)
        (take-append_le size (take size bytes) (drop (n + size) m)
            (omega (arith, length-take size bytes k))
          ∙ take_all size (take size bytes) (length-take size bytes k))

length-copy_at :
    (m : List ℕ) (n size : ℕ) (bytes : List ℕ)
    → n ≤ length m
    → size ≤ length bytes
    → n + size ≤ length (memory (copy_at (some m) n bytes size))
unfolding copy_at
length-copy_at m n size bytes h k = omega (
  arith,
  length-append (take n m) (take size bytes ++ drop (n + size) m),
  length-append (take size bytes) (drop (n + size) m),
  length-take n m h,
  length-take size bytes k,
)

-- What one copy into the buffer leaves, when the chunk fits.
copied :
    (k : FileSink) (t : Trace) (bytes : List ℕ) (size : ℕ) (m : List ℕ)
    → k.write_buffer ≡ some m
    → IsValid k
    → IsReady k
    → size ≤ length bytes
    → k.buffered_bytes + size ≤ write_buffer_size
    → Appends k t bytes size (
      true,
      record k {
        write_buffer = copy_at k.write_buffer k.buffered_bytes bytes size;
        buffered_bytes = add64 k.buffered_bytes size;
      },
      t,
    )
copied k t bytes size m e v r h room = (
  refl,
  rw (sum, e)
      (ap (λ l. file_bytes t ++ l) (take-copy_at m k.buffered_bytes size bytes n h)
        ∙ sym (append_assoc (file_bytes t) (take k.buffered_bytes m) (take size bytes))),
  record {
    within = rw sum room;
    filled = rw (sum, e) (length-copy_at m k.buffered_bytes size bytes n h);
  },
  record { opened = r.opened; allocated = rw e (unfold copy_at in refl) },
)
  where
    sum : add64 k.buffered_bytes size ≡ k.buffered_bytes + size
    sum = omega arith

    n : k.buffered_bytes ≤ length m
    n = rw e at v.filled

-- The same after the buffer was emptied.
Appends-emptied :
    (k k1 : FileSink) (t t1 : Trace) (bytes : List ℕ) (size : ℕ) (r : Bool × FileSink × Trace)
    → accepted k1 t1 ≡ accepted k t
    → Appends k1 t1 bytes size r
    → Appends k t bytes size r
Appends-emptied k k1 t t1 bytes size r e a = (a.0, a.1 ∙ ap (λ l. l ++ take size bytes) e, a.2, a.3)

accepted_empty :
    (k : FileSink) (t : Trace) → accepted (record k { buffered_bytes = 0 }) t ≡ file_bytes t
accepted_empty k t = append-nil (file_bytes t)

pub write_small-Appends :
    (P : Platform) (k : FileSink) (t : Trace) (bytes : List ℕ) (size : ℕ) (m : List ℕ)
    → WritesAll P
    → k.write_buffer ≡ some m
    → IsValid k
    → IsReady k
    → size ≤ length bytes
    → size < write_buffer_size
    → Appends k t bytes size (write_small P k t bytes size)
unfolding write_small
write_small-Appends P k t bytes size m w e v r h small =
    elim (Bool-cases (ltb write_buffer_size (add64 k.buffered_bytes size))) [
      | inl over ↦
          rw (over, write_small)
            (rw (flush_buffer_lem P k t w v).1 (
              Appends-emptied k k0 t t1 bytes size _
                (accepted_empty k t1 ∙ (flush_buffer_lem P k t w v).0)
                (copied k0 t1 bytes size m e v0 r0 h (omega arith))))
      | inr fits ↦ rw (fits, write_small) (copied k t bytes size m e v r h (ground arith))
    ]
  where
    t1 : Trace
    t1 = (flush_buffer P k t).1

    k0 : FileSink
    k0 = record k { buffered_bytes = 0 }

    v0 : IsValid k0
    v0 = record { within = omega arith; filled = omega arith }

    r0 : IsReady k0
    r0 = record { opened = r.opened; allocated = r.allocated }

write_direct-Appends :
    (P : Platform) (k : FileSink) (t : Trace) (bytes : List ℕ) (size : ℕ)
    → WritesAll P
    → k.buffered_bytes ≡ 0
    → IsReady k
    → size ≤ length bytes
    → size < u32_mod
    → Appends k t bytes size (write_direct P k t bytes size)
unfolding write_direct file_bytes
write_direct-Appends P k t bytes size w e r h small =
    rw (word, w t (take size bytes), length-take size bytes h)
      (ground (
        arith,
        take_all size (take size bytes) (length-take size bytes h),
        append-nil (file_bytes t),
        append-nil (file_bytes t ++ take size bytes),
      ))
  where
    word : size % u32_mod ≡ size
    word = omega arith

-- The sink whose buffer has just been emptied.
abbrev emptied : FileSink → FileSink
emptied k = record k { buffered_bytes = 0 }

pub write_large-Appends :
    (P : Platform) (k : FileSink) (t : Trace) (bytes : List ℕ) (size : ℕ)
    → WritesAll P
    → IsValid k
    → IsReady k
    → size ≤ length bytes
    → size < u32_mod
    → Appends k t bytes size (write_large P k t bytes size)
unfolding write_large
write_large-Appends P k t bytes size w v r h small = elim (Bool-cases (ltb 0 k.buffered_bytes)) [
  | inl waits ↦
      rw (waits, write_large)
        (rw (flush_buffer_lem P k t w v).1 (
          Appends-emptied k (emptied k) t t1 bytes size _
            (accepted_empty k t1 ∙ (flush_buffer_lem P k t w v).0)
            (write_direct-Appends P (emptied k) t1 bytes size w refl
              (record { opened = r.opened; allocated = r.allocated }) h small)))
  | inr empty ↦
      rw (empty, write_large) (write_direct-Appends P k t bytes size w (ground arith) r h small)
]
  where
    t1 : Trace
    t1 = (flush_buffer P k t).1
