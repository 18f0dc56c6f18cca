-- ===== src/Checker/Ring/Bounds.antt =====
-- The representation invariant of the ring buffer of checker/pkg/monitor.go.
use undermoon_operator.Prelude.{
  ℕ, ◌+◌, ◌%◌, ◌<◌, ◌≡◌, some, arith, Bytes, length, length-set, set, [], length-replicate, [],
}
use undermoon_operator.Checker.Ring.{RingBuf, new_ring_buf, len, evict, add}

-- The buffer has `cap` cells, and both indices are inside it.
pub record IsValid (r : RingBuf) : Type 0 where
  pub storage : length r.buf ≡ r.cap
  pub start_in : r.start < r.cap
  pub finish_in : r.finish < r.cap

pub new_ring_buf-IsValid : (cap : ℕ) → 0 < cap → IsValid (new_ring_buf cap)
unfolding new_ring_buf
new_ring_buf-IsValid cap h = ground (arith, length-replicate {A = Bytes} cap [])

pub evict-IsValid : {r : RingBuf} → IsValid r → IsValid (evict r)
unfolding evict
evict-IsValid v = ground arith

-- At most `cap - 1` items are kept.
pub len-lt-cap : (r : RingBuf) → IsValid r → len r < r.cap
unfolding len
len-lt-cap r v = ground arith

-- `add` neither reads nor writes out of range, and keeps the invariant.
pub add-IsValid :
    (r : RingBuf) (item : Bytes) → IsValid r → (r' : RingBuf) × (add r item ≡ some r') × IsValid r'
unfolding add
add-IsValid r item v =
    let e = evict r in
    (
      record e { buf = set e.buf e.finish item; finish = (e.finish + 1) % e.cap },
      ground (arith, evict-IsValid v),
      ground (arith, evict-IsValid v, length-set e.buf e.finish item),
    )
