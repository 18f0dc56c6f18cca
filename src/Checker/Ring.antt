-- ===== src/Checker/Ring.antt =====
-- checker/pkg/monitor.go: the ring buffer that keeps the last lines of a MONITOR stream.
pub mod Bounds
pub mod Window
pub mod Content
pub mod Refine
use undermoon_operator.Prelude.{
  ℕ, ◌+◌, ◌-◌, ◌%◌, Bool, true, false, ◌&&◌, Option, none, some, List, [], ◌++◌, Bytes, leb, ltb,
  ◌==◌, if◌then◌else◌, length, set, take, drop, replicate,
}

-- `ringBuf`; Go's `int` fields never get negative.
pub record RingBuf : Type 0 where
  pub buf : List Bytes
  pub cap : ℕ
  pub start : ℕ
  pub finish : ℕ

pub new_ring_buf : ℕ → RingBuf
new_ring_buf cap = record { buf = replicate cap []; cap = cap; start = 0; finish = 0 }

pub len : RingBuf → ℕ
len r = if leb r.start r.finish then r.finish - r.start else r.finish + r.cap - r.start

-- The lines of `add` that drop the oldest item of a full buffer.
pub evict : RingBuf → RingBuf
unfolding len
evict r = if len r + 1 == r.cap then record r { start = (r.start + 1) % r.cap } else r

-- The two lines of `add` that write the item; `none` is the panic of a write out of range.
pub write_item : RingBuf → Bytes → Option RingBuf
write_item r item =
    if ltb r.finish (length r.buf)
    then some (record r { buf = set r.buf r.finish item; finish = (r.finish + 1) % r.cap })
    else none

pub add : RingBuf → Bytes → Option RingBuf
unfolding evict write_item
add r item = write_item (evict r) item

-- Go's `copy(dst, src)` and `copy(dst[k:], src)`, as the new value of `dst`.
abbrev pub copy : List Bytes → List Bytes → List Bytes
copy dst src = take (length dst) src ++ drop (length src) dst

abbrev pub copy_at : ℕ → List Bytes → List Bytes → List Bytes
copy_at k dst src = take k dst ++ copy (drop k dst) src

-- `buf[lo:hi]`
abbrev pub slice : List Bytes → ℕ → ℕ → List Bytes
slice xs lo hi = take (hi - lo) (drop lo xs)

-- `data()`; its local is a fresh slice `d`.
pub content : RingBuf → List Bytes
unfolding len
content r =
    let d = replicate (len r) [] in
    if leb r.start r.finish
    then copy d (slice r.buf r.start r.finish)
    else (let d1 = copy d (slice r.buf r.start r.cap) in
        if r.finish == 0 then d1 else copy_at (r.cap - r.start) d1 (slice r.buf 0 r.finish))
