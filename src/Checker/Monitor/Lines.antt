-- ===== src/Checker/Monitor/Lines.antt =====
-- checker/pkg/monitor.go: what a client remembers of a stream.
use mathlib.Core.Option
use undermoon_operator.Prelude.{
  ℕ, ◌-◌, ◌<◌, List, [], ◌∷◌, Bytes, true, Option, none, some, ◌≡◌, length, arith,
}
use undermoon_operator.Checker.Ring.{RingBuf, add, content, new_ring_buf}
use undermoon_operator.Checker.Ring.Refine.{last, add_all, add_all-new}
use undermoon_operator.Checker.Monitor.{
  new_monitor_client, MonitorEnd, reading, read_failed, after_add, Read, Connection, read_lines,
  read_response, run_monitor,
}

-- The lines read before the first error.
abbrev pub lines_of : List Read → List Bytes
lines_of [] = []
lines_of ((cancelled, none) ∷ reads) = []
lines_of ((cancelled, some line) ∷ reads) = line ∷ lines_of reads

-- What the stream ends with: an error, or nothing yet.
abbrev pub end_of : List Read → MonitorEnd
end_of [] = reading
end_of ((cancelled, none) ∷ reads) = read_failed
end_of ((cancelled, some line) ∷ reads) = end_of reads

read_lines-line :
    (reads : List Read) (b c : RingBuf) (o : Option RingBuf)
    → ((d : RingBuf) → add_all d (lines_of reads) ≡ some c → read_lines reads d ≡ (end_of reads, c))
    → Option.bind o (λ d. add_all d (lines_of reads)) ≡ some c
    → after_add b (λ d. read_lines reads d) o ≡ (end_of reads, c)
unfolding Option.bind
read_lines-line reads b c none h e = ground arith
read_lines-line reads b c (some d) h e = h d e

read_lines-add_all :
    (reads : List Read) (b c : RingBuf)
    → add_all b (lines_of reads) ≡ some c
    → read_lines reads b ≡ (end_of reads, c)
unfolding read_lines
read_lines-add_all [] b c h = ground arith
read_lines-add_all ((cancelled, none) ∷ reads) b c h = ground arith
read_lines-add_all ((cancelled, some line) ∷ reads) b c h =
    read_lines-line reads b c (add b line) (λ d. read_lines-add_all reads d c) h

-- A new client with room for a line, whose connection is made and answered with five bytes, keeps of
-- the stream, up to its first error, the last `buf_cap - 1` lines, whether or not its context is
-- cancelled meanwhile, and goes on until there is an error.
pub run_monitor-content :
    (addr : Bytes) (buf_cap : ℕ) (conn : Connection) (response : Bytes)
    → 1 < buf_cap
    → (conn.dialed ≡ true) × (conn.wrote ≡ true) × (conn.flushed ≡ true)
    → conn.response ≡ some response
    → length response ≡ 5
    → ((run_monitor conn (new_monitor_client addr buf_cap).buf).0 ≡ end_of conn.reads)
      × (content (run_monitor conn (new_monitor_client addr buf_cap).buf).1
          ≡ last (buf_cap - 1) (lines_of conn.reads))
unfolding run_monitor read_response new_monitor_client
run_monitor-content addr buf_cap conn response h (p, q, r) e l =
    let (b, all, v, kept) = add_all-new buf_cap (lines_of conn.reads) h in
    let same = read_lines-add_all conn.reads (new_ring_buf buf_cap) b all in
    ground (arith, same, kept)
