-- ===== src/Checker/Monitor.antt =====
-- checker/pkg/monitor.go: the clients that keep the last lines of the nodes' MONITOR streams.
pub mod Lines
use undermoon_operator.Prelude.{
  ℕ, List, [], ◌∷◌, Bytes, codes, Bool, true, false, Option, none, some, map, if◌then◌else◌, length,
  ◌==◌, not, ◌++◌,
}
use undermoon_operator.Checker.Ring.{RingBuf, new_ring_buf, add, content}

-- `monitorClient`
pub record MonitorClient : Type 0 where
  pub addr : Bytes
  pub buf : RingBuf

unfoldable pub new_monitor_client : Bytes → ℕ → MonitorClient
new_monitor_client addr buf_cap = record { addr = addr; buf = new_ring_buf buf_cap }

-- `newMonitorManager`
unfoldable pub new_monitor_manager : List Bytes → ℕ → List MonitorClient
unfolding new_monitor_client
new_monitor_manager addresses buf_cap = map (λ addr. new_monitor_client addr buf_cap) addresses

-- How `runMonitor` ends; `reading` is that it still waits for a line.
pub data MonitorEnd : Type 0 where
  reading panicked : MonitorEnd
  dial_failed write_failed flush_failed response_failed read_failed : MonitorEnd
  invalid_response : Bytes → MonitorEnd

-- A round of the read loop: whether `ctx.Done()` is closed, then a line, or an error.
abbrev pub Read : Type 0
Read = Bool × Option Bytes

-- What the network gives to one `runMonitor`.
pub record Connection : Type 0 where
  pub dialed : Bool
  pub wrote : Bool
  pub flushed : Bool
  pub response : Option Bytes
  pub reads : List Read

abbrev pub after_add :
    RingBuf → (RingBuf → MonitorEnd × RingBuf) → Option RingBuf → MonitorEnd × RingBuf
after_add b next none = (panicked, b)
after_add b next (some b2) = next b2

-- The read loop. The `break` of a closed `ctx.Done()` leaves the `select` and not the loop, so a line is
-- read in both cases.
unfoldable pub read_lines : List Read → RingBuf → MonitorEnd × RingBuf
read_lines [] b = (reading, b)
read_lines ((cancelled, none) ∷ reads) b = (read_failed, b)
read_lines ((cancelled, some line) ∷ reads) b = after_add b (λ b2. read_lines reads b2) (add b line)

-- After the response to the command.
unfoldable pub read_response : Option Bytes → List Read → RingBuf → MonitorEnd × RingBuf
unfolding read_lines
read_response none reads b = (response_failed, b)
read_response (some line) reads b =
    if not (length line == 5) then (invalid_response line, b) else read_lines reads b

unfoldable pub run_monitor : Connection → RingBuf → MonitorEnd × RingBuf
unfolding read_response
run_monitor conn b =
    if not conn.dialed
    then (dial_failed, b)
    else if not conn.wrote
    then (write_failed, b)
    else if not conn.flushed
    then (flush_failed, b)
    else read_response conn.response conn.reads b

-- `run` of a client, over the connections that it makes: `true` is `errExit`, `false` that it has not
-- come back from the last connection. A connection that is still being read blocks the client.
unfoldable pub run_client : List (Bool × Connection) → MonitorClient → Bool × MonitorClient
unfolding run_monitor
run_client [] c = (false, c)
run_client ((cancelled, conn) ∷ conns) c =
    let (end, b) = run_monitor conn c.buf in
    let next = run_client conns (record c { buf = b }) in
    if cancelled then (true, c) else elim end [
      | reading ↦ (false, record c { buf = b })
      | panicked ↦ (false, record c { buf = b })
      | _ ↦ next
    ]

unfoldable pub get_data : MonitorClient → List Bytes
get_data c = content c.buf

-- `strings.Join(data, "")`
unfoldable pub join : List Bytes → Bytes
join [] = []
join (line ∷ lines) = line ++ join lines

-- `dump`, with `ioutil.WriteFile` outside: whether all files are written.
module _ {E : Type 0} (write_file : Bytes → Bytes → E → Bool × E) where
  unfoldable pub dump : List MonitorClient → E → Bool × E
  unfolding get_data join
  dump [] e = (true, e)
  dump (c ∷ clients) e =
      let (written, e2) = write_file (codes "monitor-" ++ c.addr) (join (get_data c)) e in
      let rest = dump clients e2 in if written then rest else (false, e2)
