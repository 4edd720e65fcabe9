-- ===== src/Server/Life/Tests.antt =====
-- Two sessions, of which one has already ended, on a server whose downstream engine never came up.
use t2d.Base.{ℕ, ◌≡◌, List, [], ◌∷◌, Bool, true, false, none, arith, Result, ok}
use t2d.Base.Int.{pos}
use t2d.Protocol.Packet.{new_data_packet}
use t2d.Stats.{new}
use t2d.Server.Sessions.{Event, arrives, read_fails, run, new_table, has_reader}
use t2d.Server.Life.{ServerLife, on_boot_upstream, stop}
use t2d.Server.Life.Drained.{IsStopped, ends, stop-IsStopped}

abbrev all_written : List (List ℕ) → List ℕ → Bool
all_written sent p = true

abbrev plain : List ℕ → Result ℕ (List ℕ)
plain bytes = ok bytes

abbrev history : List Event
unfolding new_data_packet
history =
    arrives true (new_data_packet 7 1 1) (5 ∷ []) 10
    ∷ arrives true (new_data_packet 8 1 1) (6 ∷ []) 11
    ∷ read_fails true 0
    ∷ arrives true (new_data_packet 9 1 1) (6 ∷ []) 12
    ∷ []

-- The upstream engine has started, the other has not.
abbrev life : ServerLife
unfolding on_boot_upstream
life = on_boot_upstream 3 (record {
  upstream_engine = none;
  downstream_engine = none;
  upstream_running = false;
  downstream_running = false;
  cancelled = false;
  stops = [];
  table = new_table (new 0);
})

-- The readers end one after another, each with an error that counts.
abbrev endings : List ℕ → List (Bool × ℕ)
endings [] = []
endings (p ∷ ps) = (true, p) ∷ endings ps

ends-endings : (ps : List ℕ) (p : ℕ) → has_reader p ps ≡ true → ends p (endings ps) ≡ true
unfolding has_reader
ends-endings [] p h = h
ends-endings (q ∷ ps) p h = ground (arith, ends-endings ps p)

stop-IsStopped_example :
    let table = run all_written true (pos 4) (pos 50) plain (new_table (new 0)) history in
    IsStopped (stop (record life { table = table })) (endings table.readers)
unfolding new_data_packet
stop-IsStopped_example =
    stop-IsStopped all_written true (pos 4) (pos 50) plain 0 history life
      (endings (run all_written true (pos 4) (pos 50) plain (new_table (new 0)) history).readers)
      (omega arith)
      (ends-endings
        (run all_written true (pos 4) (pos 50) plain (new_table (new 0)) history).readers)
