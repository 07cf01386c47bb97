-- ===== src/Tms/Tests.antt =====
-- Runs of the proxy server, tms/tms, on concrete input.
use https_tunnel_proxy.Base.{
  ℕ, ◌≡◌, ◌≢◌, refl, inl, List, [], ◌∷◌, none, some, arith, keep_if, Returns, false,
}
use https_tunnel_proxy.Wire.Messages.{Timeval}
use https_tunnel_proxy.Tms.Types.{User, Scb, make_scb, reset_scb, u_validated, no_time}
use https_tunnel_proxy.Tms.Accounting.{
  Tunnel, traffic_tcp_hss, report_or_accumulate, record_traffic, on_traffic_report_rsp,
}
use https_tunnel_proxy.Tms.Accounting.Ledger.{
  Ledger, Event, carry, close, answer, step, run, reported, owed, Balances, run-Balances,
}
use https_tunnel_proxy.Tms.ScbMgr.{
  Heap, update, ScbMgr, new_scb, recycle_scb, ScbWatchNode, scb_watch_scan,
}
use https_tunnel_proxy.Tms.ScbMgr.Watch.{is_active, scb_watch_scan_lem}
use https_tunnel_proxy.Tms.ScbMgr.Fresh
use https_tunnel_proxy.Tms.ScbMgr.Fresh.{create, recycle-run}

abbrev user : User
user = record {
  mobile = 7;
  app = 1;
  forward_id = 3;
  traffic = 0;
  balance = 100000;
  accu_start_time = no_time;
  status = u_validated;
  reporting = 0;
  con_report = 0;
}

abbrev scb : ℕ → Scb
scb id = record (make_scb id) { status = u_validated }

abbrev ledger : Ledger
ledger = record { user = user; streams = scb 1 ∷ scb 2 ∷ [] }

abbrev tunnel : Tunnel
tunnel = record { begin_time = no_time; curr_host = b'h' ∷ [] }

abbrev later : Timeval
later = record { tv_sec = 9; tv_usec = 0 }

-- Two streams carry bytes; both end before the recorder answers.
abbrev events : List Event
events =
    carry 0 100
    ∷ carry 1 50
    ∷ close 0 later later tunnel
    ∷ close 1 later later tunnel
    ∷ answer later
    ∷ []

run_total :
    Returns (λ r. (reported r.reports ≡ 150) × (owed r.ledger ≡ 0)) (run false ledger events)
unfolding run step record_traffic report_or_accumulate on_traffic_report_rsp make_scb
    traffic_tcp_hss
run_total = (refl, refl)

run-Balances_example : Returns (Balances ledger events) (run false ledger events)
unfolding make_scb
run-Balances_example =
    run-Balances ledger events (inl refl)
      (omega arith, (omega arith, (omega arith, (omega arith, (tt, tt))))) (omega arith)

abbrev heap_at : ℕ → Scb
heap_at p = record (make_scb 4) { traffic = p }

abbrev heap : Heap
heap p = some (heap_at p)

-- The block at 9 has carried bytes, that at 8 has not, and that at 7 is in another use.
abbrev nodes : List ScbWatchNode
nodes =
    record { scbid = 4; traffic = 2; scb = 9 }
    ∷ record { scbid = 4; traffic = 8; scb = 8 }
    ∷ record { scbid = 3; traffic = 0; scb = 7 }
    ∷ []

scb_watch_scan_example :
    scb_watch_scan heap (record { watch = nodes; expire = [] })
    ≡ some (keep_if (λ n. is_active (heap n.scb) n) nodes)
scb_watch_scan_example =
    scb_watch_scan_lem heap nodes ((heap_at 9, refl), ((heap_at 8, refl), ((heap_at 7, refl), tt)))

abbrev empty_mgr : ScbMgr
empty_mgr = record { aval_pcb_id = 0; scb_free_list = []; heap = λ p. none; next_addr = 1 }

-- The block at 1 is in its use number 4.
abbrev one_block : ScbMgr
one_block = record {
  aval_pcb_id = 4;
  scb_free_list = [];
  heap = update (λ p. none) 1 (scb 4);
  next_addr = 2;
}

abbrev recycled : ScbMgr
recycled = record one_block {
  heap = update one_block.heap 1 (reset_scb (scb 4));
  scb_free_list = 1 ∷ [];
}

abbrev reused : ScbMgr
reused = record recycled {
  aval_pcb_id = 5;
  heap = update recycled.heap 1 (record (reset_scb (scb 4)) { scbid = 5 });
  scb_free_list = [];
}

recycle-run_example : Returns (λ s. s.scbid ≢ 4) (reused.heap 1)
unfolding recycle_scb Fresh.run Fresh.step new_scb
recycle-run_example =
    recycle-run 4 1 one_block recycled reused (create ∷ []) (omega arith) (omega arith)
      (omega arith) refl refl
