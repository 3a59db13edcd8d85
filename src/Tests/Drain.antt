-- ===== src/Tests/Drain.antt =====
-- Runs of the drain of the backfill.
use cow_indexer.Prelude.{
  arith, ◌≡◌, ◌≢◌, ◌*◌, refl, none, some, List, [], ◌∷◌, All, codes, ok, err, if◌then◌else◌, ltb,
  ◌==◌, Text, text_eq,
}
use cow_indexer.Json.{set_field, Json, obj, end, field, str}
use cow_indexer.WorkQueue.{WorkItem, owner_orders_backfill, pending, done}
use cow_indexer.Enrichment.{
  Services, Journal, exception, store, ask, lift, delay, competition_unavailable,
}
use cow_indexer.Backfill.Drain.{
  process, process_kind, uid_batch, owner_orders, sweep, failed, process_and_finish,
}
use cow_indexer.Backfill.Drain.Rounds.{
  World, Draining, drained, deadline_of, lease_work, backfill_work_counts, guarded, gather, round,
  outstanding, open_kinds, open_statuses, is_over, drain_loop, drain, bump,
}
use cow_indexer.Backfill.Drain.Verdicts.{IsVerdict, drain-IsVerdict, drain-ends}
use cow_indexer.Backfill.Drain.Finished.{IsFinished, gather-IsFinished}

program : Unit {0}
unfolding process process_kind uid_batch owner_orders sweep set_field failed process_and_finish
    lease_work backfill_work_counts guarded gather round outstanding open_kinds open_statuses
    is_over drain_loop drain bump store ask lift delay text_eq
program = tt

abbrev order : Json
order = obj (field (codes "uid") (str (codes "0xaa")) end)

-- An owner has two pages of orders, and the second does not come.
abbrev services : Services
services = record {
  get_order = λ n key. err (exception (codes "none"));
  get_orders_by_uids = λ n keys. ok [];
  get_order_status = λ n key. err (exception (codes "none"));
  get_orders_by_transaction = λ n key. ok [];
  competition_by_transaction = λ n key. err (competition_unavailable key);
  get_app_data = λ n key. err (exception (codes "none"));
  native_price = λ n key. err (exception (codes "none"));
  order_trades = λ n key. ([], none);
  owner_trades = λ n key. ([], none);
  account_orders = λ n key. ((order ∷ []) ∷ [], some (exception (codes "timeout")));
  refuses = λ n call. none;
  describe = λ e. codes "error";
  describe_value = λ e. codes "value";
}

abbrev leased : WorkItem
leased = record {
  work_id = codes "w1";
  environment = codes "prod";
  chain_id = 1;
  kind = owner_orders_backfill;
  key = codes "0xaa";
  payload = obj end;
  attempts = 2;
}

-- The first lease has one item, and no other has any.
abbrev world : World
world = record {
  services = λ key. services;
  lease = λ n key. if n == 0 then ok (leased ∷ []) else ok [];
  counts = λ n key. ok (((done, 3) ∷ []) ∷ ((pending, if ltb n 1 then 1 else 0) ∷ []) ∷ []);
  clock = λ n. n * 10;
  now = λ n. 1000;
}

abbrev journal : Journal
journal = record { asked = 0; done = [] }

abbrev keys : List Text
keys = codes "mainnet" ∷ []

abbrev last : Draining
last = (drain world 1 5 10 (some 1000) keys journal).1

-- With one page at most the owner is truncated, and all its items come to one.
one_page : drain world 1 5 10 (some 1000) keys journal ≡ (ok (some drained), last)
unfolding program
one_page = refl

drain-IsVerdict_example : IsVerdict world (deadline_of world 1 5 (some 1000)) keys last drained
drain-IsVerdict_example =
    drain-IsVerdict world 1 5 10 (some 1000) keys journal drained last one_page

drain-ends_example : (drain world 1 5 4 (some 30) keys journal).0 ≢ ok none
drain-ends_example =
    drain-ends world 1 5 4 30 3 keys journal (omega arith) (omega arith) (omega arith)

abbrev start : Draining
start = record { leases = 1; countings = 0; journal = journal; totals = [] }

-- Two pages at most: the second is asked for, and the item is to be retried.
after : Draining
after = (gather world 2 5 (codes "mainnet") (leased ∷ []) start).1

gathered : gather world 2 5 (codes "mainnet") (leased ∷ []) start ≡ (ok tt, after)
unfolding program after
gathered = refl

gather-IsFinished_example : All (IsFinished world 2 5 (codes "mainnet") after) (leased ∷ [])
gather-IsFinished_example =
    gather-IsFinished world 2 5 (codes "mainnet") (leased ∷ []) start after gathered
