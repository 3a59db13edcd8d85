-- ===== src/Tests/Enrichment.antt =====
-- Runs of the enrichment of one item.
use cow_indexer.Enrichment.Batch.{Schedule, run_once}
use cow_indexer.Prelude.{
  List, ◌==◌, ◌≡◌, refl, false, none, some, [], ◌∷◌, codes, ok, err, if◌then◌else◌, ltb,
}
use cow_indexer.Json.{obj, field, str, end, null}
use cow_indexer.WorkQueue.{WorkItem, token}
use cow_indexer.Enrichment.{
  Services, Journal, competition_unavailable, exception, finish_work, process, process_kind,
  process_and_finish, handled, delay, ask, store,
}
use cow_indexer.Enrichment.Outcomes.{RefusesPlainly, IsFinished, process_and_finish-IsFinished}

program : Unit {0}
unfolding process process_kind process_and_finish handled delay ask store
program = tt

-- A price is served from the second call on.
services : Services
services = record {
  get_order = λ n key. ok null;
  get_orders_by_uids = λ n keys. ok [];
  get_order_status = λ n key. ok null;
  get_orders_by_transaction = λ n key. ok [];
  competition_by_transaction = λ n key. err (competition_unavailable key);
  get_app_data = λ n key. ok null;
  native_price = λ n key.
      if ltb n 1
      then err (exception (codes "timeout"))
      else ok (obj (field (codes "price") (str (codes "1")) end));
  order_trades = λ n key. ([], none);
  owner_trades = λ n key. ([], none);
  account_orders = λ n key. ([], none);
  refuses = λ n call. none;
  describe = λ e. codes "error";
  describe_value = λ e. codes "value";
}

services-RefusesPlainly : RefusesPlainly services
unfolding services
services-RefusesPlainly n call key = λ e. cc e

leased : WorkItem
leased = record {
  work_id = codes "w1";
  environment = codes "prod";
  chain_id = 1;
  kind = token;
  key = codes "0xaa";
  payload = null;
  attempts = 2;
}

journal : Journal
journal = record { asked = 0; done = [] }

after : Journal
after = (process_and_finish services 3 1000 leased none journal).1

-- The first call times out: the item is to be retried after four seconds.
retried_later :
    after.done
    ≡ finish_work leased (record {
      success = false;
      error = some (codes "timeout");
      retry_at = some 5000;
      terminal = none;
    })
      ∷ []
unfolding program after services leased journal
retried_later = refl

process_and_finish-IsFinished_example :
    IsFinished services 3 1000 leased (process services leased none journal) after
unfolding program after services leased journal
process_and_finish-IsFinished_example =
    process_and_finish-IsFinished services 3 1000 leased services-RefusesPlainly none journal after
      refl

-- The second of two items is cut short at the deadline.
schedule : Schedule
schedule = record { in_time = λ n. n == 0; cut_short = λ n item j. j; now = λ n. 1000 }

two_items : List WorkItem
two_items = leased ∷ record leased { work_id = codes "w2" } ∷ []

after_batch : Journal
after_batch = (run_once services schedule 3 two_items journal).1
