-- ===== src/Tests/Values.antt =====
-- Values that the tests share: a chain, an encoding, rows and items of work.
use cow_indexer.Prelude.{ℕ, ◌≡◌, refl, true, none, List, [], Text, codes}
use cow_indexer.Json.{Json, str, Codec}
use cow_indexer.WorkQueue.{Status, order_uid, Chain, WorkRow, WorkItem, Queue, Outcome}

abbrev pub chain : Chain
chain = record { environment = codes "prod"; chain_id = 1 }

unfoldable pub text_of : Json → Text
text_of (str s) = s
text_of _ = []

pub text_of-str : (value : Json) → text_of (str (text_of value)) ≡ text_of value
unfolding text_of
text_of-str value = refl

-- An encoding that keeps only top-level texts, and a digest that is the encoding.
unfoldable pub codec : Codec
unfolding text_of
codec = record { dumps = text_of; loads = str; sha256 = λ s. s; dumps-loads = text_of-str }

abbrev pub row : ℕ → ℕ → Status → WorkRow
row attempts revision status = record {
  work_id = codes "w1";
  environment = codes "prod";
  chain_id = 1;
  kind = order_uid;
  key = codes "0xaa";
  payload = codes "{}";
  status = status;
  attempts = attempts;
  lease_owner = [];
  lease_until = none;
  next_attempt_at = 10;
  error = [];
  revision = revision;
  observed_at = 10;
}

abbrev pub item : ℕ → WorkItem
item attempts = record {
  work_id = codes "w1";
  environment = codes "prod";
  chain_id = 1;
  kind = order_uid;
  key = codes "0xaa";
  payload = str (codes "{}");
  attempts = attempts;
}

abbrev pub queue : List WorkRow → Queue
queue rows = record { work_items = rows; dead_letters = [] }

abbrev pub success : Outcome
success = record { success = true; error = none; retry_at = none; terminal = none }
