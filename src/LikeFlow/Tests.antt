-- ===== src/LikeFlow/Tests.antt =====
-- A like of post 7 on its way to the stored count.
use comment_project.Common.{◌≡◌, refl, true, none, [], ◌∷◌}
use comment_project.Common.Int.{pos, int_eq, int_beq}
use comment_project.Common.Dict.{text_eq, lookup, insert, erase}
use comment_project.Common.Outcome.{unheard}
use comment_project.Common.Table.{add}
use comment_project.Common.Text.{Text, codes, format_int}
use comment_project.Counter.State.{post_like, Db, Store, BatchRow, quiet_period, max_delay}
use comment_project.Counter.Scripts.{claim_script, clear_script}
use comment_project.Counter.Flush.{new_row}
use comment_project.Counter.Batches.{booked}
use comment_project.Counter.Read.{stored_counts}
use comment_project.Counter.Stored.{count_of}
use comment_project.Counter.Ledger
use comment_project.Counter.Conservation.{fresh}
use comment_project.Facts.Likes.{like_key, locked, runs, like_key_eq}
use comment_project.LikeFlow.{Delta, System, LikeRequest, write_request, enqueue_one}

abbrev no_rows : Db
no_rows = record { counter_batch = []; post_counter = []; counter_reconcile_log = [] }

abbrev start : System
start = record { likes = []; store = fresh no_rows; in_flight = []; lost = [] }

abbrev like : LikeRequest
like = record {
  is_like = true;
  lock = locked;
  cached = none;
  attempts = runs ∷ [];
  key = like_key (pos 7) (pos 1);
}

abbrev plus : Delta
plus = record { post = pos 7; amount = pos 1 }

abbrev batch : Text
batch = codes "b1"

abbrev asked : System
asked = write_request like start

abbrev told : System
told = enqueue_one unheard plus 1000 [] asked

-- the batch as it is claimed, restored in MySQL, booked and cleared
abbrev claimed_store : Store
claimed_store = record (told.store) {
  redis =
      (claim_script (format_int (pos 7)) quiet_period max_delay 100000 batch told.store.redis).1;
}

abbrev the_row : BatchRow
the_row = new_row post_like (pos 7) (pos 1) 100000

abbrev inserted_store : Store
inserted_store = record claimed_store {
  db = record (claimed_store.db) {
    counter_batch = add batch the_row claimed_store.db.counter_batch;
  };
}

abbrev booked_store : Store
booked_store = record inserted_store {
  db = booked post_like batch (pos 7) (pos 1) inserted_store.db;
}

abbrev cleared_store : Store
cleared_store = record booked_store { redis = (clear_script batch booked_store.redis).1 }

abbrev finished : System
finished = record told { store = cleared_store }

-- The like is booked once.
booked_once : count_of post_like (pos 7) finished.store.db.post_counter ≡ pos 1
unfolding enqueue_one write_request lookup insert erase booked stored_counts int_beq
booked_once = refl
