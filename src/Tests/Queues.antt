-- ===== src/Tests/Queues.antt =====
-- The queue's theorems on a queue of three events.
use desktop_client.Base.{
  ℕ, ◌*◌, ◌≤◌, ◌≡◌, refl, arith, true, false, Str, lit, Option, none, some, List, [], ◌∷◌, ◌++◌,
  if◌then◌else◌, ◌==◌, length, elem,
}
use desktop_client.Base.Results.{ok, err}
use desktop_client.Queue.Table.{
  pending, leased, acked, Row, row_ids, leasable_rows, get, update_by_ids, depth_rows,
}
use desktop_client.Queue.Table.Ops.{
  Codec, unmarshal_failed, Item, scan_item, scan_items, select_leasable, lease_rows,
}
use desktop_client.Queue.Table.Leasing.{lease_first}
use desktop_client.Queue.{Queue, FileSize, lease_batch, depth}
use desktop_client.Queue.Lease.{
  lease_batch_takes_oldest, lease_batch_exclusive, lease_batch_stuck, lease_batch_reaches,
}
use desktop_client.Queue.History.Invariant.{IsValid}

-- Events are numbers: 13 cannot be marshalled and 99 cannot be read back.
abbrev pub codec : Codec ℕ ℕ
codec = record {
  marshal = λ n. if n == 13 then none else some n;
  unmarshal = λ p. if p == 99 then none else some p;
}

abbrev pub waiting : Row Str ℕ
waiting = record {
  id = 3;
  key = lit "a";
  payload = 7;
  created_at = 10;
  attempts = 0;
  state = pending;
  leased_until = none;
  acked_at = none;
}

abbrev running : Row Str ℕ
running = record {
  id = 5;
  key = lit "b";
  payload = 8;
  created_at = 11;
  attempts = 1;
  state = leased;
  leased_until = some 40;
  acked_at = none;
}

abbrev pub done : Row Str ℕ
done = record {
  id = 8;
  key = lit "c";
  payload = 9;
  created_at = 12;
  attempts = 0;
  state = acked;
  leased_until = none;
  acked_at = some 20;
}

abbrev broken : Row Str ℕ
broken = record {
  id = 9;
  key = lit "d";
  payload = 99;
  created_at = 13;
  attempts = 0;
  state = pending;
  leased_until = none;
  acked_at = none;
}

abbrev of_rows : List (Row Str ℕ) → Queue ℕ ℕ ℕ
of_rows rows = record {
  max_rows = 2;
  max_bytes = 1000;
  rows = rows;
  metric_rows = [];
  sessions = 0;
  evicted = 0;
}

abbrev pub three_rows : Queue ℕ ℕ ℕ
three_rows = of_rows (waiting ∷ running ∷ done ∷ [])

abbrev pub size : FileSize ℕ ℕ ℕ
size rows metric_rows sessions = 100 * length rows

abbrev pub minted : ℕ → Option Str
minted i = some (i ∷ [])

pub three_rows-IsValid : IsValid three_rows
three_rows-IsValid = record {
  events = record {
    ascending = (omega arith, (omega arith, (omega arith, tt)));
    consistent = (refl, ((40, refl), ((refl, 20, refl), tt)));
  };
  metrics = record { ascending = tt; consistent = tt };
}

abbrev item_a : Item Str ℕ
item_a = record { id = 3; key = lit "a"; event = 7; attempts = 0 }

abbrev leased_queue : ℕ → Queue ℕ ℕ ℕ
leased_queue until =
    of_rows (record waiting { state = leased; leased_until = some until } ∷ running ∷ done ∷ [])

lease_three : lease_batch codec 30 2 100 three_rows ≡ (leased_queue 130, ok (item_a ∷ []))
unfolding lease_batch lease_rows select_leasable scan_items scan_item leasable_rows update_by_ids
lease_three = refl

lease_later : lease_batch codec 50 2 100 (leased_queue 130) ≡ (
  of_rows (
      record waiting { state = leased; leased_until = some 130 }
      ∷ record running { leased_until = some 150 }
      ∷ done
      ∷ []),
  ok (record { id = 5; key = lit "b"; event = 8; attempts = 1 } ∷ []),
)
unfolding lease_batch lease_rows select_leasable scan_items scan_item leasable_rows update_by_ids
lease_later = refl

lease_batch_takes_oldest_example :
    (3 ∷ [] ≡ row_ids (leasable_rows 30 2 three_rows.rows))
    × (leased_queue 130 ≡ record three_rows { rows = lease_first 30 130 2 three_rows.rows })
lease_batch_takes_oldest_example =
    lease_batch_takes_oldest codec 30 2 100 three_rows (leased_queue 130) (item_a ∷ [])
      three_rows-IsValid lease_three

lease_batch_exclusive_example : elem 3 (5 ∷ []) ≡ false
lease_batch_exclusive_example =
    lease_batch_exclusive codec 30 50 2 2 100 100 3 three_rows (leased_queue 130) _ (item_a ∷ []) _
      three_rows-IsValid lease_three (omega arith) lease_later refl

abbrev stuck_rows : Queue ℕ ℕ ℕ
stuck_rows = of_rows (waiting ∷ running ∷ broken ∷ [])

stuck_leasable : leasable_rows 30 2 stuck_rows.rows ≡ (waiting ∷ []) ++ broken ∷ []
unfolding leasable_rows
stuck_leasable = refl

lease_batch_stuck_example :
    lease_batch codec 30 2 100 stuck_rows ≡ (stuck_rows, err unmarshal_failed)
lease_batch_stuck_example =
    lease_batch_stuck codec 30 1 100 stuck_rows (waiting ∷ []) [] broken stuck_leasable refl

pub found_waiting : get 3 three_rows.rows ≡ some waiting
unfolding get
found_waiting = refl

pub found_done : get 8 three_rows.rows ≡ some done
unfolding get
found_done = refl

depth_three : depth three_rows ≤ 2
unfolding depth depth_rows
depth_three = omega arith

lease_batch_reaches_example : elem 3 (3 ∷ []) ≡ true
lease_batch_reaches_example =
    lease_batch_reaches codec 30 2 100 3 three_rows (leased_queue 130) (item_a ∷ []) waiting
      three_rows-IsValid depth_three found_waiting refl lease_three
