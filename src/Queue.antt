-- ===== src/Queue.antt =====
-- crates/camelmailer-db/src/queue.rs: the retry delay, the turns of the servers, and the loop of
-- `PgQueue::dequeue`. The rows of its first statement and the lock of its second are arguments.
pub mod Order
pub mod Turn
mod Tests
use camelmailer.Base.{
  ℕ, suc, ◌+◌, ◌%◌, ◌^◌, ◌&&◌, ◌||◌, Bool, true, false, Option, none, some, List, [], ◌∷◌, ltb, leb,
  ◌==◌, if◌then◌else◌, map, map_option, unwrap_or, length, ℤ, pos, negsuc, map_get, map_insert,
}
use camelmailer.Model.{EntityId}

-- `attempts.clamp(0, 10)`
clamped : ℤ → ℕ
clamped (negsuc n) = 0
clamped (pos n) = if leb n 10 then n else 10

unfoldable pub retry_delay_minutes : ℤ → ℕ
unfolding clamped
retry_delay_minutes attempts = 2 ^ clamped attempts

-- A count of a `u64`, which `fetch_add` wraps.
abbrev pub next_turn : ℕ → ℕ
next_turn n = suc n % 18446744073709551616

pub record Turns : Type 0 where
  pub counter : ℕ
  pub last : List (EntityId × ℕ)

abbrev pub same_server : EntityId → EntityId → Bool
same_server a b = a == b

unfoldable pub last_served : Turns → EntityId → Option ℕ
unfolding map_get
last_served t server_id = map_get same_server server_id t.last

-- The map is cleared before it takes a turn on top of more than 10000.
unfoldable pub served : EntityId → Turns → Turns
unfolding map_insert
served server_id t = record {
  counter = next_turn t.counter;
  last =
      map_insert same_server server_id t.counter (if ltb 10000 (length t.last) then [] else t.last);
}

pub record Candidate : Type 0 where
  pub server_id : EntityId
  pub in_flight : ℕ
  pub oldest : ℕ

-- The turn of a server in the order: one more than that of its last, or 0.
unfoldable pub turn_of : (EntityId → Option ℕ) → EntityId → ℕ
turn_of last server_id = unwrap_or 0 (map_option next_turn (last server_id))

-- The comparison of two keys.
unfoldable pub key_le : (EntityId → Option ℕ) → Candidate → Candidate → Bool
unfolding turn_of
key_le last a b =
    ltb a.in_flight b.in_flight
    || (a.in_flight == b.in_flight
        && (ltb (turn_of last a.server_id) (turn_of last b.server_id)
            || (turn_of last a.server_id == turn_of last b.server_id && leb a.oldest b.oldest)))

-- A stable sort.
unfoldable pub insert_by_key : (EntityId → Option ℕ) → Candidate → List Candidate → List Candidate
unfolding key_le
insert_by_key last x [] = x ∷ []
insert_by_key last x (y ∷ ys) =
    let rest = insert_by_key last x ys in if key_le last x y then x ∷ y ∷ ys else y ∷ rest

unfoldable pub sort_by_key : (EntityId → Option ℕ) → List Candidate → List Candidate
unfolding insert_by_key
sort_by_key last [] = []
sort_by_key last (x ∷ xs) = insert_by_key last x (sort_by_key last xs)

unfoldable pub turn_order : List Candidate → (EntityId → Option ℕ) → List EntityId
unfolding sort_by_key
turn_order candidates last = map (λ (c : Candidate). c.server_id) (sort_by_key last candidates)

module _ {Row : Type 0} (lock : EntityId → Option Row) where
  -- The first server that still has a ready row, with the row that was locked.
  unfoldable pub try_servers : List EntityId → Option (EntityId × Row)
  try_servers [] = none
  try_servers (id ∷ ids) =
      let rest = try_servers ids in elim (lock id) [ some row ↦ some (id, row) | none ↦ rest ]

  unfoldable pub dequeue : List Candidate → Turns → Option (EntityId × Row) × Turns
  unfolding turn_order try_servers last_served served
  dequeue candidates t = elim (try_servers (turn_order candidates (last_served t))) [
    | none ↦ (none, t)
    | some found ↦ (some found, served found.0 t)
  ]
