-- ===== src/Queue/Turn.antt =====
-- A server that was just served yields to every other that is ready.
use camelmailer.Base.{
  ℕ, suc, ◌≤◌, ◌<◌, ◌≡◌, ◌≢◌, refl, ap, ◌∙◌, inl, inr, Bool, true, false, not, ◌&&◌, ◌||◌, any,
  Option, none, some, List, [], ◌∷◌, ltb, leb, ◌==◌, if◌then◌else◌, if_both, all, All, is_some, map,
  map_option, unwrap_or, length, OnSome, map_get, map_insert, arith, Bool-cases,
}
use camelmailer.Model.{EntityId}
use camelmailer.Queue.Order.{IsOrdered, all-sort_by_key, any-sort_by_key, sort_by_key-IsOrdered}
use camelmailer.Queue.{
  next_turn, Turns, same_server, last_served, served, Candidate, turn_of, key_le, sort_by_key,
  turn_order, try_servers, dequeue,
}

-- Every turn that is remembered is before the counter.
pub record IsValid (t : Turns) : Type 0 where
  pub before : All (λ (e : EntityId × ℕ). e.1 < t.counter) t.last
  pub bounded : t.counter < 18446744073709551615

map_get-All :
    (n : ℕ) (id : EntityId) (m : List (EntityId × ℕ))
    → n < 18446744073709551615
    → All (λ (e : EntityId × ℕ). e.1 < n) m
    → unwrap_or 0 (map_option next_turn (map_get same_server id m)) ≤ n
unfolding map_get
map_get-All n id [] b h = omega arith
map_get-All n id ((k, v) ∷ m) b h = elim (Bool-cases (k == id)) [
  | inl e ↦ rw e (omega (arith, h.0))
  | inr e ↦ rw e (map_get-All n id m b h.1)
]

map_get-insert_other :
    (k id : EntityId) (v : ℕ) (m : List (EntityId × ℕ))
    → k ≢ id
    → map_get same_server id (map_insert same_server k v m) ≡ map_get same_server id m
unfolding map_get map_insert
map_get-insert_other k id v [] n = ground arith
map_get-insert_other k id v ((k', w) ∷ m) n = ground (arith, map_get-insert_other k id v m n)

map_get-insert_self :
    (k : EntityId) (v : ℕ) (m : List (EntityId × ℕ))
    → map_get same_server k (map_insert same_server k v m) ≡ some v
unfolding map_get map_insert
map_get-insert_self k v [] = ground arith
map_get-insert_self k v ((k', w) ∷ m) = ground (arith, map_get-insert_self k v m)

insert-All :
    (k : EntityId) (v n : ℕ) (m : List (EntityId × ℕ))
    → v < n
    → All (λ (e : EntityId × ℕ). e.1 < n) m
    → All (λ (e : EntityId × ℕ). e.1 < n) (map_insert same_server k v m)
unfolding map_insert
insert-All k v n [] l h = (l, tt)
insert-All k v n ((k', w) ∷ m) l h =
    if_both (All (λ (e : EntityId × ℕ). e.1 < n)) (k' == k) (λ _. (l, h.1))
      (λ _. (h.0, insert-All k v n m l h.1))

All-lt_suc :
    (n : ℕ) (m : List (EntityId × ℕ))
    → All (λ (e : EntityId × ℕ). e.1 < n) m
    → All (λ (e : EntityId × ℕ). e.1 < suc n) m
All-lt_suc n [] h = tt
All-lt_suc n (e ∷ m) h = (omega (arith, h.0), All-lt_suc n m h.1)

-- The turns that are left when the map is about to take one more.
abbrev kept : Turns → List (EntityId × ℕ)
kept t = if ltb 10000 (length t.last) then [] else t.last

kept-All : (t : Turns) → IsValid t → All (λ (e : EntityId × ℕ). e.1 < t.counter) (kept t)
kept-All t v =
    if_both (All (λ (e : EntityId × ℕ). e.1 < t.counter)) (ltb 10000 (length t.last)) (λ _. tt)
      (λ _. v.before)

-- Serving keeps the turns in order, until the counter is at its end.
pub served-IsValid :
    (s : EntityId) (t : Turns)
    → IsValid t
    → suc t.counter < 18446744073709551615
    → IsValid (served s t)
unfolding served
served-IsValid s t v b =
    let e : next_turn t.counter ≡ suc t.counter = omega arith in
    record {
      before = rw e (
          insert-All s t.counter (suc t.counter) (kept t) (omega arith)
            (All-lt_suc t.counter (kept t) (kept-All t v)));
      bounded = rw e b;
    }

-- The turn of the server that was just served is later than that of any other.
served-turn_of :
    (s id : EntityId) (t : Turns)
    → IsValid t
    → s ≢ id
    → turn_of (last_served (served s t)) id < turn_of (last_served (served s t)) s
unfolding turn_of last_served served
served-turn_of s id t v n =
    let other : turn_of (last_served (served s t)) id
        ≡ unwrap_or 0 (map_option next_turn (map_get same_server id (kept t))) =
      ap (λ (o : Option ℕ). unwrap_or 0 (map_option next_turn o))
        (map_get-insert_other s id t.counter (kept t) n) in
    let self : turn_of (last_served (served s t)) s ≡ next_turn t.counter =
      ap (λ (o : Option ℕ). unwrap_or 0 (map_option next_turn o))
        (map_get-insert_self s t.counter (kept t)) in
    omega
      (arith, other, self, map_get-All t.counter id (kept t) v.bounded (kept-All t v), v.bounded)

module _ {Row : Type 0} (lock : EntityId → Option Row) (s : EntityId) (n : ℕ) where
  -- Another server that has a ready row and at most `n` messages in flight.
  abbrev pub is_waiting : Candidate → Bool
  is_waiting c = not (c.server_id == s) && is_some (lock c.server_id) && leb c.in_flight n

  -- The server itself has at least `n` in flight.
  abbrev pub has_more : Candidate → Bool
  has_more c = not (c.server_id == s) || leb n c.in_flight

  -- The server is behind those that wait.
  behind :
      (last : EntityId → Option ℕ) (e c : Candidate)
      → ((id : EntityId) → s ≢ id → turn_of last id < turn_of last s)
      → e.server_id ≡ s
      → n ≤ e.in_flight
      → is_waiting c ≡ true
      → key_le last e c ≡ false
  unfolding key_le
  behind last e c later q m w =
      let o : s ≢ c.server_id = ground arith in
      let l : turn_of last c.server_id < turn_of last e.server_id = rw q (later c.server_id o) in
      ground arith

  none_waits :
      (last : EntityId → Option ℕ) (e : Candidate) (cs : List Candidate)
      → ((id : EntityId) → s ≢ id → turn_of last id < turn_of last s)
      → e.server_id ≡ s
      → n ≤ e.in_flight
      → all (key_le last e) cs ≡ true
      → any is_waiting cs ≡ false
  none_waits last e [] later q m a = refl
  none_waits last e (c ∷ cs) later q m a = elim (Bool-cases (is_waiting c)) [
    | inl w ↦ ground (arith, behind last e c later q m w)
    | inr w ↦ rw w (none_waits last e cs later q m (ground arith))
  ]

  chosen :
      (last : EntityId → Option ℕ) (cs : List Candidate)
      → ((id : EntityId) → s ≢ id → turn_of last id < turn_of last s)
      → IsOrdered last cs
      → any is_waiting cs ≡ true
      → all has_more cs ≡ true
      → OnSome
          (λ (found : EntityId × Row). found.0 ≢ s)
          (try_servers lock (map (λ (c : Candidate). c.server_id) cs))
  unfolding try_servers
  chosen last [] later o w m = tt
  chosen last (e ∷ cs) later o w m = tried (lock e.server_id) refl (chosen last cs later o.1)
    where
      tried :
          (r : Option Row)
          → lock e.server_id ≡ r
          → (any is_waiting cs ≡ true
              → all has_more cs ≡ true
              → OnSome
                  (λ (found : EntityId × Row). found.0 ≢ s)
                  (try_servers lock (map (λ (c : Candidate). c.server_id) cs)))
          → OnSome
              (λ (found : EntityId × Row). found.0 ≢ s)
              (elim r [
                | some row ↦ some (e.server_id, row)
                | none ↦ try_servers lock (map (λ (c : Candidate). c.server_id) cs)
              ])
      tried (some row) h ih = λ q. ground (arith, none_waits last e cs later q (ground arith) o.0)
      tried none h ih = ih (ground arith) (ground arith)

  someone :
      (cs : List Candidate)
      → any is_waiting cs ≡ true
      → is_some (try_servers lock (map (λ (c : Candidate). c.server_id) cs)) ≡ true
  unfolding try_servers
  someone [] w = ground (arith, w)
  someone (c ∷ cs) w = tried (lock c.server_id) refl (someone cs)
    where
      tried :
          (r : Option Row)
          → lock c.server_id ≡ r
          → (any is_waiting cs ≡ true
              → is_some (try_servers lock (map (λ (c : Candidate). c.server_id) cs)) ≡ true)
          → is_some (elim r [
            | some row ↦ some (c.server_id, row)
            | none ↦ try_servers lock (map (λ (c : Candidate). c.server_id) cs)
          ])
            ≡ true
      tried (some row) h ih = refl
      tried none h ih = ih (ground arith)

  result_of :
      (o : Option (EntityId × Row)) (t : Turns)
      → (let r : Option (EntityId × Row) × Turns = elim o [
        | none ↦ (none, t)
        | some found ↦ (some found, served found.0 t)
      ] in
          r.0)
        ≡ o
  result_of none t = refl
  result_of (some found) t = refl

  found_of :
      (o : Option (EntityId × Row))
      → OnSome (λ (found : EntityId × Row). found.0 ≢ s) o
      → is_some o ≡ true
      → (found : EntityId × Row) × (o ≡ some found) × (found.0 ≢ s)
  found_of none h i = ground (arith, i)
  found_of (some found) h i = (found, refl, h)

  -- After a server was served, the next dequeue serves another one as long as another has a ready row and
  -- no more messages in flight, whatever the age of the mail.
  pub served_yields :
      (t : Turns) (cs : List Candidate)
      → IsValid t
      → any is_waiting cs ≡ true
      → all has_more cs ≡ true
      → (found : EntityId × Row) × ((dequeue lock cs (served s t)).0 ≡ some found) × (found.0 ≢ s)
  unfolding dequeue turn_order
  served_yields t cs v w m =
      let last = last_served (served s t) in
      let (found, e, n') =
        found_of (try_servers lock (map (λ (c : Candidate). c.server_id) (sort_by_key last cs)))
          (chosen last (sort_by_key last cs) (λ id. served-turn_of s id t v)
            (sort_by_key-IsOrdered last cs) (any-sort_by_key last is_waiting cs ∙ w)
            (all-sort_by_key last has_more cs ∙ m))
          (someone (sort_by_key last cs) (any-sort_by_key last is_waiting cs ∙ w)) in
      (found, result_of (try_servers lock (turn_order cs last)) (served s t) ∙ e, n')
