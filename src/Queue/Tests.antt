-- ===== src/Queue/Tests.antt =====
-- Three servers with mail, of which the first was just served.
use camelmailer.Base.{◌≡◌, ◌≢◌, refl, some, List, [], ◌∷◌, pos, negsuc, arith}
use camelmailer.Model.{EntityId}
use camelmailer.Queue.{
  Candidate, Turns, served, turn_order, last_served, dequeue, retry_delay_minutes,
}
use camelmailer.Queue.Turn.{served_yields}

abbrev three_servers : List Candidate
three_servers =
    record { server_id = 1; in_flight = 0; oldest = 10 }
    ∷ record { server_id = 2; in_flight = 0; oldest = 500 }
    ∷ record { server_id = 3; in_flight = 0; oldest = 900 }
    ∷ []

-- Server 2 was served before.
abbrev turns : Turns
turns = record { counter = 7; last = (2, 3) ∷ [] }

in_turn : turn_order three_servers (last_served (served 1 turns)) ≡ 3 ∷ 2 ∷ 1 ∷ []
unfolding turn_order last_served served
in_turn = refl

delays :
    (retry_delay_minutes (negsuc 2) ≡ 1)
    × (retry_delay_minutes (pos 3) ≡ 8)
    × (retry_delay_minutes (pos 40) ≡ 1024)
unfolding retry_delay_minutes
delays = (refl, refl, refl)

served_yields_example :
    (found : EntityId × EntityId) × ((dequeue some three_servers (served 1 turns)).0 ≡ some found)
    × (found.0 ≢ 1)
served_yields_example =
    served_yields some 1 0 turns three_servers
      (record { before = omega arith; bounded = omega arith }) refl refl
