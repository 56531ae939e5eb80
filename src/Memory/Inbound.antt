-- ===== src/Memory/Inbound.antt =====
-- `MemoryStore::requeue_inbound` of crates/camelmailer-core/src/store.rs.
use camelmailer.Base.{ℤ, ◌||◌, Bool, Option, none, some, List, [], ◌∷◌, if◌then◌else◌}
use camelmailer.Text.{codes}
use camelmailer.Model.{EntityId}
use camelmailer.Memory.{MessageRecord, MemoryStore}
use camelmailer.Memory.Send.{is_message_of}

-- The message as it waits again, with the flag that lets it pass its route's checks if that was asked.
unfoldable pub waiting : Bool → MessageRecord → MessageRecord
unfolding codes
waiting bypass m = record m { status = codes "Pending"; bypassed = bypass || m.bypassed }

-- `iter_mut().find(..)`: the first message that passes, which is changed in its place.
unfoldable pub update_first :
    (MessageRecord → Bool)
    → (MessageRecord → MessageRecord)
    → List MessageRecord
    → Option MessageRecord × List MessageRecord
update_first p f [] = (none, [])
update_first p f (m ∷ ms) =
    let rest = update_first p f ms in if p m then (some (f m), f m ∷ ms) else (rest.0, m ∷ rest.1)

unfoldable pub requeue_inbound :
    EntityId → ℤ → Bool → MemoryStore → Option MessageRecord × MemoryStore
unfolding update_first waiting is_message_of codes
requeue_inbound server_id message_id bypass db =
    let r =
      update_first (is_message_of server_id message_id (codes "incoming")) (waiting bypass)
        db.messages in
    (r.0, record db { messages = r.1 })
