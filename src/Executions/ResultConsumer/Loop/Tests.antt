-- ===== src/Executions/ResultConsumer/Loop/Tests.antt =====
-- Readings of which the second acknowledgement, and the one that tries it again, are refused, and the
-- fifth is reached by the end of the service.
use constructor.Prelude.{ℕ, zero, suc, ◌≡◌, refl, List, [], ◌∷◌}
use constructor.Executions.ResultConsumer.Loop.{
  Reading, redis_error, cancelled, Ack, taken, refused, ended, Group, consume,
}
use constructor.Executions.ResultConsumer.Loop as Loop
use constructor.Executions.ResultConsumer.Loop.Prefixes.{Handles, consume-AreHandled}
use constructor.Executions.Tests.Examples.{parse, entries, consumer}

abbrev acks : ℕ → Ack
acks zero = taken
acks (suc zero) = refused
acks (suc (suc zero)) = refused
acks (suc (suc (suc zero))) = taken
acks (suc (suc (suc (suc zero)))) = ended
acks _ = taken

abbrev readings : List Reading
readings =
    Loop.entries entries
    ∷ redis_error
    ∷ Loop.entries entries
    ∷ Loop.entries entries
    ∷ cancelled
    ∷ []

abbrev group : Group
group = record { consumer = consumer; tried = 0 }

consume-AreHandled_example : Handles parse acks group readings (consume parse acks readings group)
consume-AreHandled_example = consume-AreHandled parse acks readings group

acked : (consume parse acks readings group).consumer.acked ≡ "0-0" ∷ "1-0" ∷ "1-0" ∷ []
unfolding consume
acked = refl
