-- ===== src/Agent/Hub/Tests.antt =====
-- The theorem about the event hub at a concrete history.
use alloyfs.Base.{ℕ, ◌≡◌, some, List, [], ◌∷◌, arith}
use alloyfs.Base.Text.{chars, text_eq}
use alloyfs.Base.Table.{get, insert}
use alloyfs.Proto.Errors.{err, too_old}
use alloyfs.Proto.Path.{RelPath}
use alloyfs.Proto.Messages.{created, modified, removed}
use alloyfs.Agent.Hub
use alloyfs.Agent.Hub.{
  with_capacity, subscribe, publish, publish_one, origin_of, note_local_write, publishes, notes,
}
use alloyfs.Agent.Hub.CatchUp.{subscribe-run}

abbrev file_a : RelPath
file_a = chars "a"

abbrev still : ℕ → ℕ
still n = 0

abbrev hub_calls : List Hub.Call
hub_calls =
    notes file_a 5 0
    ∷ publishes ((file_a, created) ∷ (file_a, modified) ∷ [])
    ∷ publishes ((chars "b", removed) ∷ [])
    ∷ []

-- With room for two events the first of three is lost.
subscribe-run_example :
    subscribe (Hub.run still (with_capacity 2) hub_calls).0 (some 0) ≡ err too_old
unfolding Hub.run publish publish_one origin_of with_capacity note_local_write get insert
subscribe-run_example = subscribe-run still 2 hub_calls 0 (omega arith) (omega arith) (omega arith)
