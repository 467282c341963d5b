-- ===== src/Liquidity.antt =====
-- server/src/domain/liquidity: stateMachine.ts and executionState.ts with models/liquidity.model.ts,
-- the life of an order that is executed at an external provider.
pub mod Machine
pub mod Laws
mod Tests
use novacex.Prelude.{ℕ, Bool, true, false, ◌||◌, List, [], ◌∷◌, ◌==◌}

pub data ExecutionStatus : Type 0 where
  created validated reserved routing submitted acknowledged : ExecutionStatus
  partially_filled filled cancel_pending cancelled rejected failed : ExecutionStatus
  unknown reconciling confirmed : ExecutionStatus

-- A number of its own for each status, to compare them by.
abbrev pub status_code : ExecutionStatus → ℕ
status_code created = 0
status_code validated = 1
status_code reserved = 2
status_code routing = 3
status_code submitted = 4
status_code acknowledged = 5
status_code partially_filled = 6
status_code filled = 7
status_code cancel_pending = 8
status_code cancelled = 9
status_code rejected = 10
status_code failed = 11
status_code unknown = 12
status_code reconciling = 13
status_code confirmed = 14

-- `a === b`
abbrev pub status_eq : ExecutionStatus → ExecutionStatus → Bool
status_eq a b = status_code a == status_code b

-- `set.has(s)`
abbrev pub has : List ExecutionStatus → ExecutionStatus → Bool
has [] s = false
has (t ∷ ts) s = status_eq t s || has ts s

-- `TERMINAL_STATES`
abbrev pub terminal_states : List ExecutionStatus
terminal_states = filled ∷ cancelled ∷ rejected ∷ failed ∷ confirmed ∷ []

-- `VALID_TRANSITIONS`
abbrev pub valid_transitions : ExecutionStatus → List ExecutionStatus
valid_transitions created = validated ∷ failed ∷ rejected ∷ []
valid_transitions validated = reserved ∷ failed ∷ cancelled ∷ []
valid_transitions reserved = routing ∷ failed ∷ cancelled ∷ []
valid_transitions routing = submitted ∷ failed ∷ []
valid_transitions submitted = acknowledged ∷ failed ∷ unknown ∷ rejected ∷ []
valid_transitions acknowledged =
    partially_filled ∷ filled ∷ cancel_pending ∷ rejected ∷ unknown ∷ []
valid_transitions partially_filled = partially_filled ∷ filled ∷ cancel_pending ∷ unknown ∷ []
valid_transitions cancel_pending = cancelled ∷ unknown ∷ filled ∷ partially_filled ∷ []
valid_transitions unknown = reconciling ∷ []
valid_transitions reconciling =
    reconciling ∷ acknowledged ∷ partially_filled ∷ filled ∷ cancelled ∷ rejected ∷ failed ∷ unknown
    ∷ []
valid_transitions filled = confirmed ∷ []
valid_transitions cancelled = confirmed ∷ []
valid_transitions rejected = confirmed ∷ []
valid_transitions failed = confirmed ∷ []
valid_transitions confirmed = []
