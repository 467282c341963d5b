-- ===== src/Liquidity/Laws.antt =====
-- The life of an external execution: what `applyEvent` lets through (stateMachine.ts), and how its
-- table of transitions relates to `validateStateTransition` (executionState.ts).
use novacex.Prelude.{
  ℕ, ◌≢◌, ◌↔◌, Bool-cases, ◌≤◌, ◌<◌, ◌≡◌, sym, ap, ◌∙◌, ◌⊎◌, inl, inr, Bool, true, false, List, [],
  ◌∷◌, arith, ltb, ◌==◌, not, if◌then◌else◌,
}
use mathlib.Core.Path.{subst}
use novacex.Prelude.Result.{Result, err, ok, ◌>>=◌, >>=_passed}
use novacex.Liquidity.{
  ExecutionStatus, acknowledged, partially_filled, filled, cancelled, rejected, failed, unknown,
  reconciling, confirmed, status_eq, status_code,
}
use novacex.Liquidity.Machine.{
  is_terminal, is_valid_transition, validate_state_transition, ExecutionStateEvent,
  ExecutionStateData, StateError, wrong_execution, stale_sequence, invalid_transition, Numbers,
  apply_event, duplicate, advance, next_fill, check_price, check_reconciliation,
}

code_injective : (a b : ExecutionStatus) → status_code a ≡ status_code b → a ≡ b
code_injective a b h = ground arith

-- A terminal status is left for CONFIRMED only, and CONFIRMED not at all.
terminal_next :
    (a b : ExecutionStatus)
    → is_terminal a ≡ true
    → is_valid_transition a b ≡ true
    → (b ≡ confirmed) × (status_eq a confirmed ≡ false)
unfolding is_terminal is_valid_transition
terminal_next a b h k = ground arith

-- A status that nothing but itself follows.
abbrev pub IsClosed : ExecutionStatus → Type 0
IsClosed a = (a ≡ filled) ⊎ (a ≡ cancelled) ⊎ (a ≡ rejected) ⊎ (a ≡ failed)

-- What a reconciliation may find.
abbrev pub IsReconciled : ExecutionStatus → Type 0
IsReconciled b = IsClosed b ⊎ (b ≡ confirmed) ⊎ (b ≡ partially_filled)

-- The pairs of statuses that one may follow the other: UNKNOWN leads to RECONCILING only, that to
-- what a reconciliation finds, a closed status to itself, and any other to all.
abbrev pub MayFollow : ExecutionStatus → ExecutionStatus → Type 0
MayFollow a b =
    ((a ≡ unknown) × (b ≡ reconciling))
    ⊎ ((a ≡ reconciling) × IsReconciled b)
    ⊎ (IsClosed a × (b ≡ a))
    ⊎ ((a ≢ unknown) × (a ≢ reconciling) × ¬ IsClosed a)

validate_state_transition_iff :
    (a b : ExecutionStatus) → (validate_state_transition a b ≡ true) ↔ MayFollow a b
unfolding validate_state_transition
validate_state_transition_iff a b = ground arith

only_machine :
    (a b : ExecutionStatus)
    → ((is_valid_transition a b ≡ true) × (validate_state_transition a b ≡ false)) ↔ (
        ((is_terminal a ≡ true) × (a ≢ confirmed) × (b ≡ confirmed))
        ⊎ ((a ≡ reconciling) × ((b ≡ reconciling) ⊎ (b ≡ acknowledged) ⊎ (b ≡ unknown))))
unfolding is_terminal is_valid_transition validate_state_transition
only_machine a b = ground arith

-- `validateStateTransition` returns for just these: UNKNOWN to RECONCILING; RECONCILING to confirmed,
-- failed, filled, partially filled, cancelled or rejected; one of filled, cancelled, rejected and
-- failed to itself; and every other status to any. The machine allows just these that it refuses:
-- the confirmation of an execution that is filled, cancelled, rejected or failed, and a
-- reconciliation that goes on, is acknowledged or falls back to UNKNOWN.
pub is_valid_transition-validate_state_transition :
    (a b : ExecutionStatus)
    → ((validate_state_transition a b ≡ true) ↔ MayFollow a b)
      × (((is_valid_transition a b ≡ true) × (validate_state_transition a b ≡ false)) ↔ (
          ((is_terminal a ≡ true) × (a ≢ confirmed) × (b ≡ confirmed))
          ⊎ ((a ≡ reconciling) × ((b ≡ reconciling) ⊎ (b ≡ acknowledged) ⊎ (b ≡ unknown)))))
is_valid_transition-validate_state_transition a b =
    (validate_state_transition_iff a b, only_machine a b)

-- What an accepted event does: nothing, or a valid transition under a later sequence number.
abbrev pub IsStep : ExecutionStateData → ExecutionStateData → Type 0
IsStep d d' =
    (d' ≡ d)
    ⊎ ((is_valid_transition d.status d'.status ≡ true) × (d.last_sequence < d'.last_sequence))

passed :
    (a b c v : Bool) (x y : Result StateError ExecutionStateData) {d' : ExecutionStateData}
    → (if not a
        then err wrong_execution
        else (if b
            then err stale_sequence
            else (if c then x else (if v then y else err invalid_transition))))
      ≡ ok d'
    → (x ≡ ok d') ⊎ ((b ≡ false) × (c ≡ false) × (v ≡ true) × (y ≡ ok d'))
passed a b c v x y h = ground arith

later : (a b : ℕ) → ltb a b ≡ false → (a == b) ≡ false → b < a
later a b h k = ground arith

ok_data :
    {a b : ExecutionStateData}
    → ◌≡◌ {A = Result StateError ExecutionStateData} (ok a) (ok b)
    → a ≡ b
ok_data h = cc

-- Where a run may lead: to a sequence number that is not lower, and from a status that is filled,
-- cancelled, rejected, failed or confirmed only to itself or to confirmed; from confirmed only to
-- itself.
abbrev pub IsLater : ExecutionStateData → ExecutionStateData → Type 0
IsLater d d' =
    (d.last_sequence ≤ d'.last_sequence)
    × ((is_terminal d.status ≡ false) ⊎ (d'.status ≡ d.status) ⊎ (d'.status ≡ confirmed))

same-IsLater : (d d' : ExecutionStateData) → d ≡ d' → IsLater d d'
same-IsLater d d' h =
    (omega (arith, ap (λ z. z.last_sequence) h), inr (inl (ap (λ z. z.status) (sym h))))

confirmed_terminal : {s : ExecutionStatus} → s ≡ confirmed → is_terminal s ≡ true
unfolding is_terminal
confirmed_terminal e = ground arith

stays_confirmed :
    {s t : ExecutionStatus}
    → s ≡ confirmed
    → (is_terminal s ≡ false) ⊎ (t ≡ s) ⊎ (t ≡ confirmed)
    → t ≡ confirmed
stays_confirmed e (inl h) = absurd (ground (arith, confirmed_terminal e))
stays_confirmed e (inr (inl h)) = h ∙ e
stays_confirmed e (inr (inr h)) = h

step-IsLater :
    (d one d' : ExecutionStateData)
    → is_valid_transition d.status one.status ≡ true
    → d.last_sequence < one.last_sequence
    → IsLater one d'
    → IsLater d d'
step-IsLater d one d' valid rises later_on = elim (Bool-cases (is_terminal d.status)) [
  | inl terminal ↦ (
    omega (arith, later_on.0, rises),
    inr (inr (stays_confirmed (terminal_next d.status one.status terminal valid).0 later_on.1)),
  )
  | inr going ↦ (omega (arith, later_on.0, rises), inl going)
]

module _ (N : Numbers) where
  advance_ok :
      (d : ExecutionStateData) (e : ExecutionStateEvent) {d' : ExecutionStateData}
      → advance N d e ≡ ok d'
      → (d'.status ≡ e.new_state) × (d'.last_sequence ≡ e.sequence)
  unfolding advance
  advance_ok d e h =
      let (fill, _, more) =
        >>=_passed
          (next_fill N e.filled_quantity (N.number_of d.filled_quantity)
            (N.number_of d.requested_quantity))
          _ h in
      let (_, _, more') = >>=_passed (check_price N e.average_price) _ more in
      let (_, _, same) = >>=_passed (check_reconciliation N d e) _ more' in (cc, cc)

  duplicate_ok :
      (d : ExecutionStateData) (e : ExecutionStateEvent) {d' : ExecutionStateData}
      → duplicate N d e ≡ ok d'
      → d' ≡ d
  unfolding duplicate
  duplicate_ok d e h = ground arith

  -- An event that is accepted leaves the execution as it is, or moves it by a valid transition to a
  -- later sequence number.
  pub apply_event-IsStep :
      (d : ExecutionStateData) (e : ExecutionStateEvent) (d' : ExecutionStateData)
      → apply_event N d e ≡ ok d'
      → IsStep d d'
  unfolding apply_event
  apply_event-IsStep d e d' h =
      elim (passed (e.execution_id == d.execution_id) (ltb e.sequence d.last_sequence)
        (e.sequence == d.last_sequence) (is_valid_transition d.status e.new_state) (duplicate N d e)
        (advance N d e) h) [
          | inl same ↦ inl (duplicate_ok d e same)
          | inr (not_stale, not_same, valid, done) ↦
              let (status, seq) = advance_ok d e done in
              inr (
                subst (λ s. is_valid_transition d.status s ≡ true) (sym status) valid,
                subst (λ n. d.last_sequence < n) (sym seq)
                    (later e.sequence d.last_sequence not_stale not_same),
              )
        ]

  -- The events that an execution accepts, one after the other.
  unfoldable pub run_events :
      ExecutionStateData → List ExecutionStateEvent → Result StateError ExecutionStateData
  run_events d [] = ok d
  run_events d (e ∷ es) = do d' ← apply_event N d e; run_events d' es

  -- However many events are accepted, the sequence number never falls, and an execution that is
  -- filled, cancelled, rejected, failed or confirmed keeps its status or becomes confirmed.
  pub run_events-IsLater :
      (d : ExecutionStateData) (es : List ExecutionStateEvent) (d' : ExecutionStateData)
      → run_events d es ≡ ok d'
      → IsLater d d'
  unfolding run_events
  run_events-IsLater d [] d' h = same-IsLater d d' (ok_data h)
  run_events-IsLater d (e ∷ es) d' h =
      let (one, first, rest) = >>=_passed (apply_event N d e) _ h in
      elim (apply_event-IsStep d e one first) [
        | inl same ↦ subst (λ z. IsLater z d') same (run_events-IsLater one es d' rest)
        | inr (valid, rises) ↦ step-IsLater d one d' valid rises (run_events-IsLater one es d' rest)
      ]
