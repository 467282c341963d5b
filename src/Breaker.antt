-- ===== src/Breaker.antt =====
-- server/src/services/system/circuit-breaker.service.ts with models/system.model.ts: the switch that
-- halts trading, withdrawals and deposits. Each server holds the last state it has read or written
-- for three seconds; the row of system_circuit_breakers is shared.
pub mod Laws
mod Tests
use novacex.Prelude.{
  ℕ, ◌-◌, Bool, true, false, ◌&&◌, Option, none, some, List, [], ◌∷◌, ◌++◌, ltb, if◌then◌else◌,
}
use novacex.Prelude.Result.{Result, err, ok}
use novacex.Decimal.{Text, trim}

pub data Mode : Type 0 where
  system_active halt_all halt_trading halt_withdrawals custom : Mode

pub data Subsystem : Type 0 where
  spot_trading futures_trading withdrawals deposits : Subsystem

-- `SystemCircuitBreakerEntity`, less its constant id and its time.
pub record Breaker : Type 0 where
  pub mode : Mode
  pub is_spot_trading_enabled : Bool
  pub is_futures_trading_enabled : Bool
  pub is_withdrawals_enabled : Bool
  pub is_deposits_enabled : Bool
  pub halt_reason : Option Text
  pub halted_by : Option ℕ

-- An entry of the audit log: whether it is a halt, who, the states before and after, and why.
pub record AuditEntry : Type 0 where
  pub is_halt : Bool
  pub admin_user : ℕ
  pub previous_state : Breaker
  pub new_state : Breaker
  pub reason : Text

-- What the servers share; a query throws when the database is not reachable.
pub record Database : Type 0 where
  pub is_reachable : Bool
  pub row : Option Breaker
  pub audit : List AuditEntry

-- The fields of a server's service.
pub record Node : Type 0 where
  pub cached_state : Option Breaker
  pub cached_at : ℕ

pub data BreakerError : Type 0 where
  missing_reason invalid_halt_mode database_error : BreakerError

abbrev pub cache_ttl_ms : ℕ
cache_ttl_ms = 3000

abbrev pub all_enabled : Bool → Mode → Option Text → Breaker
all_enabled b mode reason = record {
  mode = mode;
  is_spot_trading_enabled = b;
  is_futures_trading_enabled = b;
  is_withdrawals_enabled = b;
  is_deposits_enabled = b;
  halt_reason = reason;
  halted_by = none;
}

-- The reasons CIRCUIT_BREAKER_STATE_UNAVAILABLE and CIRCUIT_BREAKER_STATE_MISSING, by a number.
abbrev pub fail_closed : ℕ → Breaker
fail_closed reason = all_enabled false halt_all (some (reason ∷ []))

-- `row.haltReason || null`
abbrev pub reason_or_null : Option Text → Option Text
reason_or_null (some (c ∷ s)) = some (c ∷ s)
reason_or_null _ = none

-- What a query of the row gives.
unfoldable pub read_row : Bool → Option Breaker → Breaker
read_row production none = if production then fail_closed 1 else all_enabled true system_active none
read_row production (some b) = record b { halt_reason = reason_or_null b.halt_reason }

unfoldable pub query_state : Bool → Database → Breaker
query_state production db = if db.is_reachable then read_row production db.row else fail_closed 0

-- `this.cachedState && now - this.cachedAt < this.cacheTTLMs`, on the clock's numbers: a clock that
-- is behind the cache gives a negative age.
unfoldable pub cached : ℕ → Node → Option Breaker
cached now node = if ltb (now - node.cached_at) cache_ttl_ms then node.cached_state else none

abbrev pub remember : ℕ → Breaker → Node
remember now b = record { cached_state = some b; cached_at = now }

-- `getState`; `production` says whether NODE_ENV is production.
unfoldable pub get_state : Bool → ℕ → Database → Node → Breaker × Node
get_state production now db node = elim (cached now node) [
  | some b ↦ (b, node)
  | none ↦ (query_state production db, remember now (query_state production db))
]

abbrev pub enabled : Subsystem → Breaker → Bool
enabled spot_trading b = b.is_spot_trading_enabled
enabled futures_trading b = b.is_futures_trading_enabled
enabled withdrawals b = b.is_withdrawals_enabled
enabled deposits b = b.is_deposits_enabled

-- `isSubsystemOperational`, its first field
unfoldable pub is_subsystem_operational : Bool → ℕ → Database → Node → Subsystem → Bool
is_subsystem_operational production now db node s = enabled s (get_state production now db node).0

-- `HaltCircuitBreakerDto` and `ResumeCircuitBreakerDto`; a flag may be left out.
pub record Command : Type 0 where
  pub admin_user : ℕ
  pub mode : Mode
  pub resume_all : Bool
  pub reason : Text
  pub spot : Option Bool
  pub futures : Option Bool
  pub withdrawals_flag : Option Bool
  pub deposits_flag : Option Bool

abbrev pub flag_or : Option Bool → Bool → Bool
flag_or none d = d
flag_or (some b) d = b

abbrev pub flags : Mode → Bool → Bool → Bool → Bool → Option Text → Option ℕ → Breaker
flags mode spot futures w d reason by = record {
  mode = mode;
  is_spot_trading_enabled = spot;
  is_futures_trading_enabled = futures;
  is_withdrawals_enabled = w;
  is_deposits_enabled = d;
  halt_reason = reason;
  halted_by = by;
}

-- The row that a halt writes, by its mode and the state before.
unfoldable pub halted : Mode → Command → Breaker → Result BreakerError Breaker
halted halt_all c b =
    ok (flags halt_all false false false false (some (trim c.reason)) (some c.admin_user))
halted halt_trading c b = ok (
    flags halt_trading false false (flag_or c.withdrawals_flag true) (flag_or c.deposits_flag true)
      (some (trim c.reason)) (some c.admin_user))
halted halt_withdrawals c b = ok (
    flags halt_withdrawals (flag_or c.spot true) (flag_or c.futures true) false
      (flag_or c.deposits_flag true) (some (trim c.reason)) (some c.admin_user))
halted custom c b = ok (
    flags custom (flag_or c.spot b.is_spot_trading_enabled)
      (flag_or c.futures b.is_futures_trading_enabled)
      (flag_or c.withdrawals_flag b.is_withdrawals_enabled)
      (flag_or c.deposits_flag b.is_deposits_enabled) (some (trim c.reason)) (some c.admin_user))
halted system_active c b = err invalid_halt_mode

custom_flags : Bool → Bool → Bool → Bool → Breaker
custom_flags s f w d = flags (if s && f && w && d then system_active else custom) s f w d none none

-- The row that a resumption writes.
unfoldable pub resumed : Command → Breaker → Breaker
unfolding custom_flags
resumed c b =
    if c.resume_all
    then all_enabled true system_active none
    else custom_flags (flag_or c.spot b.is_spot_trading_enabled)
        (flag_or c.futures b.is_futures_trading_enabled)
        (flag_or c.withdrawals_flag b.is_withdrawals_enabled)
        (flag_or c.deposits_flag b.is_deposits_enabled)

abbrev pub is_blank : Text → Bool
is_blank [] = true
is_blank (c ∷ s) = false

abbrev pub audit_entry : Bool → Command → Breaker → Breaker → AuditEntry
audit_entry is_halt c before after = record {
  is_halt = is_halt;
  admin_user = c.admin_user;
  previous_state = before;
  new_state = after;
  reason = trim c.reason;
}

-- The write, the cache and the audit entry.
unfoldable pub write_state :
    Bool
    → ℕ
    → Command
    → Breaker
    → Breaker
    → Database
    → Node
    → Result BreakerError Breaker × Database × Node
write_state is_halt now c before after db node =
    let log = audit_entry is_halt c before after in
    if db.is_reachable
    then (
      ok after,
      record db { row = some after; audit = db.audit ++ log ∷ [] },
      remember now after,
    )
    else (err database_error, db, node)

-- `halt`
unfoldable pub halt :
    Bool → ℕ → Command → Database → Node → Result BreakerError Breaker × Database × Node
halt production now c db node =
    let (before, node') = get_state production now db node in
    if is_blank (trim c.reason)
    then (err missing_reason, db, node)
    else elim (halted c.mode c before) [
      | err e ↦ (err e, db, node')
      | ok after ↦ write_state true now c before after db node'
    ]

-- `resume`
unfoldable pub resume :
    Bool → ℕ → Command → Database → Node → Result BreakerError Breaker × Database × Node
resume production now c db node =
    let (before, node') = get_state production now db node in
    if is_blank (trim c.reason)
    then (err missing_reason, db, node)
    else write_state false now c before (resumed c before) db node'
