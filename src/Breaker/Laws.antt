-- ===== src/Breaker/Laws.antt =====
-- Halts, resumptions, and the state that each server has in its cache (circuit-breaker.service.ts).
use novacex.Prelude.{ℕ, ◌+◌, ◌≤◌, ◌≡◌, ◌⊎◌, ap, ◌∙◌, Bool, true, false, none, some, arith}
use novacex.Prelude.Result.{ok}
use novacex.Decimal.{trim}
use novacex.Breaker.{
  halt_all, Subsystem, spot_trading, futures_trading, withdrawals, deposits, Breaker, Database,
  Node, Command, flags, all_enabled, read_row, query_state, cached, get_state, enabled,
  is_subsystem_operational, halted, write_state, halt, resume, resumed, system_active, remember,
}

-- What a halt that succeeds leaves behind.
abbrev pub IsWritten : ℕ → Breaker → Database → Node → Type 0
IsWritten now b db node = (db.is_reachable ≡ true) × (db.row ≡ some b) × (node ≡ remember now b)

write-IsWritten :
    (is_halt : Bool) (now : ℕ) (c : Command) (before after : Breaker) (db : Database) (node : Node)
    (b : Breaker)
    → (write_state is_halt now c before after db node).0 ≡ ok b
    → (b ≡ after)
      × IsWritten now b
          (write_state is_halt now c before after db node).1
          (write_state is_halt now c before after db node).2
unfolding write_state
write-IsWritten is_halt now c before after db node b h = ground arith

-- Nothing is enabled.
abbrev pub IsOff : Breaker → Type 0
IsOff b =
    (b.is_spot_trading_enabled ≡ false)
    × (b.is_futures_trading_enabled ≡ false)
    × (b.is_withdrawals_enabled ≡ false)
    × (b.is_deposits_enabled ≡ false)

off : (s : Subsystem) (b : Breaker) → IsOff b → enabled s b ≡ false
off spot_trading b h = h.0
off futures_trading b h = h.1
off withdrawals b h = h.2
off deposits b h = h.3

-- The row of HALT_ALL.
abbrev all_off : Command → Breaker
all_off c = flags halt_all false false false false (some (trim c.reason)) (some c.admin_user)

halt-IsWritten :
    (production : Bool) (now : ℕ) (c : Command) (db : Database) (node : Node) (b : Breaker)
    → c.mode ≡ halt_all
    → (halt production now c db node).0 ≡ ok b
    → IsOff b × IsWritten now b (halt production now c db node).1 (halt production now c db node).2
unfolding halt halted
halt-IsWritten production now c db node b mode h =
    let before = (get_state production now db node).0 in
    let node' = (get_state production now db node).1 in
    ground (arith, write-IsWritten true now c before (all_off c) db node' b)

query-IsOff :
    (production : Bool) (db : Database) (b : Breaker)
    → db.row ≡ some b
    → IsOff b
    → IsOff (query_state production db)
unfolding query_state read_row
query-IsOff production db b h off_b = ground arith

-- A server that has the state in its cache, or whose cache has expired.
abbrev pub HasSeen : ℕ → ℕ → Breaker → Node → Type 0
HasSeen now later b node = (node ≡ remember now b) ⊎ (node.cached_at + 3000 ≤ later)

get-IsOff :
    (production : Bool) (now later : ℕ) (db : Database) (node : Node) (b : Breaker)
    → db.row ≡ some b
    → IsOff b
    → HasSeen now later b node
    → IsOff (get_state production later db node).0
unfolding get_state cached
get-IsOff production now later db node b row off_b seen =
    let q = query-IsOff production db b row off_b in ground (arith, q)

-- After a HALT_ALL that succeeds nothing is operational: at any later time, whether the database
-- can be reached then or not, on the server that made the halt and on every server whose cached
-- state is three seconds old, as long as no other command has written the row.
pub halt-is_subsystem_operational :
    (production : Bool) (now : ℕ) (c : Command) (db : Database) (node : Node) (b : Breaker)
    (later : ℕ) (reachable : Bool) (other : Node) (s : Subsystem)
    → c.mode ≡ halt_all
    → (halt production now c db node).0 ≡ ok b
    → HasSeen now later b other
    → is_subsystem_operational production later
        (record ((halt production now c db node).1) { is_reachable = reachable })
        other
        s
      ≡ false
unfolding is_subsystem_operational
halt-is_subsystem_operational production now c db node b later reachable other s mode h seen =
    let (off_b, written) = halt-IsWritten production now c db node b mode h in
    off s _ (
      get-IsOff production now later
        (record ((halt production now c db node).1) { is_reachable = reachable }) other b written.1
        off_b seen)

resume-IsWritten :
    (production : Bool) (now : ℕ) (c : Command) (db : Database) (node : Node) (b : Breaker)
    → c.resume_all ≡ true
    → (resume production now c db node).0 ≡ ok b
    → (b ≡ all_enabled true system_active none)
      × IsWritten now b (resume production now c db node).1 (resume production now c db node).2
unfolding resume resumed
resume-IsWritten production now c db node b all h =
    let before = (get_state production now db node).0 in
    let node' = (get_state production now db node).1 in
    ground
      (arith, write-IsWritten false now c before (all_enabled true system_active none) db node' b)

on : (s : Subsystem) (b : Breaker) → b ≡ all_enabled true system_active none → enabled s b ≡ true
on spot_trading b h = ap (λ x. x.is_spot_trading_enabled) h
on futures_trading b h = ap (λ x. x.is_futures_trading_enabled) h
on withdrawals b h = ap (λ x. x.is_withdrawals_enabled) h
on deposits b h = ap (λ x. x.is_deposits_enabled) h

get_state-seen :
    (production : Bool) (now later : ℕ) (db : Database) (node : Node) (b : Breaker)
    → db.is_reachable ≡ true
    → db.row ≡ some b
    → b.halt_reason ≡ none
    → HasSeen now later b node
    → (get_state production later db node).0 ≡ b
unfolding get_state cached query_state read_row
get_state-seen production now later db node b reach row no_reason seen = ground arith

-- After a resumption of everything that succeeds, every subsystem is operational on the server that
-- made it, and on every server whose cached state is three seconds old, as long as the database is
-- reached and no other command has written the row.
pub resume-is_subsystem_operational :
    (production : Bool) (now : ℕ) (c : Command) (db : Database) (node : Node) (b : Breaker)
    (later : ℕ) (other : Node) (s : Subsystem)
    → c.resume_all ≡ true
    → (resume production now c db node).0 ≡ ok b
    → HasSeen now later b other
    → is_subsystem_operational production later (resume production now c db node).1 other s ≡ true
unfolding is_subsystem_operational
resume-is_subsystem_operational production now c db node b later other s all h seen =
    let (same, written) = resume-IsWritten production now c db node b all h in
    ap (enabled s) (
      get_state-seen production now later (resume production now c db node).1 other b written.0
        written.1 (ap (λ x. x.halt_reason) same) seen)
    ∙ on s b same
