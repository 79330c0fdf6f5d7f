-- ===== src/Loop/Agent.antt =====
-- cli/run.py: `_AsyncAgent` and `_AgentScheduler`. A future is pending until the worker thread, which
-- is no part of the loop's own steps, ends its call with decisions or an exception. A time is in
-- microseconds.
use Prim.Native.String.{◌++◌}
use Prim.Native.Nat.{◌-◌ as ◌-ℕ◌}
use agora_perp_agent.Prelude.{ℕ, Bool, true, false, Option, none, some, [], if◌then◌else◌, leb}
use agora_perp_agent.Prelude.Errors.{Result, ok, err}
use agora_perp_agent.Float.Ops.{Float, lit, neg, ◌>=?◌}
use agora_perp_agent.Contracts.{AgentState, Decisions}
use agora_perp_agent.Synthesis.Formats.{Formats}

pub data Future (F : Type 0) : Type 0 where
  pending : AgentState F → Future F
  done : Result (Decisions F) → Future F

-- The attribute `_future`.
abbrev pub AsyncAgent : Type 0 → Type 0
AsyncAgent F = Option (Future F)

pub record Scheduler (F : Type 0) : Type 0 where
  pub period_s : F
  pub last_started : Option ℕ
  pub last_completed : Option ℕ
  pub last_decisions : Decisions F

module _ {F : Type 0} where
  abbrev pub in_flight : AsyncAgent F → Bool
  in_flight none = false
  in_flight (some (pending state)) = true
  in_flight (some (done r)) = false

  abbrev pub start : AgentState F → AsyncAgent F → AsyncAgent F
  start state agent = if in_flight agent then agent else some (pending state)

  -- What a call that ended is collected as.
  abbrev pub collected : Formats F → Result (Decisions F) → Decisions F
  collected fmt (ok decisions) = decisions
  collected fmt (err e) = record { decisions = []; summary = "agent error: " ++ fmt.message e }

  abbrev pub poll : Formats F → AsyncAgent F → Option (Decisions F) × AsyncAgent F
  poll fmt none = (none, none)
  poll fmt (some (pending state)) = (none, some (pending state))
  poll fmt (some (done r)) = (some (collected fmt r), none)

  -- The worker thread ends its call, if there is an outcome and a call.
  abbrev pub finish : Option (Result (Decisions F)) → AsyncAgent F → AsyncAgent F
  finish (some r) (some (pending state)) = some (done r)
  finish (some r) (some (done earlier)) = some (done earlier)
  finish (some r) none = none
  finish none agent = agent

  abbrev pub mark_started : ℕ → Scheduler F → Scheduler F
  mark_started now scheduler = record scheduler { last_started = some now }

  abbrev pub record_completion : ℕ → Decisions F → Scheduler F → Scheduler F
  record_completion now decisions scheduler = record scheduler {
    last_completed = some now;
    last_decisions = decisions;
  }

module _ {F : Type 0} ⦃f : Float F⦄ where
  -- `(later - earlier).total_seconds()`
  abbrev pub total_seconds : ℕ → ℕ → F
  total_seconds later earlier =
      if leb earlier later then lit (later -ℕ earlier) 6 else neg (lit (earlier -ℕ later) 6)

  abbrev pub should_call : Scheduler F → ℕ → Bool
  should_call scheduler now = elim scheduler.last_started [
    | none ↦ true
    | some started ↦ total_seconds now started >=? scheduler.period_s
  ]
