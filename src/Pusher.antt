-- ===== src/Pusher.antt =====
-- agent/auto_push.py: `AutoPusher`. git is an interface on a repository of any kind: each command returns
-- or raises, and leaves a repository.
pub mod Retry
use agora_perp_agent.Prelude.{
  ℕ, String, Bool, true, false, Option, none, some, List, [], ◌∷◌, if◌then◌else◌,
}
use Prim.Native.String.{◌++◌ as ◌+++◌}
use agora_perp_agent.Prelude.Errors.{Error, Result, ok, err, called_process, os_failure}
use agora_perp_agent.Float.Ops.{Float, lit, max}

pub record Git (S : Type 0) : Type 0 where
  -- whether the snapshot's file exists
  pub has_snapshot : S → Bool
  pub add : S → Result (Unit {0}) × S
  -- whether `diff --cached --quiet` ends with 0
  pub diff_is_empty : S → Result Bool
  pub commit : String → S → Result (Unit {0}) × S
  pub push : Option String → S → Result (Unit {0}) × S

pub data Status : Type 0 where
  idle no_snapshot nothing_to_push git_error os_error : Status
  pushed_at : String → Status

-- What the object keeps.
pub record AutoPusher : Type 0 where
  pub branch : Option String
  pub prefix : String
  pub last_push_at : Option ℕ
  pub last_status : Status

-- `_interval`
abbrev pub interval_of : {F : Type 0} ⦃f : Float F⦄ → F → F
interval_of push_every_s = max (lit 60 0) push_every_s

-- The two `except` clauses; any other exception ends the thread.
abbrev pub caught : Result Status → Result Status
caught (ok status) = ok status
caught (err called_process) = ok git_error
caught (err os_failure) = ok os_error
caught (err e) = err e

module _ {S : Type 0} (git : Git S) where
  abbrev pub after_push : String → Result (Unit {0}) × S → Result Status × S
  after_push ts (err e, s) = (err e, s)
  after_push ts (ok done, s) = (ok (pushed_at ts), s)

  abbrev pub after_commit : AutoPusher → String → Result (Unit {0}) × S → Result Status × S
  after_commit pusher ts (err e, s) = (err e, s)
  after_commit pusher ts (ok done, s) = after_push ts (git.push pusher.branch s)

  abbrev pub after_diff : AutoPusher → String → S → Result Bool → Result Status × S
  after_diff pusher ts s (err e) = (err e, s)
  after_diff pusher ts s (ok true) = (ok nothing_to_push, s)
  after_diff pusher ts s (ok false) =
      after_commit pusher ts (git.commit (pusher.prefix +++ " " +++ ts) s)

  abbrev pub after_add : AutoPusher → String → Result (Unit {0}) × S → Result Status × S
  after_add pusher ts (err e, s) = (err e, s)
  after_add pusher ts (ok done, s) = after_diff pusher ts s (git.diff_is_empty s)

  abbrev pub reported : Result Status × S → Result Status × S
  reported (r, s) = (caught r, s)

  -- `_push_once`, at a time and with its text: the status that it sets, if no exception leaves it, and the
  -- repository.
  unfoldable pub push_once : AutoPusher → String → S → Result Status × S
  push_once pusher ts s =
      if git.has_snapshot s then reported (after_add pusher ts (git.add s)) else (ok no_snapshot, s)

  -- The object after a round.
  abbrev pub noted_push : ℕ → Status → AutoPusher → AutoPusher
  noted_push now (pushed_at ts) pusher = record pusher {
    last_push_at = some now;
    last_status = pushed_at ts;
  }
  noted_push now status pusher = record pusher { last_status = status }

  abbrev pub next_round :
      (AutoPusher → S → AutoPusher × S) → ℕ → AutoPusher → Result Status × S → AutoPusher × S
  next_round rest now pusher (err e, s) = (pusher, s)
  next_round rest now pusher (ok status, s) = rest (noted_push now status pusher) s

  -- The loop of `_run`: a round at each of the times, until an exception ends the thread.
  unfoldable pub push_rounds : List (ℕ × String) → AutoPusher → S → AutoPusher × S
  unfolding push_once
  push_rounds [] pusher s = (pusher, s)
  push_rounds ((now, ts) ∷ times) pusher s =
      next_round (push_rounds times) now pusher (push_once pusher ts s)
