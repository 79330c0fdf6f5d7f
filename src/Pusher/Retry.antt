-- ===== src/Pusher/Retry.antt =====
-- A commit whose push failed is not pushed by the later rounds.
use agora_perp_agent.Prelude.{ℕ, String, ◌≡◌, refl, Bool, true, false, Option, List, [], ◌∷◌}
use Prim.Native.String.{◌++◌ as ◌+++◌}
use agora_perp_agent.Prelude.Errors.{ok, err, called_process}
use agora_perp_agent.Pusher.{
  Git, AutoPusher, nothing_to_push, git_error, noted_push, push_once, push_rounds,
}

-- What git documents of these commands: staging a file that is as it was staged changes nothing; after
-- a commit of the file nothing is staged; a push that fails leaves the repository as it was.
pub record IsGit {S : Type 0} (git : Git S) : Type 0 where
  pub is_modified : S → Bool
  pub add_same : (s : S) → is_modified s ≡ false → git.add s ≡ (ok tt, s)
  pub commit_empties :
      (message : String) (s s' : S)
      → git.commit message s ≡ (ok tt, s')
      → git.diff_is_empty s' ≡ ok true
  pub failed_push :
      (branch : Option String) (s s' : S) → git.push branch s ≡ (err called_process, s') → s' ≡ s

module _ {S : Type 0} (git : Git S) (laws : IsGit git) where
  idle_rounds :
      (times : List (ℕ × String)) (pusher : AutoPusher) (s : S)
      → git.has_snapshot s ≡ true
      → laws.is_modified s ≡ false
      → git.diff_is_empty s ≡ ok true
      → (push_rounds git times pusher s).1 ≡ s
  unfolding push_rounds push_once
  idle_rounds [] pusher s there same empty = refl
  idle_rounds ((now, ts) ∷ times) pusher s there same empty =
      simp (push_rounds, push_once, there, laws.add_same s same, empty)
        (idle_rounds times (noted_push git now nothing_to_push pusher) s there same empty)

  -- Where a round has made a commit and its push fails, the round's status says so, and however many
  -- rounds follow while the snapshot's file is not written again, none of them pushes: they leave the
  -- repository as it is, with the commit not pushed.
  pub unpushed_not_retried :
      (pusher : AutoPusher) (ts : String) (s staged committed after : S) (times : List (ℕ × String))
      → git.has_snapshot s ≡ true
      → git.add s ≡ (ok tt, staged)
      → git.diff_is_empty staged ≡ ok false
      → git.commit (pusher.prefix +++ " " +++ ts) staged ≡ (ok tt, committed)
      → git.push pusher.branch committed ≡ (err called_process, after)
      → git.has_snapshot after ≡ true
      → laws.is_modified after ≡ false
      → (push_once git pusher ts s ≡ (ok git_error, committed))
        × ((push_rounds git times pusher committed).1 ≡ committed)
  unfolding push_once
  unpushed_not_retried pusher ts s staged committed after times there added differs commits fails
        still same =
      let kept : after ≡ committed = laws.failed_push pusher.branch committed after fails in
      (
        simp (push_once, there, added, differs, commits, fails, kept) refl,
        idle_rounds times pusher committed (rw kept at still) (rw kept at same)
            (laws.commit_empties _ staged committed commits),
      )
