-- ===== src/Tests/Pushes.antt =====
-- A repository that cannot reach its remote.
use agora_perp_agent.Prelude.{
  ap, sym, subst, arith, ℕ, ◌≡◌, refl, true, false, not, none, [], ◌∷◌, leb, ◌&&◌, Bool,
}
use agora_perp_agent.Prelude.Errors.{ok, err, called_process}
use agora_perp_agent.Pusher.{Git, AutoPusher, idle, git_error, push_once, push_rounds}
use agora_perp_agent.Pusher.Retry.{IsGit, unpushed_not_retried}

-- The versions of the file on the disk, in the index, in the last commit and at the remote.
record Repo : Type 0 where
  file : ℕ
  index : ℕ
  head : ℕ
  remote : ℕ

abbrev same : ℕ → ℕ → Bool
same a b = leb a b && leb b a

abbrev offline : Git Repo
offline = record {
  has_snapshot = λ s. true;
  add = λ s. (ok tt, record s { index = s.file });
  diff_is_empty = λ s. ok (same s.index s.head);
  commit = λ message s. (ok tt, record s { head = s.index });
  push = λ branch s. (err called_process, s);
}

same_refl : (a : ℕ) → same a a ≡ true
same_refl a = ground arith

same_eq : (a b : ℕ) → not (same a b) ≡ false → a ≡ b
same_eq a b h = ground arith

abbrev offline-IsGit : IsGit offline
offline-IsGit = record {
  is_modified = λ s. not (same s.file s.index);
  add_same = λ s h. ap (λ i. (ok tt, record s { index = i })) (same_eq s.file s.index h);
  commit_empties = λ message s s' e.
      subst (λ r. ok (same r.index r.head) ≡ ok true) (ap (λ r. r.1) e) (ap ok (same_refl s.index));
  failed_push = λ branch s s' e. sym (ap (λ r. r.1) e);
}

abbrev pusher : AutoPusher
pusher = record { branch = none; prefix = "snapshot"; last_push_at = none; last_status = idle }

abbrev written : Repo
written = record { file = 2; index = 1; head = 1; remote = 1 }

abbrev committed : Repo
committed = record { file = 2; index = 2; head = 2; remote = 1 }

unpushed_not_retried_example :
    (push_once offline pusher "10:00" written ≡ (ok git_error, committed))
    × ((push_rounds offline ((11, "10:05") ∷ (12, "10:10") ∷ []) pusher committed).1 ≡ committed)
unpushed_not_retried_example =
    unpushed_not_retried offline offline-IsGit pusher "10:00" written
      (record { file = 2; index = 2; head = 1; remote = 1 }) committed committed
      ((11, "10:05") ∷ (12, "10:10") ∷ []) refl refl refl refl refl refl refl
