-- ===== src/Ghost/Worker.antt =====
-- The thread of StartReplicationUploadWorker (system/common_src/GhostSystem.cpp), on fuel. `running n` is
-- what the thread reads before its n-th round, which the destructor sets, and `others n` what the other
-- threads do to the ghosts while it sleeps.
use celte_system.Prelude.{
  ℕ, zero, suc, ◌+◌, ◌≤◌, ◌<◌, ◌≡◌, refl, ap, sym, ◌∙◌, Bool, true, false, String, List, [], ◌∷◌,
  ◌++◌, Option, none, some, value_or, if◌then◌else◌, arith,
}
use celte_system.Prelude.Assoc.{Assoc}
use celte_system.Prelude.HashMap.{HashMap}
use celte_system.Config
use celte_system.Config.{Config}
use celte_system.Ghost.Defs.{Update, Ghosts}
use celte_system.Ghost.Replicate.{upload_round}

-- The interval that is read when the worker starts; atoi gives 0 for a text that is no number, and a
-- negative number counts as 0, since the thread then does not sleep.
unfoldable replication_interval : (atoi : String → ℕ) (env : String → Option String) → Config → ℕ
replication_interval atoi env config =
    atoi (value_or (Config.get env config "REPLICATION_INTERVAL") "100")

module _ ⦃h : HashMap⦄ where
  -- The ghosts, the packets of each round, and the time slept in milliseconds.
  pub record UploadThread : Type 0 where
    pub ghosts : Ghosts
    pub rounds : List (Assoc Update)
    pub slept : ℕ

  module _ (interval : ℕ) (has_writer : String → Bool) (others : ℕ → Ghosts → Ghosts) where
    unfoldable one_round : ℕ → UploadThread → UploadThread
    one_round n w =
        let (left, packets) = upload_round has_writer (others n w.ghosts) in
        record { ghosts = left; rounds = w.rounds ++ (packets ∷ []); slept = w.slept + interval }

    unfoldable replication_upload_worker :
        (fuel : ℕ) → (running : ℕ → Bool) → ℕ → UploadThread → Option UploadThread
    replication_upload_worker zero running n w = none
    replication_upload_worker (suc fuel) running n w =
        let rest = replication_upload_worker fuel running (suc n) (one_round n w) in
        if running n then rest else some w

    unfoldable all_rounds : (k n : ℕ) → UploadThread → UploadThread
    all_rounds zero n w = w
    all_rounds (suc k) n w = all_rounds k (suc n) (one_round n w)

    -- The thread ends after the round in which the flag is cleared, so that the join of the
    -- destructor returns: where the flag is set before k rounds and not before the next one, it
    -- makes these k rounds.
    replication_upload_worker-ends :
        (k n : ℕ) (running : ℕ → Bool) (w : UploadThread)
        → ((i : ℕ) → n ≤ i → i < n + k → running i ≡ true)
        → running (n + k) ≡ false
        → replication_upload_worker (suc k) running n w ≡ some (all_rounds k n w)
    unfolding replication_upload_worker all_rounds
    replication_upload_worker-ends zero n running w set cleared =
        let e : n + 0 ≡ n = omega arith in
        let stops : running n ≡ false = ap running (sym e) ∙ cleared in
        rw (stops, replication_upload_worker) refl
    replication_upload_worker-ends (suc k) n running w set cleared =
        let e : suc n + k ≡ n + suc k = omega arith in
        let goes : running n ≡ true = set n (omega arith) (omega arith) in
        rw (goes, replication_upload_worker)
          (replication_upload_worker-ends k (suc n) running (one_round n w)
            (λ i lo hi. set i (omega (arith, lo)) (omega (arith, hi))) (ap running e ∙ cleared))
