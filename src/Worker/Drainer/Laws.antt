-- ===== src/Worker/Drainer/Laws.antt =====
-- internal/worker/drainer.go: the waiting times of the drainer.
use hookfly.Base.{Bool, true, false, ◌≤◌, Bool-cases, inl, inr, arith, ltb, ◌*◌}
use hookfly.Domain.{Millis}
use hookfly.Worker.Drainer.{next_pause}

-- From a retry delay between the minimum and the maximum, the next retry delay is again between them
-- and the drainer waits for at most the maximum.
pub next_pause-bounded :
    (failed processed : Bool) (retry : Millis)
    → 100 ≤ retry
    → retry ≤ 5000
    → (100 ≤ (next_pause failed processed retry).retry)
      × ((next_pause failed processed retry).retry ≤ 5000)
      × ((next_pause failed processed retry).wait ≤ 5000)
unfolding next_pause
next_pause-bounded true processed retry l h = elim (Bool-cases (ltb 5000 (retry * 2))) [
  | inl e ↦ rw (e, next_pause) (ground arith)
  | inr e ↦ rw (e, next_pause) (ground arith)
]
next_pause-bounded false true retry l h = ground arith
next_pause-bounded false false retry l h = ground arith
