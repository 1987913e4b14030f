-- ===== src/WriteQueue/Places.antt =====
-- The places of writes in the queue of src/process-write.ts: they go up.
use agentmixer.Prelude.{ℕ, suc, ◌≤◌, List, [], ◌∷◌, ◌++◌, arith}
use agentmixer.WriteQueue.{Job}

-- Places from `lo` on that go up, all below `hi`.
unfoldable pub Rising : ℕ → List Job → ℕ → Type 0
Rising lo [] hi = lo ≤ hi
Rising lo (job ∷ jobs) hi = (lo ≤ job.id) × Rising (suc job.id) jobs hi

pub Rising-append :
    (lo hi : ℕ) (jobs : List Job) (job : Job)
    → Rising lo jobs hi
    → hi ≤ job.id
    → Rising lo (jobs ++ job ∷ []) (suc job.id)
unfolding Rising
Rising-append lo hi [] job h last = (omega (arith, h, last), omega arith)
Rising-append lo hi (j ∷ jobs) job h last = (h.0, Rising-append (suc j.id) hi jobs job h.1 last)

pub Rising-weaken :
    (lo hi top : ℕ) (jobs : List Job) → Rising lo jobs hi → hi ≤ top → Rising lo jobs top
unfolding Rising
Rising-weaken lo hi top [] h up = omega (arith, h, up)
Rising-weaken lo hi top (j ∷ jobs) h up = (h.0, Rising-weaken (suc j.id) hi top jobs h.1 up)

pub Rising-bounds : (lo hi : ℕ) (jobs : List Job) → Rising lo jobs hi → lo ≤ hi
unfolding Rising
Rising-bounds lo hi [] h = h
Rising-bounds lo hi (j ∷ jobs) h = omega (arith, h.0, Rising-bounds (suc j.id) hi jobs h.1)
