-- ===== src/FrontierRepo/Lifecycle.antt =====
-- What the crawl queue promises its callers: a URL's life, and the moves each call may make.
use crawlerv.Prelude.{ℕ, ◌≡◌, ◌⊎◌, true, Option, some, List, [], ◌∷◌, map, Bytes}
use mathlib.Core.List.{Memᴰ}
use crawlerv.Store.Rows.{Status, queued, leased, done, failed, dead, Frontier}
use crawlerv.Store.World.{Db}
use crawlerv.FrontierRepo.Types.{Job}
use crawlerv.FrontierRepo.Calls.{Call}

-- A URL waits, is held by a worker under a token, or is finished, dropped or buried.
pub data Life : Type 0 where
  waiting finished dropped buried : Life
  held : Option ℕ → Option Bytes → Life

abbrev pub life_of : Status → Option ℕ → Option Bytes → Life
life_of queued n t = waiting
life_of leased n t = held n t
life_of done n t = finished
life_of failed n t = dropped
life_of dead n t = buried

pub record Url : Type 0 where
  pub hash : Bytes
  pub life : Life

abbrev pub url_of : Frontier → Url
url_of r = record { hash = r.url_hash; life = life_of r.status r.leased_by_worker_id r.lease_token }

-- The queue without its dates, counters and texts.
abbrev pub view : Db → List Url
view d = map url_of d.crawl_frontier

-- The life that one move of a call may give to the URL `u`.
abbrev pub Move : Call → Url → Life → Type 0
Move (Call.reserves now db_now worker caps batch ttl) u to =
    (u.life ≡ waiting) × ((t : Bytes) × (to ≡ held (some worker) (some t)))
Move (Call.completes now h t code) u to =
    (u.hash ≡ h) × ((n : Option ℕ) × (u.life ≡ held n (some t))) × (to ≡ finished)
Move (Call.fails now h t f backoff) u to =
    (u.hash ≡ h)
    × ((n : Option ℕ) × (u.life ≡ held n (some t)))
    × ((to ≡ buried) ⊎ ((to ≡ waiting) × (f.retryable ≡ true)))
Move (Call.sweeps now) u to =
    ((n : Option ℕ) × (t : Option Bytes) × (u.life ≡ held n t)) × (to ≡ waiting)
Move (Call.requeues f) u to = to ≡ waiting
Move _ u to = ⊥

-- Whether a call brings the URL into the queue.
abbrev pub Brings : Call → Bytes → Type 0
Brings (Call.enqueues now j) h = h ≡ j.url_hash
Brings (Call.enqueues_many now js) h = (j : Job) × Memᴰ j js × (h ≡ j.url_hash)
Brings _ h = ⊥

-- One URL moves, or a new one waits at the end.
pub data Step (c : Call) : List Url → List Url → Type 0 where
  moves :
      {u : Url} {to : Life} {us : List Url}
      → Move c u to
      → Step c (u ∷ us) (record u { life = to } ∷ us)
  joins : {h : Bytes} → Brings c h → Step c [] (record { hash = h; life = waiting } ∷ [])
  passes : {u : Url} {us vs : List Url} → Step c us vs → Step c (u ∷ us) (u ∷ vs)

pub data Steps (c : Call) : List Url → List Url → Type 0 where
  rest : {us : List Url} → Steps c us us
  next : {us vs ws : List Url} → Step c us vs → Steps c vs ws → Steps c us ws

-- A history: each call in its turn makes some moves.
abbrev pub Trace : List Call → List Url → List Url → Type 0
Trace [] us ws = us ≡ ws
Trace (c ∷ cs) us ws = (vs : List Url) × Steps c us vs × Trace cs vs ws
