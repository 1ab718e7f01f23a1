-- ===== src/Dispatcher/Cached.antt =====
-- What `lookup` answers while the cache lives and after it.
use crawlerv.Prelude.{ℕ, ◌≤◌, Bool, ◌&&◌, Option, List, [], ◌∷◌, Bytes, bytes_eq}
use crawlerv.Dispatcher.Triggers.{Trigger, Dispatcher, lookup}

-- The triggers that an event fires.
abbrev pub is_for : Bytes → Trigger → Bool
is_for evt t = t.enabled && bytes_eq t.when_event evt

-- A call of `lookup`, with what its readings of the clock and of the table give.
pub record Look : Type 0 where
  pub first : ℕ
  pub locked : ℕ
  pub read : ℕ
  pub listed : Option (List Trigger)
  pub event : Bytes

abbrev pub look : Look → Dispatcher → List Trigger × Dispatcher
look l d = lookup l.first l.locked l.read l.listed l.event d

-- The dispatcher after some lookups.
abbrev pub after_looks : List Look → Dispatcher → Dispatcher
after_looks [] d = d
after_looks (l ∷ ls) d = after_looks ls (look l d).1

-- Its clock reads `until` at the latest.
abbrev pub IsWithin : ℕ → Look → Type 0
IsWithin until l = (l.first ≤ until) × (l.locked ≤ until)
