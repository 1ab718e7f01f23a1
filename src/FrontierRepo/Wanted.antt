-- ===== src/FrontierRepo/Wanted.antt =====
-- What makes a queued URL due for a worker, said without the query's own predicates.
use crawlerv.Prelude.{
  ℕ, ◌+◌, ◌*◌, ◌<◌, ◌≤◌, ◌≡◌, ◌⊎◌, inl, inr, refl, true, sym, ◌||◌, Bool-cases, Option, none, some,
  List, [], ◌∷◌, Bytes, bytes_eq, bytes_eq-eq, contains, arith,
}
use mathlib.Core.List.{Memᴰ}
use crawlerv.Store.Rows.{Status, queued, Frontier, Domain, status_eq}
use crawlerv.FrontierRepo.Pick.{Driver, sqlite, elapsed, is_polite, is_capable, is_due, is_eligible}

-- The delay is over on the database's clock: exactly, but on SQLite up to a second.
pub record IsOver (driver : Driver) (last db_now delay_ms : ℕ) : Type 0 where
  pub roughly : last + delay_ms * 1000 < db_now + 1000000
  pub exactly : (driver ≡ sqlite) ⊎ (last + delay_ms * 1000 ≤ db_now)

pub record IsWanted (driver : Driver) (now db_now : ℕ) (caps : List Bytes) (r : Frontier)
    (d : Domain) : Type 0 where
  pub joined : d.id ≡ r.domain_id
  pub waits : r.status ≡ queued
  pub scheduled : r.scheduled_for ≤ now
  pub due : (r.next_retry_at ≡ none) ⊎ ((t : ℕ) × (r.next_retry_at ≡ some t) × (t ≤ now))
  pub active : d.is_active ≡ true
  pub polite :
      (d.last_request_at ≡ none)
      ⊎ ((t : ℕ) × (d.last_request_at ≡ some t) × IsOver driver t db_now d.crawl_delay_ms)
  pub capable :
      (caps ≡ [])
      ⊎ ((d.required_capability ≡ none)
          ⊎ ((c : Bytes) × (d.required_capability ≡ some c) × ((c ≡ []) ⊎ Memᴰ c caps)))

status_eq-queued : (s : Status) → status_eq s queued ≡ true → s ≡ queued
status_eq-queued Status.queued h = refl
status_eq-queued Status.leased h = ground arith
status_eq-queued Status.done h = ground arith
status_eq-queued Status.failed h = ground arith
status_eq-queued Status.dead h = ground arith

due-cases :
    (now : ℕ) (o : Option ℕ)
    → is_due now o ≡ true
    → (o ≡ none) ⊎ ((t : ℕ) × (o ≡ some t) × (t ≤ now))
due-cases now none h = inl refl
due-cases now (some t) h = inr (t, refl, ground arith)

pub elapsed-IsOver :
    (driver : Driver) (last db_now delay_ms : ℕ)
    → elapsed driver last db_now delay_ms ≡ true
    → IsOver driver last db_now delay_ms
unfolding elapsed
elapsed-IsOver Driver.sqlite last db_now delay_ms h = record {
  roughly = ground arith;
  exactly = inl refl;
}
elapsed-IsOver Driver.postgres last db_now delay_ms h = record {
  roughly = ground arith;
  exactly = inr (ground arith);
}
elapsed-IsOver Driver.mysql last db_now delay_ms h = record {
  roughly = ground arith;
  exactly = inr (ground arith);
}

polite-cases :
    (driver : Driver) (db_now : ℕ) (d : Domain) (o : Option ℕ)
    → d.last_request_at ≡ o
    → is_polite driver db_now d ≡ true
    → (o ≡ none) ⊎ ((t : ℕ) × (o ≡ some t) × IsOver driver t db_now d.crawl_delay_ms)
unfolding is_polite
polite-cases driver db_now d none e h = inl refl
polite-cases driver db_now d (some t) e h =
    let over : elapsed driver t db_now d.crawl_delay_ms ≡ true = ground (arith, e) in
    inr (t, refl, elapsed-IsOver driver t db_now d.crawl_delay_ms over)

contains-Mem : (xs : List Bytes) (a : Bytes) → contains xs a ≡ true → Memᴰ a xs
unfolding contains
contains-Mem [] a h = ground arith
contains-Mem (x ∷ xs) a h = elim (Bool-cases (bytes_eq x a)) [
  | inl y ↦ Memᴰ.head (sym (bytes_eq-eq x a y))
  | inr n ↦ Memᴰ.tail (contains-Mem xs a (ground arith))
]

required-cases :
    (cs : List Bytes) (r : Bytes) → (bytes_eq r [] || contains cs r) ≡ true → (r ≡ []) ⊎ Memᴰ r cs
required-cases cs r h = elim (Bool-cases (bytes_eq r [])) [
  | inl y ↦ inl (bytes_eq-eq r [] y)
  | inr n ↦ inr (contains-Mem cs r (ground arith))
]

capable-cases :
    (caps : List Bytes) (d : Domain) (o : Option Bytes)
    → d.required_capability ≡ o
    → is_capable caps d ≡ true
    → (caps ≡ []) ⊎ ((o ≡ none) ⊎ ((c : Bytes) × (o ≡ some c) × ((c ≡ []) ⊎ Memᴰ c caps)))
unfolding is_capable
capable-cases [] d o e h = inl refl
capable-cases (c ∷ cs) d none e h = inr (inl refl)
capable-cases (c ∷ cs) d (some r) e h =
    let k : (bytes_eq r [] || contains (c ∷ cs) r) ≡ true = ground (arith, e) in
    inr (inr (r, refl, required-cases (c ∷ cs) r k))

pub eligible-IsWanted :
    (driver : Driver) (now db_now : ℕ) (caps : List Bytes) (r : Frontier) (d : Domain)
    → is_eligible driver now db_now caps r d ≡ true
    → IsWanted driver now db_now caps r d
unfolding is_eligible
eligible-IsWanted driver now db_now caps r d h = record {
  joined = ground arith;
  waits = status_eq-queued r.status (ground arith);
  scheduled = ground arith;
  due = due-cases now r.next_retry_at (ground arith);
  active = ground arith;
  polite = polite-cases driver db_now d _ refl (ground arith);
  capable = capable-cases caps d _ refl (ground arith);
}
