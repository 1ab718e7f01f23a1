-- ===== src/Services/Firing.antt =====
-- Fire of internal/app/dispatcher.go with the list that it reads from the triggers' table.
use crawlerv.Prelude.{
  ℕ, Bool, true, false, ◌&&◌, ◌||◌, Option, none, some, List, Bytes, ltb, if◌then◌else◌,
}
use crawlerv.Store.World.{Result, ok, err, M, pure, ◌>>=◌, caught}
use crawlerv.Dispatcher.Triggers.{Trigger, EventPayload, Codec, Dispatcher, find, lookup, fire_each}
use crawlerv.Repos.Triggers.{list}

-- The readings of the clock: under the read lock, under the write lock, after the list is read, and
-- for the rows that are enqueued.
pub record Clock : Type 0 where
  pub first : ℕ
  pub locked : ℕ
  pub listed : ℕ
  pub enqueued : ℕ

abbrev pub is_missing : {A : Type 0} → Option A → Bool
is_missing none = true
is_missing (some a) = false

-- Whether `lookup` comes to `Triggers.List`.
unfoldable pub reads_list : Clock → Bytes → Dispatcher → Bool
reads_list t evt d =
    (ltb d.expires t.first || is_missing (find evt d.cache)) && ltb d.expires t.locked

abbrev pub answer : {A : Type 0} → Result A → Option A
answer (ok a) = some a
answer (err e) = none

-- What is enqueued for the triggers found; the dispatcher's new cache is the result.
unfoldable pub fire_listed :
    Codec → Clock → Bytes → EventPayload → Dispatcher → Option (List Trigger) → M Dispatcher
unfolding lookup fire_each
fire_listed c t evt payload d listed w =
    let found = lookup t.first t.locked t.listed listed evt d in
    (ok found.1, fire_each c t.enqueued payload found.0 w)

unfoldable pub fire : Codec → Clock → Bytes → EventPayload → Dispatcher → M Dispatcher
unfolding reads_list fire_listed
fire c t evt payload d =
    if reads_list t evt d
    then (caught list >>= λ r. fire_listed c t evt payload d (answer r))
    else fire_listed c t evt payload d none

-- The dispatcher is optional in the services.
unfoldable pub fire_if_set :
    Codec → Clock → Bytes → EventPayload → Option Dispatcher → M (Option Dispatcher)
unfolding fire
fire_if_set c t evt payload none = pure none
fire_if_set c t evt payload (some d) = do d' ← fire c t evt payload d; pure (some d')
