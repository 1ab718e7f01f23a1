-- ===== src/Dispatcher/Triggers.antt =====
-- internal/app/dispatcher.go and internal/domain/triggers/trigger.go.
use crawlerv.Prelude.{
  ℕ, ◌+◌, Bool, true, false, ◌&&◌, ◌||◌, Option, none, some, List, [], ◌∷◌, ◌++◌, Bytes, bytes_eq,
  ltb, ◌==◌, if◌then◌else◌,
}
use crawlerv.Store.World.{World}
use crawlerv.ProcessingRepo.Queue.{enqueue}

pub record Trigger : Type 0 where
  pub id : ℕ
  pub when_event : Bytes
  pub when_filter : Bytes
  pub enqueue_kind : Bytes
  pub enabled : Bool

pub record EventPayload : Type 0 where
  pub lake_object_id : ℕ
  pub content_type : Bytes
  pub source_processor : Bytes

-- The fields of the filter's JSON object.
pub record Filter : Type 0 where
  pub content_type_prefix : Bytes
  pub source_processor : Bytes

-- encoding/json on a filter (`none` is an error), and strings.ToLower.
pub record Codec : Type 0 where
  pub unmarshal : Bytes → Option Filter
  pub to_lower : Bytes → Bytes

-- `strings.HasPrefix(s, prefix)`
unfoldable pub has_prefix : Bytes → Bytes → Bool
has_prefix s [] = true
has_prefix [] (p ∷ ps) = false
has_prefix (b ∷ bs) (p ∷ ps) = b == p && has_prefix bs ps

unfoldable pub filter_admits : Codec → Filter → EventPayload → Bool
unfolding has_prefix
filter_admits c f p =
    (bytes_eq f.content_type_prefix []
      || has_prefix (c.to_lower p.content_type) (c.to_lower f.content_type_prefix))
    && (bytes_eq f.source_processor [] || bytes_eq f.source_processor p.source_processor)

unfoldable pub matches : Codec → Trigger → EventPayload → Bool
unfolding filter_admits
matches c t p =
    if bytes_eq t.when_filter []
    then true
    else elim (c.unmarshal t.when_filter) [ none ↦ false | some f ↦ filter_admits c f p ]

-- A Go map from events to triggers.
abbrev pub Cache : Type 0
Cache = List (Bytes × List Trigger)

-- `fresh[t.WhenEvent] = append(fresh[t.WhenEvent], t)`
unfoldable pub put : Trigger → Cache → Cache
put t [] = (t.when_event, t ∷ []) ∷ []
put t (e ∷ m) = if bytes_eq e.0 t.when_event then (e.0, e.1 ++ t ∷ []) ∷ m else e ∷ put t m

-- `ts, ok := d.cache[evt]`
unfoldable pub find : Bytes → Cache → Option (List Trigger)
find evt [] = none
find evt (e ∷ m) = if bytes_eq e.0 evt then some e.1 else find evt m

unfoldable pub build : List Trigger → Cache → Cache
unfolding put
build [] m = m
build (t ∷ ts) m = build ts (if t.enabled then put t m else m)

pub record Dispatcher : Type 0 where
  pub cache_ttl : ℕ
  pub cache : Cache
  pub expires : ℕ

abbrev pub or_nil : Option (List Trigger) → List Trigger
or_nil none = []
or_nil (some ts) = ts

-- The part of `lookup` under the write lock, at the time `now`; `listed` is what Triggers.List
-- answers (`none` is an error), and `read` the time after it.
unfoldable pub reload :
    ℕ → ℕ → Option (List Trigger) → Bytes → Dispatcher → List Trigger × Dispatcher
unfolding build find
reload now read listed evt d =
    if ltb d.expires now
    then elim listed [
      | none ↦ ([], d)
      | some all ↦ (
        or_nil (find evt (build all [])),
        record d { cache = build all []; expires = read + d.cache_ttl },
      )
    ]
    else (or_nil (find evt d.cache), d)

-- `first` is the reading of the clock under the read lock.
unfoldable pub lookup :
    ℕ → ℕ → ℕ → Option (List Trigger) → Bytes → Dispatcher → List Trigger × Dispatcher
unfolding reload
lookup first now read listed evt d =
    let slow = reload now read listed evt d in
    if ltb d.expires first
    then slow
    else elim (find evt d.cache) [ some ts ↦ (ts, d) | none ↦ slow ]

-- The loop of `Fire`: an error of `Enqueue` is dropped.
unfoldable pub fire_each : Codec → ℕ → EventPayload → List Trigger → World → World
unfolding matches
fire_each c now p [] w = w
fire_each c now p (t ∷ ts) w =
    fire_each c now p ts
      (if matches c t p then (enqueue now p.lake_object_id t.enqueue_kind w).1 else w)
