-- ===== src/Dispatcher/Fired.antt =====
-- What the loop of `Fire` enqueues.
use crawlerv.Prelude.{
  ℕ, ◌≡◌, refl, sym, ap, ◌∙◌, true, ◌||◌, none, some, List, [], ◌∷◌, ◌++◌, Bytes, bytes_eq,
  bytes_eq-eq, bytes_eq_refl, arith, ◌⊎◌, Bool-cases, Option-cases, inl, inr, ==_refl,
}
use crawlerv.Store.Rows.{ProcessingJob, JobStatus}
use crawlerv.Store.World.{execute, statement, World}
use crawlerv.ProcessingRepo.Queue.{new_row, enqueue}
use crawlerv.Dispatcher.Triggers.{
  Trigger, EventPayload, Filter, Codec, has_prefix, filter_admits, matches, fire_each,
}

-- The filter lets the payload pass: its content type begins as the filter says, and it comes from
-- the processor that the filter names; an empty field asks for nothing.
pub record IsAdmitted (c : Codec) (f : Filter) (p : EventPayload) : Type 0 where
  pub content_type :
      (f.content_type_prefix ≡ [])
      ⊎ ((rest : Bytes) × (c.to_lower p.content_type ≡ c.to_lower f.content_type_prefix ++ rest))
  pub source : (f.source_processor ≡ []) ⊎ (f.source_processor ≡ p.source_processor)

-- A trigger without a filter fires on every payload, one with a filter that is JSON on those that
-- the filter lets pass, and one with any other filter on none.
abbrev pub IsMatch : Codec → Trigger → EventPayload → Type 0
IsMatch c t p =
    (t.when_filter ≡ []) ⊎ ((f : Filter) × (c.unmarshal t.when_filter ≡ some f) × IsAdmitted c f p)

-- The new task of a trigger.
pub record IsTask (t : Trigger) (p : EventPayload) (r : ProcessingJob) : Type 0 where
  pub processor : r.processor ≡ t.enqueue_kind
  pub lake_object : r.lake_object_id ≡ p.lake_object_id
  pub status : r.status ≡ JobStatus.queued
  pub attempts : r.attempt_count ≡ 0
  pub lease : r.lease_token ≡ none

-- One task for each trigger that matches, in order, and none for the others.
pub data Fired (c : Codec) (p : EventPayload) : List Trigger → List ProcessingJob → Type 0 where
  ends : Fired c p [] []
  fires :
      {t : Trigger} {ts : List Trigger} {r : ProcessingJob} {rs : List ProcessingJob}
      → IsMatch c t p
      → IsTask t p r
      → Fired c p ts rs
      → Fired c p (t ∷ ts) (r ∷ rs)
  skips :
      {t : Trigger} {ts : List Trigger} {rs : List ProcessingJob}
      → ¬ IsMatch c t p
      → Fired c p ts rs
      → Fired c p (t ∷ ts) rs

has_prefix-rest : (s p : Bytes) → has_prefix s p ≡ true → (rest : Bytes) × (s ≡ p ++ rest)
unfolding has_prefix
has_prefix-rest s [] h = (s, refl)
has_prefix-rest [] (p ∷ ps) h = ground arith
has_prefix-rest (b ∷ bs) (p ∷ ps) h =
    let (rest, e) = has_prefix-rest bs ps (ground arith) in (rest, ground (arith, e, h))

has_prefix-of_rest : (p rest : Bytes) → has_prefix (p ++ rest) p ≡ true
unfolding has_prefix
has_prefix-of_rest [] rest = ground arith
has_prefix-of_rest (p ∷ ps) rest = ground (arith, has_prefix-of_rest ps rest, ==_refl p)

nil_eq : (a : Bytes) → a ≡ [] → bytes_eq a [] ≡ true
unfolding bytes_eq
nil_eq a e = ap (λ x. bytes_eq x []) e

same_eq : (a b : Bytes) → a ≡ b → bytes_eq a b ≡ true
same_eq a b e = ap (bytes_eq a) (sym e) ∙ bytes_eq_refl a

admits-IsAdmitted :
    (c : Codec) (f : Filter) (p : EventPayload) → filter_admits c f p ≡ true → IsAdmitted c f p
unfolding filter_admits
admits-IsAdmitted c f p h = record {
  content_type = elim (Bool-cases (bytes_eq f.content_type_prefix [])) [
    | inl y ↦ inl (bytes_eq-eq _ _ y)
    | inr n ↦ inr (has_prefix-rest _ _ (ground (arith, n)))
  ];
  source = elim (Bool-cases (bytes_eq f.source_processor [])) [
    | inl y ↦ inl (bytes_eq-eq _ _ y)
    | inr n ↦ inr (bytes_eq-eq _ _ (ground (arith, n)))
  ];
}

prefix_test :
    (c : Codec) (f : Filter) (p : EventPayload)
    → (f.content_type_prefix ≡ [])
      ⊎ ((rest : Bytes) × (c.to_lower p.content_type ≡ c.to_lower f.content_type_prefix ++ rest))
    → (bytes_eq f.content_type_prefix []
        || has_prefix (c.to_lower p.content_type) (c.to_lower f.content_type_prefix))
      ≡ true
prefix_test c f p (inl e) = ground (arith, nil_eq _ e)
prefix_test c f p (inr (rest, e)) =
    let k : has_prefix (c.to_lower p.content_type) (c.to_lower f.content_type_prefix) ≡ true =
      ap (λ s. has_prefix s (c.to_lower f.content_type_prefix)) e ∙ has_prefix-of_rest _ rest in
    ground (arith, k)

source_test :
    (f : Filter) (p : EventPayload)
    → (f.source_processor ≡ []) ⊎ (f.source_processor ≡ p.source_processor)
    → (bytes_eq f.source_processor [] || bytes_eq f.source_processor p.source_processor) ≡ true
source_test f p (inl e) = ground (arith, nil_eq _ e)
source_test f p (inr e) = ground (arith, same_eq _ _ e)

IsAdmitted-admits :
    (c : Codec) (f : Filter) (p : EventPayload) → IsAdmitted c f p → filter_admits c f p ≡ true
unfolding filter_admits
IsAdmitted-admits c f p a =
    ground (arith, prefix_test c f p a.content_type, source_test f p a.source)

matches-IsMatch :
    (c : Codec) (t : Trigger) (p : EventPayload) → matches c t p ≡ true → IsMatch c t p
unfolding matches
matches-IsMatch c t p h = elim (Bool-cases (bytes_eq t.when_filter [])) [
  | inl y ↦ inl (bytes_eq-eq _ _ y)
  | inr n ↦ elim (Option-cases (c.unmarshal t.when_filter)) [
    | inl e ↦ ground (arith, n, e)
    | inr (f, e) ↦ inr (f, e, admits-IsAdmitted c f p (ground (arith, n, e)))
  ]
]

IsMatch-matches :
    (c : Codec) (t : Trigger) (p : EventPayload) → IsMatch c t p → matches c t p ≡ true
unfolding matches
IsMatch-matches c t p (inl e) = ground (arith, nil_eq _ e)
IsMatch-matches c t p (inr (f, e, a)) = elim (Bool-cases (bytes_eq t.when_filter [])) [
  | inl y ↦ ground (arith, y)
  | inr n ↦ ground (arith, n, e, IsAdmitted-admits c f p a)
]

append_assoc : (xs ys zs : List ProcessingJob) → (xs ++ ys) ++ zs ≡ xs ++ (ys ++ zs)
append_assoc [] ys zs = refl
append_assoc (x ∷ xs) ys zs = ground (arith, append_assoc xs ys zs)

append_nil : (xs : List ProcessingJob) → xs ++ [] ≡ xs
append_nil [] = refl
append_nil (x ∷ xs) = ground (arith, append_nil xs)

enqueue-adds :
    (now lake_id : ℕ) (kind : Bytes) (w : World)
    → w.faults ≡ []
    → ((enqueue now lake_id kind w).1.faults ≡ [])
      × ((enqueue now lake_id kind w).1.db.processing_jobs
          ≡ w.db.processing_jobs ++ new_row now kind lake_id w.db.next_job_id ∷ [])
unfolding enqueue execute statement
enqueue-adds now lake_id kind w h = rw h (refl, refl)

new_row-IsTask :
    (now : ℕ) (t : Trigger) (p : EventPayload) (id : ℕ)
    → IsTask t p (new_row now t.enqueue_kind p.lake_object_id id)
unfolding new_row
new_row-IsTask now t p id = record {
  processor = refl;
  lake_object = refl;
  status = refl;
  attempts = refl;
  lease = refl;
}

-- With no failing statement, `Fire` leaves the tasks that there are and appends, in the order of the
-- triggers found, one queued task for each that matches the payload, of the trigger's kind and for the
-- payload's object, and none for a trigger that does not match.
pub fire_tasks :
    (c : Codec) (now : ℕ) (p : EventPayload) (ts : List Trigger) (w : World)
    → w.faults ≡ []
    → (rs : List ProcessingJob) × ((fire_each c now p ts w).db.processing_jobs
        ≡ w.db.processing_jobs ++ rs)
      × Fired c p ts rs
unfolding fire_each
fire_tasks c now p [] w h = ([], sym (append_nil _), ends)
fire_tasks c now p (t ∷ ts) w h = elim (Bool-cases (matches c t p)) [
  | inl y ↦
      let one = enqueue-adds now p.lake_object_id t.enqueue_kind w h in
      let r = new_row now t.enqueue_kind p.lake_object_id w.db.next_job_id in
      let (rs, e, f) =
        fire_tasks c now p ts (enqueue now p.lake_object_id t.enqueue_kind w).1 one.0 in
      (
        r ∷ rs,
        rw (y, fire_each)
            (e ∙ ap (λ x. x ++ rs) one.1 ∙ append_assoc w.db.processing_jobs (r ∷ []) rs),
        fires (matches-IsMatch c t p y) (new_row-IsTask now t p w.db.next_job_id) f,
      )
  | inr n ↦
      let (rs, e, f) = fire_tasks c now p ts w h in
      (rs, rw (n, fire_each) e, skips (λ m. ground (arith, n, IsMatch-matches c t p m)) f)
]
