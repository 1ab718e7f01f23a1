-- ===== src/FrontierRepo/Picked.antt =====
-- What the SELECT of `Reserve` picks: eligible rows only, and of each domain at most `pf`.
use crawlerv.Prelude.{
  ℕ, zero, suc, ◌-◌, ◌≤◌, ◌≡◌, refl, subst, Bool, true, false, List, [], ◌∷◌, Bytes, arith, All,
  All-append, All-imp, All-take, length, length-take, take, ◌==◌, leb, Bool-cases, inl, inr,
  if◌then◌else◌,
}
use mathlib.Core.List.{Memᴰ, Permᴰ}
use crawlerv.Store.Rows.{Frontier, Domain, queued, status_eq}
use crawlerv.Store.Sql.{count}
use crawlerv.Store.World.{Db, ok, World}
use crawlerv.Store.Laws.{Keeps, statement-Keeps, statement-ok}
use crawlerv.FrontierRepo.Reserve.{picked, pick}
use crawlerv.FrontierRepo.Pick.{
  Driver, is_eligible, is_polite, Candidate, candidate, candidates_of, candidates, Engine,
  of_domain, ranked, picks,
}

module _ (driver : Driver) (now db_now : ℕ) (caps : List Bytes) (r : Frontier) (d : Domain)
    (h : is_eligible driver now db_now caps r d ≡ true) where
  pub eligible-joined : d.id ≡ r.domain_id
  unfolding is_eligible
  eligible-joined = ground arith

  pub eligible-queued : status_eq r.status queued ≡ true
  unfolding is_eligible
  eligible-queued = ground arith

  pub eligible-polite : is_polite driver db_now d ≡ true
  unfolding is_eligible
  eligible-polite = ground arith

module _ (driver : Driver) (now db_now : ℕ) (caps : List Bytes) where
  -- A candidate that a row of the queue and its domain's row make, both passing the WHERE clause.
  pub record IsOffered (rows : List Frontier) (ds : List Domain) (c : Candidate) : Type 0 where
    pub row : Frontier
    pub domain : Domain
    pub in_queue : Memᴰ row rows
    pub in_domains : Memᴰ domain ds
    pub eligible : is_eligible driver now db_now caps row domain ≡ true
    pub made : c ≡ candidate row domain

  widen-domains :
      (rows : List Frontier) (d : Domain) (ds : List Domain) (c : Candidate)
      → IsOffered rows ds c
      → IsOffered rows (d ∷ ds) c
  widen-domains rows d ds c o = record {
    row = o.row;
    domain = o.domain;
    in_queue = o.in_queue;
    in_domains = Memᴰ.tail o.in_domains;
    eligible = o.eligible;
    made = o.made;
  }

  widen-rows :
      (r : Frontier) (rows : List Frontier) (ds : List Domain) (c : Candidate)
      → IsOffered rows ds c
      → IsOffered (r ∷ rows) ds c
  widen-rows r rows ds c o = record {
    row = o.row;
    domain = o.domain;
    in_queue = Memᴰ.tail o.in_queue;
    in_domains = o.in_domains;
    eligible = o.eligible;
    made = o.made;
  }

  candidates_of-Offered :
      (r : Frontier) (rows : List Frontier) (ds : List Domain)
      → All (IsOffered (r ∷ rows) ds) (candidates_of driver now db_now caps r ds)
  unfolding candidates_of
  candidates_of-Offered r rows [] = tt
  candidates_of-Offered r rows (d ∷ ds) = pass (is_eligible driver now db_now caps r d) refl (
      All-imp (IsOffered (r ∷ rows) ds) (IsOffered (r ∷ rows) (d ∷ ds))
        (widen-domains (r ∷ rows) d ds) _ (candidates_of-Offered r rows ds))
    where
      pass :
          (b : Bool)
          → is_eligible driver now db_now caps r d ≡ b
          → All (IsOffered (r ∷ rows) (d ∷ ds)) (candidates_of driver now db_now caps r ds)
          → All (IsOffered (r ∷ rows) (d ∷ ds)) (
              if b
              then candidate r d ∷ candidates_of driver now db_now caps r ds
              else candidates_of driver now db_now caps r ds)
      pass true e rest = (
        record {
          row = r;
          domain = d;
          in_queue = Memᴰ.head refl;
          in_domains = Memᴰ.head refl;
          eligible = e;
          made = refl;
        },
        rest,
      )
      pass false e rest = rest

  candidates-Offered :
      (rows : List Frontier) (ds : List Domain)
      → All (IsOffered rows ds) (candidates driver now db_now caps rows ds)
  unfolding candidates
  candidates-Offered [] ds = tt
  candidates-Offered (r ∷ rows) ds =
      All-append (IsOffered (r ∷ rows) ds) _ _ (candidates_of-Offered r rows ds) (
        All-imp (IsOffered rows ds) (IsOffered (r ∷ rows) ds) (widen-rows r rows ds) _
          (candidates-Offered rows ds))

All-perm {ℓ κ} : {A : Type ℓ} (P : A → Type κ) {xs ys : List A} → Permᴰ xs ys → All P xs → All P ys
All-perm P Permᴰ.nil h = tt
All-perm P (Permᴰ.cons e p) h = (subst P e h.0, All-perm P p h.1)
All-perm P (Permᴰ.swap e f) h = (subst P f h.1.0, (subst P e h.0, h.1.1))
All-perm P (Permᴰ.trans p q) h = All-perm P q (All-perm P p h)

count-perm :
    {A : Type 0} (test : A → Bool) {xs ys : List A} → Permᴰ xs ys → count test xs ≡ count test ys
unfolding count
count-perm test Permᴰ.nil = refl
count-perm test (Permᴰ.cons e p) = ground (arith, e, count-perm test p)
count-perm test (Permᴰ.swap e f) = ground (arith, e, f)
count-perm test (Permᴰ.trans p q) = ground (arith, count-perm test p, count-perm test q)

count-take :
    {A : Type 0} (test : A → Bool) (n : ℕ) (xs : List A) → count test (take n xs) ≤ count test xs
unfolding count
count-take test zero xs = omega arith
count-take test (suc n) [] = omega arith
count-take test (suc n) (x ∷ xs) = ground (arith, count-take test n xs)

All-ranked {κ} :
    (P : Candidate → Type κ) (seen cs : List Candidate) → All P cs → All P (ranked seen cs)
unfolding ranked
All-ranked P seen [] h = tt
All-ranked P seen (c ∷ cs) h =
    pass (leb (suc (count (of_domain c.domain_id) seen)) c.pf) (All-ranked P (c ∷ seen) cs h.1)
  where
    pass :
        (b : Bool)
        → All P (ranked (c ∷ seen) cs)
        → All P (if b then c ∷ ranked (c ∷ seen) cs else ranked (c ∷ seen) cs)
    pass true rest = (h.0, rest)
    pass false rest = rest

-- A number of the partition is given out once: with `seen` before, at most `n` less those stay.
count-ranked :
    (k n : ℕ) (seen cs : List Candidate)
    → All (λ (c : Candidate). c.domain_id ≡ k → c.pf ≡ n) cs
    → count (of_domain k) (ranked seen cs) ≤ n - count (of_domain k) seen
unfolding count ranked
count-ranked k n seen [] h = omega arith
count-ranked k n seen (c ∷ cs) h = elim (Bool-cases (c.domain_id == k)) [
  | inl e ↦
      let same : c.domain_id ≡ k = ground arith in
      let kept : c.pf ≡ n = h.0 same in ground (arith, count-ranked k n (c ∷ seen) cs h.1)
  | inr e ↦ ground (arith, count-ranked k n (c ∷ seen) cs h.1)
]

module _ (e : Engine) (driver : Driver) (now db_now : ℕ) (caps : List Bytes) (batch : ℕ)
    (d : Db) where
  pub length-picks : length (picks e driver now db_now caps batch d) ≤ batch
  unfolding picks
  length-picks = omega (
    arith,
    length-take batch (
        e.emit
          (ranked [] (e.arrange (candidates driver now db_now caps d.crawl_frontier d.domains)))),
  )

  pub All-picks {κ} :
      (P : Candidate → Type κ)
      → ((c : Candidate) → IsOffered driver now db_now caps d.crawl_frontier d.domains c → P c)
      → All P (picks e driver now db_now caps batch d)
  unfolding picks
  All-picks P f = All-take P batch _ (
      All-perm P (e.emit-perm _) (
        All-ranked P [] _ (
          All-perm P (e.arrange-perm _) (
            All-imp (IsOffered driver now db_now caps d.crawl_frontier d.domains) P f _
              (candidates-Offered driver now db_now caps d.crawl_frontier d.domains)))))

  pub count-picks :
      (k n : ℕ)
      → ((c : Candidate)
          → IsOffered driver now db_now caps d.crawl_frontier d.domains c
          → c.domain_id ≡ k
          → c.pf ≡ n)
      → count (of_domain k) (picks e driver now db_now caps batch d) ≤ n
  unfolding picks
  count-picks k n f =
      let cs = candidates driver now db_now caps d.crawl_frontier d.domains in
      let arranged = e.arrange cs in
      let numbered = ranked [] arranged in
      let pfs =
        All-perm (λ (c : Candidate). c.domain_id ≡ k → c.pf ≡ n) (e.arrange-perm cs)
          (All-imp (IsOffered driver now db_now caps d.crawl_frontier d.domains)
            (λ (c : Candidate). c.domain_id ≡ k → c.pf ≡ n) f cs
            (candidates-Offered driver now db_now caps d.crawl_frontier d.domains)) in
      omega (
        arith,
        count-take (of_domain k) batch (e.emit numbered),
        count-perm (of_domain k) (e.emit-perm numbered),
        count-ranked k n [] arranged pfs,
      )

picked-keeps :
    (P : Db → Type 0) (driver : Driver) (ps : List Candidate) (d : Db)
    → P d
    → P (picked driver ps d).1
picked-keeps P Driver.sqlite ps d h = h
picked-keeps P Driver.postgres ps d h = h
picked-keeps P Driver.mysql ps d h = h

picked-ok :
    (driver : Driver) (ps : List Candidate) (d d' : Db) {out : List Candidate}
    → picked driver ps d ≡ (ok out, d')
    → (ps ≡ out) × (d' ≡ d)
picked-ok Driver.sqlite ps d d' h = ground arith
picked-ok Driver.postgres ps d d' h = ground arith
picked-ok Driver.mysql ps d d' h = ground arith

module _ (e : Engine) (driver : Driver) (now db_now : ℕ) (caps : List Bytes) (batch : ℕ) where
  -- The query leaves the tables.
  pub pick-Keeps : {P : Db → Type 0} → Keeps P (pick e driver now db_now caps batch)
  unfolding pick
  pick-Keeps {P} = statement-Keeps _ (λ d h. picked-keeps P driver _ d h)

  pub pick-ok :
      (w : World) {out : List Candidate} {w' : World}
      → pick e driver now db_now caps batch w ≡ (ok out, w')
      → (picks e driver now db_now caps batch w.db ≡ out) × (w'.db ≡ w.db)
  unfolding pick
  pick-ok w {out} {w'} h = picked-ok driver _ w.db w'.db (statement-ok _ w h)
