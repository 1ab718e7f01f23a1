-- ===== src/FrontierRepo/Spaced.antt =====
-- The politeness delay between two calls of `Reserve`.
use crawlerv.Prelude.{
  ℕ, ◌≡◌, refl, sym, subst, ap, true, some, List, [], ◌∷◌, ◌++◌, arith, All, All-imp, All-append,
  ◌==◌, ==_iff, ==_refl, inl, inr, Bool-cases,
}
use crawlerv.Store.Rows.{Domain}
use crawlerv.Store.Sql.{update, All-update}
use crawlerv.Store.World.{Db, ok, World, pure}
use crawlerv.FrontierRepo.Types.{LeasedJob}
use crawlerv.FrontierRepo.Pick.{Candidate}
use crawlerv.FrontierRepo.Reserve.{Sign, leased_job, lease_each, among}
use crawlerv.FrontierRepo.Taken.{
  SameDomain, SameDomain-lease, job-IsJobOf, lease_each-Round, after_touch, rows_after_touch,
}

-- The domain of this id was asked at `now`.
abbrev pub IsTouched : ℕ → List Domain → ℕ → Type 0
IsTouched now ds k = All (λ (d : Domain). d.id ≡ k → d.last_request_at ≡ some now) ds

touch_self :
    (now k : ℕ) (ds : List Domain)
    → IsTouched now
        (update (λ (x : Domain). x.id == k) (λ x. record x { last_request_at = some now }) ds)
        k
unfolding update
touch_self now k [] = tt
touch_self now k (d ∷ ds) = ((λ e. ground (arith, ==_refl k)), touch_self now k ds)

touch-keeps :
    (now k j : ℕ) (ds : List Domain)
    → IsTouched now ds j
    → IsTouched now
        (update (λ (x : Domain). x.id == k) (λ x. record x { last_request_at = some now }) ds)
        j
touch-keeps now k j ds h =
    All-update (λ (d : Domain). d.id ≡ j → d.last_request_at ≡ some now) (λ (x : Domain). x.id == k)
      _ (λ d _ _ _. refl) ds h

was-IsTouched :
    (now k : ℕ) (ds : List Domain) (touched : List ℕ)
    → among touched k ≡ true
    → All (IsTouched now ds) touched
    → IsTouched now ds k
was-IsTouched now k ds [] h t = ground arith
was-IsTouched now k ds (j ∷ js) h t = elim (Bool-cases (j == k)) [
  | inl e ↦ subst (IsTouched now ds) ((==_iff j k).0 e) t.0
  | inr n ↦ was-IsTouched now k ds js (ground arith) t.1
]

module _ (sign : Sign) (worker now expires : ℕ) where
  after_touch_self :
      (touched : List ℕ) (k : ℕ) (d : Db)
      → All (IsTouched now d.domains) touched
      → IsTouched now (after_touch sign worker now expires touched k d).domains k
  after_touch_self touched k d t = elim (Bool-cases (among touched k)) [
    | inl y ↦ rw y (was-IsTouched now k d.domains touched y t)
    | inr n ↦ rw n (touch_self now k d.domains)
  ]

  after_touch-keeps :
      (touched : List ℕ) (k j : ℕ) (d : Db)
      → IsTouched now d.domains j
      → IsTouched now (after_touch sign worker now expires touched k d).domains j
  after_touch-keeps touched k j d t = elim (Bool-cases (among touched k)) [
    | inl y ↦ rw y t
    | inr n ↦ rw n (touch-keeps now k j d.domains t)
  ]

  abbrev pub JobTouched : List Domain → LeasedJob → Type 0
  JobTouched ds lj = IsTouched now ds lj.job.domain_id

  pub lease_each-Touched :
      (ps : List Candidate) (touched : List ℕ) (acc : List LeasedJob) (v : World)
      {out : List LeasedJob} {v' : World}
      → All (SameDomain v.db.crawl_frontier) ps
      → All (IsTouched now v.db.domains) touched
      → All (JobTouched v.db.domains) acc
      → lease_each sign worker now expires ps touched acc v ≡ (ok out, v')
      → All (JobTouched v'.db.domains) out
  unfolding lease_each pure
  lease_each-Touched [] touched acc v {out} {v'} s t j e =
      let same : v ≡ v' = ground arith in
      let all : acc ≡ out = ground arith in
      subst (λ l. All (JobTouched v'.db.domains) l) all
        (subst (λ (z : World). All (JobTouched z.db.domains) acc) same j)
  lease_each-Touched (p ∷ ps) touched acc v {out} {v'} s t j e =
      let (u, round) = lease_each-Round sign worker now expires p ps touched acc v e in
      let (tables, cases) = round in
      let moved : All (SameDomain u.db.crawl_frontier) (p ∷ ps) =
        subst (λ (d : Db). All (SameDomain d.crawl_frontier) (p ∷ ps)) (sym tables)
          (SameDomain-lease worker expires _ p.url_hash v.db.crawl_frontier (p ∷ ps) s) in
      let domains : u.db.domains ≡ v.db.domains = ap (λ (d : Db). d.domains) tables in
      let t' = subst (λ ds. All (IsTouched now ds) touched) (sym domains) t in
      let j' = subst (λ ds. All (JobTouched ds) acc) (sym domains) j in
      elim cases [
        | inl (_, rest) ↦
            lease_each-Touched ps touched acc u {out = out} {v' = v'} moved.1 t' j' rest
        | inr (m, u', _, found, kept, rest) ↦
            let same = rows_after_touch sign worker now expires touched p.domain_id u.db u' kept in
            let again = subst (λ rs. All (SameDomain rs) (p ∷ ps)) (sym same) moved in
            let lj = leased_job worker (sign p.url_hash expires).0 expires m in
            let of_p =
              job-IsJobOf worker expires _ p m lj u'.db.crawl_frontier again.0 found refl in
            let self = after_touch_self touched p.domain_id u.db t' in
            let carry = after_touch-keeps touched p.domain_id in
            let ds' = (after_touch sign worker now expires touched p.domain_id u.db).domains in
            let at_u' : u'.db.domains ≡ ds' = ap (λ (d : Db). d.domains) kept in
            lease_each-Touched ps (p.domain_id ∷ touched) (acc ++ lj ∷ []) u' {out = out} {v' = v'}
              again.1
              (subst (λ ds. All (IsTouched now ds) (p.domain_id ∷ touched)) (sym at_u')
                (
                  self,
                  All-imp (IsTouched now u.db.domains) (IsTouched now ds') (λ k. carry k u.db)
                      touched t',
                ))
              (subst (λ ds. All (JobTouched ds) (acc ++ lj ∷ [])) (sym at_u')
                (All-append (JobTouched ds') acc (lj ∷ [])
                  (All-imp (JobTouched u.db.domains) (JobTouched ds')
                    (λ l. carry l.job.domain_id u.db) acc j')
                  (subst (IsTouched now ds') (sym of_p.domain) self, tt)))
              rest
      ]
