-- ===== src/Services/Scope/Hosts.antt =====
-- The scope that is configured, and the domain of a host while new hosts are not admitted.
use crawlerv.Prelude.{
  ℕ, ◌≡◌, refl, ap, ◌∙◌, ◌&&◌, ◌||◌, Bool, true, false, Option, none, some, List, [], ◌∷◌, Bytes,
  arith, ◌==◌, ==_refl, ltb, leb, All, Option-cases, ◌⊎◌, inl, inr,
}
use crawlerv.Store.Rows.{Domain}
use crawlerv.Store.Sql.{first, count}
use crawlerv.Store.World.{Db, Error, ok, err, World, pure, ◌>>=◌, caught}
use crawlerv.Store.Laws.{query-cases}
use crawlerv.FrontierRepo.Types.{Job}
use crawlerv.FrontierRepo.Domains.{DomainRow, map_domain, has_host, find_by_host}
use crawlerv.Urls.{Url}
use crawlerv.Services.Crawl.{Service, domain_of, found_domain}

abbrev pub is_active_one : ℕ → Domain → Bool
is_active_one id x = (x.id == id) && x.is_active

-- Whether a depth and a domain are in the scope that is configured, over the table of domains.
unfoldable pub is_in_scope : Service → List Domain → ℕ → ℕ → Bool
is_in_scope s ds depth domain =
    ((s.max_depth == 0) || leb depth s.max_depth) && ltb 0 (count (is_active_one domain) ds)

abbrev pub RowsInScope : Service → Db → Type 0
RowsInScope s d = All (λ r. is_in_scope s d.domains r.depth r.domain_id ≡ true) d.crawl_frontier

abbrev pub JobsInScope : Service → List Domain → List Job → Type 0
JobsInScope s ds js = All (λ j. is_in_scope s ds j.depth j.domain_id ≡ true) js

pub count_active :
    (h : Bytes) (ds : List Domain) (x : Domain)
    → first (has_host h) ds ≡ some x
    → x.is_active ≡ true
    → ltb 0 (count (is_active_one x.id) ds) ≡ true
unfolding first count
count_active h [] x e a = ground arith
count_active h (y ∷ ds) x e a = ground (arith, ==_refl x.id, count_active h ds x)

-- What the search for a host answers, and what that means.
FindCases : Bytes → World → Type 0
FindCases h w =
    ((find_by_host h w).1.db ≡ w.db)
    × (((e : Error) × ((find_by_host h w).0 ≡ err e))
        ⊎ ((find_by_host h w).0 ≡ ok none)
        ⊎ ((x : Domain) × (first (has_host h) w.db.domains ≡ some x)
            × ((find_by_host h w).0 ≡ ok (some (map_domain x)))))

find-cases : (h : Bytes) (w : World) → FindCases h w
unfolding FindCases find_by_host pure ◌>>=◌
find-cases h w =
    let (same, r) = query-cases (λ d. first (has_host h) d.domains) w in
    elim r [
      | inl (e, p) ↦ (rw p same, inl (e, rw p refl))
      | inr p ↦ elim (Option-cases (first (has_host h) w.db.domains)) [
        | inl n ↦ let q = p ∙ ap ok n in (rw q same, inr (inl (rw q refl)))
        | inr (x, y) ↦ let q = p ∙ ap ok y in (rw q same, inr (inr (x, y, rw q refl)))
      ]
    ]

abbrev pub answered : Option Domain → Option DomainRow
answered none = none
answered (some x) = some (map_domain x)

abbrev pub as_list : Option Domain → List Domain
as_list none = []
as_list (some x) = x ∷ []

-- The answer for a host: a row of the table, if any, and the tables as they were.
pub record IsFound (s : Service) (now : ℕ) (u : Url s.net.Rest) (w : World) : Type 0 where
  pub domain : Option Domain
  pub after : World
  pub runs : found_domain s now u w ≡ (ok (answered domain), after)
  pub same : after.db ≡ w.db
  pub listed : All (λ x. first (has_host u.host) w.db.domains ≡ some x) (as_list domain)

module _ (s : Service) (closed : s.allow_auto_domains ≡ false) where
  domain_of-none :
      (now : ℕ) (u : Url s.net.Rest) (w : World) → domain_of s now u none w ≡ (ok none, w)
  unfolding domain_of pure
  domain_of-none now u w = rw closed refl

  pub found : (now : ℕ) (u : Url s.net.Rest) (w : World) → IsFound s now u w
  unfolding found_domain caught pure ◌>>=◌ FindCases
  found now u w =
      let (same, r) = find-cases u.host w in
      elim r [
        | inl (e, p) ↦ record {
          domain = none;
          after = (find_by_host u.host w).1;
          runs = rw p refl;
          same = same;
          listed = tt;
        }
        | inr (inl p) ↦ record {
          domain = none;
          after = (find_by_host u.host w).1;
          runs = rw (p, domain_of-none now u) refl;
          same = same;
          listed = tt;
        }
        | inr (inr (x, y, p)) ↦ record {
          domain = some x;
          after = (find_by_host u.host w).1;
          runs = rw (p, domain_of, pure) refl;
          same = same;
          listed = (y, tt);
        }
      ]
