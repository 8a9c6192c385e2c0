-- ===== src/Routing/Register/Added.antt =====
-- What the loop over the variants of a message type leaves behind.
use fastsqs.Base.{String, true, none, some, List, [], ◌∷◌, ◌≡◌, refl, arith}
use fastsqs.Base.{
  ◌==◌, string_eq, nat_eq, contains, if◌then◌else◌, Bool-cases, Option-cases, inl, inr,
}
use fastsqs.Base.{==_sound}
use fastsqs.Base.Dict
use fastsqs.Exceptions.{ok}
use fastsqs.Types.{Host}
use fastsqs.Routing.{Router}
use fastsqs.Routing.Register.{Outcome, add_variants}

abbrev pub Succeeds : {H : Host} → Outcome H → Type 0
Succeeds (router, r) = r ≡ ok tt

module _ {H : Host} where
  -- What a loop over variants that succeeds leaves behind.
  pub record IsAdded (router : Router H) (primary : String) (variants : List String)
      (out : Router H) : Type 0 where
    pub lookups :
        (k : String)
        → Dict.lookup k out.route_lookup
          ≡ (if contains variants k then some primary else Dict.lookup k router.route_lookup)
    pub agreed :
        (k other : String)
        → contains variants k ≡ true
        → Dict.lookup k router.route_lookup ≡ some other
        → other ≡ primary
    pub same_routes : out.pydantic_routes ≡ router.pydantic_routes
    pub same_matching : out.flexible_matching ≡ router.flexible_matching

  IsAdded-fresh :
      (router : Router H) (primary v : String) (vs : List String) (out : Router H)
      → Dict.lookup v router.route_lookup ≡ none
      → IsAdded
          (record router { route_lookup = Dict.insert v primary router.route_lookup })
          primary
          vs
          out
      → IsAdded router primary (v ∷ vs) out
  IsAdded-fresh router primary v vs out fresh a = record {
    lookups = λ k. ground (arith, a.lookups k, Dict.lookup-insert k v primary router.route_lookup);
    agreed = λ k other listed found.
        ground (arith, a.agreed k other, Dict.lookup-insert k v primary router.route_lookup);
    same_routes = a.same_routes;
    same_matching = a.same_matching;
  }

  IsAdded-known :
      (router : Router H) (primary v : String) (vs : List String) (out : Router H)
      → Dict.lookup v router.route_lookup ≡ some primary
      → IsAdded router primary vs out
      → IsAdded router primary (v ∷ vs) out
  IsAdded-known router primary v vs out known a = record {
    lookups = λ k. ground (arith, a.lookups k);
    agreed = λ k other listed found. ground (arith, a.agreed k other);
    same_routes = a.same_routes;
    same_matching = a.same_matching;
  }

  pub add_variants-IsAdded :
      (router : Router H) (primary : String) (variants : List String)
      → Succeeds (add_variants router primary variants)
      → IsAdded router primary variants (add_variants router primary variants).0
  unfolding add_variants
  add_variants-IsAdded router primary [] h = record {
    lookups = λ k. refl;
    agreed = λ k other listed found. absurd (cc listed);
    same_routes = refl;
    same_matching = refl;
  }
  add_variants-IsAdded router primary (v ∷ vs) h =
      elim (Option-cases (Dict.lookup v router.route_lookup)) [
        | inl fresh ↦
            rw (fresh, add_variants)
              (IsAdded-fresh router primary v vs _ fresh (
                add_variants-IsAdded
                  (record router { route_lookup = Dict.insert v primary router.route_lookup })
                  primary vs (rw (fresh, add_variants) at h)))
        | inr (existing, found) ↦ elim (Bool-cases (existing == primary)) [
          | inr other ↦ absurd (cc (rw (found, other, add_variants) at h))
          | inl same ↦
              rw (found, same, add_variants)
                (IsAdded-known router primary v vs _ (rw (← ==_sound existing primary same) found)
                  (add_variants-IsAdded router primary vs (rw (found, same, add_variants) at h)))
        ]
      ]
