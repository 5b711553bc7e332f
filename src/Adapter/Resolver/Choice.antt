-- ===== src/Adapter/Resolver/Choice.antt =====
-- src/adapter/resolver.rs: `resolve` answers with a best provider, or there is none.
use mathlib.Core.Path.{subst}
use aros_kernel.Prelude.{
  ℕ, String, string_eq, ◌≤◌, ◌≡◌, ◌↔◌, ◌⊎◌, inl, inr, refl, sym, ap, ◌∙◌, true, Option, none, some,
  List, [], ◌∷◌, map, leb, filter, contains, first, In, In-filter, In-filter_of, arith, Bool-cases,
  In-map,
}
use aros_kernel.Prelude.Result.{ok, err}
use aros_kernel.Adapter.Config.{ProviderConfig, AdapterRequest, DegradationLevel}
use aros_kernel.Adapter.Resolver.{
  no_provider_available, zone_allows, meets_capabilities, differs, degradation, degrade,
  insert_by_rank, sort_by_rank, resolve,
}

abbrev Candidate : Type 0
Candidate = ProviderConfig × DegradationLevel

-- A provider that may serve the request.
pub record IsSuitable (req : AdapterRequest) (available_ids : List String) (last : Option String)
    (p : ProviderConfig) : Type 0 where
  pub zone : zone_allows req.security_zone p.zone_allowlist ≡ true
  pub capable : meets_capabilities req.capabilities p ≡ true
  pub healthy : contains available_ids p.id ≡ true
  pub different : differs req last p ≡ true

abbrev rank_of : Candidate → ℕ
rank_of c = c.0.fallback_rank

-- The head of a list ranks no higher than any element.
abbrev Leads : Candidate → List Candidate → Type 0
Leads c cs = (d : Candidate) → In d cs → rank_of c ≤ rank_of d

-- What the head of a list is after an insertion.
insert-first :
    (c : Candidate) (cs : List Candidate)
    → ((first (insert_by_rank c cs) ≡ some c)
        × ((e : Candidate) → first cs ≡ some e → rank_of c ≤ rank_of e))
      ⊎ ((d : Candidate) × (first (insert_by_rank c cs) ≡ some d)
          × (first cs ≡ some d)
          × (rank_of d ≤ rank_of c))
unfolding insert_by_rank
insert-first c [] = inl (refl, λ e h. absurd (ground arith))
insert-first c (d ∷ cs) = elim (Bool-cases (leb (rank_of c) (rank_of d))) [
  | inl below ↦ inl (rw below refl, λ e h. ground arith)
  | inr above ↦ inr (d, rw above refl, refl, ground arith)
]

-- The first of a sorted list is one of the list, and leads it.
sort-first :
    (cs : List Candidate)
    → ((cs ≡ []) × (first (sort_by_rank cs) ≡ none))
      ⊎ ((c : Candidate) × (first (sort_by_rank cs) ≡ some c) × In c cs × Leads c cs)
unfolding sort_by_rank
sort-first [] = inl (refl, refl)
sort-first (c ∷ cs) = inr (elim (insert-first c (sort_by_rank cs)) [
  | inl (new, below) ↦ (c, new, inl refl, lead_new c cs below (sort-first cs))
  | inr (d, new, old, above) ↦ elim (sort-first cs) [
    | inl (gone, none_first) ↦ absurd (ground arith)
    | inr (e, first_e, here, leads) ↦
        let same : d ≡ e = ground arith in
        (
          d,
          new,
          inr (subst (λ x. In x cs) (sym same) here),
          λ x. elim [
            | inl at ↦ omega (arith, ap rank_of at, above)
            | inr later ↦ omega (arith, ap rank_of same, leads x later)
          ],
        )
  ]
])
  where
    lead_new :
        (c : Candidate) (cs : List Candidate)
        → ((e : Candidate) → first (sort_by_rank cs) ≡ some e → rank_of c ≤ rank_of e)
        → ((cs ≡ []) × (first (sort_by_rank cs) ≡ none))
          ⊎ ((d : Candidate) × (first (sort_by_rank cs) ≡ some d) × In d cs × Leads d cs)
        → Leads c (c ∷ cs)
    lead_new c cs below sorted x (inl at) = omega (arith, ap rank_of at)
    lead_new c cs below (inl (gone, _)) x (inr later) = absurd (rw gone at later)
    lead_new c cs below (inr (d, first_d, here, leads)) x (inr later) =
        omega (arith, below d first_d, leads x later)

In-degrade :
    (p : ProviderConfig) (ps : List ProviderConfig) → In p ps → In (degrade p) (map degrade ps)
In-degrade p [] i = absurd i
In-degrade p (q ∷ ps) (inl same) = inl (ap degrade same)
In-degrade p (q ∷ ps) (inr i) = inr (In-degrade p ps i)

rank_degrade : (p : ProviderConfig) → rank_of (degrade p) ≡ p.fallback_rank
unfolding degrade
rank_degrade p = refl

module _ (req : AdapterRequest) (providers : List ProviderConfig) (available_ids : List String)
    (last : Option String) where
  zoned : List ProviderConfig
  zoned = filter (λ p. zone_allows req.security_zone p.zone_allowlist) providers

  capable : List ProviderConfig
  capable = filter (meets_capabilities req.capabilities) zoned

  healthy : List ProviderConfig
  healthy = filter (λ p. contains available_ids p.id) capable

  suitable : List ProviderConfig
  suitable = filter (differs req last) healthy

  suitable_iff :
      (p : ProviderConfig) → In p suitable ↔ (In p providers × IsSuitable req available_ids last p)
  unfolding suitable healthy capable zoned
  suitable_iff p = (
    λ i.
        let (in_healthy, d) = In-filter (differs req last) p healthy i in
        let (in_capable, h) = In-filter (λ q. contains available_ids q.id) p capable in_healthy in
        let (in_zoned, c) = In-filter (meets_capabilities req.capabilities) p zoned in_capable in
        let (listed, z) =
          In-filter (λ q. zone_allows req.security_zone q.zone_allowlist) p providers in_zoned in
        (listed, record { zone = z; capable = c; healthy = h; different = d }),
    λ (listed, s).
        In-filter_of (differs req last) p healthy
          (In-filter_of (λ q. contains available_ids q.id) p capable
            (In-filter_of (meets_capabilities req.capabilities) p zoned
              (In-filter_of (λ q. zone_allows req.security_zone q.zone_allowlist) p providers listed
                s.zone)
              s.capable)
            s.healthy)
          s.different,
  )

  resolve-none :
      first (sort_by_rank (map degrade suitable)) ≡ none
      → resolve req providers available_ids last ≡ err (no_provider_available req.security_zone)
  unfolding resolve suitable healthy capable zoned
  resolve-none h = ground (arith, h)

  resolve-some :
      (p : ProviderConfig)
      → first (sort_by_rank (map degrade suitable)) ≡ some (degrade p)
      → resolve req providers available_ids last
        ≡ ok (record { config = p; degradation_level = degradation p.fallback_rank })
  unfolding resolve suitable healthy capable zoned degrade
  resolve-some p h = ground (arith, h)

  -- The answer is a suitable provider of the lowest fallback rank among the suitable ones, with
  -- the degradation of its rank; or no provider of the list is suitable, and an error says so for
  -- the zone of the request.
  pub resolve_outcomes :
      ((p : ProviderConfig) × (resolve req providers available_ids last
          ≡ ok (record { config = p; degradation_level = degradation p.fallback_rank }))
        × In p providers
        × IsSuitable req available_ids last p
        × ((q : ProviderConfig)
            → In q providers
            → IsSuitable req available_ids last q
            → p.fallback_rank ≤ q.fallback_rank))
      ⊎ ((resolve req providers available_ids last ≡ err (no_provider_available req.security_zone))
          × ((q : ProviderConfig) → In q providers → IsSuitable req available_ids last q → ⊥))
  resolve_outcomes = elim (sort-first (map degrade suitable)) [
    | inl (gone, none_first) ↦ inr (
      resolve-none none_first,
      λ q listed s. absurd (
          let i : In (degrade q) [] =
            rw gone at (In-degrade q suitable ((suitable_iff q).1 (listed, s))) in
          i),
    )
    | inr (c, first_c, here, leads) ↦
        let (p, in_p, same) = In-map degrade c suitable here in
        let (listed, s) = (suitable_iff p).0 in_p in
        inl (
          p,
          resolve-some p (first_c ∙ ap some same),
          listed,
          s,
          λ q q_listed q_s. omega (
            arith,
            rank_degrade p,
            rank_degrade q,
            ap rank_of same,
            leads (degrade q) (In-degrade q suitable ((suitable_iff q).1 (q_listed, q_s))),
          ),
        )
  ]
