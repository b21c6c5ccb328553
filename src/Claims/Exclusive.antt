-- ===== src/Claims/Exclusive.antt =====
-- The claim on a directory's creates (workers/shared/db.ts) under sequences of requests.
use scim_bridge.Base.{
  String, ◌≡◌, refl, true, false, Option, none, some, List, [], ◌∷◌, arith, not, ◌&&◌, ◌==◌,
  string_eq, pair_eq, lookup, eq_iff, All, Unique, lookup-upsert, lookup-keep, keep-Unique,
  upsert-Unique, Bool-cases, inl, inr, eq_of_beq, beq_refl, sym, ◌∙◌, key-lookup,
}
use scim_bridge.Types.{ResourceType, kind_eq, kind_beq_iff}
use scim_bridge.Claims.{
  CreateClaim, ClaimKey, claim_key, claimed, claim_workos_primary_create,
  release_workos_primary_create,
}

abbrev pub IsKeyed : List CreateClaim → Type 0
IsKeyed rows = Unique claim_key rows

-- Requests on the claims table, from any number of callers.
pub data Request : Type 0 where
  acquire : String → ResourceType → String → Request
  free : String → ResourceType → String → Request

unfoldable pub serve : Request → List CreateClaim → List CreateClaim
serve (acquire directory kind token) rows =
    (claim_workos_primary_create directory kind token rows).1
serve (free directory kind token) rows = release_workos_primary_create directory kind token rows

unfoldable pub serve_all : List Request → List CreateClaim → List CreateClaim
unfolding serve
serve_all [] rows = rows
serve_all (q ∷ qs) rows = serve_all qs (serve q rows)

abbrev pub Holds : ClaimKey → String → List CreateClaim → Type 0
Holds k token rows = (c : CreateClaim) × (lookup claim_key k rows ≡ some c) × (c.token ≡ token)

-- Any request but the holder's own release.
abbrev pub NotReleased : ClaimKey → String → Request → Type 0
NotReleased k token (acquire d kind t) = Unit
NotReleased k token (free d kind t) = ¬ ((◌≡◌ {A = ClaimKey} (d, kind) k) × (t ≡ token))

claimed-IsKeyed :
    (c : CreateClaim) (o : Option CreateClaim) (rows : List CreateClaim)
    → IsKeyed rows
    → IsKeyed (claimed c o rows).1
claimed-IsKeyed c none rows u = upsert-Unique claim_key (λ x. x) c rows (λ x. refl) u
claimed-IsKeyed c (some held) rows u = u

serve-IsKeyed : (q : Request) (rows : List CreateClaim) → IsKeyed rows → IsKeyed (serve q rows)
unfolding serve claim_workos_primary_create release_workos_primary_create
serve-IsKeyed (acquire d kind t) rows u =
    claimed-IsKeyed (record { directory_id = d; resource_type = kind; token = t })
      (lookup claim_key (d, kind) rows) rows u
serve-IsKeyed (free d kind t) rows u =
    keep-Unique claim_key (λ c. not (◌==◌ {A = ClaimKey} (claim_key c) (d, kind) && c.token == t))
      rows u

module _ (k : ClaimKey) (token : String) where
  claimed-Holds :
      (c : CreateClaim) (o : Option CreateClaim) (rows : List CreateClaim)
      → lookup claim_key (claim_key c) rows ≡ o
      → Holds k token rows
      → Holds k token (claimed c o rows).1
  claimed-Holds c none rows fresh (held, stored, mine) = elim (Bool-cases (claim_key c == k)) [
    | inl same ↦
        let k' = eq_of_beq (claim_key c) k same in
        let clash : lookup claim_key k rows ≡ none = rw k' at fresh in cc
    | inr other ↦
        (held, rw (lookup-upsert claim_key (λ x. x) c k rows (λ x. refl)) (rw other stored), mine)
  ]
  claimed-Holds c (some other) rows found h = h

  serve-Holds :
      (q : Request) (rows : List CreateClaim)
      → IsKeyed rows
      → NotReleased k token q
      → Holds k token rows
      → Holds k token (serve q rows)
  unfolding serve claim_workos_primary_create release_workos_primary_create
  serve-Holds (acquire d kind t) rows u n h =
      claimed-Holds (record { directory_id = d; resource_type = kind; token = t })
        (lookup claim_key (d, kind) rows) rows refl h
  serve-Holds (free d kind t) rows u n (c, stored, mine) =
      let key_c = key-lookup claim_key k rows stored in
      let differs : ¬ ((claim_key c ≡ (d, kind)) × (c.token ≡ t)) =
        λ both. n (sym both.0 ∙ key_c, sym both.1 ∙ mine) in
      let stays : (◌==◌ {A = ClaimKey} (claim_key c) (d, kind) && c.token == t) ≡ false = ground (
        arith,
        differs,
        eq_iff c.directory_id d,
        kind_beq_iff c.resource_type kind,
        eq_iff c.token t,
      ) in
      (
        c,
        rw
            (lookup-keep claim_key
              (λ x. not (◌==◌ {A = ClaimKey} (claim_key x) (d, kind) && x.token == t)) k rows u)
            (rw stored (rw stays)),
        mine,
      )

  serve_all-Holds :
      (qs : List Request) (rows : List CreateClaim)
      → IsKeyed rows
      → All (NotReleased k token) qs
      → Holds k token rows
      → Holds k token (serve_all qs rows)
  unfolding serve_all
  serve_all-Holds [] rows u n h = h
  serve_all-Holds (q ∷ qs) rows u (n, ns) h =
      serve_all-Holds qs (serve q rows) (serve-IsKeyed q rows u) ns (serve-Holds q rows u n h)

-- A request for a claim that is held is granted exactly to the token that holds it.
claim-Holds :
    (d : String) (kind : ResourceType) (token other : String) (rows : List CreateClaim)
    → Holds (d, kind) token rows
    → (claim_workos_primary_create d kind other rows).0 ≡ (token == other)
unfolding claim_workos_primary_create
claim-Holds d kind token other rows (c, stored, mine) = rw (stored, mine)

module _ (d : String) (kind : ResourceType) (token : String) (rows : List CreateClaim) where
  claimed-grants :
      (o : Option CreateClaim)
      → lookup claim_key (d, kind) rows ≡ o
      → (claimed (record { directory_id = d; resource_type = kind; token = token }) o rows).0 ≡ true
      → Holds
          (d, kind)
          token
          (claimed (record { directory_id = d; resource_type = kind; token = token }) o rows).1
  claimed-grants none fresh granted = (
    record { directory_id = d; resource_type = kind; token = token },
    rw
        (lookup-upsert claim_key (λ x. x)
          (record { directory_id = d; resource_type = kind; token = token }) (d, kind) rows
          (λ x. refl))
        (rw (beq_refl {A = ClaimKey} (d, kind)) (rw fresh)),
    refl,
  )
  claimed-grants (some c) found granted = (c, found, (eq_iff c.token token).0 granted)

  -- In a table without repeated keys, once a claim is granted, and for as long as no release of it
  -- under its token is made, whatever claims and
  -- releases are made by others, a further request is granted exactly to the holder's own token.
  pub claim_exclusive :
      (other : String) (qs : List Request)
      → IsKeyed rows
      → (claim_workos_primary_create d kind token rows).0 ≡ true
      → All (NotReleased (d, kind) token) qs
      → (claim_workos_primary_create d kind other
          (serve_all qs (claim_workos_primary_create d kind token rows).1)).0
        ≡ (token == other)
  claim_exclusive other qs u granted ns =
      let taken = (claim_workos_primary_create d kind token rows).1 in
      claim-Holds d kind token other (serve_all qs taken) (
        serve_all-Holds (d, kind) token qs taken
          (unfold serve in serve-IsKeyed (acquire d kind token) rows u) ns
          (unfold claim_workos_primary_create in
            claimed-grants (lookup claim_key (d, kind) rows) refl granted))

  -- In a table without repeated keys, after the holder of a claim releases it the next request is
  -- granted, whoever makes it.
  pub release_frees :
      (other : String)
      → IsKeyed rows
      → Holds (d, kind) token rows
      → (claim_workos_primary_create d kind other
          (release_workos_primary_create d kind token rows)).0
        ≡ true
  unfolding claim_workos_primary_create release_workos_primary_create
  release_frees other u (c, stored, mine) =
      let k : ClaimKey = (d, kind) in
      let key_c = key-lookup claim_key k rows stored in
      let goes : (claim_key c == k && c.token == token) ≡ true =
        ground (
          arith,
          eq_iff c.directory_id d,
          kind_beq_iff c.resource_type kind,
          eq_iff c.token token,
        ) in
      rw
        (lookup-keep claim_key (λ x. not (◌==◌ {A = ClaimKey} (claim_key x) k && x.token == token))
          k rows u)
        (rw stored (rw goes))
