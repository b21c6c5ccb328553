-- ===== src/Claims/Expiry.antt =====
-- The reconcile lease of workers/shared/db.ts under sequences of calls.
use scim_bridge.Base.{
  ℕ, ◌+◌, ◌<◌, String, ◌≡◌, ◌≢◌, refl, true, false, some, List, [], ◌∷◌, arith, ◌&&◌, ◌==◌,
  string_eq, lookup, key-lookup, sym, ◌∙◌, leb, eq_iff, All, lookup-update, Option-cases, inl, inr,
}
use scim_bridge.Claims.{
  Lease, lease_key, is_free, grant, ungrant, held_by, claim_reconcile_run, release_reconcile_run,
  reconcile_claim_ttl,
}

-- Calls on the lease columns, each with its time.
pub data Call : Type 0 where
  acquire : ℕ → String → String → Call
  free : String → String → Call

unfoldable pub answer : Call → List Lease → List Lease
answer (acquire now directory token) rows = (claim_reconcile_run now directory token rows).1
answer (free directory token) rows = release_reconcile_run directory token rows

unfoldable pub answer_all : List Call → List Lease → List Lease
unfolding answer
answer_all [] rows = rows
answer_all (q ∷ qs) rows = answer_all qs (answer q rows)

-- The lease of a directory is held by `token` since `start`.
abbrev pub HeldSince : String → String → ℕ → List Lease → Type 0
HeldSince directory token start rows =
    (l : Lease) × (lookup lease_key directory rows ≡ some l)
    × (l.reconcile_token ≡ some token)
    × (l.reconcile_started_at ≡ some start)

-- A call within the lifetime of the lease that is not the holder's own release.
abbrev pub Within : String → String → ℕ → Call → Type 0
Within directory token start (acquire now d t) = now < start + reconcile_claim_ttl
Within directory token start (free d t) = ¬ ((d ≡ directory) × (t ≡ token))

is_free_of_held :
    (now : ℕ) (l : Lease) (token : String) (start : ℕ)
    → l.reconcile_token ≡ some token
    → l.reconcile_started_at ≡ some start
    → is_free now l ≡ leb (start + reconcile_claim_ttl) now
is_free_of_held now l token start mine since = rw (mine, since)

module _ (directory token : String) (start : ℕ) where
  answer-HeldSince :
      (q : Call) (rows : List Lease)
      → Within directory token start q
      → HeldSince directory token start rows
      → HeldSince directory token start (answer q rows)
  unfolding answer claim_reconcile_run release_reconcile_run
  answer-HeldSince (acquire now d t) rows w (l, stored, mine, since) =
      let busy : is_free now l ≡ false =
        ground (arith, is_free_of_held now l token start mine since) in
      let stays : (l.directory_id == d && is_free now l) ≡ false = ground arith in
      (
        l,
        rw
            (lookup-update lease_key (λ x. x.directory_id == d && is_free now x) (grant now t)
              directory rows (λ x. refl))
            (rw stored (rw stays)),
        mine,
        since,
      )
  answer-HeldSince (free d t) rows w (l, stored, mine, since) =
      let key_l = key-lookup lease_key directory rows stored in
      let differs : ¬ ((l.directory_id ≡ d) × (token ≡ t)) =
        λ both. w (sym both.0 ∙ key_l, sym both.1) in
      let stays : (l.directory_id == d && held_by t l) ≡ false =
        rw mine (ground (arith, differs, eq_iff l.directory_id d, eq_iff token t)) in
      (
        l,
        rw
            (lookup-update lease_key (λ x. x.directory_id == d && held_by t x) ungrant directory
              rows (λ x. refl))
            (rw stored (rw stays)),
        mine,
        since,
      )

  answer_all-HeldSince :
      (qs : List Call) (rows : List Lease)
      → All (Within directory token start) qs
      → HeldSince directory token start rows
      → HeldSince directory token start (answer_all qs rows)
  unfolding answer_all
  answer_all-HeldSince [] rows w h = h
  answer_all-HeldSince (q ∷ qs) rows (w, ws) h =
      answer_all-HeldSince qs (answer q rows) ws (answer-HeldSince q rows w h)

  -- A granted lease is held by its token from that time.
  claim-HeldSince :
      (rows : List Lease)
      → (claim_reconcile_run start directory token rows).0 ≡ true
      → HeldSince directory token start (claim_reconcile_run start directory token rows).1
  unfolding claim_reconcile_run
  claim-HeldSince rows granted = elim (Option-cases (lookup lease_key directory rows)) [
    | inl missing ↦ cc (rw missing at granted)
    | inr (l, stored) ↦
        let key_l = key-lookup lease_key directory rows stored in
        let vacant : is_free start l ≡ true = rw stored at granted in
        let goes : (l.directory_id == directory && is_free start l) ≡ true =
          ground (arith, eq_iff l.directory_id directory) in
        (
          grant start token l,
          rw
              (lookup-update lease_key (λ x. x.directory_id == directory && is_free start x)
                (grant start token) directory rows (λ x. refl))
              (rw stored (rw goes)),
          refl,
          refl,
        )
  ]

-- A request for a lease that is held is granted exactly from the end of its lifetime on, whoever
-- asks, the holder too.
claim-of-held :
    (directory token other : String) (start now : ℕ) (rows : List Lease)
    → HeldSince directory token start rows
    → (claim_reconcile_run now directory other rows).0 ≡ leb (start + reconcile_claim_ttl) now
unfolding claim_reconcile_run
claim-of-held directory token other start now rows (l, stored, mine, since) =
    rw stored (is_free_of_held now l token start mine since)

module _ (directory token : String) (start : ℕ) (rows : List Lease) where
  -- After a granted claim, and whatever calls follow within its lifetime but the holder's own
  -- release, a further claim on the directory is granted exactly if the lifetime is over.
  pub lease_exclusive :
      (other : String) (now : ℕ) (qs : List Call)
      → (claim_reconcile_run start directory token rows).0 ≡ true
      → All (Within directory token start) qs
      → (claim_reconcile_run now directory other
          (answer_all qs (claim_reconcile_run start directory token rows).1)).0
        ≡ leb (start + reconcile_claim_ttl) now
  lease_exclusive other now qs granted within =
      let taken = (claim_reconcile_run start directory token rows).1 in
      claim-of-held directory token other start now (answer_all qs taken) (
        answer_all-HeldSince directory token start qs taken within
          (claim-HeldSince directory token start rows granted))

  -- After a granted claim, a release under any other token leaves the lease held by the claim's token
  -- since the claim's time.
  pub late_release_keeps :
      (late : String)
      → late ≢ token
      → (claim_reconcile_run start directory token rows).0 ≡ true
      → HeldSince directory token start
          (release_reconcile_run directory late (claim_reconcile_run start directory token rows).1)
  late_release_keeps late differs granted =
      unfold answer in
      answer-HeldSince directory token start (free directory late)
        (claim_reconcile_run start directory token rows).1 (λ both. differs both.1)
        (claim-HeldSince directory token start rows granted)
