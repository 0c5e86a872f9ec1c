-- ===== src/Audit/Integrity.antt =====
-- What `verify_chain` detects.
use mathlib.Core.List.{reverse, reverse_aux, reverse-reverse}
use finguard_major_project.Prelude.{
  ℕ, ◌+◌, String, ◌≡◌, refl, sym, ap, subst, ◌∙◌, ◌≢◌, ◌↔◌, true, List, [], ◌∷◌, map, get_last,
  ◌==◌, Bool-cases, inl, inr, ==_iff,
}
use finguard_major_project.Audit.{AuditEvent}
use finguard_major_project.Audit.Chain.{
  AuditRow, Hashing, decide, row_to_event, rows_of, hash_of, verify_rows, verify_chain, load_audit,
}

-- The assumption on the hash: no collision, and no event hashes to the genesis value. The canonical JSON
-- sorts the keys of a dict, so the details of an event are read with their keys in that order.
pub record CollisionFree (h : Hashing) : Type 0 where
  pub injective :
      (p q : h.Hash) (e f : AuditEvent) → h.digest p e ≡ h.digest q f → (p ≡ q) × (e ≡ f)
  pub fresh : (p : h.Hash) (e : AuditEvent) → h.digest p e ≢ h.genesis

decide-true {ℓ} : {P : Type ℓ} (d : Dec P) → decide d ≡ true → P
decide-true (yes p) e = p
decide-true (no p) e = cc e

true-decide {ℓ} : {P : Type ℓ} (d : Dec P) → P → decide d ≡ true
true-decide (yes p) e = refl
true-decide (no p) e = absurd (p e)

module _ (h : Hashing) where
  open h use {Hash, genesis, digest, same}

  -- A chain, with no mention of the verifier: numbered from `n`, each row linked to the one before
  -- and carrying the hash of its own content.
  abbrev pub IsChain : ℕ → Hash → List (AuditRow Hash) → Type 0
  IsChain n prev [] = Unit
  IsChain n prev (r ∷ rs) =
      (r.seq ≡ n)
      × (r.prev_hash ≡ prev)
      × (digest prev (row_to_event h r) ≡ r.hash)
      × IsChain (n + 1) r.hash rs

  verify-IsChain :
      (total n : ℕ) (prev : Hash) (rows : List (AuditRow Hash))
      → (verify_rows h total n prev rows).ok ≡ true
      → IsChain n prev rows
  unfolding verify_rows
  verify-IsChain total n prev [] k = tt
  verify-IsChain total n prev (r ∷ rs) k = elim (Bool-cases (r.seq == n)) [
    | inr e ↦ cc (rw e at k)
    | inl e ↦ elim (Bool-cases (decide (same r.prev_hash prev))) [
      | inr f ↦ cc (rw (e, f) at k)
      | inl f ↦ elim (Bool-cases (decide (same (digest prev (row_to_event h r)) r.hash))) [
        | inr g ↦ cc (rw (e, f, g) at k)
        | inl g ↦ (
          (==_iff r.seq n).0 e,
          decide-true _ f,
          decide-true _ g,
          verify-IsChain total (n + 1) r.hash rs (rw (e, f, g) at k),
        )
      ]
    ]
  ]

  IsChain-verify :
      (total n : ℕ) (prev : Hash) (rows : List (AuditRow Hash))
      → IsChain n prev rows
      → (verify_rows h total n prev rows).ok ≡ true
  unfolding verify_rows
  IsChain-verify total n prev [] k = refl
  IsChain-verify total n prev (r ∷ rs) k =
      let a = (==_iff r.seq n).1 k.0 in
      let b = true-decide (same r.prev_hash prev) k.1 in
      let c = true-decide (same (digest prev (row_to_event h r)) r.hash) k.2 in
      rw (a, b, c) (IsChain-verify total (n + 1) r.hash rs k.3)

  -- The verifier accepts a case's trail exactly when its rows, in the order of their numbers, are
  -- numbered 1, 2, 3, ..., each links to the one before, and each hash is that of its own content.
  pub verify_chain-IsChain_iff :
      (table : List (AuditRow Hash)) (case_id : String)
      → ((verify_chain h table case_id).ok ≡ true) ↔ IsChain 1 genesis (rows_of h case_id table)
  unfolding verify_chain
  verify_chain-IsChain_iff table case_id = (
    verify-IsChain _ 1 genesis (rows_of h case_id table),
    IsChain-verify _ 1 genesis (rows_of h case_id table),
  )

  -- The hash of a list of events, newest first, and of events that follow it.
  hash_back : List AuditEvent → Hash
  hash_back [] = genesis
  hash_back (e ∷ es) = digest (hash_back es) e

  abbrev pub final : Hash → List (AuditRow Hash) → Hash
  final prev [] = prev
  final prev (r ∷ rs) = final r.hash rs

  final-hash_back :
      (n : ℕ) (es : List AuditEvent) (rows : List (AuditRow Hash))
      → IsChain n (hash_back es) rows
      → final (hash_back es) rows ≡ hash_back (reverse_aux (map (row_to_event h) rows) es)
  unfolding hash_back
  final-hash_back n es [] c = refl
  final-hash_back n es (r ∷ rs) c =
      let e : hash_back (row_to_event h r ∷ es) ≡ r.hash = c.2 in
      ap (λ p. final p rs) (sym e)
      ∙ final-hash_back (n + 1) (row_to_event h r ∷ es) rs
          (subst (λ p. IsChain (n + 1) p rs) (sym e) c.3)

  hash_back-injective :
      CollisionFree h → (xs ys : List AuditEvent) → hash_back xs ≡ hash_back ys → xs ≡ ys
  unfolding hash_back
  hash_back-injective free [] [] e = refl
  hash_back-injective free [] (y ∷ ys) e = absurd (free.fresh (hash_back ys) y (sym e))
  hash_back-injective free (x ∷ xs) [] e = absurd (free.fresh (hash_back xs) x e)
  hash_back-injective free (x ∷ xs) (y ∷ ys) e =
      let (p, q) = free.injective (hash_back xs) (hash_back ys) x y e in
      cc (q, hash_back-injective free xs ys p)

  final-hash_of :
      (prev : Hash) (r : AuditRow Hash) (rows : List (AuditRow Hash))
      → final prev (r ∷ rows) ≡ hash_of h (get_last (r ∷ rows))
  final-hash_of prev r [] = refl
  final-hash_of prev r (q ∷ rows) = final-hash_of r.hash q rows

  pub final-last_hash :
      (rows : List (AuditRow Hash)) → final genesis rows ≡ hash_of h (get_last rows)
  final-last_hash [] = refl
  final-last_hash (r ∷ rows) = final-hash_of genesis r rows

  -- Tamper evidence: with a hash without collisions, two verified trails of a case that end in the
  -- same hash hold the same events in the same order.
  pub verify_chain-evidence :
      CollisionFree h
      → (t u : List (AuditRow Hash)) (case_id : String) → (verify_chain h t case_id).ok ≡ true
      → (verify_chain h u case_id).ok ≡ true
      → hash_of h (get_last (rows_of h case_id t)) ≡ hash_of h (get_last (rows_of h case_id u))
      → load_audit h t case_id ≡ load_audit h u case_id
  unfolding load_audit hash_back
  verify_chain-evidence free t u case_id ok_t ok_u same_end =
      let xs = rows_of h case_id t in
      let ys = rows_of h case_id u in
      let p = final-hash_back 1 [] xs ((verify_chain-IsChain_iff t case_id).0 ok_t) in
      let q = final-hash_back 1 [] ys ((verify_chain-IsChain_iff u case_id).0 ok_u) in
      let a = final-last_hash xs in
      let b = final-last_hash ys in
      let back =
        hash_back-injective free (reverse (map (row_to_event h) xs))
          (reverse (map (row_to_event h) ys)) (sym p ∙ a ∙ same_end ∙ sym b ∙ q) in
      sym (reverse-reverse (map (row_to_event h) xs))
      ∙ ap reverse back
      ∙ reverse-reverse (map (row_to_event h) ys)
