-- ===== src/Agents/Retrieval.antt =====
-- The chunks that the investigator retrieves (agents/investigator/agent.py).
use finguard_major_project.Prelude.{
  ℕ, ◌≤◌, String, ◌≡◌, refl, sym, ap, subst, ◌∙◌, Bool, true, false, not, ◌&&◌, List, [], ◌∷◌, ◌++◌,
  All, All-append, arith, any-append, length, length-append, ltb, ltb→lt, map, str_eq, eq_iff,
  Bool-cases, inl, inr, &&_split, ◌||◌,
}
use finguard_major_project.Pipeline.Store.{member}
use finguard_major_project.Guardrails.Models.{RetrievedChunk}
use finguard_major_project.Agents.Investigator.{add_chunk, add_chunks, collect, retrieve}

abbrev pub ids : List RetrievedChunk → List String
ids chunks = map (λ c. c.chunk_id) chunks

-- No text stands twice.
abbrev pub Distinct : List String → Type 0
Distinct [] = Unit
Distinct (k ∷ ks) = (member k ks ≡ false) × Distinct ks

-- What is kept of the chunks that are collected, with any property that every answer of the search has.
pub record Collected (max_chunks : ℕ) (P : RetrievedChunk → Type 0) (chunks : List RetrievedChunk)
    : Type 0 where
  pub bound : length chunks ≤ max_chunks
  pub distinct : Distinct (ids chunks)
  pub each : All P chunks

member_sym : (a b : String) → str_eq a b ≡ str_eq b a
member_sym a b = ground (arith, eq_iff a b, eq_iff b a)

Distinct-append :
    (ks : List String) (k : String) → Distinct ks → member k ks ≡ false → Distinct (ks ++ k ∷ [])
Distinct-append [] k d n = (refl, tt)
Distinct-append (j ∷ ks) k (here, there) n = (
  any-append (λ s. str_eq s j) ks (k ∷ []) ∙ ground (arith, here, member_sym j k, n),
  Distinct-append ks k there (right (str_eq j k) _ n),
)
  where
    right : (a b : Bool) → (a || b) ≡ false → b ≡ false
    right false b h = h
    right true b h = absurd (cc h)

map-append_one :
    (chunks : List RetrievedChunk) (c : RetrievedChunk)
    → ids (chunks ++ c ∷ []) ≡ ids chunks ++ c.chunk_id ∷ []
map-append_one [] c = refl
map-append_one (x ∷ chunks) c = ap (λ l. x.chunk_id ∷ l) (map-append_one chunks c)

module _ (max_chunks : ℕ) (P : RetrievedChunk → Type 0) where
  add_chunk-Collected :
      (c : RetrievedChunk) (chunks : List RetrievedChunk)
      → P c
      → Collected max_chunks P chunks
      → Collected max_chunks P (add_chunk max_chunks c chunks)
  unfolding add_chunk
  add_chunk-Collected c chunks p g =
      elim (Bool-cases (not (member c.chunk_id (ids chunks)) && ltb (length chunks) max_chunks)) [
        | inl t ↦
            let (new, room) = &&_split _ _ t in
            rw t (record {
              bound =
                  omega
                    (arith, length-append chunks (c ∷ []), ltb→lt (length chunks) max_chunks room);
              distinct =
                  subst Distinct (sym (map-append_one chunks c))
                    (Distinct-append (ids chunks) c.chunk_id g.distinct (not-true _ new));
              each = All-append P chunks (c ∷ []) g.each (p, tt);
            })
        | inr f ↦ rw f g
      ]
    where
      not-true : (b : Bool) → not b ≡ true → b ≡ false
      not-true true h = sym h
      not-true false h = refl

  add_chunks-Collected :
      (found chunks : List RetrievedChunk)
      → All P found
      → Collected max_chunks P chunks
      → Collected max_chunks P (add_chunks max_chunks found chunks)
  unfolding add_chunks
  add_chunks-Collected [] chunks ps g = g
  add_chunks-Collected (c ∷ found) chunks (p, ps) g =
      add_chunks-Collected found (add_chunk max_chunks c chunks) ps
        (add_chunk-Collected c chunks p g)

  collect-Collected :
      (search : String → List RetrievedChunk) (queries : List String) (chunks : List RetrievedChunk)
      → ((q : String) → All P (search q))
      → Collected max_chunks P chunks
      → Collected max_chunks P (collect max_chunks search queries chunks)
  unfolding collect
  collect-Collected search [] chunks ps g = g
  collect-Collected search (q ∷ queries) chunks ps g =
      collect-Collected search queries (add_chunks max_chunks (search q) chunks) ps
        (add_chunks-Collected (search q) chunks (ps q) g)

  -- Whatever the queries are, at most `max_chunks` chunks are retrieved, no two have the same id, and
  -- what holds of every chunk that the search answers with, such as being trusted, holds of each.
  pub retrieve-Collected :
      (search : String → List RetrievedChunk) (queries : List String)
      → ((q : String) → All P (search q))
      → Collected max_chunks P (retrieve max_chunks search queries).chunks
  unfolding retrieve
  retrieve-Collected search queries ps =
      collect-Collected search queries [] ps
        (record { bound = omega arith; distinct = tt; each = tt })
