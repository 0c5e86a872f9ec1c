-- ===== src/Agents/Investigator.antt =====
-- `InvestigationAgent.retrieve` of agents/investigator/agent.py. `search` stands for the retriever of
-- knowledge_base/retrieval, asked for the best trusted chunk of a query.
use finguard_major_project.Prelude.{
  ℕ, String, not, ◌&&◌, List, [], ◌∷◌, ◌++◌, length, ltb, if◌then◌else◌, map,
}
use finguard_major_project.Pipeline.Store.{member}
use finguard_major_project.Guardrails.Models.{RetrievedChunk}
use finguard_major_project.Contracts.{RetrievalOutput}

-- `seen` is the set of the ids of `chunks`.
unfoldable pub add_chunk : ℕ → RetrievedChunk → List RetrievedChunk → List RetrievedChunk
add_chunk max_chunks chunk chunks =
    if not (member chunk.chunk_id (map (λ c. c.chunk_id) chunks)) && ltb (length chunks) max_chunks
    then chunks ++ chunk ∷ []
    else chunks

unfoldable pub add_chunks : ℕ → List RetrievedChunk → List RetrievedChunk → List RetrievedChunk
unfolding add_chunk
add_chunks max_chunks [] chunks = chunks
add_chunks max_chunks (c ∷ found) chunks =
    add_chunks max_chunks found (add_chunk max_chunks c chunks)

unfoldable pub collect :
    ℕ → (String → List RetrievedChunk) → List String → List RetrievedChunk → List RetrievedChunk
unfolding add_chunks
collect max_chunks search [] chunks = chunks
collect max_chunks search (q ∷ queries) chunks =
    collect max_chunks search queries (add_chunks max_chunks (search q) chunks)

-- The queries are those that `build_queries` derives from the evidence.
unfoldable pub retrieve : ℕ → (String → List RetrievedChunk) → List String → RetrievalOutput
unfolding collect
retrieve max_chunks search queries = record {
  queries = queries;
  chunks = collect max_chunks search queries [];
}
