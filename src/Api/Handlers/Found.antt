-- ===== src/Api/Handlers/Found.antt =====
-- The hits of a search over HTTP (`search_documents` of crates/api/src/handlers.rs).
use lumen.Base.{
  ℕ, ◌≤◌, Text, length, subst, Result, ok, err, err_ok, ok_inj, try_map, Result-cases, inl, inr,
  ◌≡◌, refl, ap, sym, ◌∙◌, Option-cases, Bool-cases, get, nat_ord,
}
use lumen.Core.Error.{done, failed_done}
use lumen.Core.Json.{JsonApi}
use lumen.Core.Tantivy.{TantivyApi}
use lumen.Core.Wal.{Externals}
use lumen.Core.Search.{SearchResults}
use lumen.Core.Search.Limits.{length-try_map, execute_limit}
use lumen.Core.Catalog.State.{Catalog}
use lumen.Core.Catalog.Store.{read_index}
use lumen.Core.Catalog.Writes as Writes
use lumen.Core.Catalog.Steps.{entry_then}
use lumen.Api.Engine.{Engine}
use lumen.Api.Engine.Standalone.{standalone}
use lumen.Api.Engine.Clustered.{clustered}
use lumen.Api.Engine.Clustered as Clustered
use lumen.Cluster.Client.{Raft, ClientError, is_leader}
use lumen.Cluster.Client as Client
use lumen.Api.Engine.Answers.{run_done, asked_ok, client_run_ok}
use lumen.Api.Engine.Standalone as Standalone
use lumen.Api.Handlers.{
  Reply, SearchParams, SearchResponse, search_documents, search_response, hit_response, unwrap_or,
  default_limit,
}
use lumen.Api.Errors.{ApiError}

-- An engine whose searches keep to the limit.
abbrev pub IsLimited : {S Score : Type 0} → Engine S Score → Type 0
IsLimited {S = S} {Score = Score} engine =
    (name query : Text) (limit offset : ℕ) (s s' : S) (r : SearchResults Score)
    → engine.search name query limit offset s ≡ (ok r, s')
    → length r.hits ≤ limit

module _ {json : JsonApi} {Score : Type 0} where
  length-search_response :
      (results : SearchResults Score) (took_ms : ℕ) (r : SearchResponse json Score)
      → search_response json results took_ms ≡ ok r
      → length r.hits ≡ length results.hits
  unfolding search_response
  length-search_response results took_ms r h =
      elim (Result-cases (try_map (hit_response json) results.hits)) [
        | inl (e, q) ↦ absurd (err_ok e r (rw (q, search_response) at h))
        | inr (hits, q) ↦
            ap (λ x. length x.hits)
              (sym (
                ok_inj (record { hits = hits; total = results.total; took_ms = took_ms }) r
                  (rw (q, search_response) at h)))
            ∙ length-try_map (hit_response json) results.hits hits q
      ]

  -- Over an engine that keeps to the limit, a search that is answered has at most as many hits as
  -- the query's limit, and at most ten if it gives none.
  search_documents_limited :
      {S : Type 0} (engine : Engine S Score) (took_ms : ℕ) (name : Text) (params : SearchParams)
      (reply : Reply (SearchResponse json Score)) (s s' : S)
      → IsLimited engine
      → search_documents json engine took_ms name params s ≡ (ok reply, s')
      → length reply.body.hits ≤ unwrap_or params.limit default_limit
  unfolding search_documents
  search_documents_limited {S = S} engine took_ms name params reply s s' limited h =
      answered
        (engine.search name params.q (unwrap_or params.limit default_limit)
          (unwrap_or params.offset 0) s)
        refl
    where
      answered :
          (r : Result ApiError (SearchResults Score) × S)
          → engine.search name params.q
              (unwrap_or params.limit default_limit)
              (unwrap_or params.offset 0)
              s
            ≡ r
          → length reply.body.hits ≤ unwrap_or params.limit default_limit
      answered (err e, t) q =
          let bad : ◌≡◌ {A = Result ApiError (Reply (SearchResponse json Score)) × S} (err e, t)
              (ok reply, s') =
            rw (q, search_documents) at h in
          absurd (err_ok e reply (ap (λ r. r.0) bad))
      answered (ok results, t) q = elim (Result-cases (search_response json results took_ms)) [
        | inl (e, f) ↦
            let bad : ◌≡◌ {A = Result ApiError (Reply (SearchResponse json Score)) × S} (err e, t)
                (ok reply, s') =
              rw (q, search_documents, f) at h in
            absurd (err_ok e reply (ap (λ r. r.0) bad))
        | inr (body, f) ↦
            let good : ◌≡◌ {A = Result ApiError (Reply (SearchResponse json Score)) × S}
                (ok (record { status = 200; body = body }), t) (ok reply, s') =
              rw (q, search_documents, f) at h in
            subst (λ n. n ≤ unwrap_or params.limit default_limit)
              (sym (length-search_response results took_ms body f)
                ∙ ap (λ x. length x.body.hits)
                    (ok_inj (record { status = 200; body = body }) reply (ap (λ r. r.0) good)))
              (limited name params.q (unwrap_or params.limit default_limit)
                (unwrap_or params.offset 0) s t results q)
      ]

module _ {json : JsonApi} (tantivy : TantivyApi json) (ext : Externals) where
  open tantivy use {Index, Score}

  search_limit :
      (name query : Text) (limit offset : ℕ) (r : SearchResults Score) (c c' : Catalog Index)
      → Writes.search tantivy ext name query limit offset c ≡ (done r, c')
      → length r.hits ≤ limit
  unfolding Writes.search read_index
  search_limit name query limit offset r c c' h = entry_then name _ r c c' h (λ entry found h'.
      elim (Option-cases (get entry.uuid c.dirs)) [
        | inl e ↦ absurd (failed_done _ r (ap (λ x. x.0) (rw (e, read_index) at h')))
        | inr (i, e) ↦
            execute_limit tantivy i query limit offset r (ap (λ x. x.0) (rw (e, read_index) at h'))
      ])

  standalone-IsLimited : IsLimited (standalone tantivy ext)
  unfolding standalone Standalone.search
  standalone-IsLimited name query limit offset s s' r h =
      search_limit name query limit offset r s s'
        (run_done (Writes.search tantivy ext name query limit offset) r s s' h)

  clustered-IsLimited :
      (raft : Raft Index) (self_id : ℕ) → IsLimited (clustered tantivy ext raft self_id)
  unfolding clustered Clustered.search Client.search_leader Client.ensure_leader
  clustered-IsLimited raft self_id name query limit offset s s' r h =
      let e =
        asked_ok (Client.search_leader tantivy ext raft self_id name query limit offset) r s s' h in
      elim (Bool-cases (is_leader self_id (raft.metrics s).current_leader)) [
        | inl q ↦ search_limit name query limit offset r s s' (
            client_run_ok (Writes.search tantivy ext name query limit offset) r s s'
              (rw (q, Client.search_leader, Client.ensure_leader) at e))
        | inr q ↦
            absurd
              (err_ok _ r (ap (λ x. x.0) (rw (q, Client.search_leader, Client.ensure_leader) at e)))
      ]

  -- On a single node and on a node of a cluster, a search that is answered has at most as many hits
  -- as the limit of the query, and at most ten if it gives none.
  pub search_documents-IsLimited :
      (raft : Raft Index) (self_id took_ms : ℕ) (name : Text) (params : SearchParams)
      (reply reply' : Reply (SearchResponse json Score)) (c d c' d' : Catalog Index)
      → search_documents json (standalone tantivy ext) took_ms name params c ≡ (ok reply, c')
      → search_documents json (clustered tantivy ext raft self_id) took_ms name params d
        ≡ (ok reply', d')
      → (length reply.body.hits ≤ unwrap_or params.limit default_limit)
        × (length reply'.body.hits ≤ unwrap_or params.limit default_limit)
  search_documents-IsLimited raft self_id took_ms name params reply reply' c d c' d' h h' = (
    search_documents_limited (standalone tantivy ext) took_ms name params reply c c'
        standalone-IsLimited h,
    search_documents_limited (clustered tantivy ext raft self_id) took_ms name params reply' d d'
        (clustered-IsLimited raft self_id) h',
  )
