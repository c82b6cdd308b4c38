-- ===== src/Core/Search/Limits.antt =====
-- The number of hits of a search (`execute` of crates/core/src/search.rs).
use lumen.Base.{
  ℕ, suc, ◌≤◌, ◌==◌, Text, List, [], ◌∷◌, length, Option-cases, Result-cases, Bool-cases, Result,
  inl, inr, ok, err_ok, ok_inj, try_map, ◌≡◌, ap, sym, ◌∙◌, subst, arith,
}
use lumen.Core.Error.{done, failed_done, panicked_done, done_inj}
use lumen.Core.Json.{JsonApi}
use lumen.Core.Tantivy.{TantivyApi}
use lumen.Core.Search.{execute, hit_of, default_fields, system_fields, SearchResults}

-- A walk that succeeds has as many results as elements.
pub length-try_map :
    {E A B : Type 0} (f : B → Result E A) (xs : List B) (ys : List A)
    → try_map f xs ≡ ok ys
    → length ys ≡ length xs
unfolding try_map
length-try_map f [] ys h = ap length (sym (ok_inj [] ys h))
length-try_map f (x ∷ xs) ys h = elim (Result-cases (f x)) [
  | inl (e, q) ↦ absurd (err_ok e ys (rw (q, try_map) at h))
  | inr (y, q) ↦ elim (Result-cases (try_map f xs)) [
    | inl (e, q') ↦ absurd (err_ok e ys (rw (q, try_map, q') at h))
    | inr (rest, q') ↦
        ap length (sym (ok_inj (y ∷ rest) ys (rw (q, try_map, q') at h)))
        ∙ ap suc (length-try_map f xs rest q')
  ]
]

module _ {json : JsonApi} (tantivy : TantivyApi json) where
  open tantivy use {Index, Score}

  -- A search that succeeds has no more hits than its limit.
  pub execute_limit :
      (index : Index) (text : Text) (limit offset : ℕ) (r : SearchResults Score)
      → execute tantivy index text limit offset ≡ done r
      → length r.hits ≤ limit
  unfolding execute
  execute_limit index text limit offset r h =
      elim (Option-cases (tantivy.parse_query (default_fields (tantivy.schema index)) text index)) [
        | inl e ↦ absurd (failed_done _ r (rw (e, execute) at h))
        | inr (query, e) ↦ elim (Result-cases (tantivy.count query index)) [
          | inl (x, f) ↦ absurd (failed_done x r (rw (e, execute, f) at h))
          | inr (total, f) ↦ elim (Bool-cases (limit == 0)) [
            | inl z ↦
                subst (λ x. length x.hits ≤ limit)
                  (done_inj (record { hits = []; total = total }) r (rw (e, execute, f, z) at h))
                  (omega arith)
            | inr z ↦ elim (Option-cases (system_fields (tantivy.schema index))) [
              | inl g ↦ absurd (panicked_done r (rw (e, execute, f, z, g) at h))
              | inr (fields, g) ↦ elim (Result-cases (tantivy.top_docs limit offset query index)) [
                | inl (x, t) ↦ absurd (failed_done x r (rw (e, execute, f, z, g, t) at h))
                | inr (top, t) ↦ elim (Result-cases (try_map (hit_of tantivy index) top)) [
                  | inl (x, q) ↦ absurd (failed_done x r (rw (e, execute, f, z, g, t, q) at h))
                  | inr (hits, q) ↦
                      subst (λ x. length x.hits ≤ limit)
                        (done_inj (record { hits = hits; total = total }) r
                          (rw (e, execute, f, z, g, t, q) at h))
                        (subst (λ n. n ≤ limit)
                          (sym (length-try_map (hit_of tantivy index) top hits q))
                          (tantivy.top_limit limit offset query index top t))
                ]
              ]
            ]
          ]
        ]
      ]
