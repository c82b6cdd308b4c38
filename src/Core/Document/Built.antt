-- ===== src/Core/Document/Built.antt =====
-- The documents that `build_doc` returns, crates/core/src/document.rs.
use lumen.Base.{
  Text, text_ord, some, List, [], ◌∷◌, ◌++◌, append_assoc, append-nil, ok, err, Result-cases,
  ok_inj, none_some, err_ok, some_inj, Option-cases, ◌≡◌, sym, ◌∙◌, inl, inr,
}
use lumen.Core.Json.{JsonApi}
use lumen.Core.Mapping.{Mapping, field}
use lumen.Core.Mapping.Schema.{Schema, get_field}
use lumen.Core.Document.{Document, add_values, value_of}

module _ (json : JsonApi) (schema : Schema) (m : Mapping) where
  -- The values of the members come after those that are in the document.
  pub add_values-appends :
      (object : List (Text × json.Value)) (doc doc' : Document json)
      → add_values json schema m object doc ≡ some (ok doc')
      → (more : Document json) × (doc' ≡ doc ++ more)
  unfolding add_values
  add_values-appends [] doc doc' h =
      ([], ok_inj doc' doc (some_inj (ok doc') (ok doc) (sym h)) ∙ sym (append-nil doc))
  add_values-appends ((name, value) ∷ object) doc doc' h =
      elim (Option-cases (get_field schema name)) [
        | inl e ↦ add_values-appends object doc doc' (rw (e, add_values) at h)
        | inr (o, e) ↦ elim (Option-cases (field m name)) [
          | inl f ↦ absurd (none_some (ok doc') (rw (e, f, add_values) at h))
          | inr (spec, f) ↦ elim (Result-cases (value_of json value spec.ty)) [
            | inl (x, g) ↦
                absurd (err_ok x doc' (some_inj (err x) (ok doc') (rw (e, f, g, add_values) at h)))
            | inr (v, g) ↦
                let (more, q) =
                  add_values-appends object (doc ++ (name, v) ∷ []) doc'
                    (rw (e, f, g, add_values) at h) in
                ((name, v) ∷ more, q ∙ append_assoc doc ((name, v) ∷ []) more)
          ]
        ]
      ]
