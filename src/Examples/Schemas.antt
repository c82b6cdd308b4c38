-- ===== src/Examples/Schemas.antt =====
-- A mapping of two fields, its schema, and a document.
use lumen.Base.{
  ◌≡◌, refl, ◌↔◌, [], ◌∷◌, some, ok, true, false, bytes, Text, text_ord, text_cmp, Ordering,
  BTreeMap, IsSorted, map, get, retain,
}
use lumen.Core.Mapping.{
  Mapping, FieldSpec, text, keyword, new, mapping_into, mapping_try_from, validate_document,
  validate_values,
}
use lumen.Core.Mapping.Valid.{AreValid, new_iff}
use lumen.Core.Mapping.Wire.{mapping_round_trip, AreKept, mapping_try_from-AreKept}
use lumen.Core.Mapping.Schema.{get_field, to_schema, id_field, source_field}
use lumen.Core.Document.{Document, DocValue, build_doc, text_value, bytes_value}
use lumen.Core.Document.Validated.{build_doc_validated}
use lumen.Core.Json.{is_some}
use lumen.Core.Catalog.Names.{validate_name, validate_name_iff, IsName}
use lumen.Examples.Instances.{texts, object, string}

abbrev specs : BTreeMap Text FieldSpec
specs =
    (bytes "body", record { ty = text; indexed = true; fast = false })
    ∷ (bytes "tag", record { ty = keyword; indexed = true; fast = true })
    ∷ []

abbrev articles : Mapping
articles = record { fields = specs }

body_tag : text_cmp (bytes "body") (bytes "tag") ≡ Ordering.lt
unfolding text_cmp
body_tag = refl

specs-IsSorted : IsSorted specs
specs-IsSorted = ((body_tag, tt), (tt, tt))

specs-AreValid : AreValid specs
specs-AreValid = (
  (record { named = λ e. cc; not_reserved = refl; not_fast_text = λ e. refl }),
  (record { named = λ e. cc; not_reserved = refl; not_fast_text = λ e. cc }, tt),
)

new_iff_example : (new specs ≡ ok articles) ↔ AreValid specs
new_iff_example = new_iff specs

mapping_round_trip_example : mapping_try_from (mapping_into articles) ≡ ok articles
mapping_round_trip_example = mapping_round_trip articles specs-IsSorted specs-AreValid

mapping_try_from-AreKept_example : AreValid specs × AreKept specs (mapping_into articles).fields
mapping_try_from-AreKept_example =
    mapping_try_from-AreKept (mapping_into articles) articles mapping_round_trip_example

accepted : validate_document texts articles (object ((bytes "tag", bytes "new") ∷ [])) ≡ ok tt
unfolding validate_document validate_values get text_cmp
accepted = refl

build_doc_validated_example :
    (more : Document texts) × (build_doc texts
        (to_schema articles)
        articles
        (bytes "7")
        (bytes "{}")
        (object ((bytes "tag", bytes "new") ∷ []))
      ≡ some (
          ok
            ((id_field, text_value (bytes "7")) ∷ (source_field, bytes_value (bytes "{}")) ∷ more)))
    × (map (λ (e : Text × DocValue texts). e.0) more
        ≡ retain (λ n. is_some (get_field (to_schema articles) n)) (bytes "tag" ∷ []))
build_doc_validated_example =
    build_doc_validated texts articles (bytes "7") (bytes "{}")
      (object ((bytes "tag", bytes "new") ∷ [])) ((bytes "tag", string (bytes "new")) ∷ []) refl
      accepted

validate_name_iff_example :
    (validate_name (bytes "articles-2") ≡ ok tt) ↔ IsName (bytes "articles-2")
validate_name_iff_example = validate_name_iff (bytes "articles-2")
