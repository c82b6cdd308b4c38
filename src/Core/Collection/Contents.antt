-- ===== src/Core/Collection/Contents.antt =====
-- A collection as a map from ids to sources: the specification of the writes of
-- crates/core/src/collection.rs and of the lookup of crates/core/src/search.rs.
use lumen.Base.{
  Text, text_ord, text_cmp, text_eq, text_eq_iff, ℕ, true, false, none, some, Option, List, [], ◌∷◌,
  retain, Bool-cases, ◌≡◌, refl, sym, ap, ◌∙◌, subst, inl, inr, ◌⊎◌, get, if◌then◌else◌,
}
use lumen.Core.Json.{JsonApi}
use lumen.Core.Mapping.Schema.{id_field, source_field}
use lumen.Core.Document.{Document}
use lumen.Core.Tantivy.{having, without, has_id, get_first, text_of, bytes_of, same_text}
use lumen.Core.Collection.Reads.{headed}

same_text-other :
    (id id' : Text)
    → text_eq id id' ≡ false
    → (o : Option Text) → same_text id o ≡ true
    → same_text id' o ≡ false
same_text-other id id' other none h = refl
same_text-other id id' other (some t) h =
    subst (λ x. text_eq x id' ≡ false) (sym ((text_eq_iff t id).0 h)) other

module _ {json : JsonApi} where
  -- The source that the documents have for an id.
  unfoldable pub contents : List (Document json) → Text → Option (List ℕ)
  unfolding having get_first
  contents docs id = elim (having id docs) [
    | [] ↦ none
    | d ∷ more ↦ bytes_of (get_first source_field d)
  ]

  -- Of each id there is at most one document, and it has a source.
  abbrev pub IsKeyed : List (Document json) → Type 0
  IsKeyed docs =
      (id : Text)
      → (having id docs ≡ [])
        ⊎ ((source : List ℕ) × (more : Document json) × (having id docs
              ≡ headed id source more ∷ []))

  contents_same :
      (id : Text) (docs docs' : List (Document json))
      → having id docs' ≡ having id docs
      → contents docs' id ≡ contents docs id
  unfolding contents
  contents_same id docs docs' h = rw (h, contents)

  pub contents-headed :
      (id : Text) (source : List ℕ) (more : Document json) (docs : List (Document json))
      → having id docs ≡ headed id source more ∷ []
      → contents docs id ≡ some source
  unfolding contents get_first get text_cmp
  contents-headed id source more docs h = rw (h, contents) refl

  pub contents-none :
      (id : Text) (docs : List (Document json)) → having id docs ≡ [] → contents docs id ≡ none
  unfolding contents
  contents-none id docs h = rw (h, contents) refl

  module _ (id id' : Text) (other : text_eq id id' ≡ false) where
    pub having-without_other :
        (docs : List (Document json)) → having id' (without id docs) ≡ having id' docs
    unfolding having without retain has_id
    having-without_other [] = refl
    having-without_other (d ∷ docs) = elim (Bool-cases (has_id id d)) [
      | inl e ↦
          rw (e, without, retain)
            (rw (same_text-other id id' other (text_of (get_first id_field d)) e, having, retain)
              (having-without_other docs))
      | inr e ↦
          rw (e, without, retain)
            (ap (λ r. if has_id id' d then d ∷ r else r) (having-without_other docs))
    ]

    pub has_id-headed_other :
        (source : List ℕ) (more : Document json) → has_id id' (headed id source more) ≡ false
    unfolding has_id get_first get text_cmp
    has_id-headed_other source more = other

module _ {json : JsonApi} (id : Text) (own : Option (List ℕ)) (docs docs' : List (Document json))
    (keyed : IsKeyed docs)
    (kept : (id' : Text) → text_eq id id' ≡ false → having id' docs' ≡ having id' docs)
    (owned : ((having id docs' ≡ []) × (own ≡ none))
      ⊎ ((source : List ℕ) × (more : Document json) × (having id docs' ≡ headed id source more ∷ [])
          × (own ≡ some source))) where
  -- Documents that differ at one id only are keyed, if they are so at the id.
  pub updated-IsKeyed : IsKeyed docs'
  updated-IsKeyed id' = elim (Bool-cases (text_eq id id')) [
    | inl e ↦
        subst
          (λ t.
            (having t docs' ≡ [])
            ⊎ ((source : List ℕ) × (more : Document json) × (having t docs'
                  ≡ headed t source more ∷ [])))
          ((text_eq_iff id id').0 e)
          (elim owned [ inl h ↦ inl h.0 | inr (source, more, h, q) ↦ inr (source, more, h) ])
    | inr e ↦ elim (keyed id') [
      | inl h ↦ inl (kept id' e ∙ h)
      | inr (source, more, h) ↦ inr (source, more, kept id' e ∙ h)
    ]
  ]

  -- They are a map that differs at that id only.
  pub contents-updated :
      (id' : Text) → contents docs' id' ≡ (if text_eq id id' then own else contents docs id')
  contents-updated id' = elim (Bool-cases (text_eq id id')) [
    | inl e ↦ rw e (
        subst (λ t. contents docs' t ≡ own) ((text_eq_iff id id').0 e)
          (elim owned [
            | inl (h, q) ↦ contents-none id docs' h ∙ sym q
            | inr (source, more, h, q) ↦ contents-headed id source more docs' h ∙ sym q
          ]))
    | inr e ↦ rw e (contents_same id' docs docs' (kept id' e))
  ]
