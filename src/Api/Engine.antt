-- ===== src/Api/Engine.antt =====
-- The interface between the HTTP handlers and the database, crates/api/src/engine.rs. A call takes
-- and gives the state of the node; a new random uuid that it draws is an argument.
pub mod Standalone
pub mod Clustered
pub mod Answers
pub mod Agreement
use lumen.Base.{ℕ, Text, Bool, Option, List, Result, ok, err, map_err}
use lumen.Core.Error.{Outcome, done, failed, panicked}
use lumen.Core.Mapping.{Mapping}
use lumen.Core.Search.{SearchResults}
use lumen.Api.Errors.{ApiError, core, internal}

pub record CreateOutcome : Type 0 where
  pub mapping : Mapping
  pub created : Bool

pub record WriteOutcome : Type 0 where
  pub id : Text
  pub created : Bool

-- A call of the engine on the node's state.
abbrev pub Call : Type 0 → Type 0 → Type 0
Call S A = S → Result ApiError A × S

pub record Engine (S Score : Type 0) : Type 0 where
  pub create_collection : ℕ → Text → Mapping → Call S CreateOutcome
  pub drop_collection : Text → Call S (Unit {0})
  pub index : ℕ → Text → Option Text → List ℕ → Call S WriteOutcome
  pub delete : Text → Text → Call S (Unit {0})
  pub get_document : Text → Text → Call S (List ℕ)
  pub search : Text → Text → ℕ → ℕ → Call S (SearchResults Score)
  pub list : Call S (List Text)
  pub describe : Text → Call S Mapping

module _ {S : Type 0} where
  infixl 5 ◌>>=◌
  abbrev pub after : {A B : Type 0} → (A → Call S B) → Result ApiError A → Call S B
  after f (ok a) s = f a s
  after f (err e) s = (err e, s)

  abbrev pub ◌>>=◌ : {A B : Type 0} → Call S A → (A → Call S B) → Call S B
  ◌>>=◌ m f s = let (r, s') = m s in after f r s'

  abbrev pub pure : {A : Type 0} → A → Call S A
  pure a s = (ok a, s)

  abbrev pub lift : {A : Type 0} → Result ApiError A → Call S A
  lift r s = (r, s)

-- The error of an action on the blocking task of `run`: a panic is answered as internal.
unfoldable pub core_result : {A : Type 0} → Outcome A → Result ApiError A
core_result (done a) = ok a
core_result (failed e) = err (core e)
core_result panicked = err internal
