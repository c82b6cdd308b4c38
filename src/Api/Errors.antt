-- ===== src/Api/Errors.antt =====
-- The responses to errors, crates/api/src/error.rs. axum's check that an address can stand in a
-- header is a parameter; a text that the code builds with `format!` is a constructor.
pub mod Routing
use lumen.Base.{ℕ, Text, bytes, Bool, Option, none, some, if◌then◌else◌}
use lumen.Core.Error.{
  Error, collection_not_found, schema_conflict, mapping_error, validation, document_not_found,
  recovery, io, tantivy,
}
use lumen.Core.Error as Core
use lumen.Cluster.Client.{ClientError}
use lumen.Cluster.Client as Client

pub data ApiError : Type 0 where
  core : Error → ApiError
  mapping : Text → ApiError
  forward_to_leader : Text → ApiError
  unavailable already_initialized internal : ApiError

-- The texts of the bodies.
pub data BodyMessage : Type 0 where
  literal : Text → BodyMessage
  leader_at : Text → BodyMessage
  error_text : Error → BodyMessage

pub record Response : Type 0 where
  pub status : ℕ
  pub kind : Text
  pub message : BodyMessage
  pub location : Option Text

-- `From<ClientError>`
unfoldable pub from_client_error : ClientError → ApiError
from_client_error (Client.core e) = core e
from_client_error (Client.forward_to_leader (some node)) = forward_to_leader node.rpc_addr
from_client_error (Client.forward_to_leader none) = unavailable
from_client_error Client.unavailable = unavailable
from_client_error Client.already_initialized = already_initialized
from_client_error Client.fatal = internal

unfoldable pub body : ℕ → Text → BodyMessage → Response
body status kind message = record {
  status = status;
  kind = kind;
  message = message;
  location = none;
}

unfoldable pub internal_response : Response
unfolding body
internal_response = body 500 (bytes "internal") (literal (bytes "internal error"))

-- The response to an error of the engine.
unfoldable pub core_response : Error → Response
unfolding body internal_response
core_response (collection_not_found name) =
    body 404 (bytes "collection_not_found") (error_text (collection_not_found name))
core_response (document_not_found id) =
    body 404 (bytes "document_not_found") (error_text (document_not_found id))
core_response (schema_conflict name) =
    body 409 (bytes "schema_conflict") (error_text (schema_conflict name))
core_response (validation m) = body 400 (bytes "validation") (error_text (validation m))
core_response (mapping_error m) = body 400 (bytes "mapping") (error_text (mapping_error m))
core_response (recovery m) = internal_response
core_response (io e) = internal_response
core_response (tantivy e) = internal_response

module _ (is_header_value : Text → Bool) where
  unfoldable pub forward_response : Text → Response
  unfolding body
  forward_response addr = record (body 307 (bytes "forward_to_leader") (leader_at addr)) {
    location = if is_header_value addr then some addr else none;
  }

  unfoldable pub into_response : ApiError → Response
  unfolding body internal_response core_response forward_response
  into_response (mapping message) = body 400 (bytes "mapping") (literal message)
  into_response (forward_to_leader addr) = forward_response addr
  into_response unavailable = body 503 (bytes "unavailable") (literal (bytes "no leader available"))
  into_response already_initialized =
      body 409 (bytes "already_initialized") (literal (bytes "cluster already initialized"))
  into_response internal = internal_response
  into_response (core e) = core_response e
