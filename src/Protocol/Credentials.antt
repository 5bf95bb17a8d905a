-- ===== src/Protocol/Credentials.antt =====
-- `authenticate` of src/avbox/protocol/service.py.
pub mod Granted
use avbox.Prelude.{
  str_eq, String, Bool, not, ◌&&◌, Option, none, some, List, [], ◌∷◌, if◌then◌else◌, any, Result,
  ok,
}
use text.Mathlib.Text.{starts_with}
use avbox.Protocol.Desk.{Failure, refuse, authentication_required, forbidden, storage_unavailable}

pub record Credential : Type 0 where
  pub token : String
  pub client_id : String
  pub scopes : List String

pub record RabClient : Type 0 where
  pub client_id : String
  pub scopes : List String

-- `token and hmac.compare_digest(supplied, token)`
unfoldable pub matches : String → Credential → Bool
matches supplied c = not (str_eq c.token "") && str_eq supplied c.token

-- The loop over the clients: the first one with the token decides.
unfoldable pub find_client : String → String → List Credential → Result Failure RabClient
find_client supplied scope [] = refuse 401 authentication_required
find_client supplied scope (c ∷ cs) =
    let rest = find_client supplied scope cs in
    if matches supplied c
    then (if any (λ s. str_eq s scope) c.scopes
        then ok (record { client_id = c.client_id; scopes = c.scopes })
        else refuse 403 forbidden)
    else rest

-- `authenticate`, with `removeprefix("Bearer ")` and the document of clients, or `none` where it
-- cannot be read.
unfoldable pub authenticate :
    (String → String) → Option (List Credential) → Option String → String → Result Failure RabClient
authenticate remove_bearer clients none scope = refuse 401 authentication_required
authenticate remove_bearer clients (some authorization) scope =
    if not (starts_with authorization "Bearer ")
    then refuse 401 authentication_required
    else elim clients [
      | none ↦ refuse 503 storage_unavailable
      | some credentials ↦ find_client (remove_bearer authorization) scope credentials
    ]
