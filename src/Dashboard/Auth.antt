-- ===== src/Dashboard/Auth.antt =====
-- The middleware that authenticates requests (cmd/dashboard/auth.go). The verification of signatures
-- is the library hmacauth's; its results are the five that the code's switch names.
pub mod Laws
use ship_status_dash.Base.{
  String, Bool, true, false, some, Exec, raise, ◌==◌, string_eq, if◌then◌else◌,
}
use ship_status_dash.Dashboard.Handlers.Http.{Request, Response, Stop, Handler, respond_with_error}

-- A request as it comes in: its method and path, the header `X-Forwarded-User`, empty if it is missing,
-- and what handlers read of it. Nobody is authenticated yet.
pub record Incoming : Type 0 where
  pub method : String
  pub path : String
  pub forwarded_user : String
  pub content : Request

pub data AuthenticationResult : Type 0 where
  no_signature invalid_format unsupported_algorithm mismatch match : AuthenticationResult

-- `context.WithValue(r.Context(), userContextKey, user)`.
abbrev pub with_user : String → Request → Request
with_user user r = record r { user = some user }

abbrev pub unauthorized : {S : Type 0} → String → Exec S Stop Response
unauthorized message = raise (respond_with_error 401 message)

module _ {S : Type 0} where
  abbrev after_authentication :
      AuthenticationResult → Handler S → String → Request → Exec S Stop Response
  after_authentication no_signature next user r = unauthorized "Missing GAP-Signature header"
  after_authentication invalid_format next user r = unauthorized "Invalid signature format"
  after_authentication unsupported_algorithm next user r =
      unauthorized "Unsupported signature algorithm"
  after_authentication mismatch next user r = unauthorized "Invalid signature"
  after_authentication match next user r = next (with_user user r)

  -- `skip_auth` says whether the variable SKIP_AUTH is 1.
  unfoldable pub auth_middleware :
      Bool → (Incoming → AuthenticationResult) → Handler S → Incoming → Exec S Stop Response
  auth_middleware true authenticate next i = next (with_user "developer" i.content)
  auth_middleware false authenticate next i =
      if i.forwarded_user == ""
      then unauthorized "Missing X-Forwarded-User header"
      else after_authentication (authenticate i) next i.forwarded_user i.content
