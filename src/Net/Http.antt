-- ===== src/Net/Http.antt =====
-- HttpClient (system/include/HttpClient.hpp, system/common_src/HttpClient.cpp) and SendHttpRequest
-- (system/common_src/exports.cpp). What the server answers is an argument; a request that got no answer
-- has the status 0 and an empty text.
use celte_system.Prelude.{
  ℕ, Bool, true, false, String, List, [], ◌∷◌, Option, none, some, ◌≡◌, refl, leb, ltb, ◌&&◌,
  if◌then◌else◌,
}
use celte_system.Prelude.Json.{Json, Value, parse, parse_error}

pub record Response : Type 0 where
  pub status_code : ℕ
  pub text : String
  pub error_message : String

module _ ⦃j : Json⦄ where
  -- What the caller sees, in order: its callback is called, its error handler is called, or the
  -- error is printed.
  pub data Seen : Type 0 where
    callback : Value → Seen
    callback_text : String → Seen
    error_handler : (status : ℕ) (message : String) → Seen
    printed : (status : ℕ) (message : String) → Seen

  unfoldable pub handle_error : (has_handler : Bool) → ℕ → String → List Seen
  handle_error true status message = error_handler status message ∷ []
  handle_error false status message = printed status message ∷ []

  -- `throws` is the text of the exception that the callback throws, if it does.
  unfoldable pub parse_and_handle_json :
      Bool → (throws : Value → Option String) → String → List Seen
  parse_and_handle_json has_handler throws text = elim (parse text) [
    | none ↦ handle_error has_handler 500 (parse_error text)
    | some document ↦ elim (throws document) [
      | none ↦ callback document ∷ []
      | some what ↦ callback document ∷ handle_error has_handler 500 what
    ]
  ]

  unfoldable pub handle_response : Bool → (throws : Value → Option String) → Response → List Seen
  handle_response has_handler throws response =
      if leb 200 response.status_code && ltb response.status_code 300
      then parse_and_handle_json has_handler throws response.text
      else handle_error has_handler response.status_code response.error_message

  -- PostAsync: the task that it schedules.
  unfoldable post_async :
      Bool
      → (server : String → Value → Response) → (throws : Value → Option String) → String
      → Value
      → List Seen
  post_async has_handler server throws url body =
      handle_response has_handler throws (server url body)

  -- Post
  unfoldable pub post : (server : String → Value → Response) → String → Value → String
  post server url body = (server url body).text

  -- SendHttpRequest: the task that it schedules.
  unfoldable send_http_request :
      (server : String → Value → Response) (throws : String → Option String)
      (url json_body : String)
      → List Seen
  send_http_request server throws url json_body = elim (parse json_body) [
    | none ↦ error_handler 500 (parse_error json_body) ∷ []
    | some body ↦ elim (throws (post server url body)) [
      | none ↦ callback_text (post server url body) ∷ []
      | some what ↦ callback_text (post server url body) ∷ error_handler 500 what ∷ []
    ]
  ]

  -- An asynchronous post with an error handler calls it once where the status is no success, and
  -- else hands on the document; a request of the engine with the same answer, whose body is a
  -- document, never calls the error handler: its callback gets the text of the answer whatever the
  -- status, as long as it does not throw.
  post_async-send_http_request :
      (server : String → Value → Response) (throws : String → Option String)
      (url json_body : String) (body document : Value)
      → parse json_body ≡ some body
      → parse (server url body).text ≡ some document
      → throws (server url body).text ≡ none
      → (post_async true server (λ v. none) url body ≡ (
          if leb 200 (server url body).status_code && ltb (server url body).status_code 300
          then callback document ∷ []
          else error_handler (server url body).status_code (server url body).error_message ∷ []))
        × (send_http_request server throws url json_body
            ≡ callback_text (server url body).text ∷ [])
  unfolding send_http_request post post_async handle_response parse_and_handle_json handle_error
  post_async-send_http_request server throws url json_body body document p d t = (
    rw (d, parse_and_handle_json) refl,
    rw (p, send_http_request) (rw (t, send_http_request) refl),
  )
