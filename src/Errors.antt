-- ===== src/Errors.antt =====
-- The error responses of the handlers (pkg/errors/handler_error.go and dao_error.go).
pub mod Codes
use content_sources_backend.Common.{
  ℕ, zero, suc, ◌+◌, ◌*◌, Bool, true, false, ◌&&◌, ◌||◌, not, Option, none, some, List, [], ◌∷◌,
  String, map, ltb, leb, ◌==◌, length, if◌then◌else◌,
}

pub record DaoError : Type 0 where
  pub message : String
  pub not_found : Bool
  pub bad_validation : Bool
  pub already_exists : Bool
  pub forbidden : Bool

-- An error: one of another package, one that wraps an error under a text of its own, or a DaoError
-- without an Err or with one.
pub data GoError : Type 0 where
  plain : String → GoError
  wrapping : String → GoError → GoError
  dao : DaoError → GoError
  dao_over : DaoError → GoError → GoError

pub record HandlerError : Type 0 where
  pub status : ℕ
  pub title : String
  pub detail : String

-- The Errors of an ErrorResponse.
abbrev pub ErrorResponse : Type 0
ErrorResponse = List HandlerError

-- The method Error.
unfoldable pub error_text : GoError → String
error_text (plain text) = text
error_text (wrapping text e) = text
error_text (dao d) = d.message
error_text (dao_over d e) = error_text e

-- errors.As for a *DaoError.
unfoldable pub as_dao_error : GoError → Option DaoError
as_dao_error (plain text) = none
as_dao_error (wrapping text e) = as_dao_error e
as_dao_error (dao d) = some d
as_dao_error (dao_over d e) = some d

unfoldable pub code_for : DaoError → ℕ
code_for d =
    if d.not_found
    then 404
    else if d.bad_validation
    then 400
    else if d.already_exists
    then 409
    else if d.forbidden
    then 403
    else 500

unfoldable pub http_code_for_dao_error : GoError → ℕ
unfolding as_dao_error code_for
http_code_for_dao_error e = elim (as_dao_error e) [ some d ↦ code_for d | none ↦ 500 ]

unfoldable pub new_error_response : ℕ → String → String → ErrorResponse
new_error_response code title detail = record { status = code; title = title; detail = detail } ∷ []

-- What one of several errors becomes; nil becomes the zero value.
unfoldable pub handler_error : String → Option GoError → HandlerError
unfolding http_code_for_dao_error error_text
handler_error title none = record { status = 0; title = ""; detail = "" }
handler_error title (some e) = record {
  status = http_code_for_dao_error e;
  title = title;
  detail = error_text e;
}

-- NewErrorResponseFromError; none stands for the panic over a single nil.
unfoldable pub new_error_response_from_error : String → List (Option GoError) → Option ErrorResponse
unfolding handler_error
new_error_response_from_error title [] = some []
new_error_response_from_error title (none ∷ []) = none
new_error_response_from_error title (some e ∷ []) = some (handler_error title (some e) ∷ [])
new_error_response_from_error title (e ∷ f ∷ errs) =
    some (handler_error title e ∷ handler_error title f ∷ map (handler_error title) errs)

-- The five counters of GetGeneralResponseCode.
pub record Counts : Type 0 where
  pub c100 : ℕ
  pub c200 : ℕ
  pub c300 : ℕ
  pub c400 : ℕ
  pub c500 : ℕ

unfoldable pub count : ℕ → Counts → Counts
count code c =
    if leb 100 code && ltb code 200
    then record c { c100 = suc c.c100 }
    else if (leb 200 code && ltb code 300) || (code == 0)
    then record c { c200 = suc c.c200 }
    else if leb 300 code && ltb code 400
    then record c { c300 = suc c.c300 }
    else if leb 400 code && ltb code 500
    then record c { c400 = suc c.c400 }
    else record c { c500 = suc c.c500 }

unfoldable pub count_all : ErrorResponse → Counts → Counts
unfolding count
count_all [] c = c
count_all (err ∷ errors) c = count_all errors (count err.status c)

-- The highest index whose counter is positive, and 0 where none is.
unfoldable pub highest : Counts → ℕ
highest c =
    if ltb 0 c.c500
    then 4
    else if ltb 0 c.c400
    then 3
    else if ltb 0 c.c300
    then 2
    else if ltb 0 c.c200
    then 1
    else 0

unfoldable pub get_general_response_code : ErrorResponse → ℕ
unfolding count_all highest
get_general_response_code [] = 200
get_general_response_code (err ∷ []) = err.status
get_general_response_code (err ∷ other ∷ errors) =
    suc (
      highest (
        count_all (err ∷ other ∷ errors)
          (record { c100 = 0; c200 = 0; c300 = 0; c400 = 0; c500 = 0 })))
    * 100
