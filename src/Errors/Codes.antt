-- ===== src/Errors/Codes.antt =====
-- The status of a response with several errors (pkg/errors/handler_error.go).
use content_sources_backend.Common.{
  ℕ, suc, ◌*◌, ◌≡◌, refl, ap, Bool, true, false, ◌&&◌, not, ◌||◌, Option, none, some, List, [], ◌∷◌,
  String, map, arith, any, is_some, ltb, leb, ◌==◌, if◌then◌else◌,
}
use mathlib.Core.Option
use content_sources_backend.Errors.{
  GoError, plain, wrapping, dao, dao_over, DaoError, HandlerError, ErrorResponse,
  http_code_for_dao_error, handler_error, new_error_response_from_error, Counts, count, count_all,
  highest, get_general_response_code, code_for,
}

-- The class of a status: its hundreds between 1 and 5; that of 0 is 2.
unfoldable pub class_of : ℕ → ℕ
class_of code =
    if code == 0
    then 2
    else if leb 100 code && ltb code 200
    then 1
    else if leb 200 code && ltb code 300
    then 2
    else if leb 300 code && ltb code 400
    then 3
    else if leb 400 code && ltb code 500
    then 4
    else 5

unfoldable larger : ℕ → ℕ → ℕ
larger a b = if leb a b then b else a

-- The greatest class among the errors, and at least the one given.
unfoldable pub worst : ErrorResponse → ℕ → ℕ
unfolding class_of
worst [] least = least
worst (err ∷ errors) least =
    worst errors (if leb least (class_of err.status) then class_of err.status else least)

highest-count :
    (code : ℕ) (c : Counts)
    → suc (highest (count code c))
      ≡ (if leb (suc (highest c)) (class_of code) then class_of code else suc (highest c))
unfolding highest count class_of
highest-count code c = ground arith

highest-count_all :
    (r : ErrorResponse) (c : Counts) → suc (highest (count_all r c)) ≡ worst r (suc (highest c))
unfolding count_all worst
highest-count_all [] c = refl
highest-count_all (err ∷ r) c =
    rw (highest-count_all r (count err.status c), highest-count err.status c) refl

-- The code of a response with two errors or more is the greatest class among their statuses, however
-- often it comes.
pub get_general_response_code-worst :
    (err other : HandlerError) (errors : ErrorResponse)
    → get_general_response_code (err ∷ other ∷ errors) ≡ worst (err ∷ other ∷ errors) 1 * 100
unfolding get_general_response_code highest
get_general_response_code-worst err other errors =
    ap (λ n. n * 100)
      (highest-count_all (err ∷ other ∷ errors)
        (record { c100 = 0; c200 = 0; c300 = 0; c400 = 0; c500 = 0 }))

abbrev is_empty : List (Option GoError) → Bool
is_empty [] = true
is_empty (e ∷ errs) = false

-- Has a DaoError none of the four kinds?
abbrev pub has_no_kind : DaoError → Bool
has_no_kind d = not (d.not_found || (d.bad_validation || (d.already_exists || d.forbidden)))

-- Is it no DaoError, also under what wraps it, or one without a kind?
unfoldable pub is_internal : Option GoError → Bool
is_internal none = false
is_internal (some (plain text)) = true
is_internal (some (wrapping text e)) = is_internal (some e)
is_internal (some (dao d)) = has_no_kind d
is_internal (some (dao_over d e)) = has_no_kind d

class_of-code_for : (d : DaoError) → class_of (code_for d) ≡ (if has_no_kind d then 5 else 4)
unfolding class_of code_for
class_of-code_for d = ground arith

class_of-http_code_for_dao_error :
    (e : GoError) → class_of (http_code_for_dao_error e) ≡ (if is_internal (some e) then 5 else 4)
unfolding http_code_for_dao_error is_internal class_of
class_of-http_code_for_dao_error (plain text) = refl
class_of-http_code_for_dao_error (wrapping text e) = class_of-http_code_for_dao_error e
class_of-http_code_for_dao_error (dao d) = class_of-code_for d
class_of-http_code_for_dao_error (dao_over d e) = class_of-code_for d

class_of-handler_error :
    (title : String) (e : Option GoError)
    → class_of (handler_error title e).status
      ≡ (if is_internal e then 5 else elim e [ none ↦ 2 | some x ↦ 4 ])
unfolding class_of handler_error is_internal
class_of-handler_error title none = refl
class_of-handler_error title (some e) = class_of-http_code_for_dao_error e

unfoldable level : List (Option GoError) → ℕ
unfolding is_internal
level [] = 0
level (e ∷ errs) =
    larger (if is_internal e then 5 else elim e [ none ↦ 2 | some x ↦ 4 ]) (level errs)

worst-handler_errors :
    (title : String) (errs : List (Option GoError)) (least : ℕ)
    → worst (map (handler_error title) errs) least ≡ larger least (level errs)
unfolding worst level larger
worst-handler_errors title [] least = ground arith
worst-handler_errors title (e ∷ errs) least = ground (
  arith,
  class_of-handler_error title e,
  worst-handler_errors title errs least,
  worst-handler_errors title errs (class_of (handler_error title e).status),
)

level-cases :
    (errs : List (Option GoError))
    → level errs ≡ (
        if any is_internal errs
        then 5
        else if any is_some errs
        then 4
        else if is_empty errs
        then 0
        else 2)
unfolding level larger is_internal
level-cases [] = refl
level-cases (none ∷ errs) = ground (arith, level-cases errs)
level-cases (some e ∷ errs) = ground (arith, level-cases errs)

-- Of two errors or more a response is made whose code is 500 where one of them is no DaoError, also
-- under what wraps it, or a DaoError without a kind, 400 where there are only DaoErrors with a kind and nil, and 200 where
-- all are nil.
pub new_error_response_from_error-code :
    (title : String) (e f : Option GoError) (errs : List (Option GoError))
    → Option.map get_general_response_code (new_error_response_from_error title (e ∷ f ∷ errs))
      ≡ some (
          if any is_internal (e ∷ f ∷ errs)
          then 500
          else if any is_some (e ∷ f ∷ errs)
          then 400
          else 200)
unfolding new_error_response_from_error larger
new_error_response_from_error-code title e f errs = ap some (
    rw
      (
        get_general_response_code-worst (handler_error title e) (handler_error title f)
            (map (handler_error title) errs),
        worst-handler_errors title (e ∷ f ∷ errs) 1,
        level-cases (e ∷ f ∷ errs),
      )
      (ground arith))
