-- ===== src/Http/Status.antt =====
-- HttpStatus, its reason phrases, and its recognition.
use libapostol.Prelude.{
  ℕ, ◌≡◌, ◌↔◌, refl, Option, none, some, List, [], ◌∷◌, Bytes, codes, ◌==◌, arith, if◌then◌else◌,
  inl, inr, Bool-cases,
}

pub data HttpStatus : Type 0 where
  switching_protocols success created no_content moved_permanently found not_modified bad_request :
      HttpStatus
  unauthorized forbidden not_found not_allowed conflict gone unprocessable_entity : HttpStatus
  too_many_requests internal_server_error not_implemented bad_gateway service_unavailable :
      HttpStatus

abbrev pub code_of : HttpStatus → ℕ
code_of switching_protocols = 101
code_of success = 200
code_of created = 201
code_of no_content = 204
code_of moved_permanently = 301
code_of found = 302
code_of not_modified = 304
code_of bad_request = 400
code_of unauthorized = 401
code_of forbidden = 403
code_of not_found = 404
code_of not_allowed = 405
code_of conflict = 409
code_of gone = 410
code_of unprocessable_entity = 422
code_of too_many_requests = 429
code_of internal_server_error = 500
code_of not_implemented = 501
code_of bad_gateway = 502
code_of service_unavailable = 503

abbrev pub status_text : HttpStatus → Bytes
status_text switching_protocols = codes "Switching Protocols"
status_text success = codes "OK"
status_text created = codes "Created"
status_text no_content = codes "No Content"
status_text moved_permanently = codes "Moved Permanently"
status_text found = codes "Found"
status_text not_modified = codes "Not Modified"
status_text bad_request = codes "Bad Request"
status_text unauthorized = codes "Unauthorized"
status_text forbidden = codes "Forbidden"
status_text not_found = codes "Not Found"
status_text not_allowed = codes "Method Not Allowed"
status_text conflict = codes "Conflict"
status_text gone = codes "Gone"
status_text unprocessable_entity = codes "Unprocessable Entity"
status_text too_many_requests = codes "Too Many Requests"
status_text internal_server_error = codes "Internal Server Error"
status_text not_implemented = codes "Not Implemented"
status_text bad_gateway = codes "Bad Gateway"
status_text service_unavailable = codes "Service Unavailable"

-- The cases of the switch.
abbrev pub statuses : List HttpStatus
statuses =
    switching_protocols ∷ success ∷ created ∷ no_content ∷ moved_permanently ∷ found ∷ not_modified
    ∷ bad_request ∷ unauthorized ∷ forbidden ∷ not_found ∷ not_allowed ∷ conflict ∷ gone
    ∷ unprocessable_entity ∷ too_many_requests ∷ internal_server_error ∷ not_implemented
    ∷ bad_gateway ∷ service_unavailable ∷ []

unfoldable pub first_of : ℕ → List HttpStatus → Option HttpStatus
first_of code [] = none
first_of code (s ∷ ss) = let rest = first_of code ss in if code == code_of s then some s else rest

abbrev pub status_from_code : ℕ → Option HttpStatus
status_from_code code = first_of code statuses

first_of_sound :
    (code : ℕ) (s : HttpStatus) (ss : List HttpStatus)
    → first_of code ss ≡ some s
    → code_of s ≡ code
unfolding first_of
first_of_sound code s [] e = cc e
first_of_sound code s (x ∷ ss) e = elim (Bool-cases (code == code_of x)) [
  | inl same ↦ let is : x ≡ s = cc (rw same at e) in rw (← is) (ground arith)
  | inr other ↦ first_of_sound code s ss (rw other at e)
]

recognised : (s : HttpStatus) → status_from_code (code_of s) ≡ some s
unfolding first_of
recognised switching_protocols = refl
recognised _ = refl

-- A number is recognised as a status exactly when it is that status's number.
pub status_from_code_iff :
    (code : ℕ) (s : HttpStatus) → (status_from_code code ≡ some s) ↔ (code_of s ≡ code)
status_from_code_iff code s = (first_of_sound code s statuses, λ e. rw (← e) (recognised s))
