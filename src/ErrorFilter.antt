-- ===== src/ErrorFilter.antt =====
-- common/filters/all-exceptions.filter.ts: the response for an exception, the same shape everywhere.
pub mod Hiding
mod Tests
use developer_platform_backe.Billing.Payments.{text_or_none}
use developer_platform_backe.Prelude.{ℕ, String, Option, List, ltb, ◌==◌, if◌then◌else◌, or_default}

-- `message?: string | string[]`
pub data Message : Type 0 where
  one : String → Message
  many : List String → Message

-- What `getResponse()` of an HttpException gives: a text, or an object of which two keys are read.
pub data HttpBody : Type 0 where
  plain_text : String → HttpBody
  object : (message : Option Message) → (error : Option String) → HttpBody

-- What may be thrown.
pub data Exception : Type 0 where
  http_exception : (status : ℕ) → HttpBody → Exception
  -- an Error with a number as `status`
  status_error : (status : ℕ) → (message : String) → Exception
  plain_error : (message stack : String) → Exception
  -- a thrown value that is no Error
  other_value : Exception

pub record ErrorResponse : Type 0 where
  pub status_code : ℕ
  pub error : String
  pub message : Message
  pub path : String
  pub timestamp : ℕ
  pub request_id : Option String

abbrev pub generic : Message
generic = one "Internal server error"

-- `REASON[status] ?? 'Error'`
unfoldable pub reason : ℕ → String
reason status =
    if status == 400
    then "Bad Request"
    else if status == 401
    then "Unauthorized"
    else if status == 403
    then "Forbidden"
    else if status == 404
    then "Not Found"
    else if status == 409
    then "Conflict"
    else if status == 413
    then "Payload Too Large"
    else if status == 429
    then "Too Many Requests"
    else if status == 500
    then "Internal Server Error"
    else if status == 502
    then "Bad Gateway"
    else "Error"

-- The `status` that `catch` settles on.
unfoldable pub status_of : Exception → ℕ
status_of (http_exception status body) = status
status_of (status_error status message) = status
status_of (plain_error message stack) = 500
status_of other_value = 500

unfoldable pub message_of : Exception → Message
message_of (http_exception status (plain_text t)) = one t
message_of (http_exception status (object message error)) = or_default message generic
message_of (status_error status message) = if ltb status 500 then one message else generic
message_of (plain_error message stack) = generic
message_of other_value = generic

-- The label: an explicit one that is not empty wins.
unfoldable pub label_of : Exception → String
unfolding reason status_of
label_of (http_exception status (object message error)) =
    or_default (text_or_none error) (reason status)
label_of x = reason (status_of x)

-- `catch`, with what it reads of the request
unfoldable pub catch :
    (path : String) → (request_id : Option String) → (now : ℕ) → Exception → ErrorResponse
unfolding status_of message_of label_of
catch path request_id now x = record {
  status_code = status_of x;
  error = label_of x;
  message = message_of x;
  path = path;
  timestamp = now;
  request_id = text_or_none request_id;
}
