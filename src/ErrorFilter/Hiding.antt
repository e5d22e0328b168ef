-- ===== src/ErrorFilter/Hiding.antt =====
-- What a response tells of an exception.
use developer_platform_backe.ErrorFilter.{
  Exception, message_of, label_of, status_of, catch, http_exception, generic, reason, status_error,
  plain_error, other_value,
}
use developer_platform_backe.Prelude.{
  ℕ, ◌≤◌, String, ◌≡◌, refl, Bool, true, false, Option, arith, leb,
}

-- An exception that is no HttpException and comes to a status of 500 or more.
abbrev pub is_internal : Exception → Bool
is_internal (http_exception status body) = false
is_internal (status_error status message) = leb 500 status
is_internal (plain_error message stack) = true
is_internal other_value = true

-- Two exceptions of which the client cannot tell which was thrown.
abbrev pub IsAlike : Exception → Exception → Type 0
IsAlike x y =
    (path : String) (request_id : Option String) (now : ℕ)
    → catch path request_id now x ≡ catch path request_id now y

internal-message : (x : Exception) → is_internal x ≡ true → message_of x ≡ generic
unfolding message_of
internal-message (http_exception status body) h = ground arith
internal-message (status_error status message) h = ground arith
internal-message (plain_error message stack) h = refl
internal-message other_value h = refl

internal-label : (x : Exception) → is_internal x ≡ true → label_of x ≡ reason (status_of x)
unfolding label_of
internal-label (http_exception status body) h = ground arith
internal-label (status_error status message) h = refl
internal-label (plain_error message stack) h = refl
internal-label other_value h = refl

internal-status : (x : Exception) → is_internal x ≡ true → 500 ≤ status_of x
unfolding status_of
internal-status (http_exception status body) h = ground arith
internal-status (status_error status message) h = ground arith
internal-status (plain_error message stack) h = omega arith
internal-status other_value h = omega arith

-- Of an internal exception the response shows the status and nothing else: two of them with the same
-- status give the same response, whatever their messages and stacks, with the generic message and a
-- status of 500 or more.
pub catch-IsAlike :
    (x : Exception)
    → is_internal x ≡ true
    → ((y : Exception) → is_internal y ≡ true → status_of y ≡ status_of x → IsAlike x y)
      × ((path : String) (request_id : Option String) (now : ℕ)
          → ((catch path request_id now x).message ≡ generic)
            × (500 ≤ (catch path request_id now x).status_code))
unfolding catch
catch-IsAlike x internal = (
  λ y also same path request_id now.
      rw
        (
          internal-message x internal,
          internal-message y also,
          internal-label x internal,
          internal-label y also,
          same,
        )
        refl,
  λ path request_id now. (internal-message x internal, internal-status x internal),
)
