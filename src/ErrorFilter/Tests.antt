-- ===== src/ErrorFilter/Tests.antt =====
-- The filter at concrete exceptions.
use developer_platform_backe.ErrorFilter.Hiding.{catch-IsAlike}
use developer_platform_backe.ErrorFilter.{
  catch, status_of, label_of, plain_error, reason, other_value, message_of, http_exception, object,
  one, status_error,
}
use developer_platform_backe.Prelude.{◌≡◌, refl, none, some}

catch_runs :
    ((catch "/api" none 5
        (http_exception 401 (object (some (one "Invalid credentials")) none))).error
      ≡ "Unauthorized")
    × ((catch "/api" none 5 (status_error 413 "request entity too large")).message
        ≡ one "request entity too large")
unfolding catch label_of reason status_of message_of
catch_runs = (refl, refl)

catch-IsAlike_example :
    catch "/api" none 5 (plain_error "password is hunter2" "at db.ts:3")
    ≡ catch "/api" none 5 other_value
unfolding status_of
catch-IsAlike_example =
    (catch-IsAlike (plain_error "password is hunter2" "at db.ts:3") refl).0 other_value refl refl
      "/api" none 5
