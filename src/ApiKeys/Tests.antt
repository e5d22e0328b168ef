-- ===== src/ApiKeys/Tests.antt =====
-- Keys on concrete tables, and the theorems at inputs that meet their hypotheses. The hash is the
-- identity here, which no theorem forbids.
use developer_platform_backe.Prelude.{◌≡◌, refl, ◌↔◌, true, false, none, some, [], ◌∷◌, arith}
use text.Mathlib.TextEquality.{eq_iff}
use developer_platform_backe.Orm.{list_orm}
use developer_platform_backe.Orm.ListTable.{list_tables}
use developer_platform_backe.Applications.{Application, find_one_or_throw}
use developer_platform_backe.ApiKeys.{
  ApiKey, KeyEnv, KeysState, KeyView, generate, issued, to_response, create, revoke, rotate,
  find_key_or_throw, find_valid_by_plaintext,
}
use developer_platform_backe.ApiKeys.Guard.{single, can_activate}
use developer_platform_backe.ApiKeys.Validity.{
  HasUniqueHashes, IsValidFor, find_valid_by_plaintext_iff,
}
use developer_platform_backe.ApiKeys.Lifecycle.{IsNewHash, IsRevoked, revoke-IsRevoked}
use developer_platform_backe.ApiKeys.Issue.{IsIssued, create-IsIssued}
use developer_platform_backe.ApiKeys.Usage.{IsAuthenticated, can_activate-IsAuthenticated}
use developer_platform_backe.ApiKeys.Rotation.{IsRotated, rotate-IsRotated}

abbrev plain_hash : KeyEnv
plain_hash = record { sha256 = λ t. t; is_production = false }

abbrev web_app : Application
web_app = record { id = 3; name = "Web"; description = none; organization_id = 7; is_active = true }

abbrev first_key : ApiKey
first_key = record {
  id = 5;
  name = "Server";
  prefix = "dk_test";
  last4 = "wxyz";
  key_hash = "dk_test_wxyz";
  application_id = 3;
  organization_id = 7;
  expires_at = some 500;
  revoked_at = none;
  last_used_at = none;
  usage_count = 8;
  created_at = 1;
}

abbrev tables : KeysState list_orm
tables = record { apps_state = record { apps = web_app ∷ [] }; keys = first_key ∷ [] }

tables-HasUniqueHashes : HasUniqueHashes tables
unfolding list_tables
tables-HasUniqueHashes a b ga gb same = ground arith

secret-IsNewHash : IsNewHash (generate plain_hash "abcdef").key_hash tables
unfolding list_tables generate
secret-IsNewHash x stored same = ground (arith, eq_iff "dk_test_wxyz" "dk_test_abcdef")

abbrev created_view : KeyView
created_view =
    to_response 100 (issued 6 100 "New" (generate plain_hash "abcdef") 3 7 (some 86_400_100))

create-IsIssued_example :
    IsIssued plain_hash 100 7 3 "New"
      (some 1)
      "abcdef"
      tables
      "dk_test_abcdef"
      created_view
      (create plain_hash 100 7 3 "New" (some 1) "abcdef" tables).1
unfolding create find_one_or_throw generate list_tables
create-IsIssued_example =
    create-IsIssued plain_hash 100 7 3 "New" (some 1) "abcdef" tables "dk_test_abcdef" created_view
      tables-HasUniqueHashes secret-IsNewHash refl

revoke-IsRevoked_example :
    IsRevoked plain_hash 100 7 3 5 tables (revoke plain_hash 100 7 3 5 tables).1
unfolding revoke find_key_or_throw list_tables
revoke-IsRevoked_example =
    revoke-IsRevoked plain_hash 100 7 3 5 tables
      (to_response 100 (record first_key { revoked_at = some 100 })) refl

rotate-IsRotated_example :
    IsRotated plain_hash 100 7 3 5 "abcdef" tables "dk_test_abcdef"
      (rotate plain_hash 100 7 3 5 "abcdef" tables).1
unfolding rotate find_key_or_throw generate list_tables
rotate-IsRotated_example =
    rotate-IsRotated plain_hash 100 7 3 5 "abcdef" tables "dk_test_abcdef" 5
      (to_response 100 (issued 6 100 "Server" (generate plain_hash "abcdef") 3 7 (some 500)))
      tables-HasUniqueHashes secret-IsNewHash refl

find_valid_by_plaintext_iff_example :
    (find_valid_by_plaintext plain_hash 500 "dk_test_wxyz" tables ≡ some first_key)
    ↔ IsValidFor plain_hash 500 "dk_test_wxyz" tables first_key
find_valid_by_plaintext_iff_example =
    find_valid_by_plaintext_iff plain_hash 500 "dk_test_wxyz" tables first_key
      tables-HasUniqueHashes

can_activate-IsAuthenticated_example :
    IsAuthenticated plain_hash 100
      (single "dk_test_wxyz")
      tables
      (record { key_id = 5; application_id = 3; organization_id = 7 })
      (can_activate plain_hash 100 (single "dk_test_wxyz") tables).1
unfolding can_activate find_valid_by_plaintext list_tables
can_activate-IsAuthenticated_example =
    can_activate-IsAuthenticated plain_hash 100 (single "dk_test_wxyz") tables
      (record { key_id = 5; application_id = 3; organization_id = 7 }) refl
