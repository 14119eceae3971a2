-- ===== src/Auth/Tests/Accounts.antt =====
-- The theorems on codes, passwords and identities at concrete inputs.
use qayoda_backend.Auth.Identities.Attached.{LinkAnswer, link-LinkAnswer}
use qayoda_backend.Base.{
  ◌≤◌, ◌≡◌, refl, true, false, none, some, String, [], ◌∷◌, count_if, ◌==◌, find?, str_eq,
}
use qayoda_backend.Base.Actions.{ok, err}
use qayoda_backend.Auth.Types.{Account, PhoneOtpCode, AuthIdentity, phone, google, uz}
use qayoda_backend.Auth.Store.{AuthDb, otp_invalid, is_banned}
use qayoda_backend.Auth.Tokens.{
  Pair, access_of, view_of, dotted, issue_pair, insert_token, revoke_all_for,
}
use qayoda_backend.Auth.Identity.{
  IdentityInput, is_provider_of, unlink, unlink_in, link, link_in, link_new, insert_identity,
  enrich, resolve_in, sign_in_known, find_by_verified_contact,
}
use qayoda_backend.Auth.Phone.{
  normalize_phone, text_length, digits_of, local_part, is_in_service, without_country,
}
use qayoda_backend.Auth.Otp.{
  login, request_code, consume_code, newest, cooldown, assert_budget, write_code, outstanding_code,
  try_code, claim_code, reset_password, holds, phone_input,
}
use qayoda_backend.Auth.Codes.Metered.{IsMetered}
use qayoda_backend.Auth.Codes.Budget.{
  Reach, here, next, request, Reach-IsMetered, consume_code-once,
}
use qayoda_backend.Auth.Passwords.{reset_password-ends_others, reset_row, owns_live}
use qayoda_backend.Auth.Identities.Unlinked.{
  unlink-keeps_one, Reach-IsLinked, Reach as Changes, here as unchanged, next as change, attach,
}
use qayoda_backend.Auth.Identities.Again.{resolve_in-again}
use qayoda_backend.Auth.Tests.Data.{aziza, start, no_review, plain}

normalized : normalize_phone "+998 90 123-45-67" ≡ some "998901234567"
unfolding normalize_phone digits_of local_part text_length is_in_service without_country
normalized = refl

-- The state after the account asked for the code 123456.
abbrev code : PhoneOtpCode
code = record {
  id = 0;
  phone = "998901234567";
  code_hash = "123456";
  expires_at = 5300000;
  consumed_at = none;
  attempts = 0;
  created_at = 5000000;
}

abbrev asked : AuthDb
asked = record start { next_id = 1; otps = code ∷ [] }

asked-Reach : Reach start asked
unfolding request_code assert_budget newest cooldown write_code
asked-Reach =
    next here (request no_review plain (λ _ _ _ _. true) "123456" "998901234567" (some uz) login)

Reach-IsMetered_example : IsMetered asked
Reach-IsMetered_example = Reach-IsMetered refl asked-Reach

abbrev spent : AuthDb
spent = record asked { otps = record code { consumed_at = some 5000000 } ∷ [] }

accepted : consume_code no_review str_eq "998901234567" "123456" asked ≡ (ok tt, spent)
unfolding consume_code outstanding_code newest try_code claim_code
accepted = refl

consume_code-once_example :
    consume_code no_review str_eq "998901234567" "123456" spent ≡ (err otp_invalid, spent)
consume_code-once_example =
    consume_code-once no_review str_eq "998901234567" "123456" "123456" asked spent
      (Reach-IsMetered refl asked-Reach) refl accepted

abbrev linked : AuthIdentity
linked = record {
  id = 0;
  user_id = 7;
  provider = phone;
  provider_id = "998901234567";
  last_used_at = some 5000000;
  created_at = 5000000;
}

abbrev two_ways : AuthDb
two_ways = record start {
  next_id = 2;
  identities = record linked { id = 1; provider = google; provider_id = "g1" } ∷ linked ∷ [];
}

abbrev google_input : IdentityInput
google_input = record {
  provider = google;
  provider_id = "g1";
  verified_email = none;
  verified_phone = none;
  name = none;
  surname = none;
  avatar_url = none;
  language = none;
}

two_ways-Changes : Changes start two_ways
unfolding link link_in link_new insert_identity enrich
two_ways-Changes =
    change (change unchanged (attach 7 (phone_input "998901234567" none none)))
      (attach 7 google_input)

abbrev one_way : AuthDb
one_way = record two_ways { identities = linked ∷ [] }

unlinked : unlink 7 google two_ways ≡ (ok tt, one_way)
unfolding unlink unlink_in
unlinked = refl

unlink-keeps_one_example :
    (1 ≤ count_if (λ i. i.user_id == 7) one_way.identities)
    × (count_if (is_provider_of 7 google) one_way.identities ≡ 0)
unlink-keeps_one_example =
    unlink-keeps_one 7 google two_ways one_way (Reach-IsLinked refl two_ways-Changes) unlinked

resolved : resolve_in (phone_input "998901234567" none none) one_way ≡ (ok (aziza, false), one_way)
unfolding resolve_in sign_in_known find_by_verified_contact
resolved = refl

resolve_in-again_example :
    (v : Account) × (t' : AuthDb) × (resolve_in (phone_input "998901234567" none none) one_way
      ≡ (ok (v, false), t'))
    × (v.id ≡ 7)
resolve_in-again_example =
    resolve_in-again (phone_input "998901234567" none none) one_way one_way aziza false resolved

-- The password is replaced by the code's proof.
abbrev reset_aziza : Account
reset_aziza = record aziza { password_hash = some "new" }

abbrev new_pair : Pair
new_pair = record {
  access_token = access_of 5000000 reset_aziza;
  refresh_token = "bb.x9";
  user = view_of reset_aziza;
}

abbrev reset_db : AuthDb
reset_db =
    (reset_password no_review plain str_eq plain "x9" "bb" "901234567" "123456" "new" asked).1

reset_done :
    reset_password no_review plain str_eq plain "x9" "bb" "901234567" "123456" "new" asked
    ≡ (ok new_pair, reset_db)
unfolding reset_password normalize_phone digits_of local_part text_length is_in_service
    without_country consume_code outstanding_code newest try_code claim_code revoke_all_for
    issue_pair insert_token dotted
reset_done = refl

reset_password-ends_others_example :
    (p : String) × (u : Account) × (normalize_phone "901234567" ≡ some p)
    × (find? (holds p) asked.users ≡ some u)
    × (is_banned u.status ≡ false)
    × (find? (holds p) reset_db.users ≡ some (reset_row reset_db.now "new" u))
    × (count_if (owns_live u.id) reset_db.refreshes ≡ 1)
reset_password-ends_others_example =
    reset_password-ends_others no_review plain str_eq plain "x9" "bb" "901234567" "123456" "new"
      asked reset_db new_pair reset_done

link-LinkAnswer_example :
    LinkAnswer 7 google_input
      (record one_way { next_id = 1 })
      (link 7 google_input (record one_way { next_id = 1 }))
link-LinkAnswer_example = link-LinkAnswer 7 google_input (record one_way { next_id = 1 }) refl

-- It is attached.
google_linked :
    link 7 google_input (record one_way { next_id = 1 })
    ≡ (ok (record linked { id = 1; provider = google; provider_id = "g1" }), two_ways)
unfolding link link_in link_new insert_identity enrich
google_linked = refl
