-- ===== src/Examples/Auth.antt =====
-- A manager who signs in and changes the password, links that are mailed, and an account made inactive.
use Prim.Native.String.{String}
use text.Mathlib.Text.{◌==◌ as str_eq}
use pikol_backend.Common.{
  ℕ, ◌+◌, ◌≡◌, ◌↔◌, refl, true, false, select, [], ◌∷◌, is_none, some, any, count, string_eq, ◌==◌,
  nat_eq, arith, ◌≤◌, ◌&&◌,
}
use pikol_backend.Time.{hours, minutes}
use pikol_backend.Errors.{err}
use pikol_backend.Users.Models.{UserRow}
use pikol_backend.Auth.Models.{password_reset, invitation}
use pikol_backend.Auth.Service.{
  issue_token, consume_token, link_error, refresh, resend_verification, verify_email, authenticate,
  is_live_of, has_jti, TokenPair, new_pair, rotate, after_rotation, reissue, issue_pair,
}
use pikol_backend.Auth.Security.{decode, verify_password}
use pikol_backend.Auth.Service.Replay.{refresh_once, IsShut}
use pikol_backend.Auth.Service.Links.{
  issue_then_consume, consume_once, only_latest_link, issued, with_tokens, consumed,
}
use pikol_backend.Auth.Service.Verification.{resend_then_verify, is_active_account}
use pikol_backend.Users.Service.Password.{
  changed_password_signs_in, with_hash, is_other, is_of_other,
}
use pikol_backend.Users.Service.{change_password}
use pikol_backend.Users.Service.Deactivation.{next_session}
use pikol_backend.Database.{Session, ◌>>=◌}
use pikol_backend.Database.Runs.{Returns}
use pikol_backend.Database.Ends.{Ends, wrote}
use pikol_backend.Examples.Data.{noon}
use pikol_backend.Examples.Accounts.{
  sample_accounts, sample_session, manager_row, desk_row, pending_row, open_crypto, short_settings,
}

abbrev first_pair : TokenPair
first_pair = new_pair open_crypto short_settings 8 6 noon

abbrev refreshed : Session
refreshed = (refresh open_crypto short_settings "t" 6 noon sample_session).1

first_refresh :
    Returns (refresh open_crypto short_settings "t" 6 noon) sample_session first_pair refreshed
unfolding refresh decode rotate after_rotation reissue issue_pair ◌>>=◌
first_refresh = refl

one_key : (jti : ℕ) → count (has_jti jti) sample_accounts.refresh_tokens ≤ 1
one_key jti = ground arith

refresh_once_example :
    (user : ℕ) × (any
        (λ r. is_live_of user r && has_jti 6 r)
        refreshed.tables.accounts.refresh_tokens
      ≡ true)
    × IsShut user (refresh open_crypto short_settings "t" 7 (noon + minutes 1) refreshed)
refresh_once_example =
    refresh_once open_crypto short_settings "t" 6 7 noon (noon + minutes 1) sample_session refreshed
      first_pair first_refresh (omega (arith)) refl one_key

issue_then_consume_example :
    (s' : Session) × (s'' : Session) × Returns
      (issue_token open_crypto 8 password_reset (hours 1) "raw" noon)
      sample_session
      "raw"
      s'
    × Returns (consume_token open_crypto "raw" password_reset (noon + minutes 5)) s' manager_row s''
issue_then_consume_example =
    issue_then_consume open_crypto 8 password_reset (hours 1) "raw" noon (noon + minutes 5)
      manager_row sample_session refl refl (omega (arith))

abbrev mailed : Session
mailed =
    wrote (with_tokens (issued open_crypto 8 password_reset (hours 1) "raw" noon)) sample_session

abbrev opened : Session
opened = consumed open_crypto "raw" (noon + minutes 5) mailed

link_opened :
    Returns
      (consume_token open_crypto "raw" password_reset (noon + minutes 5))
      mailed
      manager_row
      opened
unfolding consume_token ◌>>=◌
link_opened = refl

consume_once_example :
    consume_token open_crypto "raw" invitation (noon + minutes 6) opened ≡ (err link_error, opened)
consume_once_example =
    consume_once open_crypto "raw" password_reset invitation (noon + minutes 5) (noon + minutes 6)
      manager_row mailed opened link_opened

only_latest_link_example :
    (s' : Session) × Returns
      (issue_token open_crypto 8 password_reset (hours 1) "new" noon)
      mailed
      "new"
      s'
    × Ends
        (λ u _. (u.id == 8) ≡ false)
        (consume_token open_crypto "raw" password_reset (noon + minutes 5))
        s'
only_latest_link_example =
    only_latest_link open_crypto 8 password_reset (hours 1) "new" "raw" noon (noon + minutes 5)
      mailed refl refl

resend_then_verify_example :
    (s' : Session) × (s'' : Session) × Returns
      (resend_verification open_crypto "p@x" "raw" noon)
      sample_session
      (some (pending_row, "raw"))
      s'
    × Returns (verify_email open_crypto "raw" (noon + minutes 5)) s' tt s''
    × (any (is_active_account 10) s''.committed.accounts.users ≡ true)
resend_then_verify_example =
    resend_then_verify open_crypto "p@x" "raw" noon (noon + minutes 5) pending_row sample_session
      refl refl refl (omega (arith))

changed_password_signs_in_example :
    (s' : Session) × Returns
      (change_password open_crypto manager_row "secret" "fresh" noon)
      sample_session
      tt
      s'
    × ((p : String) (v : UserRow)
        → Returns (authenticate open_crypto "m@x" p) (next_session s') v (next_session s')
          ↔ (v ≡ with_hash "fresh" manager_row)
            × (str_eq "fresh" p ≡ true)
            × (is_none manager_row.email_verified_at ≡ false)
            × (manager_row.is_active ≡ true))
    × (any (is_live_of 8) s'.committed.accounts.refresh_tokens ≡ false)
    × (select (is_other 8) s'.committed.accounts.users ≡ desk_row ∷ pending_row ∷ [])
    × (select (is_of_other 8) s'.committed.accounts.refresh_tokens ≡ [])
unfolding verify_password
changed_password_signs_in_example =
    changed_password_signs_in open_crypto "m@x" "secret" "fresh" noon manager_row sample_session
      refl refl refl
