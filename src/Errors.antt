-- ===== src/Errors.antt =====
-- Errors as values: core/error/error.go and modules/auth/errors/error_codes.go.
pub mod Registry
pub mod Statuses
pub mod Challenge
use hexagonal_backend.Common.{ℕ, String, Bool, true, false}

abbrev pub ErrCode : Type 0
ErrCode = ℕ

-- The sentinels ErrNotFound and ErrConflict; a failure of a store or another external service;
-- errors.New; a panic, which the dispatcher turns into an error; and *ErrorStruct around its cause.
pub data Error : Type 0 where
  not_found conflict backend panic : Error
  plain : String → Error
  coded : ErrCode → Error → Error

abbrev pub new_msg : ErrCode → String → Error
new_msg code msg = coded code (plain msg)

abbrev pub new_err : ErrCode → Error → Error
new_err code err = coded code err

-- errors.Is(err, ErrNotFound): the sentinel itself, or one that an *ErrorStruct wraps.
abbrev pub is_not_found : Error → Bool
is_not_found not_found = true
is_not_found (coded code err) = is_not_found err
is_not_found _ = false

abbrev pub is_conflict : Error → Bool
is_conflict conflict = true
is_conflict (coded code err) = is_conflict err
is_conflict _ = false

-- `_, ok := err.(*ErrorStruct)`: the error itself, not what it wraps.
abbrev pub is_error_struct : Error → Bool
is_error_struct (coded code err) = true
is_error_struct _ = false

abbrev pub invalid_arguments : ErrCode
invalid_arguments = 10001

abbrev pub invalid_token : ErrCode
invalid_token = 10002

abbrev pub invalid_refresh_token : ErrCode
invalid_refresh_token = 10003

abbrev pub gen_rand_failed : ErrCode
gen_rand_failed = 10004

abbrev pub invalid_email_or_password : ErrCode
invalid_email_or_password = 10005

abbrev pub gen_token_failed : ErrCode
gen_token_failed = 10006

abbrev pub gen_refresh_token_failed : ErrCode
gen_refresh_token_failed = 10007

abbrev pub update_profile_failed : ErrCode
update_profile_failed = 10008

abbrev pub email_duplicated : ErrCode
email_duplicated = 10009

abbrev pub create_user_failed : ErrCode
create_user_failed = 10010

abbrev pub auth_code_not_found : ErrCode
auth_code_not_found = 10012

abbrev pub unsupported_response_type : ErrCode
unsupported_response_type = 10013

abbrev pub unsupported_grant_type : ErrCode
unsupported_grant_type = 10014

abbrev pub password_reset_token_expired : ErrCode
password_reset_token_expired = 10015

abbrev pub password_reset_token_not_found : ErrCode
password_reset_token_not_found = 10016

abbrev pub weak_password : ErrCode
weak_password = 10017

abbrev pub max_login_attempts_exceeded : ErrCode
max_login_attempts_exceeded = 10018

abbrev pub auth_code_create_failed : ErrCode
auth_code_create_failed = 10019

abbrev pub unsupported_scope : ErrCode
unsupported_scope = 10020

abbrev pub invalid_auth_request : ErrCode
invalid_auth_request = 10021

abbrev pub reset_password_failed : ErrCode
reset_password_failed = 10022

abbrev pub invalid_client : ErrCode
invalid_client = 10023

abbrev pub invalid_grant : ErrCode
invalid_grant = 10024

abbrev pub err_invalid_email_or_password : Error
err_invalid_email_or_password = new_msg invalid_email_or_password "invalid email or password"

abbrev pub err_invalid_token : Error
err_invalid_token = new_msg invalid_token "invalid token"

abbrev pub err_invalid_refresh_token : Error
err_invalid_refresh_token = new_msg invalid_refresh_token "invalid refresh token"

abbrev pub err_create_user : Error
err_create_user = new_msg create_user_failed "create user failed"

abbrev pub err_email_duplicated : Error
err_email_duplicated = new_msg email_duplicated "email already exists"

abbrev pub err_update_profile : Error
err_update_profile = new_msg update_profile_failed "update profile failed"

abbrev pub err_auth_code_not_found : Error
err_auth_code_not_found = new_msg auth_code_not_found "auth code not found"

abbrev pub err_password_reset_token_expired : Error
err_password_reset_token_expired =
    new_msg password_reset_token_expired "password reset token has expired"

abbrev pub err_password_reset_token_not_found : Error
err_password_reset_token_not_found =
    new_msg password_reset_token_not_found "password reset token not found"

abbrev pub err_invalid_redirect_uri : Error
err_invalid_redirect_uri = new_msg invalid_arguments "client redirect_uri not valid"

abbrev pub err_invalid_session : Error
err_invalid_session = new_msg invalid_arguments "invalid session"

abbrev pub err_max_login_attempts_exceeded : Error
err_max_login_attempts_exceeded =
    new_msg max_login_attempts_exceeded "maximum login attempts exceeded"

abbrev pub err_auth_code_create_failed : Error
err_auth_code_create_failed = new_msg auth_code_create_failed "failed to create authorization code"

abbrev pub err_invalid_grant : Error
err_invalid_grant = new_msg invalid_grant "invalid grant"

abbrev pub err_invalid_client : Error
err_invalid_client = new_msg invalid_client "invalid_client"

abbrev pub err_gen_refresh_token_failed : Error → Error
err_gen_refresh_token_failed err = new_err gen_refresh_token_failed err

abbrev pub err_weak_password : Error → Error
err_weak_password err = new_err weak_password err

abbrev pub err_reset_password_failed : Error
err_reset_password_failed = new_msg reset_password_failed "reset password failed"
