-- ===== src/Admin.antt =====
-- crates/server/src/state.rs and the authentication of crates/server/src/admin_api.rs and data_api.rs:
-- admin sessions, the throttle of the password gates, and the handlers that use them. An Instant is a
-- number of seconds, an IP address its text. The password hash, the random token and the file of the
-- configuration are parameters.
pub mod Sessions
pub mod Throttle
pub mod Guesses
pub mod Bound
pub mod Password
mod Examples
use mathlib.Core.Option
use blt.Base.{
  ℕ, ◌+◌, ◌-◌, Bool, true, false, not, ◌&&◌, ◌==◌, Option, none, some, List, [], ◌∷◌, ltb, leb,
  if◌then◌else◌,
}
use blt.Base.Assoc.{lookup, insert_at, erase}
use blt.Base.Parse.{split_once, split_on, split_text, trim}
use blt.Base.Result.{Result, ok, err}
use blt.Base.Text.{Text, text, ◌=t◌}
use blt.Pathsafe.{byte_len}

abbrev pub session_idle : ℕ
session_idle = 7200

abbrev pub session_absolute : ℕ
session_absolute = 43200

abbrev pub max_login_fails : ℕ
max_login_fails = 8

abbrev pub login_lockout : ℕ
login_lockout = 60

pub record SessionMeta : Type 0 where
  pub created : ℕ
  pub last_seen : ℕ

pub record LoginThrottle : Type 0 where
  pub fails : ℕ  -- u32
  pub locked_until : Option ℕ

-- The fields of `AppState` and its configuration that the password gates use.
pub record Gate : Type 0 where
  pub password_hash : Option Text
  pub admin_sessions : List (Text × SessionMeta)
  pub login_throttle : List (Text × LoginThrottle)

-- The token is the random one that is minted.
unfoldable pub session_new : Gate → Text → ℕ → Gate
unfolding insert_at
session_new g token now = record g {
  admin_sessions =
      insert_at ◌=t◌ token (record { created = now; last_seen = now }) g.admin_sessions;
}

abbrev pub is_fresh : ℕ → SessionMeta → Bool
is_fresh now s = ltb (now - s.created) session_absolute && ltb (now - s.last_seen) session_idle

unfoldable pub session_valid : Gate → Text → ℕ → Bool × Gate
unfolding lookup insert_at erase
session_valid g token now = elim (lookup ◌=t◌ token g.admin_sessions) [
  | none ↦ (false, g)
  | some s ↦
      if is_fresh now s
      then (
        true,
        record g {
          admin_sessions = insert_at ◌=t◌ token (record s { last_seen = now }) g.admin_sessions;
        },
      )
      else (false, record g { admin_sessions = erase ◌=t◌ token g.admin_sessions })
]

unfoldable pub session_remove : Gate → Text → Gate
unfolding erase
session_remove g token = record g { admin_sessions = erase ◌=t◌ token g.admin_sessions }

unfoldable pub session_clear : Gate → Gate
session_clear g = record g { admin_sessions = [] }

abbrev pub is_later : ℕ → Option ℕ → Bool
is_later now none = false
is_later now (some until) = ltb now until

abbrev pub locked_at : ℕ → Option LoginThrottle → Bool
locked_at now none = false
locked_at now (some e) = is_later now e.locked_until

unfoldable pub login_locked : Gate → Text → ℕ → Bool
unfolding lookup
login_locked g ip now = locked_at now (lookup ◌=t◌ ip g.login_throttle)

-- `entry(ip).or_default()`
abbrev pub throttle_of : Option LoginThrottle → LoginThrottle
throttle_of none = record { fails = 0; locked_until = none }
throttle_of (some e) = e

abbrev pub count_fail : ℕ → LoginThrottle → LoginThrottle
count_fail now e =
    if leb max_login_fails (e.fails + 1)
    then record { fails = 0; locked_until = some (now + login_lockout) }
    else record e { fails = e.fails + 1 }

unfoldable pub login_fail : Gate → Text → ℕ → Gate
unfolding lookup insert_at
login_fail g ip now = record g {
  login_throttle =
      insert_at ◌=t◌ ip (count_fail now (throttle_of (lookup ◌=t◌ ip g.login_throttle)))
        g.login_throttle;
}

unfoldable pub login_ok : Gate → Text → Gate
unfolding erase
login_ok g ip = record g { login_throttle = erase ◌=t◌ ip g.login_throttle }

-- The kinds of errors, without their texts.
pub data ApiError : Type 0 where
  not_found unauthorized forbidden conflict bad_request too_many_requests internal : ApiError

-- A header's value, `none` where `to_str` fails.
pub record Headers : Type 0 where
  pub cookie : Option (Option Text)
  pub host : Option (Option Text)
  pub origin : Option (Option Text)
  pub referer : Option (Option Text)

abbrev pub to_str : Option (Option Text) → Option Text
to_str none = none
to_str (some value) = value

abbrev pub cookie_value : Option (Text × Text) → Option Text
cookie_value none = none
cookie_value (some (k, v)) = if k =t text "blt_admin" then some v else none

unfoldable pub find_cookie : List Text → Option Text
unfolding trim split_once
find_cookie [] = none
find_cookie (c ∷ cookies) =
    let rest = find_cookie cookies in
    elim (cookie_value (split_once b'=' (trim c))) [ none ↦ rest | some v ↦ some v ]

unfoldable pub cookie_token : Headers → Option Text
unfolding split_on find_cookie
cookie_token h = elim (to_str h.cookie) [
  | none ↦ none
  | some cookies ↦ find_cookie (split_on b';' cookies)
]

abbrev pub or_else : Option (Option Text) → Option (Option Text) → Option (Option Text)
or_else none b = b
or_else (some a) b = some a

-- `rest.split('/').next()`
abbrev pub before_slash : Text → Text
before_slash [] = []
before_slash (c ∷ s) = let rest = before_slash s in if c == b'/' then [] else c ∷ rest

-- `claimed.split("://").nth(1)`
abbrev pub second_part : Text → Option Text
second_part claimed = elim (split_text (text "://") claimed) [
  | none ↦ none
  | some (scheme, rest) ↦ elim (split_text (text "://") rest) [
    | none ↦ some rest
    | some (here, more) ↦ some here
  ]
]

abbrev pub host_matches : Option Text → Text → Bool
host_matches none host = false
host_matches (some rest) host = before_slash rest =t host

unfoldable pub same_origin : Headers → Bool
unfolding split_text
same_origin h = elim (to_str (or_else h.origin h.referer)) [
  | none ↦ true
  | some claimed ↦ elim (to_str h.host) [
    | none ↦ false
    | some host ↦ host_matches (second_part claimed) host
  ]
]

-- The middleware before every gated handler: `ok` is `next.run`.
unfoldable pub require_auth : Gate → Bool → Headers → ℕ → Result ApiError (Unit {0}) × Gate
unfolding cookie_token same_origin session_valid
require_auth g safe_method h now =
    if not safe_method && not (same_origin h) then (err forbidden, g) else elim (cookie_token h) [
      | none ↦ (err unauthorized, g)
      | some token ↦
          let (valid, g') = session_valid g token now in
          if valid then (ok tt, g') else (err unauthorized, g')
    ]

unfoldable pub auth_state : Gate → Headers → ℕ → (Bool × Bool) × Gate
unfolding cookie_token session_valid
auth_state g h now =
    let needs_setup : Bool = elim g.password_hash [ none ↦ true | some stored ↦ false ] in
    elim (cookie_token h) [
      | none ↦ ((needs_setup, false), g)
      | some token ↦ let (valid, g') = session_valid g token now in ((needs_setup, valid), g')
    ]

unfoldable pub logout : Gate → Headers → Gate
unfolding cookie_token session_remove
logout g h = elim (cookie_token h) [ none ↦ g | some token ↦ session_remove g token ]

abbrev pub min_password_len : ℕ
min_password_len = 8

-- What `login` and `verify_admin` begin with.
unfoldable pub start_login : Gate → Text → ℕ → Result ApiError (Unit {0})
unfolding login_locked
start_login g ip now = if login_locked g ip now then err too_many_requests else ok tt

-- The end of `change_password`, once the new password has its hash: `saved` is whether the file of the
-- configuration was written.
unfoldable pub renew : Gate → ℕ → Text → Bool → Text → Result ApiError Text × Gate
unfolding session_clear session_new
renew g now new_hash saved token =
    let g' : Gate = record g { password_hash = some new_hash } in
    if saved then (ok token, session_new (session_clear g') token now) else (err internal, g')

-- `parses` and `verifies` are `PasswordHash::new(stored).is_ok()` and `verify_password` on it.
module _ (parses : Text → Bool) (verifies : Text → Text → Bool) where
  unfoldable pub check_admin_password : Gate → Text → Bool
  check_admin_password g password = elim g.password_hash [
    | none ↦ false
    | some stored ↦ parses stored && verifies stored password
  ]

  -- What `login` and `verify_admin` do after it. The throttle is locked for the test and again here, so
  -- other requests may come in between.
  unfoldable pub check_password : Gate → Text → ℕ → Text → Result ApiError (Unit {0}) × Gate
  unfolding login_fail login_ok
  check_password g ip now password = elim g.password_hash [
    | none ↦ (err conflict, g)
    | some stored ↦
        if not (parses stored)
        then (err internal, g)
        else if not (verifies stored password)
        then (err unauthorized, login_fail g ip now)
        else (ok tt, login_ok g ip)
  ]

  -- The end of `verify_admin`, `none` where the body has no text for the password.
  abbrev pub finish_verify : Gate → Text → ℕ → Option Text → Result ApiError (Unit {0}) × Gate
  finish_verify g ip now none = (err bad_request, g)
  finish_verify g ip now (some password) = check_password g ip now password

  -- The end of `login`; the result is the token of the cookie.
  unfoldable pub finish_login : Gate → Text → ℕ → Text → Text → Result ApiError Text × Gate
  unfolding check_password session_new
  finish_login g ip now password token =
      let (result, g') = check_password g ip now password in
      elim result [ err e ↦ (err e, g') | ok done ↦ (ok token, session_new g' token now) ]

  -- `hash_password` is argon2 on a password under the salt that is drawn, `none` where it fails.
  module _ (hash_password : Text → Option Text) where
    unfoldable pub setup : Gate → ℕ → Text → Bool → Text → Result ApiError Text × Gate
    unfolding session_new byte_len
    setup g now password saved token =
        if ltb (byte_len password) min_password_len
        then (err bad_request, g)
        else elim (hash_password password) [
          | none ↦ (err internal, g)
          | some new_hash ↦ elim g.password_hash [
            | some stored ↦ (err conflict, g)
            | none ↦
                let g' : Gate = record g { password_hash = some new_hash } in
                if saved then (ok token, session_new g' token now) else (err internal, g')
          ]
        ]

    unfoldable pub change_password :
        Gate → ℕ → Text → Text → Bool → Text → Result ApiError Text × Gate
    unfolding renew byte_len
    change_password g now current new saved token = elim g.password_hash [
      | none ↦ (err conflict, g)
      | some stored ↦
          if not (parses stored)
          then (err internal, g)
          else if not (verifies stored current)
          then (err unauthorized, g)
          else if ltb (byte_len new) min_password_len
          then (err bad_request, g)
          else elim (hash_password new) [
            | none ↦ (err internal, g)
            | some new_hash ↦ renew g now new_hash saved token
          ]
    ]
