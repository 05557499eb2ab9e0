-- ===== src/Web/Cookie.antt =====
-- The signed session cookie: src/diskless/webcookie.py. itsdangerous is a parameter.
use diskless.Base.{
  ℕ, Option, none, some, Text, Bytes, codes, decode, Result, ok, raise, bad_signature, ◌>>=◌, inl,
  inr, Result-cases,
}
use diskless.Base.Action.{Action}
use diskless.Web.{WebSession, Response, require_auth}

-- `URLSafeTimedSerializer(secret, salt)`: `dumps` at a time, `loads` with `max_age` at a time.
pub record Signer : Type 0 where
  pub dumps : Text → Text → ℕ → WebSession → Text
  pub loads : Text → Text → ℕ → ℕ → Text → Result WebSession

-- `SESSION_MAX_AGE_SECONDS`
abbrev pub session_max_age : ℕ
session_max_age = 28800

abbrev pub salt : Text
salt = codes "diskless-session"

-- `secrets.token_urlsafe(32)` is given.
abbrev pub new_session_payload : Text → Text → WebSession
new_session_payload csrf username = record { user = username; csrf = csrf }

-- `except BadSignature`
unfoldable pub forgiven : Result WebSession → Result (Option WebSession)
forgiven (ok session) = ok (some session)
forgiven (raise x) = elim x [ bad_signature ↦ ok none | other ↦ raise other ]

module _ (signer : Signer) (cookie_secret : Text) (now : ℕ) where
  -- The cookie of `set_session_cookie`.
  unfoldable pub session_cookie : WebSession → Text
  session_cookie payload = signer.dumps cookie_secret salt now payload

  unfoldable pub load_cookie : Bytes → Result WebSession
  load_cookie raw = do token ← decode raw; signer.loads cookie_secret salt session_max_age now token

  unfoldable pub read_session : Option Bytes → Result (Option WebSession)
  unfolding forgiven load_cookie
  read_session none = ok none
  read_session (some raw) = forgiven (load_cookie raw)

  -- `require_auth` around a handler, for a request with its cookie.
  unfoldable pub authorized :
      {S : Type 0} → Option Bytes → (WebSession → Action S Response) → Action S Response
  unfolding read_session require_auth
  authorized cookie handler w = elim (read_session cookie) [
    | raise x ↦ (raise x, w)
    | ok session ↦ require_auth session handler w
  ]

  -- What holds before, and after every call of the handler, holds after the request.
  pub authorized_cases :
      {S : Type 0} (P : S → Type 0) (cookie : Option Bytes)
      (handler : WebSession → Action S Response) (w : S)
      → P w
      → ((session : WebSession) → P (handler session w).1)
      → P (authorized cookie handler w).1
  unfolding authorized require_auth
  authorized_cases P cookie handler w before after = elim (Result-cases (read_session cookie)) [
    | inl (x, failed) ↦ rw (failed, authorized) before
    | inr (none, nobody) ↦ rw (nobody, authorized) before
    | inr (some session, somebody) ↦ rw (somebody, authorized) (after session)
  ]
