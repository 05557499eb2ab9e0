-- ===== src/Web.antt =====
-- The management web interface, src/diskless/bootd/web and src/diskless/webcookie.py. A handler runs
-- on the state that the process and its database have; of a rendered page its template's name is kept.
pub mod Pairing
pub mod Images
pub mod Clients
pub mod Settings
pub mod Updates
pub mod Routes
pub mod Cookie
pub mod Login
pub mod Pages
use diskless.Base.{
  ℕ, Bool, true, false, Option, none, some, List, [], ◌∷◌, Bytes, Text, codes, decode, is_ascii,
  ◌&&◌, Result, ok, raise, type_error, index_error, key_error, ◌>>=◌, ◌==◌, list_eq, nat_eq,
  if◌then◌else◌,
}
use diskless.Base.Dict.{Dict, lookup}
use diskless.Base.Action.{Action}
use diskless.Database.{Database}
use diskless.Orchestration.Session.{Session}

-- `request.args`
abbrev pub Args : Type 0
Args = Dict Text (List Bytes)

-- The payload of the session cookie.
pub record WebSession : Type 0 where
  pub user : Text
  pub csrf : Text

pub data Response : Type 0 where
  redirect : Text → Response
  refuse : ℕ → Response
  page : Text → Response

-- `files` are the image files by path; `admin_sessions` is `_admin_sessions`, by profile.
pub record World : Type 0 where
  pub db : Database
  pub files : Dict Text Bytes
  pub admin_sessions : Dict ℕ Session

abbrev pub Handler : Type 0
Handler = Action World Response

-- `secrets.compare_digest` on texts wants ASCII.
unfoldable pub compare_digest : Text → Text → Result Bool
compare_digest a b = if is_ascii a && is_ascii b then ok (a == b) else raise type_error

-- `values[0]`
unfoldable pub first_value : List Bytes → Result Bytes
first_value [] = raise index_error
first_value (v ∷ vs) = ok v

-- `request.args[name][0]`
unfoldable pub arg : Text → Args → Result Bytes
unfolding first_value
arg name args = elim (lookup name args) [ none ↦ raise key_error | some vs ↦ first_value vs ]

-- `request.args.get(name, [default])[0]`
unfoldable pub arg_or : Text → Bytes → Args → Result Bytes
unfolding first_value
arg_or name default args = elim (lookup name args) [ none ↦ ok default | some vs ↦ first_value vs ]

unfoldable pub verify_csrf : Args → WebSession → Result Bool
unfolding compare_digest
verify_csrf args session = do
  given ← arg_or (codes "_csrf") [] args
  submitted ← decode given
  compare_digest submitted session.csrf

module _ {S : Type 0} where
  -- How every handler of a POST begins.
  unfoldable pub checked : Result Bool → Action S Response → Action S Response
  checked (raise x) handler w = (raise x, w)
  checked (ok false) handler w = (ok (refuse 403), w)
  checked (ok true) handler w = handler w

  -- What holds of the state as it was, and after the handler, holds after the check too.
  pub checked_cases :
      (P : S → Type 0) (r : Result Bool) (handler : Action S Response) (w : S)
      → P w
      → P (handler w).1
      → P (checked r handler w).1
  unfolding checked
  checked_cases P (raise x) handler w before after = before
  checked_cases P (ok false) handler w before after = before
  checked_cases P (ok true) handler w before after = after

-- `require_auth`: no session, no call of the handler.
unfoldable pub require_auth :
    {S : Type 0} → Option WebSession → (WebSession → Action S Response) → Action S Response
require_auth none handler w = (ok (redirect (codes "/login")), w)
require_auth (some session) handler w = handler session w
