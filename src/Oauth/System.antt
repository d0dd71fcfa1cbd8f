-- ===== src/Oauth/System.antt =====
-- The endpoints as a system: the steps of the handlers, in any order and with any number of exchanges
-- under way, and what is left of them in a log.
pub mod Traced
pub mod Owned
pub mod Single
use specmcp.Prelude.{ℕ, ◌≤◌, ◌≡◌, String, List, [], ◌∷◌, ◌++◌, ◌⊎◌, inl, inr, Option, none, some}
use specmcp.Errors.Result.{Result}
use specmcp.Auth.Tokens.{OauthTokens}
use specmcp.Oauth.{Settings, Outside, OauthState, Response, redirect}
use specmcp.Oauth.Nonces.{issue_nonce}
use specmcp.Oauth.Exchange.{TokenAnswer, exchanged}
use specmcp.Oauth.Login.{handle_login}
use specmcp.Oauth.Callback.{Exchange, begin_callback, finish_callback}
use specmcp.Oauth.Session.{handle_delete_session}

-- The steps, with what the outside contributes to each.
pub data Event : Type 0 where
  -- a nonce, for a session and a scheme
  issued : String → String → String → Event
  -- GET /auth/login, with a verifier and a nonce
  login : String → String → Event
  -- GET /auth/callback, with an error, a state and a code
  callback : String → String → String → Event
  -- the end of the exchange that is first in the list, with the token endpoint's answer
  finished : TokenAnswer → Event
  -- another exchange is put first
  rotated : Event
  -- DELETE /auth/session, with the client's host and its header
  delete_session : Option String → String → String → Event

pub record System (outside : Outside) : Type 0 where
  pub state : OauthState outside
  pub exchanges : List Exchange

abbrev rotate : List Exchange → List Exchange
rotate [] = []
rotate (e ∷ es) = es ++ e ∷ []

abbrev with_begun :
    {outside : Outside}
    → List Exchange
    → OauthState outside × (Response ⊎ Exchange)
    → System outside
with_begun es (s, inl response) = record { state = s; exchanges = es }
with_begun es (s, inr e) = record { state = s; exchanges = e ∷ es }

module _ (outside : Outside) where
  -- The state in which the server starts.
  abbrev pub initial : (String → outside.store.State) → System outside
  initial stores = record {
    state = record {
      nonce_store = outside.nonces.empty;
      nonce_scheme = outside.scheme_names.empty;
      pkce_store = outside.verifiers.empty;
      stores = stores;
    };
    exchanges = [];
  }

module _ (outside : Outside) (settings : Settings) where
  abbrev finish : Result OauthTokens → List Exchange → OauthState outside → System outside
  finish result [] s = record { state = s; exchanges = [] }
  finish result (e ∷ es) s = record {
    state = (finish_callback outside settings e result s).0;
    exchanges = es;
  }

  unfoldable pub step : ℕ → Event → System outside → System outside
  unfolding issue_nonce handle_login begin_callback exchanged finish_callback handle_delete_session
  step now (issued nonce session_id scheme_name) c = record c {
    state = issue_nonce now nonce session_id scheme_name c.state;
  }
  step now (login verifier nonce) c = record c {
    state = (handle_login outside settings now verifier nonce c.state).0;
  }
  step now (callback error state code) c =
      with_begun c.exchanges (begin_callback outside settings now error state code c.state)
  step now (finished ans) c = finish (exchanged outside.python now ans) c.exchanges c.state
  step now rotated c = record c { exchanges = rotate c.exchanges }
  step now (delete_session host header session_id) c = record c {
    state = (handle_delete_session outside settings host header session_id c.state).0;
  }

  -- The systems that are reached by a time, with the events so far, the last one first.
  pub data Reach (stores : String → outside.store.State)
      : ℕ → List Event → System outside → Type 0 where
    start : (now : ℕ) → Reach stores now [] (initial outside stores)
    next :
        (now later : ℕ) (log : List Event) (c : System outside) (event : Event)
        → Reach stores now log c
        → now ≤ later
        → Reach stores later (event ∷ log) (step later event c)
