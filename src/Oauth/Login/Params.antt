-- ===== src/Oauth/Login/Params.antt =====
-- What the browser carries to the authorization server, and what is kept of two logins at once.

use specmcp.Prelude.{
  List, all, all_elem, ℕ, ◌+◌, ◌≤◌, ◌<◌, String, ◌≡◌, refl, sym, subst, ap, is_some, ◌∙◌, inl, inr,
  Bool, true, false, Option, some, [], ◌∷◌, any, elem, Distinct, is_empty, ◌==◌, eq_iff, Bool-cases,
  if◌then◌else◌, arith,
}
use specmcp.Prelude.Dict.{Dict, get, set, update, has, keys, get-set, has-get}
use specmcp.Prelude.Text.{join}
use specmcp.Config.{reserved_oauth_params, validate_extra_params}
use specmcp.Oauth.{Scheme, Settings, Outside, OauthState}
use specmcp.Oauth.Nonces.{store_verifier, consume_verifier}
use specmcp.Oauth.Login.{Answer, login_params, signed_state}
use specmcp.Oauth.Login.Cases.{IsRedirect}

get-update : (d e : Dict String) (k : String) → has e k ≡ false → get (update d e) k ≡ get d k
unfolding update
get-update d [] k h = refl
get-update d ((j, v) ∷ e) k h = elim (Bool-cases (j == k)) [
  | inl same ↦ cc (rw same at h)
  | inr differ ↦ get-update (set d j v) e k (rw differ at h) ∙ rw get-set (rw differ refl)
]

get-update_has :
    (d e : Dict String) (k v : String)
    → Distinct (keys e)
    → get e k ≡ some v
    → get (update d e) k ≡ some v
unfolding update get
get-update_has d [] k v h g = cc
get-update_has d ((j, w) ∷ e) k v (fresh, h) g = elim (Bool-cases (j == k)) [
  | inl same ↦
      let first : some w ≡ some v = rw (same, get) at g in
      let absent : has e k ≡ false =
        subst (λ i. elem i (keys e) ≡ false) ((eq_iff j k).0 same) fresh in
      get-update (set d j w) e k absent ∙ rw get-set (rw same first)
  | inr differ ↦ get-update_has (set d j w) e k v h (rw (differ, get) at g)
]

-- Setting the scope leaves the other parameters alone.
get-scoped :
    (b : Bool) (d : Dict String) (k v : String)
    → ("scope" == k) ≡ false
    → get (if b then d else set d "scope" v) k ≡ get d k
get-scoped true d k v h = refl
get-scoped false d k v h = rw get-set (rw h refl)

module _ (scheme : Scheme) (state challenge : String) where
  abbrev pub carried : String → Option String
  carried k = get (login_params scheme state challenge) k

  kept_param :
      (k : String)
      → ("scope" == k) ≡ false
      → has scheme.extra_params k ≡ false
      → carried k
        ≡ get
            (("response_type", "code")
              ∷ ("client_id", scheme.client_id)
              ∷ ("redirect_uri", scheme.redirect_uri)
              ∷ ("state", state)
              ∷ ("code_challenge", challenge)
              ∷ ("code_challenge_method", "S256")
              ∷ [])
            k
  unfolding login_params
  kept_param k h absent =
      get-scoped (is_empty scheme.scopes) _ k (join " " scheme.scopes) h
      ∙ get-update _ scheme.extra_params k absent

  not_reserved :
      (d : Dict String)
      → validate_extra_params scheme.extra_params ≡ some d
      → any (has scheme.extra_params) reserved_oauth_params ≡ false
  unfolding validate_extra_params
  not_reserved d h = elim (Bool-cases (any (has scheme.extra_params) reserved_oauth_params)) [
    | inl bad ↦ cc (rw bad at h)
    | inr well ↦ well
  ]

  -- With extra parameters that pass validation, and that have none of the three names of the flow,
  -- the redirect asks for a code for the configured client and its redirect URI, and carries the
  -- signed state and the S256 challenge.
  pub login_params_lem :
      (d : Dict String)
      → validate_extra_params scheme.extra_params ≡ some d
      → has scheme.extra_params "state" ≡ false
      → has scheme.extra_params "code_challenge" ≡ false
      → has scheme.extra_params "code_challenge_method" ≡ false
      → (carried "response_type" ≡ some "code")
        × (carried "client_id" ≡ some scheme.client_id)
        × (carried "redirect_uri" ≡ some scheme.redirect_uri)
        × (carried "state" ≡ some state)
        × (carried "code_challenge" ≡ some challenge)
        × (carried "code_challenge_method" ≡ some "S256")
  unfolding get
  login_params_lem d h no_state no_challenge no_method =
      let free = not_reserved d h in
      (
        kept_param "response_type" refl (ground arith),
        kept_param "client_id" refl (ground arith),
        kept_param "redirect_uri" refl (ground arith),
        kept_param "state" refl no_state,
        kept_param "code_challenge" refl no_challenge,
        kept_param "code_challenge_method" refl no_method,
      )

  -- Names of the redirect that the flow sets, of which the validation reserves none.
  abbrev pub flow_params : List String
  flow_params = "state" ∷ "code_challenge" ∷ "code_challenge_method" ∷ []

  not_flow :
      (k : String)
      → all (λ i. elem i flow_params) (keys scheme.extra_params) ≡ true
      → elem k flow_params ≡ false
      → has scheme.extra_params k ≡ false
  not_flow k h other = elim (Bool-cases (elem k (keys scheme.extra_params))) [
    | inl member ↦
        let p : elem k flow_params ≡ true =
          all_elem (λ i. elem i flow_params) (keys scheme.extra_params) k h member in
        cc
    | inr absent ↦ absent
  ]

  not_scope :
      (k v : String)
      → all (λ i. elem i flow_params) (keys scheme.extra_params) ≡ true
      → get scheme.extra_params k ≡ some v
      → ("scope" == k) ≡ false
  not_scope k v h found = elim (Bool-cases ("scope" == k)) [
    | inl same ↦
        let e : "scope" ≡ k = (eq_iff "scope" k).0 same in
        let p : has scheme.extra_params k ≡ true =
          has-get scheme.extra_params k ∙ ap is_some found in
        let q : elem "scope" (keys scheme.extra_params) ≡ true =
          subst (λ i. elem i (keys scheme.extra_params) ≡ true) (sym e) p in
        let n : has scheme.extra_params "scope" ≡ false = not_flow "scope" h refl in cc
    | inr differ ↦ differ
  ]

  -- Extra parameters whose names are all state, code_challenge or code_challenge_method, each at most
  -- once, pass the validation, and what they have under a name is what the redirect carries under it,
  -- in place of the signed state, the challenge or its method.
  pub login_params_replaced :
      (k v : String)
      → Distinct (keys scheme.extra_params)
      → all (λ i. elem i flow_params) (keys scheme.extra_params) ≡ true
      → get scheme.extra_params k ≡ some v
      → (validate_extra_params scheme.extra_params ≡ some scheme.extra_params)
        × (carried k ≡ some v)
  unfolding login_params validate_extra_params
  login_params_replaced k v h flow found = (
    rw (not_flow "grant_type" flow refl) (
        rw (not_flow "code" flow refl) (
          rw (not_flow "code_verifier" flow refl) (
            rw (not_flow "redirect_uri" flow refl) (
              rw (not_flow "client_id" flow refl) (
                rw (not_flow "client_secret" flow refl)
                  (rw (not_flow "response_type" flow refl) refl)))))),
    get-scoped (is_empty scheme.scopes) _ k (join " " scheme.scopes) (not_scope k v flow found)
        ∙ get-update_has _ scheme.extra_params k v h found,
  )

-- Two logins of one session in the same second have the same state, and what is kept under it is of
-- the second one only: the callback of the first is taken for the scheme and the verifier of the
-- second.
pub logins_collide :
    (outside : Outside) (settings : Settings) (now later : ℕ) (first second : String)
    (found other : Option (String × String)) (s t : OauthState outside) (a b : Answer outside)
    (r : IsRedirect outside settings now first found s a)
    (q : IsRedirect outside settings now second other t b)
    → r.session_id ≡ q.session_id
    → now ≤ later
    → later < now + outside.verifiers.ttl
    → (r.state ≡ q.state) × ((consume_verifier later r.state b.0).0 ≡ some (second, q.scheme_name))
unfolding consume_verifier store_verifier
logins_collide outside settings now later first second found other s t a b r q same late in_time =
    let both : signed_state outside q.session_id now ≡ some r.state =
      subst (λ i. signed_state outside i now ≡ some r.state) same r.signed in
    let state : some r.state ≡ some q.state = sym both ∙ q.signed in
    let e : r.state ≡ q.state = cc in
    (
      e,
      rw (e, q.stored)
          (outside.verifiers.peek_inserted t.pkce_store q.state (second, q.scheme_name) now later
            late in_time),
    )
