-- ===== src/Dashboard/Auth/Laws.antt =====
-- Who gets past the middleware, and as whom.
use ship_status_dash.Base.{
  String, ◌≡◌, refl, ◌≢◌, ◌⊎◌, inl, inr, Bool, true, false, err, arith, eq_iff, ◌==◌, string_eq,
  Bool-cases,
}
use ship_status_dash.Dashboard.Handlers.Http.{Handler, respond_with_error}
use ship_status_dash.Dashboard.Auth.{
  Incoming, AuthenticationResult, no_signature, invalid_format, unsupported_algorithm, mismatch,
  match, with_user, auth_middleware,
}

-- Without authentication everybody is the developer; otherwise it is the user of the header, which a
-- signature has to confirm.
abbrev pub IsAuthenticated : Bool → (Incoming → AuthenticationResult) → Incoming → String → Type 0
IsAuthenticated skip_auth authenticate i user =
    ((skip_auth ≡ true) × (user ≡ "developer"))
    ⊎ ((skip_auth ≡ false)
        × (i.forwarded_user ≢ "")
        × (authenticate i ≡ match)
        × (user ≡ i.forwarded_user))

module _ {S : Type 0} (skip_auth : Bool) (authenticate : Incoming → AuthenticationResult)
    (next : Handler S) (i : Incoming) where
  -- What the middleware comes to.
  abbrev pub GoesOn : Type 0
  GoesOn =
      ((user : String) × IsAuthenticated skip_auth authenticate i user
        × (auth_middleware skip_auth authenticate next i ≡ next (with_user user i.content)))
      ⊎ (((user : String) → ¬ IsAuthenticated skip_auth authenticate i user)
          × (message : String) × ((s : S)
              → auth_middleware skip_auth authenticate next i s
                ≡ (err (respond_with_error 401 message), s)))

  nobody :
      (user : String)
      → ((authenticate i ≡ match) → ¬ (i.forwarded_user ≢ ""))
      → skip_auth ≡ false
      → ¬ IsAuthenticated skip_auth authenticate i user
  nobody user refused checked (inl p) = cc
  nobody user refused checked (inr p) = refused p.2 p.1

  unmatched :
      (user : String) (result : AuthenticationResult)
      → skip_auth ≡ false
      → authenticate i ≡ result
      → result ≢ match
      → ¬ IsAuthenticated skip_auth authenticate i user
  unmatched user result checked e h = nobody user (λ m _. h (cc)) checked

  by_result :
      skip_auth ≡ false
      → (i.forwarded_user == "") ≡ false
      → (result : AuthenticationResult) → authenticate i ≡ result
      → GoesOn
  unfolding auth_middleware
  by_result checked named match e = inl (
    i.forwarded_user,
    inr (checked, ground (arith, named, eq_iff i.forwarded_user ""), e, refl),
    rw (checked, named, e) refl,
  )
  by_result checked named no_signature e = inr (
    λ user. unmatched user no_signature checked e cc,
    "Missing GAP-Signature header",
    λ s. rw (checked, named, e) refl,
  )
  by_result checked named invalid_format e = inr (
    λ user. unmatched user invalid_format checked e cc,
    "Invalid signature format",
    λ s. rw (checked, named, e) refl,
  )
  by_result checked named unsupported_algorithm e = inr (
    λ user. unmatched user unsupported_algorithm checked e cc,
    "Unsupported signature algorithm",
    λ s. rw (checked, named, e) refl,
  )
  by_result checked named mismatch e = inr (
    λ user. unmatched user mismatch checked e cc,
    "Invalid signature",
    λ s. rw (checked, named, e) refl,
  )

  -- Either a user is authenticated, and the handler runs with this user and no other; or nobody is, and
  -- the response is 401 with the world unchanged.
  pub auth_middleware-IsAuthenticated : GoesOn
  unfolding auth_middleware
  auth_middleware-IsAuthenticated = elim (Bool-cases skip_auth) [
    | inl skipped ↦ inl ("developer", inl (skipped, refl), rw skipped refl)
    | inr checked ↦ elim (Bool-cases (i.forwarded_user == "")) [
      | inl missing ↦ inr (
        λ user. nobody user (λ _. ground (arith, missing, eq_iff i.forwarded_user "")) checked,
        "Missing X-Forwarded-User header",
        λ s. rw (checked, missing) refl,
      )
      | inr named ↦ by_result checked named (authenticate i) refl
    ]
  ]
