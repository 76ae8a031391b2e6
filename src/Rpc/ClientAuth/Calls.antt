-- ===== src/Rpc/ClientAuth/Calls.antt =====
-- How often a client authenticates.
use Prim.Native.String.{◌++◌ as append}
use goutils.Common.{
  Option, some, String, ◌≡◌, refl, sym, ap, ◌∙◌, Bool, true, false, none, List, [], ◌∷◌, All,
  if◌then◌else◌,
}
use goutils.Rpc.Dial.{Outcome, done, failed, is_unset}
use goutils.Rpc.DialDirect.{JwtCredentials}
use goutils.Rpc.ClientAuth.{
  Code, AuthClient, own_token, kept, external_token, authenticate, forgets, intercept,
  is_auth_service, bearer, get_request_metadata,
}

-- a call that is to be sent, or the code of one that has been answered
pub data Event : Type 0 where
  sends : List String → Event
  answered : Code → Event

-- Not an answer that makes the client forget its token.
abbrev pub IsAccepted : Event → Type 0
IsAccepted (sends uris) = Unit
IsAccepted (answered c) = forgets c ≡ false

-- the header of each call with the token; a call of the service that authenticates has none
abbrev pub headers_with : String → List Event → List (Outcome (Option String))
headers_with token [] = []
headers_with token (sends uris ∷ es) =
    done (if is_auth_service uris then none else some (append "Bearer " token))
    ∷ headers_with token es
headers_with token (answered c ∷ es) = headers_with token es

module _ {S : Type 0} (client : AuthClient S) where
  abbrev pub step : Event → JwtCredentials × S → JwtCredentials × S
  step (sends uris) (j, s) = (get_request_metadata client uris j s).1
  step (answered c) (j, s) = (intercept c j, s)

  unfoldable pub run : List Event → JwtCredentials × S → JwtCredentials × S
  unfolding get_request_metadata intercept
  run [] s = s
  run (e ∷ es) s = run es (step e s)

  authenticate_kept :
      (j : JwtCredentials) (s : S)
      → is_unset j.access_token ≡ false
      → authenticate client j s ≡ (done j.access_token, (j, s))
  unfolding authenticate
  authenticate_kept j s h =
      ap
        (λ b.
          if b
          then kept j (external_token client j (own_token client j s))
          else (done j.access_token, (j, s)))
        h

  step_kept :
      (e : Event) (j : JwtCredentials) (s : S)
      → is_unset j.access_token ≡ false
      → IsAccepted e
      → step e (j, s) ≡ (j, s)
  unfolding get_request_metadata intercept
  step_kept (sends uris) j s h a =
      ap (λ r. (if is_auth_service uris then (done none, (j, s)) else bearer r).1)
        (authenticate_kept j s h)
      ∙ same (is_auth_service uris)
    where
      same :
          (b : Bool)
          → (if b then (done none, (j, s)) else bearer (done j.access_token, (j, s))).1 ≡ (j, s)
      same true = refl
      same false = refl
  step_kept (answered c) j s h a = ap (λ b. (if b then record j { access_token = "" } else j, s)) a

  run_kept :
      (es : List Event) (j : JwtCredentials) (s : S)
      → is_unset j.access_token ≡ false
      → All IsAccepted es
      → run es (j, s) ≡ (j, s)
  unfolding run
  run_kept [] j s h a = refl
  run_kept (e ∷ es) j s h (a, rest) = ap (run es) (step_kept e j s h a) ∙ run_kept es j s h rest

  authenticate-token :
      (j k : JwtCredentials) (s t : S) (token : String)
      → authenticate client j s ≡ (done token, (k, t))
      → k.access_token ≡ token
  unfolding authenticate
  authenticate-token j k s t token h =
      go (is_unset j.access_token) (external_token client j (own_token client j s)) h
    where
      go :
          (b : Bool) (r : Outcome String × S)
          → (if b then kept j r else (done j.access_token, (j, s))) ≡ (done token, (k, t))
          → k.access_token ≡ token
      go false r p =
          let same : j.access_token ≡ token = cc in
          let left : j ≡ k = ap (λ x. x.1.0) p in ap (λ x. x.access_token) (sym left) ∙ same
      go true (failed e, u) p = absurd (cc (ap (λ x. x.0) p))
      go true (done v, u) p =
          let first : done v ≡ done token = ap (λ x. x.0) p in
          let same : v ≡ token = cc in ap (λ x. x.1.0.access_token) (sym p) ∙ same

  -- what the calls that are sent go with
  unfoldable pub answers : List Event → JwtCredentials × S → List (Outcome (Option String))
  unfolding get_request_metadata intercept
  answers [] s = []
  answers (sends uris ∷ es) (j, s) =
      (get_request_metadata client uris j s).0 ∷ answers es (step (sends uris) (j, s))
  answers (answered c ∷ es) s = answers es (step (answered c) s)

  get_request_metadata-kept :
      (uris : List String) (j : JwtCredentials) (s : S) (token : String)
      → j.access_token ≡ token
      → is_unset j.access_token ≡ false
      → (get_request_metadata client uris j s).0
        ≡ done (if is_auth_service uris then none else some (append "Bearer " token))
  unfolding get_request_metadata
  get_request_metadata-kept uris j s token e h =
      ap (λ r. (if is_auth_service uris then (done none, (j, s)) else bearer r).0)
        (authenticate_kept j s h)
      ∙ same (is_auth_service uris)
    where
      same :
          (b : Bool)
          → (if b then (done none, (j, s)) else bearer (done j.access_token, (j, s))).0
            ≡ done (if b then none else some (append "Bearer " token))
      same true = refl
      same false = ap (λ t. done (some (append "Bearer " t))) e

  answers-kept :
      (es : List Event) (j : JwtCredentials) (s : S) (token : String)
      → j.access_token ≡ token
      → is_unset j.access_token ≡ false
      → All IsAccepted es
      → answers es (j, s) ≡ headers_with token es
  unfolding answers
  answers-kept [] j s token e h a = refl
  answers-kept (sends uris ∷ es) j s token e h (a, rest) =
      ap (λ x. x ∷ answers es (step (sends uris) (j, s)))
        (get_request_metadata-kept uris j s token e h)
      ∙ ap
          (λ p.
            done (if is_auth_service uris then none else some (append "Bearer " token))
            ∷ answers es p)
          (step_kept (sends uris) j s h tt)
      ∙ ap (λ l. done (if is_auth_service uris then none else some (append "Bearer " token)) ∷ l)
          (answers-kept es j s token e h rest)
  answers-kept (answered c ∷ es) j s token e h (a, rest) =
      ap (answers es) (step_kept (answered c) j s h a) ∙ answers-kept es j s token e h rest

  -- Once a client has a token that is not empty, whatever calls it sends and however they are answered,
  -- but for "unauthenticated" and "permission denied", it does not authenticate again: the server and
  -- the token are as they were, and each call goes with the header "Bearer " and the token, but one of
  -- the service that authenticates, which has none.
  pub authenticate-run :
      (j k : JwtCredentials) (s t : S) (token : String) (es : List Event)
      → authenticate client j s ≡ (done token, (k, t))
      → is_unset token ≡ false
      → All IsAccepted es
      → (run es (k, t) ≡ (k, t))
        × (answers es (k, t) ≡ headers_with token es)
        × (authenticate client k t ≡ (done token, (k, t)))
  authenticate-run j k s t token es h u a =
      let same = authenticate-token j k s t token h in
      let set : is_unset k.access_token ≡ false = ap is_unset same ∙ u in
      (
        run_kept es k t set a,
        answers-kept es k t token same set a,
        authenticate_kept k t set ∙ ap (λ x. (done x, (k, t))) same,
      )
