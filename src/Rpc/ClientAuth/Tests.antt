-- ===== src/Rpc/ClientAuth/Tests.antt =====
-- A client that authenticates once: the server counts the calls of Authenticate.
use goutils.Common.{ℕ, suc, ◌≡◌, refl, none, List, [], ◌∷◌}
use goutils.Rpc.DialOptions.{no_credentials}
use goutils.Rpc.Dial.{done}
use goutils.Rpc.DialDirect.{JwtCredentials}
use goutils.Rpc.ClientAuth.{
  ok_code, other_code, unauthenticated, AuthClient, authenticate, intercept,
}
use goutils.Rpc.ClientAuth.Calls.{
  Event, sends, answered, run, answers, headers_with, authenticate-run,
}

abbrev counting : AuthClient ℕ
counting = record {
  authenticate = λ n entity creds. (done "token", suc n);
  authenticate_to = λ n header entity. (done "external", suc n);
}

abbrev client : JwtCredentials
client = record {
  conn = none;
  entity = "robot";
  external_auth_to_entity = "";
  creds = no_credentials;
  access_token = "";
  external_auth_material = "";
}

abbrev with_token : JwtCredentials
with_token = record client { access_token = "token" }

abbrev some_events : List Event
some_events =
    sends []
    ∷ answered ok_code
    ∷ sends ("https://robot/proto.rpc.v1.AuthService" ∷ [])
    ∷ answered other_code
    ∷ []

first_call : authenticate counting client 0 ≡ (done "token", (with_token, 1))
unfolding authenticate
first_call = refl

authenticate-run_example :
    (run counting some_events (with_token, 1) ≡ (with_token, 1))
    × (answers counting some_events (with_token, 1) ≡ headers_with "token" some_events)
    × (authenticate counting with_token 1 ≡ (done "token", (with_token, 1)))
authenticate-run_example =
    authenticate-run counting client with_token 0 1 "token" some_events first_call refl
      (tt, (refl, (tt, (refl, tt))))

-- behind an answer "unauthenticated" it authenticates again
authenticates_again :
    authenticate counting (intercept unauthenticated with_token) 1 ≡ (done "token", (with_token, 2))
unfolding authenticate intercept
authenticates_again = refl
