-- ===== src/Rpc/Auth/Library.antt =====
-- What the libraries for tokens and statuses document, and an instance that keeps it.
use goutils.Common.{String, ◌≡◌, true, some, is_in}
use goutils.Rpc.Auth.{status, Result, ok, Claims, Token, Libraries}

-- ParseWithClaims succeeds only with the claims of a token whose text is signed with the key that
-- the given function answers for it, an audience is verified only if the claims name it, and a
-- status error has its own code. `IsSigned s t k`: s is the text of t with a signature under k.
pub record IsDocumented {K : Type 0} (lib : Libraries K) (IsSigned : String → Token → K → Type 0)
    : Type 0 where
  pub parsed :
      (s : String) (f : Token → Result K) (claims : Claims)
      → lib.parse_with_claims s f ≡ ok claims
      → (t : Token) × (k : K) × (f t ≡ ok k) × IsSigned s t k × (t.claims ≡ claims)
  pub audience :
      (claims : Claims) (a : String)
      → lib.verify_audience claims a ≡ true
      → is_in claims.audience a ≡ true
  pub code : (c m : String) → lib.status_code (status c m) ≡ some c
