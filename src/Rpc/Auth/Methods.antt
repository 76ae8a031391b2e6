-- ===== src/Rpc/Auth/Methods.antt =====
-- The interceptors of rpc/server_auth.go: which calls reach a handler, and with what.
use goutils.Common.{
  String, ◌≡◌, ◌⊎◌, inl, inr, refl, ◌∙◌, Bool, true, false, none, if◌then◌else◌, is_in, arith,
}
use goutils.Rpc.Auth.{
  Result, ok, err, Token, Context, Server, Libraries, tried, try_auth, ensure_authed,
}
use goutils.Rpc.Auth.Library.{IsDocumented}
use goutils.Rpc.Auth.Authentic.{IsAuthentic, ensure_authed-IsAuthentic}

-- the first argument of a stream's handler: the service, or what was given in its place
pub data Argument (D : Type 0) : Type 0 where
  service : Argument D
  context : Context D → Argument D

module _ {K D : Type 0} (lib : Libraries K) where
  -- authUnaryInterceptor: the context that it gives to the handler
  unfoldable pub auth_unary_interceptor : Server K D → String → Context D → Result (Context D)
  unfolding try_auth ensure_authed
  auth_unary_interceptor ss full_method ctx =
      if is_in ss.exempt_methods full_method
      then ok ctx
      else if is_in ss.public_methods full_method
      then try_auth lib ss ctx
      else ensure_authed lib ss ctx

  abbrev pub given : (Context D → Argument D) → Result (Context D) → Result (Argument D × Context D)
  given f (ok next) = ok (f next, next)
  given f (err e) = err e

  -- authStreamInterceptor: the argument and the context of the stream that it gives to the handler
  unfoldable pub auth_stream_interceptor :
      Server K D → String → Context D → Result (Argument D × Context D)
  unfolding try_auth ensure_authed
  auth_stream_interceptor ss full_method ctx =
      if is_in ss.exempt_methods full_method
      then ok (service, ctx)
      else if is_in ss.public_methods full_method
      then given (λ next. context next) (try_auth lib ss ctx)
      else given (λ next. service) (ensure_authed lib ss ctx)

  -- what the handler of a method gets as its first argument
  abbrev pub argument : Server K D → String → Context D → Argument D
  argument ss full_method next =
      if is_in ss.exempt_methods full_method
      then service
      else if is_in ss.public_methods full_method
      then context next
      else service

  -- The interceptor for streams lets the same calls through as the one for unary calls, with the
  -- same contexts and the same errors. The handler gets the service as its first argument, but for a
  -- public method that is not exempt, where it gets the context in its place.
  pub auth_stream_interceptor-unary :
      (ss : Server K D) (full_method : String) (ctx : Context D)
      → auth_stream_interceptor ss full_method ctx
        ≡ given (argument ss full_method) (auth_unary_interceptor ss full_method ctx)
  unfolding auth_stream_interceptor auth_unary_interceptor
  auth_stream_interceptor-unary ss full_method ctx =
      go (is_in ss.exempt_methods full_method) (is_in ss.public_methods full_method)
    where
      go :
          (x p : Bool)
          → (if x
              then ok (service, ctx)
              else if p
              then given (λ next. context next) (try_auth lib ss ctx)
              else given (λ next. service) (ensure_authed lib ss ctx))
            ≡ given
                (λ next. if x then service else if p then context next else service)
                (if x then ok ctx else if p then try_auth lib ss ctx else ensure_authed lib ss ctx)
      go true p = refl
      go false true = refl
      go false false = refl

  module _ (IsSigned : String → Token → K → Type 0) where
    try_auth-IsAuthentic :
        IsDocumented lib IsSigned
        → (ss : Server K D) (ctx next : Context D) → ss.ensure_authed_handler ≡ none
        → try_auth lib ss ctx ≡ ok next
        → (next ≡ ctx) ⊎ IsAuthentic lib IsSigned ss ctx next
    unfolding try_auth
    try_auth-IsAuthentic doc ss ctx next h x = go (ensure_authed lib ss ctx) refl x
      where
        go :
            (r : Result (Context D))
            → ensure_authed lib ss ctx ≡ r
            → tried lib ctx r ≡ ok next
            → (next ≡ ctx) ⊎ IsAuthentic lib IsSigned ss ctx next
        go (ok c) p y = inr (ensure_authed-IsAuthentic lib IsSigned doc ss ctx next h (p ∙ y))
        go (err e) p y = inl (ground arith)

    -- A handler that is called is that of an exempt method, with the caller's own context; that of a
    -- public method, with this context or one that is authentic; or it gets an authentic context.
    pub auth_unary_interceptor-IsAuthentic :
        IsDocumented lib IsSigned
        → (ss : Server K D) (full_method : String) (ctx next : Context D)
        → ss.ensure_authed_handler ≡ none
        → auth_unary_interceptor ss full_method ctx ≡ ok next
        → ((is_in ss.exempt_methods full_method ≡ true) × (next ≡ ctx))
          ⊎ ((is_in ss.public_methods full_method ≡ true) × (next ≡ ctx))
          ⊎ IsAuthentic lib IsSigned ss ctx next
    unfolding auth_unary_interceptor
    auth_unary_interceptor-IsAuthentic doc ss full_method ctx next h x =
        go (is_in ss.exempt_methods full_method) (is_in ss.public_methods full_method) refl refl x
      where
        go :
            (e p : Bool)
            → is_in ss.exempt_methods full_method ≡ e
            → is_in ss.public_methods full_method ≡ p
            → (if e then ok ctx else if p then try_auth lib ss ctx else ensure_authed lib ss ctx)
              ≡ ok next
            → ((is_in ss.exempt_methods full_method ≡ true) × (next ≡ ctx))
              ⊎ ((is_in ss.public_methods full_method ≡ true) × (next ≡ ctx))
              ⊎ IsAuthentic lib IsSigned ss ctx next
        go true p q r y = inl (q, cc)
        go false true q r y = elim (try_auth-IsAuthentic doc ss ctx next h y) [
          | inl same ↦ inr (inl (r, same))
          | inr a ↦ inr (inr a)
        ]
        go false false q r y =
            inr (inr (ensure_authed-IsAuthentic lib IsSigned doc ss ctx next h y))
