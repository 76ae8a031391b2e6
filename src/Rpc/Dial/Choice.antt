-- ===== src/Rpc/Dial/Choice.antt =====
-- Which connection a dial returns, and what it does with the others, in any order of the results.
use goutils.Common.{
  String, ◌≡◌, refl, sym, ap, ◌∙◌, subst, Bool, true, false, ◌||◌, Option, none, some, List, [],
  ◌∷◌, ◌++◌, if◌then◌else◌,
}
use mathlib.Core.Bool.{or-false, or_assoc}
use mathlib.Core.List.{append_assoc, append-nil}
use goutils.Rpc.DialOptions.{DialOptions}
use goutils.Rpc.Dial.{
  Established, Outcome, done, failed, Net, DialResult, Chosen, nothing_chosen, replaced, is_err,
  take_result, choose, direct_outcome, without_conn, outcome_of, finish,
}

abbrev pub connection : Option Established → List String → List Established
connection (some c) [] = c ∷ []
connection c e = []

-- the connections of the results that are a success, in order
abbrev pub connections : List DialResult → List Established
connections [] = []
connections (r ∷ rs) = connection r.conn r.err ++ connections rs

abbrev is_fatal : List String → Bool → Bool
is_fatal (e ∷ es) skip = skip
is_fatal [] skip = false

-- whether one of the results is an error that forbids the direct dial
abbrev pub has_fatal : List DialResult → Bool
has_fatal [] = false
has_fatal (r ∷ rs) = is_fatal r.err r.skip_direct || has_fatal rs

abbrev pub established : Outcome Established → List Established
established (done c) = c ∷ []
established (failed e) = []

-- the connection of the direct dial, where it is tried
abbrev pub direct_connection :
    Net → String → DialOptions → List DialResult → List Established → List Established
direct_connection net address o rs (c ∷ cs) = []
direct_connection net address o rs [] =
    if has_fatal rs || o.disable_direct then [] else established (net.dial_direct_grpc address o)

abbrev held : Chosen → List Established
held s = s.closed ++ replaced s.conn

-- the loop keeps each connection, as closed or as the one to return
take_result-held :
    (s : Chosen) (c : Option Established) (e : List String) (skip : Bool)
    → held (take_result s c e skip) ≡ held s ++ connection c e
take_result-held s (some c) [] skip = refl
take_result-held s none [] skip = sym (append-nil (held s))
take_result-held s none (e ∷ es) true = sym (append-nil (held s))
take_result-held s none (e ∷ es) false = sym (append-nil (held s))
take_result-held s (some c) (e ∷ es) true = sym (append-nil (held s))
take_result-held s (some c) (e ∷ es) false = sym (append-nil (held s))

choose-held : (s : Chosen) (rs : List DialResult) → held (choose s rs) ≡ held s ++ connections rs
unfolding choose
choose-held s [] = sym (append-nil (held s))
choose-held s (r ∷ rs) =
    choose-held (take_result s r.conn r.err r.skip_direct) rs
    ∙ ap (λ l. l ++ connections rs) (take_result-held s r.conn r.err r.skip_direct)
    ∙ append_assoc (held s) (connection r.conn r.err) (connections rs)

is_err-append : (xs ys : List String) → is_err (xs ++ ys) ≡ (is_err xs || is_err ys)
is_err-append [] ys = refl
is_err-append (x ∷ xs) ys = refl

take_result-fatal :
    (s : Chosen) (c : Option Established) (e : List String) (skip : Bool)
    → is_err ((take_result s c e skip).fatal_err) ≡ (is_err s.fatal_err || is_fatal e skip)
take_result-fatal s (some c) [] skip = sym (or-false (is_err s.fatal_err))
take_result-fatal s none [] skip = sym (or-false (is_err s.fatal_err))
take_result-fatal s none (e ∷ es) true = is_err-append s.fatal_err (e ∷ es)
take_result-fatal s none (e ∷ es) false = sym (or-false (is_err s.fatal_err))
take_result-fatal s (some c) (e ∷ es) true = is_err-append s.fatal_err (e ∷ es)
take_result-fatal s (some c) (e ∷ es) false = sym (or-false (is_err s.fatal_err))

choose-fatal :
    (s : Chosen) (rs : List DialResult)
    → is_err ((choose s rs).fatal_err) ≡ (is_err s.fatal_err || has_fatal rs)
unfolding choose
choose-fatal s [] = sym (or-false (is_err s.fatal_err))
choose-fatal s (r ∷ rs) =
    choose-fatal (take_result s r.conn r.err r.skip_direct) rs
    ∙ ap (λ b. b || has_fatal rs) (take_result-fatal s r.conn r.err r.skip_direct)
    ∙ or_assoc (is_err s.fatal_err) (is_fatal r.err r.skip_direct) (has_fatal rs)

-- A connection is closed only where another takes its place.
abbrev IsReplaced : Chosen → Type 0
IsReplaced s = s.conn ≡ none → s.closed ≡ []

take_result-IsReplaced :
    (s : Chosen) (c : Option Established) (e : List String) (skip : Bool)
    → IsReplaced s
    → IsReplaced (take_result s c e skip)
take_result-IsReplaced s (some c) [] skip h = λ p. absurd (cc)
take_result-IsReplaced s none [] skip h = h
take_result-IsReplaced s none (e ∷ es) true h = h
take_result-IsReplaced s none (e ∷ es) false h = h
take_result-IsReplaced s (some c) (e ∷ es) true h = h
take_result-IsReplaced s (some c) (e ∷ es) false h = h

choose-IsReplaced : (s : Chosen) (rs : List DialResult) → IsReplaced s → IsReplaced (choose s rs)
unfolding choose
choose-IsReplaced s [] h = h
choose-IsReplaced s (r ∷ rs) h =
    choose-IsReplaced (take_result s r.conn r.err r.skip_direct) rs
      (take_result-IsReplaced s r.conn r.err r.skip_direct h)

direct_connection-append :
    (net : Net) (address : String) (o : DialOptions) (rs : List DialResult) (xs : List Established)
    (c : Established)
    → direct_connection net address o rs (xs ++ c ∷ []) ≡ []
direct_connection-append net address o rs [] c = refl
direct_connection-append net address o rs (x ∷ xs) c = refl

established-direct :
    (e : List String) (r : Outcome Established) → established (direct_outcome e r) ≡ established r
established-direct e (done c) = refl
established-direct e (failed d) = refl

established-without_conn :
    (net : Net) (address : String) (o : DialOptions) (rs : List DialResult) (fatal e : List String)
    → is_err fatal ≡ has_fatal rs
    → established (without_conn net address o fatal e) ≡ direct_connection net address o rs []
established-without_conn net address o rs [] e h =
    go o.disable_direct refl
    ∙ ap (λ b. if b || o.disable_direct then [] else established (net.dial_direct_grpc address o)) h
  where
    go :
        (b : Bool)
        → o.disable_direct ≡ b
        → established (
            if b
            then failed ("exhausted all connection options with no way to connect" ∷ [])
            else direct_outcome e (net.dial_direct_grpc address o))
          ≡ (if b then [] else established (net.dial_direct_grpc address o))
    go true p = refl
    go false p = established-direct e (net.dial_direct_grpc address o)
established-without_conn net address o rs (f ∷ fs) e h =
    ap (λ b. if b || o.disable_direct then [] else established (net.dial_direct_grpc address o)) h

-- every connection is closed or returned
finish-all :
    (net : Net) (address : String) (o : DialOptions) (rs : List DialResult)
    → let d = finish net address o rs in
      d.closed ++ established d.outcome
      ≡ connections rs ++ direct_connection net address o rs (connections rs)
unfolding finish
finish-all net address o rs = go s.conn refl
  where
    s : Chosen
    s = choose nothing_chosen rs

    go :
        (c : Option Established)
        → s.conn ≡ c
        → s.closed ++ established (outcome_of net address o s c)
          ≡ connections rs ++ direct_connection net address o rs (connections rs)
    go (some c) p =
        let all : s.closed ++ c ∷ [] ≡ connections rs =
          ap (λ x. s.closed ++ replaced x) (sym p) ∙ choose-held nothing_chosen rs in
        all
        ∙ sym (append-nil (connections rs))
        ∙ ap (λ l. connections rs ++ l)
            (sym (direct_connection-append net address o rs s.closed c)
              ∙ ap (direct_connection net address o rs) all)
    go none p =
        let empty : s.closed ≡ [] = choose-IsReplaced nothing_chosen rs (λ q. refl) p in
        let all : [] ≡ connections rs =
          ap (λ l. l ++ []) (sym empty)
          ∙ ap (λ x. s.closed ++ replaced x) (sym p)
          ∙ choose-held nothing_chosen rs in
        ap (λ l. l ++ established (outcome_of net address o s none)) empty
        ∙ established-without_conn net address o rs s.fatal_err s.non_fatal_err
            (choose-fatal nothing_chosen rs)
        ∙ ap (λ l. l ++ direct_connection net address o rs l) all

abbrev pub all_but_last : List Established → List Established
all_but_last [] = []
all_but_last (x ∷ []) = []
all_but_last (x ∷ y ∷ l) = x ∷ all_but_last (y ∷ l)

abbrev pub last_of : List Established → List Established
last_of [] = []
last_of (x ∷ []) = x ∷ []
last_of (x ∷ y ∷ l) = last_of (y ∷ l)

all_but_last-append : (xs : List Established) (c : Established) → all_but_last (xs ++ c ∷ []) ≡ xs
all_but_last-append [] c = refl
all_but_last-append (x ∷ []) c = refl
all_but_last-append (x ∷ y ∷ l) c = ap (λ m. x ∷ m) (all_but_last-append (y ∷ l) c)

last_of-append : (xs : List Established) (c : Established) → last_of (xs ++ c ∷ []) ≡ c ∷ []
last_of-append [] c = refl
last_of-append (x ∷ []) c = refl
last_of-append (x ∷ y ∷ l) c = last_of-append (y ∷ l) c

settled :
    (xs ys : List Established) (r : Outcome Established)
    → (established r ≡ [] → xs ≡ [])
    → xs ++ established r ≡ ys
    → (xs ≡ all_but_last ys) × (established r ≡ last_of ys)
settled xs ys (done c) h e =
    subst (λ l. (xs ≡ all_but_last l) × (c ∷ [] ≡ last_of l)) e
      (sym (all_but_last-append xs c), sym (last_of-append xs c))
settled xs ys (failed d) h e =
    let empty : xs ≡ [] = h refl in
    subst (λ l. (xs ≡ all_but_last l) × ([] ≡ last_of l)) (sym empty ∙ sym (append-nil xs) ∙ e)
      (empty, refl)

finish-none_closed :
    (net : Net) (address : String) (o : DialOptions) (rs : List DialResult)
    → let d = finish net address o rs in established d.outcome ≡ [] → d.closed ≡ []
unfolding finish
finish-none_closed net address o rs = go s.conn refl
  where
    s : Chosen
    s = choose nothing_chosen rs

    go :
        (c : Option Established)
        → s.conn ≡ c
        → established (outcome_of net address o s c) ≡ []
        → s.closed ≡ []
    go (some c) p h = absurd (cc)
    go none p h = choose-IsReplaced nothing_chosen rs (λ q. refl) p

-- In whatever order the attempts end: of the connections that they establish the last is returned, and
-- those before it are closed. Where they establish none, the direct dial is tried just if none of their
-- errors forbids it and it is not disabled, and its connection, if any, is the one returned.
pub finish-connections :
    (net : Net) (address : String) (o : DialOptions) (rs : List DialResult)
    → let d = finish net address o rs in
      let made = connections rs ++ direct_connection net address o rs (connections rs) in
      (d.closed ≡ all_but_last made) × (established d.outcome ≡ last_of made)
finish-connections net address o rs =
    let d = finish net address o rs in
    settled d.closed (connections rs ++ direct_connection net address o rs (connections rs))
      d.outcome (finish-none_closed net address o rs) (finish-all net address o rs)
