-- ===== src/Rpc/CallQueue/Phases.antt =====
-- What a caller sees of an offer: SendOfferUpdate, SendOfferDone and SendOfferError as a machine of
-- three phases.
use goutils.Common.{
  ℕ, String, ◌≡◌, refl, sym, ap, ◌∙◌, subst, Bool, true, false, Option, none, some, [], ◌∷◌, All,
  if◌then◌else◌, ◌==◌, if_both, arith,
}
use goutils.Common.Dict.{Dict, get, get-remove_self}
use goutils.Common.Dict
use goutils.Rpc.CallQueue.{
  DoneError, canceled, Error, inactive_offer, context, Exchange, Queue, updated, cancel, change,
  with_shared, get_or_make_hosts_queue, send_offer_update, find, done_of, send_offer_done,
  is_caller_done, error_of, send_offer_error,
}
use goutils.Rpc.CallQueue.Hosts.{get_or_make_hosts_queue-own}
use goutils.Rpc.CallQueue.Sound.{IsOffer, IsSound, All-get, get_or_make_hosts_queue-AllActive}
use goutils.Rpc.CallQueue.Fresh.{get_or_make_hosts_queue-exchanges}
use goutils.Rpc.CallQueue.Final.{change_self}

-- no active offer, an offer whose caller may go on, and one whose caller is done
pub data Phase : Type 0 where
  unknown : Phase
  calling : Phase
  finished : Phase

pub data CallerOp (E : Type 0) : Type 0 where
  -- with what ends the select of SendOfferUpdate: the error of its context, or the answerer's receive
  update : Option DoneError → CallerOp E
  finish : CallerOp E
  fail : Option E → CallerOp E

abbrev pub next_phase : {E : Type 0} → CallerOp E → Phase → Phase
next_phase finish calling = finished
next_phase (fail e) calling = unknown
next_phase op ph = ph

abbrev select_error : Option DoneError → Option Error
select_error none = none
select_error (some d) = some (context d)

-- what a call answers where it finds the offer
abbrev known_answer : {E : Type 0} → CallerOp E → Option Error
known_answer (update ends) = select_error ends
known_answer finish = none
known_answer (fail e) = none

abbrev pub answer : {E : Type 0} → CallerOp E → String → Phase → Option Error
answer op uuid unknown = some (inactive_offer uuid)
answer op uuid calling = known_answer op
answer op uuid finished = known_answer op

-- the rest of SendOfferUpdate, which goes on to its select where it finds the offer
abbrev update_error : Option DoneError → String → Option ℕ → Option Error
update_error ends uuid none = some (inactive_offer uuid)
update_error ends uuid (some r) = select_error ends

module _ {C A E : Type 0} where
  unfoldable pub call : Queue C A E → String → String → CallerOp E → Queue C A E × Option Error
  unfolding send_offer_update send_offer_done send_offer_error
  call q host uuid (update ends) =
      let (p, o) = send_offer_update q host uuid in (p, update_error ends uuid o)
  call q host uuid finish = send_offer_done q host uuid
  call q host uuid (fail e) = send_offer_error q host uuid e

  abbrev pub phase_of : (ℕ → Option (Exchange C A E)) → Option ℕ → Phase
  phase_of f none = unknown
  phase_of f (some r) = if is_caller_done (f r) then finished else calling

  abbrev pub phase : Queue C A E → String → String → Phase
  phase q host uuid = elim (Dict.get q.host_queues host) [
    | none ↦ unknown
    | some k ↦ phase_of q.exchanges (Dict.get (q.active_offers k) uuid)
  ]

  phase-known :
      (q : Queue C A E) (host uuid : String) (k : ℕ)
      → Dict.get q.host_queues host ≡ some k
      → phase q host uuid ≡ phase_of q.exchanges (Dict.get (q.active_offers k) uuid)
  phase-known q host uuid k e =
      ap
        (λ o. elim o [
          | none ↦ unknown
          | some j ↦ phase_of q.exchanges (Dict.get (q.active_offers j) uuid)
        ])
        e

  -- looking up the host's queue does not change the phase
  found-phase :
      (q : Queue C A E) (host uuid : String)
      → phase_of
          (get_or_make_hosts_queue q (host ∷ [])).0.exchanges
          (find (get_or_make_hosts_queue q (host ∷ [])) uuid)
        ≡ phase q host uuid
  unfolding get_or_make_hosts_queue get
  found-phase q host uuid = go (Dict.get q.host_queues host)
    where
      empty :
          (b : Bool)
          → b ≡ true
          → phase_of q.exchanges (Dict.get (if b then [] else q.active_offers q.next_queue) uuid)
            ≡ unknown
      empty true e = refl
      empty false e = absurd (cc)

      go :
          (o : Option ℕ)
          → (let s =
                with_shared q
                  (elim o [ none ↦ host ∷ [] | some k ↦ [] ])
                  (elim o [ none ↦ none | some k ↦ some k ]) in
              phase_of s.0.exchanges (find s uuid))
            ≡ elim o [
              | none ↦ unknown
              | some k ↦ phase_of q.exchanges (Dict.get (q.active_offers k) uuid)
            ]
      go none = empty (q.next_queue == q.next_queue) (ground arith)
      go (some k) = refl

  -- the next phase and the answer
  abbrev Acts : String → String → CallerOp E → Queue C A E × Option Error → Phase → Type 0
  Acts host uuid op (q, e) ph = (phase q host uuid ≡ next_phase op ph) × (e ≡ answer op uuid ph)

  module _ (p : Queue C A E) (host uuid : String) (k : ℕ)
      (own : Dict.get p.host_queues host ≡ some k) where
    active_phase :
        (o : Option ℕ)
        → Dict.get (p.active_offers k) uuid ≡ o
        → phase p host uuid ≡ phase_of p.exchanges o
    active_phase o found = phase-known p host uuid k own ∙ ap (phase_of p.exchanges) found

    update-Acts :
        (ends : Option DoneError) (o : Option ℕ)
        → Dict.get (p.active_offers k) uuid ≡ o
        → Acts host uuid (update ends) (p, update_error ends uuid o) (phase_of p.exchanges o)
    update-Acts ends none found = (active_phase none found, refl)
    update-Acts ends (some r) found = (
      active_phase (some r) found,
      if_both (λ ph. select_error ends ≡ answer {E = E} (update ends) uuid ph)
          (is_caller_done (p.exchanges r)) refl refl,
    )

    cancel-is_caller_done :
        (x : Exchange C A E)
        → is_caller_done (some (record x { caller_done = cancel x.caller_done canceled })) ≡ true
    cancel-is_caller_done x = go x.caller_done
      where
        go :
            (o : Option DoneError)
            → (elim (cancel o canceled) [ none ↦ false | some d ↦ true ]) ≡ true
        go none = refl
        go (some d) = refl

    done_of-Acts :
        (o : Option ℕ)
        → Dict.get (p.active_offers k) uuid ≡ o
        → All (IsOffer p.exchanges) (p.active_offers k)
        → Acts host uuid finish (done_of p uuid o) (phase_of p.exchanges o)
    done_of-Acts none found active = (active_phase none found, refl)
    done_of-Acts (some r) found active =
        let (x, there, same) =
          All-get (IsOffer p.exchanges) (p.active_offers k) uuid r active found in
        let f : Exchange C A E → Exchange C A E =
          λ y. record y { caller_done = cancel y.caller_done canceled } in
        let done : is_caller_done ((change p r f).exchanges r) ≡ true =
          ap is_caller_done (change_self p r f x there) ∙ cancel-is_caller_done x in
        (
          phase-known (change p r f) host uuid k own
              ∙ ap (phase_of (change p r f).exchanges) found
              ∙ ap (λ b. if b then finished else calling) done
              ∙ if_both (λ ph. finished ≡ next_phase {E = E} finish ph)
                  (is_caller_done (p.exchanges r)) refl refl,
          if_both (λ ph. none ≡ answer {E = E} finish uuid ph) (is_caller_done (p.exchanges r)) refl
              refl,
        )

    error_of-Acts :
        (e : Option E) (o : Option ℕ)
        → Dict.get (p.active_offers k) uuid ≡ o
        → Acts host uuid (fail e) (error_of (p, k) uuid e o) (phase_of p.exchanges o)
    error_of-Acts e none found = (active_phase none found, refl)
    error_of-Acts e (some r) found = go (is_caller_done (p.exchanges r)) refl
      where
        failed : Queue C A E
        failed =
            record (change p r
              (λ y. record y { caller_err = e; caller_done = cancel y.caller_done canceled })) {
                active_offers = updated p.active_offers k (Dict.remove (p.active_offers k) uuid);
              }

        removed :
            (b : Bool)
            → b ≡ true
            → Dict.get (if b then Dict.remove (p.active_offers k) uuid else p.active_offers k) uuid
              ≡ none
        removed true h = get-remove_self (p.active_offers k) uuid
        removed false h = absurd (cc)

        go :
            (b : Bool)
            → is_caller_done (p.exchanges r) ≡ b
            → Acts host uuid
                (fail e)
                (if b then (p, none) else (failed, none))
                (if b then finished else calling)
        go true h =
            (active_phase (some r) found ∙ ap (λ b. if b then finished else calling) h, refl)
        go false h = (
          phase-known failed host uuid k own
              ∙ ap (phase_of failed.exchanges) (removed (k == k) (ground arith)),
          refl,
        )

  -- What a caller sees of an offer is a machine of three phases. Where no offer is active under the uuid,
  -- each call answers that it is not; SendOfferUpdate leaves the phase as it is, SendOfferDone
  -- finishes a call that goes on, SendOfferError ends it so that it is not known any more, and
  -- neither changes one that is finished. On an offer that is active, SendOfferUpdate answers the
  -- error of its context where that ends its select, and nothing else answers an error.
  pub call-next_phase :
      (q : Queue C A E) (host uuid : String) (op : CallerOp E)
      → IsSound q
      → (phase (call q host uuid op).0 host uuid ≡ next_phase op (phase q host uuid))
        × ((call q host uuid op).1 ≡ answer op uuid (phase q host uuid))
  unfolding call send_offer_update send_offer_done send_offer_error
  call-next_phase q host uuid op sound = go op
    where
      s : Queue C A E × ℕ
      s = get_or_make_hosts_queue q (host ∷ [])

      active : All (IsOffer s.0.exchanges) (s.0.active_offers s.1)
      active =
          subst (λ f. All (IsOffer f) (s.0.active_offers s.1))
            (sym (get_or_make_hosts_queue-exchanges q (host ∷ [])).0)
            (get_or_make_hosts_queue-AllActive q.exchanges q (host ∷ []) sound.active s.1)

      go : (op : CallerOp E) → Acts host uuid op (call q host uuid op) (phase q host uuid)
      go (update ends) =
          subst (Acts host uuid (update ends) (call q host uuid (update ends)))
            (found-phase q host uuid)
            (update-Acts s.0 host uuid s.1 (get_or_make_hosts_queue-own q host) ends (find s uuid)
              refl)
      go finish =
          subst (Acts host uuid finish (call q host uuid finish)) (found-phase q host uuid) (
            done_of-Acts s.0 host uuid s.1 (get_or_make_hosts_queue-own q host) (find s uuid) refl
              active)
      go (fail e) =
          subst (Acts host uuid (fail e) (call q host uuid (fail e))) (found-phase q host uuid) (
            error_of-Acts s.0 host uuid s.1 (get_or_make_hosts_queue-own q host) e (find s uuid)
              refl)
