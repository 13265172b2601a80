-- ===== src/Webhook/Answers.antt =====
-- internal/publichook/handler.go: the ways in which the handler answers.
use hookfly.Store.Headers.{HeaderCodec}
use hookfly.Base.{
  String, Bool, true, false, ◌&&◌, Option, none, some, [], ◌≡◌, refl, sym, ap, inl, inr, Bool-cases,
  arith, str_eq,
}
use hookfly.Domain.{Bytes, Millis, CanonicalEvent, RouteDecision, IngestCommand}
use hookfly.Store.Tables.{Db}
use hookfly.Runtime.Manager.{State, Manager}
use hookfly.Worker.Drainer.{Generation}
use hookfly.Webhook.Provider.{IncomingEvent, Library}
use hookfly.Webhook.Source.{Source, normalize}
use hookfly.Webhook.Handler.{
  Body, read, too_large, unreadable, Request, Response, bad_request, unauthorized, not_found,
  payload_too_large, internal_error, unavailable, is_accepted, Encoding, Served, reload_defers,
  decide, command_of, store_command, with_request, kept_request, with_decision, with_headers,
  is_foreign, with_event, with_body, with_source, gitlab_source, serve,
}

-- While a reload defers events, a decision has no deliveries.
decide_deferring :
    (g : Generation) (state : State) (supported : Bool) (e : CanonicalEvent) (d : RouteDecision)
    → decide g state supported e ≡ some d
    → reload_defers state ≡ true
    → d.deliveries ≡ []
unfolding decide
decide_deferring g state true e d h r =
    ap (λ (x : RouteDecision). x.deliveries) (sym (some_inj (rw r at h)))
  where
    some_inj : {x y : RouteDecision} → some x ≡ some y → x ≡ y
    some_inj p = cc
decide_deferring g state false e d h r = ap (λ (x : RouteDecision). x.deliveries) (sym (some_inj h))
  where
    some_inj : {x y : RouteDecision} → some x ≡ some y → x ≡ y
    some_inj p = cc

module _ (lib : Library) (enc : Encoding) (codec : HeaderCodec) (provider : String) (now : Millis)
    (req : Request) (m : Manager Generation) (db : Db) (P : Served → Type 0)
    (on_refusal : (r : Response)
      → is_accepted r ≡ false
      → P (record { response = r; manager = m; db = db }))
    (on_command : (deferred : Bool) (c : IngestCommand)
      → (deferred ≡ true → reload_defers m.state ≡ true)
      → (reload_defers m.state ≡ true → c.deliveries ≡ [])
      → P (store_command lib enc codec provider now req m db deferred c)) where
  by_request :
      (e : CanonicalEvent) (i : IncomingEvent) (body headers : Bytes) (d : RouteDecision)
      → (reload_defers m.state ≡ true → d.deliveries ≡ [])
      → (o : Option Bytes)
      → P (with_request lib enc codec provider now req m db e i body headers d o)
  by_request e i body headers d none_made none = on_refusal internal_error refl
  by_request e i body headers d none_made (some request) =
      on_command (i.supported && reload_defers m.state)
        (command_of lib enc codec now m.current e i body headers request d)
        (second i.supported (reload_defers m.state)) none_made
    where
      second : (a b : Bool) → (a && b) ≡ true → b ≡ true
      second a b h = ground arith

  by_decision :
      (e : CanonicalEvent) (i : IncomingEvent) (body headers : Bytes) (o : Option RouteDecision)
      → decide m.current m.state i.supported e ≡ o
      → P (with_decision lib enc codec provider now req m db e i body headers o)
  by_decision e i body headers none h = on_refusal unavailable refl
  by_decision e i body headers (some d) h =
      by_request e i body headers d (decide_deferring m.current m.state i.supported e d h)
        (kept_request lib enc codec provider now req m db i d)

  by_headers :
      (e : CanonicalEvent) (i : IncomingEvent) (body : Bytes) (o : Option Bytes)
      → P (with_headers lib enc codec provider now req m db e i body o)
  by_headers e i body none = on_refusal internal_error refl
  by_headers e i body (some headers) =
      by_decision e i body headers (decide m.current m.state i.supported e) refl

  by_event :
      (body : Bytes) (o : Option (CanonicalEvent × IncomingEvent))
      → P (with_event lib enc codec provider now req m db body o)
  by_event body none = on_refusal bad_request refl
  by_event body (some (e, i)) =
      elim (Bool-cases (is_foreign lib enc codec provider now req m db e i)) [
        | inl f ↦ rw f (on_refusal unauthorized refl)
        | inr f ↦ rw f (by_headers e i body (enc.marshal_headers i.safe_headers))
      ]

  by_body : (s : Source) (b : Body) → P (with_body lib enc codec provider now req m db s b)
  by_body s too_large = on_refusal payload_too_large refl
  by_body s unreadable = on_refusal bad_request refl
  by_body s (read body) = elim (Bool-cases (s.adapter.authenticate req.headers body)) [
    | inl t ↦ rw t (by_event body (normalize s req.headers body))
    | inr t ↦ rw t (on_refusal unauthorized refl)
  ]

  by_source :
      (r : Response)
      → is_accepted r ≡ false
      → (o : Option Source) → P (with_source lib enc codec provider now req m db r o)
  by_source r n none = on_refusal r n
  by_source r n (some s) = by_body s req.body

  -- A property of the answers of the handler: it holds of the refusals, and of the stored commands.
  pub by_answer : P (serve lib enc codec provider now req m db)
  unfolding serve
  by_answer = elim (Bool-cases (str_eq provider "gitlab")) [
    | inl g ↦
        rw (g, serve)
          (by_source unauthorized refl (gitlab_source lib enc codec provider now req m db))
    | inr g ↦ rw (g, serve) (by_source not_found refl (m.current.sources provider req.source_id))
  ]
