-- ===== src/Webhook/Authentic.antt =====
-- internal/publichook/handler.go: which webhooks ServeHTTP accepts.
use hookfly.Base.{
  String, true, false, Option, none, some, ◌≡◌, refl, Bool-cases, inl, inr, str_eq, is_some,
  if◌then◌else◌,
}
use hookfly.Domain.{Bytes, Millis, CanonicalEvent}
use hookfly.Store.Headers.{HeaderCodec}
use hookfly.Store.Tables.{Db}
use hookfly.Store.Invariant.{not_both}
use hookfly.Runtime.Manager.{Manager}
use hookfly.Worker.Drainer.{Generation}
use hookfly.Webhook.Provider.{Library, IncomingEvent}
use hookfly.Webhook.Source.{Source, normalize}
use hookfly.Webhook.Handler.{
  Request, Response, unauthorized, not_found, Body, read, too_large, unreadable, Encoding,
  is_accepted, with_event, with_body, with_source, gitlab_source, serve,
}

module _ (lib : Library) (enc : Encoding) (codec : HeaderCodec) (provider : String) (now : Millis)
    (req : Request) (m : Manager Generation) (db : Db) where
  -- The source has verified the body that was read, and has decoded it.
  abbrev pub Verified : Source → Type 0
  Verified s =
      (body : Bytes) × (req.body ≡ read body)
      × (s.adapter.authenticate req.headers body ≡ true)
      × (is_some (normalize s req.headers body) ≡ true)

  decoded :
      (body : Bytes) (o : Option (CanonicalEvent × IncomingEvent))
      → is_accepted (with_event lib enc codec provider now req m db body o).response ≡ true
      → is_some o ≡ true
  decoded body none h = absurd (not_both _ h refl)
  decoded body (some x) h = refl

  body-Verified :
      (s : Source) (b : Body)
      → req.body ≡ b
      → is_accepted (with_body lib enc codec provider now req m db s b).response ≡ true
      → Verified s
  body-Verified s too_large e h = absurd (not_both _ h refl)
  body-Verified s unreadable e h = absurd (not_both _ h refl)
  body-Verified s (read body) e h = elim (Bool-cases (s.adapter.authenticate req.headers body)) [
    | inl t ↦ (body, e, t, decoded body (normalize s req.headers body) (rw t at h))
    | inr t ↦ absurd (not_both _ (rw t at h) refl)
  ]

  source-Verified :
      (r : Response)
      → is_accepted r ≡ false
      → (o : Option Source)
      → is_accepted (with_source lib enc codec provider now req m db r o).response ≡ true
      → (s : Source) × (o ≡ some s) × Verified s
  source-Verified r n none h = absurd (not_both _ h n)
  source-Verified r n (some s) h = (s, refl, body-Verified s req.body refl h)

  -- The configured source that a request names: by its path, or, for GitLab, by its token.
  abbrev pub named_source : Option Source
  named_source =
      if str_eq provider "gitlab"
      then gitlab_source lib enc codec provider now req m db
      else m.current.sources provider req.source_id

  -- A webhook is accepted only if the current generation has the source that it names, its body was
  -- read within the limit, the source has verified that body with the headers, and could decode it.
  pub serve-Verified :
      is_accepted (serve lib enc codec provider now req m db).response ≡ true
      → (s : Source) × (named_source ≡ some s) × Verified s
  unfolding serve
  serve-Verified h = elim (Bool-cases (str_eq provider "gitlab")) [
    | inl g ↦
        let (s, e, k) =
          source-Verified unauthorized refl (gitlab_source lib enc codec provider now req m db)
            (rw (g, serve) at h) in
        (s, rw g e, k)
    | inr g ↦
        let (s, e, k) =
          source-Verified not_found refl (m.current.sources provider req.source_id)
            (rw (g, serve) at h) in
        (s, rw g e, k)
  ]
